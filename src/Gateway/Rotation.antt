-- ===== src/Gateway/Rotation.antt =====
-- The turns of `_select_running_instance` of backend/app/services/ai_service.py, against a queue whose head
-- goes to its end.
use native.Mathlib.Nat.{suc-mod, mod-lt, mod-eq_of_lt, mod_self}
use my_frist_reop.Prelude.{
  ℕ, zero, suc, ◌+◌, length-append, ◌%◌, ◌<◌, ◌≡◌, ◌≢◌, refl, sym, ap, ◌∙◌, subst, inl, inr, ◌⊎◌,
  some, List, [], ◌∷◌, ◌++◌, length, take, drop, ◌==◌, Bool-cases, arith,
}
use my_frist_reop.Models.{ModelInstance}
use my_frist_reop.Gateway.{
  Gateway, GatewayError, running_instances, get_elem?, count_up, select_running_instance,
}

module _ {ℓ} {A : Type ℓ} where
  -- The list from a position on, then the part before it.
  abbrev pub rotated : ℕ → List A → List A
  rotated k xs = drop k xs ++ take k xs

  -- The element at a position, and where it stands.
  record IsAt (k : ℕ) (xs : List A) (x : A) : Type ℓ where
    pub at : get_elem? xs k ≡ some x
    pub after : drop k xs ≡ x ∷ drop (suc k) xs
    pub before : take (suc k) xs ≡ take k xs ++ x ∷ []

  element-IsAt : (xs : List A) (k : ℕ) → k < length xs → (x : A) × IsAt k xs x
  element-IsAt [] k lt = absurd (omega arith)
  element-IsAt (x ∷ xs) zero lt = (x, record { at = refl; after = refl; before = refl })
  element-IsAt (x ∷ xs) (suc k) lt =
      let (y, h) = element-IsAt xs k (omega arith) in
      (y, record { at = h.at; after = h.after; before = ap (λ ys. x ∷ ys) h.before })

  take_all : (xs : List A) → take (length xs) xs ≡ xs
  take_all [] = refl
  take_all (x ∷ xs) = rw (take_all xs)

  drop_all : (xs : List A) → drop (length xs) xs ≡ []
  drop_all [] = refl
  drop_all (x ∷ xs) = drop_all xs

  pub append_nil : (xs : List A) → xs ++ [] ≡ xs
  append_nil [] = refl
  append_nil (x ∷ xs) = rw (append_nil xs)

  append_assoc : (xs ys zs : List A) → (xs ++ ys) ++ zs ≡ xs ++ (ys ++ zs)
  append_assoc [] ys zs = refl
  append_assoc (x ∷ xs) ys zs = rw (append_assoc xs ys zs)

  length-parts : (k : ℕ) (xs : List A) → length (drop k xs) + length (take k xs) ≡ length xs
  length-parts zero xs = omega arith
  length-parts (suc k) [] = omega arith
  length-parts (suc k) (x ∷ xs) = omega (arith, length-parts k xs)

  length-rotated : (k : ℕ) (xs : List A) → length (rotated k xs) ≡ length xs
  length-rotated k xs = length-append (drop k xs) (take k xs) ∙ length-parts k xs

  -- One position further, around the end, is the rotation with its head at the end.
  next_rotated :
      (c : ℕ) (xs : List A) (x : A)
      → c % length xs < length xs
      → IsAt (c % length xs) xs x
      → (rotated (c % length xs) xs ≡ x ∷ drop (suc (c % length xs)) xs ++ take (c % length xs) xs)
        × (rotated (suc c % length xs) xs
            ≡ (drop (suc (c % length xs)) xs ++ take (c % length xs) xs) ++ x ∷ [])
  next_rotated c xs x lt h =
      let k = c % length xs in
      let head = ap (λ ys. ys ++ take k xs) h.after in
      let tail = ap (λ ys. drop (suc k) xs ++ ys) h.before in
      let next = tail ∙ sym (append_assoc (drop (suc k) xs) (take k xs) (x ∷ [])) in
      elim (Bool-cases (suc k == length xs)) [
        | inr e ↦
            let step = suc-mod c (length xs) ∙ mod-eq_of_lt (ground arith) in
            (head, ap (λ j. rotated j xs) step ∙ next)
        | inl e ↦
            let whole : suc k ≡ length xs = ground arith in
            let step =
              suc-mod c (length xs) ∙ ap (λ j. j % length xs) whole ∙ mod_self (length xs) in
            let all =
              ap (λ j. rotated j xs) whole
              ∙ ap (λ ys. ys ++ take (length xs) xs) (drop_all xs)
              ∙ take_all xs in
            (head, ap (λ j. rotated j xs) step ∙ append_nil xs ∙ sym all ∙ next)
      ]

-- The abstract view: the running instances of a model in the order of their next turns.
unfoldable pub queue : ℕ → Gateway → List ModelInstance
queue id g = let xs = running_instances id g.tables in rotated (g.counters id % length xs) xs

-- One turn of the queue: an error if it is empty, else its head is taken and goes to its end, and the queues
-- of other models and the tables stay.
abbrev pub IsTurn :
    ℕ → Gateway → List ModelInstance → GatewayError ⊎ (ModelInstance × Gateway) → Type 0
IsTurn id g [] r = r ≡ inl GatewayError.type_error
IsTurn id g (i ∷ rest) r =
    (g' : Gateway) × (r ≡ inr (i, g'))
    × (queue id g' ≡ rest ++ i ∷ [])
    × ((j : ℕ) → j ≢ id → queue j g' ≡ queue j g)
    × (g'.tables ≡ g.tables)

count_up_other : (id : ℕ) (c : ℕ → ℕ) (j : ℕ) → j ≢ id → count_up id c j ≡ c j
count_up_other id c j ne = ground arith

count_up_self : (id : ℕ) (c : ℕ → ℕ) → count_up id c id ≡ suc (c id)
count_up_self id c = ground arith

abbrev counted : ℕ → Gateway → Gateway
counted id g = record g { counters = count_up id g.counters }

queue-eq :
    (id : ℕ) (g : Gateway) (xs : List ModelInstance)
    → running_instances id g.tables ≡ xs
    → queue id g ≡ rotated (g.counters id % length xs) xs
unfolding queue
queue-eq id g xs e = rw (e, queue) refl

rotated_nil : (k : ℕ) → rotated {A = ModelInstance} k [] ≡ []
rotated_nil zero = refl
rotated_nil (suc k) = refl

select_empty :
    (id : ℕ) (g : Gateway)
    → running_instances id g.tables ≡ []
    → IsTurn id g (queue id g) (select_running_instance id g)
unfolding select_running_instance
select_empty id g e =
    subst (λ q. IsTurn id g q (select_running_instance id g))
      (sym (queue-eq id g [] e ∙ rotated_nil _)) (rw (e, select_running_instance) refl)

IsTurn-of :
    (id : ℕ) (g : Gateway) (xs : List ModelInstance)
    → running_instances id g.tables ≡ xs
    → g.counters id % length xs < length xs
    → IsTurn id g (queue id g) (select_running_instance id g)
unfolding select_running_instance queue
IsTurn-of id g xs e lt =
    let c = g.counters id in
    let (i, h) = element-IsAt xs (c % length xs) lt in
    let (head, next) = next_rotated c xs i lt h in
    subst (λ q. IsTurn id g q (select_running_instance id g)) (sym (queue-eq id g xs e ∙ head))
      (
        counted id g,
        rw (e, h.at, select_running_instance) refl,
        queue-eq id (counted id g) xs e
            ∙ ap (λ k. rotated (k % length xs) xs) (count_up_self id g.counters)
            ∙ next,
        (λ j ne.
            ap
              (λ k.
                rotated (k % length (running_instances j g.tables)) (running_instances j g.tables))
              (count_up_other id g.counters j ne)),
        refl,
      )

-- The choice of an instance refines the queue: without a running instance of the model it is an error, and
-- otherwise it returns the head of the model's queue, which goes to the end, and leaves the queues of all
-- other models and all tables as they were.
pub select_running_instance-IsTurn :
    (id : ℕ) (g : Gateway) → IsTurn id g (queue id g) (select_running_instance id g)
select_running_instance-IsTurn id g = go (running_instances id g.tables) refl
  where
    go :
        (xs : List ModelInstance)
        → running_instances id g.tables ≡ xs
        → IsTurn id g (queue id g) (select_running_instance id g)
    go [] e = select_empty id g e
    go (x ∷ xs) e = IsTurn-of id g (x ∷ xs) e (mod-lt (g.counters id) (omega arith))

-- The instances that serve a number of requests for a model, one after the other.
unfoldable pub turns : ℕ → ℕ → Gateway → List ModelInstance × Gateway
turns zero id g = ([], g)
turns (suc n) id g = elim (select_running_instance id g) [
  | inl e ↦ ([], g)
  | inr (i, g') ↦ let (is, g'') = turns n id g' in (i ∷ is, g'')
]

turns-prefix :
    (xs ys : List ModelInstance) (id : ℕ) (g : Gateway)
    → queue id g ≡ xs ++ ys
    → ((turns (length xs) id g).0 ≡ xs) × (queue id (turns (length xs) id g).1 ≡ ys ++ xs)
unfolding turns
turns-prefix [] ys id g e = (refl, e ∙ sym (append_nil ys))
turns-prefix (x ∷ xs) ys id g e =
    let (g', found, moved, others, same) =
      subst (λ q. IsTurn id g q (select_running_instance id g)) e
        (select_running_instance-IsTurn id g) in
    let (served, left) =
      turns-prefix xs (ys ++ x ∷ []) id g' (moved ∙ append_assoc xs ys (x ∷ [])) in
    rw (found, turns) (ap (λ is. x ∷ is) served, left ∙ append_assoc ys (x ∷ []) xs)

length-queue : (id : ℕ) (g : Gateway) → length (queue id g) ≡ length (running_instances id g.tables)
unfolding queue
length-queue id g = length-rotated _ (running_instances id g.tables)

-- As many requests for a model as it has running instances, one after the other and whatever came before,
-- are served by each running instance once, in the order of the queue, which is then as it was.
pub turns-each_once :
    (id : ℕ) (g : Gateway)
    → (let r = turns (length (running_instances id g.tables)) id g in
        (r.0 ≡ queue id g) × (queue id r.1 ≡ queue id g))
turns-each_once id g =
    subst (λ n. (let r = turns n id g in (r.0 ≡ queue id g) × (queue id r.1 ≡ queue id g)))
      (length-queue id g) (turns-prefix (queue id g) [] id g (sym (append_nil (queue id g))))
