-- ===== src/Prelude/Table.antt =====
-- Database tables as lists of rows with a numeric primary key: `session.get`, updates by key.
use Prim.Native.Nat.{ℕ}
use mathlib.Core.Path.{◌≡◌, refl, ap}
use mathlib.Core.Logic.{◌≢◌, inl, inr}
use mathlib.Core.Bool.{Bool, true}
use mathlib.Core.Option.{Option, none, some}
use mathlib.Core.List.{List, [], ◌∷◌, map, Memᴰ}
use native.Mathlib.Omega.{arith}
use my_frist_reop.Prelude.Tests.{◌==◌, if◌then◌else◌, Bool-cases}
use my_frist_reop.Prelude.Lists.{All, elem}

-- A row type with its primary key.
pub record Keyed {ℓ} (A : Type ℓ) : Type ℓ where
  pub key : A → ℕ

module _ {ℓ} {A : Type ℓ} where
  -- `UPDATE … WHERE p`: the rows that pass the test are changed in place.
  abbrev pub update_where : (A → Bool) → (A → A) → List A → List A
  update_where p f [] = []
  update_where p f (x ∷ xs) = (if p x then f x else x) ∷ update_where p f xs

module _ {ℓ} {A : Type ℓ} ⦃k : Keyed A⦄ where
  -- `session.get(A, id)`
  abbrev pub get : ℕ → List A → Option A
  get i [] = none
  get i (x ∷ xs) = if k.key x == i then some x else get i xs

  -- Attribute assignments on the object with that key, as they reach its row.
  abbrev pub modify : ℕ → (A → A) → List A → List A
  modify i f [] = []
  modify i f (x ∷ xs) = (if k.key x == i then f x else x) ∷ modify i f xs

  pub get-modify_self :
      (i : ℕ) (f : A → A) (xs : List A) (x : A)
      → ((y : A) → k.key (f y) ≡ k.key y)
      → get i xs ≡ some x
      → get i (modify i f xs) ≡ some (f x)
  get-modify_self i f [] x same h = ground arith
  get-modify_self i f (y ∷ xs) x same h = ground (arith, same y, get-modify_self i f xs x same)

  pub get-modify_ne :
      (i j : ℕ) (f : A → A) (xs : List A)
      → ((y : A) → k.key (f y) ≡ k.key y)
      → i ≢ j
      → get j (modify i f xs) ≡ get j xs
  get-modify_ne i j f [] same h = refl
  get-modify_ne i j f (y ∷ xs) same h = ground (arith, same y, get-modify_ne i j f xs same h)

  pub key-get : (i : ℕ) (xs : List A) (x : A) → get i xs ≡ some x → k.key x ≡ i
  key-get i [] x h = ground arith
  key-get i (y ∷ xs) x h = ground (arith, key-get i xs x)

module _ {ℓ} {A : Type ℓ} where
  -- A row after an update comes from a row before it.
  pub update_where-Memᴰ :
      (p : A → Bool) (f : A → A) (y : A) (xs : List A)
      → Memᴰ y (update_where p f xs)
      → (x : A) × Memᴰ x xs × (y ≡ (if p x then f x else x))
  update_where-Memᴰ p f y [] m = elim m [ ]
  update_where-Memᴰ p f y (x ∷ xs) (Memᴰ.head e) = (x, Memᴰ.head refl, e)
  update_where-Memᴰ p f y (x ∷ xs) (Memᴰ.tail m) =
      let (z, k, e) = update_where-Memᴰ p f y xs m in (z, Memᴰ.tail k, e)

  -- A row before an update becomes a row after it.
  pub Memᴰ-update_where :
      (p : A → Bool) (f : A → A) (x : A) {xs : List A}
      → Memᴰ x xs
      → Memᴰ (if p x then f x else x) (update_where p f xs)
  Memᴰ-update_where p f x (Memᴰ.head e) = Memᴰ.head (ap (λ y. if p y then f y else y) e)
  Memᴰ-update_where p f x (Memᴰ.tail m) = Memᴰ.tail (Memᴰ-update_where p f x m)

  -- An update that changes no row leaves the table as it was.
  pub update_where-same :
      (p : A → Bool) (f : A → A) (xs : List A)
      → All (λ x. (if p x then f x else x) ≡ x) xs
      → update_where p f xs ≡ xs
  update_where-same p f [] h = refl
  update_where-same p f (x ∷ xs) h = rw (h.0, update_where-same p f xs h.1)

  -- Two updates of which the second undoes the first on every row.
  pub update_where-undo :
      (p q : A → Bool) (f g : A → A) (xs : List A)
      → All (λ x. (let y = if p x then f x else x in if q y then g y else y) ≡ x) xs
      → update_where q g (update_where p f xs) ≡ xs
  update_where-undo p q f g [] h = refl
  update_where-undo p q f g (x ∷ xs) h = rw (h.0, update_where-undo p q f g xs h.1)

-- `key in {f(x) for x in xs}`, with the element that has it.
module _ {ℓ} {A : Type ℓ} (f : A → ℕ) where
  pub elem-map-Memᴰ :
      (n : ℕ) (xs : List A) → elem n (map f xs) ≡ true → (x : A) × Memᴰ x xs × (f x ≡ n)
  elem-map-Memᴰ n [] h = absurd (ground arith)
  elem-map-Memᴰ n (x ∷ xs) h = elim (Bool-cases (n == f x)) [
    | inl e ↦ (x, Memᴰ.head refl, ground arith)
    | inr e ↦ let (y, m, k) = elem-map-Memᴰ n xs (ground arith) in (y, Memᴰ.tail m, k)
  ]

  pub Memᴰ-elem-map : (x : A) {xs : List A} → Memᴰ x xs → elem (f x) (map f xs) ≡ true
  Memᴰ-elem-map x (Memᴰ.head e) = rw e (ground arith)
  Memᴰ-elem-map x (Memᴰ.tail {xs = ys} m) = ground (arith, Memᴰ-elem-map x m)
