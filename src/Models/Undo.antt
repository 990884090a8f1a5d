-- ===== src/Models/Undo.antt =====
-- What removing the rows of instances that were just created undoes, in the model of
-- backend/app/services/model_service.py.
use my_frist_reop.Prelude.{
  ℕ, suc, ◌≡◌, ◌≢◌, refl, sym, ap, ◌∙◌, subst, inl, inr, Bool, true, false, not, ◌||◌, some, List,
  [], ◌∷◌, ◌++◌, select, update_where, get, modify, or_else, All, Option-cases, ◌==◌, arith, ◌<◌,
  ◌≤◌,
}
use my_frist_reop.Data.Cluster.{GpuDevice, GpuStatus}
use my_frist_reop.Allocator.{set_status, is_held_by}
use my_frist_reop.Allocator.Booking.{none_held}
use my_frist_reop.Models.{ModelInstance, ModelDb, instance_keyed, release_instance}
use my_frist_reop.Models.Deploy.{remove_instance, cleanup_partial_instances}

-- A GPU of the instance, and of one of the instances.
unfoldable pub is_of : ModelInstance → GpuDevice → Bool
is_of i g = is_held_by i.node_id (or_else i.assigned_gpu_indices []) g

abbrev pub is_of_one : List ModelInstance → GpuDevice → Bool
is_of_one [] g = false
is_of_one (i ∷ is) g = is_of i g || is_of_one is g

abbrev pub allocate_row : GpuDevice → GpuDevice
allocate_row = set_status GpuStatus.allocated

abbrev pub idle_row : GpuDevice → GpuDevice
idle_row = set_status GpuStatus.idle

module _ (f : GpuDevice → GpuDevice) (twice : (g : GpuDevice) → f (f g) ≡ f g) where
  -- Two updates by the same function are one, on the rows that pass either test.
  pub update_where-join :
      (p q : GpuDevice → Bool) (gs : List GpuDevice)
      → ((g : GpuDevice) → q (f g) ≡ q g)
      → update_where q f (update_where p f gs) ≡ update_where (λ g. p g || q g) f gs
  update_where-join p q [] same = refl
  update_where-join p q (g ∷ gs) same =
      ground (arith, twice g, same g, update_where-join p q gs same)

-- Without a test that holds, an update does nothing.
pub update_where-never :
    (f : GpuDevice → GpuDevice) (gs : List GpuDevice) → update_where (λ g. false) f gs ≡ gs
update_where-never f [] = refl
update_where-never f (g ∷ gs) = rw (update_where-never f gs)

pub release_instance-eq :
    (i : ModelInstance) (gs : List GpuDevice)
    → release_instance i gs ≡ update_where (is_of i) idle_row gs
unfolding release_instance is_of
release_instance-eq i gs = elim (Option-cases i.assigned_gpu_indices) [
  | inl e ↦ rw (e, release_instance, is_of) (sym (none_held i.node_id gs))
  | inr (indices, e) ↦ rw (e, release_instance, is_of) refl
]

is_of-set_status :
    (i : ModelInstance) (s : GpuStatus) (g : GpuDevice) → is_of i (set_status s g) ≡ is_of i g
unfolding is_of
is_of-set_status i s g = refl

pub is_of_one-set_status :
    (is : List ModelInstance) (s : GpuStatus) (g : GpuDevice)
    → is_of_one is (set_status s g) ≡ is_of_one is g
is_of_one-set_status [] s g = refl
is_of_one-set_status (i ∷ is) s g = rw (is_of-set_status i s g, is_of_one-set_status is s g)

-- No row has the id.
abbrev pub IsUnused : ℕ → List ModelInstance → Type 0
IsUnused id = All (λ i. i.id ≢ id)

-- The ids are the draws from a number on.
abbrev pub AreDrawn : (ℕ → ℕ) → ℕ → List ModelInstance → Type 0
AreDrawn draw n [] = Unit
AreDrawn draw n (i ∷ is) = (i.id ≡ draw n) × AreDrawn draw (suc n) is

pub get-unused :
    (id : ℕ) (xs : List ModelInstance) (i : ModelInstance) (ys : List ModelInstance)
    → IsUnused id xs
    → i.id ≡ id
    → get id (xs ++ i ∷ ys) ≡ some i
get-unused id [] i ys h e = ground arith
get-unused id (x ∷ xs) i ys h e = ground (arith, get-unused id xs i ys h.1 e)

pub modify-unused :
    (id : ℕ) (f : ModelInstance → ModelInstance) (xs : List ModelInstance) (i : ModelInstance)
    → IsUnused id xs
    → i.id ≡ id
    → modify id f (xs ++ i ∷ []) ≡ xs ++ f i ∷ []
modify-unused id f [] i h e = ground arith
modify-unused id f (x ∷ xs) i h e = ground (arith, modify-unused id f xs i h.1 e)

select-unused :
    (id : ℕ) (xs : List ModelInstance)
    → IsUnused id xs
    → select (λ (j : ModelInstance). not (j.id == id)) xs ≡ xs
select-unused id [] h = refl
select-unused id (x ∷ xs) h = ground (arith, select-unused id xs h.1)

pub select-one :
    (id : ℕ) (xs : List ModelInstance) (i : ModelInstance) (ys : List ModelInstance)
    → IsUnused id xs
    → i.id ≡ id
    → IsUnused id ys
    → select (λ (j : ModelInstance). not (j.id == id)) (xs ++ i ∷ ys) ≡ xs ++ ys
select-one id [] i ys h e k = ground (arith, select-unused id ys k)
select-one id (x ∷ xs) i ys h e k = ground (arith, select-one id xs i ys h.1 e k)

append_nil {ℓ} : {A : Type ℓ} (xs : List A) → xs ++ [] ≡ xs
append_nil [] = refl
append_nil (x ∷ xs) = rw (append_nil xs)

-- The draws are all different.
abbrev pub IsInjective : (ℕ → ℕ) → Type 0
IsInjective draw = (j k : ℕ) → draw j ≡ draw k → j ≡ k

AreDrawn-IsUnused :
    (draw : ℕ → ℕ) (n j : ℕ) (is : List ModelInstance)
    → IsInjective draw
    → n < j
    → AreDrawn draw j is
    → IsUnused (draw n) is
AreDrawn-IsUnused draw n j [] inj lt d = tt
AreDrawn-IsUnused draw n j (i ∷ is) inj lt d = (
  (λ e. absurd (omega (arith, inj j n (sym d.0 ∙ e)))),
  AreDrawn-IsUnused draw n (suc j) is inj (omega arith) d.1,
)

-- The draws from a number on are no ids of the rows.
abbrev pub IsFreshFrom : (ℕ → ℕ) → ℕ → List ModelInstance → Type 0
IsFreshFrom draw n is = (k : ℕ) → n ≤ k → IsUnused (draw k) is

-- The tables with other GPUs and other instances.
abbrev pub with_rows : List GpuDevice → List ModelInstance → ModelDb → ModelDb
with_rows gs is m = record m { db = record m.db { gpus = gs }; instances = is }

with_rows-same :
    (gs : List GpuDevice) (is : List ModelInstance) (m : ModelDb)
    → gs ≡ m.db.gpus
    → is ≡ m.instances
    → m ≡ with_rows gs is m
with_rows-same gs is m p q =
    ap (λ rows. with_rows rows m.instances m) (sym p) ∙ ap (λ rows. with_rows gs rows m) (sym q)

module _ (draw : ℕ → ℕ) (inj : IsInjective draw) where
  pub remove_instance-eq :
      (i : ModelInstance) (xs is : List ModelInstance) (m : ModelDb)
      → m.instances ≡ xs ++ i ∷ is
      → IsUnused i.id xs
      → IsUnused i.id is
      → remove_instance i m ≡ with_rows (update_where (is_of i) idle_row m.db.gpus) (xs ++ is) m
  unfolding remove_instance
  remove_instance-eq i xs is m e h k =
      cc (release_instance-eq i m.db.gpus, e, select-one i.id xs i is h refl k)

  pub cleanup-eq :
      (n : ℕ) (is xs : List ModelInstance) (m : ModelDb)
      → m.instances ≡ xs ++ is
      → IsFreshFrom draw n xs
      → AreDrawn draw n is
      → cleanup_partial_instances is m
        ≡ with_rows (update_where (is_of_one is) idle_row m.db.gpus) xs m
  unfolding cleanup_partial_instances
  cleanup-eq n [] xs m e h d =
      with_rows-same _ _ m (update_where-never idle_row m.db.gpus) (sym (append_nil xs) ∙ sym e)
  cleanup-eq n (i ∷ is) xs m e h d =
      let unused : IsUnused i.id xs = subst (λ id. IsUnused id xs) (sym d.0) (h n (omega arith)) in
      let others : IsUnused i.id is =
        subst (λ id. IsUnused id is) (sym d.0)
          (AreDrawn-IsUnused draw n (suc n) is inj (omega arith) d.1) in
      let found : get i.id m.instances ≡ some i =
        subst (λ rows. get i.id rows ≡ some i) (sym e) (get-unused i.id xs i is unused refl) in
      let gs = update_where (is_of i) idle_row m.db.gpus in
      rw (found, cleanup_partial_instances)
        (ap (cleanup_partial_instances is) (remove_instance-eq i xs is m e unused others)
          ∙ cleanup-eq (suc n) is xs (with_rows gs (xs ++ is) m) refl (λ k le. h k (omega arith))
              d.1
          ∙ ap (λ rows. with_rows rows xs m)
              (update_where-join idle_row (λ g. refl) (is_of i) (is_of_one is) m.db.gpus
                (λ g. is_of_one-set_status is GpuStatus.idle g)))

-- `m'` is `m` with new instances, whose ids are the draws from a number on and whose GPUs were idle and
-- are allocated.
pub record IsExtended (draw : ℕ → ℕ) (n : ℕ) (m : ModelDb) (is : List ModelInstance) (m' : ModelDb)
    : Type 0 where
  pub tables :
      m' ≡ with_rows (update_where (is_of_one is) allocate_row m.db.gpus) (m.instances ++ is) m
  pub drawn : AreDrawn draw n is
  pub free : All (λ g. is_of_one is g ≡ true → g.status ≡ GpuStatus.idle) m.db.gpus

no_rows : (gs : List GpuDevice) → All (λ g. false ≡ true → g.status ≡ GpuStatus.idle) gs
no_rows [] = tt
no_rows (g ∷ gs) = ((λ e. absurd (cc)), no_rows gs)

pub IsExtended-nil : (draw : ℕ → ℕ) (n : ℕ) (m : ModelDb) → IsExtended draw n m [] m
IsExtended-nil draw n m = record {
  tables =
      with_rows-same _ _ m (update_where-never allocate_row m.db.gpus) (append_nil m.instances);
  drawn = tt;
  free = no_rows m.db.gpus;
}

-- Marking idle rows and clearing the mark.
undo_rows :
    (is : List ModelInstance) (gs : List GpuDevice)
    → All (λ g. is_of_one is g ≡ true → g.status ≡ GpuStatus.idle) gs
    → update_where (is_of_one is) idle_row (update_where (is_of_one is) allocate_row gs) ≡ gs
undo_rows is [] h = refl
undo_rows is (g ∷ gs) h =
    ground (arith, is_of_one-set_status is GpuStatus.allocated g, undo_rows is gs h.1)

pub cleanup-IsExtended :
    (draw : ℕ → ℕ) (n : ℕ) (m : ModelDb) (is : List ModelInstance) (m' : ModelDb)
    → IsInjective draw
    → IsFreshFrom draw n m.instances
    → IsExtended draw n m is m'
    → cleanup_partial_instances is m' ≡ m
cleanup-IsExtended draw n m is m' inj fresh ext =
    let gs = update_where (is_of_one is) allocate_row m.db.gpus in
    ap (cleanup_partial_instances is) ext.tables
    ∙ cleanup-eq draw inj n is m.instances (with_rows gs (m.instances ++ is) m) refl fresh ext.drawn
    ∙ ap (λ rows. with_rows rows m.instances m) (undo_rows is m.db.gpus ext.free)
