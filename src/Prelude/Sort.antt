-- ===== src/Prelude/Sort.antt =====
-- Python's stable sort by a key, as insertion sort over the key's strict order.
use Prim.Native.Nat.{suc}
use mathlib.Core.Path.{◌≡◌, refl}
use mathlib.Core.Logic.{inl, inr}
use mathlib.Core.Bool.{Bool, true, false}
use mathlib.Core.List.{List, [], ◌∷◌}
use native.Mathlib.Omega.{arith}
use my_frist_reop.Prelude.Tests.{if◌then◌else◌, Bool-cases}
use my_frist_reop.Prelude.Lists.{All, All-weaken, length}

module _ {ℓ} {A : Type ℓ} (before : A → A → Bool) where
  -- `x` stands ahead of all that is not strictly before it, so equal keys keep their order.
  abbrev pub insert_by : A → List A → List A
  insert_by x [] = x ∷ []
  insert_by x (y ∷ ys) = let rest = insert_by x ys in if before y x then y ∷ rest else x ∷ y ∷ ys

  abbrev pub sort_by : List A → List A
  sort_by [] = []
  sort_by (x ∷ xs) = insert_by x (sort_by xs)

  pub All-insert_by {κ} :
      (P : A → Type κ) (x : A) (ys : List A) → P x → All P ys → All P (insert_by x ys)
  All-insert_by P x [] h k = (h, tt)
  All-insert_by P x (y ∷ ys) h k = ground (arith, All-insert_by P x ys h k.1)

  pub All-sort_by {κ} : (P : A → Type κ) (xs : List A) → All P xs → All P (sort_by xs)
  All-sort_by P [] h = tt
  All-sort_by P (x ∷ xs) h = All-insert_by P x (sort_by xs) h.0 (All-sort_by P xs h.1)

  pub insert_by-All {κ} :
      (P : A → Type κ) (x : A) (ys : List A) → All P (insert_by x ys) → P x × All P ys
  insert_by-All P x [] h = h
  insert_by-All P x (y ∷ ys) h = ground (arith, insert_by-All P x ys)

  pub sort_by-All {κ} : (P : A → Type κ) (xs : List A) → All P (sort_by xs) → All P xs
  sort_by-All P [] h = tt
  sort_by-All P (x ∷ xs) h =
      let (hx, hs) = insert_by-All P x (sort_by xs) h in (hx, sort_by-All P xs hs)

  length-insert_by : (x : A) (ys : List A) → length (insert_by x ys) ≡ suc (length ys)
  length-insert_by x [] = refl
  length-insert_by x (y ∷ ys) = ground (arith, length-insert_by x ys)

  pub length-sort_by : (xs : List A) → length (sort_by xs) ≡ length xs
  length-sort_by [] = refl
  length-sort_by (x ∷ xs) = omega (arith, length-insert_by x (sort_by xs), length-sort_by xs)

  -- No element stands strictly before the head.
  abbrev pub HeadIsLeast : List A → Type 0
  HeadIsLeast [] = Unit
  HeadIsLeast (x ∷ xs) = All (λ y. before y x ≡ false) xs

  module _ (asym : (x y : A) → before x y ≡ true → before y x ≡ false)
      (neg_trans : (x y z : A) → before x y ≡ false → before y z ≡ false → before x z ≡ false) where
    insert_by-HeadIsLeast : (x : A) (ys : List A) → HeadIsLeast ys → HeadIsLeast (insert_by x ys)
    insert_by-HeadIsLeast x [] h = tt
    insert_by-HeadIsLeast x (y ∷ ys) h = elim (Bool-cases (before y x)) [
      | inl e ↦ rw e (All-insert_by (λ z. before z y ≡ false) x ys (asym y x e) h)
      | inr e ↦ rw e (e, All-weaken _ _ ys (λ z k. neg_trans z y x k e) h)
    ]

    -- Over the strict order of a key, the head of the sorted list is a least element.
    pub sort_by-HeadIsLeast : (xs : List A) → HeadIsLeast (sort_by xs)
    sort_by-HeadIsLeast [] = tt
    sort_by-HeadIsLeast (x ∷ xs) = insert_by-HeadIsLeast x (sort_by xs) (sort_by-HeadIsLeast xs)
