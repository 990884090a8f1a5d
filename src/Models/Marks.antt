-- ===== src/Models/Marks.antt =====
-- The marks that `_allocate_for_model` of backend/app/services/model_service.py leaves, row by row.
use my_frist_reop.Prelude.{
  ℕ, ◌≡◌, refl, sym, ap, ◌∙◌, subst, inl, inr, String, Bool, true, Option, List, [], ◌∷◌,
  update_where, elem, elem-map-Memᴰ, Memᴰ-elem-map, Memᴰ, All, All-Memᴰ, All-of_Memᴰ, All-weaken,
  Bool-cases, arith,
}
use my_frist_reop.Data.Cluster.{GpuDevice, GpuStatus}
use my_frist_reop.Allocator.{is_held_by, ids_of, indices_of, mark_allocated}
use my_frist_reop.Allocator.Keys.{AreDistinct, same_id, same_place}
use my_frist_reop.Models.{ModelDb, Placement, model_keyed, instance_keyed}
use my_frist_reop.Models.Placing.{IsPlaced}
use my_frist_reop.Models.Undo.{allocate_row}

pub update_where-cong :
    (p q : GpuDevice → Bool) (f : GpuDevice → GpuDevice) (gs : List GpuDevice)
    → All (λ g. p g ≡ q g) gs
    → update_where p f gs ≡ update_where q f gs
update_where-cong p q f [] h = refl
update_where-cong p q f (g ∷ gs) h = rw (h.0, update_where-cong p q f gs h.1)

abbrev id_of : GpuDevice → ℕ
id_of g = g.id

abbrev index_of : GpuDevice → ℕ
index_of g = g.gpu_index

module _ {lower : String → String} {n : ℕ} {hint : Option String} {m : ModelDb} {p : Placement}
    (distinct : AreDistinct m.db.gpus) (placed : IsPlaced lower n hint m p) where
  placed_parts :
      (g : GpuDevice)
      → Memᴰ g p.gpus
      → Memᴰ g m.db.gpus × ((g.node_id ≡ p.node.id) × (g.status ≡ GpuStatus.idle))
  placed_parts g k =
      let (listed, free) = All-of_Memᴰ _ g k placed.usable in
      (listed, (ground (arith, free), ground (arith, free)))

  placed_by_id :
      (g : GpuDevice) → Memᴰ g m.db.gpus → elem g.id (ids_of p.gpus) ≡ true → Memᴰ g p.gpus
  placed_by_id g k e =
      let (h, j, same) = elem-map-Memᴰ id_of g.id p.gpus e in
      subst (λ x. Memᴰ x p.gpus) (same_id h g m.db.gpus distinct (placed_parts h j).0 k same) j

  placed_by_index :
      (g : GpuDevice)
      → Memᴰ g m.db.gpus
      → is_held_by p.node.id (indices_of p.gpus) g ≡ true
      → Memᴰ g p.gpus
  placed_by_index g k e =
      let (h, j, same) = elem-map-Memᴰ index_of g.gpu_index p.gpus (ground (arith, e)) in
      let parts = placed_parts h j in
      subst (λ x. Memᴰ x p.gpus)
        (same_place h g m.db.gpus distinct parts.0 k (ground (arith, parts.1, e)) same) j

  same_test :
      (g : GpuDevice)
      → Memᴰ g m.db.gpus
      → elem g.id (ids_of p.gpus) ≡ is_held_by p.node.id (indices_of p.gpus) g
  same_test g k = elim (Bool-cases (elem g.id (ids_of p.gpus))) [
    | inl e ↦
        let j = placed_by_id g k e in
        ground (arith, e, Memᴰ-elem-map index_of g j, placed_parts g j)
    | inr e ↦ elim (Bool-cases (is_held_by p.node.id (indices_of p.gpus) g)) [
      | inl h ↦ absurd (ground (arith, Memᴰ-elem-map id_of g (placed_by_index g k h)))
      | inr h ↦ e ∙ sym h
    ]
  ]

  -- The marks are on the rows that the placement's place names.
  pub mark-eq : mark_allocated p.gpus m.db ≡ record m.db {
    gpus = update_where (is_held_by p.node.id (indices_of p.gpus)) allocate_row m.db.gpus;
  }
  unfolding mark_allocated
  mark-eq =
      ap (λ gs. record m.db { gpus = gs })
        (update_where-cong _ _ allocate_row m.db.gpus
          (All-weaken _ _ m.db.gpus (λ g. same_test g) (All-Memᴰ m.db.gpus)))

  pub held-free :
      All
        (λ g. is_held_by p.node.id (indices_of p.gpus) g ≡ true → g.status ≡ GpuStatus.idle)
        m.db.gpus
  held-free =
      All-weaken _ _ m.db.gpus (λ g k e. (placed_parts g (placed_by_index g k e)).1.1)
        (All-Memᴰ m.db.gpus)
