-- ===== src/Allocator/Booking.antt =====
-- No GPU is booked twice, and what `release` undoes: `allocate` and `release` of scheduler/gpu_allocator.py.
use my_frist_reop.Prelude.{
  ℕ, ◌≡◌, ◌⊎◌, refl, sym, subst, ap, inl, inr, true, false, Option, some, List, [], ◌∷◌, map, Memᴰ,
  All, All-weaken, All-Memᴰ, All-of_Memᴰ, elem, update_where, update_where-Memᴰ, update_where-undo,
  elem-map-Memᴰ, Memᴰ-elem-map, Bool-cases, if◌then◌else◌, arith, ◌∙◌,
}
use my_frist_reop.Prelude.Int.{pos, pos_part, leb_ℤ}
use my_frist_reop.Data.{Db}
use my_frist_reop.Data.Cluster.{Node, GpuDevice, GpuStatus}
use my_frist_reop.Data.Work.{Task, TaskConfig}
use my_frist_reop.Allocator.{
  Allocation, required_gpu_count, ids_of, indices_of, set_status, mark_allocated, is_held_by,
  release, release_by_task, allocate, allocate_cpu,
}
use my_frist_reop.Allocator.Choice.{IsGrant, allocate-IsGrant}
use my_frist_reop.Allocator.Candidates.{IsUsable}
use my_frist_reop.Allocator.Keys.{AreDistinct, same_id, same_place}

pub none_held :
    (node_id : ℕ) (gs : List GpuDevice)
    → update_where (is_held_by node_id []) (set_status GpuStatus.idle) gs ≡ gs
none_held node_id [] = refl
none_held node_id (g ∷ gs) = ground (arith, none_held node_id gs)

-- The early return for an empty list of indices agrees with the query.
pub release-eq-update :
    (db : Db) (a : Allocation)
    → release db a ≡ record db {
      gpus = update_where (is_held_by a.node_id a.gpu_indices) (set_status GpuStatus.idle) db.gpus;
    }
unfolding release
release-eq-update db a = ground (arith, none_held a.node_id db.gpus)

abbrev index_of : GpuDevice → ℕ
index_of g = g.gpu_index

abbrev id_of : GpuDevice → ℕ
id_of g = g.id

module _ {db : Db} {config : Option TaskConfig} {n : ℕ} {nodes : List Node} {a : Allocation}
    {db' : Db} (distinct : AreDistinct db.gpus) (grant : IsGrant db config n nodes a db') where
  pub IsUsable-of : (g : GpuDevice) → Memᴰ g grant.gpus → IsUsable db config grant.node g
  IsUsable-of g m = All-of_Memᴰ (IsUsable db config grant.node) g m grant.usable

  -- A row that the allocation's place names is one of the granted rows.
  held-is_granted :
      (g : GpuDevice)
      → Memᴰ g db.gpus
      → g.node_id ≡ a.node_id
      → elem g.gpu_index a.gpu_indices ≡ true
      → elem g.id (ids_of grant.gpus) ≡ true
  held-is_granted g m place held =
      let found : elem g.gpu_index (map index_of grant.gpus) ≡ true =
        ground (arith, grant.allocation) in
      let (h, k, e) = elem-map-Memᴰ index_of g.gpu_index grant.gpus found in
      let same =
        same_place h g db.gpus distinct (IsUsable-of h k).listed m
          (ground (arith, (IsUsable-of h k).here, grant.allocation)) e in
      subst (λ (x : GpuDevice). elem x.id (ids_of grant.gpus) ≡ true) same (Memᴰ-elem-map id_of h k)

  granted-is_held :
      (g : GpuDevice)
      → Memᴰ g db.gpus
      → elem g.id (ids_of grant.gpus) ≡ true
      → (g.status ≡ GpuStatus.idle) × (is_held_by a.node_id a.gpu_indices g ≡ true)
  granted-is_held g m granted =
      let (h, k, e) = elem-map-Memᴰ id_of g.id grant.gpus granted in
      let same = same_id h g db.gpus distinct (IsUsable-of h k).listed m e in
      subst
        (λ (x : GpuDevice).
          (x.status ≡ GpuStatus.idle) × (is_held_by a.node_id a.gpu_indices x ≡ true))
        same
        (
          (IsUsable-of h k).free,
          ground (arith, grant.allocation, (IsUsable-of h k).here, Memᴰ-elem-map index_of h k),
        )

  -- On each row, the mark and the release cancel.
  undo_row :
      (g : GpuDevice)
      → Memᴰ g db.gpus
      → (let y = if elem g.id (ids_of grant.gpus) then set_status GpuStatus.allocated g else g in
          if is_held_by a.node_id a.gpu_indices y then set_status GpuStatus.idle y else y)
        ≡ g
  undo_row g m = elim (Bool-cases (elem g.id (ids_of grant.gpus))) [
    | inl e ↦ let (free, held) = granted-is_held g m e in rw (e, held) (ground arith)
    | inr e ↦ elim (Bool-cases (is_held_by a.node_id a.gpu_indices g)) [
      | inl h ↦ absurd (ground (arith, held-is_granted g m))
      | inr h ↦ rw (e, h)
    ]
  ]

  release-grant : release db' a ≡ db
  unfolding mark_allocated
  release-grant =
      subst (λ (d : Db). release d a ≡ db) (sym grant.marked)
        (release-eq-update (mark_allocated grant.gpus db) a
          ∙ ap (λ gs. record db { gpus = gs })
              (update_where-undo (λ x. elem x.id (ids_of grant.gpus))
                (is_held_by a.node_id a.gpu_indices) (set_status GpuStatus.allocated)
                (set_status GpuStatus.idle) db.gpus
                (All-weaken _ _ db.gpus (λ g. undo_row g) (All-Memᴰ db.gpus))))

  -- What is granted is no longer idle.
  pub granted_not_free :
      (g : GpuDevice)
      → Memᴰ g db'.gpus
      → g.node_id ≡ a.node_id
      → elem g.gpu_index a.gpu_indices ≡ true
      → g.status ≡ GpuStatus.allocated
  unfolding mark_allocated
  granted_not_free g m place held =
      let (x, k, e) =
        update_where-Memᴰ (λ x. elem x.id (ids_of grant.gpus)) (set_status GpuStatus.allocated) g
          db.gpus (subst (λ (d : Db). Memᴰ g d.gpus) grant.marked m) in
      ground (arith, e, held-is_granted x k)

allocate_cpu_parts :
    (db : Db) (nodes : List Node) (a : Allocation) (db' : Db)
    → allocate_cpu db nodes ≡ (some a, db')
    → (a.gpu_indices ≡ []) × (db' ≡ db)
unfolding allocate_cpu
allocate_cpu_parts db nodes a db' h = ground arith

-- A success is one without GPUs that changed nothing, or a grant.
pub allocate-cases :
    (db : Db) (task : Task) (nodes : List Node) (a : Allocation) (db' : Db)
    → allocate db task nodes ≡ (some a, db')
    → ((a.gpu_indices ≡ []) × (db' ≡ db))
      ⊎ IsGrant db task.config_json (pos_part (required_gpu_count task.config_json)) nodes a db'
unfolding allocate
allocate-cases db task nodes a db' h =
    elim (Bool-cases (leb_ℤ (required_gpu_count task.config_json) (pos 0))) [
      | inl e ↦ inl (allocate_cpu_parts db nodes a db' (rw (e, allocate) at h))
      | inr e ↦ inr (allocate-IsGrant db task nodes a db' e h)
    ]

release_nothing : (db : Db) (a : Allocation) → a.gpu_indices ≡ [] → release db a ≡ db
unfolding release
release_nothing db a e = ground arith

pub release-allocate :
    (db : Db) (task : Task) (nodes : List Node) (a : Allocation) (db' : Db)
    → AreDistinct db.gpus
    → allocate db task nodes ≡ (some a, db')
    → release db' a ≡ db
release-allocate db task nodes a db' distinct h = elim (allocate-cases db task nodes a db' h) [
  | inl (empty, same) ↦ release_nothing db' a empty ∙ same
  | inr grant ↦ release-grant distinct grant
]

module _ {db : Db} {config : Option TaskConfig} {n : ℕ} {nodes : List Node} {a : Allocation}
    {db' : Db} (distinct : AreDistinct db.gpus) (grant : IsGrant db config n nodes a db') where
  usable_not_held :
      (config' : Option TaskConfig) (node : Node) (g : GpuDevice)
      → node.id ≡ a.node_id
      → IsUsable db' config' node g
      → elem g.gpu_index a.gpu_indices ≡ false
  usable_not_held config' node g same u = elim (Bool-cases (elem g.gpu_index a.gpu_indices)) [
    | inl e ↦
        absurd
          (ground (arith, granted_not_free distinct grant g u.listed (u.here ∙ same) e, u.free))
    | inr e ↦ e
  ]

  all_not_held :
      (config' : Option TaskConfig) (node : Node) (gs : List GpuDevice)
      → node.id ≡ a.node_id
      → All (IsUsable db' config' node) gs
      → All (λ i. elem i a.gpu_indices ≡ false) (indices_of gs)
  all_not_held config' node [] same u = tt
  all_not_held config' node (g ∷ gs) same u =
      (usable_not_held config' node g same u.0, all_not_held config' node gs same u.1)

none_in_nil : (is : List ℕ) → All (λ i. elem i [] ≡ false) is
none_in_nil [] = tt
none_in_nil (i ∷ is) = (refl, none_in_nil is)

-- With distinct keys of the GPU rows, two allocations one after the other, on the same node and with no release between them, have no GPU
-- in common, whatever the two tasks and the two lists of nodes are.
pub allocate_twice :
    (db : Db) (task : Task) (nodes : List Node) (a : Allocation) (db' : Db) (task' : Task)
    (nodes' : List Node) (a' : Allocation) (db'' : Db)
    → AreDistinct db.gpus
    → allocate db task nodes ≡ (some a, db')
    → allocate db' task' nodes' ≡ (some a', db'')
    → a'.node_id ≡ a.node_id
    → All (λ i. elem i a.gpu_indices ≡ false) a'.gpu_indices
allocate_twice db task nodes a db' task' nodes' a' db'' distinct h h' same =
    elim (allocate-cases db' task' nodes' a' db'' h') [
      | inl (empty', _) ↦ subst (All _) (sym empty') tt
      | inr grant' ↦ elim (allocate-cases db task nodes a db' h) [
        | inl (empty, _) ↦
            subst (λ is. All (λ i. elem i is ≡ false) a'.gpu_indices) (sym empty)
              (none_in_nil a'.gpu_indices)
        | inr grant ↦
            subst (All (λ i. elem i a.gpu_indices ≡ false))
              (sym (ap (λ (x : Allocation). x.gpu_indices) grant'.allocation))
              (all_not_held distinct grant task'.config_json grant'.node grant'.gpus
                (sym (ap (λ (x : Allocation). x.node_id) grant'.allocation) ∙ same) grant'.usable)
      ]
    ]

-- A release changes no task.
pub release_tasks : (db : Db) (a : Allocation) → (release db a).tasks ≡ db.tasks
unfolding release
release_tasks db a = ground arith

pub release_by_task_tasks : (db : Db) (id : ℕ) → (release_by_task db id).tasks ≡ db.tasks
unfolding release_by_task
release_by_task_tasks db id = ground arith
