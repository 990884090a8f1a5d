-- ===== src/Nodes/Reported.antt =====
-- What a heartbeat, `NodeService.handle_heartbeat` of backend/app/services/node_service.py, leaves in
-- the table of GPUs.
use my_frist_reop.Prelude.{
  ℕ, ◌≡◌, ◌≢◌, ◌⊎◌, inl, inr, refl, sym, subst, ap, ◌∙◌, true, false, List, [], ◌∷◌, ◌++◌, map,
  Memᴰ, All, All-weaken, All-Memᴰ, All-select, All-select_keep, All-and, select, update_where, elem,
  ◌==◌, Bool-cases, if◌then◌else◌, arith,
}
use my_frist_reop.Data.{Db}
use my_frist_reop.Data.Cluster.{GpuDevice}
use my_frist_reop.Nodes.{
  GpuInfo, HeartbeatPayload, Draws, report_gpu, blank_gpu, is_on, is_at, indices_on, absorb_gpu,
  absorb_gpus, seen_indices, is_kept, active_gpu_indices,
}
use my_frist_reop.Nodes.Statuses.{IsReportOf, report_gpu-IsReportOf}
use my_frist_reop.Nodes.Present.{replace_gpus-has, replace_gpus-keeps}
use my_frist_reop.Nodes.Heartbeat.{ensure_node, replace_gpus, write_heartbeat, handle_heartbeat}

-- This row is what the assignments for one of the reported GPUs, with its index, leave as it is.
abbrev IsReported : ℕ → List ℕ → List GpuInfo → GpuDevice → Type 0
IsReported now active infos g =
    (i : GpuInfo) × Memᴰ i infos × (i.index ≡ g.gpu_index) × (g ≡ report_gpu now active i g)

-- An index that was there is not the one that was not, so it is among the ones behind it.
later_than :
    (a b : ℕ) (existing rest : List ℕ)
    → elem a existing ≡ false
    → elem b existing ≡ true
    → elem b (a ∷ rest) ≡ true
    → elem b rest ≡ true
later_than a b existing rest fresh there h = elim (Bool-cases (b == a)) [
  | inl e ↦ let same : b ≡ a = ground arith in absurd (let k = ap (λ n. elem n existing) same in cc)
  | inr e ↦ ground arith
]

module _ (now : ℕ) (draws : Draws) (node_id : ℕ) (active : List ℕ) (infos : List GpuInfo) where
  -- A row of the node in the middle of the loop: it is reported, or it was there before and its GPU,
  -- if it is reported at all, is among those to come.
  abbrev IsUnderway : List ℕ → List GpuInfo → GpuDevice → Type 0
  IsUnderway existing rem g =
      is_on node_id g ≡ true
      → IsReported now active infos g
        ⊎ ((elem g.gpu_index existing ≡ true)
            × (elem g.gpu_index (map (λ (i : GpuInfo). i.index) infos) ≡ true
                → elem g.gpu_index (map (λ (i : GpuInfo). i.index) rem) ≡ true))

  updated_row :
      (existing : List ℕ) (i : GpuInfo) (rem : List GpuInfo) (g : GpuDevice)
      → Memᴰ i infos
      → IsUnderway existing (i ∷ rem) g
      → IsUnderway existing rem (if is_at node_id i.index g then report_gpu now active i g else g)
  unfolding report_gpu
  updated_row existing i rem g m h = elim (Bool-cases (is_at node_id i.index g)) [
    | inl e ↦ rw e (λ on. inl (i, m, ground arith, refl))
    | inr e ↦ rw e (λ on. elim (h on) [
      | inl r ↦ inl r
      | inr (there, later) ↦ inr (there, λ seen. (let k = later seen in ground arith))
    ])
  ]

  kept_row :
      (existing : List ℕ) (i : GpuInfo) (rem : List GpuInfo) (g : GpuDevice)
      → elem i.index existing ≡ false
      → IsUnderway existing (i ∷ rem) g
      → IsUnderway existing rem g
  kept_row existing i rem g fresh h on = elim (h on) [
    | inl r ↦ inl r
    | inr (there, later) ↦
        inr (there, λ seen. later_than i.index _ existing _ fresh there (later seen))
  ]

  updated_rows :
      (existing : List ℕ) (i : GpuInfo) (rem : List GpuInfo) (gs : List GpuDevice)
      → Memᴰ i infos
      → All (IsUnderway existing (i ∷ rem)) gs
      → All
          (IsUnderway existing rem)
          (update_where (is_at node_id i.index) (report_gpu now active i) gs)
  updated_rows existing i rem [] m h = tt
  updated_rows existing i rem (g ∷ gs) m h =
      (updated_row existing i rem g m h.0, updated_rows existing i rem gs m h.1)

  added_row :
      (existing : List ℕ) (i : GpuInfo) (rem : List GpuInfo) (gs : List GpuDevice)
      → Memᴰ i infos
      → elem i.index existing ≡ false
      → All (IsUnderway existing (i ∷ rem)) gs
      → All
          (IsUnderway existing rem)
          (gs ++ report_gpu now active i (blank_gpu now (draws.gpu i.index) node_id i.index) ∷ [])
  unfolding report_gpu
  added_row existing i rem [] m fresh h = ((λ on. inl (i, m, refl, refl)), tt)
  added_row existing i rem (g ∷ gs) m fresh h =
      (kept_row existing i rem g fresh h.0, added_row existing i rem gs m fresh h.1)

  absorbed :
      (existing : List ℕ) (i : GpuInfo) (rem : List GpuInfo) (gs : List GpuDevice)
      → Memᴰ i infos
      → All (IsUnderway existing (i ∷ rem)) gs
      → All (IsUnderway existing rem) (absorb_gpu now draws node_id active existing i gs)
  unfolding absorb_gpu
  absorbed existing i rem gs m h = elim (Bool-cases (elem i.index existing)) [
    | inl e ↦ rw e (updated_rows existing i rem gs m h)
    | inr e ↦ rw e (added_row existing i rem gs m e h)
  ]

  absorbed_all :
      (existing : List ℕ) (rem : List GpuInfo) (gs : List GpuDevice)
      → All (λ i. Memᴰ i infos) rem
      → All (IsUnderway existing rem) gs
      → All (IsUnderway existing []) (absorb_gpus now draws node_id active existing rem gs)
  unfolding absorb_gpus
  absorbed_all existing [] gs m h = h
  absorbed_all existing (i ∷ rem) gs m h =
      absorbed_all existing rem _ m.1 (absorbed existing i rem gs m.0 h)

  started :
      (gpus : List GpuDevice) (gs : List GpuDevice)
      → All (λ g. is_on node_id g ≡ true → elem g.gpu_index (indices_on node_id gpus) ≡ true) gs
      → All (IsUnderway (indices_on node_id gpus) infos) gs
  started gpus gs h = All-weaken _ _ gs (λ g there on. inr (there on, λ seen. seen)) h

-- Every index of a row of the node is among the keys that are read before the loop.
indices_on-all :
    (node_id : ℕ) (gs : List GpuDevice)
    → All (λ g. is_on node_id g ≡ true → elem g.gpu_index (indices_on node_id gs) ≡ true) gs
indices_on-all node_id [] = tt
indices_on-all node_id (g ∷ gs) = (
  (λ on. ground arith),
  All-weaken _ _ gs (λ x k on. (let y = k on in ground arith)) (indices_on-all node_id gs),
)

-- What the heartbeat of a node promises about the row of a GPU.
abbrev pub IsUpToDate : ℕ → ℕ → HeartbeatPayload → GpuDevice → Type 0
IsUpToDate now node_id p g =
    is_on node_id g ≡ true → (i : GpuInfo) × Memᴰ i p.gpus × IsReportOf now p i g

not_kept :
    (node_id : ℕ) (p : HeartbeatPayload) (g : GpuDevice)
    → is_kept node_id (seen_indices p) g ≡ true
    → is_on node_id g ≡ true
    → ¬ (elem g.gpu_index (seen_indices p) ≡ true → false ≡ true)
not_kept node_id p g kept on later =
    let seen : elem g.gpu_index (seen_indices p) ≡ true = ground arith in let k = later seen in cc

replace_gpus-all :
    (now : ℕ) (draws : Draws) (node_id : ℕ) (p : HeartbeatPayload) (gpus : List GpuDevice)
    → All (IsUpToDate now node_id p) (replace_gpus now draws node_id p gpus)
unfolding replace_gpus
replace_gpus-all now draws node_id p gpus =
    let active = active_gpu_indices p.running_containers in
    let existing = indices_on node_id gpus in
    let kept = is_kept node_id (seen_indices p) in
    let rows = absorb_gpus now draws node_id active existing p.gpus gpus in
    let underway =
      absorbed_all now draws node_id active p.gpus existing p.gpus gpus (All-Memᴰ p.gpus)
        (started now draws node_id active p.gpus gpus gpus (indices_on-all node_id gpus)) in
    All-weaken _ _ (select kept rows)
      (λ g h on. elim (h.1 on) [
        | inl (i, m, index, same) ↦ (i, m, report_gpu-IsReportOf now p i g index same)
        | inr (there, later) ↦ absurd (not_kept node_id p g h.0 on later)
      ])
      (All-and _ _ (select kept rows) (All-select kept rows) (All-select_keep _ kept rows underway))

module _ (m node_id : ℕ) (ne : m ≢ node_id) where
  select-update_other :
      (now index : ℕ) (active : List ℕ) (i : GpuInfo) (gs : List GpuDevice)
      → select (is_on m) (update_where (is_at node_id index) (report_gpu now active i) gs)
        ≡ select (is_on m) gs
  unfolding report_gpu
  select-update_other now index active i [] = refl
  select-update_other now index active i (g ∷ gs) =
      ground (arith, select-update_other now index active i gs)

  select-append_other :
      (g : GpuDevice) (gs : List GpuDevice)
      → g.node_id ≡ node_id
      → select (is_on m) (gs ++ g ∷ []) ≡ select (is_on m) gs
  select-append_other g [] h = ground arith
  select-append_other g (x ∷ gs) h = ground (arith, select-append_other g gs h)

  select-absorb_gpu :
      (now : ℕ) (draws : Draws) (active existing : List ℕ) (i : GpuInfo) (gs : List GpuDevice)
      → select (is_on m) (absorb_gpu now draws node_id active existing i gs) ≡ select (is_on m) gs
  unfolding absorb_gpu report_gpu
  select-absorb_gpu now draws active existing i gs = elim (Bool-cases (elem i.index existing)) [
    | inl e ↦ rw e (select-update_other now i.index active i gs)
    | inr e ↦ rw e (
        select-append_other
          (report_gpu now active i (blank_gpu now (draws.gpu i.index) node_id i.index)) gs refl)
  ]

  select-absorb_gpus :
      (now : ℕ) (draws : Draws) (active existing : List ℕ) (is : List GpuInfo) (gs : List GpuDevice)
      → select (is_on m) (absorb_gpus now draws node_id active existing is gs) ≡ select (is_on m) gs
  unfolding absorb_gpus
  select-absorb_gpus now draws active existing [] gs = refl
  select-absorb_gpus now draws active existing (i ∷ is) gs =
      select-absorb_gpus now draws active existing is _
      ∙ select-absorb_gpu now draws active existing i gs

  select-kept :
      (seen : List ℕ) (gs : List GpuDevice)
      → select (is_on m) (select (is_kept node_id seen) gs) ≡ select (is_on m) gs
  select-kept seen [] = refl
  select-kept seen (g ∷ gs) = ground (arith, select-kept seen gs)

  select-replace_gpus :
      (now : ℕ) (draws : Draws) (p : HeartbeatPayload) (gs : List GpuDevice)
      → select (is_on m) (replace_gpus now draws node_id p gs) ≡ select (is_on m) gs
  unfolding replace_gpus
  select-replace_gpus now draws p gs =
      select-kept (seen_indices p) _ ∙ select-absorb_gpus now draws _ _ p.gpus gs

ensure_node_gpus :
    (now : ℕ) (draws : Draws) (p : HeartbeatPayload) (db : Db)
    → (ensure_node now draws p db).1.gpus ≡ db.gpus
unfolding ensure_node
ensure_node_gpus now draws p db = ground arith

pub handle_heartbeat-gpus :
    (now : ℕ) (draws : Draws) (p : HeartbeatPayload) (db : Db)
    → let (node_id, db') = handle_heartbeat now draws p db in
      All (IsUpToDate now node_id p) db'.gpus
      × ((i : GpuInfo)
          → Memᴰ i p.gpus
          → ((g : GpuDevice) × Memᴰ g db'.gpus × (g.node_id ≡ node_id) × (g.gpu_index ≡ i.index))
            × ((g : GpuDevice)
                → Memᴰ g db.gpus
                → g.gpu_index ≡ i.index
                → (g' : GpuDevice) × Memᴰ g' db'.gpus
                  × (g'.id ≡ g.id)
                  × (g'.node_id ≡ g.node_id)
                  × (g'.gpu_index ≡ g.gpu_index)))
      × ((m : ℕ) → m ≢ node_id → select (is_on m) db'.gpus ≡ select (is_on m) db.gpus)
unfolding handle_heartbeat write_heartbeat
handle_heartbeat-gpus now draws p db =
    let (node_id, db') = ensure_node now draws p db in
    let same = ensure_node_gpus now draws p db in
    (
      replace_gpus-all now draws node_id p db'.gpus,
      (λ i m. (
        replace_gpus-has now draws node_id p db'.gpus i m,
        λ g there at.
            replace_gpus-keeps now draws node_id p db'.gpus i m g
              (subst (λ gs. Memᴰ g gs) (sym same) there) at,
      )),
      λ m ne. select-replace_gpus m node_id ne now draws p db'.gpus ∙ ap (select (is_on m)) same,
    )
