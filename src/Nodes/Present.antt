-- ===== src/Nodes/Present.antt =====
-- Which GPUs have a row after `NodeService.handle_heartbeat` of backend/app/services/node_service.py.
use my_frist_reop.Prelude.{
  ℕ, ◌≡◌, inl, inr, refl, ap, ◌∙◌, subst, true, List, [], ◌∷◌, ◌++◌, select, Memᴰ, elem,
  elem-map-Memᴰ, Memᴰ-elem-map, select-Memᴰ, Memᴰ-select, Memᴰ-update_where, Bool-cases,
  if◌then◌else◌, arith,
}
use my_frist_reop.Data.Cluster.{GpuDevice}
use my_frist_reop.Nodes.{
  GpuInfo, HeartbeatPayload, Draws, report_gpu, blank_gpu, is_on, is_at, indices_on, absorb_gpu,
  absorb_gpus, seen_indices, is_kept, active_gpu_indices,
}
use my_frist_reop.Nodes.Heartbeat.{replace_gpus}

-- A row of this kind.
abbrev HasRow : (GpuDevice → Type 0) → List GpuDevice → Type 0
HasRow Q gs = (g : GpuDevice) × Memᴰ g gs × Q g

abbrev IsAt : ℕ → ℕ → GpuDevice → Type 0
IsAt node_id index g = (g.node_id ≡ node_id) × (g.gpu_index ≡ index)

append-left :
    {x : GpuDevice} (ys : List GpuDevice) {xs : List GpuDevice} → Memᴰ x xs → Memᴰ x (xs ++ ys)
append-left ys (Memᴰ.head e) = Memᴰ.head e
append-left ys (Memᴰ.tail m) = Memᴰ.tail (append-left ys m)

append-right :
    {x : GpuDevice} (xs : List GpuDevice) {ys : List GpuDevice} → Memᴰ x ys → Memᴰ x (xs ++ ys)
append-right [] m = m
append-right (x ∷ xs) m = Memᴰ.tail (append-right xs m)

module _ (now : ℕ) (draws : Draws) (node_id : ℕ) (active existing : List ℕ) where
  -- A kind of rows that the assignments of the loop do not leave.
  abbrev IsStable : (GpuDevice → Type 0) → Type 0
  IsStable Q = (i : GpuInfo) (g : GpuDevice) → Q g → Q (report_gpu now active i g)

  absorb_gpu-HasRow :
      (Q : GpuDevice → Type 0) (i : GpuInfo) (gs : List GpuDevice)
      → IsStable Q
      → HasRow Q gs
      → HasRow Q (absorb_gpu now draws node_id active existing i gs)
  unfolding absorb_gpu
  absorb_gpu-HasRow Q i gs stable (g, m, q) = elim (Bool-cases (elem i.index existing)) [
    | inl e ↦ rw e (
      (if is_at node_id i.index g then report_gpu now active i g else g),
      Memᴰ-update_where (is_at node_id i.index) (report_gpu now active i) g m,
      elim (Bool-cases (is_at node_id i.index g)) [ inl k ↦ rw k (stable i g q) | inr k ↦ rw k q ],
    )
    | inr e ↦ rw e (g, append-left _ m, q)
  ]

  absorb_gpus-HasRow :
      (Q : GpuDevice → Type 0) (is : List GpuInfo) (gs : List GpuDevice)
      → IsStable Q
      → HasRow Q gs
      → HasRow Q (absorb_gpus now draws node_id active existing is gs)
  unfolding absorb_gpus
  absorb_gpus-HasRow Q [] gs stable h = h
  absorb_gpus-HasRow Q (i ∷ is) gs stable h =
      absorb_gpus-HasRow Q is _ stable (absorb_gpu-HasRow Q i gs stable h)

  IsAt-IsStable : (index : ℕ) → IsStable (IsAt node_id index)
  unfolding report_gpu
  IsAt-IsStable index i g q = q

  -- The GPU of this round has a row after it.
  absorb_gpu-has :
      (i : GpuInfo) (gs : List GpuDevice)
      → (elem i.index existing ≡ true → HasRow (IsAt node_id i.index) gs)
      → HasRow (IsAt node_id i.index) (absorb_gpu now draws node_id active existing i gs)
  unfolding absorb_gpu report_gpu
  absorb_gpu-has i gs there = elim (Bool-cases (elem i.index existing)) [
    | inl e ↦ absorb_gpu-HasRow (IsAt node_id i.index) i gs (IsAt-IsStable i.index) (there e)
    | inr e ↦ rw e (
      report_gpu now active i (blank_gpu now (draws.gpu i.index) node_id i.index),
      append-right gs (Memᴰ.head refl),
      (refl, refl),
    )
  ]

  absorb_gpus-has :
      (i : GpuInfo) {is : List GpuInfo} (gs : List GpuDevice)
      → Memᴰ i is
      → (elem i.index existing ≡ true → HasRow (IsAt node_id i.index) gs)
      → HasRow (IsAt node_id i.index) (absorb_gpus now draws node_id active existing is gs)
  unfolding absorb_gpus
  absorb_gpus-has i gs (Memᴰ.head {x = j} {xs = js} e) there =
      subst
        (λ (k : GpuInfo). HasRow (IsAt node_id i.index) (
          absorb_gpus now draws node_id active existing js
            (absorb_gpu now draws node_id active existing k gs)))
        e
        (absorb_gpus-HasRow (IsAt node_id i.index) js _ (IsAt-IsStable i.index)
          (absorb_gpu-has i gs there))
  absorb_gpus-has i gs (Memᴰ.tail {x = j} {xs = js} m) there =
      absorb_gpus-has i _ m
        (λ e. absorb_gpu-HasRow (IsAt node_id i.index) j gs (IsAt-IsStable i.index) (there e))

indices_on-HasRow :
    (node_id index : ℕ) (gs : List GpuDevice)
    → elem index (indices_on node_id gs) ≡ true
    → HasRow (IsAt node_id index) gs
indices_on-HasRow node_id index gs h =
    let (g, m, same) =
      elem-map-Memᴰ (λ (g : GpuDevice). g.gpu_index) index (select (is_on node_id) gs) h in
    let (there, on) = select-Memᴰ (is_on node_id) g gs m in (g, there, (ground arith, same))

kept-HasRow :
    (node_id index : ℕ) (p : HeartbeatPayload) (Q : GpuDevice → Type 0) (gs : List GpuDevice)
    → elem index (seen_indices p) ≡ true
    → ((g : GpuDevice) → Q g → g.gpu_index ≡ index)
    → HasRow Q gs
    → HasRow Q (select (is_kept node_id (seen_indices p)) gs)
kept-HasRow node_id index p Q gs seen at (g, m, q) =
    let same = at g q in
    (
      g,
      Memᴰ-select (is_kept node_id (seen_indices p)) g m
          (let k = ap (λ n. elem n (seen_indices p)) same ∙ seen in ground arith),
      q,
    )

module _ (now : ℕ) (draws : Draws) (node_id : ℕ) (p : HeartbeatPayload) (gpus : List GpuDevice)
    (i : GpuInfo) (m : Memᴰ i p.gpus) where
  is_seen : elem i.index (seen_indices p) ≡ true
  is_seen = Memᴰ-elem-map (λ (x : GpuInfo). x.index) i m

  -- A GPU of the payload has a row.
  pub replace_gpus-has :
      (g : GpuDevice) × Memᴰ g (replace_gpus now draws node_id p gpus)
      × (g.node_id ≡ node_id)
      × (g.gpu_index ≡ i.index)
  unfolding replace_gpus
  replace_gpus-has =
      let (g, there, at) =
        kept-HasRow node_id i.index p (IsAt node_id i.index) _ is_seen (λ g q. q.1)
          (absorb_gpus-has now draws node_id (active_gpu_indices p.running_containers) _ i gpus m
            (indices_on-HasRow node_id i.index gpus)) in
      (g, there, at.0, at.1)

  -- If it had one before, that row has kept its key.
  pub replace_gpus-keeps :
      (g : GpuDevice)
      → Memᴰ g gpus
      → g.gpu_index ≡ i.index
      → (g' : GpuDevice) × Memᴰ g' (replace_gpus now draws node_id p gpus)
        × (g'.id ≡ g.id)
        × (g'.node_id ≡ g.node_id)
        × (g'.gpu_index ≡ g.gpu_index)
  unfolding replace_gpus report_gpu
  replace_gpus-keeps g there at =
      let Q : GpuDevice → Type 0 =
        λ g'. (g'.id ≡ g.id) × (g'.node_id ≡ g.node_id) × (g'.gpu_index ≡ g.gpu_index) in
      let (g1, m1, q) =
        kept-HasRow node_id i.index p Q _ is_seen (λ g' q. q.2 ∙ at)
          (absorb_gpus-HasRow now draws node_id (active_gpu_indices p.running_containers) _ Q p.gpus
            gpus (λ j g' q. q) (g, there, (refl, refl, refl))) in
      (g1, m1, q.0, q.1, q.2)
