-- ===== src/Nodes/Statuses.antt =====
-- The status that the loop over the GPUs in `NodeService.handle_heartbeat` of
-- backend/app/services/node_service.py gives to a row, in terms of the payload.
use my_frist_reop.Prelude.{
  ℕ, ◌≡◌, ◌⊎◌, ◌↔◌, inl, inr, refl, sym, ap, ◌∙◌, subst, true, false, ◌||◌, some, List, [], ◌∷◌,
  ◌++◌, Memᴰ, elem, length, ltb, Bool-cases, arith,
}
use my_frist_reop.Data.Cluster.{ContainerStatus, GpuDevice, GpuStatus}
use my_frist_reop.Nodes.{
  RunningContainerInfo, GpuInfo, HeartbeatPayload, is_active, active_gpu_indices, reported_status,
  report_gpu,
}

-- A container of the payload that is created, restarting or running has this GPU.
abbrev pub IsHeld : List RunningContainerInfo → ℕ → Type 0
IsHeld containers index =
    (c : RunningContainerInfo) × Memᴰ c containers
    × ((c.status ≡ ContainerStatus.created)
        ⊎ ((c.status ≡ ContainerStatus.restarting) ⊎ (c.status ≡ ContainerStatus.running)))
    × (elem index c.gpu_indices ≡ true)

-- The agent sees no process, no load and no memory in use on the GPU.
abbrev pub IsUnused : GpuInfo → Type 0
IsUnused i = (i.processes ≡ []) × (i.utilization_gpu ≡ 0) × (i.memory_used ≡ 0)

-- The row shows this GPU of the payload: allocated if a container holds it, and else idle or busy as it is
-- unused or not, with every measured value of the report.
pub record IsReportOf (now : ℕ) (p : HeartbeatPayload) (i : GpuInfo) (g : GpuDevice) : Type 0 where
  pub index : i.index ≡ g.gpu_index
  pub allocated : IsHeld p.running_containers i.index → g.status ≡ GpuStatus.allocated
  pub idle : ¬ IsHeld p.running_containers i.index → IsUnused i → g.status ≡ GpuStatus.idle
  pub busy : ¬ IsHeld p.running_containers i.index → ¬ IsUnused i → g.status ≡ GpuStatus.busy
  pub measured : g ≡ record g {
    gpu_uuid = i.uuid;
    gpu_model = some i.model;
    memory_total_mb = some i.memory_total;
    memory_used_mb = i.memory_used;
    memory_free_mb = i.memory_free;
    utilization = i.utilization_gpu;
    utilization_memory = i.utilization_memory;
    temperature = i.temperature;
    power_usage = i.power_usage;
    power_limit = i.power_limit;
    processes = i.processes;
    updated_at = now;
  }

elem-append : (n : ℕ) (xs ys : List ℕ) → elem n (xs ++ ys) ≡ (elem n xs || elem n ys)
elem-append n [] ys = refl
elem-append n (x ∷ xs) ys = ground (arith, elem-append n xs ys)

is_active-one :
    (s : ContainerStatus)
    → is_active s ≡ true
    → (s ≡ ContainerStatus.created)
      ⊎ ((s ≡ ContainerStatus.restarting) ⊎ (s ≡ ContainerStatus.running))
is_active-one ContainerStatus.created h = inl refl
is_active-one ContainerStatus.restarting h = inr (inl refl)
is_active-one ContainerStatus.running h = inr (inr refl)
is_active-one ContainerStatus.paused h = absurd (cc)
is_active-one ContainerStatus.exited h = absurd (cc)
is_active-one ContainerStatus.dead h = absurd (cc)
is_active-one (ContainerStatus.other t) h = absurd (cc)

pub is_active-cases :
    (s : ContainerStatus)
    → (is_active s ≡ true) ↔ (
        (s ≡ ContainerStatus.created)
        ⊎ ((s ≡ ContainerStatus.restarting) ⊎ (s ≡ ContainerStatus.running)))
is_active-cases s = (
  is_active-one s,
  λ h. elim h [ inl e ↦ rw e refl | inr k ↦ elim k [ inl e ↦ rw e refl | inr e ↦ rw e refl ] ],
)

-- The GPUs of an active container are among the active ones.
elem-active :
    (n : ℕ) (info : RunningContainerInfo) {infos : List RunningContainerInfo}
    → Memᴰ info infos
    → is_active info.status ≡ true
    → elem n info.gpu_indices ≡ true
    → elem n (active_gpu_indices infos) ≡ true
unfolding active_gpu_indices
elem-active n info (Memᴰ.head {x = c} {xs = cs} e) a h =
    let active = subst (λ (y : RunningContainerInfo). is_active y.status ≡ true) e a in
    let held = subst (λ (y : RunningContainerInfo). elem n y.gpu_indices ≡ true) e h in
    rw active (ground (arith, elem-append n c.gpu_indices (active_gpu_indices cs), held))
elem-active n info (Memᴰ.tail {x = c} {xs = cs} m) a h =
    ground (arith, elem-append n c.gpu_indices (active_gpu_indices cs), elem-active n info m a h)

-- An active index comes from an active container.
active-elem :
    (n : ℕ) (cs : List RunningContainerInfo)
    → elem n (active_gpu_indices cs) ≡ true
    → (c : RunningContainerInfo) × Memᴰ c cs
      × (is_active c.status ≡ true)
      × (elem n c.gpu_indices ≡ true)
unfolding active_gpu_indices
active-elem n [] h = absurd (ground arith)
active-elem n (c ∷ cs) h = elim (Bool-cases (is_active c.status)) [
  | inl a ↦ elim (Bool-cases (elem n c.gpu_indices)) [
    | inl e ↦ (c, Memᴰ.head refl, a, e)
    | inr e ↦
        let (x, m, b, k) =
          active-elem n cs (ground (arith, elem-append n c.gpu_indices (active_gpu_indices cs))) in
        (x, Memᴰ.tail m, b, k)
  ]
  | inr a ↦ let (x, m, b, k) = active-elem n cs (ground arith) in (x, Memᴰ.tail m, b, k)
]

active-IsHeld :
    (cs : List RunningContainerInfo) (n : ℕ) → (elem n (active_gpu_indices cs) ≡ true) ↔ IsHeld cs n
active-IsHeld cs n = (
  (λ h. let (c, m, a, e) = active-elem n cs h in (c, m, (is_active-cases c.status).0 a, e)),
  λ (c, m, a, e). elem-active n c m ((is_active-cases c.status).1 a) e,
)

not_held :
    (cs : List RunningContainerInfo) (n : ℕ)
    → ¬ IsHeld cs n
    → elem n (active_gpu_indices cs) ≡ false
not_held cs n h = elim (Bool-cases (elem n (active_gpu_indices cs))) [
  | inl e ↦ absurd (h ((active-IsHeld cs n).0 e))
  | inr e ↦ e
]

status-idle :
    (active : List ℕ) (i : GpuInfo)
    → elem i.index active ≡ false
    → IsUnused i
    → reported_status active i ≡ GpuStatus.idle
unfolding reported_status
status-idle active i h (a, b, c) = rw (h, a, b, c, reported_status) refl

no_elements : {A : Type 0} (xs : List A) → length xs ≡ 0 → xs ≡ []
no_elements [] h = refl
no_elements (x ∷ xs) h = absurd (ground arith)

status-busy :
    (active : List ℕ) (i : GpuInfo)
    → elem i.index active ≡ false
    → ¬ IsUnused i
    → reported_status active i ≡ GpuStatus.busy
unfolding reported_status
status-busy active i h used =
    elim (Bool-cases
      (ltb 0 (length i.processes) || (ltb 0 i.utilization_gpu || ltb 0 i.memory_used))) [
        | inl e ↦ rw (h, e, reported_status) refl
        | inr e ↦ absurd (used (no_elements i.processes (ground arith), ground arith, ground arith))
      ]

-- A row that the report of a GPU would not change shows that GPU.
pub report_gpu-IsReportOf :
    (now : ℕ) (p : HeartbeatPayload) (i : GpuInfo) (g : GpuDevice)
    → i.index ≡ g.gpu_index
    → g ≡ report_gpu now (active_gpu_indices p.running_containers) i g
    → IsReportOf now p i g
unfolding report_gpu reported_status
report_gpu-IsReportOf now p i g index same =
    let cs = p.running_containers in
    let status = ap (λ (x : GpuDevice). x.status) same in
    record {
      index = index;
      allocated = λ held.
          (let k = (active-IsHeld cs i.index).1 held in status ∙ rw (k, reported_status) refl);
      idle = λ free unused. status ∙ status-idle _ i (not_held cs i.index free) unused;
      busy = λ free used. status ∙ status-busy _ i (not_held cs i.index free) used;
      measured =
          same
          ∙ ap
              (λ (s : GpuStatus). record g {
                gpu_uuid = i.uuid;
                gpu_model = some i.model;
                memory_total_mb = some i.memory_total;
                memory_used_mb = i.memory_used;
                memory_free_mb = i.memory_free;
                utilization = i.utilization_gpu;
                utilization_memory = i.utilization_memory;
                temperature = i.temperature;
                power_usage = i.power_usage;
                power_limit = i.power_limit;
                processes = i.processes;
                updated_at = now;
                status = s;
              })
              (sym status);
    }
