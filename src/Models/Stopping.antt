-- ===== src/Models/Stopping.antt =====
-- What `stop_model` of backend/app/services/model_service.py leaves behind.
use my_frist_reop.Prelude.{
  ℕ, ◌≡◌, refl, subst, inl, inr, ◌⊎◌, Bool, true, not, Option, none, some, List, [], ◌∷◌, select,
  update_where, get, or_else, All, Bool-cases, Option-cases, arith,
}
use my_frist_reop.Data.{Db}
use my_frist_reop.Data.Cluster.{GpuDevice, GpuStatus}
use my_frist_reop.Allocator.{set_status, is_held_by}
use my_frist_reop.Models.{
  ModelInstance, ModelDb, ModelError, StopReply, model_keyed, release_instance, stop_instance,
  stop_all, belongs_to, finish_stop, stop_model,
}

-- The GPUs of an instance are idle.
abbrev pub IsReleased : List GpuDevice → ModelInstance → Type 0
IsReleased gpus i =
    All
      (λ (g : GpuDevice).
        is_held_by i.node_id (or_else i.assigned_gpu_indices []) g ≡ true
        → g.status ≡ GpuStatus.idle)
      gpus

idle_after :
    (node_id : ℕ) (indices : List ℕ) (gs : List GpuDevice)
    → All
        (λ g. is_held_by node_id indices g ≡ true → g.status ≡ GpuStatus.idle)
        (update_where (is_held_by node_id indices) (set_status GpuStatus.idle) gs)
idle_after node_id indices [] = tt
idle_after node_id indices (g ∷ gs) = elim (Bool-cases (is_held_by node_id indices g)) [
  | inl e ↦ rw e ((λ held. refl), idle_after node_id indices gs)
  | inr e ↦ rw e ((λ held. absurd (cc)), idle_after node_id indices gs)
]

nothing_held :
    (node_id : ℕ) (gs : List GpuDevice)
    → All (λ g. is_held_by node_id [] g ≡ true → g.status ≡ GpuStatus.idle) gs
nothing_held node_id [] = tt
nothing_held node_id (g ∷ gs) = ((λ held. absurd (ground arith)), nothing_held node_id gs)

release_instance-IsReleased :
    (i : ModelInstance) (gs : List GpuDevice) → IsReleased (release_instance i gs) i
unfolding release_instance
release_instance-IsReleased i gs = elim (Option-cases i.assigned_gpu_indices) [
  | inl e ↦ rw (e, release_instance) (nothing_held i.node_id gs)
  | inr (indices, e) ↦ rw (e, release_instance) (idle_after i.node_id indices gs)
]

module _ (P : GpuDevice → Bool)
    (same : (g : GpuDevice) → P (set_status GpuStatus.idle g) ≡ P g) where
  update_keeps :
      (q : GpuDevice → Bool) (gs : List GpuDevice)
      → All (λ g. P g ≡ true → g.status ≡ GpuStatus.idle) gs
      → All
          (λ g. P g ≡ true → g.status ≡ GpuStatus.idle)
          (update_where q (set_status GpuStatus.idle) gs)
  update_keeps q [] h = tt
  update_keeps q (g ∷ gs) h = elim (Bool-cases (q g)) [
    | inl e ↦ rw e ((λ held. refl), update_keeps q gs h.1)
    | inr e ↦ rw e (h.0, update_keeps q gs h.1)
  ]

release_instance-keeps :
    (i j : ModelInstance) (gs : List GpuDevice)
    → IsReleased gs i
    → IsReleased (release_instance j gs) i
unfolding release_instance
release_instance-keeps i j gs h = elim (Option-cases j.assigned_gpu_indices) [
  | inl e ↦ rw (e, release_instance) h
  | inr (indices, e) ↦
      rw (e, release_instance)
        (update_keeps (is_held_by i.node_id (or_else i.assigned_gpu_indices [])) (λ g. refl)
          (is_held_by j.node_id indices) gs h)
]

-- How a call of `stop_model` can end: with an exception and the tables as they were, or with no instance
-- of the model left, those of other models as they were, and all GPUs of the stopped instances idle.
abbrev pub IsStopped : ℕ → ModelDb → Option ModelError × ModelDb → Type 0
IsStopped id m (some e, m') = m' ≡ m
IsStopped id m (none, m') =
    (m'.instances ≡ select (λ i. not (belongs_to id i)) m.instances)
    × All (IsReleased m'.db.gpus) (select (belongs_to id) m.instances)

module _ (default_agent_port : ℕ) (stop : ℕ → ℕ → ℕ → StopReply) where
  stop_all-keeps :
      (is : List ModelInstance) (db : Db) (gs gs' : List GpuDevice) (i : ModelInstance)
      → stop_all default_agent_port stop is db gs ≡ inr gs'
      → IsReleased gs i
      → IsReleased gs' i
  unfolding stop_all
  stop_all-keeps [] db gs gs' i h r =
      let same : gs ≡ gs' = ground arith in subst (λ x. IsReleased x i) same r
  stop_all-keeps (j ∷ is) db gs gs' i h r =
      elim (Option-cases (stop_instance default_agent_port stop j db)) [
        | inl e ↦
            stop_all-keeps is db (release_instance j gs) gs' i (rw (e, stop_all) at h)
              (release_instance-keeps i j gs r)
        | inr (x, e) ↦ absurd (let k = (rw (e, stop_all) at h) in ground arith)
      ]

  stop_all-IsReleased :
      (is : List ModelInstance) (db : Db) (gs gs' : List GpuDevice)
      → stop_all default_agent_port stop is db gs ≡ inr gs'
      → All (IsReleased gs') is
  unfolding stop_all
  stop_all-IsReleased [] db gs gs' h = tt
  stop_all-IsReleased (j ∷ is) db gs gs' h =
      elim (Option-cases (stop_instance default_agent_port stop j db)) [
        | inl e ↦
            let k = (rw (e, stop_all) at h) in
            (
              stop_all-keeps is db (release_instance j gs) gs' j k
                  (release_instance-IsReleased j gs),
              stop_all-IsReleased is db (release_instance j gs) gs' k,
            )
        | inr (x, e) ↦ absurd (let k = (rw (e, stop_all) at h) in ground arith)
      ]

  -- A call of `stop_model` that raises, because the model is not there or an agent did not stop a
  -- container, changes no table; one that returns leaves no instance of the model, the instances of
  -- other models as they were, and every GPU of a stopped instance idle.
  pub stop_model-IsStopped :
      (id : ℕ) (m : ModelDb) → IsStopped id m (stop_model default_agent_port stop id m)
  unfolding stop_model
  stop_model-IsStopped id m = elim (Option-cases (get id m.models)) [
    | inl e ↦ rw (e, stop_model) refl
    | inr (x, e) ↦ rw (e, stop_model) (go _ refl)
  ]
    where
      go :
          (r : ModelError ⊎ List GpuDevice)
          → stop_all default_agent_port stop (select (belongs_to id) m.instances) m.db m.db.gpus ≡ r
          → IsStopped id m (finish_stop id m r)
      go (inl e) k = refl
      go (inr gs) k = (refl, stop_all-IsReleased _ m.db m.db.gpus gs k)
