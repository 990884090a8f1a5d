-- ===== src/Allocator/Candidates.antt =====
-- The GPUs that `allocate` of scheduler/gpu_allocator.py may choose from, and the order of its candidates.
use my_frist_reop.Prelude.{
  ℕ, ◌≤◌, ◌≡◌, refl, inl, inr, true, false, Option, List, [], ◌∷◌, Memᴰ, length, select, All,
  All-select, All-weaken, All-Memᴰ, All-select_keep, All-and, All-sort_by, leb, Bool-cases, arith,
}
use my_frist_reop.Data.{Db}
use my_frist_reop.Data.Cluster.{Node, GpuDevice, GpuStatus}
use my_frist_reop.Data.Work.{TaskConfig}
use my_frist_reop.Allocator.{
  Candidate, matches_requirements, is_idle_on, index_before, available_gpus, filtered_gpus,
  candidates, candidate_before,
}

-- A GPU that may be given to a task with this configuration on this node.
pub record IsUsable (db : Db) (config : Option TaskConfig) (node : Node) (gpu : GpuDevice)
    : Type 0 where
  pub listed : Memᴰ gpu db.gpus
  pub here : gpu.node_id ≡ node.id
  pub free : gpu.status ≡ GpuStatus.idle
  pub fits : matches_requirements config gpu ≡ true

module _ (db : Db) (config : Option TaskConfig) where
  idle_on_parts :
      (node : Node) (gpu : GpuDevice)
      → is_idle_on node gpu ≡ true
      → (gpu.node_id ≡ node.id) × (gpu.status ≡ GpuStatus.idle)
  idle_on_parts node gpu h = ground arith

  available_parts :
      (node : Node)
      → All (λ g. Memᴰ g db.gpus × (is_idle_on node g ≡ true)) (available_gpus db node)
  unfolding available_gpus
  available_parts node =
      let p = is_idle_on node in
      All-sort_by index_before _ (select p db.gpus) (
        All-and _ _ (select p db.gpus) (All-select_keep _ p db.gpus (All-Memᴰ db.gpus))
          (All-select p db.gpus))

  pub filtered-IsUsable :
      (node : Node) → All (IsUsable db config node) (filtered_gpus db config node)
  unfolding filtered_gpus
  filtered-IsUsable node =
      let p = matches_requirements config in
      let gs = available_gpus db node in
      All-weaken _ _ (select p gs)
        (λ g h. record {
          listed = h.0.0;
          here = (idle_on_parts node g h.0.1).0;
          free = (idle_on_parts node g h.0.1).1;
          fits = h.1;
        })
        (All-and _ _ (select p gs) (All-select_keep _ p gs (available_parts node))
          (All-select p gs))

  -- What the loop of `allocate` collects of the nodes `all`.
  pub record IsCandidate (n : ℕ) (all : List Node) (c : Candidate) : Type 0 where
    pub listed : Memᴰ c.node all
    pub gpus : c.gpus ≡ filtered_gpus db config c.node
    pub enough : n ≤ length c.gpus

  module _ (n : ℕ) where
    pub candidates-IsCandidate :
        (nodes : List Node) → All (IsCandidate n nodes) (candidates db config n nodes)
    unfolding candidates
    candidates-IsCandidate [] = tt
    candidates-IsCandidate (node ∷ nodes) =
        let rest =
          All-weaken (IsCandidate n nodes) (IsCandidate n (node ∷ nodes))
            (candidates db config n nodes)
            (λ c h. record { listed = Memᴰ.tail h.listed; gpus = h.gpus; enough = h.enough })
            (candidates-IsCandidate nodes) in
        elim (Bool-cases (leb n (length (filtered_gpus db config node)))) [
          | inl e ↦
              rw e (record { listed = Memᴰ.head refl; gpus = refl; enough = ground arith }, rest)
          | inr e ↦ rw e rest
        ]

    -- A node with enough GPUs is a candidate, so what holds of all candidates holds of it.
    pub candidates-All {κ} :
        (P : Candidate → Type κ) (nodes : List Node)
        → All P (candidates db config n nodes)
        → All
            (λ node.
              n ≤ length (filtered_gpus db config node)
              → P (record { node = node; gpus = filtered_gpus db config node }))
            nodes
    unfolding candidates
    candidates-All P [] h = tt
    candidates-All P (node ∷ nodes) h =
        elim (Bool-cases (leb n (length (filtered_gpus db config node)))) [
          | inl e ↦
              let (first, rest) = rw (e, candidates) at h in
              (λ _. first, candidates-All P nodes rest)
          | inr e ↦ (λ k. absurd (ground arith), candidates-All P nodes (rw (e, candidates) at h))
        ]

pub candidate_asym :
    (n : ℕ) (c d : Candidate) → candidate_before n c d ≡ true → candidate_before n d c ≡ false
unfolding candidate_before
candidate_asym n c d h = ground arith

pub candidate_neg_trans :
    (n : ℕ) (c d e : Candidate)
    → candidate_before n c d ≡ false
    → candidate_before n d e ≡ false
    → candidate_before n c e ≡ false
unfolding candidate_before
candidate_neg_trans n c d e h k = ground arith
