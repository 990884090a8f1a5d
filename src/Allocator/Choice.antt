-- ===== src/Allocator/Choice.antt =====
-- Which node and which GPUs `allocate` chooses, and when it chooses none.
use my_frist_reop.Prelude.{
  ℕ, ◌≤◌, ◌<◌, ◌≡◌, refl, sym, subst, ◌↔◌, inl, inr, false, Option, none, some, List, [], ◌∷◌, Memᴰ,
  length, take, All, All-take, All-weaken, All-of_Memᴰ, length-take, ap, sort_by, All-sort_by,
  sort_by-All, sort_by-HeadIsLeast, HeadIsLeast, leb, Bool-cases, arith,
}
use my_frist_reop.Prelude.Int.{pos, pos_part, leb_ℤ}
use my_frist_reop.Data.{Db}
use my_frist_reop.Data.Cluster.{Node, GpuDevice}
use my_frist_reop.Data.Work.{Task, TaskConfig}
use my_frist_reop.Allocator.{
  Allocation, Candidate, required_gpu_count, filtered_gpus, candidates, candidate_before,
  allocation_on, indices_of, mark_allocated, allocate, allocate_cpu, take_first,
}
use my_frist_reop.Allocator.Candidates.{
  IsUsable, filtered-IsUsable, IsCandidate, candidates-IsCandidate, candidates-All, candidate_asym,
  candidate_neg_trans,
}

-- What a successful `allocate` for `n` GPUs has done: it chose a node of the list and `n` GPUs of it,
-- each idle and matching, and marked exactly these.
pub record IsGrant (db : Db) (config : Option TaskConfig) (n : ℕ) (nodes : List Node)
    (a : Allocation) (db' : Db) : Type 0 where
  pub node : Node
  pub gpus : List GpuDevice
  pub listed : Memᴰ node nodes
  pub allocation : a ≡ allocation_on node (indices_of gpus)
  pub exact : length gpus ≡ n
  pub usable : All (IsUsable db config node) gpus
  pub marked : db' ≡ mark_allocated gpus db
  pub most_free :
      All
        (λ other. length (filtered_gpus db config other) ≤ length (filtered_gpus db config node))
        nodes

module _ (db : Db) (config : Option TaskConfig) (n : ℕ) (nodes : List Node) where
  sorted_candidates : List Candidate
  sorted_candidates = sort_by (candidate_before n) (candidates db config n nodes)

  sorted-IsCandidate : All (IsCandidate db config n nodes) sorted_candidates
  unfolding sorted_candidates
  sorted-IsCandidate =
      All-sort_by (candidate_before n) _ _ (candidates-IsCandidate db config n nodes)

  sorted-HeadIsLeast : HeadIsLeast (candidate_before n) sorted_candidates
  unfolding sorted_candidates
  sorted-HeadIsLeast =
      sort_by-HeadIsLeast (candidate_before n) (candidate_asym n) (candidate_neg_trans n)
        (candidates db config n nodes)

  -- What holds of every sorted candidate holds of every node with enough GPUs.
  sorted-All {κ} :
      (P : Candidate → Type κ)
      → All P sorted_candidates
      → All
          (λ node.
            n ≤ length (filtered_gpus db config node)
            → P (record { node = node; gpus = filtered_gpus db config node }))
          nodes
  unfolding sorted_candidates
  sorted-All P h = candidates-All db config n P nodes (sort_by-All (candidate_before n) P _ h)

  not_before-le : (c d : Candidate) → candidate_before n d c ≡ false → length d.gpus ≤ length c.gpus
  unfolding candidate_before
  not_before-le c d h = ground arith

  le_total-lt : (m k : ℕ) → n ≤ k → (n ≤ m → m ≤ k) → m ≤ k
  le_total-lt m k h f = elim (Bool-cases (leb n m)) [
    | inl e ↦ f (ground arith)
    | inr e ↦ ground arith
  ]

  head-most_free :
      (c : Candidate) (cs : List Candidate)
      → c ∷ cs ≡ sorted_candidates
      → n ≤ length c.gpus
      → All (λ node. length (filtered_gpus db config node) ≤ length c.gpus) nodes
  head-most_free c cs e enough =
      let P : Candidate → Type 0 = λ d. length d.gpus ≤ length c.gpus in
      let least : All (λ d. candidate_before n d c ≡ false) cs =
        subst (HeadIsLeast (candidate_before n)) (sym e) sorted-HeadIsLeast in
      let below : All P (c ∷ cs) =
        (omega arith, All-weaken _ P cs (λ d. not_before-le c d) least) in
      All-weaken _ _ nodes (λ node. le_total-lt _ _ enough) (sorted-All P (subst (All P) e below))

  take_first-IsGrant :
      (cs : List Candidate) (a : Allocation) (db' : Db)
      → cs ≡ sorted_candidates
      → take_first n db cs ≡ (some a, db')
      → IsGrant db config n nodes a db'
  take_first-IsGrant [] a db' e h = absurd (ground arith)
  take_first-IsGrant (c ∷ cs) a db' e h =
      let here = (subst (All (IsCandidate db config n nodes)) (sym e) sorted-IsCandidate).0 in
      record {
        node = c.node;
        gpus = take n c.gpus;
        listed = here.listed;
        allocation = ground arith;
        exact = omega (arith, length-take n c.gpus, here.enough);
        usable = All-take _ n c.gpus (
            subst (All (IsUsable db config c.node)) (sym here.gpus)
              (filtered-IsUsable db config c.node));
        marked = ground arith;
        most_free =
            subst (λ gs. All (λ other. length (filtered_gpus db config other) ≤ length gs) nodes)
              here.gpus (head-most_free c cs e here.enough);
      }

  take_first-none :
      (cs : List Candidate)
      → cs ≡ sorted_candidates
      → (take_first n db cs ≡ (none, db))
        ↔ All (λ node. length (filtered_gpus db config node) < n) nodes
  take_first-none [] e = (
    λ _.
        All-weaken _ _ nodes (λ node. not_enough (length (filtered_gpus db config node)))
          (sorted-All (λ _. ⊥) (subst (All (λ _. ⊥)) e tt)),
    λ _. refl,
  )
    where
      not_enough : (m : ℕ) → (n ≤ m → ⊥) → m < n
      not_enough m f = omega arith
  take_first-none (c ∷ cs) e =
      let here = (subst (All (IsCandidate db config n nodes)) (sym e) sorted-IsCandidate).0 in
      (
        λ h. cc,
        λ h. absurd (
            omega (
              arith,
              All-of_Memᴰ (λ node. length (filtered_gpus db config node) < n) c.node here.listed h,
              here.enough,
              ap length here.gpus,
            )),
      )

-- For a task that asks for at least one GPU, a successful `allocate` has taken exactly the requested
-- number of idle, matching GPUs of one of the given nodes, has marked these rows and nothing else in
-- the database, and no other given node had more idle, matching GPUs.
pub allocate-IsGrant :
    (db : Db) (task : Task) (nodes : List Node) (a : Allocation) (db' : Db)
    → leb_ℤ (required_gpu_count task.config_json) (pos 0) ≡ false
    → allocate db task nodes ≡ (some a, db')
    → IsGrant db task.config_json (pos_part (required_gpu_count task.config_json)) nodes a db'
unfolding allocate sorted_candidates
allocate-IsGrant db task nodes a db' wants h =
    take_first-IsGrant db task.config_json _ nodes _ a db' refl (rw (wants, allocate) at h)

-- For a task that asks for at least one GPU, `allocate` gives nothing, and leaves the database as it was, exactly when every
-- given node has fewer idle, matching GPUs than requested.
pub allocate-none_iff :
    (db : Db) (task : Task) (nodes : List Node)
    → leb_ℤ (required_gpu_count task.config_json) (pos 0) ≡ false
    → let n = pos_part (required_gpu_count task.config_json) in
      (allocate db task nodes ≡ (none, db))
      ↔ All (λ node. length (filtered_gpus db task.config_json node) < n) nodes
unfolding allocate sorted_candidates
allocate-none_iff db task nodes wants =
    rw (wants, allocate) (take_first-none db task.config_json _ nodes _ refl)

take_first-none_same :
    (n : ℕ) (db : Db) (cs : List Candidate) (db' : Db) → take_first n db cs ≡ (none, db') → db' ≡ db
take_first-none_same n db [] db' h = ground arith
take_first-none_same n db (c ∷ cs) db' h = absurd (cc)

-- Whatever the task asks for, an `allocate` that gives nothing changes nothing.
pub allocate-none_same :
    (db : Db) (task : Task) (nodes : List Node) (db' : Db)
    → allocate db task nodes ≡ (none, db')
    → db' ≡ db
unfolding allocate
allocate-none_same db task nodes db' h =
    elim (Bool-cases (leb_ℤ (required_gpu_count task.config_json) (pos 0))) [
      | inl e ↦ ap (λ x. x.1) (sym (rw (e, allocate, allocate_cpu) at h))
      | inr e ↦ take_first-none_same _ db _ db' (rw (e, allocate) at h)
    ]

take_first_tasks : (n : ℕ) (db : Db) (cs : List Candidate) → (take_first n db cs).1.tasks ≡ db.tasks
unfolding mark_allocated
take_first_tasks n db [] = refl
take_first_tasks n db (c ∷ cs) = refl

-- `allocate` writes no row of `tasks`.
pub allocate_tasks :
    (db : Db) (task : Task) (nodes : List Node) → (allocate db task nodes).1.tasks ≡ db.tasks
unfolding allocate
allocate_tasks db task nodes =
    elim (Bool-cases (leb_ℤ (required_gpu_count task.config_json) (pos 0))) [
      | inl e ↦ rw (e, allocate)
      | inr e ↦ rw (e, allocate) (take_first_tasks _ db _)
    ]
