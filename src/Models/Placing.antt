-- ===== src/Models/Placing.antt =====
-- Where `_allocate_for_model` of backend/app/services/model_service.py puts a replica.
use my_frist_reop.Prelude.{
  ℕ, ◌≤◌, ◌≡◌, refl, ap, ◌∙◌, sym, subst, inl, inr, String, true, Option, none, some, List, [], ◌∷◌,
  Memᴰ, length, take, select, sort_by, ltb, All, All-take, All-select, All-select_keep, All-and,
  All-Memᴰ, All-sort_by, length-take, Bool-cases, arith,
}
use my_frist_reop.Prelude.{length-sort_by}
use my_frist_reop.Data.{Db}
use my_frist_reop.Data.Cluster.{Node}
use my_frist_reop.Allocator.{mark_allocated}
use my_frist_reop.Models.{
  ModelDb, Placement, is_deployable, deploy_before, less_used, is_available, available_on, place_on,
  allocate_for_model, used_ports, next_host_port,
}
use my_frist_reop.Models.Ports.{IsLeastFree, next_host_port-IsLeastFree}

-- A node and GPUs that a replica may get.
pub record IsPlaced (lower : String → String) (n : ℕ) (hint : Option String) (m : ModelDb)
    (p : Placement) : Type 0 where
  pub node : Memᴰ p.node m.db.nodes × (is_deployable p.node.status ≡ true)
  pub exact : length p.gpus ≡ n
  pub usable : All (λ g. Memᴰ g m.db.gpus × (is_available lower hint p.node g ≡ true)) p.gpus
  pub port : IsLeastFree 8001 (used_ports p.node.id m.instances) p.port

module _ (lower : String → String) (n : ℕ) (hint : Option String) (m : ModelDb) where
  available_parts :
      (node : Node)
      → All
          (λ g. Memᴰ g m.db.gpus × (is_available lower hint node g ≡ true))
          (available_on lower hint m.db node)
  unfolding available_on
  available_parts node =
      let p = is_available lower hint node in
      All-and _ _ (select p m.db.gpus) (All-select_keep _ p m.db.gpus (All-Memᴰ m.db.gpus))
        (All-select p m.db.gpus)

  place_on-IsPlaced :
      (nodes : List Node) (p : Placement)
      → All (λ x. Memᴰ x m.db.nodes × (is_deployable x.status ≡ true)) nodes
      → place_on lower n hint m nodes ≡ some p
      → IsPlaced lower n hint m p
  unfolding place_on
  place_on-IsPlaced [] p ok h = absurd (ground arith)
  place_on-IsPlaced (x ∷ nodes) p ok h =
      let available = available_on lower hint m.db x in
      elim (Bool-cases (ltb (length available) n)) [
        | inl e ↦ place_on-IsPlaced nodes p ok.1 (rw (e, place_on) at h)
        | inr e ↦
            let placed : Placement = record {
              node = x;
              gpus = take n (sort_by less_used available);
              port = next_host_port x.id m.instances;
            } in
            let enough : n ≤ length available = ground arith in
            let same : placed ≡ p = (let k = (rw (e, place_on) at h) in ground arith) in
            subst (IsPlaced lower n hint m) same (record {
              node = ok.0;
              exact = omega (
                arith,
                length-take n (sort_by less_used available),
                length-sort_by less_used available,
                enough,
              );
              usable = All-take _ n _ (All-sort_by less_used _ available (available_parts x));
              port = next_host_port-IsLeastFree x.id m.instances;
            })
      ]

  sorted_nodes : List Node
  sorted_nodes = sort_by deploy_before (select (λ (x : Node). is_deployable x.status) m.db.nodes)

  sorted_nodes-deployable :
      All (λ x. Memᴰ x m.db.nodes × (is_deployable x.status ≡ true)) sorted_nodes
  unfolding sorted_nodes
  sorted_nodes-deployable =
      let p = λ (x : Node). is_deployable x.status in
      All-sort_by deploy_before _ (select p m.db.nodes) (
        All-and _ _ (select p m.db.nodes) (All-select_keep _ p m.db.nodes (All-Memᴰ m.db.nodes))
          (All-select p m.db.nodes))

  -- What a placement returns is a node that is online or in maintenance, the requested number of GPUs of
  -- that node, all idle and with the hint in their model, and the least free port from 8001 on; these GPUs
  -- are then marked, and nothing else.
  pub allocate_for_model-IsPlaced :
      (p : Placement) (db' : Db)
      → allocate_for_model lower n hint m ≡ some (p, db')
      → IsPlaced lower n hint m p × (db' ≡ mark_allocated p.gpus m.db)
  unfolding allocate_for_model sorted_nodes
  allocate_for_model-IsPlaced p db' h = go (place_on lower n hint m sorted_nodes) refl
    where
      go :
          (o : Option Placement)
          → place_on lower n hint m sorted_nodes ≡ o
          → IsPlaced lower n hint m p × (db' ≡ mark_allocated p.gpus m.db)
      go none e = absurd (let k = (rw (e, allocate_for_model) at h) in ground arith)
      go (some q) e =
          let k = (rw (e, allocate_for_model) at h) in
          let same : q ≡ p = ground arith in
          let marked : mark_allocated q.gpus m.db ≡ db' = ground arith in
          (
            subst (IsPlaced lower n hint m) same
                (place_on-IsPlaced sorted_nodes q sorted_nodes-deployable e),
            sym marked ∙ ap (λ (x : Placement). mark_allocated x.gpus m.db) same,
          )
