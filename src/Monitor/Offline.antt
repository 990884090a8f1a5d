-- ===== src/Monitor/Offline.antt =====
-- What the heartbeat check of backend/app/services/monitor_service.py establishes.
use my_frist_reop.Prelude.{
  ℕ, ◌-◌, ◌*◌, ◌<◌, ◌≡◌, ◌≢◌, ◌⊎◌, true, false, none, some, List, [], ◌∷◌, Memᴰ, All, length, ◌==◌,
  arith, or_else,
}
use my_frist_reop.Data.{Db}
use my_frist_reop.Data.Cluster.{Node, NodeStatus, GpuDevice, GpuStatus}
use my_frist_reop.Data.Work.{Task, TaskStatus, empty_result}
use my_frist_reop.Monitor.{MonitorSettings, is_silent, silent_ids}

-- The time before which a last heartbeat is too old.
abbrev pub deadline : MonitorSettings → ℕ → ℕ
deadline s now = now - s.node_heartbeat_timeout_seconds * 1000000

none_silent :
    (timeout : ℕ) (nodes : List Node)
    → (length (silent_ids timeout nodes) == 0) ≡ true
    → All (λ n. is_silent timeout n ≡ false) nodes
unfolding is_silent
none_silent timeout [] h = tt
none_silent timeout (n ∷ ns) h = ground (arith, none_silent timeout ns)

-- The rows of two lists, one by one.
abbrev pub Pairwise : {A : Type 0} → (A → A → Type 0) → List A → List A → Type 0
Pairwise R [] [] = Unit
Pairwise R (x ∷ xs) (y ∷ ys) = R x y × Pairwise R xs ys
Pairwise R _ _ = ⊥

-- The rows with a property are changed in this way, and the others are as they were.
abbrev pub IsChangedWhere : {A : Type 0} → (A → Type 0) → (A → A) → List A → List A → Type 0
IsChangedWhere P f = Pairwise (λ x y. (P x → y ≡ f x) × (¬ P x → y ≡ x))

-- A node that is not offline and has no heartbeat, or none since the deadline.
abbrev pub HasGoneSilent : ℕ → Node → Type 0
HasGoneSilent limit n =
    (n.status ≢ NodeStatus.offline)
    × ((n.last_heartbeat ≡ none) ⊎ ((t : ℕ) × (n.last_heartbeat ≡ some t) × (t < limit)))

-- The key of a node that has gone silent.
abbrev pub IsSilentKey : ℕ → List Node → ℕ → Type 0
IsSilentKey limit nodes id = (n : Node) × Memᴰ n nodes × HasGoneSilent limit n × (n.id ≡ id)

-- A queued or running task on a node that has gone silent.
abbrev pub IsStranded : ℕ → List Node → Task → Type 0
IsStranded limit nodes t =
    ((id : ℕ) × (t.assigned_node_id ≡ some id) × IsSilentKey limit nodes id)
    × ((t.status ≡ TaskStatus.queued) ⊎ (t.status ≡ TaskStatus.running))

-- What a check at time `now` has established: the nodes that had gone silent are offline and show no load,
-- their GPUs are idle and show no use, the queued and running tasks on them have failed at that time for the
-- reason of the timeout, with the rest of their result kept; every other row and every other table is as it
-- was; and no node is silent any more.
pub record IsChecked (s : MonitorSettings) (now : ℕ) (db db' : Db) : Type 0 where
  pub nodes :
      IsChangedWhere
        (HasGoneSilent (deadline s now))
        (λ (n : Node). record n {
          status = NodeStatus.offline;
          cpu_percent = 0;
          memory_percent = 0;
        })
        db.nodes
        db'.nodes
  pub gpus :
      IsChangedWhere
        (λ (g : GpuDevice). IsSilentKey (deadline s now) db.nodes g.node_id)
        (λ (g : GpuDevice). record g {
          status = GpuStatus.idle;
          utilization = 0;
          utilization_memory = 0;
          memory_used_mb = 0;
          memory_free_mb = or_else g.memory_total_mb 0;
          temperature = 0;
          power_usage = 0;
        })
        db.gpus
        db'.gpus
  pub tasks :
      IsChangedWhere
        (IsStranded (deadline s now) db.nodes)
        (λ (t : Task). record t {
          status = TaskStatus.failed;
          finished_at = some now;
          result_json = some (record (or_else t.result_json empty_result) {
            reason = some "Node heartbeat timeout";
            failed_at = some now;
          });
        })
        db.tasks
        db'.tasks
  pub others : db' ≡ record db { nodes = db'.nodes; gpus = db'.gpus; tasks = db'.tasks }
  pub none_silent : All (λ n. ¬ HasGoneSilent (deadline s now) n) db'.nodes
