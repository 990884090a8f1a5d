-- ===== src/Monitor.antt =====
-- backend/app/services/monitor_service.py: sampling the GPUs, failing the tasks of silent nodes, and
-- the two views. Times are in microseconds.
pub mod Offline
use my_frist_reop.Prelude.{
  ℕ, suc, ◌+◌, ◌-◌, ◌*◌, String, Bool, true, false, not, ◌&&◌, ◌||◌, Option, none, some, List, [],
  ◌∷◌, ◌++◌, map, length, select, sort_by, update_where, elem, ltb, leb, ◌==◌, or_else,
  if◌then◌else◌, max,
}
use my_frist_reop.Data.{Db}
use my_frist_reop.Data.Cluster.{
  Node, NodeStatus, GpuDevice, GpuStatus, GpuMetric, is_online, is_offline, is_idle,
}
use my_frist_reop.Data.Work.{Task, TaskStatus, ResultJson, empty_result}

-- The two settings of backend/app/config.py.
pub record MonitorSettings : Type 0 where
  pub gpu_metrics_retention_days : ℕ
  pub node_heartbeat_timeout_seconds : ℕ

abbrev metric_of : ℕ → ℕ → GpuDevice → GpuMetric
metric_of now id g = record {
  id = id;
  node_id = g.node_id;
  gpu_index = g.gpu_index;
  utilization = g.utilization;
  memory_used = g.memory_used_mb;
  memory_total = or_else g.memory_total_mb 0;
  temperature = g.temperature;
  power_usage = g.power_usage;
  timestamp = now;
}

abbrev add_metric : ℕ → GpuDevice → Db → Db
add_metric now g db = record db {
  metrics = db.metrics ++ metric_of now db.next_row g ∷ [];
  next_row = suc db.next_row;
}

-- The inner loop, over the GPUs of one node; `n` is `collected`.
unfoldable pub sample_gpus : ℕ → List GpuDevice → Db → ℕ → Db × ℕ
sample_gpus now [] db n = (db, n)
sample_gpus now (g ∷ gs) db n = sample_gpus now gs (add_metric now g db) (n + 1)

abbrev pub gpus_of : ℕ → List GpuDevice → List GpuDevice
gpus_of node_id = select (λ (g : GpuDevice). g.node_id == node_id)

unfoldable pub sample_nodes : ℕ → List Node → Db → ℕ → Db × ℕ
unfolding sample_gpus
sample_nodes now [] db n = (db, n)
sample_nodes now (node ∷ nodes) db n =
    let (db', n') = sample_gpus now (gpus_of node.id db.gpus) db n in sample_nodes now nodes db' n'

abbrev is_retained : ℕ → GpuMetric → Bool
is_retained cutoff m = not (ltb m.timestamp cutoff)

-- `collect_gpu_metrics`: the tables, and the number of samples.
unfoldable pub collect_gpu_metrics : MonitorSettings → ℕ → Db → Db × ℕ
unfolding sample_nodes
collect_gpu_metrics s now db =
    let (db', n) = sample_nodes now (select (λ (x : Node). is_online x.status) db.nodes) db 0 in
    let cutoff = now - s.gpu_metrics_retention_days * 86400000000 in
    (record db' { metrics = select (is_retained cutoff) db'.metrics }, n)

-- `last_heartbeat IS NULL OR last_heartbeat < timeout`
abbrev pub is_late : ℕ → Option ℕ → Bool
is_late timeout none = true
is_late timeout (some t) = ltb t timeout

-- The query for the nodes that have gone silent.
unfoldable pub is_silent : ℕ → Node → Bool
is_silent timeout node = not (is_offline node.status) && is_late timeout node.last_heartbeat

abbrev pub take_offline : Node → Node
take_offline node = record node { status = NodeStatus.offline; cpu_percent = 0; memory_percent = 0 }

abbrev pub reset_gpu : GpuDevice → GpuDevice
reset_gpu g = record g {
  status = GpuStatus.idle;
  utilization = 0;
  utilization_memory = 0;
  memory_used_mb = 0;
  memory_free_mb = or_else g.memory_total_mb 0;
  temperature = 0;
  power_usage = 0;
}

-- `status in ["queued", "running"]`
abbrev pub is_active : TaskStatus → Bool
is_active TaskStatus.queued = true
is_active TaskStatus.running = true
is_active _ = false

abbrev pub is_assigned_to : List ℕ → Option ℕ → Bool
is_assigned_to ids none = false
is_assigned_to ids (some id) = elem id ids

unfoldable pub is_impacted : List ℕ → Task → Bool
is_impacted ids task = is_assigned_to ids task.assigned_node_id && is_active task.status

-- `{**(task.result_json or {}), "reason": …, "failed_at": …}`
abbrev pub fail_on_timeout : ℕ → Task → Task
fail_on_timeout now task =
    let old : ResultJson = or_else task.result_json empty_result in
    record task {
      status = TaskStatus.failed;
      finished_at = some now;
      result_json =
          some (record old { reason = some "Node heartbeat timeout"; failed_at = some now });
    }

abbrev pub silent_ids : ℕ → List Node → List ℕ
silent_ids timeout nodes = map (λ (n : Node). n.id) (select (is_silent timeout) nodes)

-- `mark_offline_nodes`: the tables, and the number of nodes. With no silent node nothing is written.
unfoldable pub mark_offline_nodes : MonitorSettings → ℕ → Db → Db × ℕ
unfolding is_silent is_impacted
mark_offline_nodes s now db =
    let timeout = now - s.node_heartbeat_timeout_seconds * 1000000 in
    let ids = silent_ids timeout db.nodes in
    if length ids == 0 then (db, 0) else (
      record db {
        nodes = update_where (is_silent timeout) take_offline db.nodes;
        gpus = update_where (λ g. elem g.node_id ids) reset_gpu db.gpus;
        tasks = update_where (is_impacted ids) (fail_on_timeout now) db.tasks;
      },
      length ids,
    )

-- The query of `get_gpu_history`, ordered by time and then by index.
abbrev of_history : ℕ → Option ℕ → ℕ → GpuMetric → Bool
of_history node_id gpu_index cutoff m =
    m.node_id == node_id
    && not (ltb m.timestamp cutoff)
    && elim gpu_index [ none ↦ true | some i ↦ m.gpu_index == i ]

abbrev sampled_before : GpuMetric → GpuMetric → Bool
sampled_before a b =
    if a.timestamp == b.timestamp then ltb a.gpu_index b.gpu_index else ltb a.timestamp b.timestamp

-- `get_gpu_history`
unfoldable pub get_gpu_history : ℕ → Db → ℕ → Option ℕ → ℕ → List GpuMetric
get_gpu_history now db node_id gpu_index hours =
    let cutoff = now - max hours 1 * 3600000000 in
    sort_by sampled_before (select (of_history node_id gpu_index cutoff) db.metrics)

-- The row of `get_nodes_overview` without the two rounded percentages.
pub record NodeOverview : Type 0 where
  pub node_id : ℕ
  pub hostname : Option String
  pub ip : ℕ
  pub status : NodeStatus
  pub gpu_count : ℕ
  pub gpu_used : ℕ
  pub last_heartbeat : Option ℕ

-- `gpu.status != "idle" or gpu.utilization_gpu > 0 or gpu.memory_used_mb > 0`
abbrev pub is_used : GpuDevice → Bool
is_used g = not (is_idle g.status) || (ltb 0 g.utilization || ltb 0 g.memory_used_mb)

abbrev overview_of : List GpuDevice → Node → NodeOverview
overview_of gpus node = record {
  node_id = node.id;
  hostname = node.hostname;
  ip = node.ip;
  status = node.status;
  gpu_count = if node.gpu_count == 0 then length (gpus_of node.id gpus) else node.gpu_count;
  gpu_used = length (select is_used (gpus_of node.id gpus));
  last_heartbeat = node.last_heartbeat;
}

abbrev ip_before : Node → Node → Bool
ip_before a b = ltb a.ip b.ip

-- `get_nodes_overview`
unfoldable pub get_nodes_overview : Db → List NodeOverview
get_nodes_overview db = map (overview_of db.gpus) (sort_by ip_before db.nodes)
