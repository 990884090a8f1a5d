-- ===== src/Nodes.antt =====
-- backend/app/services/node_service.py, with the payload of backend/app/schemas/node.py: what a
-- heartbeat of an agent writes, and the two lists.
pub mod Heartbeat
pub mod Statuses
pub mod Present
pub mod Reported
pub mod Serialized
use my_frist_reop.Prelude.{
  ℕ, String, Bool, true, false, not, ◌&&◌, ◌||◌, Option, none, some, List, [], ◌∷◌, ◌++◌, map,
  length, select, sort_by, update_where, elem, modify, ltb, ◌==◌, or_else, if◌then◌else◌,
}
use my_frist_reop.Data.{Db}
use my_frist_reop.Data.Cluster.{
  Node, NodeStatus, GpuDevice, GpuStatus, ProcessInfo, RunningContainer, ContainerStatus, is_online,
  is_idle, node_keyed,
}

-- `GpuInfo`
pub record GpuInfo : Type 0 where
  pub index : ℕ
  pub model : String
  pub uuid : Option String
  pub memory_total : ℕ
  pub memory_used : ℕ
  pub memory_free : ℕ
  pub utilization_gpu : ℕ
  pub utilization_memory : ℕ
  pub temperature : ℕ
  pub power_usage : ℕ
  pub power_limit : ℕ
  pub processes : List ProcessInfo

-- `RunningContainerInfo`
pub record RunningContainerInfo : Type 0 where
  pub container_id : ℕ
  pub task_id : Option ℕ
  pub image : Option String
  pub status : ContainerStatus
  pub gpu_indices : List ℕ
  pub started_at : Option ℕ

-- `HeartbeatPayload`, the fields that `handle_heartbeat` reads.
pub record HeartbeatPayload : Type 0 where
  pub timestamp : Option ℕ
  pub hostname : String
  pub ip : ℕ
  pub agent_port : ℕ
  pub gpus : List GpuInfo
  pub cpu_percent : ℕ
  pub memory_percent : ℕ
  pub memory_total : ℕ
  pub running_containers : List RunningContainerInfo

-- The UUIDs that are drawn: for a new node, for a new GPU by its index, for a container by its id.
pub record Draws : Type 0 where
  pub node : ℕ
  pub gpu : ℕ → ℕ
  pub container : ℕ → ℕ

-- `select(Node).where(Node.ip == payload.ip)`
unfoldable pub find_by_ip : ℕ → List Node → Option Node
find_by_ip ip [] = none
find_by_ip ip (n ∷ ns) = if n.ip == ip then some n else find_by_ip ip ns

-- A row with the column defaults.
abbrev pub blank_node : ℕ → ℕ → ℕ → Node
blank_node now id ip = record {
  id = id;
  hostname = none;
  ip = ip;
  agent_port = 9000;
  gpu_count = 0;
  gpu_model = none;
  total_memory_mb = none;
  status = NodeStatus.offline;
  cpu_percent = 0;
  memory_percent = 0;
  last_heartbeat = none;
  registered_at = now;
}

abbrev first_model : List GpuInfo → Option String
first_model [] = none
first_model (g ∷ gs) = some g.model

-- The assignments to the node.
unfoldable pub report_node : ℕ → HeartbeatPayload → Node → Node
report_node now p node = record node {
  hostname = some p.hostname;
  ip = p.ip;
  agent_port = p.agent_port;
  gpu_count = length p.gpus;
  gpu_model = first_model p.gpus;
  total_memory_mb = some p.memory_total;
  status = NodeStatus.online;
  cpu_percent = p.cpu_percent;
  memory_percent = p.memory_percent;
  last_heartbeat = some (or_else p.timestamp now);
}

-- `item.status in {"created", "restarting", "running"}`
abbrev pub is_active : ContainerStatus → Bool
is_active ContainerStatus.created = true
is_active ContainerStatus.restarting = true
is_active ContainerStatus.running = true
is_active _ = false

-- `active_gpu_indices`
unfoldable pub active_gpu_indices : List RunningContainerInfo → List ℕ
active_gpu_indices [] = []
active_gpu_indices (c ∷ cs) =
    let rest = active_gpu_indices cs in if is_active c.status then c.gpu_indices ++ rest else rest

abbrev pub container_row : ℕ → Draws → ℕ → RunningContainerInfo → RunningContainer
container_row now draws node_id c = record {
  id = draws.container c.container_id;
  node_id = node_id;
  container_id = c.container_id;
  task_id = c.task_id;
  image = c.image;
  status = c.status;
  gpu_indices = c.gpu_indices;
  started_at = c.started_at;
  updated_at = now;
}

-- The last `if` of the loop over the GPUs.
unfoldable pub reported_status : List ℕ → GpuInfo → GpuStatus
reported_status active i =
    if elem i.index active
    then GpuStatus.allocated
    else if ltb 0 (length i.processes) || (ltb 0 i.utilization_gpu || ltb 0 i.memory_used)
    then GpuStatus.busy
    else GpuStatus.idle

-- The assignments to a GPU.
unfoldable pub report_gpu : ℕ → List ℕ → GpuInfo → GpuDevice → GpuDevice
unfolding reported_status
report_gpu now active i gpu = record gpu {
  gpu_uuid = i.uuid;
  gpu_model = some i.model;
  memory_total_mb = some i.memory_total;
  memory_used_mb = i.memory_used;
  memory_free_mb = i.memory_free;
  utilization = i.utilization_gpu;
  utilization_memory = i.utilization_memory;
  temperature = i.temperature;
  power_usage = i.power_usage;
  power_limit = i.power_limit;
  processes = i.processes;
  status = reported_status active i;
  updated_at = now;
}

abbrev pub blank_gpu : ℕ → ℕ → ℕ → ℕ → GpuDevice
blank_gpu now id node_id index = record {
  id = id;
  node_id = node_id;
  gpu_index = index;
  gpu_uuid = none;
  gpu_model = none;
  memory_total_mb = none;
  memory_used_mb = 0;
  memory_free_mb = 0;
  utilization = 0;
  utilization_memory = 0;
  temperature = 0;
  power_usage = 0;
  power_limit = 0;
  status = GpuStatus.idle;
  processes = [];
  updated_at = now;
}

abbrev pub is_on : ℕ → GpuDevice → Bool
is_on node_id g = g.node_id == node_id

abbrev pub is_at : ℕ → ℕ → GpuDevice → Bool
is_at node_id index g = g.node_id == node_id && g.gpu_index == index

-- The keys of `existing_gpu_map`.
abbrev pub indices_on : ℕ → List GpuDevice → List ℕ
indices_on node_id gpus = map (λ (g : GpuDevice). g.gpu_index) (select (is_on node_id) gpus)

-- One round of the loop over the GPUs; `existing` is the map that was read before it.
unfoldable pub absorb_gpu :
    ℕ → Draws → ℕ → List ℕ → List ℕ → GpuInfo → List GpuDevice → List GpuDevice
unfolding report_gpu
absorb_gpu now draws node_id active existing i gpus =
    if elem i.index existing
    then update_where (is_at node_id i.index) (report_gpu now active i) gpus
    else gpus ++ report_gpu now active i (blank_gpu now (draws.gpu i.index) node_id i.index) ∷ []

unfoldable pub absorb_gpus :
    ℕ → Draws → ℕ → List ℕ → List ℕ → List GpuInfo → List GpuDevice → List GpuDevice
unfolding absorb_gpu
absorb_gpus now draws node_id active existing [] gpus = gpus
absorb_gpus now draws node_id active existing (i ∷ is) gpus =
    absorb_gpus now draws node_id active existing is
      (absorb_gpu now draws node_id active existing i gpus)

abbrev pub seen_indices : HeartbeatPayload → List ℕ
seen_indices p = map (λ (i : GpuInfo). i.index) p.gpus

-- What is left after `stale_gpus` are deleted.
abbrev pub is_kept : ℕ → List ℕ → GpuDevice → Bool
is_kept node_id seen g = not (g.node_id == node_id) || elem g.gpu_index seen
