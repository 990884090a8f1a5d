-- ===== src/Data/Cluster.antt =====
-- backend/app/models/node.py and metric.py, with the mapped columns of scheduler/models.py: nodes,
-- GPUs, the containers that an agent reports, and the GPU history.
use my_frist_reop.Prelude.{ℕ, String, Bool, true, false, Option, List, Keyed}

-- `Node.status`.
pub data NodeStatus : Type 0 where
  offline online maintenance : NodeStatus

-- `GpuDevice.status`.
pub data GpuStatus : Type 0 where
  idle busy allocated : GpuStatus

-- Docker's container states; `other` is any string that is none of them.
pub data ContainerStatus : Type 0 where
  created restarting running paused exited dead : ContainerStatus
  other : String → ContainerStatus

abbrev pub is_online : NodeStatus → Bool
is_online NodeStatus.online = true
is_online _ = false

abbrev pub is_offline : NodeStatus → Bool
is_offline NodeStatus.offline = true
is_offline _ = false

abbrev pub is_idle : GpuStatus → Bool
is_idle GpuStatus.idle = true
is_idle _ = false

-- `ip` is compared and ordered, and the two percentages are carried and reset: all are numbers.
pub record Node : Type 0 where
  pub id : ℕ
  pub hostname : Option String
  pub ip : ℕ
  pub agent_port : ℕ
  pub gpu_count : ℕ
  pub gpu_model : Option String
  pub total_memory_mb : Option ℕ
  pub status : NodeStatus
  pub cpu_percent : ℕ
  pub memory_percent : ℕ
  pub last_heartbeat : Option ℕ
  pub registered_at : ℕ

-- One process on a GPU, as `nvidia-smi` lists it.
pub record ProcessInfo : Type 0 where
  pub pid : ℕ
  pub name : String
  pub memory_used : ℕ

-- `utilization` is the column; the backend reads and writes it as `utilization_gpu`.
pub record GpuDevice : Type 0 where
  pub id : ℕ
  pub node_id : ℕ
  pub gpu_index : ℕ
  pub gpu_uuid : Option String
  pub gpu_model : Option String
  pub memory_total_mb : Option ℕ
  pub memory_used_mb : ℕ
  pub memory_free_mb : ℕ
  pub utilization : ℕ
  pub utilization_memory : ℕ
  pub temperature : ℕ
  pub power_usage : ℕ
  pub power_limit : ℕ
  pub status : GpuStatus
  pub processes : List ProcessInfo
  pub updated_at : ℕ

pub record RunningContainer : Type 0 where
  pub id : ℕ
  pub node_id : ℕ
  pub container_id : ℕ
  pub task_id : Option ℕ
  pub image : Option String
  pub status : ContainerStatus
  pub gpu_indices : List ℕ
  pub started_at : Option ℕ
  pub updated_at : ℕ

pub record GpuMetric : Type 0 where
  pub id : ℕ
  pub node_id : ℕ
  pub gpu_index : ℕ
  pub utilization : ℕ
  pub memory_used : ℕ
  pub memory_total : ℕ
  pub temperature : ℕ
  pub power_usage : ℕ
  pub timestamp : ℕ

instance abbrev pub node_keyed : Keyed Node
node_keyed = record { key = λ n. n.id }

instance abbrev pub gpu_keyed : Keyed GpuDevice
gpu_keyed = record { key = λ g. g.id }
