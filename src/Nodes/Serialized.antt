-- ===== src/Nodes/Serialized.antt =====
-- `NodeService.serialize_node` and `serialize_gpu` of backend/app/services/node_service.py: what the lists
-- of nodes and of idle GPUs show of a row. A time stands for its text.
use my_frist_reop.Prelude.{ℕ, String, Bool, Option, List, map, select, sort_by, ltb, ◌==◌}
use my_frist_reop.Data.{Db}
use my_frist_reop.Data.Cluster.{
  Node, NodeStatus, GpuDevice, GpuStatus, ProcessInfo, RunningContainer, ContainerStatus,
}
use my_frist_reop.Nodes.Heartbeat.{PlacedGpu}

pub record GpuView : Type 0 where
  pub id : ℕ
  pub gpu_index : ℕ
  pub gpu_uuid : Option String
  pub gpu_model : Option String
  pub memory_total_mb : Option ℕ
  pub memory_used_mb : ℕ
  pub memory_free_mb : ℕ
  pub utilization_gpu : ℕ
  pub utilization_memory : ℕ
  pub temperature : ℕ
  pub power_usage : ℕ
  pub power_limit : ℕ
  pub status : GpuStatus
  pub processes : List ProcessInfo
  pub updated_at : ℕ

pub record ContainerView : Type 0 where
  pub container_id : ℕ
  pub task_id : Option ℕ
  pub image : Option String
  pub status : ContainerStatus
  pub gpu_indices : List ℕ
  pub updated_at : ℕ

pub record NodeView : Type 0 where
  pub id : ℕ
  pub hostname : Option String
  pub ip : ℕ
  pub agent_port : ℕ
  pub gpu_count : ℕ
  pub gpu_model : Option String
  pub total_memory_mb : Option ℕ
  pub status : NodeStatus
  pub cpu_percent : ℕ
  pub memory_percent : ℕ
  pub last_heartbeat : Option ℕ
  pub gpus : List GpuView
  pub running_containers : List ContainerView

abbrev gpu_view : GpuDevice → GpuView
gpu_view g = record {
  id = g.id;
  gpu_index = g.gpu_index;
  gpu_uuid = g.gpu_uuid;
  gpu_model = g.gpu_model;
  memory_total_mb = g.memory_total_mb;
  memory_used_mb = g.memory_used_mb;
  memory_free_mb = g.memory_free_mb;
  utilization_gpu = g.utilization;
  utilization_memory = g.utilization_memory;
  temperature = g.temperature;
  power_usage = g.power_usage;
  power_limit = g.power_limit;
  status = g.status;
  processes = g.processes;
  updated_at = g.updated_at;
}

abbrev container_view : RunningContainer → ContainerView
container_view c = record {
  container_id = c.container_id;
  task_id = c.task_id;
  image = c.image;
  status = c.status;
  gpu_indices = c.gpu_indices;
  updated_at = c.updated_at;
}

abbrev lower_index : GpuDevice → GpuDevice → Bool
lower_index a b = ltb a.gpu_index b.gpu_index

-- `NodeService.serialize_node`: the relationships are the rows that name the node.
unfoldable pub serialize_node : Db → Node → NodeView
serialize_node db n = record {
  id = n.id;
  hostname = n.hostname;
  ip = n.ip;
  agent_port = n.agent_port;
  gpu_count = n.gpu_count;
  gpu_model = n.gpu_model;
  total_memory_mb = n.total_memory_mb;
  status = n.status;
  cpu_percent = n.cpu_percent;
  memory_percent = n.memory_percent;
  last_heartbeat = n.last_heartbeat;
  gpus = map gpu_view (sort_by lower_index (select (λ (g : GpuDevice). g.node_id == n.id) db.gpus));
  running_containers =
      map container_view (select (λ (c : RunningContainer). c.node_id == n.id) db.containers);
}

pub record IdleGpuView : Type 0 where
  pub node_id : ℕ
  pub node_ip : ℕ
  pub hostname : Option String
  pub gpu_index : ℕ
  pub gpu_uuid : Option String
  pub gpu_model : Option String
  pub memory_total_mb : Option ℕ
  pub memory_used_mb : ℕ
  pub memory_free_mb : ℕ
  pub utilization_gpu : ℕ
  pub utilization_memory : ℕ
  pub temperature : ℕ
  pub power_usage : ℕ
  pub power_limit : ℕ
  pub status : GpuStatus
  pub processes : List ProcessInfo
  pub updated_at : ℕ

-- `NodeService.serialize_gpu`
unfoldable pub serialize_gpu : PlacedGpu → IdleGpuView
serialize_gpu p = record {
  node_id = p.node.id;
  node_ip = p.node.ip;
  hostname = p.node.hostname;
  gpu_index = p.gpu.gpu_index;
  gpu_uuid = p.gpu.gpu_uuid;
  gpu_model = p.gpu.gpu_model;
  memory_total_mb = p.gpu.memory_total_mb;
  memory_used_mb = p.gpu.memory_used_mb;
  memory_free_mb = p.gpu.memory_free_mb;
  utilization_gpu = p.gpu.utilization;
  utilization_memory = p.gpu.utilization_memory;
  temperature = p.gpu.temperature;
  power_usage = p.gpu.power_usage;
  power_limit = p.gpu.power_limit;
  status = p.gpu.status;
  processes = p.gpu.processes;
  updated_at = p.gpu.updated_at;
}
