-- ===== src/Examples.antt =====
-- A small cluster on which the theorems are applied: two nodes, three GPUs, two users, two tasks.
mod Scheduling
mod Backend
mod Accounts
mod Serving
mod Deploying
mod Asking
mod Reporting
mod Routing
mod Migrating
use my_frist_reop.Prelude.{ℕ, ◌+◌, String, true, false, Option, none, some, List, [], ◌∷◌}
use my_frist_reop.Prelude.Int.{ℤ, pos}
use my_frist_reop.Data.{Db, empty_db}
use my_frist_reop.Data.Cluster.{Node, NodeStatus, GpuDevice, GpuStatus}
use my_frist_reop.Data.Work.{Task, TaskType, TaskStatus, TaskConfig, Entry, User, Role}
use my_frist_reop.Queue.Server.{Payload, Redis, empty_redis}
use my_frist_reop.World.{World}
use my_frist_reop.Container.{Settings, Agent, RunReply, ok, err}
use my_frist_reop.Data.Work.{LaunchError}
use my_frist_reop.Scheduler.{Env}
use my_frist_reop.Billing.{Rates}

abbrev pub node_of : ℕ → Option ℕ → Node
node_of id beat = record {
  id = id;
  hostname = some "gpu-host";
  ip = 100 + id;
  agent_port = 9000;
  gpu_count = 2;
  gpu_model = some "A100";
  total_memory_mb = some 64000;
  status = NodeStatus.online;
  cpu_percent = 10;
  memory_percent = 20;
  last_heartbeat = beat;
  registered_at = 0;
}

abbrev pub gpu_of : ℕ → ℕ → ℕ → GpuDevice
gpu_of id node_id index = record {
  id = id;
  node_id = node_id;
  gpu_index = index;
  gpu_uuid = none;
  gpu_model = some "A100";
  memory_total_mb = some 40000;
  memory_used_mb = 0;
  memory_free_mb = 40000;
  utilization = 0;
  utilization_memory = 0;
  temperature = 30;
  power_usage = 50;
  power_limit = 400;
  status = GpuStatus.idle;
  processes = [];
  updated_at = 0;
}

abbrev pub config_of : ℕ → TaskConfig
config_of n = record {
  gpu_count = Entry.value (pos n);
  gpu_model = none;
  min_memory_mb = none;
  env_vars = [];
  max_runtime_seconds = none;
  volumes = none;
}

abbrev pub task_of : ℕ → ℕ → TaskStatus → ℕ → Task
task_of id user_id status gpus = record {
  id = id;
  user_id = user_id;
  name = "training";
  task_type = some TaskType.train;
  status = status;
  priority = pos 10;
  assigned_node_id = none;
  assigned_gpu_indices = some [];
  container_image = some "image";
  container_command = some "run";
  container_id = none;
  config_json = some (config_of gpus);
  result_json = none;
  billed = false;
  created_at = 5;
  started_at = none;
  finished_at = none;
}

-- A task that ran for an hour on two GPUs.
abbrev pub done_task : Task
done_task = record (task_of 9 1 TaskStatus.success 2) {
  assigned_node_id = some 1;
  assigned_gpu_indices = some (0 ∷ 1 ∷ []);
  started_at = some 0;
  finished_at = some 3600000000;
}

abbrev pub user_of : ℕ → ℕ → User
user_of id credits = record {
  id = id;
  username = "user";
  password_hash = "";
  role = Role.user;
  gpu_quota = 2;
  api_key = none;
  credits = credits;
  created_at = 0;
}

abbrev pub cluster : List Task → Db
cluster tasks = record empty_db {
  nodes = node_of 1 (some 100000000) ∷ node_of 2 none ∷ [];
  gpus = gpu_of 1 1 0 ∷ gpu_of 2 1 1 ∷ gpu_of 3 2 0 ∷ [];
  tasks = tasks;
  users = user_of 1 1000 ∷ user_of 2 0 ∷ [];
}

abbrev pub entry_for : ℕ → Payload
entry_for id = record { task_id = some id; priority = none; enqueued_at = 0 }

-- The task 7 waits, and the queues have one entry for it.
abbrev pub waiting_world : Task → World
waiting_world task = record {
  db = cluster (task ∷ []);
  redis = record empty_redis { normal = entry_for task.id ∷ [] };
}

abbrev pub settings : Settings
settings = record {
  agent_port = 9000;
  task_volume_root = "/data/tasks";
  workspace_mount_path = "/workspace";
  id_text = λ n. "task";
}

-- An agent that starts every container, and one that refuses.
abbrev pub willing : Env
willing = record {
  now = 50;
  settings = settings;
  agent = λ r. ok (record { container_id = some 33; status = some "running" });
}

abbrev pub refusing : Env
refusing = record {
  now = 50;
  settings = settings;
  agent = λ r. err (LaunchError.agent_error "refused");
}

abbrev pub queued_task : Task
queued_task = task_of 7 1 TaskStatus.queued 1

abbrev pub pending_task : Task
pending_task = task_of 7 1 TaskStatus.pending 1

-- Two credits an hour, and 0.001 or 0.002 credits for a thousand tokens.
abbrev pub rates : Rates
rates = record {
  gpu_hour_rate = record { coeff = 20; scale = 1 };
  api_input_rate = record { coeff = 1; scale = 3 };
  api_output_rate = record { coeff = 2; scale = 3 };
}
