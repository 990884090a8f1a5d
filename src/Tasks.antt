-- ===== src/Tasks.antt =====
-- backend/app/services/task_service.py, with the requests of backend/app/schemas/task.py. A call that
-- raises before its commit leaves the tables as they were; what it sent to Redis stays sent.
pub mod Lifecycle
pub mod Callbacks
pub mod Rules
pub mod Moves
use text.Mathlib.Text.{◌==◌ as str_eq}
use my_frist_reop.Prelude.{
  ℕ, suc, ◌+◌, ◌-◌, ◌*◌, ◌≤◌, String, Bool, true, false, not, ◌&&◌, ◌||◌, Option, none, some, List,
  [], ◌∷◌, ◌++◌, reverse, length, take, drop, select, sort_by, get, modify, ltb, ◌==◌, or_else,
  if◌then◌else◌,
}
use my_frist_reop.Prelude.Int.{ℤ, pos}
use my_frist_reop.Data.{Db, add_log}
use my_frist_reop.Data.Cluster.{Node, node_keyed}
use my_frist_reop.Data.Work.{
  Task, TaskType, TaskStatus, TaskConfig, Entry, ResultJson, TaskLog, LogSource, LogMessage, User,
  empty_result, is_admin, is_pending, is_queued, is_finished, task_keyed,
}
use my_frist_reop.Queue.{enqueue_task, publish_task_finished}
use my_frist_reop.Queue.Server.{Redis, Reply, redis_error, reply}
use my_frist_reop.World.{World}
use my_frist_reop.Errors.{AppError, Result, ok, err, app_error}

-- `TaskCreate` and its `TaskConfig`
pub record TaskCreate : Type 0 where
  pub name : String
  pub task_type : TaskType
  pub container_image : String
  pub container_command : String
  pub priority : ℤ
  pub gpu_count : ℕ
  pub gpu_model : Option String
  pub min_memory_mb : Option ℕ
  pub env_vars : List (String × String)
  pub max_runtime_seconds : Option ℕ

-- `payload.config_json.model_dump()`
abbrev pub dump_config : TaskCreate → TaskConfig
dump_config p = record {
  gpu_count = Entry.value (pos p.gpu_count);
  gpu_model = p.gpu_model;
  min_memory_mb = p.min_memory_mb;
  env_vars = p.env_vars;
  max_runtime_seconds = p.max_runtime_seconds;
  volumes = none;
}

-- The row that `create_task` adds; `id` is the UUID that is drawn for it.
abbrev pub new_task : ℕ → ℕ → User → TaskCreate → Task
new_task now id user p = record {
  id = id;
  user_id = user.id;
  name = p.name;
  task_type = some p.task_type;
  status = TaskStatus.pending;
  priority = p.priority;
  assigned_node_id = none;
  assigned_gpu_indices = some [];
  container_image = some p.container_image;
  container_command = some p.container_command;
  container_id = none;
  config_json = some (dump_config p);
  result_json = none;
  billed = false;
  created_at = now;
  started_at = none;
  finished_at = none;
}

-- `TaskService.create_task`
unfoldable pub create_task : ℕ → ℕ → User → TaskCreate → Db → Task × Db
create_task now id user p db =
    let task = new_task now id user p in
    (
      task,
      add_log now id LogSource.system LogMessage.task_created
          (record db { tasks = db.tasks ++ task ∷ [] }),
    )

-- `TaskService._get_owned_task`
unfoldable pub get_owned_task : ℕ → User → Db → Result Task
get_owned_task task_id user db = elim (get task_id db.tasks) [
  | none ↦ err (app_error 404 "task not found")
  | some task ↦
      if not (is_admin user.role) && not (task.user_id == user.id)
      then err (app_error 404 "task not found")
      else ok task
]

-- The equality tests on enumerations, by their position.
abbrev status_rank : TaskStatus → ℕ
status_rank TaskStatus.pending = 0
status_rank TaskStatus.queued = 1
status_rank TaskStatus.running = 2
status_rank TaskStatus.success = 3
status_rank TaskStatus.failed = 4
status_rank TaskStatus.cancelled = 5

abbrev type_rank : Option TaskType → ℕ
type_rank (some TaskType.train) = 0
type_rank (some TaskType.inference) = 1
type_rank (some TaskType.custom) = 2
type_rank none = 3

-- The `filters` of `list_tasks`.
unfoldable pub is_listed : User → Option TaskStatus → Option TaskType → Task → Bool
is_listed user status type task =
    (is_admin user.role || task.user_id == user.id)
    && elim status [ none ↦ true | some s ↦ status_rank task.status == status_rank s ]
    && elim type [ none ↦ true | some t ↦ type_rank task.task_type == type_rank (some t) ]

-- `order_by(created_at.desc())`
abbrev pub newer : Task → Task → Bool
newer a b = ltb b.created_at a.created_at

-- `offset((page - 1) * page_size).limit(page_size)`; the router asks for `page >= 1`.
abbrev pub page_of {ℓ} : {A : Type ℓ} → ℕ → ℕ → List A → List A
page_of page page_size xs = take page_size (drop ((page - 1) * page_size) xs)

-- `TaskService.list_tasks`: the items and the total.
unfoldable pub list_tasks : User → Option TaskStatus → Option TaskType → ℕ → ℕ → Db → List Task × ℕ
unfolding is_listed
list_tasks user status type page page_size db =
    let matching = select (is_listed user status type) db.tasks in
    (page_of page page_size (sort_by newer matching), length matching)

abbrev newer_log : TaskLog → TaskLog → Bool
newer_log a b = ltb b.timestamp a.timestamp

-- The latest `tail` lines of a task's log, oldest first.
unfoldable pub latest_logs : ℕ → ℕ → Db → List TaskLog
latest_logs task_id tail db =
    reverse (take tail (sort_by newer_log (select (λ (l : TaskLog). l.task_id == task_id) db.logs)))

-- `TaskService.get_task_detail`
unfoldable pub get_task_detail : ℕ → User → Db → Result (Task × List TaskLog)
unfolding get_owned_task latest_logs
get_task_detail task_id user db = elim (get_owned_task task_id user db) [
  | err e ↦ err e
  | ok task ↦ ok (task, latest_logs task.id 20 db)
]

-- `TaskService.get_task_logs`
unfoldable pub get_task_logs : ℕ → User → ℕ → Db → Result (List TaskLog)
unfolding get_owned_task latest_logs
get_task_logs task_id user tail db = elim (get_owned_task task_id user db) [
  | err e ↦ err e
  | ok task ↦ ok (latest_logs task.id tail db)
]
