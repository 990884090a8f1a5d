-- ===== src/Data/Work.antt =====
-- backend/app/models/task.py, user.py, billing.py and api_call.py, with the mapped columns of
-- scheduler/models.py: tasks and their logs, users, and what is billed.
use my_frist_reop.Prelude.{ℕ, String, Bool, true, false, Option, List, Keyed, none}
use my_frist_reop.Prelude.Int.{ℤ}

-- `TaskStatus` of schemas/task.py, the values of `Task.status`.
pub data TaskStatus : Type 0 where
  pending queued running success failed cancelled : TaskStatus

-- `TaskType` of schemas/task.py.
pub data TaskType : Type 0 where
  train inference custom : TaskType

abbrev pub is_pending : TaskStatus → Bool
is_pending TaskStatus.pending = true
is_pending _ = false

abbrev pub is_queued : TaskStatus → Bool
is_queued TaskStatus.queued = true
is_queued _ = false

abbrev pub is_success : TaskStatus → Bool
is_success TaskStatus.success = true
is_success _ = false

-- `status in {"success", "failed", "cancelled"}`
abbrev pub is_finished : TaskStatus → Bool
is_finished TaskStatus.success = true
is_finished TaskStatus.failed = true
is_finished TaskStatus.cancelled = true
is_finished _ = false

-- A key of a JSON object: absent, present with `null`, or present with a value.
pub data Entry (A : Type 0) : Type 0 where
  missing null : Entry A
  value : A → Entry A

-- `Task.config_json`, with the keys that the code reads or writes.
pub record TaskConfig : Type 0 where
  pub gpu_count : Entry ℤ
  pub gpu_model : Option String
  pub min_memory_mb : Option ℕ
  pub env_vars : List (String × String)
  pub max_runtime_seconds : Option ℕ
  pub volumes : Option (List (String × String))

-- Why a launch failed: the exception that `_schedule_one` caught.
pub data LaunchError : Type 0 where
  no_image no_container_id : LaunchError
  agent_error : String → LaunchError

-- `Task.result_json`, an object with some of these keys.
pub record ResultJson : Type 0 where
  pub container_id : Option ℕ
  pub container_status : Option String
  pub error : Option LaunchError
  pub exit_code : Entry ℤ
  pub error_message : Entry String
  pub reason : Option String
  pub failed_at : Option ℕ

pub record Task : Type 0 where
  pub id : ℕ
  pub user_id : ℕ
  pub name : String
  pub task_type : Option TaskType
  pub status : TaskStatus
  pub priority : ℤ
  pub assigned_node_id : Option ℕ
  pub assigned_gpu_indices : Option (List ℕ)
  pub container_image : Option String
  pub container_command : Option String
  pub container_id : Option ℕ
  pub config_json : Option TaskConfig
  pub result_json : Option ResultJson
  pub billed : Bool
  pub created_at : ℕ
  pub started_at : Option ℕ
  pub finished_at : Option ℕ

-- The values of `TaskLog.source`.
pub data LogSource : Type 0 where
  system agent stderr stdout : LogSource

-- The messages that the code writes to a task's log, with what is put into them.
pub data LogMessage : Type 0 where
  task_created task_submitted task_cancelled task_is_running : LogMessage
  task_succeeded task_failed no_resources finished_notification : LogMessage
  task_scheduled : ℕ → List ℕ → ℕ → LogMessage
  launch_failed : LaunchError → LogMessage
  text : String → LogMessage

pub record TaskLog : Type 0 where
  pub id : ℕ
  pub task_id : ℕ
  pub source : LogSource
  pub message : LogMessage
  pub timestamp : ℕ

-- `User.role`: the code tells `admin` from all else.
pub data Role : Type 0 where
  user admin : Role

abbrev pub is_admin : Role → Bool
is_admin Role.admin = true
is_admin Role.user = false

-- `credits` is `Numeric(12, 2)`, in cents.
pub record User : Type 0 where
  pub id : ℕ
  pub username : String
  pub password_hash : String
  pub role : Role
  pub gpu_quota : ℕ
  pub api_key : Option String
  pub credits : ℕ
  pub created_at : ℕ

pub data ResourceType : Type 0 where
  gpu_time api_call : ResourceType

-- `cost_credits` is `Numeric(10, 4)`, in units of 0.0001.
pub record BillingRecord : Type 0 where
  pub id : ℕ
  pub user_id : ℕ
  pub task_id : Option ℕ
  pub resource_type : ResourceType
  pub gpu_model : Option String
  pub duration_seconds : ℕ
  pub cost_credits : ℕ
  pub created_at : ℕ

pub record ApiCall : Type 0 where
  pub id : ℕ
  pub user_id : Option ℕ
  pub api_key : Option String
  pub model_name : Option String
  pub endpoint : String
  pub tokens_input : ℕ
  pub tokens_output : ℕ
  pub latency_ms : Option ℕ
  pub status_code : Option ℕ
  pub created_at : ℕ

instance abbrev pub task_keyed : Keyed Task
task_keyed = record { key = λ t. t.id }

instance abbrev pub user_keyed : Keyed User
user_keyed = record { key = λ u. u.id }

abbrev pub empty_result : ResultJson
empty_result = record {
  container_id = none;
  container_status = none;
  error = none;
  exit_code = Entry.missing;
  error_message = Entry.missing;
  reason = none;
  failed_at = none;
}
