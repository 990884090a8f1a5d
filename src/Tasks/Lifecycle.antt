-- ===== src/Tasks/Lifecycle.antt =====
-- The operations of backend/app/services/task_service.py that move a task between its states.
use text.Mathlib.Text.{◌==◌ as str_eq}
use my_frist_reop.Prelude.{
  ℕ, String, Bool, true, false, not, Option, none, some, select, get, modify, update_where, ◌==◌,
  or_else, if◌then◌else◌,
}
use my_frist_reop.Prelude.Int.{ℤ}
use my_frist_reop.Data.{Db, add_log}
use my_frist_reop.Data.Cluster.{node_keyed}
use my_frist_reop.Data.Work.{
  Task, TaskStatus, Entry, TaskLog, LogSource, LogMessage, User, BillingRecord, empty_result,
  is_pending, is_finished, task_keyed,
}
use my_frist_reop.Queue.{enqueue_task, publish_task_finished}
use my_frist_reop.Queue.Server.{Redis, Reply, redis_error, reply}
use my_frist_reop.World.{World}
use my_frist_reop.Errors.{Result, ok, err, app_error}
use my_frist_reop.Tasks.{get_owned_task}

abbrev pub set_status : TaskStatus → Task → Task
set_status s task = record task { status = s }

-- The row and the log line that `submit_task` commits.
unfoldable pub commit_submit : ℕ → ℕ → Db → Db
commit_submit now id db =
    add_log now id LogSource.system LogMessage.task_submitted
      (record db { tasks = modify id (set_status TaskStatus.queued) db.tasks })

-- A `RedisError` of the queue is the 503 of `QueueService`, raised before the commit.
unfoldable pub finish_submit : ℕ → Task → Db → Reply (Unit {0}) × Redis → Result Task × World
unfolding commit_submit
finish_submit now task db (redis_error, r) =
    (err (app_error 503 "redis queue unavailable"), record { db = db; redis = r })
finish_submit now task db (reply _, r) = (
  ok (set_status TaskStatus.queued task),
  record { db = commit_submit now task.id db; redis = r },
)

-- `TaskService.submit_task`
unfoldable pub submit_task : ℕ → ℕ → User → World → Result Task × World
unfolding get_owned_task finish_submit
submit_task now task_id user w = elim (get_owned_task task_id user w.db) [
  | err e ↦ (err e, w)
  | ok task ↦
      if is_pending task.status
      then finish_submit now task w.db (enqueue_task now task.id task.priority w.redis)
      else (err (app_error 400 "only pending task can be submitted"), w)
]

-- `status in {"pending", "queued"}`
abbrev pub is_cancellable : TaskStatus → Bool
is_cancellable TaskStatus.pending = true
is_cancellable TaskStatus.queued = true
is_cancellable _ = false

-- What `safe_stop_task` of backend/app/services/agent_client.py sends; its errors are swallowed.
pub record StopRequest : Type 0 where
  pub node_ip : ℕ
  pub agent_port : ℕ
  pub container_id : ℕ

-- `if task.assigned_node_id and task.container_id`, and the node if it is found.
unfoldable pub stop_request : Option ℕ → Option ℕ → Db → Option StopRequest
stop_request (some node_id) (some container) db =
    if node_id == 0 then none else if container == 0 then none else elim (get node_id db.nodes) [
      | none ↦ none
      | some node ↦
          some
            (record { node_ip = node.ip; agent_port = node.agent_port; container_id = container })
    ]
stop_request _ _ db = none

abbrev pub cancelled : ℕ → Task → Task
cancelled now task = record task { status = TaskStatus.cancelled; finished_at = some now }

-- `TaskService.cancel_task`: the result, the stop request that was sent, and the tables.
unfoldable pub cancel_task : ℕ → ℕ → User → Db → Result Task × Option StopRequest × Db
unfolding get_owned_task
cancel_task now task_id user db = elim (get_owned_task task_id user db) [
  | err e ↦ (err e, none, db)
  | ok task ↦
      if is_cancellable task.status
      then (
        ok (cancelled now task),
        stop_request task.assigned_node_id task.container_id db,
        add_log now task.id LogSource.system LogMessage.task_cancelled
            (record db { tasks = modify task.id (cancelled now) db.tasks }),
      )
      else (err (app_error 400 "only pending or queued task can be cancelled"), none, db)
]

-- `CallbackStatus` and `TaskCallbackRequest`
pub data CallbackStatus : Type 0 where
  running success failed : CallbackStatus

pub record TaskCallbackRequest : Type 0 where
  pub status : CallbackStatus
  pub container_id : Option ℕ
  pub exit_code : Option ℤ
  pub error_message : Option String
  pub logs_chunk : Option String

-- A JSON value that is written even where it is `None`.
abbrev pub entry_of : {A : Type 0} → Option A → Entry A
entry_of none = Entry.null
entry_of (some a) = Entry.value a

-- `if payload.container_id: task.container_id = payload.container_id`
abbrev pub new_container : Option ℕ → Option ℕ → Option ℕ
new_container none old = old
new_container (some c) old = if c == 0 then old else some c

-- The assignments of `handle_callback` for each reported status.
unfoldable pub report : ℕ → TaskCallbackRequest → CallbackStatus → Task → Task
report now p CallbackStatus.running task = record task {
  status = TaskStatus.running;
  started_at = some (or_else task.started_at now);
  container_id = new_container p.container_id task.container_id;
}
report now p CallbackStatus.success task = record task {
  status = TaskStatus.success;
  finished_at = some now;
  container_id = new_container p.container_id task.container_id;
  result_json = some (record empty_result { exit_code = entry_of p.exit_code });
}
report now p CallbackStatus.failed task = record task {
  status = TaskStatus.failed;
  finished_at = some now;
  container_id = new_container p.container_id task.container_id;
  result_json = some (record empty_result {
    exit_code = entry_of p.exit_code;
    error_message = entry_of p.error_message;
  });
}

-- `if text: self._add_log(...)`
abbrev pub log_text : ℕ → ℕ → LogSource → Option String → Db → Db
log_text now id source none db = db
log_text now id source (some t) db =
    if str_eq t "" then db else add_log now id source (LogMessage.text t) db

unfoldable pub report_logs : ℕ → ℕ → TaskCallbackRequest → CallbackStatus → Db → Db
report_logs now id p CallbackStatus.running db =
    add_log now id LogSource.agent LogMessage.task_is_running db
report_logs now id p CallbackStatus.success db =
    add_log now id LogSource.agent LogMessage.task_succeeded db
report_logs now id p CallbackStatus.failed db =
    log_text now id LogSource.stderr p.error_message
      (add_log now id LogSource.agent LogMessage.task_failed db)

-- What is announced after the commit; an error there reaches the caller as a 503.
unfoldable pub announce : CallbackStatus → Task → World → Result Task × World
announce CallbackStatus.running task w = (ok task, w)
announce _ task w =
    let (answer, r) = publish_task_finished task.id w.redis in
    (
      elim answer [
        | redis_error ↦ err (app_error 503 "redis publish unavailable")
        | reply _ ↦ ok task
      ],
      record w { redis = r },
    )

-- `TaskService.handle_callback`
unfoldable pub handle_callback : ℕ → ℕ → TaskCallbackRequest → World → Result Task × World
unfolding report report_logs announce
handle_callback now task_id p w = elim (get task_id w.db.tasks) [
  | none ↦ (err (app_error 404 "task not found"), w)
  | some task ↦
      let db = record w.db { tasks = modify task.id (report now p p.status) w.db.tasks } in
      let logged = report_logs now task.id p p.status db in
      announce p.status (report now p p.status task)
        (record w { db = log_text now task.id LogSource.stdout p.logs_chunk logged })
]

abbrev other_task : ℕ → Task → Bool
other_task id task = not (task.id == id)

abbrev log_of_other : ℕ → TaskLog → Bool
log_of_other id log = not (log.task_id == id)

abbrev bills : ℕ → BillingRecord → Bool
bills id b = elim b.task_id [ none ↦ false | some i ↦ i == id ]

-- `db.delete(task)`: the relationship `billing_records` has no cascade, so the session sets the key of the
-- task's records to NULL before it deletes the row.
abbrev unlink : BillingRecord → BillingRecord
unlink b = record b { task_id = none }

-- `TaskService.delete_task`. The foreign key of `running_containers`, which no relationship mirrors, is the
-- database's to check, and its errors are not in the model.
unfoldable pub delete_task : ℕ → User → Db → Result (Unit {0}) × Db
unfolding get_owned_task
delete_task task_id user db = elim (get_owned_task task_id user db) [
  | err e ↦ (err e, db)
  | ok task ↦
      if is_finished task.status
      then (
        ok tt,
        record db {
          logs = select (log_of_other task.id) db.logs;
          tasks = select (other_task task.id) db.tasks;
          billing_records = update_where (bills task.id) unlink db.billing_records;
        },
      )
      else (err (app_error 400 "only finished task can be deleted"), db)
]
