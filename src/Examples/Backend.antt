-- ===== src/Examples/Backend.antt =====
-- The theorems about the services of the backend, applied to the small cluster.
use my_frist_reop.Prelude.{
  ℕ, ◌+◌, ◌*◌, ◌<◌, ◌≤◌, ◌≡◌, ◌≢◌, ◌⊎◌, refl, Option, none, some, List, [], ◌∷◌, ◌++◌, All, get,
  arith,
}
use my_frist_reop.Prelude.Int.{pos}
use my_frist_reop.Data.{Db}
use my_frist_reop.Data.Work.{Task, TaskStatus, TaskType, task_keyed, user_keyed}
use my_frist_reop.World.{World}
use my_frist_reop.Queue.{get_queue_name, enqueue_task}
use my_frist_reop.Queue.Server.{queue_at, empty_redis}
use my_frist_reop.Queue.Order.{waiting, backend_payload}
use my_frist_reop.Errors.{err, app_error}
use my_frist_reop.Tasks.{list_tasks, get_task_detail, get_task_logs}
use my_frist_reop.Tasks.Lifecycle.{
  CallbackStatus, TaskCallbackRequest, set_status, submit_task, cancel_task, delete_task,
  handle_callback, commit_submit,
}
use my_frist_reop.Tasks.Rules.{foreign_task-not_found, submit_task-queued}
use my_frist_reop.Tasks.Moves.{MovedRow, owner_calls-Moves}
use my_frist_reop.Tasks.Callbacks.{IsReported, handle_callback-row, handle_callback-reopens}
use my_frist_reop.Billing.{task_cost, duration_of, gpu_count_of, bill_task, mark_billed}
use my_frist_reop.Billing.Decimal.{div, mul, add, quantize_4, round_28, div_half_even, scale_from}
use my_frist_reop.Billing.Api.{CallUsage, call_cost, record_api_call, format_duration}
use my_frist_reop.Billing.Charges.{
  IsCharged, IsSwallowed, IsProper, seconds_of, bill_task-IsCharged, record_api_call-IsSwallowed,
  format_duration_lem,
}
use my_frist_reop.Periodic.{Beat, run_beats}
use my_frist_reop.Periodic.Runs.{IsSound, run_beats-IsSound}
use my_frist_reop.Monitor.{MonitorSettings}
use my_frist_reop.Nodes.{GpuInfo, HeartbeatPayload, Draws}
use my_frist_reop.Scheduler.{schedule_one, finish_task}
use my_frist_reop.Services.Finishing.{finish_task-bill_task}
use my_frist_reop.Services.Races.{submit_race}
use my_frist_reop.Examples.{cluster, user_of, willing, pending_task, queued_task, done_task, rates}

abbrev idle_world : List Task → World
idle_world tasks = record { db = cluster tasks; redis = empty_redis }

abbrev w_pending : World
w_pending = idle_world (pending_task ∷ [])

foreign_task-not_found_example :
    (submit_task 9 7 (user_of 2 0) w_pending ≡ (err (app_error 404 "task not found"), w_pending))
    × (cancel_task 9 7 (user_of 2 0) w_pending.db
        ≡ (err (app_error 404 "task not found"), none, w_pending.db))
    × (delete_task 7 (user_of 2 0) w_pending.db
        ≡ (err (app_error 404 "task not found"), w_pending.db))
    × (get_task_detail 7 (user_of 2 0) w_pending.db ≡ err (app_error 404 "task not found"))
    × (get_task_logs 7 (user_of 2 0) 20 w_pending.db ≡ err (app_error 404 "task not found"))
    × ((status : Option TaskStatus) (type : Option TaskType) (page page_size : ℕ)
        → All
            (λ (t : Task). t.user_id ≡ 2)
            (list_tasks (user_of 2 0) status type page page_size w_pending.db).0)
foreign_task-not_found_example =
    foreign_task-not_found 9 7 20 (user_of 2 0) w_pending pending_task refl refl (ground arith)

abbrev w_queued : World
w_queued = idle_world (queued_task ∷ [])

submit_task-queued_example :
    let w' = (submit_task 9 7 (user_of 1 0) w_pending).1 in
    (get 7 w'.db.tasks ≡ some (set_status TaskStatus.queued pending_task))
    × ((j : ℕ) → 7 ≢ j → get j w'.db.tasks ≡ get j w_pending.db.tasks)
    × (queue_at (get_queue_name (pos 10)) w'.redis
        ≡ queue_at (get_queue_name (pos 10)) w_pending.redis ++ backend_payload 9 7 ∷ [])
submit_task-queued_example =
    submit_task-queued 9 (user_of 1 0) w_pending pending_task refl refl refl refl

owner_calls-Moves_example :
    MovedRow pending_task (get 7 (submit_task 9 7 (user_of 1 0) w_pending).1.db.tasks)
    × MovedRow pending_task (get 7 (cancel_task 9 7 (user_of 1 0) w_pending.db).2.tasks)
owner_calls-Moves_example = owner_calls-Moves 9 7 7 (user_of 1 0) w_pending pending_task refl

-- A report that a task runs.
abbrev runs : TaskCallbackRequest
runs = record {
  status = CallbackStatus.running;
  container_id = some 33;
  exit_code = none;
  error_message = none;
  logs_chunk = some "started";
}

handle_callback-row_example :
    let w' = (handle_callback 9 7 runs w_queued).1 in
    ((t : Task) × (get 7 w'.db.tasks ≡ some t) × IsReported 9 runs queued_task t)
    × ((j : ℕ) → 7 ≢ j → get j w'.db.tasks ≡ get j w_queued.db.tasks)
handle_callback-row_example = handle_callback-row 9 runs w_queued queued_task refl

abbrev w_done : World
w_done = idle_world (done_task ∷ [])

handle_callback-reopens_example :
    (t : Task) × (get 9 (handle_callback 9 9 runs w_done).1.db.tasks ≡ some t)
    × (t.status ≡ TaskStatus.running)
    × (t.finished_at ≡ some 3600000000)
handle_callback-reopens_example = handle_callback-reopens 9 runs w_done done_task refl refl refl

bill_task-IsCharged_example :
    let cost = task_cost rates (duration_of done_task) (gpu_count_of done_task) in
    let (db', n') = bill_task rates done_task w_done.db 0 in
    ((1000 * 100 < cost) × (db' ≡ w_done.db) × (n' ≡ 0))
    ⊎ (IsCharged done_task (user_of 1 1000) cost w_done.db db' × (n' ≡ 1))
bill_task-IsCharged_example =
    bill_task-IsCharged rates done_task (user_of 1 1000) w_done.db 0 (ground arith) (ground arith)
      refl

finish_task-bill_task_example :
    let db' = finish_task 9 9 w_done.db in
    (t : Task) × (get 9 db'.tasks ≡ some t)
    × (t.started_at ≡ some 0)
    × (t.finished_at ≡ some 3600000000)
    × (bill_task rates t db' 0 ≡ (mark_billed 9 db', 1))
finish_task-bill_task_example = finish_task-bill_task rates 9 0 done_task w_done.db refl

-- Two thousand tokens in and none out, for 0.002 credits.
abbrev short_call : CallUsage
short_call = record {
  user_id = some 1;
  api_key = none;
  model_name = some "model";
  endpoint = "/v1/embeddings";
  tokens_input = 2000;
  tokens_output = 0;
  latency_ms = some 12;
  status_code = some 200;
}

short_cost : call_cost rates 2000 0 ≡ 20
unfolding call_cost div mul add quantize_4 round_28 div_half_even scale_from
short_cost = refl

record_api_call-IsSwallowed_example :
    IsSwallowed 1
      (user_of 1 1000)
      (call_cost rates 2000 0)
      w_done.db
      (record_api_call rates 5 short_call w_done.db)
record_api_call-IsSwallowed_example =
    record_api_call-IsSwallowed rates 5 1 short_call (user_of 1 1000) w_done.db refl (ground arith)
      refl (omega (arith, short_cost)) (omega (arith, short_cost)) (omega (arith, short_cost))

format_duration_lem_example :
    IsProper (format_duration 3907)
    × (seconds_of (format_duration 3907) ≤ 3907)
    × (3907 < seconds_of (format_duration 3907) + 60)
    × ((3600 ≤ 3907) ⊎ (seconds_of (format_duration 3907) ≡ 3907))
format_duration_lem_example = format_duration_lem 3907

abbrev monitor_settings : MonitorSettings
monitor_settings = record { gpu_metrics_retention_days = 7; node_heartbeat_timeout_seconds = 30 }

-- A task that ran on the node whose heartbeats have stopped.
abbrev stranded : Db
stranded =
    cluster (record queued_task { status = TaskStatus.running; assigned_node_id = some 1 } ∷ [])

abbrev info_of : ℕ → ℕ → GpuInfo
info_of index used = record {
  index = index;
  model = "A100";
  uuid = none;
  memory_total = 40000;
  memory_used = used;
  memory_free = 0;
  utilization_gpu = 0;
  utilization_memory = 0;
  temperature = 40;
  power_usage = 60;
  power_limit = 400;
  processes = [];
}

-- The GPU 1 of the node is gone, and there is a new one, in use.
abbrev beat : HeartbeatPayload
beat = record {
  timestamp = some 500;
  hostname = "gpu-host";
  ip = 101;
  agent_port = 9000;
  gpus = info_of 0 0 ∷ info_of 2 100 ∷ [];
  cpu_percent = 5;
  memory_percent = 6;
  memory_total = 64000;
  running_containers = [];
}

abbrev draws : Draws
draws = record { node = 50; gpu = λ i. 60 + i; container = λ c. 70 + c }

submit_race_example :
    let r = (enqueue_task 9 7 (pos 10) w_pending.redis).1 in
    let between = (schedule_one willing (record { db = w_pending.db; redis = r })).1 in
    let after : World = record between { db = commit_submit 9 7 between.db } in
    (get 7 after.db.tasks ≡ some (set_status TaskStatus.queued pending_task))
    × (waiting after.redis ≡ [])
    × ((schedule_one willing after).1.db ≡ after.db)
submit_race_example = submit_race willing willing 9 pending_task w_pending refl refl refl refl

abbrev unbilled : Db
unbilled = cluster (done_task ∷ [])

unbilled-IsSound : IsSound unbilled
unbilled-IsSound = record {
  apart = (tt, tt);
  paid_once = record { unbilled = ((λ due. refl), tt); once = λ id. omega arith };
}

abbrev beats : List Beat
beats = Beat.calculate_billing 5 ∷ Beat.check_node_heartbeat 7 ∷ Beat.calculate_billing 9 ∷ []

run_beats-IsSound_example : IsSound (run_beats rates monitor_settings beats unbilled)
run_beats-IsSound_example = run_beats-IsSound rates monitor_settings beats unbilled unbilled-IsSound
