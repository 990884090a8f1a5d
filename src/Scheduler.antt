-- ===== src/Scheduler.antt =====
-- scheduler/scheduler.py: taking a task off the queue and starting it, and what happens when a
-- finished task is announced. The lock makes each of these one step.
pub mod Steps
pub mod Safety
pub mod Blocking
pub mod Exclusive
pub mod Runs
use my_frist_reop.Prelude.{
  ℕ, Bool, true, false, Option, none, some, List, [], ◌∷◌, select, sort_by, get, modify, ltb, ◌==◌,
  or_else, if◌then◌else◌,
}
use my_frist_reop.Data.{Db, add_log}
use my_frist_reop.Data.Cluster.{Node, is_online}
use my_frist_reop.Data.Work.{
  Task, TaskStatus, ResultJson, LaunchError, LogSource, LogMessage, empty_result, is_queued,
  task_keyed,
}
use my_frist_reop.World.{World}
use my_frist_reop.Queue.{dequeue, requeue}
use my_frist_reop.Queue.Server.{Redis, Payload}
use my_frist_reop.Allocator.{Allocation, allocate, release, release_by_task}
use my_frist_reop.Container.{Settings, Agent, RunReply, Result, ok, err, ◌>>=◌, launch}

-- What a call is given: the time, the settings and the agents.
pub record Env : Type 0 where
  pub now : ℕ
  pub settings : Settings
  pub agent : Agent

-- `Scheduler._get_online_nodes`
abbrev node_id_before : Node → Node → Bool
node_id_before a b = ltb a.id b.id

unfoldable pub get_online_nodes : Db → List Node
get_online_nodes db = sort_by node_id_before (select (λ (n : Node). is_online n.status) db.nodes)

-- `container_id = result.get("container_id")`, with the `RuntimeError` if it is missing or empty.
abbrev pub container_id_of : RunReply → Result ℕ
container_id_of r = elim r.container_id [
  | none ↦ err LaunchError.no_container_id
  | some c ↦ if c == 0 then err LaunchError.no_container_id else ok c
]

-- The assignments to the task that was started.
unfoldable pub start : ℕ → Allocation → RunReply → ℕ → Task → Task
start now a reply c task = record task {
  status = TaskStatus.running;
  assigned_node_id = some a.node_id;
  assigned_gpu_indices = some a.gpu_indices;
  container_id = some c;
  started_at = some now;
  result_json =
      some (record empty_result {
        container_id = reply.container_id;
        container_status = reply.status;
      });
}

-- The assignments to a task whose launch raised.
unfoldable pub fail : LaunchError → Task → Task
fail e task = record task {
  status = TaskStatus.failed;
  result_json = some (record empty_result { error = some e });
}

unfoldable pub set_task : ℕ → (Task → Task) → Db → Db
set_task id f db = record db { tasks = modify id f db.tasks }

-- The body of `try` up to the first assignment.
unfoldable pub try_launch : Env → Task → Allocation → Result (RunReply × ℕ)
try_launch env task a = do
  reply ← launch env.settings env.agent task a
  c ← container_id_of reply
  ok (reply, c)

-- The rest of `try`, and `except`: the session is that of `allocate`.
unfoldable pub conclude : ℕ → Task → Allocation → Db → Result (RunReply × ℕ) → Bool × Db
conclude now task a db (ok (reply, c)) = (
  true,
  add_log now task.id LogSource.system (LogMessage.task_scheduled a.node_id a.gpu_indices c)
      (set_task task.id (start now a reply c) db),
)
conclude now task a db (err e) = (
  false,
  add_log now task.id LogSource.system (LogMessage.launch_failed e)
      (set_task task.id (fail e) (release db a)),
)

-- `_schedule_one` from `allocate` on, for a queued task.
unfoldable pub place : Env → Payload → Task → World → Option Allocation × Db → Bool × World
place env p task w (none, db) = (
  false,
  record {
    db = add_log env.now task.id LogSource.system LogMessage.no_resources db;
    redis = requeue p w.redis;
  },
)
place env p task w (some a, db) =
    let (started, db') = conclude env.now task a db (try_launch env task a) in
    (started, record w { db = db' })

unfoldable pub schedule_task : Env → Payload → ℕ → World → Bool × World
schedule_task env p id w = elim (get id w.db.tasks) [
  | none ↦ (false, w)
  | some task ↦
      if is_queued task.status
      then place env p task w (allocate w.db task (get_online_nodes w.db))
      else (false, w)
]

-- `if not task_id`: an absent key or the empty text.
unfoldable pub schedule_payload : Env → Payload → World → Bool × World
schedule_payload env p w = elim p.task_id [
  | none ↦ (false, w)
  | some id ↦ if id == 0 then (false, w) else schedule_task env p id w
]

abbrev scheduled : Env → World → Option Payload × Redis → Bool × World
scheduled env w (none, r) = (false, record w { redis = r })
scheduled env w (some p, r) = schedule_payload env p (record w { redis = r })

-- `Scheduler._schedule_one`
unfoldable pub schedule_one : Env → World → Bool × World
schedule_one env w = scheduled env w (dequeue w.redis)

abbrev pub clear_gpus : Task → Task
clear_gpus task = record task { assigned_gpu_indices = none }

-- The session of `handle_task_finished`.
unfoldable pub finish_task : ℕ → ℕ → Db → Db
finish_task now id db =
    let db' = release_by_task db id in
    elim (get id db'.tasks) [
      | none ↦ db'
      | some task ↦
          add_log now id LogSource.system LogMessage.finished_notification
            (set_task id clear_gpus db')
    ]

-- `Scheduler.handle_task_finished`, with the attempt to schedule another task.
unfoldable pub handle_task_finished : Env → ℕ → World → World
handle_task_finished env id w =
    if id == 0 then w else (schedule_one env (record w { db = finish_task env.now id w.db })).1

-- The field `data` of a message: a dict, a string that is JSON or is not, or anything else. Of a
-- dict only the task id counts; a string that is no JSON is itself an identifier.
pub data MessageData : Type 0 where
  dict json_dict : Option ℕ → MessageData
  json_other not_text : MessageData
  not_json : ℕ → MessageData

-- `Scheduler._parse_pubsub_message`, and the `task_id` of the result.
unfoldable pub parse_pubsub_message : MessageData → Option ℕ
parse_pubsub_message (MessageData.dict id) = id
parse_pubsub_message (MessageData.json_dict id) = id
parse_pubsub_message MessageData.json_other = none
parse_pubsub_message (MessageData.not_json id) = some id
parse_pubsub_message MessageData.not_text = none

pub data Channel : Type 0 where
  new_task task_finished other_channel : Channel

-- The body of the loop in `_pubsub_listener`.
unfoldable pub handle_message : Env → Channel → MessageData → World → World
unfolding parse_pubsub_message
handle_message env Channel.task_finished message w =
    handle_task_finished env (or_else (parse_pubsub_message message) 0) w
handle_message env Channel.new_task message w = (schedule_one env w).1
handle_message env Channel.other_channel message w = w

-- What makes the service act: a round of `run`, or a message.
pub data Event : Type 0 where
  round : Env → Event
  message : Env → Channel → MessageData → Event

unfoldable pub step : World → Event → World
step w (Event.round env) = (schedule_one env w).1
step w (Event.message env channel m) = handle_message env channel m w

-- The service over any interleaving of its two threads.
unfoldable pub serve : World → List Event → World
serve w [] = w
serve w (e ∷ es) = serve (step w e) es
