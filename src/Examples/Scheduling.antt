-- ===== src/Examples/Scheduling.antt =====
-- The theorems about the queues, the allocator and the scheduler, applied to the small cluster.
use my_frist_reop.Prelude.{
  List, ℕ, ◌<◌, ◌≡◌, ◌↔◌, refl, false, none, some, [], ◌∷◌, All, get, elem, length, arith,
}
use my_frist_reop.Prelude.Int.{pos}
use my_frist_reop.Data.{Db, add_log}
use my_frist_reop.Data.Work.{Task, task_keyed, TaskStatus, LogSource, LogMessage}
use my_frist_reop.Queue.Server.{Redis, Message, reply, empty_redis}
use my_frist_reop.Queue.{dequeue, pop_first, requeue, get_queue_name, enqueue_task}
use my_frist_reop.Queue.Order.{
  IsUp, waiting, backend_payload, requeue-enqueue_task, dequeue-waiting,
}
use my_frist_reop.Allocator.{
  Allocation, allocate, allocate_gpus, mark_allocated, filtered_gpus, candidates, available_gpus,
  matches_requirements, model_fits, memory_fits, candidate_before, load,
}
use my_frist_reop.Allocator.Choice.{IsGrant, allocate-IsGrant, allocate-none_iff}
use my_frist_reop.Allocator.Booking.{allocate_twice}
use my_frist_reop.Allocator.Keys.{AreDistinct}
use my_frist_reop.Scheduler.{
  get_online_nodes, schedule_one, schedule_payload, schedule_task, place, conclude, try_launch,
}
use my_frist_reop.Scheduler.Safety.{IsStarted, schedule_one-IsStarted, schedule_one-untouched}
use my_frist_reop.Scheduler.Blocking.{schedule_one-blocked}
use my_frist_reop.Scheduler.{Event, Channel, MessageData, serve}
use my_frist_reop.Scheduler.Exclusive.{IsExclusive}
use my_frist_reop.Scheduler.Runs.{serve-IsExclusive}
use my_frist_reop.Container.{launch, launch_request}
use my_frist_reop.World.{World}
use my_frist_reop.Examples.{
  cluster, waiting_world, entry_for, willing, refusing, queued_task, task_of,
}

rows_distinct : AreDistinct (waiting_world queued_task).db.gpus
rows_distinct = (
  ((ground arith, λ same. ground arith), ((ground arith, λ same. ground arith), tt)),
  (((ground arith, λ same. ground arith), tt), (tt, tt)),
)

schedule_one-IsStarted_example :
    IsStarted willing
      (waiting_world queued_task).db
      (schedule_one willing (waiting_world queued_task)).1.db
unfolding schedule_one dequeue pop_first schedule_payload schedule_task place conclude try_launch
    launch launch_request allocate allocate_gpus candidates filtered_gpus available_gpus
    matches_requirements model_fits memory_fits candidate_before load get_online_nodes
schedule_one-IsStarted_example =
    schedule_one-IsStarted willing (waiting_world queued_task) rows_distinct refl

abbrev cancelled_task : Task
cancelled_task = task_of 7 1 TaskStatus.cancelled 1

schedule_one-untouched_example :
    get 7 (schedule_one willing (waiting_world cancelled_task)).1.db.tasks ≡ some cancelled_task
schedule_one-untouched_example =
    schedule_one-untouched willing (waiting_world cancelled_task) 7 cancelled_task rows_distinct
      refl refl

abbrev small_db : Db
small_db = cluster []

abbrev place_of : ℕ → Allocation
place_of index = record { node_id = 1; node_ip = 101; agent_port = 9000; gpu_indices = index ∷ [] }

abbrev after_first : Db
after_first = (allocate small_db queued_task small_db.nodes).1

abbrev after_second : Db
after_second = (allocate after_first queued_task small_db.nodes).1

allocate_twice_example : All (λ i. elem i (0 ∷ []) ≡ false) (1 ∷ [])
unfolding allocate allocate_gpus mark_allocated candidates filtered_gpus available_gpus
    matches_requirements model_fits memory_fits candidate_before load
allocate_twice_example =
    allocate_twice small_db queued_task small_db.nodes (place_of 0) after_first queued_task
      small_db.nodes (place_of 1) after_second rows_distinct refl refl refl

allocate-IsGrant_example :
    IsGrant small_db queued_task.config_json 1 small_db.nodes (place_of 0) after_first
unfolding allocate allocate_gpus mark_allocated candidates filtered_gpus available_gpus
    matches_requirements model_fits memory_fits candidate_before load
allocate-IsGrant_example =
    allocate-IsGrant small_db queued_task small_db.nodes (place_of 0) after_first refl refl

-- A task that asks for more GPUs than any node has.
abbrev large_task : Task
large_task = task_of 8 1 TaskStatus.queued 3

allocate-none_iff_example :
    (allocate small_db large_task small_db.nodes ≡ (none, small_db))
    ↔ All (λ node. length (filtered_gpus small_db large_task.config_json node) < 3) small_db.nodes
allocate-none_iff_example = allocate-none_iff small_db large_task small_db.nodes refl

abbrev two_levels : Redis
two_levels = record empty_redis { high = entry_for 1 ∷ []; normal = entry_for 2 ∷ [] }

dequeue-waiting_example :
    ((dequeue two_levels).0 ≡ some (entry_for 1))
    × (waiting (dequeue two_levels).1 ≡ entry_for 2 ∷ [])
    × IsUp (dequeue two_levels).1
dequeue-waiting_example = dequeue-waiting two_levels refl

abbrev low_only : Redis
low_only = record empty_redis { low = entry_for 3 ∷ [] }

requeue-enqueue_task_example :
    (enqueue_task 5 4 (pos 10) two_levels ≡ (
      reply tt,
      record two_levels {
        high = entry_for 1 ∷ backend_payload 5 4 ∷ [];
        published = Message.new_task 4 ∷ [];
      },
    ))
    × (requeue (backend_payload 5 4) low_only
        ≡ record low_only { normal = backend_payload 5 4 ∷ [] })
unfolding get_queue_name
requeue-enqueue_task_example = requeue-enqueue_task 5 4 (pos 10) two_levels low_only refl refl

-- The large task is the first of two.
abbrev blocked_world : World
blocked_world = record (waiting_world large_task) {
  redis = record empty_redis { normal = entry_for 8 ∷ entry_for 7 ∷ [] };
}

schedule_one-blocked_example : schedule_one willing blocked_world ≡ (
  false,
  record {
    db = add_log 50 8 LogSource.system LogMessage.no_resources blocked_world.db;
    redis = blocked_world.redis;
  },
)
unfolding allocate allocate_gpus candidates filtered_gpus available_gpus matches_requirements
    model_fits memory_fits candidate_before load get_online_nodes
schedule_one-blocked_example =
    schedule_one-blocked willing blocked_world large_task (entry_for 8) (entry_for 7 ∷ []) refl refl
      refl refl refl (ground arith) refl refl refl

only_task : (j : ℕ) (t : Task) → get j (queued_task ∷ []) ≡ some t → t.assigned_node_id ≡ none
only_task j t h = ground arith

none_held : IsExclusive (waiting_world queued_task).db
none_held = record {
  distinct = rows_distinct;
  booked = λ j t g h m held. absurd (ground (arith, only_task j t h));
  apart = λ j k t u n i ne h h' held. absurd (ground (arith, only_task j t h));
}

-- A round that starts the task, the news that it has ended, and another round.
abbrev events : List Event
events =
    Event.round willing
    ∷ Event.message willing Channel.task_finished (MessageData.json_dict (some 7))
    ∷ Event.round refusing
    ∷ []

serve-IsExclusive_example : IsExclusive (serve (waiting_world queued_task) events).db
serve-IsExclusive_example = serve-IsExclusive (waiting_world queued_task) events none_held
