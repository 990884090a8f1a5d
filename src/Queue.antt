-- ===== src/Queue.antt =====
-- The scheduler's scheduler/queue_manager.py and the backend's backend/app/services/queue_service.py:
-- two clients of the same three Redis lists.
pub mod Server
pub mod Order
use my_frist_reop.Prelude.{
  ℕ, ◌+◌, Bool, true, false, Option, none, some, List, [], ◌∷◌, or_else, if◌then◌else◌,
}
use my_frist_reop.Prelude.Int.{ℤ, pos, negsuc, leb_ℤ}
use Server.{
  Payload, Level, Message, Redis, Reply, M, ◌>>=◌, ◌>>◌, pure, redis_error, reply, lpush, rpush,
  rpop, llen, publish,
}

-- `QueueManager._get_queue_name`
unfoldable pub get_queue_name : ℤ → Level
get_queue_name priority =
    if leb_ℤ (pos 10) priority
    then Level.high
    else if leb_ℤ (pos 0) priority
    then Level.normal
    else Level.low

-- `QueueService.get_queue_level`
unfoldable pub get_queue_level : ℤ → Level
get_queue_level priority =
    if leb_ℤ (pos 10) priority
    then Level.high
    else if leb_ℤ priority (negsuc 0)
    then Level.low
    else Level.normal

-- A method that logs `RedisError` and goes on.
abbrev pub or_log : {A : Type 0} → A → Reply A × Redis → A × Redis
or_log d (redis_error, r) = (d, r)
or_log d (reply a, r) = (a, r)

-- `QueueManager.enqueue`
unfoldable pub enqueue : ℕ → ℕ → ℤ → Redis → Redis
unfolding get_queue_name
enqueue now task_id priority r =
    (or_log tt (
      (do
        lpush (get_queue_name priority)
            (record { task_id = some task_id; priority = some priority; enqueued_at = now })
        publish (Message.new_task task_id))
        r)).1

abbrev levels : List Level
levels = Level.high ∷ Level.normal ∷ Level.low ∷ []

-- The `for` loop of `dequeue`, with its early return.
unfoldable pub pop_first : List Level → M (Option Payload)
pop_first [] = pure none
pop_first (l ∷ ls) = do raw ← rpop l; elim raw [ some p ↦ pure (some p) | none ↦ pop_first ls ]

-- `QueueManager.dequeue`
unfoldable pub dequeue : Redis → Option Payload × Redis
unfolding pop_first
dequeue r = or_log none (pop_first levels r)

-- `int(task_data.get("priority", 0) or 0)`
abbrev pub payload_priority : Payload → ℤ
payload_priority p = or_else p.priority (pos 0)

-- `QueueManager.requeue`
unfoldable pub requeue : Payload → Redis → Redis
unfolding get_queue_name
requeue p r = (or_log tt (rpush (get_queue_name (payload_priority p)) p r)).1

pub record QueueLengths : Type 0 where
  pub high : ℕ
  pub normal : ℕ
  pub low : ℕ

-- `QueueManager.queue_length`
unfoldable pub queue_length : Redis → QueueLengths × Redis
queue_length r =
    or_log (record { high = 0; normal = 0; low = 0 })
      ((do
        h ← llen Level.high
        n ← llen Level.normal
        l ← llen Level.low
        pure (record { high = h; normal = n; low = l }))
        r)

-- `QueueManager.total_pending`
unfoldable pub total_pending : Redis → ℕ × Redis
unfolding queue_length
total_pending r = let (n, r') = queue_length r in (n.high + n.normal + n.low, r')

-- `QueueService.enqueue_task`; a `redis_error` becomes the 503 of its caller.
unfoldable pub enqueue_task : ℕ → ℕ → ℤ → M (Unit {0})
unfolding get_queue_level
enqueue_task now task_id priority = do
  lpush (get_queue_level priority)
      (record { task_id = some task_id; priority = none; enqueued_at = now })
  publish (Message.new_task task_id)

-- `QueueService.publish_task_finished`
unfoldable pub publish_task_finished : ℕ → M (Unit {0})
publish_task_finished task_id = publish (Message.finished task_id)
