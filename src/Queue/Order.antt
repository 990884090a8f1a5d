-- ===== src/Queue/Order.antt =====
-- What the queues promise: the two clients agree on the level, entries leave by level and then in
-- the order of arrival, and where an entry goes that is put back.
use my_frist_reop.Prelude.{
  ℕ, suc, ◌≡◌, Option, none, some, List, [], ◌∷◌, ◌++◌, length, arith, length-append,
}
use my_frist_reop.Prelude.Int.{ℤ}
use my_frist_reop.Queue.{
  get_queue_name, get_queue_level, dequeue, pop_first, requeue, total_pending, enqueue_task,
  queue_length, payload_priority,
}
use my_frist_reop.Queue.Server.{Payload, Level, Message, Redis, queue_at, set_queue, reply}

-- Both clients choose the same list for every priority.
pub queue_level-eq-queue_name : (priority : ℤ) → get_queue_level priority ≡ get_queue_name priority
unfolding get_queue_level get_queue_name
queue_level-eq-queue_name priority = ground arith

-- The abstract queue: the entries in the order in which they will be taken.
abbrev pub waiting : Redis → List Payload
waiting r = r.high ++ (r.normal ++ r.low)

abbrev pub IsUp : Redis → Type 0
IsUp r = r.faults ≡ []

-- Taking the first entry off an abstract queue.
abbrev pub uncons : List Payload → Option Payload × List Payload
uncons [] = (none, [])
uncons (p ∷ q) = (some p, q)

-- With the server up, `dequeue` implements the abstract queue: it returns the first waiting entry,
-- if there is one, and leaves the others waiting in the same order.
pub dequeue-waiting :
    (r : Redis)
    → IsUp r
    → let (p, r') = dequeue r in
      (p ≡ (uncons (waiting r)).0) × (waiting r' ≡ (uncons (waiting r)).1) × IsUp r'
unfolding dequeue pop_first
dequeue-waiting r up = ground arith

-- The levels that are served before `l`.
abbrev pub ahead_of : Level → Redis → List Payload
ahead_of Level.high r = []
ahead_of Level.normal r = r.high
ahead_of Level.low r = r.high ++ r.normal

-- With the server up, an entry that has just been put back is the next one of its level: if no
-- higher level has an entry, `dequeue` returns it and leaves the queues as they were.
pub dequeue-requeue :
    (p : Payload) (r : Redis)
    → IsUp r
    → ahead_of (get_queue_name (payload_priority p)) r ≡ []
    → dequeue (requeue p r) ≡ (some p, r)
unfolding dequeue pop_first requeue get_queue_name
dequeue-requeue p r up empty = ground arith

-- The entry that the backend writes for a task.
abbrev pub backend_payload : ℕ → ℕ → Payload
backend_payload now task_id = record { task_id = some task_id; priority = none; enqueued_at = now }

-- With the server up, the backend queues a task of any priority at the end of that priority's level
-- and announces it; but when the scheduler puts that entry back, it goes to the front of the normal
-- level, whatever the priority was, since the payload does not carry it.
pub requeue-enqueue_task :
    (now task_id : ℕ) (priority : ℤ) (r r' : Redis)
    → IsUp r
    → IsUp r'
    → let p = backend_payload now task_id in
      let l = get_queue_name priority in
      let q = set_queue l (queue_at l r ++ p ∷ []) r in
      (enqueue_task now task_id priority r
        ≡ (reply tt, record q { published = r.published ++ Message.new_task task_id ∷ [] }))
      × (requeue p r' ≡ record r' { normal = p ∷ r'.normal })
unfolding requeue get_queue_name enqueue_task get_queue_level
requeue-enqueue_task now task_id priority r r' up up' = ground arith

-- With the server up, `total_pending` counts the waiting entries, and putting one back adds one.
pub total_pending-requeue :
    (p : Payload) (r : Redis)
    → IsUp r
    → ((total_pending r).0 ≡ length (waiting r))
      × ((total_pending (requeue p r)).0 ≡ suc (length (waiting r)))
unfolding total_pending queue_length requeue get_queue_name
total_pending-requeue p r up =
    ground (arith, length-append r.high (r.normal ++ r.low), length-append r.normal r.low)
