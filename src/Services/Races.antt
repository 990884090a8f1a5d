-- ===== src/Services/Races.antt =====
-- `TaskService.submit_task` queues before it commits, so the scheduler can act in between.
use my_frist_reop.Prelude.{
  ℕ, ◌≡◌, ◌++◌, sym, subst, refl, true, false, some, List, [], ◌∷◌, get, get-modify_self, arith,
}
use my_frist_reop.Data.{Db}
use my_frist_reop.Data.Work.{Task, TaskStatus, is_pending, is_queued, task_keyed}
use my_frist_reop.World.{World}
use my_frist_reop.Prelude.Int.{ℤ}
use my_frist_reop.Queue.{dequeue, pop_first, enqueue_task, get_queue_name}
use my_frist_reop.Queue.Server.{Redis, Payload, Level, Message, queue_at, set_queue}
use my_frist_reop.Queue.Order.{waiting, IsUp, backend_payload, requeue-enqueue_task}
use my_frist_reop.Scheduler.{Env, schedule_one, schedule_payload, schedule_task}
use my_frist_reop.Tasks.Lifecycle.{commit_submit, set_status}

-- An attempt with nothing to take.
idle_attempt :
    (env : Env) (w : World) → IsUp w.redis → waiting w.redis ≡ [] → (schedule_one env w).1.db ≡ w.db
unfolding schedule_one dequeue pop_first
idle_attempt env w up empty = ground arith

-- The only entry of the queues is the next one, on whatever level it waits.
TakesOnly : Payload → Redis → Type 0
TakesOnly p r = ((dequeue r).0 ≡ some p) × IsUp (dequeue r).1 × (waiting (dequeue r).1 ≡ [])

append-nil : (xs ys : List Payload) → xs ++ ys ≡ [] → (xs ≡ []) × (ys ≡ [])
append-nil [] ys h = (refl, h)
append-nil (x ∷ xs) ys h = absurd (ground arith)

lone_entry_at :
    (l : Level) (p : Payload) (ms : List Message) (r : Redis)
    → IsUp r
    → r.high ≡ []
    → r.normal ≡ []
    → r.low ≡ []
    → TakesOnly p (record (set_queue l (queue_at l r ++ p ∷ []) r) { published = ms })
unfolding TakesOnly dequeue pop_first
lone_entry_at Level.high p ms r up h n w = rw h (ground arith)
lone_entry_at Level.normal p ms r up h n w = rw n (ground arith)
lone_entry_at Level.low p ms r up h n w = rw w (ground arith)

lone_entry :
    (l : Level) (p : Payload) (ms : List Message) (r : Redis)
    → IsUp r
    → waiting r ≡ []
    → TakesOnly p (record (set_queue l (queue_at l r ++ p ∷ []) r) { published = ms })
lone_entry l p ms r up empty =
    let (high, rest) = append-nil r.high (r.normal ++ r.low) empty in
    let (normal, low) = append-nil r.normal r.low rest in lone_entry_at l p ms r up high normal low

dequeue-enqueue_task :
    (now id : ℕ) (priority : ℤ) (r : Redis)
    → IsUp r
    → waiting r ≡ []
    → TakesOnly (backend_payload now id) (enqueue_task now id priority r).1
dequeue-enqueue_task now id priority r up empty =
    subst (λ x. TakesOnly (backend_payload now id) x.1)
      (sym (requeue-enqueue_task now id priority r r up up).0)
      (lone_entry (get_queue_name priority) (backend_payload now id) _ r up empty)

not_queued : (s : TaskStatus) → is_pending s ≡ true → is_queued s ≡ false
not_queued s h = ground arith

-- An entry for a task that is not queued yet is dropped.
drop_task :
    (env : Env) (w : World) (p : Payload) (task : Task)
    → get task.id w.db.tasks ≡ some task
    → is_pending task.status ≡ true
    → schedule_task env p task.id w ≡ (false, w)
unfolding schedule_task
drop_task env w p task found pending =
    rw (found, schedule_task) (rw (not_queued task.status pending) refl)

drop_pending :
    (env : Env) (w : World) (p : Payload) (task : Task)
    → p.task_id ≡ some task.id
    → get task.id w.db.tasks ≡ some task
    → is_pending task.status ≡ true
    → schedule_payload env p w ≡ (false, w)
unfolding schedule_payload
drop_pending env w p task named found pending =
    rw (named, schedule_payload) (ground (arith, drop_task env w p task found pending))

-- The attempt that takes the entry of a task that is not committed as queued.
lost_entry :
    (env : Env) (db : Db) (r : Redis) (p : Payload) (task : Task)
    → TakesOnly p r
    → p.task_id ≡ some task.id
    → get task.id db.tasks ≡ some task
    → is_pending task.status ≡ true
    → schedule_one env (record { db = db; redis = r })
      ≡ (false, record { db = db; redis = (dequeue r).1 })
unfolding TakesOnly schedule_one
lost_entry env db r p task takes named found pending =
    rw takes.0
      (drop_pending env (record { db = db; redis = (dequeue r).1 }) p task named found pending)

-- With the server up and nothing waiting: if the scheduler makes an attempt between the call that queues
-- a pending task and the commit that makes it queued, it drops the entry. After the commit the task's row
-- is queued, no entry is waiting, and a further attempt changes no table.
pub submit_race :
    (env env' : Env) (now : ℕ) (task : Task) (w : World)
    → get task.id w.db.tasks ≡ some task
    → is_pending task.status ≡ true
    → IsUp w.redis
    → waiting w.redis ≡ []
    → let r = (enqueue_task now task.id task.priority w.redis).1 in
      let between = (schedule_one env (record { db = w.db; redis = r })).1 in
      let after : World = record between { db = commit_submit now task.id between.db } in
      (get task.id after.db.tasks ≡ some (set_status TaskStatus.queued task))
      × (waiting after.redis ≡ [])
      × ((schedule_one env' after).1.db ≡ after.db)
unfolding TakesOnly commit_submit
submit_race env env' now task w found pending up empty =
    let p = backend_payload now task.id in
    let takes = dequeue-enqueue_task now task.id task.priority w.redis up empty in
    rw (lost_entry env w.db _ p task takes refl found pending) (
      get-modify_self task.id (set_status TaskStatus.queued) w.db.tasks task (λ t. refl) found,
      takes.2,
      idle_attempt env' _ takes.1 takes.2,
    )
