-- ===== src/Scheduler/Safety.antt =====
-- What an attempt of the scheduler can never do.
use my_frist_reop.Prelude.{
  ℕ, ◌≡◌, ◌≢◌, refl, ap, ◌∙◌, ◌⊎◌, inl, inr, Bool, true, false, some, List, [], get, modify,
  get-modify_self, get-modify_ne, ◌==◌, Bool-cases, arith,
}
use my_frist_reop.Prelude.Int.{pos_part}
use my_frist_reop.Data.{Db}
use my_frist_reop.World.{World}
use my_frist_reop.Data.Work.{Task, is_queued, task_keyed}
use my_frist_reop.Allocator.{Allocation, required_gpu_count}
use my_frist_reop.Allocator.Choice.{IsGrant}
use my_frist_reop.Allocator.Booking.{allocate-cases}
use my_frist_reop.Allocator.Keys.{AreDistinct}
use my_frist_reop.Container.{RunReply, ok}
use my_frist_reop.Scheduler.{Env, get_online_nodes, start, try_launch, schedule_one}
use my_frist_reop.Scheduler.Steps.{Outcome, schedule_one-Outcome}

-- A modified row is that of a queued task, so another row or another status is left alone.
modify_queued :
    (tasks : List Task) (task : Task) (f : Task → Task) (j : ℕ) (t : Task)
    → ((u : Task) → (f u).id ≡ u.id)
    → get task.id tasks ≡ some task
    → is_queued task.status ≡ true
    → get j tasks ≡ some t
    → is_queued t.status ≡ false
    → get j (modify task.id f tasks) ≡ some t
modify_queued tasks task f j t keeps found queued here idle = elim (Bool-cases (task.id == j)) [
  | inl e ↦ absurd (ground arith)
  | inr e ↦ get-modify_ne task.id j f tasks keeps (ground arith) ∙ here
]

module _ {env : Env} {old db : Db} where
  Outcome-untouched :
      {started : Bool} (j : ℕ) (t : Task)
      → Outcome env old db started
      → get j old.tasks ≡ some t
      → is_queued t.status ≡ false
      → get j db.tasks ≡ some t
  unfolding start
  Outcome-untouched j t (Outcome.nothing e) h q = ap (λ (d : Db). get j d.tasks) e ∙ h
  Outcome-untouched j t (Outcome.no_room task found queued a e g) h q = ap (get j) e ∙ h
  Outcome-untouched j t (Outcome.not_launched task f found queued keeps e g) h q =
      ap (get j) e ∙ modify_queued old.tasks task f j t (λ u. (keeps u).0) found queued h q
  Outcome-untouched j t (Outcome.launched task a db' reply c found queued al la e g) h q =
      ap (get j) e
      ∙ modify_queued old.tasks task (start env.now a reply c) j t (λ u. refl) found queued h q

-- With distinct keys of the GPU rows, an attempt changes no row of a task that is not queued: a task that was cancelled, or that is pending,
-- running or finished, is neither started nor failed by the scheduler, whatever waits in the queues.
pub schedule_one-untouched :
    (env : Env) (w : World) (j : ℕ) (t : Task)
    → AreDistinct w.db.gpus
    → get j w.db.tasks ≡ some t
    → is_queued t.status ≡ false
    → get j (schedule_one env w).1.db.tasks ≡ some t
schedule_one-untouched env w j t distinct h q =
    Outcome-untouched j t (schedule_one-Outcome env w distinct) h q

-- What it means that an attempt has started a task.
pub record IsStarted (env : Env) (old db : Db) : Type 0 where
  pub task : Task
  pub allocation : Allocation
  pub reply : RunReply
  pub container : ℕ
  pub after : Db
  pub found : get task.id old.tasks ≡ some task
  pub queued : is_queued task.status ≡ true
  pub launched : try_launch env task allocation ≡ ok (reply, container)
  pub row : get task.id db.tasks ≡ some (start env.now allocation reply container task)
  pub others : (j : ℕ) → task.id ≢ j → get j db.tasks ≡ get j old.tasks
  pub booked :
      ((allocation.gpu_indices ≡ []) × (after ≡ old))
      ⊎ IsGrant old task.config_json
          (pos_part (required_gpu_count task.config_json))
          (get_online_nodes old)
          allocation
          after
  pub gpus : db.gpus ≡ after.gpus

Outcome-IsStarted :
    {env : Env} {old db : Db} {started : Bool}
    → Outcome env old db started
    → started ≡ true
    → IsStarted env old db
unfolding start
Outcome-IsStarted (Outcome.nothing e) s = absurd (cc)
Outcome-IsStarted (Outcome.no_room task found queued a e g) s = absurd (cc)
Outcome-IsStarted (Outcome.not_launched task f found queued keeps e g) s = absurd (cc)
Outcome-IsStarted {env} {old} (Outcome.launched task a db' reply c found queued al la e g) s =
    record {
      task = task;
      allocation = a;
      reply = reply;
      container = c;
      after = db';
      found = found;
      queued = queued;
      launched = la;
      row = ap (get task.id) e ∙ get-modify_self task.id _ old.tasks task (λ u. refl) found;
      others = λ j ne. ap (get j) e ∙ get-modify_ne task.id j _ old.tasks (λ u. refl) ne;
      booked = allocate-cases old task _ a db' al;
      gpus = g;
    }

-- With distinct keys of the GPU rows, an attempt that reports a start has started one queued task: the agent answered with a container,
-- the task's row is running with the node, the GPUs and the container, no other task changed, and the
-- GPUs are none or those that the allocator granted on an online node.
pub schedule_one-IsStarted :
    (env : Env) (w : World)
    → AreDistinct w.db.gpus
    → (schedule_one env w).0 ≡ true
    → IsStarted env w.db (schedule_one env w).1.db
schedule_one-IsStarted env w distinct h = Outcome-IsStarted (schedule_one-Outcome env w distinct) h
