-- ===== src/Scheduler/Steps.antt =====
-- What one attempt of the scheduler does to the tables, read off its branches.
use my_frist_reop.Prelude.{
  ℕ, ◌≡◌, refl, sym, ap, ◌∙◌, subst, inl, inr, Bool, true, false, Option, none, some, get, modify,
  key-get, ◌==◌, Bool-cases,
}
use my_frist_reop.Data.{Db}
use my_frist_reop.World.{World}
use my_frist_reop.Data.Work.{Task, TaskStatus, is_queued, task_keyed}
use my_frist_reop.Queue.{dequeue}
use my_frist_reop.Queue.Server.{Redis, Payload}
use my_frist_reop.Allocator.{Allocation, allocate}
use my_frist_reop.Allocator.Choice.{allocate-none_same, allocate_tasks}
use my_frist_reop.Allocator.Booking.{release_tasks, release-allocate}
use my_frist_reop.Allocator.Keys.{AreDistinct}
use my_frist_reop.Container.{RunReply, Result, ok, err}
use my_frist_reop.Scheduler.{
  Env, get_online_nodes, start, fail, set_task, try_launch, conclude, place, schedule_task,
  schedule_payload, schedule_one,
}

-- How an attempt can change the database: not at all, by a log line alone, or in the row of one
-- queued task, and then the GPUs are as the allocator left them if it was started, and else as before.
pub data Outcome (env : Env) (old db : Db) : Bool → Type 0 where
  nothing : db ≡ old → Outcome env old db false
  no_room :
      (task : Task)
      → get task.id old.tasks ≡ some task
      → is_queued task.status ≡ true
      → allocate old task (get_online_nodes old) ≡ (none, old)
      → db.tasks ≡ old.tasks
      → db.gpus ≡ old.gpus
      → Outcome env old db false
  not_launched :
      (task : Task) (f : Task → Task)
      → get task.id old.tasks ≡ some task
      → is_queued task.status ≡ true
      → ((t : Task)
          → ((f t).id ≡ t.id)
            × ((f t).status ≡ TaskStatus.failed)
            × ((f t).assigned_node_id ≡ t.assigned_node_id)
            × ((f t).assigned_gpu_indices ≡ t.assigned_gpu_indices))
      → db.tasks ≡ modify task.id f old.tasks
      → db.gpus ≡ old.gpus
      → Outcome env old db false
  launched :
      (task : Task) (a : Allocation) (db' : Db) (reply : RunReply) (c : ℕ)
      → get task.id old.tasks ≡ some task
      → is_queued task.status ≡ true
      → allocate old task (get_online_nodes old) ≡ (some a, db')
      → try_launch env task a ≡ ok (reply, c)
      → db.tasks ≡ modify task.id (start env.now a reply c) old.tasks
      → db.gpus ≡ db'.gpus
      → Outcome env old db true

module _ (env : Env) (w : World) (distinct : AreDistinct w.db.gpus) where
  -- A queued task with its key, for which `allocate` has been called.
  module _ (p : Payload) (task : Task) (found : get task.id w.db.tasks ≡ some task)
      (queued : is_queued task.status ≡ true) where
    same_tasks :
        (o : Option Allocation) (db' : Db)
        → allocate w.db task (get_online_nodes w.db) ≡ (o, db')
        → db'.tasks ≡ w.db.tasks
    same_tasks o db' h = ap (λ x. x.1.tasks) (sym h) ∙ allocate_tasks w.db task _

    conclude-Outcome :
        (a : Allocation) (db' : Db) (r : Result (RunReply × ℕ))
        → allocate w.db task (get_online_nodes w.db) ≡ (some a, db')
        → try_launch env task a ≡ r
        → let (started, db) = conclude env.now task a db' r in Outcome env w.db db started
    unfolding conclude set_task fail
    conclude-Outcome a db' (ok (reply, c)) h e =
        Outcome.launched task a db' reply c found queued h e
          (ap (modify task.id (start env.now a reply c)) (same_tasks (some a) db' h)) refl
    conclude-Outcome a db' (err x) h e =
        Outcome.not_launched task (fail x) found queued (λ t. (refl, refl, refl, refl))
          (ap (modify task.id (fail x)) (release_tasks db' a ∙ same_tasks (some a) db' h))
          (ap (λ (d : Db). d.gpus) (release-allocate w.db task _ a db' distinct h))

    place-Outcome :
        (o : Option Allocation × Db)
        → allocate w.db task (get_online_nodes w.db) ≡ o
        → let (started, w') = place env p task w o in Outcome env w.db w'.db started
    unfolding place
    place-Outcome (none, db') h =
        let same = allocate-none_same w.db task _ db' h in
        Outcome.no_room task found queued (h ∙ ap (λ (d : Db). (none, d)) same)
          (ap (λ (d : Db). d.tasks) same) (ap (λ (d : Db). d.gpus) same)
    place-Outcome (some a, db') h = conclude-Outcome a db' (try_launch env task a) h refl

  schedule_task-Outcome :
      (p : Payload) (id : ℕ)
      → let (started, w') = schedule_task env p id w in Outcome env w.db w'.db started
  unfolding schedule_task
  schedule_task-Outcome p id = go (get id w.db.tasks) refl
    where
      go :
          (o : Option Task)
          → get id w.db.tasks ≡ o
          → let (started, w') = schedule_task env p id w in Outcome env w.db w'.db started
      go none e = rw (e, schedule_task) (Outcome.nothing refl)
      go (some task) e =
          rw (e, schedule_task)
            (elim (Bool-cases (is_queued task.status)) [
              | inl q ↦ rw q (
                  place-Outcome p task
                    (subst (λ i. get i w.db.tasks ≡ some task) (sym (key-get id _ task e)) e) q _
                    refl)
              | inr q ↦ rw q (Outcome.nothing refl)
            ])

  schedule_payload-Outcome :
      (p : Payload) → let (started, w') = schedule_payload env p w in Outcome env w.db w'.db started
  unfolding schedule_payload
  schedule_payload-Outcome p = go p.task_id refl
    where
      go :
          (o : Option ℕ)
          → p.task_id ≡ o
          → let (started, w') = schedule_payload env p w in Outcome env w.db w'.db started
      go none e = rw (e, schedule_payload) (Outcome.nothing refl)
      go (some id) e =
          rw (e, schedule_payload)
            (elim (Bool-cases (id == 0)) [
              | inl z ↦ rw z (Outcome.nothing refl)
              | inr z ↦ rw z (schedule_task-Outcome p id)
            ])

-- Every attempt ends in one of the four ways; the lost entry of a task that is not queued, or of no
-- task, is among `nothing`.
pub schedule_one-Outcome :
    (env : Env) (w : World)
    → AreDistinct w.db.gpus
    → let (started, w') = schedule_one env w in Outcome env w.db w'.db started
unfolding schedule_one
schedule_one-Outcome env w distinct = go (dequeue w.redis) refl
  where
    go :
        (o : Option Payload × Redis)
        → dequeue w.redis ≡ o
        → let (started, w') = schedule_one env w in Outcome env w.db w'.db started
    go (none, r) e = rw (e, schedule_one) (Outcome.nothing refl)
    go (some p, r) e =
        rw (e, schedule_one) (schedule_payload-Outcome env (record w { redis = r }) distinct p)
