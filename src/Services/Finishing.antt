-- ===== src/Services/Finishing.antt =====
-- A finished task between scheduler/scheduler.py, which takes its GPUs back, and
-- backend/app/services/billing_service.py, which bills it afterwards.
use my_frist_reop.Prelude.{ℕ, ◌+◌, ◌≡◌, refl, ap, ◌∙◌, some, get, get-modify_self}
use my_frist_reop.Data.{Db}
use my_frist_reop.Data.Work.{Task, task_keyed}
use my_frist_reop.Allocator.Booking.{release_by_task_tasks}
use my_frist_reop.Billing.{Rates, mark_billed, bill_task}
use my_frist_reop.Billing.Charges.{bill_task-free}
use my_frist_reop.Scheduler.{clear_gpus, finish_task, set_task}

finish_task_tasks :
    (now : ℕ) (task : Task) (db : Db)
    → get task.id db.tasks ≡ some task
    → get task.id (finish_task now task.id db).tasks ≡ some (clear_gpus task)
unfolding finish_task set_task
finish_task_tasks now task db found =
    let tasks = release_by_task_tasks db task.id in
    let here = ap (get task.id) tasks ∙ found in
    rw (here, finish_task) (get-modify_self task.id clear_gpus _ task (λ t. refl) here)

-- After the scheduler has handled the end of a task, its row has no GPUs any more, so that billing it
-- only marks it: its user pays nothing and no record is written, whatever the task used.
pub finish_task-bill_task :
    (rates : Rates) (now n : ℕ) (task : Task) (db : Db)
    → get task.id db.tasks ≡ some task
    → let db' = finish_task now task.id db in
      (t : Task) × (get task.id db'.tasks ≡ some t)
      × (t.started_at ≡ task.started_at)
      × (t.finished_at ≡ task.finished_at)
      × (bill_task rates t db' n ≡ (mark_billed task.id db', n + 1))
finish_task-bill_task rates now n task db found = (
  clear_gpus task,
  finish_task_tasks now task db found,
  refl,
  refl,
  bill_task-free rates (clear_gpus task) _ n refl,
)
