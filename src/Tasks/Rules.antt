-- ===== src/Tasks/Rules.antt =====
-- Who may act on a task, and what a submission does: backend/app/services/task_service.py.
use my_frist_reop.Prelude.{
  ℕ, ◌≡◌, ◌≢◌, refl, sym, subst, true, Option, none, some, All, All-weaken, All-select, All-take,
  All-drop, All-sort_by, select, ◌-◌, ◌*◌, [], ◌∷◌, ◌++◌, get, get-modify_self, get-modify_ne,
  key-get, arith,
}
use my_frist_reop.Data.{Db}
use my_frist_reop.Data.Work.{Task, TaskStatus, TaskType, User, Role, is_pending, task_keyed}
use my_frist_reop.Queue.{get_queue_name, enqueue_task}
use my_frist_reop.Queue.Server.{Level, Message, set_queue, queue_at}
use my_frist_reop.Queue.Order.{IsUp, backend_payload, requeue-enqueue_task}
use my_frist_reop.World.{World}
use my_frist_reop.Errors.{AppError, ok, err, app_error}
use my_frist_reop.Tasks.{
  list_tasks, is_listed, newer, get_owned_task, get_task_detail, get_task_logs,
}
use my_frist_reop.Tasks.Lifecycle.{
  set_status, commit_submit, finish_submit, submit_task, cancel_task, delete_task,
}

abbrev not_found : AppError
not_found = app_error 404 "task not found"

module _ (task_id : ℕ) (user : User) (db : Db) where
  owned-foreign :
      (task : Task)
      → get task_id db.tasks ≡ some task
      → user.role ≡ Role.user
      → task.user_id ≢ user.id
      → get_owned_task task_id user db ≡ err not_found
  unfolding get_owned_task
  owned-foreign task found plain other = ground arith

  owned-found :
      (task : Task) → get_owned_task task_id user db ≡ ok task → get task_id db.tasks ≡ some task
  unfolding get_owned_task
  owned-found task h = ground arith

  pub owned_self :
      (task : Task) → get_owned_task task_id user db ≡ ok task → get task.id db.tasks ≡ some task
  owned_self task h =
      let found = owned-found task h in
      subst (λ i. get i db.tasks ≡ some task) (sym (key-get task_id db.tasks task found)) found

listed_own :
    (user : User)
    → user.role ≡ Role.user
    → (status : Option TaskStatus) (type : Option TaskType) (page page_size : ℕ) (db : Db)
    → All (λ (t : Task). t.user_id ≡ user.id) (list_tasks user status type page page_size db).0
unfolding list_tasks is_listed
listed_own user plain status type page page_size db =
    let own = λ (t : Task). t.user_id ≡ user.id in
    let matching = select (is_listed user status type) db.tasks in
    let all : All own matching =
      All-weaken _ own matching (λ t h. ground arith)
        (All-select (is_listed user status type) db.tasks) in
    All-take own page_size _
      (All-drop own ((page - 1) * page_size) _ (All-sort_by newer own matching all))

-- A user who is no administrator gets the answer 404 from `submit_task`, `cancel_task`, `delete_task`,
-- `get_task_detail` and `get_task_logs` for another user's task, as if it did not exist; these change neither
-- the database nor the queues and stop no container; and a page of `list_tasks`, with any filters, has only
-- tasks of the user's own.
pub foreign_task-not_found :
    (now task_id tail : ℕ) (user : User) (w : World) (task : Task)
    → get task_id w.db.tasks ≡ some task
    → user.role ≡ Role.user
    → task.user_id ≢ user.id
    → (submit_task now task_id user w ≡ (err (app_error 404 "task not found"), w))
      × (cancel_task now task_id user w.db ≡ (err (app_error 404 "task not found"), none, w.db))
      × (delete_task task_id user w.db ≡ (err (app_error 404 "task not found"), w.db))
      × (get_task_detail task_id user w.db ≡ err (app_error 404 "task not found"))
      × (get_task_logs task_id user tail w.db ≡ err (app_error 404 "task not found"))
      × ((status : Option TaskStatus) (type : Option TaskType) (page page_size : ℕ)
          → All
              (λ (t : Task). t.user_id ≡ user.id)
              (list_tasks user status type page page_size w.db).0)
unfolding submit_task cancel_task delete_task get_task_detail get_task_logs
foreign_task-not_found now task_id tail user w task found plain other =
    let e = owned-foreign task_id user w.db task found plain other in
    (
      rw (e, submit_task),
      rw (e, cancel_task),
      rw (e, delete_task),
      rw (e, get_task_detail),
      rw (e, get_task_logs),
      (λ status type page page_size. listed_own user plain status type page page_size w.db),
    )

-- A submission that fails, for any reason, leaves the database as it was.
pub submit_task-err :
    (now task_id : ℕ) (user : User) (w w' : World) (e : AppError)
    → submit_task now task_id user w ≡ (err e, w')
    → w'.db ≡ w.db
unfolding submit_task finish_submit
submit_task-err now task_id user w w' e h = ground arith

module _ (now : ℕ) (user : User) (w : World) (task : Task)
    (found : get task.id w.db.tasks ≡ some task) (own : task.user_id ≡ user.id)
    (pending : is_pending task.status ≡ true) (up : IsUp w.redis) where
  owned-own : get_owned_task task.id user w.db ≡ ok task
  unfolding get_owned_task
  owned-own = ground arith

  submit_task-eq : submit_task now task.id user w ≡ (
    ok (set_status TaskStatus.queued task),
    record {
      db = commit_submit now task.id w.db;
      redis = (enqueue_task now task.id task.priority w.redis).1;
    },
  )
  unfolding submit_task finish_submit
  submit_task-eq =
      let sent = (requeue-enqueue_task now task.id task.priority w.redis w.redis up up).0 in
      rw (owned-own, submit_task) (rw pending (rw (sent, finish_submit)))

  -- With the queues up, submitting one's pending task makes its row queued, leaves every other task as it
  -- was, and puts one entry for it at the end of the level of its priority.
  pub submit_task-queued :
      let w' = (submit_task now task.id user w).1 in
      let l = get_queue_name task.priority in
      (get task.id w'.db.tasks ≡ some (set_status TaskStatus.queued task))
      × ((j : ℕ) → task.id ≢ j → get j w'.db.tasks ≡ get j w.db.tasks)
      × (queue_at l w'.redis ≡ queue_at l w.redis ++ backend_payload now task.id ∷ [])
  unfolding commit_submit
  submit_task-queued =
      let sent = (requeue-enqueue_task now task.id task.priority w.redis w.redis up up).0 in
      let f = set_status TaskStatus.queued in
      rw submit_task-eq (
        get-modify_self task.id f w.db.tasks task (λ t. refl) found,
        (λ j ne. get-modify_ne task.id j f w.db.tasks (λ t. refl) ne),
        rw sent (queue_at-pushed (get_queue_name task.priority)),
      )
    where
      queue_at-pushed :
          (l : Level)
          → queue_at l
              (record (set_queue l
                (queue_at l w.redis ++ backend_payload now task.id ∷ [])
                w.redis) { published = w.redis.published ++ Message.new_task task.id ∷ [] })
            ≡ queue_at l w.redis ++ backend_payload now task.id ∷ []
      queue_at-pushed Level.high = refl
      queue_at-pushed Level.normal = refl
      queue_at-pushed Level.low = refl
