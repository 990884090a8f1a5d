-- ===== src/Tasks/Moves.antt =====
-- Between which states the calls of a task's owner move it: `submit_task` and `cancel_task` of
-- backend/app/services/task_service.py.
use my_frist_reop.Prelude.{
  ℕ, ◌≡◌, refl, sym, ap, ◌∙◌, subst, inl, inr, true, Option, none, some, List, get, modify,
  get-modify_self, get-modify_ne, ◌==◌, Bool-cases, arith,
}
use my_frist_reop.Data.{Db}
use my_frist_reop.Data.Work.{Task, TaskStatus, User, is_pending, task_keyed}
use my_frist_reop.Queue.Server.{Redis, Reply, redis_error, reply}
use my_frist_reop.World.{World}
use my_frist_reop.Errors.{Result, ok, err}
use my_frist_reop.Tasks.{get_owned_task}
use my_frist_reop.Tasks.Lifecycle.{
  set_status, finish_submit, submit_task, is_cancellable, cancelled, cancel_task,
}
use my_frist_reop.Tasks.Rules.{owned_self}

-- The moves that the calls of a task's owner make.
pub data Moves : TaskStatus → TaskStatus → Type 0 where
  stay : {s : TaskStatus} → Moves s s
  submit : Moves TaskStatus.pending TaskStatus.queued
  withdraw : Moves TaskStatus.pending TaskStatus.cancelled
  take_back : Moves TaskStatus.queued TaskStatus.cancelled

-- What has become of one row.
abbrev pub MovedRow : Task → Option Task → Type 0
MovedRow t none = ⊥
MovedRow t (some t') = Moves t.status t'.status

MovedRow-same : (t : Task) (o : Option Task) → o ≡ some t → MovedRow t o
MovedRow-same t o e = rw e Moves.stay

module _ (i j : ℕ) (f : Task → Task) (tasks : List Task) (t u : Task)
    (keeps : (x : Task) → (f x).id ≡ x.id) (here : get j tasks ≡ some t) where
  modify-MovedRow :
      get i tasks ≡ some u → Moves u.status (f u).status → MovedRow t (get j (modify i f tasks))
  modify-MovedRow found move = elim (Bool-cases (i == j)) [
    | inl e ↦
        let same : i ≡ j = ground arith in
        let agree = sym found ∙ ap (λ k. get k tasks) same ∙ here in
        let one : u ≡ t = ground (arith, agree) in
        rw (← same) (
          rw (get-modify_self i f tasks u keeps found)
            (subst (λ (x : Task). Moves x.status (f u).status) one move))
    | inr e ↦ MovedRow-same t _ (get-modify_ne i j f tasks keeps (ground arith) ∙ here)
  ]

pending-Moves : (s : TaskStatus) → is_pending s ≡ true → Moves s TaskStatus.queued
pending-Moves TaskStatus.pending h = Moves.submit
pending-Moves _ h = absurd (cc)

cancellable-Moves : (s : TaskStatus) → is_cancellable s ≡ true → Moves s TaskStatus.cancelled
cancellable-Moves TaskStatus.pending h = Moves.withdraw
cancellable-Moves TaskStatus.queued h = Moves.take_back
cancellable-Moves _ h = absurd (cc)

module _ (now task_id j : ℕ) (user : User) (t : Task) where
  cancel_task-MovedRow :
      (db : Db)
      → get j db.tasks ≡ some t
      → MovedRow t (get j (cancel_task now task_id user db).2.tasks)
  unfolding cancel_task
  cancel_task-MovedRow db h = go (get_owned_task task_id user db) refl
    where
      go :
          (r : Result Task)
          → get_owned_task task_id user db ≡ r
          → MovedRow t (get j (cancel_task now task_id user db).2.tasks)
      go (err e) o = rw (o, cancel_task) (MovedRow-same t _ h)
      go (ok u) o =
          rw (o, cancel_task)
            (elim (Bool-cases (is_cancellable u.status)) [
              | inl c ↦ rw c (
                  modify-MovedRow u.id j (cancelled now) db.tasks t u (λ x. refl) h
                    (owned_self task_id user db u o) (cancellable-Moves u.status c))
              | inr c ↦ rw c (MovedRow-same t _ h)
            ])

  submit_task-MovedRow :
      (w : World)
      → get j w.db.tasks ≡ some t
      → MovedRow t (get j (submit_task now task_id user w).1.db.tasks)
  unfolding submit_task
  submit_task-MovedRow w h = go (get_owned_task task_id user w.db) refl
    where
      sent :
          (u : Task) (r : Reply (Unit {0}) × Redis)
          → get u.id w.db.tasks ≡ some u
          → is_pending u.status ≡ true
          → MovedRow t (get j (finish_submit now u w.db r).1.db.tasks)
      sent u (redis_error, r) f p = MovedRow-same t _ h
      sent u (reply _, r) f p =
          modify-MovedRow u.id j (set_status TaskStatus.queued) w.db.tasks t u (λ x. refl) h f
            (pending-Moves u.status p)

      go :
          (r : Result Task)
          → get_owned_task task_id user w.db ≡ r
          → MovedRow t (get j (submit_task now task_id user w).1.db.tasks)
      go (err e) o = rw (o, submit_task) (MovedRow-same t _ h)
      go (ok u) o =
          rw (o, submit_task)
            (elim (Bool-cases (is_pending u.status)) [
              | inl c ↦ rw c (sent u _ (owned_self task_id user w.db u o) c)
              | inr c ↦ rw c (MovedRow-same t _ h)
            ])

-- No call of `submit_task` or `cancel_task`, by any user and about any task, removes a row or moves one in
-- another way than from pending to queued, or from pending or queued to cancelled: a running task is not
-- touched, and a finished one is not opened again.
pub owner_calls-Moves :
    (now task_id j : ℕ) (user : User) (w : World) (t : Task)
    → get j w.db.tasks ≡ some t
    → MovedRow t (get j (submit_task now task_id user w).1.db.tasks)
      × MovedRow t (get j (cancel_task now task_id user w.db).2.tasks)
owner_calls-Moves now task_id j user w t h = (
  submit_task-MovedRow now task_id j user t w h,
  cancel_task-MovedRow now task_id j user t w.db h,
)
