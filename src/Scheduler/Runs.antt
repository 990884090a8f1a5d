-- ===== src/Scheduler/Runs.antt =====
-- Runs of the service of scheduler/scheduler.py: no GPU is ever held by two tasks.
use my_frist_reop.Prelude.{
  ℕ, ◌≡◌, ◌≢◌, ◌⊎◌, refl, sym, ap, ◌∙◌, subst, inl, inr, true, Option, none, some, List, [], ◌∷◌,
  Memᴰ, update_where, update_where-Memᴰ, get, modify, key-get, ◌==◌, Bool-cases, arith,
}
use my_frist_reop.Data.{Db}
use my_frist_reop.Data.Cluster.{GpuDevice, GpuStatus}
use my_frist_reop.Data.Work.{Task, task_keyed}
use my_frist_reop.World.{World}
use my_frist_reop.Allocator.{release_held, set_status, release_by_task}
use my_frist_reop.Allocator.Keys.{AreDistinct, update_where-AreDistinct, set_status-KeepsPlace}
use my_frist_reop.Allocator.Booking.{release-eq-update, release_by_task_tasks}
use my_frist_reop.Scheduler.{
  Env, clear_gpus, finish_task, handle_task_finished, handle_message, Channel, Event, step, serve,
  set_task,
}
use my_frist_reop.Scheduler.Exclusive.{
  names, holds, IsExclusive, IsExclusive-replace, schedule_one-IsExclusive,
}

-- The end of a task: what it held is released, and it holds nothing any more.
module _ (now : ℕ) (db : Db) (x : IsExclusive db) (task : Task)
    (found : get task.id db.tasks ≡ some task) where
  IsExclusive-cleared :
      (db' : Db)
      → db'.tasks ≡ modify task.id clear_gpus db.tasks
      → (db'.gpus ≡ db.gpus)
        ⊎ (db'.gpus
            ≡ update_where
                (λ g. holds task g.node_id g.gpu_index)
                (set_status GpuStatus.idle)
                db.gpus)
      → IsExclusive db'
  IsExclusive-cleared db' e (inl g) =
      IsExclusive-replace db db' x task.id clear_gpus (λ t. refl) task found e
        (subst AreDistinct (sym g) x.distinct)
        (λ j t d ne h m held. x.booked j t d h (subst (Memᴰ d) g m) held)
        (λ d m held. absurd (ground arith)) (λ j u n i ne h held. absurd (ground arith))
  IsExclusive-cleared db' e (inr g) =
      IsExclusive-replace db db' x task.id clear_gpus (λ t. refl) task found e
        (subst AreDistinct (sym g)
          (update_where-AreDistinct _ _ (set_status-KeepsPlace GpuStatus.idle) db.gpus x.distinct))
        (λ j t d ne h m held. other_booked j t d ne h (subst (Memᴰ d) g m) held)
        (λ d m held. absurd (ground arith)) (λ j u n i ne h held. absurd (ground arith))
    where
      other_booked :
          (j : ℕ) (t : Task) (d : GpuDevice)
          → task.id ≢ j
          → get j db.tasks ≡ some t
          → Memᴰ d (
              update_where
                (λ y. holds task y.node_id y.gpu_index)
                (set_status GpuStatus.idle)
                db.gpus)
          → holds t d.node_id d.gpu_index ≡ true
          → d.status ≡ GpuStatus.allocated
      other_booked j t d ne h m held =
          let (y, k, s) =
            update_where-Memᴰ (λ y. holds task y.node_id y.gpu_index) (set_status GpuStatus.idle) d
              db.gpus m in
          elim (Bool-cases (holds task y.node_id y.gpu_index)) [
            | inl b ↦
                let free = x.apart task.id j task t y.node_id y.gpu_index ne found h b in
                let moved : d ≡ set_status GpuStatus.idle y = s ∙ (rw b refl) in
                let still : holds t y.node_id y.gpu_index ≡ true =
                  ap (λ (z : GpuDevice). holds t z.node_id z.gpu_index) (sym moved) ∙ held in
                absurd (cc)
            | inr b ↦
                let same : d ≡ y = s ∙ (rw b refl) in
                x.booked j t d h (subst (λ z. Memᴰ z db.gpus) (sym same) k) held
          ]

release_by_task_gpus :
    (db : Db) (task : Task)
    → get task.id db.tasks ≡ some task
    → ((release_by_task db task.id).gpus ≡ db.gpus)
      ⊎ ((release_by_task db task.id).gpus
          ≡ update_where
              (λ g. holds task g.node_id g.gpu_index)
              (set_status GpuStatus.idle)
              db.gpus)
unfolding release_by_task
release_by_task_gpus db task found =
    rw (found, release_by_task) (go task.assigned_node_id task.assigned_gpu_indices)
  where
    go :
        (node : Option ℕ) (indices : Option (List ℕ))
        → ((release_held db node indices).gpus ≡ db.gpus)
          ⊎ ((release_held db node indices).gpus
              ≡ update_where
                  (λ g. names node indices g.node_id g.gpu_index)
                  (set_status GpuStatus.idle)
                  db.gpus)
    go none indices = inl refl
    go (some n) none = inl refl
    go (some n) (some is) = elim (Bool-cases (n == 0)) [
      | inl z ↦ rw z (inl refl)
      | inr z ↦ rw z (
          inr (
            ap (λ (d : Db). d.gpus)
              (release-eq-update db
                (record { node_id = n; node_ip = 0; agent_port = 0; gpu_indices = is }))))
    ]

release_by_task-none : (db : Db) (id : ℕ) → get id db.tasks ≡ none → release_by_task db id ≡ db
unfolding release_by_task
release_by_task-none db id e = rw (e, release_by_task) refl

finish_task_found :
    (now : ℕ) (db : Db) (task : Task)
    → IsExclusive db
    → get task.id db.tasks ≡ some task
    → IsExclusive (finish_task now task.id db)
unfolding finish_task set_task
finish_task_found now db task x found =
    rw (ap (get task.id) (release_by_task_tasks db task.id) ∙ found, finish_task)
      (IsExclusive-cleared now db x task found _
        (ap (modify task.id clear_gpus) (release_by_task_tasks db task.id))
        (release_by_task_gpus db task found))

finish_task-IsExclusive :
    (now id : ℕ) (db : Db) → IsExclusive db → IsExclusive (finish_task now id db)
unfolding finish_task
finish_task-IsExclusive now id db x = go (get id db.tasks) refl
  where
    go : (o : Option Task) → get id db.tasks ≡ o → IsExclusive (finish_task now id db)
    go none e =
        rw (ap (get id) (release_by_task_tasks db id) ∙ e, finish_task)
          (subst IsExclusive (sym (release_by_task-none db id e)) x)
    go (some task) e =
        let own = key-get id db.tasks task e in
        subst (λ i. IsExclusive (finish_task now i db)) own
          (finish_task_found now db task x (ap (λ i. get i db.tasks) own ∙ e))

handle_task_finished-IsExclusive :
    (env : Env) (id : ℕ) (w : World)
    → IsExclusive w.db
    → IsExclusive (handle_task_finished env id w).db
unfolding handle_task_finished
handle_task_finished-IsExclusive env id w x = elim (Bool-cases (id == 0)) [
  | inl z ↦ rw (z, handle_task_finished) x
  | inr z ↦
      rw (z, handle_task_finished)
        (schedule_one-IsExclusive env _ (finish_task-IsExclusive env.now id w.db x))
]

step-IsExclusive : (w : World) (e : Event) → IsExclusive w.db → IsExclusive (step w e).db
unfolding step handle_message
step-IsExclusive w (Event.round env) x = schedule_one-IsExclusive env w x
step-IsExclusive w (Event.message env Channel.task_finished m) x =
    handle_task_finished-IsExclusive env _ w x
step-IsExclusive w (Event.message env Channel.new_task m) x = schedule_one-IsExclusive env w x
step-IsExclusive w (Event.message env Channel.other_channel m) x = x

-- If the keys of the GPUs are distinct, every GPU that a task holds is marked as allocated and no two tasks
-- hold the same GPU, then all three still hold after any sequence of rounds and messages, with any agents
-- and any payloads.
pub serve-IsExclusive :
    (w : World) (es : List Event) → IsExclusive w.db → IsExclusive (serve w es).db
unfolding serve
serve-IsExclusive w [] x = x
serve-IsExclusive w (e ∷ es) x = serve-IsExclusive (step w e) es (step-IsExclusive w e x)
