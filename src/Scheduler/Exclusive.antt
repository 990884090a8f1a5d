-- ===== src/Scheduler/Exclusive.antt =====
-- No GPU is held by two tasks: one attempt of scheduler/scheduler.py keeps it so.
use my_frist_reop.Prelude.{
  ℕ, ◌≡◌, ◌≢◌, ◌⊎◌, refl, sym, ap, ◌∙◌, subst, inl, inr, Bool, true, false, ◌&&◌, Option, none,
  some, List, [], Memᴰ, map, elem, update_where-Memᴰ, elem-map-Memᴰ, get, modify, get-modify_self,
  get-modify_ne, or_else, ◌==◌, Bool-cases, arith, if◌then◌else◌,
}
use my_frist_reop.Prelude.Int.{pos_part}
use my_frist_reop.Data.{Db}
use my_frist_reop.Data.Cluster.{GpuDevice, GpuStatus}
use my_frist_reop.Data.Work.{Task, task_keyed}
use my_frist_reop.World.{World}
use my_frist_reop.Allocator.{Allocation, required_gpu_count, set_status, mark_allocated, ids_of}
use my_frist_reop.Allocator.Choice.{IsGrant}
use my_frist_reop.Allocator.Keys.{AreDistinct, update_where-AreDistinct, set_status-KeepsPlace}
use my_frist_reop.Allocator.Booking.{allocate-cases, granted_not_free, IsUsable-of}
use my_frist_reop.Container.{RunReply}
use my_frist_reop.Scheduler.{Env, start, get_online_nodes, schedule_one}
use my_frist_reop.Scheduler.Steps.{Outcome, schedule_one-Outcome}

-- A node and the indices of GPUs on it name the GPU with this index on this node.
abbrev pub names : Option ℕ → Option (List ℕ) → ℕ → ℕ → Bool
names none indices node_id index = false
names (some n) indices node_id index = node_id == n && elem index (or_else indices [])

-- The task holds that GPU.
abbrev pub holds : Task → ℕ → ℕ → Bool
holds t = names t.assigned_node_id t.assigned_gpu_indices

-- GPUs have their keys, what a task holds is allocated, and no two tasks hold the same GPU.
pub record IsExclusive (db : Db) : Type 0 where
  pub distinct : AreDistinct db.gpus
  pub booked :
      (j : ℕ) (t : Task) (g : GpuDevice)
      → get j db.tasks ≡ some t
      → Memᴰ g db.gpus
      → holds t g.node_id g.gpu_index ≡ true
      → g.status ≡ GpuStatus.allocated
  pub apart :
      (j k : ℕ) (t u : Task) (node_id index : ℕ)
      → j ≢ k
      → get j db.tasks ≡ some t
      → get k db.tasks ≡ some u
      → holds t node_id index ≡ true
      → holds u node_id index ≡ false

-- The tables of tasks and GPUs are all that counts.
IsExclusive-same :
    (old db : Db) → db.tasks ≡ old.tasks → db.gpus ≡ old.gpus → IsExclusive old → IsExclusive db
IsExclusive-same old db e f x = record {
  distinct = subst AreDistinct (sym f) x.distinct;
  booked = λ j t g h m. x.booked j t g (ap (get j) (sym e) ∙ h) (subst (Memᴰ g) f m);
  apart = λ j k t u n i ne h h'.
      x.apart j k t u n i ne (ap (get j) (sym e) ∙ h) (ap (get k) (sym e) ∙ h');
}

-- A row of the table in which one task was replaced.
module _ (id : ℕ) (f : Task → Task) (keeps : (t : Task) → (f t).id ≡ t.id) (tasks : List Task)
    (task : Task) (found : get id tasks ≡ some task) (j : ℕ) (t : Task)
    (h : get j (modify id f tasks) ≡ some t) where
  replaced : ((id ≡ j) × (t ≡ f task)) ⊎ ((id ≢ j) × (get j tasks ≡ some t))
  replaced = elim (Bool-cases (id == j)) [
    | inl e ↦
        let same : id ≡ j = ground arith in
        let k =
          sym h
          ∙ ap (λ i. get i (modify id f tasks)) (sym same)
          ∙ get-modify_self id f tasks task keeps found in
        inl (same, ground (arith, k))
    | inr e ↦
        let ne : id ≢ j = ground arith in inr (ne, sym (get-modify_ne id j f tasks keeps ne) ∙ h)
  ]

-- One task is replaced, and the GPUs are changed in a way that suits the others.
module _ (old db : Db) (x : IsExclusive old) (id : ℕ) (f : Task → Task)
    (keeps : (t : Task) → (f t).id ≡ t.id) (task : Task) (found : get id old.tasks ≡ some task)
    (tasks : db.tasks ≡ modify id f old.tasks) (distinct : AreDistinct db.gpus)
    (others : (j : ℕ) (t : Task) (g : GpuDevice)
      → id ≢ j
      → get j old.tasks ≡ some t
      → Memᴰ g db.gpus
      → holds t g.node_id g.gpu_index ≡ true
      → g.status ≡ GpuStatus.allocated)
    (own : (g : GpuDevice)
      → Memᴰ g db.gpus
      → holds (f task) g.node_id g.gpu_index ≡ true
      → g.status ≡ GpuStatus.allocated)
    (disjoint : (j : ℕ) (u : Task) (node_id index : ℕ)
      → id ≢ j
      → get j old.tasks ≡ some u
      → holds (f task) node_id index ≡ true
      → holds u node_id index ≡ false) where
  row :
      (j : ℕ) (t : Task)
      → get j db.tasks ≡ some t
      → ((id ≡ j) × (t ≡ f task)) ⊎ ((id ≢ j) × (get j old.tasks ≡ some t))
  row j t h = replaced id f keeps old.tasks task found j t (ap (get j) (sym tasks) ∙ h)

  pub IsExclusive-replace : IsExclusive db
  IsExclusive-replace = record {
    distinct = distinct;
    booked = λ j t g h m held. elim (row j t h) [
      | inl (e, s) ↦ own g m (ap (λ y. holds y g.node_id g.gpu_index) (sym s) ∙ held)
      | inr (ne, k) ↦ others j t g ne k m held
    ];
    apart = λ j k t u n i ne h h' held. elim (row j t h) [
      | inl (e, s) ↦ elim (row k u h') [
        | inl (e', s') ↦ absurd (ne (sym e ∙ e'))
        | inr (ne', q) ↦ disjoint k u n i ne' q (ap (λ y. holds y n i) (sym s) ∙ held)
      ]
      | inr (nj, p) ↦ elim (row k u h') [
        | inl (e', s') ↦ elim (Bool-cases (holds (f task) n i)) [
          | inl b ↦ absurd (let c = disjoint j t n i nj p b in cc)
          | inr b ↦ ap (λ y. holds y n i) s' ∙ b
        ]
        | inr (nk, q) ↦ x.apart j k t u n i ne p q held
      ]
    ];
  }

-- A launch that failed.
IsExclusive-failed :
    (old db : Db) (task : Task) (f : Task → Task)
    → IsExclusive old
    → get task.id old.tasks ≡ some task
    → ((t : Task)
        → ((f t).id ≡ t.id)
          × ((f t).assigned_node_id ≡ t.assigned_node_id)
          × ((f t).assigned_gpu_indices ≡ t.assigned_gpu_indices))
    → db.tasks ≡ modify task.id f old.tasks
    → db.gpus ≡ old.gpus
    → IsExclusive db
IsExclusive-failed old db task f x found keeps e g =
    IsExclusive-replace old db x task.id f (λ t. (keeps t).0) task found e
      (subst AreDistinct (sym g) x.distinct)
      (λ j t d ne h m held. x.booked j t d h (subst (Memᴰ d) g m) held)
      (λ d m held.
        x.booked task.id task d found (subst (Memᴰ d) g m)
          (sym (same_holds d.node_id d.gpu_index) ∙ held))
      (λ j u n i ne h held. x.apart task.id j task u n i ne found h (sym (same_holds n i) ∙ held))
  where
    same_holds : (n i : ℕ) → holds (f task) n i ≡ holds task n i
    same_holds n i =
        ap (λ o. names o (f task).assigned_gpu_indices n i) (keeps task).1
        ∙ ap (λ o. names task.assigned_node_id o n i) (keeps task).2

module _ (env : Env) (old db db' : Db) (task : Task) (a : Allocation) (reply : RunReply) (c : ℕ)
    (x : IsExclusive old) (found : get task.id old.tasks ≡ some task)
    (e : db.tasks ≡ modify task.id (start env.now a reply c) old.tasks)
    (g : db.gpus ≡ db'.gpus) where
  -- What the started task holds.
  started_holds :
      (n i : ℕ)
      → holds (start env.now a reply c task) n i ≡ (n == a.node_id && elem i a.gpu_indices)
  unfolding start
  started_holds n i = refl

  -- A start without GPUs.
  IsExclusive-cpu : a.gpu_indices ≡ [] → db' ≡ old → IsExclusive db
  unfolding start
  IsExclusive-cpu empty same =
      let gpus : db.gpus ≡ old.gpus = g ∙ ap (λ (d : Db). d.gpus) same in
      IsExclusive-replace old db x task.id (start env.now a reply c) (λ t. refl) task found e
        (subst AreDistinct (sym gpus) x.distinct)
        (λ j t d ne h m held. x.booked j t d h (subst (Memᴰ d) gpus m) held)
        (λ d m held. absurd (ground (arith, empty)))
        (λ j u n i ne h held. absurd (ground (arith, empty)))

  module _
      (grant : IsGrant old task.config_json
        (pos_part (required_gpu_count task.config_json))
        (get_online_nodes old)
        a
        db') where
    marked_row :
        (d : GpuDevice)
        → Memᴰ d db'.gpus
        → (y : GpuDevice) × Memᴰ y old.gpus
          × (d ≡ (if elem y.id (ids_of grant.gpus) then set_status GpuStatus.allocated y else y))
    unfolding mark_allocated
    marked_row d m =
        update_where-Memᴰ (λ y. elem y.id (ids_of grant.gpus)) (set_status GpuStatus.allocated) d
          old.gpus (subst (λ (z : Db). Memᴰ d z.gpus) grant.marked m)

    -- A granted GPU was idle, so no task held it.
    granted_free :
        (j : ℕ) (u : Task) (n i : ℕ)
        → get j old.tasks ≡ some u
        → (n == a.node_id && elem i a.gpu_indices) ≡ true
        → holds u n i ≡ false
    granted_free j u n i h held = elim (Bool-cases (holds u n i)) [
      | inr b ↦ b
      | inl b ↦
          let here : n ≡ grant.node.id = ground (arith, grant.allocation) in
          let listed : elem i (map (λ (y : GpuDevice). y.gpu_index) grant.gpus) ≡ true =
            ground (arith, grant.allocation) in
          let (y, m, k) = elem-map-Memᴰ (λ (y : GpuDevice). y.gpu_index) i grant.gpus listed in
          let usable = IsUsable-of x.distinct grant y m in
          let spot : holds u y.node_id y.gpu_index ≡ true = rw (usable.here ∙ sym here) (rw k b) in
          let allocated = x.booked j u y h usable.listed spot in
          absurd (let idle = usable.free in ground arith)
    ]

    IsExclusive-granted : IsExclusive db
    unfolding start mark_allocated
    IsExclusive-granted =
        IsExclusive-replace old db x task.id (start env.now a reply c) (λ t. refl) task found e
          (subst AreDistinct (sym (g ∙ ap (λ (d : Db). d.gpus) grant.marked)) (
            update_where-AreDistinct _ _ (set_status-KeepsPlace GpuStatus.allocated) old.gpus
              x.distinct))
          (λ j t d ne h m held. other_booked j t d h (subst (Memᴰ d) g m) held)
          (λ d m held.
            granted_not_free x.distinct grant d (subst (Memᴰ d) g m) (ground arith) (ground arith))
          (λ j u n i ne h held. granted_free j u n i h held)
      where
        other_booked :
            (j : ℕ) (t : Task) (d : GpuDevice)
            → get j old.tasks ≡ some t
            → Memᴰ d db'.gpus
            → holds t d.node_id d.gpu_index ≡ true
            → d.status ≡ GpuStatus.allocated
        other_booked j t d h m held =
            let (y, k, s) = marked_row d m in
            elim (Bool-cases (elem y.id (ids_of grant.gpus))) [
              | inl b ↦ ground (arith, s)
              | inr b ↦
                  let same : d ≡ y = s ∙ (rw b refl) in
                  x.booked j t d h (subst (λ z. Memᴰ z old.gpus) (sym same) k) held
            ]

-- An attempt of the scheduler.
IsExclusive-Outcome :
    (env : Env) (old db : Db) (started : Bool)
    → IsExclusive old
    → Outcome env old db started
    → IsExclusive db
IsExclusive-Outcome env old db _ x (Outcome.nothing e) = subst IsExclusive (sym e) x
IsExclusive-Outcome env old db _ x (Outcome.no_room task found queued a e g) =
    IsExclusive-same old db e g x
IsExclusive-Outcome env old db _ x (Outcome.not_launched task f found queued keeps e g) =
    IsExclusive-failed old db task f x found (λ t. ((keeps t).0, (keeps t).2, (keeps t).3)) e g
IsExclusive-Outcome env old db _ x (Outcome.launched task a db' reply c found queued al la e g) =
    elim (allocate-cases old task (get_online_nodes old) a db' al) [
      | inl (empty, same) ↦ IsExclusive-cpu env old db db' task a reply c x found e g empty same
      | inr grant ↦ IsExclusive-granted env old db db' task a reply c x found e g grant
    ]

pub schedule_one-IsExclusive :
    (env : Env) (w : World) → IsExclusive w.db → IsExclusive (schedule_one env w).1.db
schedule_one-IsExclusive env w x =
    IsExclusive-Outcome env w.db _ _ x (schedule_one-Outcome env w x.distinct)
