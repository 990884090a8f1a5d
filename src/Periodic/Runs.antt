-- ===== src/Periodic/Runs.antt =====
-- What holds over any run of the tasks of backend/app/tasks/.
use my_frist_reop.Prelude.{
  ℕ, ◌+◌, ◌-◌, ◌*◌, ◌≡◌, ◌≢◌, refl, ◌∙◌, inl, inr, Bool, false, List, [], ◌∷◌, length, select,
  update_where, modify, All, Bool-cases, ◌==◌, arith,
}
use my_frist_reop.Data.{Db}
use my_frist_reop.Data.Cluster.{Node, GpuDevice, is_online}
use my_frist_reop.Data.Work.{Task, BillingRecord, task_keyed}
use my_frist_reop.Billing.{Rates, is_due, bill_all, bill_task, calculate_task_billing, set_billed}
use my_frist_reop.Billing.Once.{
  AreApart, IsUnpaid, ArePaidOnce, IsRound, bill_task-IsRound, calculate_task_billing-ArePaidOnce,
}
use my_frist_reop.Monitor.{
  MonitorSettings, gpus_of, sample_gpus, sample_nodes, collect_gpu_metrics, silent_ids, is_impacted,
  fail_on_timeout, mark_offline_nodes,
}
use my_frist_reop.Periodic.{Beat, run_beat, run_beats}

-- The two facts that a run keeps.
pub record IsSound (db : Db) : Type 0 where
  pub apart : AreApart db.tasks
  pub paid_once : ArePaidOnce db

-- An update of rows that keeps the key and the mark.
module _ (p : Task → Bool) (f : Task → Task) (same : (x : Task) → (f x).id ≡ x.id) where
  All-apart :
      (k : ℕ) (xs : List Task)
      → All (λ (y : Task). y.id ≢ k) xs
      → All (λ (y : Task). y.id ≢ k) (update_where p f xs)
  All-apart k [] h = tt
  All-apart k (x ∷ xs) h = ground (arith, same x, All-apart k xs h.1)

  update_where-AreApart : (xs : List Task) → AreApart xs → AreApart (update_where p f xs)
  update_where-AreApart [] h = tt
  update_where-AreApart (x ∷ xs) h = elim (Bool-cases (p x)) [
    | inl e ↦ rw (e, same x) (All-apart x.id xs h.0, update_where-AreApart xs h.1)
    | inr e ↦ rw e (All-apart x.id xs h.0, update_where-AreApart xs h.1)
  ]

  update_where-unbilled :
      (rs : List BillingRecord) (xs : List Task)
      → ((x : Task) → (f x).billed ≡ x.billed)
      → All (λ x. x.billed ≡ false → IsUnpaid rs x) xs
      → All (λ x. x.billed ≡ false → IsUnpaid rs x) (update_where p f xs)
  update_where-unbilled rs [] mark h = tt
  update_where-unbilled rs (x ∷ xs) mark h = elim (Bool-cases (p x)) [
    | inl e ↦ rw (e, same x, mark x) (h.0, update_where-unbilled rs xs mark h.1)
    | inr e ↦ rw e (h.0, update_where-unbilled rs xs mark h.1)
  ]

modify-update :
    (k : ℕ) (f : Task → Task) (xs : List Task)
    → modify k f xs ≡ update_where (λ (x : Task). x.id == k) f xs
modify-update k f [] = refl
modify-update k f (x ∷ xs) = rw (modify-update k f xs) refl

round-AreApart :
    (task : Task) (db db' : Db) → IsRound task db db' → AreApart db.tasks → AreApart db'.tasks
round-AreApart task db db' (inl (t, b)) h = rw t h
round-AreApart task db db' (inr (t, r)) h =
    rw (t, modify-update task.id set_billed db.tasks)
      (update_where-AreApart (λ (x : Task). x.id == task.id) set_billed (λ x. refl) db.tasks h)

bill_all-AreApart :
    (rates : Rates) (tasks : List Task) (db : Db) (n : ℕ)
    → AreApart db.tasks
    → AreApart (bill_all rates tasks db n).0.tasks
unfolding bill_all
bill_all-AreApart rates [] db n h = h
bill_all-AreApart rates (task ∷ tasks) db n h =
    let (db', n') = bill_task rates task db n in
    bill_all-AreApart rates tasks db' n'
      (round-AreApart task db db' (bill_task-IsRound rates task db n) h)

sample_gpus-rows :
    (now : ℕ) (gs : List GpuDevice) (db : Db) (n : ℕ)
    → ((sample_gpus now gs db n).0.tasks ≡ db.tasks)
      × ((sample_gpus now gs db n).0.billing_records ≡ db.billing_records)
unfolding sample_gpus
sample_gpus-rows now [] db n = (refl, refl)
sample_gpus-rows now (g ∷ gs) db n = sample_gpus-rows now gs _ (n + 1)

sample_nodes-rows :
    (now : ℕ) (ns : List Node) (db : Db) (n : ℕ)
    → ((sample_nodes now ns db n).0.tasks ≡ db.tasks)
      × ((sample_nodes now ns db n).0.billing_records ≡ db.billing_records)
unfolding sample_nodes
sample_nodes-rows now [] db n = (refl, refl)
sample_nodes-rows now (x ∷ ns) db n =
    let (db', n') = sample_gpus now (gpus_of x.id db.gpus) db n in
    let (t, b) = sample_gpus-rows now (gpus_of x.id db.gpus) db n in
    let (t', b') = sample_nodes-rows now ns db' n' in (t' ∙ t, b' ∙ b)

IsSound-rows :
    (db db' : Db)
    → db'.tasks ≡ db.tasks
    → db'.billing_records ≡ db.billing_records
    → IsSound db
    → IsSound db'
IsSound-rows db db' t b h = record {
  apart = rw t h.apart;
  paid_once = record {
    unbilled = rw (t, b) h.paid_once.unbilled;
    once = λ id. rw b (h.paid_once.once id);
  };
}

module _ (rates : Rates) (settings : MonitorSettings) where
  collect-IsSound :
      (now : ℕ) (db : Db) → IsSound db → IsSound (collect_gpu_metrics settings now db).0
  unfolding collect_gpu_metrics
  collect-IsSound now db h =
      let (t, b) =
        sample_nodes-rows now (select (λ (x : Node). is_online x.status) db.nodes) db 0 in
      IsSound-rows db _ t b h

  offline-IsSound :
      (now : ℕ) (db : Db) → IsSound db → IsSound (mark_offline_nodes settings now db).0
  unfolding mark_offline_nodes
  offline-IsSound now db h =
      let ids = silent_ids (now - settings.node_heartbeat_timeout_seconds * 1000000) db.nodes in
      elim (Bool-cases (length ids == 0)) [
        | inl e ↦ rw (e, mark_offline_nodes) h
        | inr e ↦
            rw (e, mark_offline_nodes)
              (record {
                apart =
                    update_where-AreApart (is_impacted ids) (fail_on_timeout now) (λ x. refl)
                      db.tasks h.apart;
                paid_once = record {
                  unbilled =
                      update_where-unbilled (is_impacted ids) (fail_on_timeout now) (λ x. refl)
                        db.billing_records db.tasks (λ x. refl) h.paid_once.unbilled;
                  once = h.paid_once.once;
                };
              })
      ]

  billing-IsSound : (db : Db) → IsSound db → IsSound (calculate_task_billing rates db).0
  unfolding calculate_task_billing
  billing-IsSound db h = record {
    apart = bill_all-AreApart rates (select is_due db.tasks) db 0 h.apart;
    paid_once = calculate_task_billing-ArePaidOnce rates db h.apart h.paid_once;
  }

  run_beat-IsSound : (b : Beat) (db : Db) → IsSound db → IsSound (run_beat rates settings b db).1
  unfolding run_beat
  run_beat-IsSound (Beat.collect_gpu_metrics now) db h = collect-IsSound now db h
  run_beat-IsSound (Beat.check_node_heartbeat now) db h = offline-IsSound now db h
  run_beat-IsSound (Beat.calculate_billing now) db h = billing-IsSound db h

  -- Any sequence of the periodic tasks, at whatever times, from tables in which the keys of tasks differ, each
  -- task has at most one billing record and one that is not marked as billed has none, ends in such tables:
  -- no task is charged twice.
  pub run_beats-IsSound :
      (bs : List Beat) (db : Db) → IsSound db → IsSound (run_beats rates settings bs db)
  unfolding run_beats
  run_beats-IsSound [] db h = h
  run_beats-IsSound (b ∷ bs) db h =
      run_beats-IsSound bs (run_beat rates settings b db).1 (run_beat-IsSound b db h)
