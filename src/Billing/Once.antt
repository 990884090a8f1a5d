-- ===== src/Billing/Once.antt =====
-- No task is billed twice: the loop of calculate_task_billing in backend/app/services/billing_service.py.
use my_frist_reop.Prelude.{
  ℕ, suc, ◌+◌, ◌*◌, ◌||◌, ◌≤◌, ◌≡◌, ◌≢◌, refl, ap, ◌∙◌, inl, inr, ◌⊎◌, Bool, false, Option, none,
  some, List, [], ◌∷◌, ◌++◌, select, get, modify, All, All-select_keep, Bool-cases, ◌==◌, ltb,
  if◌then◌else◌, arith,
}
use my_frist_reop.Data.{Db}
use my_frist_reop.Data.Work.{Task, User, BillingRecord, task_keyed, user_keyed}
use my_frist_reop.Billing.{
  Rates, is_due, duration_of, gpu_count_of, set_billed, charge, bill_task, bill_all,
  calculate_task_billing,
}

-- The record is for the task's time, and the number of such records.
abbrev pub is_for : ℕ → BillingRecord → Bool
is_for id r = elim r.task_id [ none ↦ false | some t ↦ t == id ]

abbrev pub paid : ℕ → List BillingRecord → ℕ
paid id [] = 0
paid id (r ∷ rs) = let rest = paid id rs in if is_for id r then suc rest else rest

-- The primary key of `tasks`.
abbrev pub AreApart : List Task → Type 0
AreApart [] = Unit
AreApart (x ∷ xs) = All (λ (y : Task). y.id ≢ x.id) xs × AreApart xs

abbrev pub IsUnpaid : List BillingRecord → Task → Type 0
IsUnpaid rs x = paid x.id rs ≡ 0

-- Each task has at most one record, and one that is not marked as billed has none.
pub record ArePaidOnce (db : Db) : Type 0 where
  pub unbilled : All (λ x. x.billed ≡ false → IsUnpaid db.billing_records x) db.tasks
  pub once : (id : ℕ) → paid id db.billing_records ≤ 1

-- What one round of the loop writes: nothing, the mark, or the mark and a record.
abbrev pub IsRound : Task → Db → Db → Type 0
IsRound task db db' =
    ((db'.tasks ≡ db.tasks) × (db'.billing_records ≡ db.billing_records))
    ⊎ ((db'.tasks ≡ modify task.id set_billed db.tasks)
        × ((db'.billing_records ≡ db.billing_records)
            ⊎ ((r : BillingRecord) × (r.task_id ≡ some task.id)
                × (db'.billing_records ≡ db.billing_records ++ r ∷ []))))

charge-IsRound :
    (task : Task) (cost : ℕ) (user : Option User) (db : Db) (n : ℕ)
    → IsRound task db (charge task cost user db n).0
unfolding charge
charge-IsRound task cost none db n = inr (refl, inr (_, refl, refl))
charge-IsRound task cost (some user) db n = elim (Bool-cases (ltb (user.credits * 100) cost)) [
  | inl e ↦ rw (e, charge) (inl (refl, refl))
  | inr e ↦ rw (e, charge) (inr (refl, inr (_, refl, refl)))
]

pub bill_task-IsRound :
    (rates : Rates) (task : Task) (db : Db) (n : ℕ) → IsRound task db (bill_task rates task db n).0
unfolding bill_task
bill_task-IsRound rates task db n =
    elim (Bool-cases (duration_of task == 0 || gpu_count_of task == 0)) [
      | inl e ↦ rw (e, bill_task) (inr (refl, inl refl))
      | inr e ↦ rw (e, bill_task) (charge-IsRound task _ (get task.user_id db.users) db n)
    ]

paid-append :
    (id : ℕ) (rs : List BillingRecord) (r : BillingRecord)
    → paid id (rs ++ r ∷ []) ≡ paid id rs + (if is_for id r then 1 else 0)
paid-append id [] r = ground arith
paid-append id (x ∷ rs) r = ground (arith, paid-append id rs r)

-- A record of one task leaves the count of another as it was, and adds one to its own.
paid-other :
    (id : ℕ) (rs : List BillingRecord) (r : BillingRecord) (t : ℕ)
    → r.task_id ≡ some t
    → id ≢ t
    → paid id (rs ++ r ∷ []) ≡ paid id rs
paid-other id rs r t e ne = ground (arith, paid-append id rs r)

paid_le :
    (id : ℕ) (rs : List BillingRecord) (r : BillingRecord) → paid id (rs ++ r ∷ []) ≤ paid id rs + 1
paid_le id rs r = ground (arith, paid-append id rs r)

mark-unbilled :
    (k : ℕ) (rs rs' : List BillingRecord) (xs : List Task)
    → ((id : ℕ) → id ≢ k → paid id rs' ≡ paid id rs)
    → All (λ x. x.billed ≡ false → IsUnpaid rs x) xs
    → All (λ x. x.billed ≡ false → IsUnpaid rs' x) (modify k set_billed xs)
mark-unbilled k rs rs' [] others h = tt
mark-unbilled k rs rs' (x ∷ xs) others h = elim (Bool-cases (x.id == k)) [
  | inl e ↦ rw e ((λ due. absurd (cc)), mark-unbilled k rs rs' xs others h.1)
  | inr e ↦
      let ne : x.id ≢ k = ground arith in
      rw e ((λ due. others x.id ne ∙ h.0 due), mark-unbilled k rs rs' xs others h.1)
]

module _ (task : Task) (db db' : Db) where
  round-others :
      IsRound task db db'
      → (id : ℕ) → id ≢ task.id
      → paid id db'.billing_records ≡ paid id db.billing_records
  round-others (inl (t, b)) id ne = rw b refl
  round-others (inr (t, inl b)) id ne = rw b refl
  round-others (inr (t, inr (r, e, b))) id ne =
      rw b (paid-other id db.billing_records r task.id e ne)

  round-once :
      IsRound task db db'
      → paid task.id db.billing_records ≡ 0
      → ((id : ℕ) → paid id db.billing_records ≤ 1)
      → (id : ℕ) → paid id db'.billing_records ≤ 1
  round-once (inl (t, b)) unpaid once id = rw b (once id)
  round-once (inr (t, inl b)) unpaid once id = rw b (once id)
  round-once (inr (t, inr (r, e, b))) unpaid once id = elim (Bool-cases (id == task.id)) [
    | inl same ↦
        let here : id ≡ task.id = ground arith in
        rw b (
          omega (
            arith,
            paid_le id db.billing_records r,
            ap (λ i. paid i db.billing_records) here,
            unpaid,
          ))
    | inr apart ↦
        let ne : id ≢ task.id = ground arith in
        rw b (omega (arith, paid-other id db.billing_records r task.id e ne, once id))
  ]

  round-unbilled :
      (step : IsRound task db db')
      → All (λ x. x.billed ≡ false → IsUnpaid db.billing_records x) db.tasks
      → All (λ x. x.billed ≡ false → IsUnpaid db'.billing_records x) db'.tasks
  round-unbilled (inl (t, b)) h = rw (t, b) h
  round-unbilled (inr (t, r)) h = rw t (
      mark-unbilled task.id db.billing_records db'.billing_records db.tasks
        (round-others (inr (t, r))) h)

  round-ArePaidOnce :
      IsRound task db db' → paid task.id db.billing_records ≡ 0 → ArePaidOnce db → ArePaidOnce db'
  round-ArePaidOnce step unpaid h = record {
    unbilled = round-unbilled step h.unbilled;
    once = round-once step unpaid h.once;
  }

bill_all-ArePaidOnce :
    (rates : Rates) (tasks : List Task) (db : Db) (n : ℕ)
    → AreApart tasks
    → All (IsUnpaid db.billing_records) tasks
    → ArePaidOnce db
    → ArePaidOnce (bill_all rates tasks db n).0
unfolding bill_all
bill_all-ArePaidOnce rates [] db n apart unpaid h = h
bill_all-ArePaidOnce rates (task ∷ tasks) db n apart unpaid h =
    let (db', n') = bill_task rates task db n in
    let step = bill_task-IsRound rates task db n in
    bill_all-ArePaidOnce rates tasks db' n' apart.1
      (still tasks apart.0 unpaid.1 (round-others task db db' step))
      (round-ArePaidOnce task db db' step unpaid.0 h)
  where
    still :
        (xs : List Task)
        → All (λ (y : Task). y.id ≢ task.id) xs
        → All (IsUnpaid db.billing_records) xs
        → ((id : ℕ)
            → id ≢ task.id
            → paid id (bill_task rates task db n).0.billing_records ≡ paid id db.billing_records)
        → All (IsUnpaid (bill_task rates task db n).0.billing_records) xs
    still [] a u others = tt
    still (y ∷ ys) a u others = (others y.id a.0 ∙ u.0, still ys a.1 u.1 others)

pub AreApart-select : (p : Task → Bool) (xs : List Task) → AreApart xs → AreApart (select p xs)
AreApart-select p [] a = tt
AreApart-select p (x ∷ xs) a = elim (Bool-cases (p x)) [
  | inl e ↦ rw e (All-select_keep _ p xs a.0, AreApart-select p xs a.1)
  | inr e ↦ rw e (AreApart-select p xs a.1)
]

due-unpaid :
    (rs : List BillingRecord) (xs : List Task)
    → All (λ x. x.billed ≡ false → IsUnpaid rs x) xs
    → All (IsUnpaid rs) (select is_due xs)
unfolding is_due
due-unpaid rs [] h = tt
due-unpaid rs (x ∷ xs) h = elim (Bool-cases (is_due x)) [
  | inl e ↦ let due : x.billed ≡ false = ground arith in rw e (h.0 due, due-unpaid rs xs h.1)
  | inr e ↦ rw e (due-unpaid rs xs h.1)
]

-- A run of the billing of tasks keeps that every task has at most one record.
pub calculate_task_billing-ArePaidOnce :
    (rates : Rates) (db : Db)
    → AreApart db.tasks
    → ArePaidOnce db
    → ArePaidOnce (calculate_task_billing rates db).0
unfolding calculate_task_billing
calculate_task_billing-ArePaidOnce rates db apart h =
    bill_all-ArePaidOnce rates (select is_due db.tasks) db 0 (AreApart-select is_due db.tasks apart)
      (due-unpaid db.billing_records db.tasks h.unbilled) h
