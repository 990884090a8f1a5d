-- ===== src/Billing/Charges.antt =====
-- What billing takes from a user, and from whom it takes nothing.
use my_frist_reop.Prelude.{
  ℕ, ◌+◌, ◌*◌, ◌≤◌, ◌<◌, ◌≡◌, ◌≢◌, ◌⊎◌, refl, sym, ap, subst, ◌∙◌, inl, inr, false, ◌||◌, some, [],
  ◌∷◌, ◌++◌, get, modify, get-modify_self, key-get, ltb, ◌==◌, Bool-cases, arith,
}
use my_frist_reop.Data.{Db}
use my_frist_reop.Data.Work.{Task, User, BillingRecord, user_keyed, task_keyed}
use my_frist_reop.Billing.{
  Rates, duration_of, gpu_count_of, task_cost, set_billed, set_credits, gpu_record, mark_billed,
  credits_after, charge, bill_task,
}
use my_frist_reop.Billing.Api.{
  CallUsage, call_cost, add_api_call, call_record, charge_call, bill_call, record_api_call,
  DurationText, format_duration,
}
use my_frist_reop.Billing.Decimal.{quantize_2}

-- The debit in cents and the cost in units of 0.0001 differ by at most half a cent, either way.
credits_after_bounds :
    (credits cost : ℕ)
    → cost ≤ credits * 100
    → (credits_after credits cost * 100 + cost ≤ credits * 100 + 50)
      × (credits * 100 ≤ credits_after credits cost * 100 + cost + 49)
unfolding credits_after quantize_2
credits_after_bounds credits cost h = (omega arith, omega arith)

credits_after_small :
    (credits cost : ℕ) → cost ≤ 50 → cost ≤ credits * 100 → credits_after credits cost ≡ credits
unfolding credits_after quantize_2
credits_after_small credits cost h k = omega arith

credits_after_le : (credits cost : ℕ) → credits_after credits cost ≤ credits
unfolding credits_after quantize_2
credits_after_le credits cost = omega arith

-- What a charge of `cost` to this user has done to the tables.
pub record IsCharged (task : Task) (user : User) (cost : ℕ) (db db' : Db) : Type 0 where
  pub credits : ℕ
  pub account : get user.id db'.users ≡ some (set_credits credits user)
  pub records :
      (r : BillingRecord) × (db'.billing_records ≡ db.billing_records ++ r ∷ [])
      × (r.cost_credits ≡ cost)
      × (r.task_id ≡ some task.id)
      × (r.user_id ≡ task.user_id)
  pub billed : db'.tasks ≡ modify task.id set_billed db.tasks
  pub at_least : credits * 100 + cost ≤ user.credits * 100 + 50
  pub at_most : user.credits * 100 ≤ credits * 100 + cost + 49

-- One round of the loop on a task that used GPUs for some time: if the user's credits cover the cost,
-- there is one more record, with the full cost, the task is billed, and the credits go down by the cost
-- to within half a cent; if not, nothing changes and the task is not counted.
pub bill_task-IsCharged :
    (rates : Rates) (task : Task) (user : User) (db : Db) (n : ℕ)
    → duration_of task ≢ 0
    → gpu_count_of task ≢ 0
    → get task.user_id db.users ≡ some user
    → let cost = task_cost rates (duration_of task) (gpu_count_of task) in
      let (db', n') = bill_task rates task db n in
      (user.credits * 100 < cost × (db' ≡ db) × (n' ≡ n))
      ⊎ (IsCharged task user cost db db' × (n' ≡ n + 1))
unfolding bill_task charge
bill_task-IsCharged rates task user db n d g found =
    let gate : (duration_of task == 0 || gpu_count_of task == 0) ≡ false = ground arith in
    let cost = task_cost rates (duration_of task) (gpu_count_of task) in
    let own = key-get task.user_id db.users user found in
    rw (gate, bill_task)
      (rw found (elim (Bool-cases (ltb (user.credits * 100) cost)) [
        | inl short ↦ rw short (inl (ground arith, refl, refl))
        | inr covered ↦ rw covered (
            inr (
              record {
                credits = credits_after user.credits cost;
                account =
                    get-modify_self user.id (set_credits (credits_after user.credits cost)) db.users
                      user (λ u. refl) (ap (λ i. get i db.users) own ∙ found);
                records = (gpu_record task cost db, refl, refl, refl, refl);
                billed = refl;
                at_least = (credits_after_bounds user.credits cost (ground arith)).0;
                at_most = (credits_after_bounds user.credits cost (ground arith)).1;
              },
              refl,
            ))
      ]))

-- A task whose GPU list is empty or was cleared is marked as billed, and its user pays nothing: no record
-- is written and no credits move, whatever its duration and the rates are.
pub bill_task-free :
    (rates : Rates) (task : Task) (db : Db) (n : ℕ)
    → gpu_count_of task ≡ 0
    → bill_task rates task db n ≡ (mark_billed task.id db, n + 1)
unfolding bill_task
bill_task-free rates task db n h = ground arith

-- One more record, at this cost, and the same account.
abbrev pub IsSwallowed : ℕ → User → ℕ → Db → Db → Type 0
IsSwallowed user_id user cost db db' =
    (get user_id db'.users ≡ some user)
    × ((r : BillingRecord) × (db'.billing_records ≡ db.billing_records ++ r ∷ [])
        × (r.cost_credits ≡ cost))

charge_call-IsSwallowed :
    (now cost : ℕ) (u : CallUsage) (user : User) (db : Db)
    → get user.id db.users ≡ some user
    → cost ≤ 50
    → cost ≤ user.credits * 100
    → IsSwallowed user.id user cost db (charge_call now u cost (some user) db)
unfolding charge_call
charge_call-IsSwallowed now cost u user db found small covered =
    let enough : ltb (user.credits * 100) cost ≡ false = ground arith in
    let same = credits_after_small user.credits cost small covered in
    rw (enough, charge_call)
      (
        get-modify_self user.id (set_credits (credits_after user.credits cost)) db.users user
              (λ x. refl) found
            ∙ ap (λ c. some (set_credits c user)) same,
        (call_record now user.id u cost db, refl, refl),
      )

bill_call-IsSwallowed :
    (now cost user_id : ℕ) (u : CallUsage) (user : User) (db : Db)
    → user_id ≢ 0
    → get user_id db.users ≡ some user
    → 0 < cost
    → cost ≤ 50
    → cost ≤ user.credits * 100
    → IsSwallowed user_id user cost db (bill_call now u cost (some user_id) db)
unfolding bill_call
bill_call-IsSwallowed now cost user_id u user db known found pos small covered =
    let gate : (user_id == 0 || cost == 0) ≡ false = ground arith in
    let own = key-get user_id db.users user found in
    rw (gate, bill_call)
      (rw found (
        subst (λ i. IsSwallowed i user cost db (charge_call now u cost (some user) db)) own
          (charge_call-IsSwallowed now cost u user db (ap (λ i. get i db.users) own ∙ found) small
            covered)))

-- A call that costs between 0.0001 and 0.005 credits, and that the credits cover, is recorded at its cost
-- and leaves the credits as they were: the rounding to cents swallows it.
pub record_api_call-IsSwallowed :
    (rates : Rates) (now user_id : ℕ) (u : CallUsage) (user : User) (db : Db)
    → u.user_id ≡ some user_id
    → user_id ≢ 0
    → get user_id db.users ≡ some user
    → 0 < call_cost rates u.tokens_input u.tokens_output
    → call_cost rates u.tokens_input u.tokens_output ≤ 50
    → call_cost rates u.tokens_input u.tokens_output ≤ user.credits * 100
    → IsSwallowed user_id user
        (call_cost rates u.tokens_input u.tokens_output)
        db
        (record_api_call rates now u db)
unfolding record_api_call
record_api_call-IsSwallowed rates now user_id u user db named known found pos small covered =
    let cost = call_cost rates u.tokens_input u.tokens_output in
    subst (λ o. IsSwallowed user_id user cost db (bill_call now u cost o (add_api_call now u db)))
      (sym named)
      (bill_call-IsSwallowed now cost user_id u user (add_api_call now u db) known found pos small
        covered)

-- The seconds that a text stands for.
abbrev pub seconds_of : DurationText → ℕ
seconds_of (DurationText.hours_minutes h m) = h * 3600 + m * 60
seconds_of (DurationText.minutes_seconds m s) = m * 60 + s
seconds_of (DurationText.seconds s) = s

abbrev pub IsProper : DurationText → Type 0
IsProper (DurationText.hours_minutes h m) = (0 < h) × (m < 60)
IsProper (DurationText.minutes_seconds m s) = (0 < m) × (m < 60) × (s < 60)
IsProper (DurationText.seconds s) = s < 60

-- The text of a duration has its minutes and seconds below 60 and a first part above 0 where it has more
-- than seconds; read back, it is the duration without at most 59 seconds, and exact below one hour.
pub format_duration_lem :
    (d : ℕ)
    → IsProper (format_duration d)
      × (seconds_of (format_duration d) ≤ d)
      × (d < seconds_of (format_duration d) + 60)
      × ((3600 ≤ d) ⊎ (seconds_of (format_duration d) ≡ d))
unfolding format_duration
format_duration_lem d = ground arith
