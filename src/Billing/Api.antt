-- ===== src/Billing/Api.antt =====
-- The rest of backend/app/services/billing_service.py: API calls, the summary and the records page.
use my_frist_reop.Prelude.{
  ℕ, ◌+◌, ◌*◌, ◌/◌, ◌%◌, String, Bool, ◌||◌, Option, none, some, List, [], ◌∷◌, ◌++◌, map, length,
  select, sort_by, sum, get, ltb, ◌==◌, if◌then◌else◌, min, max, suc,
}
use my_frist_reop.Data.{Db}
use my_frist_reop.Data.Work.{Task, User, BillingRecord, ResourceType, task_keyed, user_keyed}
use my_frist_reop.Tasks.{page_of}
use my_frist_reop.Billing.{Rates, add_record, debit, credits_after}
use my_frist_reop.Billing.Decimal.{of_int, div, mul, add, quantize_4, quantize_2}

-- The keyword arguments of `record_api_call`.
pub record CallUsage : Type 0 where
  pub user_id : Option ℕ
  pub api_key : Option String
  pub model_name : Option String
  pub endpoint : String
  pub tokens_input : ℕ
  pub tokens_output : ℕ
  pub latency_ms : Option ℕ
  pub status_code : Option ℕ

-- `total_cost` of `record_api_call`, to 0.0001.
unfoldable pub call_cost : Rates → ℕ → ℕ → ℕ
unfolding div mul add quantize_4
call_cost rates tokens_input tokens_output = quantize_4 (
    add (mul (div (of_int tokens_input) (of_int 1000)) rates.api_input_rate)
      (mul (div (of_int tokens_output) (of_int 1000)) rates.api_output_rate))

abbrev pub add_api_call : ℕ → CallUsage → Db → Db
add_api_call now u db = record db {
  api_calls =
      db.api_calls
      ++ record {
        id = db.next_row;
        user_id = u.user_id;
        api_key = u.api_key;
        model_name = u.model_name;
        endpoint = u.endpoint;
        tokens_input = u.tokens_input;
        tokens_output = u.tokens_output;
        latency_ms = u.latency_ms;
        status_code = u.status_code;
        created_at = now;
      }
        ∷ [];
  next_row = suc db.next_row;
}

abbrev pub call_record : ℕ → ℕ → CallUsage → ℕ → Db → BillingRecord
call_record now user_id u cost db = record {
  id = db.next_row;
  user_id = user_id;
  task_id = none;
  resource_type = ResourceType.api_call;
  gpu_model = u.model_name;
  duration_seconds = 0;
  cost_credits = cost;
  created_at = now;
}

-- `db.get(User, user_id)` and the charge, if the credits cover it.
unfoldable pub charge_call : ℕ → CallUsage → ℕ → Option User → Db → Db
charge_call now u cost none db = db
charge_call now u cost (some user) db =
    if ltb (user.credits * 100) cost
    then db
    else debit user.id (credits_after user.credits cost)
        (add_record (call_record now user.id u cost db) db)

-- `if user_id and total_cost > 0`
unfoldable pub bill_call : ℕ → CallUsage → ℕ → Option ℕ → Db → Db
unfolding charge_call
bill_call now u cost none db = db
bill_call now u cost (some user_id) db =
    if user_id == 0 || cost == 0 then db else charge_call now u cost (get user_id db.users) db

-- `record_api_call`
unfoldable pub record_api_call : Rates → ℕ → CallUsage → Db → Db
unfolding bill_call
record_api_call rates now u db =
    bill_call now u (call_cost rates u.tokens_input u.tokens_output) u.user_id
      (add_api_call now u db)

abbrev is_of_user : ℕ → BillingRecord → Bool
is_of_user id r = r.user_id == id

abbrev pub cost_of : BillingRecord → ℕ
cost_of r = r.cost_credits

-- `used_credits` in units of 0.0001, the other two in cents.
pub record BillingSummary : Type 0 where
  pub total_credits : ℕ
  pub used_credits : ℕ
  pub remaining : ℕ

-- `get_billing_summary`
unfoldable pub get_billing_summary : Db → User → BillingSummary
unfolding quantize_2
get_billing_summary db user =
    let used = sum (map cost_of (select (is_of_user user.id) db.billing_records)) in
    record {
      total_credits = quantize_2 (user.credits * 100 + used);
      used_credits = used;
      remaining = user.credits;
    }

-- The text of `_format_duration`: `1h05m`, `5m07s` or `7s`.
pub data DurationText : Type 0 where
  hours_minutes : ℕ → ℕ → DurationText
  minutes_seconds : ℕ → ℕ → DurationText
  seconds : ℕ → DurationText

-- `_format_duration`
unfoldable pub format_duration : ℕ → DurationText
format_duration duration =
    let hours = duration / 3600 in
    let remainder = duration % 3600 in
    let minutes = remainder / 60 in
    if hours == 0
    then (if minutes == 0
        then DurationText.seconds (remainder % 60)
        else DurationText.minutes_seconds minutes (remainder % 60))
    else DurationText.hours_minutes hours minutes

pub record BillingItem : Type 0 where
  pub billing_record : BillingRecord
  pub task_name : Option String
  pub duration_display : DurationText

-- The outer join with `tasks`.
abbrev task_name_of : Option ℕ → List Task → Option String
task_name_of none tasks = none
task_name_of (some id) tasks = elim (get id tasks) [ none ↦ none | some task ↦ some task.name ]

-- `order_by(created_at.desc(), id.desc())`
abbrev latest_first : BillingRecord → BillingRecord → Bool
latest_first a b =
    if a.created_at == b.created_at then ltb b.id a.id else ltb b.created_at a.created_at

pub record RecordsPage : Type 0 where
  pub items : List BillingItem
  pub total : ℕ
  pub page : ℕ
  pub page_size : ℕ

-- `list_billing_records`
unfoldable pub list_billing_records : Db → User → ℕ → ℕ → RecordsPage
unfolding format_duration
list_billing_records db user page page_size =
    let p = max page 1 in
    let size = max (min page_size 100) 1 in
    let mine = select (is_of_user user.id) db.billing_records in
    record {
      items =
          map
            (λ (r : BillingRecord). record {
              billing_record = r;
              task_name = task_name_of r.task_id db.tasks;
              duration_display = format_duration r.duration_seconds;
            })
            (page_of p size (sort_by latest_first mine));
      total = length mine;
      page = p;
      page_size = size;
    }
