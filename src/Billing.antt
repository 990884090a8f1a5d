-- ===== src/Billing.antt =====
-- backend/app/services/billing_service.py. Credits are in cents, costs in units of 0.0001, times in
-- microseconds.
pub mod Decimal
pub mod Api
pub mod Charges
pub mod Once
use my_frist_reop.Prelude.{
  ℕ, ◌+◌, ◌-◌, ◌*◌, ◌/◌, ◌%◌, String, Bool, true, false, not, ◌&&◌, ◌||◌, Option, none, some, List,
  [], ◌∷◌, ◌++◌, map, length, take, drop, select, sort_by, sum, get, modify, ltb, ◌==◌, or_else,
  is_some, if◌then◌else◌, min, max, suc,
}
use my_frist_reop.Data.{Db}
use my_frist_reop.Data.Cluster.{Node, node_keyed}
use my_frist_reop.Data.Work.{
  Task, User, BillingRecord, ResourceType, ApiCall, is_success, task_keyed, user_keyed,
}
use my_frist_reop.Tasks.{page_of}
use Decimal.{of_int, div, mul, add, quantize_4, quantize_2}

-- The three rates of backend/app/config.py, as `Decimal(str(rate))`.
pub record Rates : Type 0 where
  pub gpu_hour_rate : Decimal.Decimal
  pub api_input_rate : Decimal.Decimal
  pub api_output_rate : Decimal.Decimal

-- The query of `calculate_task_billing`.
unfoldable pub is_due : Task → Bool
is_due task =
    is_success task.status && not task.billed && is_some task.started_at && is_some task.finished_at

-- `max(int((finished_at - started_at).total_seconds()), 0)`
abbrev pub duration_between : ℕ → ℕ → ℕ
duration_between started finished = (finished - started) / 1000000

abbrev pub duration_of : Task → ℕ
duration_of task = duration_between (or_else task.started_at 0) (or_else task.finished_at 0)

-- `len(task.assigned_gpu_indices or [])`
abbrev pub gpu_count_of : Task → ℕ
gpu_count_of task = length (or_else task.assigned_gpu_indices [])

-- The cost of a task, to 0.0001.
unfoldable pub task_cost : Rates → ℕ → ℕ → ℕ
unfolding div mul quantize_4
task_cost rates duration gpu_count =
    quantize_4
      (mul (div (of_int duration) (of_int 3600)) (mul (of_int gpu_count) rates.gpu_hour_rate))

abbrev pub set_billed : Task → Task
set_billed task = record task { billed = true }

abbrev pub set_credits : ℕ → User → User
set_credits credits user = record user { credits = credits }

abbrev pub node_model : Option ℕ → List Node → Option String
node_model none nodes = none
node_model (some id) nodes = elim (get id nodes) [ none ↦ none | some node ↦ node.gpu_model ]

abbrev pub add_record : BillingRecord → Db → Db
add_record r db = record db {
  billing_records = db.billing_records ++ r ∷ [];
  next_row = suc db.next_row;
}

abbrev pub gpu_record : Task → ℕ → Db → BillingRecord
gpu_record task cost db = record {
  id = db.next_row;
  user_id = task.user_id;
  task_id = some task.id;
  resource_type = ResourceType.gpu_time;
  gpu_model = node_model task.assigned_node_id db.nodes;
  duration_seconds = duration_of task;
  cost_credits = cost;
  created_at = or_else task.finished_at 0;
}

abbrev pub mark_billed : ℕ → Db → Db
mark_billed id db = record db { tasks = modify id set_billed db.tasks }

abbrev pub debit : ℕ → ℕ → Db → Db
debit user_id credits db = record db { users = modify user_id (set_credits credits) db.users }

-- `_quantize(current - cost, "0.01")`, after the test that `current` covers the cost.
unfoldable pub credits_after : ℕ → ℕ → ℕ
unfolding quantize_2
credits_after credits cost = quantize_2 (credits * 100 - cost)

-- The part of the loop from the test of the user on.
unfoldable pub charge : Task → ℕ → Option User → Db → ℕ → Db × ℕ
charge task cost none db n = (mark_billed task.id (add_record (gpu_record task cost db) db), n + 1)
charge task cost (some user) db n = if ltb (user.credits * 100) cost then (db, n) else (
  mark_billed task.id
      (add_record (gpu_record task cost db) (debit user.id (credits_after user.credits cost) db)),
  n + 1,
)

-- One round of the loop.
unfoldable pub bill_task : Rates → Task → Db → ℕ → Db × ℕ
unfolding charge
bill_task rates task db n =
    if duration_of task == 0 || gpu_count_of task == 0
    then (mark_billed task.id db, n + 1)
    else charge task (task_cost rates (duration_of task) (gpu_count_of task))
        (get task.user_id db.users) db n

unfoldable pub bill_all : Rates → List Task → Db → ℕ → Db × ℕ
bill_all rates [] db n = (db, n)
bill_all rates (task ∷ tasks) db n =
    let (db', n') = bill_task rates task db n in bill_all rates tasks db' n'

-- `calculate_task_billing`: the tables after the commit, and the number of tasks billed.
unfoldable pub calculate_task_billing : Rates → Db → Db × ℕ
unfolding bill_all is_due
calculate_task_billing rates db = bill_all rates (select is_due db.tasks) db 0
