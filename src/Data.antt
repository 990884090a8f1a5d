-- ===== src/Data.antt =====
-- The database that the backend and the scheduler share: one list of rows for each table of
-- backend/app/models/, in the order of insertion.
pub mod Cluster
pub mod Work
use my_frist_reop.Prelude.{ℕ, suc, List, [], ◌∷◌, ◌++◌}
use Cluster.{Node, GpuDevice, RunningContainer, GpuMetric}
use Work.{Task, TaskLog, LogSource, LogMessage, User, BillingRecord, ApiCall}

-- `next_row` is the next value of the sequence behind the autoincrement keys.
pub record Db : Type 0 where
  pub nodes : List Node
  pub gpus : List GpuDevice
  pub containers : List RunningContainer
  pub metrics : List GpuMetric
  pub tasks : List Task
  pub logs : List TaskLog
  pub users : List User
  pub billing_records : List BillingRecord
  pub api_calls : List ApiCall
  pub next_row : ℕ

-- `TaskService._add_log` and `Scheduler._append_log`: one more row of `task_logs`.
abbrev pub add_log : ℕ → ℕ → LogSource → LogMessage → Db → Db
add_log now task_id source message db = record db {
  logs =
      db.logs
      ++ record {
        id = db.next_row;
        task_id = task_id;
        source = source;
        message = message;
        timestamp = now;
      }
        ∷ [];
  next_row = suc db.next_row;
}

abbrev pub empty_db : Db
empty_db = record {
  nodes = [];
  gpus = [];
  containers = [];
  metrics = [];
  tasks = [];
  logs = [];
  users = [];
  billing_records = [];
  api_calls = [];
  next_row = 1;
}
