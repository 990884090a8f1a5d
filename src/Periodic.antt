-- ===== src/Periodic.antt =====
-- backend/app/tasks/: the three tasks that the beat of backend/app/tasks/celery_app.py starts over and over, each
-- in a session of its own. The beat's times are not in the model: a run is any sequence of beats.
pub mod Runs
use my_frist_reop.Prelude.{ℕ, List, [], ◌∷◌}
use my_frist_reop.Data.{Db}
use my_frist_reop.Billing.{Rates, calculate_task_billing}
use my_frist_reop.Monitor.{
  MonitorSettings, collect_gpu_metrics as collect_metrics_service, mark_offline_nodes,
}

-- The keys `task` of `beat_schedule`, with the time at which a worker runs the task.
pub data Beat : Type 0 where
  collect_gpu_metrics check_node_heartbeat calculate_billing : ℕ → Beat

-- The numbers that the tasks return: `collected`, `offline_nodes` and `billed_tasks`.
pub data BeatResult : Type 0 where
  collected offline_nodes billed_tasks : ℕ → BeatResult

module _ (rates : Rates) (settings : MonitorSettings) where
  -- One task, with its session.
  unfoldable pub run_beat : Beat → Db → BeatResult × Db
  unfolding collect_metrics_service mark_offline_nodes calculate_task_billing
  run_beat (Beat.collect_gpu_metrics now) db =
      let (db', n) = collect_metrics_service settings now db in (BeatResult.collected n, db')
  run_beat (Beat.check_node_heartbeat now) db =
      let (db', n) = mark_offline_nodes settings now db in (BeatResult.offline_nodes n, db')
  run_beat (Beat.calculate_billing now) db =
      let (db', n) = calculate_task_billing rates db in (BeatResult.billed_tasks n, db')

  -- A sequence of beats.
  unfoldable pub run_beats : List Beat → Db → Db
  unfolding run_beat
  run_beats [] db = db
  run_beats (b ∷ bs) db = run_beats bs (run_beat b db).1
