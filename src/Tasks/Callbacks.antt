-- ===== src/Tasks/Callbacks.antt =====
-- What an agent's report does to a task: `handle_callback` of backend/app/services/task_service.py.
use my_frist_reop.Prelude.{
  ℕ, ◌≡◌, ◌≢◌, refl, ap, ◌∙◌, true, Option, none, some, get, modify, get-modify_self, get-modify_ne,
  ◌⊎◌, arith, String,
}
use my_frist_reop.Data.{Db}
use my_frist_reop.Data.Work.{
  Task, TaskStatus, Entry, ResultJson, empty_result, is_finished, task_keyed, LogSource,
}
use my_frist_reop.World.{World}
use my_frist_reop.Tasks.Lifecycle.{
  CallbackStatus, TaskCallbackRequest, entry_of, new_container, report, report_logs, announce,
  handle_callback, log_text,
}

log_text_tasks :
    (now id : ℕ) (s : LogSource) (o : Option String) (db : Db)
    → (log_text now id s o db).tasks ≡ db.tasks
log_text_tasks now id s none db = refl
log_text_tasks now id s (some t) db = ground arith

report_logs_tasks :
    (now id : ℕ) (p : TaskCallbackRequest) (s : CallbackStatus) (db : Db)
    → (report_logs now id p s db).tasks ≡ db.tasks
unfolding report_logs
report_logs_tasks now id p CallbackStatus.running db = refl
report_logs_tasks now id p CallbackStatus.success db = refl
report_logs_tasks now id p CallbackStatus.failed db =
    log_text_tasks now id LogSource.stderr p.error_message _

announce_db : (s : CallbackStatus) (task : Task) (w : World) → (announce s task w).1.db ≡ w.db
unfolding announce
announce_db CallbackStatus.running task w = refl
announce_db CallbackStatus.success task w = refl
announce_db CallbackStatus.failed task w = refl

report_id :
    (now : ℕ) (p : TaskCallbackRequest) (s : CallbackStatus) (t : Task)
    → (report now p s t).id ≡ t.id
unfolding report
report_id now p CallbackStatus.running t = refl
report_id now p CallbackStatus.success t = refl
report_id now p CallbackStatus.failed t = refl

-- A key of a JSON object that shows a value which may be absent: `null` for `None`.
abbrev pub Shows : {A : Type 0} → Option A → Entry A → Type 0
Shows none e = e ≡ Entry.null
Shows (some a) e = e ≡ Entry.value a

-- An object with the key `exit_code` of the report and, where it is asked for, `error_message`.
pub record IsResultOf (p : TaskCallbackRequest) (o : Option ResultJson) : Type 0 where
  pub result : ResultJson
  pub stored : o ≡ some result
  pub exit_code : Shows p.exit_code result.exit_code
  pub error_message : p.status ≡ CallbackStatus.failed → Shows p.error_message result.error_message
  pub no_message : p.status ≡ CallbackStatus.success → result.error_message ≡ Entry.missing
  pub no_container : (result.container_id ≡ none) × (result.container_status ≡ none)
  pub no_reason : (result.error ≡ none) × (result.reason ≡ none) × (result.failed_at ≡ none)

-- The row after a report, field by field: a report that the task runs keeps the first time of starting, the
-- time of finishing and the result; one that it has ended sets the last two; a container id that is given and
-- is not empty replaces the old one; and no other field changes.
pub record IsReported (now : ℕ) (p : TaskCallbackRequest) (old new : Task) : Type 0 where
  pub running :
      p.status ≡ CallbackStatus.running
      → (new.status ≡ TaskStatus.running)
        × (new.finished_at ≡ old.finished_at)
        × (new.result_json ≡ old.result_json)
  pub first_start :
      p.status ≡ CallbackStatus.running → old.started_at ≡ none → new.started_at ≡ some now
  pub later_start :
      p.status ≡ CallbackStatus.running
      → (s : ℕ) → old.started_at ≡ some s
      → new.started_at ≡ some s
  pub success : p.status ≡ CallbackStatus.success → new.status ≡ TaskStatus.success
  pub failed : p.status ≡ CallbackStatus.failed → new.status ≡ TaskStatus.failed
  pub ended :
      p.status ≢ CallbackStatus.running
      → (new.started_at ≡ old.started_at)
        × (new.finished_at ≡ some now)
        × IsResultOf p new.result_json
  pub container : (c : ℕ) → p.container_id ≡ some c → c ≢ 0 → new.container_id ≡ some c
  pub old_container :
      (p.container_id ≡ none) ⊎ (p.container_id ≡ some 0) → new.container_id ≡ old.container_id
  pub kept : new ≡ record old {
    status = new.status;
    started_at = new.started_at;
    finished_at = new.finished_at;
    container_id = new.container_id;
    result_json = new.result_json;
  }

entry_of-Shows : {A : Type 0} (o : Option A) → Shows o (entry_of o)
entry_of-Shows none = refl
entry_of-Shows (some a) = refl

new_container-given : (o old : Option ℕ) (c : ℕ) → o ≡ some c → c ≢ 0 → new_container o old ≡ some c
new_container-given o old c e ne = ground arith

new_container-old : (o old : Option ℕ) → (o ≡ none) ⊎ (o ≡ some 0) → new_container o old ≡ old
new_container-old o old h = ground arith

report-IsReported :
    (now : ℕ) (p : TaskCallbackRequest) (s : CallbackStatus) (t : Task)
    → p.status ≡ s
    → IsReported now p t (report now p s t)
unfolding report
report-IsReported now p CallbackStatus.running t e = record {
  running = λ h. (refl, refl, refl);
  first_start = λ h k. rw k refl;
  later_start = λ h s k. rw k refl;
  success = λ h. absurd (cc);
  failed = λ h. absurd (cc);
  ended = λ h. absurd (h e);
  container = new_container-given p.container_id t.container_id;
  old_container = new_container-old p.container_id t.container_id;
  kept = refl;
}
report-IsReported now p CallbackStatus.success t e = record {
  running = λ h. absurd (cc);
  first_start = λ h. absurd (cc);
  later_start = λ h. absurd (cc);
  success = λ h. refl;
  failed = λ h. absurd (cc);
  ended = λ h. (
    refl,
    refl,
    record {
      result = record empty_result { exit_code = entry_of p.exit_code };
      stored = refl;
      exit_code = entry_of-Shows p.exit_code;
      error_message = λ k. absurd (cc);
      no_message = λ k. refl;
      no_container = (refl, refl);
      no_reason = (refl, refl, refl);
    },
  );
  container = new_container-given p.container_id t.container_id;
  old_container = new_container-old p.container_id t.container_id;
  kept = refl;
}
report-IsReported now p CallbackStatus.failed t e = record {
  running = λ h. absurd (cc);
  first_start = λ h. absurd (cc);
  later_start = λ h. absurd (cc);
  success = λ h. absurd (cc);
  failed = λ h. refl;
  ended = λ h. (
    refl,
    refl,
    record {
      result = record empty_result {
        exit_code = entry_of p.exit_code;
        error_message = entry_of p.error_message;
      };
      stored = refl;
      exit_code = entry_of-Shows p.exit_code;
      error_message = λ k. entry_of-Shows p.error_message;
      no_message = λ k. absurd (cc);
      no_container = (refl, refl);
      no_reason = (refl, refl, refl);
    },
  );
  container = new_container-given p.container_id t.container_id;
  old_container = new_container-old p.container_id t.container_id;
  kept = refl;
}

module _ (now : ℕ) (p : TaskCallbackRequest) (w : World) (task : Task)
    (found : get task.id w.db.tasks ≡ some task) where
  handle_callback_tasks :
      (handle_callback now task.id p w).1.db.tasks
      ≡ modify task.id (report now p p.status) w.db.tasks
  unfolding handle_callback
  handle_callback_tasks =
      rw (found, handle_callback)
        (ap (λ (d : Db). d.tasks) (announce_db p.status (report now p p.status task) _)
          ∙ log_text_tasks now task.id LogSource.stdout p.logs_chunk _
          ∙ report_logs_tasks now task.id p p.status _)

  handle_callback_rows :
      let w' = (handle_callback now task.id p w).1 in
      (get task.id w'.db.tasks ≡ some (report now p p.status task))
      × ((j : ℕ) → task.id ≢ j → get j w'.db.tasks ≡ get j w.db.tasks)
  handle_callback_rows =
      let f = report now p p.status in
      (
        ap (get task.id) handle_callback_tasks
            ∙ get-modify_self task.id f w.db.tasks task (report_id now p p.status) found,
        (λ j ne.
            ap (get j) handle_callback_tasks
            ∙ get-modify_ne task.id j f w.db.tasks (report_id now p p.status) ne),
      )

  -- A callback for a known task puts the reported state into its row, field by field as IsReported says, and
  -- leaves every other task as it was, also when the announcement that follows the commit fails.
  pub handle_callback-row :
      let w' = (handle_callback now task.id p w).1 in
      ((t : Task) × (get task.id w'.db.tasks ≡ some t) × IsReported now p task t)
      × ((j : ℕ) → task.id ≢ j → get j w'.db.tasks ≡ get j w.db.tasks)
  handle_callback-row =
      let (row, others) = handle_callback_rows in
      ((report now p p.status task, row, report-IsReported now p p.status task refl), others)

  -- There is no guard on the old state: a report that the task runs makes a cancelled, failed or successful
  -- task a running one again, with its time of finishing kept.
  pub handle_callback-reopens :
      is_finished task.status ≡ true
      → p.status ≡ CallbackStatus.running
      → (t : Task) × (get task.id (handle_callback now task.id p w).1.db.tasks ≡ some t)
        × (t.status ≡ TaskStatus.running)
        × (t.finished_at ≡ task.finished_at)
  unfolding report
  handle_callback-reopens done running = (
    report now p CallbackStatus.running task,
    handle_callback_rows.0 ∙ ap (λ s. some (report now p s task)) running,
    refl,
    refl,
  )
