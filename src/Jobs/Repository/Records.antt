-- ===== src/Jobs/Repository/Records.antt =====
-- BeginStep, FinishStep and the deletions of file records of repository_sqlite.go.
use luxury_video_tool.Base.{
  ℕ, String, Option, none, some, Bool, true, false, ◌&&◌, ◌||◌, [], ◌∷◌, ◌++◌, if◌then◌else◌, ◌==◌,
  str_eq, is_some, not,
}
use luxury_video_tool.Sql.{update, affected, exists, delete}
use luxury_video_tool.Jobs.Model.{
  Step, StepStatus, Db, Result, ok, err, not_found, constraint_failed,
}
use luxury_video_tool.Jobs.Repository.{has_id}

-- The job_id of a step refers to a job, and its id is the primary key.
unfoldable pub begin_step : Step → Db → Db × Result (Unit {0})
unfolding exists
begin_step step db =
    if exists (λ (s : Step). str_eq s.id step.id) db.steps
      || not (exists (has_id step.job_id) db.jobs)
    then (db, err constraint_failed)
    else (
      record db {
        steps =
            db.steps
            ++ record step {
              status = StepStatus.running;
              completed_at = none;
              error_code = none;
              error_message = none;
            }
              ∷ [];
      },
      ok tt,
    )

-- CHECK (status IN ('running', 'completed', 'failed'))
unfoldable pub check_step_status : String → Option StepStatus
check_step_status s =
    if str_eq s "running"
    then some StepStatus.running
    else if str_eq s "completed"
    then some StepStatus.completed
    else if str_eq s "failed"
    then some StepStatus.failed
    else none

abbrev pub is_running : StepStatus → Bool
is_running StepStatus.running = true
is_running _ = false

abbrev null_text : String → Option String
null_text s = if str_eq s "" then none else some s

unfoldable pub is_open_step : String → Step → Bool
is_open_step step_id s = str_eq s.id step_id && is_running s.status

unfoldable pub set_finished : StepStatus → String → String → String → ℕ → Step → Step
set_finished status code message details at s = record s {
  status = status;
  completed_at = some at;
  details = details;
  error_code = null_text code;
  error_message = null_text message;
}

-- A status that the CHECK refuses fails the statement where a row matches.
unfoldable pub finish_step :
    String → String → String → String → String → ℕ → Db → Db × Result (Unit {0})
unfolding affected update check_step_status is_open_step set_finished
finish_step step_id status code message details at db =
    if affected (is_open_step step_id) db.steps == 0
    then (db, err not_found)
    else elim (check_step_status status) [
      | none ↦ (db, err constraint_failed)
      | some st ↦ (
        record db {
          steps = update (is_open_step step_id) (set_finished st code message details at) db.steps;
        },
        ok tt,
      )
    ]

unfoldable pub delete_file_record : String → Db → Db
unfolding delete
delete_file_record file_id db = record db { files = delete (λ f. str_eq f.id file_id) db.files }

unfoldable pub delete_files_by_job : String → String → Db → Db
unfolding delete
delete_files_by_job user_id job_id db = record db {
  files = delete (λ f. str_eq f.job_id job_id && str_eq f.user_id user_id) db.files;
}

unfoldable pub delete_files_by_kind : String → String → Db → Db
unfolding delete
delete_files_by_kind job_id kind db = record db {
  files =
      delete (λ f. str_eq f.job_id job_id && str_eq f.kind kind && is_some f.deleted_at) db.files;
}
