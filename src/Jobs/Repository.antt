-- ===== src/Jobs/Repository.antt =====
-- services/api_go/internal/jobs/repository_sqlite.go: the statements on the table jobs. The guard
-- of a statement is its WHERE clause on a row, and a function `set_…` its SET clause. An argument
-- `now` or `at` is a time in milliseconds, and a statement gives the tables that it leaves.
pub mod Select
pub mod Worker
pub mod User
pub mod Claim
pub mod Recovery
pub mod Records
use luxury_video_tool.Base.{
  ℕ, ◌+◌, suc, String, Option, none, some, Bool, true, false, ◌&&◌, ◌||◌, List, [], ◌∷◌, ◌++◌,
  if◌then◌else◌, leb, ltb, ◌==◌, str_eq, text_is, is_none, before, not_after, is_some, not,
}
use luxury_video_tool.Sql.{update, affected, find, select, order_by, exists, first, delete}
use luxury_video_tool.Jobs.Model.{
  Job, File, Step, AsrCall, CallStatus, StepStatus, Db, Error, Result, ok, err, not_found,
  not_cancellable, not_retryable, lease_lost, constraint_failed, Status, resolving, downloading,
  queued, retry_wait, completed, failed, cancelled, is_processing, is_waiting, is_queued,
  is_resolving, is_downloading, is_postprocessing, is_transcribing, is_completed,
}

-- An UPDATE of jobs and the check of its RowsAffected: `e` if no row matched.
unfoldable pub exec : Db → (Job → Bool) → (Job → Job) → Error → Db × Result (Unit {0})
unfolding update affected
exec db p f e =
    (record db { jobs = update p f db.jobs }, if affected p db.jobs == 0 then err e else ok tt)

abbrev pub has_id : String → Job → Bool
has_id job_id r = str_eq r.id job_id

-- WHERE id = ? AND lease_owner = ?
abbrev pub is_leased_by : String → String → Job → Bool
is_leased_by job_id owner r = str_eq r.id job_id && text_is r.lease_owner owner

-- WHERE user_id = ? AND id = ?
abbrev pub is_owned_by : String → String → Job → Bool
is_owned_by user_id job_id r = str_eq r.user_id user_id && str_eq r.id job_id

-- attempt_count >= max_attempts
abbrev pub is_exhausted : Job → Bool
is_exhausted r = leb r.max_attempts r.attempt_count
