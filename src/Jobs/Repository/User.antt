-- ===== src/Jobs/Repository/User.antt =====
-- Cancel, Retry and Delete of repository_sqlite.go, which a user asks for.
use luxury_video_tool.Base.{
  ℕ, String, none, some, Bool, true, false, ◌&&◌, if◌then◌else◌, ltb, ◌==◌, str_eq,
}
use luxury_video_tool.Sql.{update, affected, exists, delete}
use luxury_video_tool.Jobs.Model.{
  Job, Db, Result, ok, err, not_found, not_cancellable, not_retryable, Status, queued, failed,
  cancelled, is_waiting,
}
use luxury_video_tool.Jobs.Repository.{is_owned_by}

unfoldable pub can_cancel : String → String → Job → Bool
can_cancel user_id job_id r = is_owned_by user_id job_id r && is_waiting r.status

unfoldable pub set_cancel : ℕ → Job → Job
set_cancel at r = record r {
  status = cancelled;
  progress = 100;
  status_message = "任务已取消";
  cancel_requested_at = some at;
  completed_at = some at;
  updated_at = at;
  lease_owner = none;
  lease_expires_at = none;
}

-- The Boolean that Cancel also returns says no more than the absence of an error.
unfoldable pub cancel : String → String → ℕ → Db → Db × Result Bool
unfolding update affected exists can_cancel set_cancel
cancel user_id job_id at db =
    if ltb 0 (affected (can_cancel user_id job_id) db.jobs)
    then (record db { jobs = update (can_cancel user_id job_id) (set_cancel at) db.jobs }, ok true)
    else if exists (is_owned_by user_id job_id) db.jobs
    then (db, err not_cancellable)
    else (db, err not_found)

abbrev pub is_retryable : Status → Bool
is_retryable failed = true
is_retryable cancelled = true
is_retryable _ = false

unfoldable pub can_retry : String → String → Job → Bool
can_retry user_id job_id r = is_owned_by user_id job_id r && is_retryable r.status

unfoldable pub set_retry : ℕ → Job → Job
set_retry at r = record r {
  status = queued;
  progress = 0;
  status_message = "等待处理";
  attempt_count = 0;
  error_code = none;
  error_message = none;
  completed_at = none;
  retry_at = none;
  cancel_requested_at = none;
  updated_at = at;
}

unfoldable pub retry : String → String → ℕ → Db → Db × Result (Unit {0})
unfolding update affected exists can_retry set_retry
retry user_id job_id at db =
    if ltb 0 (affected (can_retry user_id job_id) db.jobs)
    then (record db { jobs = update (can_retry user_id job_id) (set_retry at) db.jobs }, ok tt)
    else if exists (is_owned_by user_id job_id) db.jobs
    then (db, err not_retryable)
    else (db, err not_found)

-- Delete runs in one transaction: where no job is deleted, everything is rolled back. The foreign
-- keys of the other tables have ON DELETE CASCADE, so all rows of the job go, whoever owns them.
unfoldable pub delete_job : String → String → Db → Db × Result (Unit {0})
unfolding delete affected
delete_job user_id job_id db =
    if affected (is_owned_by user_id job_id) db.jobs == 0 then (db, err not_found) else (
      record {
        jobs = delete (is_owned_by user_id job_id) db.jobs;
        steps = delete (λ s. str_eq s.job_id job_id) db.steps;
        files = delete (λ f. str_eq f.job_id job_id) db.files;
        asr_calls = delete (λ c. str_eq c.job_id job_id) db.asr_calls;
      },
      ok tt,
    )
