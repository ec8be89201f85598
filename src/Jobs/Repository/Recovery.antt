-- ===== src/Jobs/Repository/Recovery.antt =====
-- Recover and FailExhaustedQueued of repository_sqlite.go, which the worker runs when it starts.
use luxury_video_tool.Base.{
  ℕ, none, some, Bool, true, false, ◌&&◌, List, if◌then◌else◌, str_eq, before, is_some,
}
use luxury_video_tool.Sql.{update, affected, exists}
use luxury_video_tool.Jobs.Model.{
  Job, AsrCall, CallStatus, Db, queued, failed, is_processing, is_waiting, is_transcribing,
}
use luxury_video_tool.Jobs.Repository.{is_exhausted}

abbrev is_open_call : CallStatus → Bool
is_open_call CallStatus.submitted = true
is_open_call CallStatus.running = true
is_open_call _ = false

-- A speech recognition task that the provider has accepted and not finished.
unfoldable pub has_open_call : List AsrCall → Job → Bool
unfolding exists
has_open_call calls r =
    exists (λ c. str_eq c.job_id r.id && is_some c.provider_task_id && is_open_call c.status) calls

unfoldable pub needs_review : List AsrCall → ℕ → Job → Bool
unfolding has_open_call
needs_review calls now r =
    is_transcribing r.status && before r.lease_expires_at now && has_open_call calls r

unfoldable pub set_review : ℕ → Job → Job
set_review now r = record r {
  status = failed;
  progress = 100;
  status_message = "ASR 状态需人工恢复";
  error_code = some "ASR_RECOVERY_REQUIRED";
  error_message = some "ASR 状态需人工恢复";
  completed_at = some now;
  lease_owner = none;
  lease_expires_at = none;
  heartbeat_at = none;
  updated_at = now;
}

unfoldable pub is_expired : ℕ → Job → Bool
is_expired now r = is_processing r.status && before r.lease_expires_at now

unfoldable pub set_recovered : ℕ → Job → Job
set_recovered now r = record r {
  status = if is_exhausted r then failed else queued;
  progress = if is_exhausted r then 100 else 0;
  status_message = if is_exhausted r then "任务恢复次数已耗尽" else "服务恢复后重新排队";
  error_code = if is_exhausted r then some "JOB_RECOVERY_EXHAUSTED" else r.error_code;
  error_message = if is_exhausted r then some "任务恢复次数已耗尽" else r.error_message;
  completed_at = if is_exhausted r then some now else none;
  lease_owner = none;
  lease_expires_at = none;
  heartbeat_at = none;
  updated_at = now;
}

unfoldable pub recover : ℕ → Db → Db × ℕ
unfolding update affected needs_review set_review is_expired set_recovered
recover now db =
    let reviewed : List Job = update (needs_review db.asr_calls now) (set_review now) db.jobs in
    (
      record db { jobs = update (is_expired now) (set_recovered now) reviewed },
      affected (is_expired now) reviewed,
    )

unfoldable pub is_stuck : Job → Bool
is_stuck r = is_waiting r.status && is_exhausted r

unfoldable pub set_exhausted : ℕ → Job → Job
set_exhausted at r = record r {
  status = failed;
  progress = 100;
  status_message = "任务重试次数已耗尽";
  error_code = some "JOB_RETRY_EXHAUSTED";
  error_message = some "任务重试次数已耗尽";
  completed_at = some at;
  updated_at = at;
}

unfoldable pub fail_exhausted_queued : ℕ → Db → Db × ℕ
unfolding update affected is_stuck set_exhausted
fail_exhausted_queued at db =
    (record db { jobs = update is_stuck (set_exhausted at) db.jobs }, affected is_stuck db.jobs)
