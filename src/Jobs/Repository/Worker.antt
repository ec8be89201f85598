-- ===== src/Jobs/Repository/Worker.antt =====
-- The statements of repository_sqlite.go that CreateInfo and the worker run on a job.
use luxury_video_tool.Base.{ℕ, ◌+◌, String, none, some, Bool, ◌&&◌, if◌then◌else◌, ltb}
use luxury_video_tool.Sql.{affected}
use luxury_video_tool.Jobs.Model.{
  Job, Db, Result, err, not_found, lease_lost, constraint_failed, Status, downloading, retry_wait,
  completed, failed, cancelled, is_processing, is_resolving, is_downloading, is_postprocessing,
}
use luxury_video_tool.Jobs.Repository.{exec, has_id, is_leased_by, is_exhausted}

unfoldable pub can_complete_info : String → Job → Bool
can_complete_info job_id r = has_id job_id r && is_resolving r.status

unfoldable pub set_complete_info : String → ℕ → Job → Job
set_complete_info work_id at r = record r {
  work_id = some work_id;
  status = completed;
  progress = 100;
  status_message = "作品信息解析完成";
  completed_at = some at;
  updated_at = at;
}

unfoldable pub complete_info : String → String → ℕ → Db → Db × Result (Unit {0})
unfolding exec can_complete_info set_complete_info
complete_info job_id work_id at db =
    exec db (can_complete_info job_id) (set_complete_info work_id at) not_found

unfoldable pub set_fail : String → String → ℕ → Job → Job
set_fail code message at r = record r {
  status = failed;
  progress = 100;
  status_message = message;
  error_code = some code;
  error_message = some message;
  completed_at = some at;
  updated_at = at;
  lease_owner = none;
  lease_expires_at = none;
  heartbeat_at = none;
}

unfoldable pub fail : String → String → String → ℕ → Db → Db × Result (Unit {0})
unfolding exec set_fail
fail job_id code message at db = exec db (has_id job_id) (set_fail code message at) not_found

unfoldable pub can_heartbeat : String → String → Job → Bool
can_heartbeat job_id owner r = is_leased_by job_id owner r && is_processing r.status

unfoldable pub set_heartbeat : ℕ → ℕ → Job → Job
set_heartbeat now lease r = record r {
  heartbeat_at = some now;
  lease_expires_at = some (now + lease);
  updated_at = now;
}

unfoldable pub heartbeat : String → String → ℕ → ℕ → Db → Db × Result (Unit {0})
unfolding exec can_heartbeat set_heartbeat
heartbeat job_id owner now lease db =
    exec db (can_heartbeat job_id owner) (set_heartbeat now lease) lease_lost

unfoldable pub can_resolve : String → String → Job → Bool
can_resolve job_id owner r = is_leased_by job_id owner r && is_resolving r.status

unfoldable pub set_resolved_row : String → ℕ → Job → Job
set_resolved_row work_id at r = record r {
  work_id = some work_id;
  status = downloading;
  progress = 30;
  status_message = "正在下载媒体";
  updated_at = at;
}

unfoldable pub set_resolved : String → String → String → ℕ → Db → Db × Result (Unit {0})
unfolding exec can_resolve set_resolved_row
set_resolved job_id owner work_id at db =
    exec db (can_resolve job_id owner) (set_resolved_row work_id at) lease_lost

unfoldable pub set_stage_row : Status → ℕ → String → ℕ → Job → Job
set_stage_row status progress message at r = record r {
  status = status;
  progress = progress;
  status_message = message;
  updated_at = at;
}

-- The CHECK of jobs.progress refuses a row of more than 100.
unfoldable pub set_stage : String → String → Status → ℕ → String → ℕ → Db → Db × Result (Unit {0})
unfolding exec set_stage_row affected
set_stage job_id owner status progress message at db =
    if ltb 100 progress && ltb 0 (affected (is_leased_by job_id owner) db.jobs)
    then (db, err constraint_failed)
    else exec db (is_leased_by job_id owner) (set_stage_row status progress message at) lease_lost

unfoldable pub set_completed : String → ℕ → Job → Job
set_completed message at r = record r {
  status = completed;
  progress = 100;
  status_message = message;
  completed_at = some at;
  updated_at = at;
  lease_owner = none;
  lease_expires_at = none;
  heartbeat_at = none;
  error_code = none;
  error_message = none;
}

unfoldable pub can_complete_download : String → String → Job → Bool
can_complete_download job_id owner r = is_leased_by job_id owner r && is_downloading r.status

unfoldable pub complete_download : String → String → ℕ → Db → Db × Result (Unit {0})
unfolding exec can_complete_download set_completed
complete_download job_id owner at db =
    exec db (can_complete_download job_id owner) (set_completed "媒体下载完成" at) lease_lost

unfoldable pub can_complete_transcription : String → String → Job → Bool
can_complete_transcription job_id owner r =
    is_leased_by job_id owner r && is_postprocessing r.status

unfoldable pub set_transcribed : String → String → ℕ → Job → Job
unfolding set_completed
set_transcribed result message at r = record (set_completed message at r) {
  result_json = some result;
}

unfoldable pub complete_transcription :
    String → String → String → String → ℕ → Db → Db × Result (Unit {0})
unfolding exec can_complete_transcription set_transcribed
complete_transcription job_id owner result message at db =
    exec db (can_complete_transcription job_id owner) (set_transcribed result message at) lease_lost

unfoldable pub set_retry_later : String → String → ℕ → ℕ → Job → Job
set_retry_later code message retry_at at r = record r {
  status = if is_exhausted r then failed else retry_wait;
  progress = if is_exhausted r then 100 else r.progress;
  status_message = message;
  error_code = some code;
  error_message = some message;
  retry_at = if is_exhausted r then none else some retry_at;
  completed_at = if is_exhausted r then some at else none;
  lease_owner = none;
  lease_expires_at = none;
  heartbeat_at = none;
  updated_at = at;
}

unfoldable pub retry_later : String → String → String → String → ℕ → ℕ → Db → Db × Result (Unit {0})
unfolding exec set_retry_later
retry_later job_id owner code message retry_at at db =
    exec db (is_leased_by job_id owner) (set_retry_later code message retry_at at) lease_lost

unfoldable pub set_cancel_owned : String → ℕ → Job → Job
set_cancel_owned message at r = record r {
  status = cancelled;
  progress = 100;
  status_message = message;
  cancel_requested_at = some at;
  completed_at = some at;
  lease_owner = none;
  lease_expires_at = none;
  heartbeat_at = none;
  updated_at = at;
}

unfoldable pub cancel_owned : String → String → String → ℕ → Db → Db × Result (Unit {0})
unfolding exec set_cancel_owned
cancel_owned job_id owner message at db =
    exec db (is_leased_by job_id owner) (set_cancel_owned message at) lease_lost
