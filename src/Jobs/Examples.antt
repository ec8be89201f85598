-- ===== src/Jobs/Examples.antt =====
-- A table of jobs to try the theorems on.
mod Statements
mod Requests
mod Pages
mod Failures
mod Processing
use luxury_video_tool.Base.{
  ℕ, ◌+◌, ◌≤◌, ◌≡◌, ◌≢◌, refl, String, Option, none, some, Bool, true, false, List, [], ◌∷◌, ◌++◌,
  All, arith, map, str_eq, ◌↔◌, trim_space, rune_count, if◌then◌else◌,
}
use luxury_video_tool.Sql.{find, update, affected}
use luxury_video_tool.Sql.Keys.{Unique}
use luxury_video_tool.Jobs.Model.{
  Job, Step, StepStatus, File, AsrCall, CallStatus, Db, Error, ok, err, not_found, lease_lost,
  constraint_failed, Status, queued, resolving, downloading, completed, failed, transcribing,
  retry_wait, idempotency_conflict, is_terminal,
}
use luxury_video_tool.Jobs.Repository.{has_id, is_owned_by}
use luxury_video_tool.Jobs.Repository.Select.{find_by_idempotency_key, set_created}
use luxury_video_tool.Jobs.Repository.Worker.{heartbeat, fail, set_fail, complete_download}
use luxury_video_tool.Jobs.Repository.User.{delete_job}
use luxury_video_tool.Jobs.Repository.Claim.{claim_next, is_due, set_claim, oldest_due}
use luxury_video_tool.Jobs.Repository.Recovery.{recover, set_review, is_expired, has_open_call}
use luxury_video_tool.Jobs.Repository.Records.{finish_step, check_step_status, is_open_step}
use luxury_video_tool.Jobs.Service.{
  CreateInput, create_download, create_info_job, job_reply, repository_error, reused, resolved,
  delete as delete_request, default_action, download_job, options_valid, same_info_request,
}
use luxury_video_tool.Jobs.Lifecycle.{IsSound}
use luxury_video_tool.Jobs.Lifecycle.Steps.{
  Call, claims, heartbeats, completes_download, cancels, recovers, perform, perform_all, IsSoundDb,
}
use luxury_video_tool.Jobs.Lifecycle.Steps.Kept.{perform-IsSoundDb, perform_all-IsSoundDb}
use luxury_video_tool.Jobs.Lifecycle.Edges.{Moved}
use luxury_video_tool.Jobs.Lifecycle.Moves.{perform-Moved}
use luxury_video_tool.Jobs.Lifecycle.Completed.{completed-Kept, fail_overrules}
use luxury_video_tool.Jobs.Leases.{stale_worker}
use luxury_video_tool.Jobs.Leases.Claims.{claim_next-oldest, claim_next-idle}
use luxury_video_tool.Jobs.Recovery.{recover-row, recover-leases, recover-review, recover_row}
use luxury_video_tool.Jobs.Records.{
  finish_step-refused, finish_step-once, delete_job-gone, delete_request-guarded,
}
use luxury_video_tool.Jobs.Service.Idempotency.{
  create_download-again, create_download_race, create_info_race,
}

abbrev pub waiting : Job
waiting = record {
  id = "j1";
  user_id = "u1";
  work_id = none;
  input_text = "link";
  input_url = "https://v";
  action = "download";
  status = queued;
  progress = 0;
  status_message = "";
  idempotency_key = "k1";
  force_refresh = false;
  attempt_count = 0;
  max_attempts = 3;
  lease_owner = none;
  lease_expires_at = none;
  heartbeat_at = none;
  retry_at = none;
  cancel_requested_at = none;
  error_code = none;
  error_message = none;
  started_at = none;
  completed_at = none;
  created_at = 10;
  updated_at = 10;
  result_json = none;
  keep_video = false;
  language_hints = [];
  hotwords = [];
}

abbrev pub later : Job
later = record waiting { id = "j2"; idempotency_key = "k2"; created_at = 20 }

abbrev pub running : Job
running = record waiting {
  id = "j3";
  idempotency_key = "k3";
  status = downloading;
  progress = 30;
  attempt_count = 1;
  lease_owner = some "w";
  lease_expires_at = some 90;
  heartbeat_at = some 30;
  started_at = some 30;
}

abbrev pub done : Job
done = record waiting {
  id = "j4";
  idempotency_key = "k4";
  status = completed;
  progress = 100;
  attempt_count = 1;
  completed_at = some 40;
}

abbrev pub recognising : Job
recognising = record running { id = "j5"; idempotency_key = "k5"; status = transcribing }

abbrev pub call : AsrCall
call = record {
  id = "a1";
  job_id = "j5";
  provider_task_id = some "t1";
  status = CallStatus.running;
}

abbrev pub step : Step
step = record {
  id = "s1";
  job_id = "j3";
  name = "download";
  attempt = 1;
  status = StepStatus.running;
  started_at = 30;
  completed_at = none;
  details = "{}";
  error_code = none;
  error_message = none;
}

abbrev pub tables : Db
tables = record {
  jobs = later ∷ waiting ∷ running ∷ done ∷ recognising ∷ [];
  steps = step ∷ [];
  files = [];
  asr_calls = call ∷ [];
}

later-IsSound : IsSound later
later-IsSound = record {
  progress_bound = ground arith;
  attempts_bound = ground arith;
  lease_processing = λ h. ground arith;
  lease_ends = λ h. ground arith;
  finished = refl;
  full = λ h. ground arith;
  due = λ h. ground arith;
  reported = λ h. ground arith;
}

waiting-IsSound : IsSound waiting
waiting-IsSound = record {
  progress_bound = ground arith;
  attempts_bound = ground arith;
  lease_processing = λ h. ground arith;
  lease_ends = λ h. ground arith;
  finished = refl;
  full = λ h. ground arith;
  due = λ h. ground arith;
  reported = λ h. ground arith;
}

running-IsSound : IsSound running
running-IsSound = record {
  progress_bound = ground arith;
  attempts_bound = ground arith;
  lease_processing = λ h. ground arith;
  lease_ends = λ h. ground arith;
  finished = refl;
  full = λ h. ground arith;
  due = λ h. ground arith;
  reported = λ h. ground arith;
}

done-IsSound : IsSound done
done-IsSound = record {
  progress_bound = ground arith;
  attempts_bound = ground arith;
  lease_processing = λ h. ground arith;
  lease_ends = λ h. ground arith;
  finished = refl;
  full = λ h. ground arith;
  due = λ h. ground arith;
  reported = λ h. ground arith;
}

recognising-IsSound : IsSound recognising
recognising-IsSound = record {
  progress_bound = ground arith;
  attempts_bound = ground arith;
  lease_processing = λ h. ground arith;
  lease_ends = λ h. ground arith;
  finished = refl;
  full = λ h. ground arith;
  due = λ h. ground arith;
  reported = λ h. ground arith;
}

pub tables-IsSound : IsSoundDb tables
tables-IsSound = record {
  rows = (
    later-IsSound,
    (waiting-IsSound, (running-IsSound, (done-IsSound, (recognising-IsSound, tt)))),
  );
  ids = (
    (refl, (refl, (refl, (refl, tt)))),
    ((refl, (refl, (refl, tt))), ((refl, (refl, tt)), ((refl, tt), (tt, tt)))),
  );
  keys = (
    (refl, (refl, (refl, (refl, tt)))),
    ((refl, (refl, (refl, tt))), ((refl, (refl, tt)), ((refl, tt), (tt, tt)))),
  );
}
