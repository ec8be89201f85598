-- ===== src/Jobs/Worker.antt =====
-- services/api_go/internal/jobs/worker.go: what a worker does with a job that failed, and asr's
-- RetryAfter. The message of the error is an argument.
pub mod Failed
pub mod Run
pub mod Names
pub mod Files
pub mod Note
pub mod Process
pub mod Keeps
pub mod Guarantees
pub mod Alone
pub mod Stranded
use luxury_video_tool.Base.{
  ℕ, ◌+◌, ◌-◌, ◌*◌, ◌^◌, String, Bool, true, false, ◌&&◌, ◌||◌, if◌then◌else◌, ltb, leb, ◌==◌, min,
}
use luxury_video_tool.Jobs.Model.{Job, Db, Result}
use luxury_video_tool.Jobs.Repository.Worker.{cancel_owned, fail, retry_later}
use luxury_video_tool.Jobs.Repository.Recovery.{recover, fail_exhausted_queued}

-- The sentinel errors that errors.Is is asked for.
pub data Sentinel : Type 0 where
  canceled : Sentinel
  asr_auth asr_rate_limited asr_budget_exceeded asr_failed asr_input_rejected : Sentinel
  ffmpeg too_large download : Sentinel
  url_not_allowed work_unavailable video_required resolve_failed invalid_share_link : Sentinel

-- A Go error: errors.Is on it, and the milliseconds that a rate limit asks to wait, 0 if none.
pub record Cause : Type 0 where
  pub matches : Sentinel → Bool
  pub after : ℕ

-- asr.RetryAfter, in milliseconds.
unfoldable pub retry_after : Cause → ℕ → ℕ
retry_after cause attempt =
    if ltb 0 cause.after
    then cause.after
    else if cause.matches asr_rate_limited
    then 30 * 2 ^ min attempt 2 * 1000
    else 0

unfoldable pub retry_delay : Cause → ℕ → ℕ → ℕ
unfolding retry_after
retry_delay cause attempts jitter =
    let delay : ℕ = retry_after cause (attempts - 1) in
    if delay == 0 then 2 ^ min attempts 6 * 1000 + jitter else delay

-- The code of mediaError.
unfoldable pub media_code : Cause → String
media_code cause =
    if cause.matches asr_auth
    then "ASR_AUTH_FAILED"
    else if cause.matches asr_rate_limited
    then "ASR_RATE_LIMITED"
    else if cause.matches asr_budget_exceeded
    then "ASR_BUDGET_EXCEEDED"
    else if cause.matches asr_failed
    then "ASR_FAILED"
    else if cause.matches ffmpeg
    then "FFMPEG_FAILED"
    else if cause.matches too_large
    then "MEDIA_TOO_LARGE"
    else if cause.matches url_not_allowed
    then "URL_NOT_ALLOWED"
    else if cause.matches work_unavailable
    then "DOUYIN_WORK_UNAVAILABLE"
    else if cause.matches video_required
    then "VIDEO_REQUIRED"
    else if cause.matches resolve_failed || cause.matches invalid_share_link
    then "DOUYIN_RESOLVE_FAILED"
    else if cause.matches download
    then "MEDIA_DOWNLOAD_FAILED"
    else "MEDIA_PROCESSING_FAILED"

-- No retry can help.
unfoldable pub is_final : Cause → ℕ → Bool
is_final cause attempts =
    cause.matches asr_auth
    || cause.matches asr_budget_exceeded
    || cause.matches asr_input_rejected
    || cause.matches invalid_share_link
    || cause.matches work_unavailable
    || cause.matches video_required
    || cause.matches too_large
    || (cause.matches ffmpeg && leb 2 attempts)

-- `job` is the row as it was claimed, `random` the jitter, and the clock is read twice.
unfoldable pub failed_with : Job → String → String → Cause → ℕ → ℕ → ℕ → Db → Db × Result (Unit {0})
unfolding cancel_owned fail retry_later is_final retry_delay media_code
failed_with job owner message cause random now at db =
    if cause.matches canceled
    then cancel_owned job.id owner "任务已取消" now db
    else if is_final cause job.attempt_count
    then fail job.id (media_code cause) message now db
    else retry_later job.id owner (media_code cause) message
        (now + retry_delay cause job.attempt_count random) at db

-- Run, before the loops start.
unfoldable pub start_worker : ℕ → ℕ → Db → Db
unfolding recover fail_exhausted_queued
start_worker now at db = (fail_exhausted_queued at (recover now db).0).0

-- NewWorker: the number of loops.
unfoldable pub concurrency : ℕ → ℕ
concurrency asked = if ltb asked 1 then 1 else if ltb 2 asked then 2 else asked
