-- ===== src/Jobs/Lifecycle/Rows.antt =====
-- Each SET clause keeps a sound row sound, where its WHERE clause holds.
use luxury_video_tool.Base.{ℕ, ◌+◌, ◌≤◌, ◌≡◌, ◌≢◌, ◌||◌, String, none, Bool, true, arith}
use luxury_video_tool.Jobs.Model.{Job, Status, retry_wait, is_processing, is_waiting}
use luxury_video_tool.Jobs.Repository.{is_leased_by}
use luxury_video_tool.Jobs.Repository.Select.{set_created}
use luxury_video_tool.Jobs.Repository.Worker.{
  can_complete_info, set_complete_info, set_fail, can_heartbeat, set_heartbeat, can_resolve,
  set_resolved_row, set_stage_row, set_completed, set_transcribed, set_retry_later,
  set_cancel_owned,
}
use luxury_video_tool.Jobs.Repository.User.{set_cancel, can_retry, set_retry}
use luxury_video_tool.Jobs.Repository.Claim.{set_claim}
use luxury_video_tool.Jobs.Repository.Recovery.{set_review, set_recovered, is_stuck, set_exhausted}
use luxury_video_tool.Jobs.Lifecycle.{IsSound}

pub complete_info-IsSound :
    (job_id work_id : String) (at : ℕ) (r : Job)
    → r.lease_owner ≡ none
    → IsSound r
    → can_complete_info job_id r ≡ true
    → IsSound (set_complete_info work_id at r)
unfolding can_complete_info set_complete_info
complete_info-IsSound job_id work_id at r free v g = ground arith

pub fail-IsSound :
    (code message : String) (at : ℕ) (r : Job) → IsSound r → IsSound (set_fail code message at r)
unfolding set_fail
fail-IsSound code message at r v = ground arith

pub heartbeat-IsSound :
    (job_id owner : String) (now lease : ℕ) (r : Job)
    → IsSound r
    → can_heartbeat job_id owner r ≡ true
    → IsSound (set_heartbeat now lease r)
unfolding can_heartbeat set_heartbeat
heartbeat-IsSound job_id owner now lease r v g = ground arith

pub resolved-IsSound :
    (job_id owner work_id : String) (at : ℕ) (r : Job)
    → IsSound r
    → can_resolve job_id owner r ≡ true
    → IsSound (set_resolved_row work_id at r)
unfolding can_resolve set_resolved_row
resolved-IsSound job_id owner work_id at r v g = ground arith

pub stage-IsSound :
    (job_id owner : String) (status : Status) (progress : ℕ) (message : String) (at : ℕ) (r : Job)
    → is_processing status ≡ true
    → progress ≤ 100
    → IsSound r
    → is_leased_by job_id owner r ≡ true
    → IsSound (set_stage_row status progress message at r)
unfolding set_stage_row
stage-IsSound job_id owner status progress message at r s p v g = ground arith

pub completed-IsSound :
    (message : String) (at : ℕ) (r : Job) → IsSound r → IsSound (set_completed message at r)
unfolding set_completed
completed-IsSound message at r v = ground arith

pub transcribed-IsSound :
    (result message : String) (at : ℕ) (r : Job)
    → IsSound r
    → IsSound (set_transcribed result message at r)
unfolding set_transcribed
transcribed-IsSound result message at r v = ground arith

pub retry_later-IsSound :
    (code message : String) (retry_at at : ℕ) (r : Job)
    → IsSound r
    → IsSound (set_retry_later code message retry_at at r)
unfolding set_retry_later
retry_later-IsSound code message retry_at at r v = ground arith

pub cancel_owned-IsSound :
    (message : String) (at : ℕ) (r : Job) → IsSound r → IsSound (set_cancel_owned message at r)
unfolding set_cancel_owned
cancel_owned-IsSound message at r v = ground arith

pub cancel-IsSound : (at : ℕ) (r : Job) → IsSound r → IsSound (set_cancel at r)
unfolding set_cancel
cancel-IsSound at r v = ground arith

pub retry-IsSound :
    (user_id job_id : String) (at : ℕ) (r : Job)
    → IsSound r
    → can_retry user_id job_id r ≡ true
    → IsSound (set_retry at r)
unfolding can_retry set_retry
retry-IsSound user_id job_id at r v g = ground arith

pub claim-IsSound :
    (owner : String) (now lease : ℕ) (r : Job)
    → r.attempt_count + 1 ≤ r.max_attempts
    → is_waiting r.status ≡ true
    → IsSound r
    → IsSound (set_claim owner now lease r)
unfolding set_claim
claim-IsSound owner now lease r a w v = ground arith

pub review-IsSound : (now : ℕ) (r : Job) → IsSound r → IsSound (set_review now r)
unfolding set_review
review-IsSound now r v = ground arith

pub recovered-IsSound : (now : ℕ) (r : Job) → IsSound r → IsSound (set_recovered now r)
unfolding set_recovered
recovered-IsSound now r v = ground arith

pub exhausted-IsSound :
    (at : ℕ) (r : Job) → IsSound r → is_stuck r ≡ true → IsSound (set_exhausted at r)
unfolding set_exhausted is_stuck
exhausted-IsSound at r v g = ground arith

-- The rows that CreateInfo and CreateDownload insert.
pub created-IsSound :
    (started : Bool) (job : Job)
    → job.progress ≤ 100
    → is_waiting job.status || is_processing job.status ≡ true
    → job.status ≢ retry_wait
    → IsSound (set_created started job)
unfolding set_created
created-IsSound started job p s n = ground arith
