-- ===== src/Jobs/Lifecycle/Steps/Kept.antt =====
-- Every call of the repository keeps the table of jobs sound.
use luxury_video_tool.Base.{◌≡◌, refl, String, true, false, List, [], ◌∷◌, All-map, arith}
use luxury_video_tool.Jobs.Model.{Job, Db}
use luxury_video_tool.Jobs.Repository.{has_id}
use luxury_video_tool.Jobs.Repository.Select.{create_info, create_queued}
use luxury_video_tool.Jobs.Repository.Worker.{
  complete_info, can_complete_info, fail, heartbeat, set_resolved, complete_download,
  complete_transcription, retry_later, cancel_owned,
}
use luxury_video_tool.Jobs.Repository.Recovery.{fail_exhausted_queued}
use luxury_video_tool.Jobs.Lifecycle.Rows.{
  complete_info-IsSound, fail-IsSound, heartbeat-IsSound, resolved-IsSound, completed-IsSound,
  transcribed-IsSound, retry_later-IsSound, cancel_owned-IsSound, exhausted-IsSound,
}
use luxury_video_tool.Jobs.Lifecycle.Steps.{
  Call, creates_info, creates_queued, completes_info, fails, heartbeats, resolves, stages,
  completes_download, completes_transcription, retries_later, cancels_owned, cancels, retries,
  deletes, claims, recovers, fails_exhausted, perform, perform_all, IsAllowed, AllAllowed,
  IsSoundDb,
}
use luxury_video_tool.Jobs.Lifecycle.Steps.Tables.{
  every-IsSoundDb, update-IsSoundDb, create-IsSoundDb,
}
use luxury_video_tool.Jobs.Lifecycle.Steps.Statements.{
  claim-IsSoundDb, set_stage-IsSoundDb, cancel-IsSoundDb, retry-IsSoundDb, delete_job-IsSoundDb,
  recover-IsSoundDb,
}

can_complete_info-has_id :
    (job_id : String) (r : Job) → can_complete_info job_id r ≡ true → has_id job_id r ≡ true
unfolding can_complete_info
can_complete_info-has_id job_id r g = ground arith

-- On a sound job table, one call that the program makes, allowed in that state, keeps every row
-- sound and the ids and idempotency keys unique.
pub perform-IsSoundDb :
    (c : Call) (db : Db) → IsAllowed c db → IsSoundDb db → IsSoundDb (perform c db)
unfolding perform create_info create_queued complete_info fail heartbeat set_resolved
    complete_download complete_transcription retry_later cancel_owned fail_exhausted_queued
perform-IsSoundDb (creates_info job) db a v = create-IsSoundDb true job db (rw a refl) (λ e. cc) v
perform-IsSoundDb (creates_queued job) db a v =
    create-IsSoundDb false job db (rw a refl) (λ e. cc) v
perform-IsSoundDb (completes_info job_id work_id at) db a v =
    update-IsSoundDb _ _ db (λ r. (refl, refl, refl))
      (All-map _ _
        (λ r free s g.
          complete_info-IsSound job_id work_id at r (free (can_complete_info-has_id job_id r g)) s
            g)
        db.jobs a)
      v
perform-IsSoundDb (fails job_id code message at) db a v =
    every-IsSoundDb _ _ db (λ r. (refl, refl, refl)) (λ r s g. fail-IsSound code message at r s) v
perform-IsSoundDb (heartbeats job_id owner now lease) db a v =
    every-IsSoundDb _ _ db (λ r. (refl, refl, refl)) (heartbeat-IsSound job_id owner now lease) v
perform-IsSoundDb (resolves job_id owner work_id at) db a v =
    every-IsSoundDb _ _ db (λ r. (refl, refl, refl)) (resolved-IsSound job_id owner work_id at) v
perform-IsSoundDb (stages job_id owner status progress message at) db a v =
    set_stage-IsSoundDb job_id owner status progress message at db a v
perform-IsSoundDb (completes_download job_id owner at) db a v =
    every-IsSoundDb _ _ db (λ r. (refl, refl, refl)) (λ r s g. completed-IsSound _ at r s) v
perform-IsSoundDb (completes_transcription job_id owner result message at) db a v =
    every-IsSoundDb _ _ db (λ r. (refl, refl, refl))
      (λ r s g. transcribed-IsSound result message at r s) v
perform-IsSoundDb (retries_later job_id owner code message retry_at at) db a v =
    every-IsSoundDb _ _ db (λ r. (refl, refl, refl))
      (λ r s g. retry_later-IsSound code message retry_at at r s) v
perform-IsSoundDb (cancels_owned job_id owner message at) db a v =
    every-IsSoundDb _ _ db (λ r. (refl, refl, refl)) (λ r s g. cancel_owned-IsSound message at r s)
      v
perform-IsSoundDb (cancels user_id job_id at) db a v = cancel-IsSoundDb user_id job_id at db v
perform-IsSoundDb (retries user_id job_id at) db a v = retry-IsSoundDb user_id job_id at db v
perform-IsSoundDb (deletes user_id job_id) db a v = delete_job-IsSoundDb user_id job_id db v
perform-IsSoundDb (claims owner now lease) db a v = claim-IsSoundDb owner now lease db v
perform-IsSoundDb (recovers now) db a v = recover-IsSoundDb now db v
perform-IsSoundDb (fails_exhausted at) db a v =
    every-IsSoundDb _ _ db (λ r. (refl, refl, refl)) (λ r s g. exhausted-IsSound at r s g) v

-- From a sound job table, any sequence of calls that the program makes, each allowed in the state
-- that it meets, leads to a sound job table: every row keeps its progress, attempt, lease,
-- completion and error columns consistent, and the ids and idempotency keys stay unique.
pub perform_all-IsSoundDb :
    (cs : List Call) (db : Db) → AllAllowed cs db → IsSoundDb db → IsSoundDb (perform_all cs db)
unfolding perform_all
perform_all-IsSoundDb [] db a v = v
perform_all-IsSoundDb (c ∷ cs) db a v =
    perform_all-IsSoundDb cs (perform c db) a.1 (perform-IsSoundDb c db a.0 v)
