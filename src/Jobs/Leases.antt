-- ===== src/Jobs/Leases.antt =====
-- The statements of repository_sqlite.go that ask for the lease of a job, to a worker without it.
-- Fail, the steps and the file rows do not ask for a lease and are not among them.
pub mod Claims
use luxury_video_tool.Base.{
  ℕ, ◌+◌, ◌≤◌, ◌<◌, ◌≡◌, ◌≢◌, ◌⊎◌, eq_refl, refl, ◌∙◌, ap₂, String, Option, none, some, Bool, true,
  false, List, [], ◌∷◌, All, All-map, arith, text_is, not_after, Option-cases, Bool-cases, inl, inr,
  subst, ◌↔◌, if◌then◌else◌,
}
use luxury_video_tool.Sql.{update, affected, find, first, order_by}
use luxury_video_tool.Sql.Laws.{
  affected_none, update_unmatched, find-update, find_sat, select_nil, All-select_back, find-All,
}
use luxury_video_tool.Sql.Order.{first-order_by, first-order_by-none}
use luxury_video_tool.Sql.Keys.{Unique-only, find-none, select_unmatched}
use luxury_video_tool.Jobs.Model.{
  Job, Db, Status, Result, ok, err, not_found, lease_lost, queued, retry_wait, resolving, is_queued,
  is_waiting,
}
use luxury_video_tool.Jobs.Repository.{exec, has_id, is_leased_by}
use luxury_video_tool.Jobs.Repository.Worker.{
  heartbeat, can_heartbeat, set_resolved, can_resolve, set_stage, complete_download,
  can_complete_download, complete_transcription, can_complete_transcription, retry_later,
  cancel_owned, set_stage_row,
}
use luxury_video_tool.Jobs.Repository.Claim.{
  is_due, oldest_due, can_claim, set_claim, claim, claim_next,
}
use luxury_video_tool.Jobs.Lifecycle.Steps.{IsSoundDb, same_id}
use luxury_video_tool.Jobs.Lifecycle.Steps.Statements.{oldest_due-is_due, oldest_due_in}
use luxury_video_tool.Jobs.Lifecycle.Steps.Tables.{str_eq_comm}

-- The worker `owner` does not hold the job.
abbrev pub IsStale : String → String → Db → Type 0
IsStale job_id owner db =
    All (λ r. has_id job_id r ≡ true → text_is r.lease_owner owner ≡ false) db.jobs

exec_stale :
    (p : Job → Bool) (f : Job → Job) (job_id owner : String) (db : Db)
    → ((r : Job) → is_leased_by job_id owner r ≡ false → p r ≡ false)
    → IsStale job_id owner db
    → exec db p f lease_lost ≡ (db, err lease_lost)
unfolding exec
exec_stale p f job_id owner db implied stale =
    let none_matches : affected p db.jobs ≡ 0 =
      affected_none p db.jobs (All-map _ _ (λ r h. implied r (ground arith)) db.jobs stale) in
    rw (none_matches, update_unmatched p f db.jobs none_matches)

none_leased :
    (job_id owner : String) (db : Db)
    → IsStale job_id owner db
    → affected (is_leased_by job_id owner) db.jobs ≡ 0
none_leased job_id owner db stale =
    affected_none _ db.jobs (All-map _ _ (λ r h. ground arith) db.jobs stale)

set_stage_stale :
    (job_id owner : String) (status : Status) (progress : ℕ) (message : String) (at : ℕ) (db : Db)
    → IsStale job_id owner db
    → set_stage job_id owner status progress message at db ≡ (db, err lease_lost)
unfolding set_stage
set_stage_stale job_id owner status progress message at db stale =
    let kept =
      exec_stale (is_leased_by job_id owner) (set_stage_row status progress message at) job_id owner
        db (λ r h. h) stale in
    ground (arith, none_leased job_id owner db stale, kept)

-- Where a worker does not hold a job, the seven statements that ask for the lease, Heartbeat,
-- SetResolved, SetStage, CompleteDownload, CompleteTranscription, RetryLater and CancelOwned, report
-- a lost lease to it and leave the tables as they are.
pub stale_worker :
    (job_id owner : String) (db : Db)
    → IsStale job_id owner db
    → ((now lease : ℕ) → heartbeat job_id owner now lease db ≡ (db, err lease_lost))
      × ((work_id : String) (at : ℕ)
          → set_resolved job_id owner work_id at db ≡ (db, err lease_lost))
      × ((status : Status) (progress : ℕ) (message : String) (at : ℕ)
          → set_stage job_id owner status progress message at db ≡ (db, err lease_lost))
      × ((at : ℕ) → complete_download job_id owner at db ≡ (db, err lease_lost))
      × ((result message : String) (at : ℕ)
          → complete_transcription job_id owner result message at db ≡ (db, err lease_lost))
      × ((code message : String) (retry_at at : ℕ)
          → retry_later job_id owner code message retry_at at db ≡ (db, err lease_lost))
      × ((message : String) (at : ℕ)
          → cancel_owned job_id owner message at db ≡ (db, err lease_lost))
unfolding heartbeat set_resolved complete_download complete_transcription retry_later cancel_owned
stale_worker job_id owner db stale = (
  (λ now lease. exec_stale _ _ job_id owner db (λ r h. unfold can_heartbeat in ground arith) stale),
  (λ work_id at. exec_stale _ _ job_id owner db (λ r h. unfold can_resolve in ground arith) stale),
  (λ status progress message at. set_stage_stale job_id owner status progress message at db stale),
  (λ at.
      exec_stale _ _ job_id owner db (λ r h. unfold can_complete_download in ground arith) stale),
  (λ result message at.
      exec_stale _ _ job_id owner db (λ r h. unfold can_complete_transcription in ground arith)
        stale),
  (λ code message retry_at at. exec_stale _ _ job_id owner db (λ r h. h) stale),
  (λ message at. exec_stale _ _ job_id owner db (λ r h. h) stale),
)
