-- ===== src/Jobs/Lifecycle/Steps.antt =====
-- Every statement on the table jobs as a call, and the soundness of the table after any calls.
pub mod Tables
pub mod Statements
pub mod Kept
use luxury_video_tool.Base.{
  ℕ, ◌+◌, ◌≤◌, ◌≡◌, ◌≢◌, String, none, Bool, true, false, ◌&&◌, List, [], ◌∷◌, str_eq, All,
}
use luxury_video_tool.Sql.Keys.{Unique}
use luxury_video_tool.Jobs.Model.{Job, Db, Status, queued, resolving, is_processing}
use luxury_video_tool.Jobs.Repository.{has_id}
use luxury_video_tool.Jobs.Repository.Select.{create_info, create_queued}
use luxury_video_tool.Jobs.Repository.Worker.{
  complete_info, fail, heartbeat, set_resolved, set_stage, complete_download,
  complete_transcription, retry_later, cancel_owned,
}
use luxury_video_tool.Jobs.Repository.User.{cancel, retry, delete_job}
use luxury_video_tool.Jobs.Repository.Claim.{claim_next}
use luxury_video_tool.Jobs.Repository.Recovery.{recover, fail_exhausted_queued}
use luxury_video_tool.Jobs.Lifecycle.{IsSound}

-- The calls of the interface Repository that write the table jobs.
pub data Call : Type 0 where
  creates_info creates_queued : Job → Call
  completes_info : String → String → ℕ → Call
  fails : String → String → String → ℕ → Call
  heartbeats : String → String → ℕ → ℕ → Call
  resolves : String → String → String → ℕ → Call
  stages : String → String → Status → ℕ → String → ℕ → Call
  completes_download : String → String → ℕ → Call
  completes_transcription : String → String → String → String → ℕ → Call
  retries_later : String → String → String → String → ℕ → ℕ → Call
  cancels_owned : String → String → String → ℕ → Call
  cancels retries : String → String → ℕ → Call
  deletes : String → String → Call
  claims : String → ℕ → ℕ → Call
  recovers fails_exhausted : ℕ → Call

unfoldable pub perform : Call → Db → Db
perform (creates_info job) db = (create_info job db).0
perform (creates_queued job) db = (create_queued job db).0
perform (completes_info job_id work_id at) db = (complete_info job_id work_id at db).0
perform (fails job_id code message at) db = (fail job_id code message at db).0
perform (heartbeats job_id owner now lease) db = (heartbeat job_id owner now lease db).0
perform (resolves job_id owner work_id at) db = (set_resolved job_id owner work_id at db).0
perform (stages job_id owner status progress message at) db =
    (set_stage job_id owner status progress message at db).0
perform (completes_download job_id owner at) db = (complete_download job_id owner at db).0
perform (completes_transcription job_id owner result message at) db =
    (complete_transcription job_id owner result message at db).0
perform (retries_later job_id owner code message retry_at at) db =
    (retry_later job_id owner code message retry_at at db).0
perform (cancels_owned job_id owner message at) db = (cancel_owned job_id owner message at db).0
perform (cancels user_id job_id at) db = (cancel user_id job_id at db).0
perform (retries user_id job_id at) db = (retry user_id job_id at db).0
perform (deletes user_id job_id) db = (delete_job user_id job_id db).0
perform (claims owner now lease) db = (claim_next owner now lease db).0
perform (recovers now) db = (recover now db).0
perform (fails_exhausted at) db = (fail_exhausted_queued at db).0

-- How the program makes its calls: CreateInfo inserts jobs in `resolving`, CreateDownload in
-- `queued`; CompleteInfo goes to a job that no worker holds; SetStage names a stage in progress.
abbrev pub IsAllowed : Call → Db → Type 0
IsAllowed (creates_info job) db = job.status ≡ resolving
IsAllowed (creates_queued job) db = job.status ≡ queued
IsAllowed (completes_info job_id work_id at) db =
    All (λ r. has_id job_id r ≡ true → r.lease_owner ≡ none) db.jobs
IsAllowed (stages job_id owner status progress message at) db = is_processing status ≡ true
IsAllowed _ db = Unit

unfoldable pub perform_all : List Call → Db → Db
unfolding perform
perform_all [] db = db
perform_all (c ∷ cs) db = perform_all cs (perform c db)

-- Each call is allowed in the state that it meets.
abbrev pub AllAllowed : List Call → Db → Type 0
AllAllowed [] db = Unit
AllAllowed (c ∷ cs) db = IsAllowed c db × AllAllowed cs (perform c db)

abbrev pub same_id : Job → Job → Bool
same_id x y = str_eq x.id y.id

abbrev pub same_key : Job → Job → Bool
same_key x y = str_eq x.user_id y.user_id && str_eq x.idempotency_key y.idempotency_key

-- Every row is sound, and the PRIMARY KEY and UNIQUE constraints hold.
pub record IsSoundDb (db : Db) : Type 0 where
  pub rows : All IsSound db.jobs
  pub ids : Unique same_id db.jobs
  pub keys : Unique same_key db.jobs
