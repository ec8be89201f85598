-- ===== src/Jobs/Lifecycle/Edges.antt =====
-- How a status may change, and the edges that the SET clauses follow.
use luxury_video_tool.Base.{
  ℕ, ◌≡◌, ◌≢◌, String, none, some, true, false, ◌&&◌, List, arith, Bool-cases, inl, inr, ◌⊎◌,
}
use luxury_video_tool.Sql.{find}
use luxury_video_tool.Jobs.Model.{
  Job, Db, Status, queued, resolving, retry_wait, completed, failed, cancelled, AsrCall,
  is_transcribing, is_processing, is_waiting, is_terminal,
}
use luxury_video_tool.Jobs.Repository.{has_id, is_leased_by, is_exhausted}
use luxury_video_tool.Jobs.Repository.Worker
use luxury_video_tool.Jobs.Repository.Recovery
use luxury_video_tool.Jobs.Lifecycle.{IsSound}
use luxury_video_tool.Jobs.Recovery.{recover_row, recover_row_parts}

-- The edges of the life cycle.
infix 40 ◌⟶◌
pub data ◌⟶◌ : Status → Status → Type 0 where
  stay : {s : Status} → s ⟶ s
  -- ClaimNext
  claimed : {s : Status} → is_waiting s ≡ true → s ⟶ resolving
  -- SetResolved, SetStage
  advance : {s t : Status} → is_processing s ≡ true → is_processing t ≡ true → s ⟶ t
  -- CompleteInfo, CompleteDownload, CompleteTranscription
  finish : {s : Status} → is_processing s ≡ true → s ⟶ completed
  -- RetryLater, Recover
  postpone : {s : Status} → is_processing s ≡ true → s ⟶ retry_wait
  requeue : {s : Status} → is_processing s ≡ true → s ⟶ queued
  -- CancelOwned, Cancel
  stop : {s : Status} → is_terminal s ≡ false → s ⟶ cancelled
  -- RetryLater, Recover, FailExhaustedQueued
  give_up : {s : Status} → is_terminal s ≡ false → s ⟶ failed
  -- Retry
  again : {s : Status} → is_terminal s ≡ true → s ≢ completed → s ⟶ queued
  -- Fail, which asks nothing of the status
  overrule : {s : Status} → s ⟶ failed

-- The job is gone, or its status went along an edge.
abbrev pub Moved : String → Job → Db → Type 0
Moved job_id r db =
    (find (has_id job_id) db.jobs ≡ none)
    ⊎ ((r' : Job) × (find (has_id job_id) db.jobs ≡ some r') × (r.status ⟶ r'.status))

pub leased-processing :
    (job_id owner : String) (r : Job)
    → IsSound r
    → is_leased_by job_id owner r ≡ true
    → is_processing r.status ≡ true
leased-processing job_id owner r v h = ground arith

pub processing-open : (s : Status) → is_processing s ≡ true → is_terminal s ≡ false
processing-open s h = ground arith

pub retry_later-edge :
    (code message : String) (retry_at at : ℕ) (r : Job)
    → is_processing r.status ≡ true
    → r.status ⟶ (Worker.set_retry_later code message retry_at at r).status
unfolding Worker.set_retry_later
retry_later-edge code message retry_at at r h = elim (Bool-cases (is_exhausted r)) [
  | inl e ↦ rw e (give_up (processing-open r.status h))
  | inr e ↦ rw e (postpone h)
]

pub recovered-edge :
    (now : ℕ) (r : Job)
    → Recovery.is_expired now r ≡ true
    → r.status ⟶ (Recovery.set_recovered now r).status
unfolding Recovery.is_expired Recovery.set_recovered
recovered-edge now r h =
    let active : is_processing r.status ≡ true = ground arith in
    elim (Bool-cases (is_exhausted r)) [
      | inl e ↦ rw e (give_up (processing-open r.status active))
      | inr e ↦ rw e (requeue active)
    ]

pub expired-processing :
    (now : ℕ) (r : Job) → Recovery.is_expired now r ≡ true → is_processing r.status ≡ true
unfolding Recovery.is_expired
expired-processing now r e = ground arith

pub info-processing :
    (id : String) (r : Job) → Worker.can_complete_info id r ≡ true → is_processing r.status ≡ true
unfolding Worker.can_complete_info
info-processing id r h = ground arith

pub resolve-processing :
    (id owner : String) (r : Job)
    → Worker.can_resolve id owner r ≡ true
    → is_processing r.status ≡ true
unfolding Worker.can_resolve
resolve-processing id owner r h = ground arith

pub download-processing :
    (id owner : String) (r : Job)
    → Worker.can_complete_download id owner r ≡ true
    → is_processing r.status ≡ true
unfolding Worker.can_complete_download
download-processing id owner r h = ground arith

pub transcription-processing :
    (id owner : String) (r : Job)
    → Worker.can_complete_transcription id owner r ≡ true
    → is_processing r.status ≡ true
unfolding Worker.can_complete_transcription
transcription-processing id owner r h = ground arith

pub stuck-open : (r : Job) → Recovery.is_stuck r ≡ true → is_terminal r.status ≡ false
unfolding Recovery.is_stuck
stuck-open r h = ground arith

pub recover_row-edge :
    (calls : List AsrCall) (now : ℕ) (r : Job) → r.status ⟶ (recover_row calls now r).status
unfolding Recovery.set_review
recover_row-edge calls now r =
    rw (← recover_row_parts calls now r) (elim (Bool-cases (Recovery.is_expired now r)) [
      | inr e ↦ rw e stay
      | inl e ↦
          rw e (elim (Bool-cases (is_transcribing r.status && Recovery.has_open_call calls r)) [
            | inl f ↦ rw f (give_up (processing-open r.status (expired-processing now r e)))
            | inr f ↦ rw f (recovered-edge now r e)
          ])
    ])
