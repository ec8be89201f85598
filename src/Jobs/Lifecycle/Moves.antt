-- ===== src/Jobs/Lifecycle/Moves.antt =====
-- Every call leaves the status of a job along an edge of the life cycle.
pub mod Statements
use luxury_video_tool.Base.{
  ℕ, suc, ◌+◌, ◌≤◌, ◌≡◌, ◌≢◌, refl, sym, ◌∙◌, String, Option, none, some, Bool, true, false, ◌&&◌,
  ◌||◌, List, [], ◌∷◌, ◌++◌, str_eq, eq_iff, eq_refl, ltb, ◌==◌, All, All-map, arith, Bool-cases,
  Option-cases, inl, inr, ◌⊎◌, if◌then◌else◌,
}
use mathlib.Core.Option
use luxury_video_tool.Sql.{update, find, affected, exists}
use luxury_video_tool.Sql.Laws.{find-update, find_sat, find-All}
use luxury_video_tool.Sql.Keys.{find-append_left, find-delete_kept, find-delete_gone, Unique-only}
use luxury_video_tool.Jobs.Lifecycle.Steps.Tables.{str_eq_comm}
use luxury_video_tool.Jobs.Repository.Select.{create, create_info, create_queued, is_refused}
use luxury_video_tool.Jobs.Model.{
  Job, Db, Status, queued, resolving, downloading, extracting, transcribing, postprocessing,
  retry_wait, completed, failed, cancelled, AsrCall, is_transcribing, is_processing, is_waiting,
  is_terminal,
}
use luxury_video_tool.Jobs.Repository.{exec, has_id, is_leased_by, is_owned_by, is_exhausted}
use luxury_video_tool.Jobs.Repository.Worker
use luxury_video_tool.Jobs.Repository.User
use luxury_video_tool.Jobs.Repository.Claim
use luxury_video_tool.Jobs.Repository.Recovery
use luxury_video_tool.Jobs.Lifecycle.{IsSound}
use luxury_video_tool.Jobs.Recovery.{recover_row, recover-row, recover_row-has_id}
use luxury_video_tool.Sql.Laws.{find-map}
use luxury_video_tool.Jobs.Lifecycle.Steps.{
  Call, creates_info, creates_queued, completes_info, fails, heartbeats, resolves, stages,
  completes_download, completes_transcription, retries_later, cancels_owned, cancels, retries,
  deletes, claims, recovers, fails_exhausted, perform, IsAllowed, IsSoundDb, same_id,
}
use luxury_video_tool.Jobs.Lifecycle.Edges.{
  ◌⟶◌, stay, claimed, advance, finish, postpone, requeue, stop, give_up, again, overrule, Moved,
  leased-processing, processing-open, retry_later-edge, recovered-edge, expired-processing,
  recover_row-edge, info-processing, resolve-processing, download-processing,
  transcription-processing, stuck-open,
}
use luxury_video_tool.Jobs.Lifecycle.Moves.Statements.{
  unmoved, update-Moved, leased, created-Moved, deleted-Moved, recovered-Moved, staged-Moved,
  cancelled-Moved, retried-Moved, claimed-Moved,
}

-- On a sound job table, whatever allowed call is made, a job either leaves the table or its status
-- goes along an edge of the life cycle.
pub perform-Moved :
    (c : Call) (job_id : String) (db : Db) {r : Job}
    → IsAllowed c db
    → IsSoundDb db
    → find (has_id job_id) db.jobs ≡ some r
    → Moved job_id r (perform c db)
unfolding perform
perform-Moved (creates_info job) job_id db {r} a v there =
    unfold create_info in created-Moved job_id db v there true job
perform-Moved (creates_queued job) job_id db {r} a v there =
    unfold create_queued in created-Moved job_id db v there false job
perform-Moved (completes_info id work_id at) job_id db {r} a v there =
    unfold Worker.complete_info exec Worker.set_complete_info in
    update-Moved job_id db there (Worker.can_complete_info id) (Worker.set_complete_info work_id at)
      (λ x. refl) (λ h. finish (info-processing id r h))
perform-Moved (fails id code message at) job_id db {r} a v there =
    unfold Worker.fail exec Worker.set_fail in
    update-Moved job_id db there (has_id id) (Worker.set_fail code message at) (λ x. refl)
      (λ h. overrule)
perform-Moved (heartbeats id owner now lease) job_id db {r} a v there =
    unfold Worker.heartbeat exec Worker.set_heartbeat in
    update-Moved job_id db there (Worker.can_heartbeat id owner) (Worker.set_heartbeat now lease)
      (λ x. refl) (λ h. stay)
perform-Moved (resolves id owner work_id at) job_id db {r} a v there =
    unfold Worker.set_resolved exec Worker.set_resolved_row in
    update-Moved job_id db there (Worker.can_resolve id owner) (Worker.set_resolved_row work_id at)
      (λ x. refl) (λ h. advance (resolve-processing id owner r h) refl)
perform-Moved (stages id owner status progress message at) job_id db {r} a v there =
    staged-Moved job_id db v there id owner status progress message at a
perform-Moved (completes_download id owner at) job_id db {r} a v there =
    unfold Worker.complete_download exec Worker.set_completed in
    update-Moved job_id db there (Worker.can_complete_download id owner)
      (Worker.set_completed "媒体下载完成" at) (λ x. refl)
      (λ h. finish (download-processing id owner r h))
perform-Moved (completes_transcription id owner result message at) job_id db {r} a v there =
    unfold Worker.complete_transcription exec Worker.set_transcribed in
    update-Moved job_id db there (Worker.can_complete_transcription id owner)
      (Worker.set_transcribed result message at) (λ x. refl)
      (λ h. finish (transcription-processing id owner r h))
perform-Moved (retries_later id owner code message retry_at at) job_id db {r} a v there =
    unfold Worker.retry_later exec in
    update-Moved job_id db there (is_leased_by id owner)
      (Worker.set_retry_later code message retry_at at) (λ x. unfold Worker.set_retry_later in refl)
      (λ h. retry_later-edge code message retry_at at r (leased job_id db v there id owner h))
perform-Moved (cancels_owned id owner message at) job_id db {r} a v there =
    unfold Worker.cancel_owned exec Worker.set_cancel_owned in
    update-Moved job_id db there (is_leased_by id owner) (Worker.set_cancel_owned message at)
      (λ x. refl) (λ h. stop (processing-open r.status (leased job_id db v there id owner h)))
perform-Moved (cancels user_id id at) job_id db {r} a v there =
    cancelled-Moved job_id db v there user_id id at
perform-Moved (retries user_id id at) job_id db {r} a v there =
    retried-Moved job_id db v there user_id id at
perform-Moved (deletes user_id id) job_id db {r} a v there =
    deleted-Moved job_id db v there user_id id
perform-Moved (claims owner now lease) job_id db {r} a v there =
    claimed-Moved job_id db v there owner now lease
perform-Moved (recovers now) job_id db {r} a v there = recovered-Moved job_id db v there now
perform-Moved (fails_exhausted at) job_id db {r} a v there =
    unfold Recovery.fail_exhausted_queued Recovery.set_exhausted in
    update-Moved job_id db there Recovery.is_stuck (Recovery.set_exhausted at) (λ x. refl)
      (λ h. give_up (stuck-open r h))
