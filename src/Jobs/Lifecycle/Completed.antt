-- ===== src/Jobs/Lifecycle/Completed.antt =====
-- A completed job: no call touches it but Fail and Delete at its own id.
use luxury_video_tool.Base.{
  ℕ, ◌≡◌, refl, String, some, Bool, true, false, ◌&&◌, ltb, ◌==◌, arith, Bool-cases, Option-cases,
  inl, inr,
}
use luxury_video_tool.Sql.{update, find, affected}
use luxury_video_tool.Sql.Laws.{find-update, find-map, find-All, find_sat}
use luxury_video_tool.Sql.Keys.{find-append_left, find-delete_kept}
use luxury_video_tool.Jobs.Model.{Job, Db, Status, completed}
use luxury_video_tool.Jobs.Repository.{exec, has_id, is_leased_by, is_owned_by}
use luxury_video_tool.Jobs.Repository.Select.{create, create_info, create_queued, is_refused}
use luxury_video_tool.Jobs.Repository.Worker
use luxury_video_tool.Jobs.Repository.User
use luxury_video_tool.Jobs.Repository.Claim
use luxury_video_tool.Jobs.Repository.Recovery
use luxury_video_tool.Jobs.Recovery.{recover_row, recover-row, recover_row-has_id}
use luxury_video_tool.Jobs.Lifecycle.{IsSound}
use luxury_video_tool.Jobs.Lifecycle.Steps.{
  Call, creates_info, creates_queued, completes_info, fails, heartbeats, resolves, stages,
  completes_download, completes_transcription, retries_later, cancels_owned, cancels, retries,
  deletes, claims, recovers, fails_exhausted, perform, IsSoundDb,
}

-- The call is no Fail and no Delete of this job.
abbrev pub Spares : Call → Job → Type 0
Spares (fails job_id code message at) r = has_id job_id r ≡ false
Spares (deletes user_id job_id) r = is_owned_by user_id job_id r ≡ false
Spares _ r = Unit

module _ (job_id : String) (db : Db) {r : Job} (there : find (has_id job_id) db.jobs ≡ some r) where
  abbrev Kept : Db → Type 0
  Kept db' = find (has_id job_id) db'.jobs ≡ some r

  update_missed :
      (p : Job → Bool) (f : Job → Job)
      → ((x : Job) → (f x).id ≡ x.id)
      → p r ≡ false
      → Kept (record db { jobs = update p f db.jobs })
  update_missed p f kept e =
      rw (find-update (has_id job_id) p f (λ x. rw (kept x)) db.jobs, there, e)

module _ (job_id : String) (db : Db) (v : IsSoundDb db) {r : Job}
    (there : find (has_id job_id) db.jobs ≡ some r) (done : r.status ≡ completed) where
  sound : IsSound r
  sound = find-All IsSound (has_id job_id) db.jobs v.rows there

  unleased : (id owner : String) → is_leased_by id owner r ≡ false
  unleased id owner = ground (arith, sound)

  created-Kept :
      (started : Bool) (job : Job) → find (has_id job_id) (create started job db).0.jobs ≡ some r
  unfolding create
  created-Kept started job = elim (Bool-cases (is_refused job db.jobs)) [
    | inl e ↦ rw e there
    | inr e ↦ rw e (find-append_left (has_id job_id) db.jobs _ r there)
  ]

  staged-Kept :
      (id owner : String) (status : Status) (progress : ℕ) (message : String) (at : ℕ)
      → find (has_id job_id) (Worker.set_stage id owner status progress message at db).0.jobs
        ≡ some r
  unfolding Worker.set_stage exec Worker.set_stage_row
  staged-Kept id owner status progress message at =
      elim (Bool-cases (ltb 100 progress && ltb 0 (affected (is_leased_by id owner) db.jobs))) [
        | inl e ↦ rw e there
        | inr e ↦ rw e (
            update_missed job_id db there (is_leased_by id owner)
              (Worker.set_stage_row status progress message at) (λ x. refl) (unleased id owner))
      ]

  cancelled-Kept :
      (user_id id : String) (at : ℕ)
      → find (has_id job_id) (User.cancel user_id id at db).0.jobs ≡ some r
  unfolding User.cancel User.can_cancel User.set_cancel
  cancelled-Kept user_id id at =
      let missed =
        update_missed job_id db there (User.can_cancel user_id id) (User.set_cancel at) (λ x. refl)
          (ground arith) in
      ground (arith, missed)

  retried-Kept :
      (user_id id : String) (at : ℕ)
      → find (has_id job_id) (User.retry user_id id at db).0.jobs ≡ some r
  unfolding User.retry User.can_retry User.set_retry
  retried-Kept user_id id at =
      let missed =
        update_missed job_id db there (User.can_retry user_id id) (User.set_retry at) (λ x. refl)
          (ground arith) in
      ground (arith, missed)

  deleted-Kept :
      (user_id id : String)
      → is_owned_by user_id id r ≡ false
      → find (has_id job_id) (User.delete_job user_id id db).0.jobs ≡ some r
  unfolding User.delete_job
  deleted-Kept user_id id other =
      elim (Bool-cases (affected (is_owned_by user_id id) db.jobs == 0)) [
        | inl e ↦ rw e there
        | inr e ↦ rw e (find-delete_kept (has_id job_id) _ db.jobs r there other)
      ]

  claimed-Kept :
      (owner : String) (now lease : ℕ)
      → find (has_id job_id) (Claim.claim_next owner now lease db).0.jobs ≡ some r
  unfolding Claim.claim Claim.can_claim Claim.set_claim Claim.claim_next
  claimed-Kept owner now lease = elim (Option-cases (Claim.oldest_due now db.jobs)) [
    | inl e ↦ rw (e, Claim.claim_next) there
    | inr (c, e) ↦
        rw (e, Claim.claim_next)
          (update_missed job_id db there (Claim.can_claim c.id) (Claim.set_claim owner now lease)
            (λ x. refl) (ground arith))
  ]

  recovered-Kept : (now : ℕ) → find (has_id job_id) (Recovery.recover now db).0.jobs ≡ some r
  recovered-Kept now = rw (recover-row now db) (
      rw
        (
          find-map (has_id job_id) (recover_row db.asr_calls now)
              (recover_row-has_id db.asr_calls now job_id) db.jobs,
          there,
        )
        (unfold Recovery.is_expired in ground arith))

-- In a sound job table, a completed job stays exactly as it is under every call but a Fail or a
-- Delete of that very job.
pub completed-Kept :
    (c : Call) (job_id : String) (db : Db) {r : Job}
    → IsSoundDb db
    → find (has_id job_id) db.jobs ≡ some r
    → r.status ≡ completed
    → Spares c r
    → find (has_id job_id) (perform c db).jobs ≡ some r
unfolding perform create_info create_queued Worker.complete_info Worker.can_complete_info
    Worker.set_complete_info exec Worker.fail Worker.set_fail Worker.heartbeat Worker.can_heartbeat
    Worker.set_heartbeat Worker.set_resolved Worker.can_resolve Worker.set_resolved_row
    Worker.complete_download Worker.can_complete_download Worker.set_completed
    Worker.complete_transcription Worker.can_complete_transcription Worker.set_transcribed
    Worker.retry_later Worker.set_retry_later Worker.cancel_owned Worker.set_cancel_owned
    Recovery.fail_exhausted_queued Recovery.is_stuck Recovery.set_exhausted
completed-Kept (creates_info job) job_id db v there done s =
    created-Kept job_id db v there done true job
completed-Kept (creates_queued job) job_id db v there done s =
    created-Kept job_id db v there done false job
completed-Kept (completes_info id work_id at) job_id db v there done s =
    update_missed job_id db there (Worker.can_complete_info id)
      (Worker.set_complete_info work_id at) (λ x. refl) (ground arith)
completed-Kept (fails id code message at) job_id db v there done s =
    update_missed job_id db there (has_id id) (Worker.set_fail code message at) (λ x. refl) s
completed-Kept (heartbeats id owner now lease) job_id db v there done s =
    update_missed job_id db there (Worker.can_heartbeat id owner) (Worker.set_heartbeat now lease)
      (λ x. refl) (ground arith)
completed-Kept (resolves id owner work_id at) job_id db v there done s =
    update_missed job_id db there (Worker.can_resolve id owner) (Worker.set_resolved_row work_id at)
      (λ x. refl) (ground arith)
completed-Kept (stages id owner status progress message at) job_id db v there done s =
    staged-Kept job_id db v there done id owner status progress message at
completed-Kept (completes_download id owner at) job_id db v there done s =
    update_missed job_id db there (Worker.can_complete_download id owner)
      (Worker.set_completed _ at) (λ x. refl) (ground arith)
completed-Kept (completes_transcription id owner result message at) job_id db v there done s =
    update_missed job_id db there (Worker.can_complete_transcription id owner)
      (Worker.set_transcribed result message at) (λ x. refl) (ground arith)
completed-Kept (retries_later id owner code message retry_at at) job_id db v there done s =
    update_missed job_id db there (is_leased_by id owner)
      (Worker.set_retry_later code message retry_at at) (λ x. refl)
      (unleased job_id db v there done id owner)
completed-Kept (cancels_owned id owner message at) job_id db v there done s =
    update_missed job_id db there (is_leased_by id owner) (Worker.set_cancel_owned message at)
      (λ x. refl) (unleased job_id db v there done id owner)
completed-Kept (cancels user_id id at) job_id db v there done s =
    cancelled-Kept job_id db v there done user_id id at
completed-Kept (retries user_id id at) job_id db v there done s =
    retried-Kept job_id db v there done user_id id at
completed-Kept (deletes user_id id) job_id db v there done s =
    deleted-Kept job_id db v there done user_id id s
completed-Kept (claims owner now lease) job_id db v there done s =
    claimed-Kept job_id db v there done owner now lease
completed-Kept (recovers now) job_id db v there done s = recovered-Kept job_id db v there done now
completed-Kept (fails_exhausted at) job_id db v there done s =
    update_missed job_id db there Recovery.is_stuck (Recovery.set_exhausted at) (λ x. refl)
      (ground arith)

-- Fail asks for no lease and no status: the job that has the id, whatever its state, fails and
-- loses its lease.
pub fail_overrules :
    (job_id code message : String) (at : ℕ) (db : Db) {r : Job}
    → find (has_id job_id) db.jobs ≡ some r
    → find (has_id job_id) (Worker.fail job_id code message at db).0.jobs
      ≡ some (Worker.set_fail code message at r)
unfolding Worker.fail exec
fail_overrules job_id code message at db there = rw (
  find-update (has_id job_id) (has_id job_id) (Worker.set_fail code message at)
      (λ x. unfold Worker.set_fail in refl) db.jobs,
  there,
  find_sat (has_id job_id) db.jobs there,
)
