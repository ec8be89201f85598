-- ===== src/Jobs/Worker/Alone.antt =====
-- A worker's statements leave the rows of all other jobs alone.
use luxury_video_tool.Base.{
  ℕ, ◌≡◌, ◌≢◌, refl, sym, String, some, Bool, true, false, ◌&&◌, eq_iff, arith, Bool-cases, inl,
  inr, ◌∙◌, ltb,
}
use luxury_video_tool.Sql.{find, affected}
use luxury_video_tool.Sql.Laws.{find-update, find_sat}
use luxury_video_tool.Jobs.Model.{Job, Db, Status, Error}
use luxury_video_tool.Jobs.Repository.{exec, has_id, is_leased_by}
use luxury_video_tool.Jobs.Repository.Records.{
  delete_file_record, delete_files_by_job, delete_files_by_kind,
}
use luxury_video_tool.Jobs.Repository.Worker
use luxury_video_tool.Jobs.Worker.{Cause, canceled, is_final, failed_with}
use luxury_video_tool.Jobs.Worker.Guarantees.{begin_step-jobs, finish_step-jobs}
use luxury_video_tool.Jobs.Worker.Keeps.{
  begins, finishes, resolves, stages, completes, transcribes, fails, cancels, creates, drops,
  drops_all, drops_kind, marks, Guarantee,
}

-- The row of the job `other` is `r`.
abbrev pub HasRow : String → Job → Db → Type 0
HasRow other r db = find (has_id other) db.jobs ≡ some r

module _ (job : Job) (other : String) (r : Job) (apart : other ≢ job.id) where
  exec-HasRow :
      (db : Db) (p : Job → Bool) (f : Job → Job) (e : Error)
      → ((x : Job) → has_id other (f x) ≡ has_id other x)
      → ((x : Job) → p x ≡ true → has_id job.id x ≡ true)
      → HasRow other r db
      → HasRow other r (exec db p f e).0
  unfolding exec
  exec-HasRow db p f e keep only there =
      let mine = find_sat (has_id other) db.jobs there in
      let missed : p r ≡ false = elim (Bool-cases (p r)) [
        | inl hit ↦
            absurd (apart (sym ((eq_iff r.id other).0 mine) ∙ (eq_iff r.id job.id).0 (only r hit)))
        | inr miss ↦ miss
      ] in
      rw (find-update (has_id other) p f keep db.jobs, there, missed) refl

  leased-HasRow :
      (owner : String) (db : Db) (p : Job → Bool) (f : Job → Job) (e : Error)
      → ((x : Job) → has_id other (f x) ≡ has_id other x)
      → ((x : Job) → p x ≡ true → is_leased_by job.id owner x ≡ true)
      → HasRow other r db
      → HasRow other r (exec db p f e).0
  leased-HasRow owner db p f e keep only there =
      exec-HasRow db p f e keep (λ x h. leased_id x owner (only x h)) there
    where
      leased_id :
          (x : Job) (owner : String) → is_leased_by job.id owner x ≡ true → has_id job.id x ≡ true
      leased_id x owner h = ground arith

  staged-HasRow :
      (owner : String) (status : Status) (progress : ℕ) (message : String) (at : ℕ) (db : Db)
      → HasRow other r db
      → HasRow other r (Worker.set_stage job.id owner status progress message at db).0
  unfolding Worker.set_stage
  staged-HasRow owner status progress message at db there =
      let moved =
        leased-HasRow owner db (is_leased_by job.id owner)
          (Worker.set_stage_row status progress message at) Error.lease_lost
          (λ x. unfold Worker.set_stage_row in refl) (λ x h. h) there in
      elim (Bool-cases (ltb 100 progress && ltb 0 (affected (is_leased_by job.id owner) db.jobs))) [
        | inl e ↦ rw e there
        | inr e ↦ rw e moved
      ]

  cancelled-HasRow :
      (owner message : String) (at : ℕ) (db : Db)
      → HasRow other r db
      → HasRow other r (Worker.cancel_owned job.id owner message at db).0
  unfolding Worker.cancel_owned
  cancelled-HasRow owner message at db there =
      leased-HasRow owner db _ _ Error.lease_lost (λ x. unfold Worker.set_cancel_owned in refl)
        (λ x h. h) there

  failed-HasRow :
      (owner message : String) (cause : Cause) (random at later : ℕ) (db : Db)
      → HasRow other r db
      → HasRow other r (failed_with job owner message cause random at later db).0
  unfolding failed_with Worker.cancel_owned Worker.fail Worker.retry_later
  failed-HasRow owner message cause random at later db there =
      elim (Bool-cases (cause.matches canceled)) [
        | inl e ↦ rw e (cancelled-HasRow owner "任务已取消" at db there)
        | inr e ↦ elim (Bool-cases (is_final cause job.attempt_count)) [
          | inl f ↦
              rw (e, f)
                (exec-HasRow db _ _ Error.not_found (λ x. unfold Worker.set_fail in refl) (λ x h. h)
                  there)
          | inr f ↦
              rw (e, f)
                (leased-HasRow owner db _ _ Error.lease_lost
                  (λ x. unfold Worker.set_retry_later in refl) (λ x h. h) there)
        ]
      ]

  pub own-HasRow : (owner : String) → Guarantee owner job (HasRow other r)
  unfolding Worker.set_resolved Worker.complete_download Worker.complete_transcription
      delete_file_record delete_files_by_job delete_files_by_kind
  own-HasRow owner f db (begins step e) v = rw (begin_step-jobs step db) v
  own-HasRow owner f db (finishes step_id status code message details at) v =
      rw (finish_step-jobs step_id status code message details at db) v
  own-HasRow owner f db (resolves work_id at) v =
      leased-HasRow owner db (Worker.can_resolve job.id owner) _ Error.lease_lost
        (λ x. unfold Worker.set_resolved_row in refl)
        (λ x h. unfold Worker.can_resolve in ground arith) v
  own-HasRow owner f db (stages status progress message at p) v =
      staged-HasRow owner status progress message at db v
  own-HasRow owner f db (completes at) v =
      leased-HasRow owner db (Worker.can_complete_download job.id owner) _ Error.lease_lost
        (λ x. unfold Worker.set_completed in refl)
        (λ x h. unfold Worker.can_complete_download in ground arith) v
  own-HasRow owner f db (transcribes result message at) v =
      leased-HasRow owner db (Worker.can_complete_transcription job.id owner) _ Error.lease_lost
        (λ x. unfold Worker.set_transcribed in refl)
        (λ x h. unfold Worker.can_complete_transcription in ground arith) v
  own-HasRow owner f db (fails message cause random at later) v =
      failed-HasRow owner message cause random at later db v
  own-HasRow owner f db (cancels message at) v = cancelled-HasRow owner message at db v
  own-HasRow owner f db (creates file e g) v = v
  own-HasRow owner f db (drops file_id) v = v
  own-HasRow owner f db drops_all v = v
  own-HasRow owner f db (drops_kind kind) v = v
  own-HasRow owner f db (marks file_id at) v = v
