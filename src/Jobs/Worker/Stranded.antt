-- ===== src/Jobs/Worker/Stranded.antt =====
-- A note whose result files cannot be written.
use luxury_video_tool.Base.{ℕ, ◌+◌, ◌≡◌, refl, ◌∙◌, String, none, some, Bool, true, false, arith}
use luxury_video_tool.Sql.{find}
use luxury_video_tool.Sql.Laws.{find-update}
use luxury_video_tool.Jobs.Model.{Job, Db, postprocessing, Result}
use luxury_video_tool.Jobs.Repository.{exec, has_id, is_leased_by}
use luxury_video_tool.Jobs.Repository.Worker.{set_stage, set_stage_row}
use luxury_video_tool.Jobs.Repository.Claim.{is_due}
use luxury_video_tool.Jobs.Worker.Run.{
  World, Outcome, done, raised, Exec, Scope, of_job, Outside, ◌>>=◌, continue, answer, ask, query,
  statement,
}
use luxury_video_tool.Jobs.Worker.Files.{scoped_target, write_result}
use luxury_video_tool.Jobs.Worker.Note.{note_result}
use luxury_video_tool.Resolver.Work.{Work}

-- Whether a call has raised an error.
abbrev pub has_raised {ℓ} : {A : Type ℓ} → Outcome A → Bool
has_raised (done a) = false
has_raised (raised c) = true

-- A call that raises ends the block, and leaves its own state.
bind_raised {ℓ κ} :
    {A : Type ℓ} {B : Type κ} (m : Exec A) (f : A → Exec B) (w : World) (db : Db)
    → has_raised (m w).0 ≡ true
    → (m w).1.db ≡ db
    → (has_raised ((m >>= f) w).0 ≡ true) × (((m >>= f) w).1.db ≡ db)
unfolding ◌>>=◌
bind_raised {A = A} {B = B} m f w db h e = ends (m w).0 (m w).1 h e
  where
    ends :
        (r : Outcome A) (v : World)
        → has_raised r ≡ true
        → v.db ≡ db
        → (has_raised (continue r f v).0 ≡ true) × ((continue r f v).1.db ≡ db)
    ends (done a) v g k = absurd (ground arith)
    ends (raised c) v g k = (refl, k)

-- A call that may raise, followed by one that does, both leaving the tables as they are.
bind_either {ℓ κ} :
    {A : Type ℓ} {B : Type κ} (m : Exec A) (f : A → Exec B) (w : World) (db : Db)
    → (m w).1.db ≡ db
    → ((a : A) (v : World) → v.db ≡ db → (has_raised (f a v).0 ≡ true) × ((f a v).1.db ≡ db))
    → (has_raised ((m >>= f) w).0 ≡ true) × (((m >>= f) w).1.db ≡ db)
unfolding ◌>>=◌
bind_either {A = A} {B = B} m f w db e g = ends (m w).0 (m w).1 e
  where
    ends :
        (r : Outcome A) (v : World)
        → v.db ≡ db
        → (has_raised (continue r f v).0 ≡ true) × ((continue r f v).1.db ≡ db)
    ends (done a) v k = g a v k
    ends (raised c) v k = (refl, k)

module _ (o : Outside) (quiet : (t : ℕ) (db : Db) → o.others t db ≡ db)
    (disk_full : (t : ℕ) → has_raised (o.written t) ≡ true) where
  query-db {ℓ} : {A : Type ℓ} (f : ℕ → Outcome A) (w : World) → (query o f w).1.db ≡ w.db
  unfolding query ask ◌>>=◌
  query-db {A = A} f w = ends (f w.turn) ∙ quiet w.turn w.db
    where
      ends :
          (r : Outcome A)
          → (continue
              (done r)
              (answer o)
              (record w { db = o.others w.turn w.db; turn = w.turn + 1 })).1.db
            ≡ o.others w.turn w.db
      ends (done a) = refl
      ends (raised c) = refl

  query_raised {ℓ} :
      {A : Type ℓ} (f : ℕ → Outcome A) (w : World)
      → has_raised (f w.turn) ≡ true
      → has_raised (query o f w).0 ≡ true
  unfolding query ask ◌>>=◌
  query_raised {A = A} f w h = ends (f w.turn) h
    where
      ends :
          (r : Outcome A)
          → has_raised r ≡ true
          → has_raised
              (continue
                (done r)
                (answer o)
                (record w { db = o.others w.turn w.db; turn = w.turn + 1 })).0
            ≡ true
      ends (done a) h = absurd (ground arith)
      ends (raised c) h = refl

  -- write_result fails before it registers anything.
  write_result_raised :
      (job : Job) (name ext kind mime body : String) (w : World) (db : Db)
      → w.db ≡ db
      → (has_raised (write_result o job name ext kind mime body w).0 ≡ true)
        × ((write_result o job name ext kind mime body w).1.db ≡ db)
  unfolding write_result scoped_target
  write_result_raised job name ext kind mime body w db e =
      bind_either _ _ w db (query-db _ w ∙ e) (λ relative v k.
        bind_raised (query o o.written) _ v db (query_raised o.written v (disk_full v.turn))
          (query-db o.written v ∙ k))

  module _ (faultless : (scope : Scope) (t : ℕ) → o.fault scope t ≡ none) where
    statement-db {ℓ} :
        {A : Type ℓ} (scope : Scope) (f : Db → Db × Result A) (w : World)
        → (statement o scope f w).1.db ≡ (f w.db).0
    unfolding statement ask ◌>>=◌
    statement-db scope f w = rw (faultless scope w.turn, quiet w.turn w.db) refl

    staged-row :
        (job_id owner message : String) (at : ℕ) (db : Db) {r : Job}
        → find (has_id job_id) db.jobs ≡ some r
        → is_leased_by job_id owner r ≡ true
        → find (has_id job_id) (set_stage job_id owner postprocessing 90 message at db).0.jobs
          ≡ some (set_stage_row postprocessing 90 message at r)
    unfolding set_stage exec
    staged-row job_id owner message at db {r} there held =
        let kept =
          find-update (has_id job_id) (is_leased_by job_id owner)
            (set_stage_row postprocessing 90 message at) (λ x. unfold set_stage_row in refl)
            db.jobs in
        rw (kept, there, held) refl

    -- Where the disk takes no file, and nothing else fails, the end of a note raises, and the job
    -- stays leased to the worker and in postprocessing, where no claim takes it at any time.
    pub note_result-stranded :
        (retention : ℕ) (owner : String) (job : Job) (work : Work) (at : ℕ) (w : World) {r : Job}
        → find (has_id job.id) w.db.jobs ≡ some r
        → is_leased_by job.id owner r ≡ true
        → (has_raised (note_result o retention owner job work at w).0 ≡ true)
          × (r' : Job) × (find
                (has_id job.id)
                (note_result o retention owner job work at w).1.db.jobs
              ≡ some r')
          × (r'.status ≡ postprocessing)
          × (is_leased_by job.id owner r' ≡ true)
          × ((now : ℕ) → is_due now r' ≡ false)
    unfolding note_result
    note_result-stranded retention owner job work at w {r} there held =
        let stage = set_stage job.id owner postprocessing 90 "正在生成结果文件" at in
        let ends =
          bind_either (statement o of_job stage) _ w (stage w.db).0 (statement-db of_job stage w)
            (λ _ v k.
              let tried =
                write_result_raised job "result.md" ".md" "result_markdown"
                  "text/markdown; charset=utf-8" _ v (stage w.db).0 k in
              bind_raised _ _ v (stage w.db).0 tried.0 tried.1) in
        (
          ends.0,
          set_stage_row postprocessing 90 "正在生成结果文件" at r,
          rw ends.1 (staged-row job.id owner _ at w.db there held),
          unfold set_stage_row in refl,
          unfold set_stage_row in held,
          λ now. unfold set_stage_row is_due in refl,
        )
