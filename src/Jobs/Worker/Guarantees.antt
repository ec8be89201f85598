-- ===== src/Jobs/Worker/Guarantees.antt =====
-- What a worker's statements keep: a sound job table, and the rows of all other jobs.
use luxury_video_tool.Base.{ℕ, ◌+◌, ◌≡◌, refl, String, arith, Bool-cases, inl, inr}
use luxury_video_tool.Jobs.Model.{Job, Step, Db}
use luxury_video_tool.Jobs.Repository.Records.{
  begin_step, finish_step, delete_file_record, delete_files_by_job, delete_files_by_kind,
}
use luxury_video_tool.Jobs.Worker.{Cause, canceled, is_final, media_code, retry_delay, failed_with}
use luxury_video_tool.Jobs.Worker.Keeps.{
  begins, finishes, resolves, stages, completes, transcribes, fails, cancels, creates, drops,
  drops_all, drops_kind, marks, Guarantee,
}
use luxury_video_tool.Jobs.Lifecycle.Steps
use luxury_video_tool.Jobs.Lifecycle.Steps.{IsSoundDb, perform}
use luxury_video_tool.Jobs.Lifecycle.Steps.Kept.{perform-IsSoundDb}

pub begin_step-jobs : (step : Step) (db : Db) → (begin_step step db).0.jobs ≡ db.jobs
unfolding begin_step
begin_step-jobs step db = ground arith

pub finish_step-jobs :
    (step_id status code message details : String) (at : ℕ) (db : Db)
    → (finish_step step_id status code message details at db).0.jobs ≡ db.jobs
unfolding finish_step
finish_step-jobs step_id status code message details at db = ground arith

same_jobs : (db db' : Db) → db'.jobs ≡ db.jobs → IsSoundDb db → IsSoundDb db'
same_jobs db db' e v = record { rows = rw e v.rows; ids = rw e v.ids; keys = rw e v.keys }

failed_with-IsSoundDb :
    (job : Job) (owner message : String) (cause : Cause) (random at later : ℕ) (db : Db)
    → IsSoundDb db
    → IsSoundDb (failed_with job owner message cause random at later db).0
unfolding failed_with perform
failed_with-IsSoundDb job owner message cause random at later db v =
    elim (Bool-cases (cause.matches canceled)) [
      | inl e ↦ rw e (perform-IsSoundDb (Steps.cancels_owned job.id owner "任务已取消" at) db tt v)
      | inr e ↦ elim (Bool-cases (is_final cause job.attempt_count)) [
        | inl f ↦
            rw (e, f) (perform-IsSoundDb (Steps.fails job.id (media_code cause) message at) db tt v)
        | inr f ↦
            rw (e, f)
              (perform-IsSoundDb
                (Steps.retries_later job.id owner (media_code cause) message
                  (at + retry_delay cause job.attempt_count random) later)
                db tt v)
      ]
    ]

pub own-IsSoundDb : (owner : String) (job : Job) → Guarantee owner job IsSoundDb
unfolding perform delete_file_record delete_files_by_job delete_files_by_kind
own-IsSoundDb owner job f db (begins step e) v = same_jobs db _ (begin_step-jobs step db) v
own-IsSoundDb owner job f db (finishes step_id status code message details at) v =
    same_jobs db _ (finish_step-jobs step_id status code message details at db) v
own-IsSoundDb owner job f db (resolves work_id at) v =
    perform-IsSoundDb (Steps.resolves job.id owner work_id at) db tt v
own-IsSoundDb owner job f db (stages status progress message at p) v =
    perform-IsSoundDb (Steps.stages job.id owner status progress message at) db p v
own-IsSoundDb owner job f db (completes at) v =
    perform-IsSoundDb (Steps.completes_download job.id owner at) db tt v
own-IsSoundDb owner job f db (transcribes result message at) v =
    perform-IsSoundDb (Steps.completes_transcription job.id owner result message at) db tt v
own-IsSoundDb owner job f db (fails message cause random at later) v =
    failed_with-IsSoundDb job owner message cause random at later db v
own-IsSoundDb owner job f db (cancels message at) v =
    perform-IsSoundDb (Steps.cancels_owned job.id owner message at) db tt v
own-IsSoundDb owner job f db (creates file e g) v = same_jobs db _ refl v
own-IsSoundDb owner job f db (drops file_id) v = same_jobs db _ refl v
own-IsSoundDb owner job f db drops_all v = same_jobs db _ refl v
own-IsSoundDb owner job f db (drops_kind kind) v = same_jobs db _ refl v
own-IsSoundDb owner job f db (marks file_id at) v = same_jobs db _ refl v
