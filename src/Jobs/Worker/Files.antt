-- ===== src/Jobs/Worker/Files.antt =====
-- What worker.go and transcription.go do with the files of a job: rollbackFile, writeResult, the
-- removal of what an earlier attempt left, and the end of a failed step.
use luxury_video_tool.Base.{ℕ, String, Option, none, some, List, [], ◌∷◌, if◌then◌else◌, ltb, ◌||◌}
use Prim.Native.String.{len}
use luxury_video_tool.Jobs.Model.{Job, File, Db, Step, StepStatus, Result, ok}
use luxury_video_tool.Jobs.Repository.Records.{
  begin_step, finish_step, delete_files_by_job, delete_file_record, delete_files_by_kind,
}
use luxury_video_tool.Jobs.Worker.{Cause, failed_with, media_code}
use luxury_video_tool.Jobs.Worker.Run.{
  Outcome, done, raised, Exec, of_job, background, Media, Outside, ◌>>=◌, ◌>>◌, pure, raise,
  attempt, handle, plain_cause, ask, now, query, statement, remove, placed,
}
use luxury_video_tool.Files.Repository.{create, list_by_job, mark_deleted}
use luxury_video_tool.Files.Storage.{Target, new_scoped_target, new_target}

abbrev pub create_file : File → Db → Db × Result (Unit {0})
create_file file db = let (fs, r) = create file db.files in (record db { files = fs }, r)

abbrev pub drop_record : String → Db → Db × Result (Unit {0})
drop_record file_id db = (delete_file_record file_id db, ok tt)

abbrev pub drop_records : String → String → Db → Db × Result (Unit {0})
drop_records user_id job_id db = (delete_files_by_job user_id job_id db, ok tt)

abbrev pub mark_file : String → ℕ → Db → Db × Result (Unit {0})
mark_file file_id at db = (record db { files = mark_deleted file_id at db.files }, ok tt)

abbrev pub drop_kind : String → String → Db → Db × Result (Unit {0})
drop_kind job_id kind db = (delete_files_by_kind job_id kind db, ok tt)

abbrev pub stale_files : String → String → Db → Db × Result (List File)
stale_files user_id job_id db = (db, ok (list_by_job user_id job_id db.files))

abbrev target_of : Option Target → Outcome String
target_of none = raised plain_cause
target_of (some t) = done t.relative

-- ownedfiles.NewFile, with the id that auth.NewID gives.
unfoldable pub file_of : ℕ → Job → String → String → String → Media → Option ℕ → String → File
file_of at job kind relative name media expires id = record {
  id = id;
  user_id = job.user_id;
  job_id = job.id;
  kind = kind;
  relative_path = relative;
  original_name = name;
  mime_type = media.mime_type;
  size_bytes = media.size_bytes;
  sha256 = media.sha256;
  expires_at = expires;
  created_at = at;
  deleted_at = none;
}

-- The step as it is begun.
abbrev pub begun_step : Job → String → String → ℕ → Step
begun_step job step_id name at = record {
  id = step_id;
  job_id = job.id;
  name = name;
  attempt = job.attempt_count;
  status = StepStatus.running;
  started_at = at;
  completed_at = none;
  details = "{}";
  error_code = none;
  error_message = none;
}

-- errors.Join
abbrev pub join : Cause → Cause → Cause
join a b = record {
  matches = λ s. a.matches s || b.matches s;
  after = if ltb 0 a.after then a.after else b.after;
}

module _ (o : Outside) where
  -- NewScopedTarget, and NewTarget with the scope "media"
  unfoldable pub scoped_target : String → String → String → String → Exec String
  scoped_target scope user_id job_id ext = query o (λ t.
      target_of (new_scoped_target o.root scope user_id job_id ext (o.random_name t) (o.made t)))

  unfoldable pub media_target : String → String → String → Exec String
  media_target user_id job_id ext =
      query o (λ t. target_of (new_target o.root user_id job_id ext (o.random_name t) (o.made t)))

  -- Download, which puts the file in its place once it is whole.
  unfoldable pub download : String → String → Exec Media
  download url relative = do
    media ← query o (λ t. o.downloaded t url)
    placed o relative
    pure media

  -- The attempt's result, where the file is removed from the disk if it failed.
  unfoldable pub or_remove {ℓ} : {A : Type ℓ} → String → Exec A → Exec A
  or_remove relative m = handle m pure (λ c. remove o relative >> raise c)

  -- A file that is registered, or removed from the disk again.
  unfoldable pub register : ℕ → Job → String → String → String → Media → Option ℕ → Exec File
  register at job kind relative name media expires = do
    id ← or_remove relative (query o o.new_id)
    let file = file_of at job kind relative name media expires id
    or_remove relative (statement o of_job (create_file file))
    pure file

  -- rollbackFile: the record first, and the file only where the record is gone.
  unfoldable pub rollback_file : File → Exec (Unit {0})
  rollback_file file =
      handle (statement o background (drop_record file.id))
        (λ _. remove o file.relative_path >> pure tt) (λ c. pure tt)

  unfoldable pub remove_all : List File → Exec (Unit {0})
  remove_all [] = pure tt
  remove_all (f ∷ fs) = remove o f.relative_path >> remove_all fs

  unfoldable pub clear_files : Job → List File → Exec (Unit {0})
  clear_files job [] = pure tt
  clear_files job (f ∷ fs) =
      handle (statement o background (drop_records job.user_id job.id)) (λ _. remove_all (f ∷ fs))
        (λ c. pure tt)

  -- What an earlier attempt left: the records first, and the files only where the records are gone.
  unfoldable pub clear_stale : Job → Exec (Unit {0})
  clear_stale job =
      handle (statement o background (stale_files job.user_id job.id)) (clear_files job)
        (λ c. pure tt)

  unfoldable pub write_result : Job → String → String → String → String → String → Exec File
  write_result job name ext kind mime body = do
    relative ← scoped_target "results" job.user_id job.id ext
    query o o.written
    placed o relative
    at ← now o
    register at job kind relative name
        (record { mime_type = mime; sha256 = o.digest body; size_bytes = len body }) none

  unfoldable pub begin : Job → String → String → ℕ → Exec (Unit {0})
  begin job step_id name at = statement o of_job (begin_step (begun_step job step_id name at))

  -- `_ = w.repo.FinishStep(context.Background(), …)`
  unfoldable pub end_step : String → String → String → String → ℕ → Exec (Unit {0})
  end_step step_id status code message at = do
    attempt (statement o background (finish_step step_id status code message "{}" at))
    pure tt

  -- failedWith, with the code and message of mediaError; it gives the error back.
  unfoldable pub failed {ℓ} : {A : Type ℓ} → Job → String → Cause → Exec A
  failed job owner cause = do
    at ← now o
    random ← ask o o.jitter
    later ← now o
    handle (statement o background (failed_with job owner (o.describe cause) cause random at later))
        (λ _. raise cause) (λ c. raise (join cause c))

  unfoldable pub finish_failed {ℓ} : {A : Type ℓ} → Job → String → String → Cause → Exec A
  finish_failed job owner step_id cause = do
    at ← now o
    end_step step_id "failed" (media_code cause) (o.describe cause) at
    failed job owner cause
