-- ===== src/Jobs/Worker/Process.antt =====
-- process of worker.go: one claimed job, from the resolving of its work to its end. What a
-- transcription does after the download is an argument, none where the server has no transcriber.
use luxury_video_tool.Base.{
  ℕ, ◌+◌, String, Option, none, some, Bool, true, false, not, ◌&&◌, ◌||◌, [], ◌∷◌, if◌then◌else◌,
  str_eq, cat, decimal,
}
use luxury_video_tool.Jobs.Model.{Job, File}
use luxury_video_tool.Jobs.Repository.Worker.{set_resolved, complete_download, cancel_owned}
use luxury_video_tool.Jobs.Repository.Records.{finish_step}
use luxury_video_tool.Jobs.Worker.{Cause, Sentinel, canceled, media_code}
use luxury_video_tool.Jobs.Worker.Run.{
  Exec, of_job, background, Media, Outside, ◌>>=◌, ◌>>◌, pure, raise, attempt, handle, if_ended,
  sentinel_cause, ask, now, query, statement, remove,
}
use luxury_video_tool.Jobs.Worker.Names.{safe_media_name}
use luxury_video_tool.Jobs.Worker.Files.{
  mark_file, media_target, download, file_of, create_file, rollback_file, clear_stale, begin,
  end_step, failed, finish_failed,
}
use luxury_video_tool.Jobs.Worker.Note.{process_note}
use luxury_video_tool.Resolver.Work.{Work}

-- resolver.ErrVideoRequired and asr.ErrAuth
abbrev pub not_a_video : Cause
not_a_video = sentinel_cause (λ s. elim s [ Sentinel.video_required ↦ true | _ ↦ false ])

abbrev pub no_transcriber : Cause
no_transcriber = sentinel_cause (λ s. elim s [ Sentinel.asr_auth ↦ true | _ ↦ false ])

-- What follows the download: the work, the file of the video.
abbrev pub Transcriber : Type 0
Transcriber = Work → File → Exec (Unit {0})

module _ (o : Outside) (retention : ℕ) (transcriber : Option Transcriber) (owner : String)
    (job : Job) where
  -- The attempt's result, where the step is still open if it failed.
  unfoldable pub or_finish_failed {ℓ} : {A : Type ℓ} → String → Exec A → Exec A
  or_finish_failed step_id m = handle m pure (finish_failed o job owner step_id)

  unfoldable pub or_rollback : File → Exec (Unit {0}) → Exec (Unit {0})
  or_rollback file m = handle m pure (λ c. rollback_file o file >> raise c)

  -- The record of the video that was downloaded.
  unfoldable pub register_video : String → Work → String → Media → Exec File
  register_video step_id work path media = do
    at ← now o
    id ← or_finish_failed step_id (query o o.new_id)
    let file =
        file_of at job "video" path (cat (safe_media_name work.douyin_work_id) ".mp4") media
          (some (at + retention)) id
    or_finish_failed step_id (statement o of_job (create_file file))
    pure file

  -- The download of the video, checked against a cancellation, and its record.
  unfoldable pub fetch_video : String → Work → Exec File
  fetch_video step_id work = do
    path ← or_finish_failed step_id (media_target o job.user_id job.id ".mp4")
    media ← or_finish_failed step_id (download o work.video_url path)
    if_ended o (λ c. remove o path >> finish_failed o job owner step_id c)
        (register_video step_id work path media)

  -- A video that was only wanted for its speech.
  unfoldable pub drop_video : File → Exec (Unit {0})
  drop_video file = do
    remove o file.relative_path
    at ← now o
    attempt (statement o background (mark_file file.id at))
    pure tt

  -- `_ = w.repo.CancelOwned(context.Background(), …)`, and the error
  unfoldable pub stop_job {ℓ} : {A : Type ℓ} → Cause → Exec A
  stop_job c = do
    at ← now o
    attempt (statement o background (cancel_owned job.id owner "任务已取消" at))
    raise c

  unfoldable pub transcribe_video : String → Work → File → Option Transcriber → Exec (Unit {0})
  transcribe_video step_id work file none = finish_failed o job owner step_id no_transcriber
  transcribe_video step_id work file (some run) =
      handle (run work file)
        (λ _.
          if str_eq job.action "transcribe" && not job.keep_video then drop_video file else pure tt)
        (failed o job owner)

  -- Once the video is there: the end of a download, or the transcription.
  unfoldable pub after_video : String → Work → File → Exec (Unit {0})
  after_video step_id work file =
      if str_eq job.action "download"
      then or_rollback file (statement o of_job (complete_download job.id owner file.created_at))
      else transcribe_video step_id work file transcriber

  unfoldable pub process_video : Work → Exec (Unit {0})
  process_video work = do
    clear_stale o job
    step_id ← query o o.new_id
    at ← now o
    begin o job step_id "download" at
    file ← fetch_video step_id work
    or_rollback file (
        statement o of_job (
          finish_step step_id "completed" "" ""
            (o.formats.object (
              ("fileId", file.id)
              ∷ ("sizeBytes", decimal file.size_bytes)
              ∷ ("sha256", file.sha256)
              ∷ []))
            file.created_at))
    after_video step_id work file

  unfoldable pub unresolved : String → Cause → Exec Work
  unresolved step_id c = do
    at ← now o
    end_step o step_id "failed" (media_code c) (o.describe c) at
    if c.matches canceled then stop_job c else failed o job owner c

  unfoldable pub found_work : String → Work → Exec Work
  found_work step_id work = do
    at ← now o
    statement o of_job
        (finish_step step_id "completed" "" "" (o.formats.object (("workId", work.id) ∷ [])) at)
    pure work

  -- The work as the resolver finds it, with the step `resolve`.
  unfoldable pub resolve_work : Exec Work
  resolve_work = do
    step_id ← query o o.new_id
    at ← now o
    begin o job step_id "resolve" at
    handle (query o o.resolved) (found_work step_id) (unresolved step_id)

  unfoldable pub after_resolve : Work → Exec (Unit {0})
  after_resolve work =
      if not (str_eq work.work_type "video") || str_eq work.video_url ""
      then (if str_eq work.work_type "note"
          then process_note o retention owner job work
          else failed o job owner not_a_video)
      else process_video work

  unfoldable pub process_job : Exec (Unit {0})
  process_job = do
    work ← resolve_work
    at ← now o
    statement o of_job (set_resolved job.id owner work.id at)
    after_resolve work

  unfoldable pub stop_unless : Cause → Bool → Exec (Unit {0})
  stop_unless c stopping = if c.matches canceled && not stopping then stop_job c else raise c

  -- The first deferred call: a job that was cancelled while the program goes on.
  unfoldable pub process : Exec (Unit {0})
  process = handle process_job pure (λ c. ask o o.stopping >>= stop_unless c)
