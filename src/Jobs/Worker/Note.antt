-- ===== src/Jobs/Worker/Note.antt =====
-- processNote and downloadNoteMusic of worker.go: a note is its pictures, its music and its text.
use luxury_video_tool.Base.{
  ℕ, ◌+◌, ◌*◌, ◌/◌, String, some, Bool, true, false, List, [], ◌∷◌, if◌then◌else◌, ◌==◌, str_eq,
  length, decimal, cat, map,
}
use luxury_video_tool.Jobs.Model.{Job, File, downloading, postprocessing}
use luxury_video_tool.Jobs.Repository.Worker.{set_stage, complete_transcription}
use luxury_video_tool.Jobs.Repository.Records.{finish_step}
use luxury_video_tool.Jobs.Worker.{Cause, Sentinel}
use luxury_video_tool.Jobs.Worker.Run.{
  Exec, of_job, Outside, ◌>>=◌, ◌>>◌, pure, raise, handle, if_ended, sentinel_cause, now, query,
  statement, remove,
}
use luxury_video_tool.Jobs.Worker.Names.{safe_media_name, image_name, image_message}
use luxury_video_tool.Jobs.Worker.Files.{
  scoped_target, download, or_remove, register, clear_stale, write_result, begin, end_step,
  finish_failed,
}
use luxury_video_tool.Resolver.Work.{Image, Work}
use luxury_video_tool.Results.{Formats, build_note, note_text, concat}

-- What is downloaded of a picture: the moving version if there is one.
pub record Part : Type 0 where
  pub url : String
  pub ext : String
  pub kind : String
  pub name : String

unfoldable pub part_of : ℕ → Image → Part
unfolding image_name
part_of index img =
    if str_eq img.animated_url ""
    then record {
      url = img.url;
      ext = ".jpg";
      kind = "image";
      name = image_name (index + 1) ".jpg";
    }
    else record {
      url = img.animated_url;
      ext = ".mp4";
      kind = "animated";
      name = image_name (index + 1) ".mp4";
    }

-- media.ErrDownload
abbrev pub download_error : Cause
download_error = sentinel_cause (λ s. elim s [ Sentinel.download ↦ true | _ ↦ false ])

-- The files of a result, as a JSON array.
unfoldable pub files_json : Formats → List File → String
unfolding concat decimal
files_json formats files = concat (
    map
      (λ f. formats.object (
        ("id", f.id)
        ∷ ("kind", f.kind)
        ∷ ("name", f.original_name)
        ∷ ("mimeType", f.mime_type)
        ∷ ("sizeBytes", decimal f.size_bytes)
        ∷ []))
      files)

-- `retention` is VideoRetention of the worker's configuration, in milliseconds.
module _ (o : Outside) (retention : ℕ) (owner : String) (job : Job) (work : Work) where
  -- The end of a job that was cancelled meanwhile.
  unfoldable pub cancelled_step {ℓ} : {A : Type ℓ} → String → ℕ → Cause → Exec A
  cancelled_step step_id at c = do end_step o step_id "cancelled" "" "任务已取消" at; raise c

  -- One picture, after its stage was announced: whether it was downloaded and registered.
  unfoldable pub fetch_part : String → ℕ → ℕ → ℕ → Part → Exec Bool
  fetch_part step_id at expires index part =
      handle (scoped_target o "images" job.user_id job.id part.ext)
        (λ path.
          handle (download o part.url path)
            (λ media.
              handle (register o (at + index) job part.kind path part.name media (some expires))
                (λ file. pure true) (λ c. pure false))
            (λ c. remove o path >> if_ended o (cancelled_step step_id at) (pure false)))
        (λ c. pure false)

  -- The loop's body.
  unfoldable pub one_image : String → ℕ → ℕ → ℕ → Image → Exec Bool
  one_image step_id at expires index img = if_ended o (cancelled_step step_id at) (
      if str_eq (part_of index img).url ""
      then pure false
      else handle
          (statement o of_job (
            set_stage job.id owner downloading (30 + index * 45 / length work.images)
              (image_message (index + 1) (length work.images)) at))
          (λ _. fetch_part step_id at expires index (part_of index img))
          (λ c. if_ended o (cancelled_step step_id at) (finish_failed o job owner step_id c)))

  -- How many of the pictures were downloaded.
  unfoldable pub all_images : String → ℕ → ℕ → ℕ → List Image → ℕ → Exec ℕ
  all_images step_id at expires index [] count = pure count
  all_images step_id at expires index (img ∷ imgs) count =
      one_image step_id at expires index img >>= λ got.
      all_images step_id at expires (index + 1) imgs (if got then count + 1 else count)

  unfoldable pub note_music : ℕ → ℕ → Exec File
  note_music expires at = do
    path ← scoped_target o "music" job.user_id job.id ".mp3"
    media ← or_remove o path (download o work.music_url path)
    register o at job "music" path
        (cat
          (if str_eq (safe_media_name work.douyin_work_id) ""
            then "music"
            else safe_media_name work.douyin_work_id)
          ".mp3")
        media (some expires)

  -- The music, which counts as a file; without it the count stays.
  unfoldable pub count_music : String → ℕ → ℕ → Exec ℕ
  count_music step_id at count =
      if count == 0
      then finish_failed o job owner step_id download_error
      else if str_eq work.music_url ""
      then pure count
      else handle (note_music (at + retention) (at + length work.images)) (λ file. pure (count + 1))
          (λ c. if_ended o (cancelled_step step_id at) (pure count))

  -- The step `download` of a note that has pictures.
  unfoldable pub note_media : ℕ → Exec (Unit {0})
  note_media at = do
    step_id ← query o o.new_id
    begin o job step_id "download" at
    count ← all_images step_id at (at + retention) 0 work.images 0
    total ← count_music step_id at count
    statement o of_job (
        finish_step step_id "completed" "" "" (o.formats.object (("files", decimal total) ∷ [])) at)

  unfoldable pub media_of : List Image → ℕ → Exec (Unit {0})
  media_of [] at = pure tt
  media_of (_ ∷ _) at = note_media at

  -- The result files, and the end of the job.
  unfoldable pub note_result : ℕ → Exec (Unit {0})
  note_result at = do
    statement o of_job (set_stage job.id owner postprocessing 90 "正在生成结果文件" at)
    let text = note_text o.formats work
    let bundle = build_note o.formats work at
    markdown ←
        write_result o job "result.md" ".md" "result_markdown" "text/markdown; charset=utf-8"
          bundle.markdown
    plain ←
        write_result o job "result.txt" ".txt" "result_text" "text/plain; charset=utf-8" bundle.text
    meta ← write_result o job "meta.json" ".json" "result_meta" "application/json" bundle.meta
    statement o of_job (
        complete_transcription job.id owner
          (o.formats.object (
            ("rawText", text)
            ∷ ("normalizedText", text)
            ∷ ("files", files_json o.formats (markdown ∷ plain ∷ meta ∷ []))
            ∷ []))
          "配图下载与文案生成完成" at)

  unfoldable pub process_note : Exec (Unit {0})
  process_note = do at ← now o; clear_stale o job; media_of work.images at; note_result at
