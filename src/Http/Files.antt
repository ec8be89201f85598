-- ===== src/Http/Files.antt =====
-- The handlers of router.go that give files: a user's own ones, those of signed links, and the
-- archive of a job's images.
use luxury_video_tool.Base.{
  ℕ, suc, ◌/◌, String, Option, none, some, Bool, true, false, not, ◌&&◌, ◌||◌, List, [], ◌∷◌,
  if◌then◌else◌, str_eq, cat,
}
use luxury_video_tool.Sql.{select}
use luxury_video_tool.Auth.Model.{Principal}
use luxury_video_tool.Files.Repository.{find_owned, find_by_id, list_by_job}
use luxury_video_tool.Files.Signer.{validate}
use luxury_video_tool.Jobs.Model.{Job, File, Result, ok, err, not_found, is_completed}
use luxury_video_tool.Jobs.Repository.Select
use luxury_video_tool.Jobs.Repository.Select.{FoundJob}
use luxury_video_tool.Jobs.Worker.Names.{two_digits}
use luxury_video_tool.Http.Jobs.{no_conflict, job_or, is_media}
use luxury_video_tool.Http.Request.{Request}
use luxury_video_tool.Http.Response.{
  Response, attachment, inline, archive, fails_with, broken, not_ready, not_found_page,
}
use luxury_video_tool.Http.Run.{
  Dependencies, Outside, Outcome, done, answered, Exec, ◌>>=◌, ◌>>◌, give, pure, unless_answer,
  or_answered, ask, now, look,
}

abbrev pub no_file : Response
no_file = fails_with 404 "FILE_NOT_FOUND" "文件不存在" false

abbrev pub file_or : Option (Result File) → Outcome File
file_or none = answered (broken "无法读取文件")
file_or (some (err not_found)) = answered no_file
file_or (some (err e)) = answered (broken "无法读取文件")
file_or (some (ok f)) = done f

-- A signed link gives nothing but http.NotFound where it fails.
abbrev pub signed_file : (File → Bool) → Option (Result File) → Outcome File
signed_file p (some (ok f)) = if p f then done f else answered not_found_page
signed_file p _ = answered not_found_page

abbrev pub is_image : File → Bool
is_image f = str_eq f.kind "image" || str_eq f.kind "animated"

abbrev pub has_files : List File → Bool
has_files [] = false
has_files (f ∷ fs) = true

-- jobWorkID, with the work id of the job's work, where it has one
unfoldable pub job_work_id : Option String → Job → String
job_work_id none j = j.id
job_work_id (some id) j = if str_eq id "" then j.id else id

module _ (o : Outside) where
  -- handleFileDownload
  unfoldable pub download_file : File → Exec Response
  download_file f = do
    opened ← ask o (λ t. o.opens t f.relative_path)
    unless_answer opened no_file
    known ← ask o o.proceeds
    unless_answer known (broken "无法读取文件")
    pure (record { status = 200; body = attachment f })

  -- handleInlinePreview
  unfoldable pub preview_file : File → Exec Response
  preview_file f = do
    opened ← ask o (λ t. o.opens t f.relative_path)
    unless_answer opened not_found_page
    known ← ask o o.proceeds
    unless_answer known not_found_page
    pure (record { status = 200; body = inline f })

module _ (o : Outside) (deps : Dependencies) (r : Request) where
  abbrev pub signed : String → Exec (Unit {0})
  signed id =
      if not (deps.has_files && deps.has_storage && deps.has_signer)
      then give (answered not_found_page)
      else (now o >>= λ at.
          unless_answer
            (validate deps.codes id (r.query "expires") (r.query "signature") (at / 1000))
            not_found_page)

  unfoldable pub handle_asr_source : String → Exec Response
  handle_asr_source id = do
    signed id
    found ← look o (λ d. find_by_id id d.db.files)
    f ← give (signed_file (λ x. str_eq x.kind "asr_source") found)
    download_file o f

  unfoldable pub handle_media_preview : String → Exec Response
  handle_media_preview id = do
    signed id
    found ← look o (λ d. find_by_id id d.db.files)
    f ← give (signed_file is_media found)
    preview_file o f

  module _ (p : Principal) where
    unfoldable pub handle_file : String → Exec Response
    handle_file id = do
      unless_answer (deps.has_files && deps.has_storage) not_ready
      found ← look o (λ d. find_owned p.user_id id d.db.files)
      f ← give (file_or found)
      download_file o f

    -- "%02d_%s" of the number and the escaped name
    unfoldable pub entries : ℕ → List File → Exec (List (String × File))
    entries index [] = pure []
    entries index (f ∷ fs) = do
      opened ← ask o (λ t. o.opens t f.relative_path)
      unless_answer opened (broken "打包配图失败")
      written ← ask o o.proceeds
      unless_answer written (broken "打包配图失败")
      rest ← entries (suc index) fs
      pure (
          (cat (two_digits (suc index)) (cat "_" (deps.codes.path_escape f.original_name)), f)
          ∷ rest)

    -- `work_id` gives the Douyin id of a job's work.
    unfoldable pub handle_archive : (Job → Option String) → String → Exec Response
    handle_archive work_id id = do
      unless_answer (deps.has_jobs && deps.has_files && deps.has_storage) not_ready
      found ← look o (λ d. Select.find_by_id p.user_id id d.db)
      f ← give (job_or no_conflict "无法读取任务" found)
      unless_answer (is_completed f.job.status)
          (fails_with 409 "JOB_NOT_READY" "任务尚未完成，暂不能打包配图" false)
      listed ← look o (λ d. list_by_job p.user_id id d.db.files)
      owned ← give (or_answered (broken "无法读取媒体文件") listed)
      let media : List File = select is_image owned
      unless_answer (has_files media) (fails_with 404 "FILES_NOT_FOUND" "该任务没有可打包的配图" false)
      made ← ask o o.proceeds
      unless_answer made (broken "无法创建打包临时文件")
      written ← entries 0 media
      closed ← ask o o.proceeds
      unless_answer closed (broken "打包配图失败")
      sought ← ask o o.proceeds
      unless_answer sought (broken "打包配图失败")
      pure (record {
        status = 200;
        body = archive (cat (job_work_id (work_id f.job) f.job) "_images.zip") written;
      })
