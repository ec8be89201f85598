-- ===== src/Http/Jobs/Removal.antt =====
-- The deletion of a job by router.go: first its files go from the disk, then the job with its rows.
pub mod Stops
use luxury_video_tool.Base.{
  ℕ, String, Option, none, some, Bool, true, false, List, [], ◌∷◌, if◌then◌else◌,
}
use luxury_video_tool.Auth.Model.{Principal}
use luxury_video_tool.Files.Repository.{list_by_job}
use luxury_video_tool.Jobs.Model.{Job, File, Result, is_terminal}
use luxury_video_tool.Jobs.Repository.Select.{FoundJob, find_by_id}
use luxury_video_tool.Jobs.Service.{delete}
use luxury_video_tool.Http.Jobs.{no_conflict, deletes, undeletable, job_or}
use luxury_video_tool.Http.Request.{Request}
use luxury_video_tool.Http.Response.{Response, only_request_id, fails_with, answers_with}
use luxury_video_tool.Http.Run.{
  Data, Dependencies, Outside, Outcome, done, Exec, ◌>>=◌, ◌>>◌, give, pure, unless_answer, on_db,
  call, look, remove,
}
use luxury_video_tool.Http.Session.{record_audit}

-- owned, _ = ListByJob
abbrev pub or_no_files : Option (List File) → List File
or_no_files none = []
or_no_files (some fs) = fs

module _ (o : Outside) (deps : Dependencies) where
  abbrev pub owned_files : String → String → Exec (List File)
  owned_files user_id job_id =
      if deps.has_files
      then (look o (λ d. list_by_job user_id job_id d.db.files) >>= λ found.
          pure (or_no_files found))
      else pure []

  unfoldable pub remove_files : List File → Exec (Unit {0})
  remove_files [] = pure tt
  remove_files (f ∷ fs) = do
    removed ← remove o f.relative_path
    unless_answer removed (fails_with 500 "FILE_DELETE_FAILED" "删除任务文件失败" true)
    remove_files fs

  -- What follows once the job was found.
  unfoldable pub delete_found : String → String → FoundJob → Exec (Unit {0})
  delete_found user_id job_id f = do
    unless_answer (is_terminal f.job.status) undeletable
    owned ← owned_files user_id job_id
    if deps.has_storage then remove_files owned else pure tt
    result ← call o (on_db (delete user_id job_id))
    give (job_or deletes "删除任务失败" result)

module _ (o : Outside) (deps : Dependencies) (r : Request) (request_id : String)
    (p : Principal) where
  unfoldable pub handle_delete : String → Exec Response
  handle_delete id = do
    found ← look o (λ d. find_by_id p.user_id id d.db)
    f ← give (job_or no_conflict "删除任务失败" found)
    delete_found o deps p.user_id id f
    record_audit o deps r request_id p.user_id "job.delete" id "null"
    pure (answers_with 200 only_request_id)
