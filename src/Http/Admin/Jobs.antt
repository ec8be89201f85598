-- ===== src/Http/Admin/Jobs.antt =====
-- The handlers of router.go on all users' jobs and files, for an administrator.
use luxury_video_tool.Base.{String, ◌&&◌, trim_space}
use luxury_video_tool.Auth.Model.{Principal}
use luxury_video_tool.Files.Repository.{find_by_id}
use luxury_video_tool.Jobs.Listing.{list_all_jobs}
use luxury_video_tool.Jobs.Repository.Select.{FoundJob, find_any_by_id}
use luxury_video_tool.Http.Admin.{admin_only}
use luxury_video_tool.Http.Files.{file_or, download_file}
use luxury_video_tool.Http.Jobs.{
  no_conflict, cancels, retries, job_or, view, view_page, plain_view, cancel_job, retry_call,
}
use luxury_video_tool.Http.Jobs.Removal.{delete_found}
use luxury_video_tool.Http.Request.{Request, query_int, page_bounds, valid_job_filter}
use luxury_video_tool.Http.Response.{
  Response, only_request_id, job, page, answers_with, bad_request, broken, not_ready,
}
use luxury_video_tool.Http.Run.{
  Dependencies, Outside, Exec, ◌>>=◌, ◌>>◌, give, pure, unless_answer, or_answered, ask, now, look,
}
use luxury_video_tool.Http.Session.{record_audit}

module _ (o : Outside) (deps : Dependencies) (r : Request) (request_id : String)
    (p : Principal) where
  unfoldable pub handle_all_jobs : Exec Response
  handle_all_jobs = do
    admin_only p
    unless_answer deps.has_jobs not_ready
    let status : String = trim_space (r.query "status")
    let action : String = trim_space (r.query "action")
    bounds ← give (
        or_answered (bad_request "历史筛选参数不正确")
          (page_bounds (query_int deps.readers r "limit" 50) (query_int deps.readers r "offset" 0)))
    unless_answer (valid_job_filter status action) (bad_request "历史筛选参数不正确")
    works ← ask o o.works
    found ← look o (λ d.
        list_all_jobs works
          (record {
            user_id = trim_space (r.query "userId");
            query = r.query "q";
            status = status;
            action = action;
            limit = bounds.0;
            offset = bounds.1;
          })
          d.db)
    jobs ← give (or_answered (broken "无法读取任务列表") found)
    at ← now o
    pure (answers_with 200 (page (view_page deps at jobs) jobs.total jobs.limit jobs.offset))

  -- GetAny
  abbrev pub found_any : String → String → Exec FoundJob
  found_any message id =
      look o (λ d. find_any_by_id id d.db) >>= λ found. give (job_or no_conflict message found)

  unfoldable pub handle_any_job : String → Exec Response
  handle_any_job id = do
    admin_only p
    unless_answer deps.has_jobs not_ready
    f ← found_any "无法读取任务" id
    at ← now o
    pure (answers_with 200 (job (view deps at f)))

  unfoldable pub handle_cancel_any : String → Exec Response
  handle_cancel_any id = do
    admin_only p
    f ← found_any "无法读取任务" id
    result ← cancel_job o f.job.user_id id
    g ← give (job_or cancels "取消任务失败" result)
    record_audit o deps r request_id p.user_id "admin.job.cancel" id "null"
    pure (answers_with 200 (job (plain_view g)))

  unfoldable pub handle_retry_any : String → Exec Response
  handle_retry_any id = do
    admin_only p
    f ← found_any "无法读取任务" id
    result ← retry_call o f.job.user_id id
    g ← give (job_or retries "重试任务失败" result)
    record_audit o deps r request_id p.user_id "admin.job.retry" id "null"
    pure (answers_with 202 (job (plain_view g)))

  unfoldable pub handle_delete_any : String → Exec Response
  handle_delete_any id = do
    admin_only p
    f ← found_any "删除任务失败" id
    delete_found o deps f.job.user_id id f
    record_audit o deps r request_id p.user_id "admin.job.delete" id "null"
    pure (answers_with 200 only_request_id)

  unfoldable pub handle_any_file : String → Exec Response
  handle_any_file id = do
    admin_only p
    unless_answer (deps.has_files && deps.has_storage) not_ready
    found ← look o (λ d. find_by_id id d.db.files)
    f ← give (file_or found)
    record_audit o deps r request_id p.user_id "admin.file.download" f.id "null"
    download_file o f
