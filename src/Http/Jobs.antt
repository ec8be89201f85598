-- ===== src/Http/Jobs.antt =====
-- The handlers of router.go on a user's own jobs, with Cancel of jobs/service.go, which waits for the
-- worker that it stops.
pub mod Create
pub mod Removal
use luxury_video_tool.Base.{
  ℕ, zero, suc, ◌+◌, ◌/◌, String, Option, none, some, Bool, true, false, not, ◌&&◌, ◌||◌, List, [],
  ◌∷◌, if◌then◌else◌, ltb, str_eq, trim_space, map, is_none,
}
use Prim.Native.String.{len}
use luxury_video_tool.Auth.Model.{Principal}
use luxury_video_tool.Files.Signer.{preview_url}
use luxury_video_tool.Jobs.Model.{
  Job, File, Db, Status, Error, Result, ok, err, not_found, not_cancellable, not_retryable,
  not_deletable, idempotency_conflict, invalid_options, is_completed,
}
use luxury_video_tool.Jobs.Listing.{ListInput, JobPage, list_jobs, status_text}
use luxury_video_tool.Jobs.Repository.Select.{FoundJob, find_by_id}
use luxury_video_tool.Jobs.Repository.User.{cancel}
use luxury_video_tool.Jobs.Service.{
  CreateInput, Reply, job_reply, repository_error, share_text_error, create_info_job,
  create_download, retry_job,
}
use luxury_video_tool.Http.Request.{
  Request, Decoded, query_int, page_bounds, valid_job_filter, remote_ip,
}
use luxury_video_tool.Http.Response.{
  Response, JobView, job, created_job, page, fails_with, answers_with, bad_request, broken,
  not_ready,
}
use luxury_video_tool.Http.Run.{
  Data, Dependencies, Outside, Outcome, done, answered, Exec, ◌>>=◌, ◌>>◌, give, pure, answer,
  unless_answer, or_answered, on_db, ask, now, call, look,
}
use luxury_video_tool.Http.Session.{decoded_or, write_event}

-- Which conflict of a job's state a handler tells from other errors.
pub data Conflict : Type 0 where
  no_conflict cancels retries deletes : Conflict

abbrev pub no_job : Response
no_job = fails_with 404 "JOB_NOT_FOUND" "任务不存在" false

abbrev pub undeletable : Response
undeletable = fails_with 409 "JOB_NOT_DELETABLE" "进行中的任务不能删除" false

abbrev pub job_refused : Conflict → String → Error → Response
job_refused c message not_found = no_job
job_refused cancels message not_cancellable =
    fails_with 409 "JOB_NOT_CANCELLABLE" "当前阶段不能即时取消" false
job_refused retries message not_retryable = fails_with 409 "JOB_NOT_RETRYABLE" "当前任务不能重试" false
job_refused deletes message not_deletable = undeletable
job_refused c message e = broken message

abbrev pub job_or {ℓ} : {A : Type ℓ} → Conflict → String → Option (Result A) → Outcome A
job_or c message none = answered (broken message)
job_or c message (some (err e)) = answered (job_refused c message e)
job_or c message (some (ok a)) = done a

abbrev pub is_cancelled : FoundJob → Bool
is_cancelled f = elim f.job.status [ Status.cancelled ↦ true | _ ↦ false ]

-- The kinds of file that are shown in the page.
abbrev pub is_media : File → Bool
is_media f =
    str_eq f.kind "image"
    || str_eq f.kind "animated"
    || str_eq f.kind "video"
    || str_eq f.kind "music"

-- A job without preview addresses
abbrev pub plain_view : FoundJob → JobView
plain_view f = record {
  job = f.job;
  files = elim f.files [ none ↦ none | some fs ↦ some (map (λ (x : File). (x, "")) fs) ];
}

module _ (deps : Dependencies) where
  abbrev preview_of : ℕ → File → File × String
  preview_of at f =
      (f, if is_media f then preview_url deps.codes f.id ((at + 86400000) / 1000) else "")

  -- withMediaPreviews, for a job that was read at the time
  unfoldable pub view : ℕ → FoundJob → JobView
  unfolding preview_url
  view at f = record {
    job = f.job;
    files = elim f.files [
      | none ↦ none
      | some fs ↦ some (map (λ (x : File). if deps.has_signer then preview_of at x else (x, "")) fs)
    ];
  }

  abbrev pub view_page : ℕ → JobPage → List JobView
  view_page at jobs = map (view at) jobs.items

module _ (o : Outside) where
  abbrev pub waited : Bool → Exec (Option (Result FoundJob)) → Exec (Option (Result FoundJob))
  waited true m = pure none
  waited false m = m

  abbrev pub seen :
      Option (Result FoundJob) → Exec (Option (Result FoundJob)) → Exec (Option (Result FoundJob))
  seen (some (ok f)) m = if is_cancelled f then pure (some (ok f)) else m
  seen _ m = m

  -- The ticks of the five seconds, until the job is cancelled or the client has gone.
  unfoldable pub await_cancel : ℕ → String → String → Exec (Option (Result FoundJob))
  await_cancel zero user_id job_id = pure (some (err not_cancellable))
  await_cancel (suc ticks) user_id job_id = do
    gone ← ask o o.gone
    waited gone (
        look o (λ d. find_by_id user_id job_id d.db) >>= λ found.
        seen found (await_cancel ticks user_id job_id))

  abbrev pub if_stopped : String → String → Bool → Exec (Option (Result FoundJob))
  if_stopped user_id job_id true = await_cancel 100 user_id job_id
  if_stopped user_id job_id false = pure (some (err not_cancellable))

  abbrev pub after_cancel : String → String → Option (Result Bool) → Exec (Option (Result FoundJob))
  after_cancel user_id job_id none = pure none
  after_cancel user_id job_id (some (ok b)) = look o (λ d. find_by_id user_id job_id d.db)
  after_cancel user_id job_id (some (err not_cancellable)) =
      ask o (λ t. o.stops t job_id) >>= if_stopped user_id job_id
  after_cancel user_id job_id (some (err e)) = pure (some (err e))

  -- Service.Cancel
  unfoldable pub cancel_job : String → String → Exec (Option (Result FoundJob))
  cancel_job user_id job_id = do
    at ← now o
    result ← call o (on_db (cancel user_id job_id at))
    after_cancel user_id job_id result

  -- Service.Retry
  unfoldable pub retry_call : String → String → Exec (Option (Result FoundJob))
  retry_call user_id job_id = do at ← now o; call o (on_db (retry_job user_id job_id at))

module _ (o : Outside) (deps : Dependencies) (r : Request) (request_id : String)
    (p : Principal) where
  unfoldable pub handle_list : Exec Response
  handle_list = do
    unless_answer deps.has_jobs not_ready
    let status : String = trim_space (r.query "status")
    let action : String = trim_space (r.query "action")
    bounds ← give (
        or_answered (bad_request "历史筛选参数不正确")
          (page_bounds (query_int deps.readers r "limit" 20) (query_int deps.readers r "offset" 0)))
    unless_answer (valid_job_filter status action) (bad_request "历史筛选参数不正确")
    works ← ask o o.works
    found ← look o (λ d.
        list_jobs works
          (record {
            user_id = p.user_id;
            query = r.query "q";
            status = status;
            action = action;
            limit = bounds.0;
            offset = bounds.1;
          })
          d.db)
    jobs ← give (or_answered (broken "无法读取历史记录") found)
    at ← now o
    pure (answers_with 200 (page (view_page deps at jobs) jobs.total jobs.limit jobs.offset))

  unfoldable pub handle_get : String → Exec Response
  handle_get id = do
    unless_answer deps.has_jobs not_ready
    found ← look o (λ d. find_by_id p.user_id id d.db)
    f ← give (job_or no_conflict "无法读取任务" found)
    at ← now o
    pure (answers_with 200 (job (view deps at f)))

  unfoldable pub handle_cancel : String → Exec Response
  handle_cancel id = do
    result ← cancel_job o p.user_id id
    f ← give (job_or cancels "取消任务失败" result)
    pure (answers_with 200 (job (plain_view f)))

  unfoldable pub handle_retry : String → Exec Response
  handle_retry id = do
    result ← retry_call o p.user_id id
    f ← give (job_or retries "重试任务失败" result)
    pure (answers_with 202 (job (plain_view f)))
