-- ===== src/Http/Jobs/Create.antt =====
-- The handler of router.go that creates a job.
use luxury_video_tool.Base.{
  ℕ, String, Option, none, some, Bool, true, false, not, ◌&&◌, ◌||◌, List, [], ◌∷◌, if◌then◌else◌,
  ltb, str_eq, trim_space,
}
use Prim.Native.String.{len}
use luxury_video_tool.Auth.Model.{Principal}
use luxury_video_tool.Jobs.Model.{
  Db, Error, Result, ok, idempotency_conflict, invalid_options, is_completed,
}
use luxury_video_tool.Jobs.Listing.{status_text}
use luxury_video_tool.Jobs.Repository.Select.{FoundJob, find_by_id}
use luxury_video_tool.Jobs.Service.{
  CreateInput, Reply, Resolution, job_reply, repository_error, share_text_error, create_info_job,
  create_download,
}
use luxury_video_tool.Http.Request.{Request, Decoded, remote_ip}
use luxury_video_tool.Http.Response.{
  Response, created_job, fails_with, answers_with, bad_request, broken, not_ready,
}
use luxury_video_tool.Http.Run.{
  Data, Dependencies, Outside, Outcome, done, answered, Exec, ◌>>=◌, ◌>>◌, give, pure,
  unless_answer, on_db, ask, now, call, look,
}
use luxury_video_tool.Http.Session.{decoded_or, write_event}
use luxury_video_tool.Http.Jobs.{view}

-- The job a client asks for.
pub record JobForm : Type 0 where
  pub share_text : String
  pub action : String
  pub force : Bool
  pub keep_video : Bool
  pub language_hints : List String
  pub hotwords : List String

-- The checks of a new job; the others are those of the service.
unfoldable pub is_job_form : JobForm → Bool
unfolding trim_space
is_job_form f =
    (str_eq f.action "info"
      || str_eq f.action "download"
      || str_eq f.action "transcribe"
      || str_eq f.action "full")
    && not (str_eq (trim_space f.share_text) "")
    && not (ltb 4096 (len f.share_text))

abbrev pub create_input : Principal → String → JobForm → CreateInput
create_input p key f = record {
  user_id = p.user_id;
  share_text = f.share_text;
  idempotency_key = key;
  action = f.action;
  force = f.force;
  keep_video = f.keep_video;
  language_hints = f.language_hints;
  hotwords = f.hotwords;
}

-- The errors of the resolver, and any other.
pub data ResolverError : Type 0 where
  invalid_share_link url_not_allowed work_unavailable other_error : ResolverError

-- writeResolverError
unfoldable pub resolver_error : ResolverError → Response
resolver_error invalid_share_link = fails_with 400 "INVALID_SHARE_LINK" "未找到有效的抖音作品链接" false
resolver_error url_not_allowed = fails_with 400 "URL_NOT_ALLOWED" "链接目标不允许访问" false
resolver_error work_unavailable = fails_with 404 "DOUYIN_WORK_UNAVAILABLE" "作品不存在或不可访问" false
resolver_error other_error = fails_with 422 "DOUYIN_RESOLVE_FAILED" "无法解析该作品，请确认链接仍然有效" false

abbrev pub creation_refused : Error → Response
creation_refused idempotency_conflict =
    fails_with 409 "IDEMPOTENCY_CONFLICT" "Idempotency-Key 已用于其他请求" false
creation_refused invalid_options = bad_request "任务选项不合法"
creation_refused e = resolver_error other_error

abbrev pub reply_or : Option Reply → Outcome (FoundJob × Bool)
reply_or none = answered (resolver_error other_error)
reply_or (some (repository_error e)) = answered (creation_refused e)
reply_or (some share_text_error) = answered (resolver_error invalid_share_link)
reply_or (some (job_reply f reused)) = done (f, reused)

module _ (o : Outside) (deps : Dependencies) (r : Request) (request_id : String)
    (p : Principal) where
  -- What others do to the tables between the lookup of the key and the INSERT.
  abbrev pub meanwhile : ℕ → Data → Db → Db
  meanwhile turn d db = (o.others turn (record d { db = db })).db

  abbrev informed : ℕ → CreateInput → String → ℕ → ℕ → Resolution → Data → Data × Reply
  informed turn input id at later resolution d =
      on_db (create_info_job deps.extract id at later resolution (meanwhile turn d) input) d

  abbrev downloaded : ℕ → CreateInput → String → ℕ → Data → Data × Reply
  downloaded turn input id at d =
      on_db (create_download deps.extract id at (meanwhile turn d) input) d

  -- CreateInfo or CreateDownload; the INSERT and the end of CreateInfo are one step.
  unfoldable pub created_by : CreateInput → String → ℕ → ℕ → Exec (Option Reply)
  created_by input id at later = do
    turn ← ask o (λ t. t)
    if str_eq input.action "info"
        then (ask o o.resolution >>= λ resolution.
            call o (informed turn input id at later resolution))
        else call o (downloaded turn input id at)

  -- recordJobAudit
  unfoldable pub record_job_audit : FoundJob → Bool → Exec (Unit {0})
  record_job_audit f reused = write_event o deps r request_id (record {
    actor_user_id = p.user_id;
    action = "job.create";
    target_type = "job";
    target_id = f.job.id;
    request_id = request_id;
    ip = remote_ip deps.readers r.remote_addr;
    metadata = deps.object (
        ("reused", if reused then "true" else "false") ∷ ("status", status_text f.job.status) ∷ []);
  })

  abbrev pub reread : FoundJob → Bool → Exec FoundJob
  reread f true =
      look o (λ d. find_by_id p.user_id f.job.id d.db) >>= λ found. give (job_or_broken found)
    where
      job_or_broken : Option (Result FoundJob) → Outcome FoundJob
      job_or_broken (some (ok g)) = done g
      job_or_broken _ = answered (broken "无法读取任务")
  reread f false = pure f

  unfoldable pub handle_create : Decoded JobForm → Exec Response
  handle_create body = do
    unless_answer deps.has_jobs not_ready
    let key : String = trim_space r.idempotency_key
    unless_answer (not (str_eq key "" || ltb 128 (len key))) (bad_request "缺少有效的 Idempotency-Key")
    form ← give (decoded_or body)
    unless_answer (is_job_form form) (bad_request "不支持的任务类型")
    id ← ask o o.ulid
    at ← now o
    later ← now o
    reply ← created_by (create_input p key form) id at later
    created ← give (reply_or reply)
    record_job_audit created.0 created.1
    found ← reread created.0 (created.1 && is_completed created.0.job.status)
    shown_at ← now o
    pure (answers_with 202 (created_job (view deps shown_at found) created.1))
