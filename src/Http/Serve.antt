-- ===== src/Http/Serve.antt =====
-- What router.go mounts: the endpoints, the check of the access token before the protected ones, and
-- the middleware around all of them. ServeMux, which chooses the endpoint, is not modelled.
use luxury_video_tool.Base.{
  String, Option, none, some, Bool, true, false, if◌then◌else◌, str_eq, cat,
}
use luxury_video_tool.Auth.Model
use luxury_video_tool.Auth.Model.{Principal, success, failure, revoked_session}
use luxury_video_tool.Auth.Service.{validate_access}
use luxury_video_tool.Http.Admin.{
  UserForm, ProviderForm, handle_revoke_any, handle_providers, handle_set_providers, handle_stats,
  handle_users, handle_create_user, handle_reset_password, handle_set_active, handle_user_sessions,
}
use luxury_video_tool.Http.Admin.Jobs.{
  handle_all_jobs, handle_any_job, handle_cancel_any, handle_retry_any, handle_delete_any,
  handle_any_file,
}
use luxury_video_tool.Http.Files.{
  handle_asr_source, handle_media_preview, handle_file, handle_archive,
}
use luxury_video_tool.Http.Jobs.{handle_list, handle_get, handle_cancel, handle_retry}
use luxury_video_tool.Http.Jobs.Create.{JobForm, handle_create}
use luxury_video_tool.Http.Jobs.Removal.{handle_delete}
use luxury_video_tool.Http.Request.{Request, Decoded, bearer}
use luxury_video_tool.Http.Response.{
  Response, health, not_modified, asset, fails_with, answers_with, broken, not_ready,
}
use luxury_video_tool.Http.Run.{
  World, Dependencies, Outside, Outcome, done, answered, Exec, ◌>>=◌, ◌>>◌, give, pure, answer,
  unless_answer, ask, now, look,
}
use luxury_video_tool.Http.Session.Own.{
  handle_logout, handle_sessions, handle_revoke, handle_password,
}
use luxury_video_tool.Http.Session.{LoginForm, handle_login, handle_refresh}

-- The endpoints that anyone may ask, with the id of the path and the body.
pub data Open : Type 0 where
  live ready page : Open
  login : Decoded LoginForm → Open
  refresh : Decoded String → Open
  asr_source media_preview : String → Open

-- The endpoints on what belongs to the user who asks.
pub data Own : Type 0 where
  logout sessions list : Own
  revoke get cancel retry delete file archive : String → Own
  password : Decoded (String × String) → Own
  create : Decoded JobForm → Own

-- The endpoints of an administrator.
pub data OfAdmin : Type 0 where
  providers stats users all_jobs : OfAdmin
  revoke_any user_sessions any_job cancel_any retry_any delete_any any_file : String → OfAdmin
  set_providers : Decoded ProviderForm → OfAdmin
  create_user : Decoded UserForm → OfAdmin
  reset_password : String → Decoded String → OfAdmin
  set_active : String → Decoded Bool → OfAdmin

pub data Endpoint : Type 0 where
  to_all : Open → Endpoint
  own : Own → Endpoint
  of_admin : OfAdmin → Endpoint

abbrev pub expired : Response
expired = fails_with 401 "AUTH_TOKEN_EXPIRED" "登录状态已失效，请重新登录" true

abbrev pub revoked : Response
revoked = fails_with 401 "AUTH_SESSION_REVOKED" "登录状态已失效，请重新登录" false

abbrev pub admitted : Option (Model.Outcome Principal) → Outcome Principal
admitted none = answered expired
admitted (some (failure revoked_session)) = answered revoked
admitted (some (failure e)) = answered expired
admitted (some (success p)) = done p

-- What the handler and the middleware make of an outcome.
abbrev pub response_of : Outcome Response → Response
response_of (done r) = r
response_of (answered r) = r

-- The version and the commit of the build, as the tag of every page.
unfoldable pub etag : Dependencies → String
etag deps = cat "\"" (cat deps.version (cat "-" (cat deps.commit "\"")))

module _ (o : Outside) (deps : Dependencies) (r : Request) where
  unfoldable pub handle_ready : Exec Response
  handle_ready = do
    is_ready ← ask o o.ready
    unless_answer is_ready not_ready
    pure (answers_with 200 (health "ready"))

  unfoldable pub handle_page : Response
  handle_page =
      if str_eq r.if_none_match (etag deps)
      then record { status = 304; body = not_modified }
      else record { status = 200; body = asset }

  -- The principal of a token, none where the header has none.
  unfoldable pub principal_of : Option String → Exec Principal
  principal_of none = answer expired
  principal_of (some token) = do
    at ← now o
    result ← look o (λ d. validate_access deps.auth token at d.accounts)
    give (admitted result)

  unfoldable pub require_auth : (Principal → Exec Response) → Exec Response
  require_auth next = principal_of (bearer deps.readers r) >>= next

  unfoldable pub serve_open : String → Open → Exec Response
  serve_open id live = pure (answers_with 200 (health "ok"))
  serve_open id ready = handle_ready
  serve_open id page = pure handle_page
  serve_open id (login body) =
      unless_answer deps.has_auth not_ready >> handle_login o deps r id body
  serve_open id (refresh body) =
      unless_answer deps.has_auth not_ready >> handle_refresh o deps r id body
  serve_open id (asr_source file_id) = handle_asr_source o deps r file_id
  serve_open id (media_preview file_id) = handle_media_preview o deps r file_id

  unfoldable pub serve_own : String → Own → Principal → Exec Response
  serve_own id logout p = handle_logout o deps r id p
  serve_own id sessions p = handle_sessions o deps r id p
  serve_own id list p = handle_list o deps r id p
  serve_own id (revoke session_id) p = handle_revoke o deps r id p session_id
  serve_own id (get job_id) p = handle_get o deps r id p job_id
  serve_own id (cancel job_id) p = handle_cancel o deps r id p job_id
  serve_own id (retry job_id) p = handle_retry o deps r id p job_id
  serve_own id (delete job_id) p = handle_delete o deps r id p job_id
  serve_own id (file file_id) p = handle_file o deps r p file_id
  serve_own id (archive job_id) p = handle_archive o deps r p o.work_of job_id
  serve_own id (password body) p = handle_password o deps r id p body
  serve_own id (create body) p = handle_create o deps r id p body

  unfoldable pub serve_admin : String → OfAdmin → Principal → Exec Response
  serve_admin id providers p = handle_providers o deps r id p
  serve_admin id stats p = handle_stats o deps r id p
  serve_admin id users p = handle_users o deps r id p
  serve_admin id all_jobs p = handle_all_jobs o deps r id p
  serve_admin id (revoke_any session_id) p = handle_revoke_any o deps r id p session_id
  serve_admin id (user_sessions user_id) p = handle_user_sessions o deps r id p user_id
  serve_admin id (any_job job_id) p = handle_any_job o deps r id p job_id
  serve_admin id (cancel_any job_id) p = handle_cancel_any o deps r id p job_id
  serve_admin id (retry_any job_id) p = handle_retry_any o deps r id p job_id
  serve_admin id (delete_any job_id) p = handle_delete_any o deps r id p job_id
  serve_admin id (any_file file_id) p = handle_any_file o deps r id p file_id
  serve_admin id (set_providers body) p = handle_set_providers o deps r id p body
  serve_admin id (create_user body) p = handle_create_user o deps r id p body
  serve_admin id (reset_password user_id body) p = handle_reset_password o deps r id p user_id body
  serve_admin id (set_active user_id body) p = handle_set_active o deps r id p user_id body

  -- A protected endpoint is mounted where there is a service of accounts.
  abbrev pub mounted : (Principal → Exec Response) → Exec Response
  mounted next = if deps.has_auth then require_auth next else answer o.elsewhere

  unfoldable pub serve_endpoint : String → Endpoint → Exec Response
  serve_endpoint id (to_all e) = serve_open id e
  serve_endpoint id (own e) = mounted (serve_own id e)
  serve_endpoint id (of_admin e) = mounted (serve_admin id e)

  -- requestMiddleware
  abbrev pub with_id : Endpoint → Option String → Exec Response
  with_id e none = answer (broken "服务暂时不可用")
  with_id e (some id) = serve_endpoint id e

  unfoldable pub serve : Endpoint → World → Response × World
  unfolding ◌>>=◌ ask
  serve e w = let (outcome, w') = (ask o o.new_id >>= with_id e) w in (response_of outcome, w')
