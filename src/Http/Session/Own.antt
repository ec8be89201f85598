-- ===== src/Http/Session/Own.antt =====
-- The handlers of router.go on a client's own sessions: logout, the list of devices and the password.
use luxury_video_tool.Base.{String, true, false, not, ◌||◌, ltb, str_eq, map}
use Prim.Native.String.{len}
use luxury_video_tool.Auth.Model
use luxury_video_tool.Auth.Model.{
  Device, Session, Principal, success, failure, invalid_credentials, inactive_user, not_found,
}
use luxury_video_tool.Auth.Service.{logout, change_password}
use luxury_video_tool.Auth.Lists.{list_sessions, revoke_own_session}
use luxury_video_tool.Http.Request.{Request, Decoded}
use luxury_video_tool.Http.Response.{
  Response, only_request_id, sessions, fails_with, answers_with, bad_request, broken, session_item,
}
use luxury_video_tool.Http.Run.{
  Dependencies, Outside, Exec, ◌>>=◌, ◌>>◌, give, pure, unless_answer, or_answered, on_accounts,
  now, call, look,
}
use luxury_video_tool.Http.Session.{decoded_or, or_refused, no_session, clear_cookie, record_audit}

abbrev pub password_refused : Model.Failure → Response
password_refused invalid_credentials = fails_with 401 "AUTH_INVALID_CREDENTIALS" "当前密码不正确" false
password_refused not_found = fails_with 401 "AUTH_TOKEN_EXPIRED" "登录状态已失效，请重新登录" true
password_refused _ = broken "修改密码失败"

module _ (o : Outside) (deps : Dependencies) (r : Request) (request_id : String)
    (p : Principal) where
  unfoldable pub handle_logout : Exec Response
  handle_logout = do
    clear_cookie o deps r request_id
    at ← now o
    result ← call o (on_accounts (logout p.user_id p.session_id at))
    give (or_refused (broken "退出登录失败") (λ e. broken "退出登录失败") result)
    record_audit o deps r request_id p.user_id "auth.logout" p.session_id "null"
    pure (answers_with 200 only_request_id)

  unfoldable pub handle_sessions : Exec Response
  handle_sessions = do
    at ← now o
    found ← look o (λ d. list_sessions p.user_id at d.accounts)
    items ← give (or_answered (broken "无法读取设备会话") found)
    pure (answers_with 200 (sessions (map (session_item (λ s. str_eq s.id p.session_id)) items)))

  unfoldable pub handle_revoke : String → Exec Response
  handle_revoke id = do
    at ← now o
    result ← call o (on_accounts (revoke_own_session p id at))
    give (or_refused no_session (λ e. no_session) result)
    record_audit o deps r request_id p.user_id "auth.session_revoke" id "null"
    pure (answers_with 200 only_request_id)

  -- The current password and the new one.
  unfoldable pub handle_password : Decoded (String × String) → Exec Response
  handle_password body = do
    form ← give (decoded_or body)
    unless_answer (not (str_eq form.0 "" || ltb 1024 (len form.0))) (bad_request "当前密码不正确")
    unless_answer (not (ltb (len form.1) 12 || ltb 1024 (len form.1)))
        (bad_request "新密码需要 12 到 1024 位")
    at ← now o
    result ← call o (on_accounts (change_password deps.auth p form.0 form.1 at))
    give (or_refused (broken "修改密码失败") password_refused result)
    record_audit o deps r request_id p.user_id "auth.password_change" p.session_id "null"
    pure (answers_with 200 only_request_id)
