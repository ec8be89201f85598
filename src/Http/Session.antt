-- ===== src/Http/Session.antt =====
-- The handlers of router.go that make and renew sessions, login and refresh, and the audit rows of all
-- handlers.
pub mod Own
use luxury_video_tool.Base.{
  ℕ, ◌-◌, ◌/◌, String, Option, none, some, Bool, true, false, not, ◌||◌, [], ◌∷◌, if◌then◌else◌,
  ltb, str_eq, cat, map,
}
use Prim.Native.String.{len}
use luxury_video_tool.Audit.{Event}
use luxury_video_tool.Auth.Model
use luxury_video_tool.Auth.Model.{
  Device, Session, Principal, success, failure, invalid_credentials, inactive_user, not_found,
}
use luxury_video_tool.Auth.Service.{TokenPair, login, refresh, logout, change_password}
use luxury_video_tool.Auth.Lists.{list_sessions, revoke_own_session}
use luxury_video_tool.Http.Limiter.{allow}
use luxury_video_tool.Http.Request.{
  Request, Decoded, malformed, trailing, decoded, remote_ip, is_web_client, cookie_secure,
  same_origin,
}
use luxury_video_tool.Http.Response.{
  Response, only_request_id, tokens, sessions, fails_with, answers_with, bad_request, broken,
  token_payload, session_item,
}
use luxury_video_tool.Http.Run.{
  Dependencies, Outside, Outcome, done, answered, Exec, ◌>>=◌, ◌>>◌, give, pure, unless_answer,
  or_answered, set_cookie, on_accounts, on_limiter, ask, now, act, call, look, audited,
}

pub record LoginForm : Type 0 where
  pub username : String
  pub password : String
  pub device : Device

-- decodeJSON
abbrev pub decoded_or {ℓ} : {A : Type ℓ} → Decoded A → Outcome A
decoded_or malformed = answered (bad_request "请求格式不正确")
decoded_or trailing = answered (bad_request "请求只能包含一个 JSON 对象")
decoded_or (decoded a) = done a

-- The checks of a login on its fields, with the name normalised.
unfoldable pub is_complete : String → LoginForm → Bool
is_complete username f = not (
    str_eq username ""
    || ltb 64 (len username)
    || str_eq f.password ""
    || ltb 1024 (len f.password)
    || str_eq f.device.id ""
    || ltb 128 (len f.device.id)
    || str_eq f.device.name ""
    || ltb 128 (len f.device.name)
    || str_eq f.device.app_version ""
    || ltb 64 (len f.device.app_version)
    || not (str_eq f.device.platform "android" || str_eq f.device.platform "windows"))

abbrev pub too_many : Response
too_many = fails_with 429 "RATE_LIMITED" "登录尝试过于频繁，请稍后重试" true

abbrev pub login_refused : Model.Failure → Response
login_refused invalid_credentials = fails_with 401 "AUTH_INVALID_CREDENTIALS" "用户名或密码错误" false
login_refused inactive_user = fails_with 401 "AUTH_INVALID_CREDENTIALS" "用户名或密码错误" false
login_refused _ = broken "登录暂时不可用"

abbrev pub login_answer : Option (Model.Outcome TokenPair) → Outcome TokenPair
login_answer none = answered (broken "登录暂时不可用")
login_answer (some (failure e)) = answered (login_refused e)
login_answer (some (success pair)) = done pair

abbrev pub session_over : Response
session_over = fails_with 401 "AUTH_SESSION_REVOKED" "会话已失效，请重新登录" false

abbrev pub refresh_answer : Option (Model.Outcome TokenPair) → Outcome TokenPair
refresh_answer (some (success pair)) = done pair
refresh_answer _ = answered session_over

-- The refresh token that a native client sends.
abbrev pub sent_token : String → Outcome String
sent_token token =
    if str_eq token "" || ltb 512 (len token) then answered (bad_request "请求格式不正确") else done token

-- Whether a call that gives nothing has succeeded, with the responses to a failure.
abbrev pub or_refused {ℓ} :
    {A : Type ℓ} → Response → (Model.Failure → Response) → Option (Model.Outcome A) → Outcome A
or_refused lost refused none = answered lost
or_refused lost refused (some (failure e)) = answered (refused e)
or_refused lost refused (some (success a)) = done a

abbrev pub no_session : Response
no_session = fails_with 404 "SESSION_NOT_FOUND" "设备会话不存在" false

abbrev with_cookie : Option String → String
with_cookie none = ""
with_cookie (some value) = value

module _ (o : Outside) (deps : Dependencies) (r : Request) (request_id : String) where
  abbrev pub audit_row : Event → Option String → Exec (Unit {0})
  audit_row event none = pure tt
  audit_row event (some id) = do at ← now o; call o (audited deps.audit_mac id at event); pure tt

  -- A record that cannot be written is logged only.
  unfoldable pub write_event : Event → Exec (Unit {0})
  write_event event = if deps.has_audit then ask o o.new_id >>= audit_row event else pure tt

  -- recordAudit
  unfoldable pub record_audit : String → String → String → String → Exec (Unit {0})
  record_audit user_id action target metadata = write_event (record {
    actor_user_id = user_id;
    action = action;
    target_type = "session";
    target_id = target;
    request_id = request_id;
    ip = remote_ip deps.readers r.remote_addr;
    metadata = metadata;
  })

  -- setRefreshCookie; the seconds that are left, none of which is negative for a token just made.
  unfoldable pub refresh_cookie : TokenPair → Exec (Unit {0})
  refresh_cookie pair = do
    at ← now o
    set_cookie (record {
      value = pair.refresh_token;
      max_age = some ((pair.refresh_expires - at) / 1000);
      secure = cookie_secure deps.readers r;
    })

  unfoldable pub clear_cookie : Exec (Unit {0})
  clear_cookie =
      set_cookie (record { value = ""; max_age = none; secure = cookie_secure deps.readers r })

  unfoldable pub allowed : String → ℕ → Exec (Unit {0})
  allowed key at = do ok ← act o (on_limiter (allow key at)); unless_answer ok too_many

  unfoldable pub handle_login : Decoded LoginForm → Exec Response
  handle_login body = do
    form ← give (decoded_or body)
    at ← now o
    let username : String = deps.normalize_username form.username
    allowed (cat "ip|" (remote_ip deps.readers r.remote_addr)) at
    allowed (cat "account|" username) at
    unless_answer (is_complete username form) (bad_request "登录信息不完整")
    fresh ← ask o o.fresh
    later ← now o
    result ← call o (
        on_accounts (
          login deps.auth (deps.normalize_username username) form.password form.device fresh later))
    pair ← give (login_answer result)
    let web : Bool = is_web_client deps.readers form.device.platform form.device.app_version
    if web then refresh_cookie pair else pure tt
    record_audit pair.user.id "auth.login" pair.session_id
        (deps.object (("platform", form.device.platform) ∷ []))
    pure (answers_with 200 (tokens (token_payload pair web)))

  abbrev pub has_cookie : Bool
  has_cookie = not (str_eq (with_cookie r.cookie) "")

  -- The refresh token of the cookie, where the request comes from the site itself, or of the body.
  unfoldable pub refresh_token : Decoded String → Exec String
  refresh_token body =
      if has_cookie
      then (unless_answer (same_origin deps.readers r)
            (fails_with 403 "CSRF_REJECTED" "拒绝跨站会话刷新" false)
          >> pure (with_cookie r.cookie))
      else (give (decoded_or body) >>= λ token. give (sent_token token))

  unfoldable pub handle_refresh : Decoded String → Exec Response
  handle_refresh body = do
    token ← refresh_token body
    fresh ← ask o o.fresh
    at ← now o
    result ← call o (on_accounts (refresh deps.auth token fresh at))
    pair ← give (refresh_answer result)
    if has_cookie then refresh_cookie pair else pure tt
    record_audit pair.user.id "auth.refresh" pair.session_id "null"
    pure (answers_with 200 (tokens (token_payload pair has_cookie)))
