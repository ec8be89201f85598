-- ===== src/Http/Admin.antt =====
-- The handlers of router.go that an administrator may use, on users, sessions and the settings of the
-- providers.
pub mod Jobs
use luxury_video_tool.Base.{
  ℕ, String, Option, none, some, Bool, true, false, not, ◌&&◌, ◌||◌, List, [], ◌∷◌, if◌then◌else◌,
  ltb, str_eq, length, map, is_some,
}
use Prim.Native.String.{len}
use luxury_video_tool.Sql.{affected}
use luxury_video_tool.Settings
use luxury_video_tool.Settings.{Setting}
use luxury_video_tool.Auth.Model
use luxury_video_tool.Auth.Model.{
  User, Session, Principal, success, failure, username_taken, forbidden, not_found, role_admin,
  role_user,
}
use luxury_video_tool.Auth.Service.{
  create_user, reset_password, set_user_active, revoke_any_session,
}
use luxury_video_tool.Auth.Lists.{list_users, list_sessions}
use luxury_video_tool.Jobs.Model.{Job}
use luxury_video_tool.Jobs.Stats.{Stats, stats}
use luxury_video_tool.Http.Request.{Request, Decoded, is_secure_settings}
use luxury_video_tool.Http.Response.{
  Response, only_request_id, sessions, providers, statistics, users, user, fails_with, answers_with,
  bad_request, broken, not_ready, user_response, session_item, user_item,
}
use luxury_video_tool.Http.Run.{
  Data, Dependencies, Outside, Outcome, done, answered, Exec, ◌>>=◌, ◌>>◌, give, pure,
  unless_answer, or_answered, on_accounts, on_settings, ask, now, act, call, look,
}
use luxury_video_tool.Http.Session.{decoded_or, or_refused, no_session, record_audit}

-- adminAllowed
abbrev pub admin_only : Principal → Exec (Unit {0})
admin_only p =
    unless_answer (str_eq p.role role_admin) (fails_with 403 "FORBIDDEN" "仅管理员可执行此操作" false)

abbrev pub any_session_refused : Model.Failure → Response
any_session_refused forbidden = fails_with 403 "FORBIDDEN" "无权限执行此操作" false
any_session_refused _ = no_session

abbrev pub user_refused : String → Model.Failure → Response
user_refused message not_found = fails_with 404 "USER_NOT_FOUND" "用户不存在" false
user_refused message _ = broken message

abbrev pub bad_user : Response
bad_user = bad_request "创建用户失败，请检查用户名、显示名是否合法"

abbrev pub creation_refused : Model.Failure → Response
creation_refused username_taken = fails_with 409 "USERNAME_TAKEN" "用户名已存在" false
creation_refused _ = bad_user

pub record UserForm : Type 0 where
  pub username : String
  pub display_name : String
  pub password : String
  pub role : String

-- The settings to change, none for one that the body leaves out.
pub record ProviderForm : Type 0 where
  pub aliyun_api_key : Option String
  pub silicon_flow_api_key : Option String
  pub asr_model : Option String

abbrev pub names_setting : ProviderForm → Bool
names_setting f = is_some f.aliyun_api_key || is_some f.silicon_flow_api_key || is_some f.asr_model

abbrev pub json_bool : Bool → String
json_bool b = if b then "true" else "false"

-- A setting that could not be saved, for whatever reason.
abbrev pub saved_or : String → Option Bool → Outcome (Unit {0})
saved_or message (some true) = done tt
saved_or message _ = answered (bad_request message)

abbrev pub no_status : Settings.Status
no_status = record { aliyun_configured = false; silicon_flow_configured = false; asr_model = "" }

abbrev known_status : Option (Option Settings.Status) → Option Settings.Status
known_status (some (some s)) = some s
known_status _ = none

abbrev status_or_none : Option Settings.Status → Settings.Status
status_or_none none = no_status
status_or_none (some s) = s

abbrev is_active_user : User → Bool
is_active_user u = u.is_active

module _ (o : Outside) (deps : Dependencies) (r : Request) (request_id : String)
    (p : Principal) where
  -- RevokeAnySession, which comes to the database for an administrator only.
  abbrev pub revoke_call : String → ℕ → Bool → Exec (Option (Model.Outcome (Unit {0})))
  revoke_call id at true = call o (on_accounts (revoke_any_session p id at))
  revoke_call id at false =
      act o (on_accounts (revoke_any_session p id at)) >>= λ result. pure (some result)

  unfoldable pub handle_revoke_any : String → Exec Response
  handle_revoke_any id = do
    at ← now o
    result ← revoke_call id at (str_eq p.role role_admin)
    give (or_refused no_session any_session_refused result)
    record_audit o deps r request_id p.user_id "admin.session_revoke" id "null"
    pure (answers_with 200 only_request_id)

  abbrev pub read_status : Exec (Option Settings.Status)
  read_status = look o (λ d. Settings.status deps.cipher deps.fallback d.settings) >>= λ s.
      pure (known_status s)

  unfoldable pub handle_providers : Exec Response
  handle_providers = do
    unless_answer (str_eq p.role role_admin) (fails_with 403 "FORBIDDEN" "仅管理员可查看 API 配置" false)
    unless_answer deps.has_settings (fails_with 503 "SERVICE_NOT_READY" "配置服务尚未就绪" true)
    found ← read_status
    status ← give (or_answered (broken "无法读取 API 配置") found)
    pure (answers_with 200 (providers status deps.aliyun_available))

  -- Settings.Set, where the body names the setting
  unfoldable pub save_setting : String → String → Option String → Exec (Unit {0})
  save_setting name message none = pure tt
  save_setting name message (some value) = do
    nonce ← ask o o.nonce
    at ← now o
    result ← call o (on_settings (Settings.set deps.cipher name value p.user_id nonce at true))
    give (saved_or message result)

  unfoldable pub handle_set_providers : Decoded ProviderForm → Exec Response
  handle_set_providers body = do
    unless_answer (str_eq p.role role_admin) (fails_with 403 "FORBIDDEN" "仅管理员可修改 API 配置" false)
    unless_answer (is_secure_settings deps.readers r || deps.allow_insecure_provider_settings) (
        fails_with 403 "HTTPS_REQUIRED"
          "远程配置 API Key 必须使用 HTTPS（自托管内网可设置环境变量 ALLOW_INSECURE_PROVIDER_SETTINGS=1 放行）" false)
    unless_answer deps.has_settings (fails_with 503 "SERVICE_NOT_READY" "配置服务尚未就绪" true)
    form ← give (decoded_or body)
    unless_answer (names_setting form) (bad_request "至少提交一个 API Key 或模型配置")
    save_setting "aliyun_api_key" "阿里 API Key 无效" form.aliyun_api_key
    save_setting "siliconflow_api_key" "硅基流动 API Key 无效" form.silicon_flow_api_key
    save_setting "asr_model" "模型配置无效" form.asr_model
    record_audit o deps r request_id p.user_id "admin.provider_settings.update" "" (
        deps.object (
          ("aliyunChanged", json_bool (is_some form.aliyun_api_key))
          ∷ ("siliconFlowChanged", json_bool (is_some form.silicon_flow_api_key))
          ∷ ("modelChanged", json_bool (is_some form.asr_model))
          ∷ []))
    status ← read_status
    pure (answers_with 200 (providers (status_or_none status) deps.aliyun_available))

  unfoldable pub count_users : Exec (ℕ × ℕ)
  count_users =
      if deps.has_auth
      then (look o (λ d. list_users d.accounts) >>= λ found.
          give (or_answered (broken "无法读取统计信息") found) >>= λ us.
          pure (length us, affected is_active_user us))
      else pure (0, 0)

  abbrev pub no_stats : Stats
  no_stats = record { total = 0; today = 0; by_status = λ s. 0; by_day = [] }

  unfoldable pub count_jobs : Exec Stats
  count_jobs =
      if deps.has_jobs
      then (now o >>= λ at.
          look o (λ d. stats at d.db) >>= λ found. give (or_answered (broken "无法读取统计信息") found))
      else pure no_stats

  unfoldable pub handle_stats : Exec Response
  handle_stats = do
    admin_only p
    counted ← count_users
    jobs ← count_jobs
    pure (answers_with 200 (statistics counted.0 counted.1 jobs))

  unfoldable pub handle_users : Exec Response
  handle_users = do
    admin_only p
    unless_answer deps.has_auth not_ready
    found ← look o (λ d. list_users d.accounts)
    us ← give (or_answered (broken "无法读取用户列表") found)
    pure (answers_with 200 (users (map user_item us)))

  unfoldable pub handle_create_user : Decoded UserForm → Exec Response
  handle_create_user body = do
    admin_only p
    form ← give (decoded_or body)
    unless_answer (str_eq form.role role_admin || str_eq form.role role_user)
        (bad_request "角色必须是 admin 或 user")
    unless_answer (not (ltb (len form.password) 12)) (bad_request "密码至少需要 12 位")
    id ← ask o o.ulid
    at ← now o
    result ← call o (
        on_accounts (
          create_user deps.auth (deps.normalize_username form.username) form.display_name
            form.password form.role id at))
    u ← give (or_refused bad_user creation_refused result)
    record_audit o deps r request_id p.user_id "admin.user.create" u.id
        (deps.object (("role", u.role) ∷ []))
    pure (answers_with 201 (user (user_response u)))

  unfoldable pub handle_reset_password : String → Decoded String → Exec Response
  handle_reset_password target body = do
    admin_only p
    password ← give (decoded_or body)
    unless_answer (not (ltb (len password) 12)) (bad_request "密码至少需要 12 位")
    at ← now o
    result ← call o (on_accounts (reset_password deps.auth target password at))
    give (or_refused (broken "重置密码失败") (user_refused "重置密码失败") result)
    record_audit o deps r request_id p.user_id "admin.user.reset_password" target "null"
    pure (answers_with 200 only_request_id)

  unfoldable pub handle_set_active : String → Decoded Bool → Exec Response
  handle_set_active target body = do
    admin_only p
    active ← give (decoded_or body)
    unless_answer (active || not (str_eq target p.user_id)) (bad_request "不能禁用当前登录的管理员账号")
    at ← now o
    result ← call o (on_accounts (set_user_active target active at))
    give (or_refused (broken "更新用户状态失败") (user_refused "更新用户状态失败") result)
    record_audit o deps r request_id p.user_id "admin.user.set_active" target
        (deps.object (("active", json_bool active) ∷ []))
    pure (answers_with 200 only_request_id)

  unfoldable pub handle_user_sessions : String → Exec Response
  handle_user_sessions target = do
    admin_only p
    at ← now o
    found ← look o (λ d. list_sessions target at d.accounts)
    items ← give (or_answered (broken "无法读取设备会话") found)
    pure (
        answers_with 200 (
          sessions (
            map (session_item (λ s. str_eq s.user_id p.user_id && str_eq s.id p.session_id))
              items)))
