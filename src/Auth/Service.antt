-- ===== src/Auth/Service.antt =====
-- services/api_go/internal/auth/service.go: the requests on accounts. `verify` and `hash` stand for
-- the Argon2 of VerifyPassword and HashPassword, `digest` for the SHA-256 of HashRefreshToken,
-- `Fresh` for the random values of a request, `now` for its clock and the TTLs for the
-- configuration, in milliseconds.
use luxury_video_tool.Base.{
  ℕ, ◌+◌, String, Option, none, some, Bool, true, ◌||◌, not, if◌then◌else◌, ltb, leb, str_eq,
  is_some,
}
use Prim.Native.String.{len}
use luxury_video_tool.Auth.Model.{
  User, Device, Session, Principal, Accounts, Outcome, success, failure, invalid_credentials,
  inactive_user, username_taken, invalid_token, expired_token, revoked_session, forbidden,
  not_found, bad_password, bad_name, bad_role, role_admin,
}
use luxury_video_tool.Auth.Repository
use luxury_video_tool.Auth.Token.{Codec, issue_access, parse_access}

pub record TokenPair : Type 0 where
  pub access_token : String
  pub access_expires : ℕ
  pub refresh_token : String
  pub refresh_expires : ℕ
  pub user : User
  pub session_id : String

-- A new session id and a new refresh token.
pub record Fresh : Type 0 where
  pub id : String
  pub raw : String

pub record Settings : Type 0 where
  pub codec : Codec
  pub digest : String → String
  pub verify : String → String → Option Bool
  pub hash : String → String
  pub refresh_ttl : ℕ
  pub access_ttl : ℕ

abbrev lift : Accounts × Outcome (Unit {0}) → TokenPair → Accounts × Outcome TokenPair
lift (db, success _) pair = (db, success pair)
lift (db, failure e) pair = (db, failure e)

module _ (settings : Settings) where
  unfoldable pub new_session : User → Device → Fresh → ℕ → TokenPair × Session
  unfolding issue_access
  new_session user device fresh now =
      let (access, access_expires) =
        issue_access settings.codec user fresh.id now settings.access_ttl in
      (
        record {
          access_token = access;
          access_expires = access_expires;
          refresh_token = fresh.raw;
          refresh_expires = now + settings.refresh_ttl;
          user = user;
          session_id = fresh.id;
        },
        record {
          id = fresh.id;
          user_id = user.id;
          token_hash = settings.digest fresh.raw;
          device = device;
          expires_at = now + settings.refresh_ttl;
          revoked_at = none;
          replaced_by = none;
          created_at = now;
          last_used_at = now;
        },
      )

  -- What Login does for a user whose password is right. Where the login cannot be recorded, the new
  -- session is revoked.
  unfoldable pub open_session : User → Device → Fresh → ℕ → Accounts → Accounts × Outcome TokenPair
  unfolding new_session Repository.create_session Repository.record_login Repository.revoke_session
  open_session user device fresh now db =
      let (pair, session) = new_session user device fresh now in
      let (created, r) = Repository.create_session session db in
      elim r [
        | failure e ↦ (created, failure e)
        | success _ ↦
            let (recorded, q) = Repository.record_login user.id now created in
            elim q [
              | failure e ↦
                  ((Repository.revoke_session user.id session.id now recorded).0, failure e)
              | success _ ↦ (recorded, success pair)
            ]
      ]

  -- NormalizeUsername has been applied to the name.
  unfoldable pub login :
      String → String → Device → Fresh → ℕ → Accounts → Accounts × Outcome TokenPair
  unfolding Repository.find_user_by_username open_session
  login username password device fresh now db =
      elim (Repository.find_user_by_username username db) [
        | none ↦ (db, failure invalid_credentials)
        | some user ↦ elim (settings.verify password user.password_hash) [
          | none ↦ (db, failure invalid_credentials)
          | some valid ↦
              if not valid
              then (db, failure invalid_credentials)
              else if not user.is_active
              then (db, failure inactive_user)
              else open_session user device fresh now db
        ]
      ]

  unfoldable pub refresh : String → Fresh → ℕ → Accounts → Accounts × Outcome TokenPair
  unfolding Repository.find_session_by_token_hash new_session Repository.rotate_session
      Repository.revoke_all_user_sessions
  refresh raw fresh now db = elim (Repository.find_session_by_token_hash (settings.digest raw) db) [
    | none ↦ (db, failure invalid_token)
    | some found ↦
        let (old, user) = found in
        if is_some old.revoked_at
        then (Repository.revoke_all_user_sessions user.id now db, failure revoked_session)
        else if leb old.expires_at now
        then (db, failure expired_token)
        else if not user.is_active
        then (db, failure inactive_user)
        else (let (pair, replacement) = new_session user old.device fresh now in
            lift (Repository.rotate_session old.id replacement now db) pair)
  ]

  unfoldable pub validate_access : String → ℕ → Accounts → Outcome Principal
  unfolding parse_access Repository.find_user_by_id Repository.find_session_by_id
  validate_access raw now db = elim (parse_access settings.codec raw now) [
    | failure e ↦ failure e
    | success p ↦ elim (Repository.find_user_by_id p.user_id db) [
      | none ↦ failure invalid_token
      | some user ↦
          if not user.is_active
          then failure invalid_token
          else elim (Repository.find_session_by_id p.user_id p.session_id db) [
            | none ↦ failure revoked_session
            | some session ↦
                if is_some session.revoked_at || leb session.expires_at now
                then failure revoked_session
                else success p
          ]
    ]
  ]

  -- HashPassword
  unfoldable pub hash_password : String → Option String
  hash_password password =
      if ltb (len password) 12 || ltb 1024 (len password)
      then none
      else some (settings.hash password)

  unfoldable pub reset_password : String → String → ℕ → Accounts → Accounts × Outcome (Unit {0})
  unfolding hash_password Repository.update_password Repository.revoke_all_user_sessions
  reset_password user_id password now db = elim (hash_password password) [
    | none ↦ (db, failure bad_password)
    | some hash ↦
        let (updated, r) = Repository.update_password user_id hash now db in
        elim r [
          | failure e ↦ (updated, failure e)
          | success _ ↦ (Repository.revoke_all_user_sessions user_id now updated, success tt)
        ]
  ]

  unfoldable pub change_password :
      Principal → String → String → ℕ → Accounts → Accounts × Outcome (Unit {0})
  unfolding Repository.find_user_by_id hash_password Repository.update_password
      Repository.revoke_other_user_sessions
  change_password principal current new now db =
      elim (Repository.find_user_by_id principal.user_id db) [
        | none ↦ (db, failure not_found)
        | some user ↦ elim (settings.verify current user.password_hash) [
          | none ↦ (db, failure bad_password)
          | some valid ↦
              if not valid then (db, failure invalid_credentials) else elim (hash_password new) [
                | none ↦ (db, failure bad_password)
                | some hash ↦
                    let (updated, r) = Repository.update_password principal.user_id hash now db in
                    elim r [
                      | failure e ↦ (updated, failure e)
                      | success _ ↦ (
                        Repository.revoke_other_user_sessions principal.user_id principal.session_id
                            now updated,
                        success tt,
                      )
                    ]
              ]
        ]
      ]

  -- NormalizeUsername has been applied to the name.
  unfoldable pub create_user :
      String → String → String → String → String → ℕ → Accounts → Accounts × Outcome User
  unfolding Repository.find_user_by_username Repository.is_role hash_password Repository.create_user
  create_user username display_name password role id now db =
      if str_eq username ""
        || ltb 64 (len username)
        || str_eq display_name ""
        || ltb 100 (len display_name)
      then (db, failure bad_name)
      else elim (Repository.find_user_by_username username db) [
        | some user ↦ (db, failure username_taken)
        | none ↦
            if not (Repository.is_role role)
            then (db, failure bad_role)
            else elim (hash_password password) [
              | none ↦ (db, failure bad_password)
              | some hash ↦
                  let user : User = record {
                    id = id;
                    username_normalized = username;
                    display_name = display_name;
                    password_hash = hash;
                    role = role;
                    is_active = true;
                    created_at = now;
                    updated_at = now;
                    last_login_at = none;
                  } in
                  let (created, r) = Repository.create_user user db in
                  elim r [ failure e ↦ (created, failure e) | success _ ↦ (created, success user) ]
            ]
      ]

-- A session that is not there is logged out already.
unfoldable pub logout : String → String → ℕ → Accounts → Accounts × Outcome (Unit {0})
unfolding Repository.revoke_session
logout user_id session_id now db =
    let (revoked, r) = Repository.revoke_session user_id session_id now db in
    elim r [
      | success _ ↦ (revoked, success tt)
      | failure e ↦ elim e [ not_found ↦ (revoked, success tt) | other ↦ (revoked, failure other) ]
    ]

unfoldable pub revoke_any_session :
    Principal → String → ℕ → Accounts → Accounts × Outcome (Unit {0})
unfolding Repository.find_session_by_id Repository.revoke_session
revoke_any_session principal session_id now db =
    if not (str_eq principal.role role_admin)
    then (db, failure forbidden)
    else elim (Repository.find_session_by_id "" session_id db) [
      | none ↦ (db, failure not_found)
      | some s ↦ Repository.revoke_session s.user_id session_id now db
    ]

unfoldable pub set_user_active : String → Bool → ℕ → Accounts → Accounts × Outcome (Unit {0})
unfolding Repository.set_active Repository.revoke_all_user_sessions
set_user_active user_id active now db =
    let (updated, r) = Repository.set_active user_id active now db in
    elim r [
      | failure e ↦ (updated, failure e)
      | success _ ↦
          if active
          then (updated, success tt)
          else (Repository.revoke_all_user_sessions user_id now updated, success tt)
    ]
