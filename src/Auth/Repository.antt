-- ===== src/Auth/Repository.antt =====
-- services/api_go/internal/auth/repository_sqlite.go: the statements on users and sessions.
use luxury_video_tool.Base.{
  ℕ, String, Option, none, some, Bool, ◌&&◌, ◌||◌, not, List, [], ◌∷◌, ◌++◌, if◌then◌else◌, ltb,
  ◌==◌, str_eq, is_none,
}
use luxury_video_tool.Sql.{update, affected, find, exists}
use luxury_video_tool.Auth.Model.{
  User, Session, Accounts, Outcome, success, failure, not_found, revoked_session, constraint_failed,
  role_admin, role_user,
}

abbrev pub has_user_id : String → User → Bool
has_user_id user_id u = str_eq u.id user_id

-- CHECK (role IN ('admin', 'user'))
unfoldable pub is_role : String → Bool
is_role role = str_eq role role_admin || str_eq role role_user

-- The PRIMARY KEY, the UNIQUE name and the CHECK of the role.
unfoldable pub create_user : User → Accounts → Accounts × Outcome (Unit {0})
unfolding exists is_role
create_user user db =
    if exists
        (λ (u : User). str_eq u.id user.id || str_eq u.username_normalized user.username_normalized)
        db.users
      || not (is_role user.role)
    then (db, failure constraint_failed)
    else (record db { users = db.users ++ record user { last_login_at = none } ∷ [] }, success tt)

-- An UPDATE of the user of an id, with requireChanged.
unfoldable pub update_user : String → (User → User) → Accounts → Accounts × Outcome (Unit {0})
unfolding update affected
update_user user_id f db = (
  record db { users = update (has_user_id user_id) f db.users },
  if affected (has_user_id user_id) db.users == 0 then failure not_found else success tt,
)

unfoldable pub update_password : String → String → ℕ → Accounts → Accounts × Outcome (Unit {0})
unfolding update_user
update_password user_id hash now =
    update_user user_id (λ u. record u { password_hash = hash; updated_at = now })

unfoldable pub set_active : String → Bool → ℕ → Accounts → Accounts × Outcome (Unit {0})
unfolding update_user
set_active user_id active now =
    update_user user_id (λ u. record u { is_active = active; updated_at = now })

unfoldable pub record_login : String → ℕ → Accounts → Accounts × Outcome (Unit {0})
unfolding update_user
record_login user_id now =
    update_user user_id (λ u. record u { last_login_at = some now; updated_at = now })

unfoldable pub find_user_by_username : String → Accounts → Option User
unfolding find
find_user_by_username name db = find (λ u. str_eq u.username_normalized name) db.users

unfoldable pub find_user_by_id : String → Accounts → Option User
unfolding find
find_user_by_id user_id db = find (has_user_id user_id) db.users

-- An empty user id asks for a session of any user.
abbrev pub is_session_of : String → String → Session → Bool
is_session_of user_id session_id s =
    str_eq s.id session_id && (str_eq user_id "" || str_eq s.user_id user_id)

unfoldable pub find_session_by_id : String → String → Accounts → Option Session
unfolding find
find_session_by_id user_id session_id db = find (is_session_of user_id session_id) db.sessions

-- The constraints of refresh_tokens that a new row can break.
unfoldable pub is_refused_session : Session → Accounts → Bool
unfolding exists
is_refused_session session db =
    exists (λ (s : Session). str_eq s.id session.id || str_eq s.token_hash session.token_hash)
      db.sessions
    || not (exists (has_user_id session.user_id) db.users)
    || not (str_eq session.device.platform "android" || str_eq session.device.platform "windows")

abbrev pub new_row : Session → Session
new_row session = record session { revoked_at = none; replaced_by = none }

unfoldable pub create_session : Session → Accounts → Accounts × Outcome (Unit {0})
unfolding is_refused_session
create_session session db =
    if is_refused_session session db
    then (db, failure constraint_failed)
    else (record db { sessions = db.sessions ++ new_row session ∷ [] }, success tt)

-- The session and its user, joined.
unfoldable pub find_session_by_token_hash : String → Accounts → Option (Session × User)
unfolding find
find_session_by_token_hash hash db = elim (find (λ s. str_eq s.token_hash hash) db.sessions) [
  | none ↦ none
  | some s ↦ elim (find (has_user_id s.user_id) db.users) [ none ↦ none | some u ↦ some (s, u) ]
]

unfoldable pub can_rotate : String → ℕ → Session → Bool
can_rotate old_id now s = str_eq s.id old_id && is_none s.revoked_at && ltb now s.expires_at

unfoldable pub set_rotated : String → ℕ → Session → Session
set_rotated new_id now s = record s {
  revoked_at = some now;
  replaced_by = some new_id;
  last_used_at = now;
}

-- One transaction: the INSERT of the new session is rolled back where no row is revoked.
unfoldable pub rotate_session : String → Session → ℕ → Accounts → Accounts × Outcome (Unit {0})
unfolding is_refused_session update affected can_rotate set_rotated
rotate_session old_id replacement now db =
    if is_refused_session replacement db
    then (db, failure constraint_failed)
    else (let sessions : List Session = db.sessions ++ new_row replacement ∷ [] in
        if affected (can_rotate old_id now) sessions == 0 then (db, failure revoked_session) else (
          record db {
            sessions = update (can_rotate old_id now) (set_rotated replacement.id now) sessions;
          },
          success tt,
        ))

unfoldable pub set_revoked : ℕ → Session → Session
set_revoked now s = record s { revoked_at = some now; last_used_at = now }

unfoldable pub can_revoke : String → String → Session → Bool
can_revoke user_id session_id s =
    str_eq s.id session_id && str_eq s.user_id user_id && is_none s.revoked_at

unfoldable pub revoke_session : String → String → ℕ → Accounts → Accounts × Outcome (Unit {0})
unfolding update affected can_revoke set_revoked
revoke_session user_id session_id now db = (
  record db { sessions = update (can_revoke user_id session_id) (set_revoked now) db.sessions },
  if affected (can_revoke user_id session_id) db.sessions == 0
      then failure not_found
      else success tt,
)

unfoldable pub can_revoke_all : String → Session → Bool
can_revoke_all user_id s = str_eq s.user_id user_id && is_none s.revoked_at

unfoldable pub revoke_all_user_sessions : String → ℕ → Accounts → Accounts
unfolding update can_revoke_all set_revoked
revoke_all_user_sessions user_id now db = record db {
  sessions = update (can_revoke_all user_id) (set_revoked now) db.sessions;
}

unfoldable pub can_revoke_other : String → String → Session → Bool
can_revoke_other user_id keep s =
    str_eq s.user_id user_id && not (str_eq s.id keep) && is_none s.revoked_at

unfoldable pub revoke_other_user_sessions : String → String → ℕ → Accounts → Accounts
unfolding update can_revoke_other set_revoked
revoke_other_user_sessions user_id keep now db = record db {
  sessions = update (can_revoke_other user_id keep) (set_revoked now) db.sessions;
}
