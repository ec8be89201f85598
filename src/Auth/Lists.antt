-- ===== src/Auth/Lists.antt =====
-- The lists of services/api_go/internal/auth: users and sessions, from repository_sqlite.go and
-- service.go, and RevokeSession of service.go.
use luxury_video_tool.Base.{
  ℕ, String, Bool, true, false, ◌&&◌, ◌||◌, List, [], ◌∷◌, if◌then◌else◌, ltb, ◌==◌, str_eq,
  is_none, map,
}
use Prim.Native.String.{compare}
use Prim.Native.Nat.{Ordering}
use luxury_video_tool.Sql.{select}
use luxury_video_tool.Auth.Model.{User, Session, Principal, Accounts, Outcome}
use luxury_video_tool.Auth.Repository.{revoke_session}

-- ORDER BY created_at ASC, username_normalized ASC
abbrev user_before : User → User → Bool
user_before x y =
    ltb x.created_at y.created_at
    || (x.created_at == y.created_at && elim (compare x.username_normalized y.username_normalized) [
      | Ordering.gt ↦ false
      | _ ↦ true
    ])

unfoldable pub insert_user : User → List User → List User
insert_user u [] = u ∷ []
insert_user u (x ∷ xs) =
    let rest = insert_user u xs in if user_before u x then u ∷ x ∷ xs else x ∷ rest

unfoldable pub in_order : List User → List User
unfolding insert_user
in_order [] = []
in_order (u ∷ us) = insert_user u (in_order us)

-- Service.ListUsers: without the password hashes.
unfoldable pub list_users : Accounts → List User
unfolding in_order
list_users db = map (λ (u : User). record u { password_hash = "" }) (in_order db.users)

-- WHERE user_id = ? AND revoked_at IS NULL AND expires_at > ?
abbrev pub is_open_session : String → ℕ → Session → Bool
is_open_session user_id now s =
    str_eq s.user_id user_id && is_none s.revoked_at && ltb now s.expires_at

-- ORDER BY last_used_at DESC
unfoldable pub insert_session : Session → List Session → List Session
insert_session s [] = s ∷ []
insert_session s (x ∷ xs) =
    let rest = insert_session s xs in
    if ltb s.last_used_at x.last_used_at then x ∷ rest else s ∷ x ∷ xs

unfoldable pub latest_first : List Session → List Session
unfolding insert_session
latest_first [] = []
latest_first (s ∷ ss) = insert_session s (latest_first ss)

unfoldable pub list_sessions : String → ℕ → Accounts → List Session
unfolding select latest_first
list_sessions user_id now db =
    map (λ (s : Session). record s { token_hash = "" })
      (latest_first (select (is_open_session user_id now) db.sessions))

-- Service.RevokeSession
unfoldable pub revoke_own_session :
    Principal → String → ℕ → Accounts → Accounts × Outcome (Unit {0})
unfolding revoke_session
revoke_own_session principal session_id now db = revoke_session principal.user_id session_id now db
