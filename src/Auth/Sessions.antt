-- ===== src/Auth/Sessions.antt =====
-- What ends a session, and what a session that has ended is still good for: nothing.
pub mod Ends
use luxury_video_tool.Base.{
  ℕ, ◌≡◌, ◌<◌, sym, subst, ◌⊎◌, refl, String, some, Bool, true, false, ◌&&◌, not, List, [], ◌∷◌,
  All, arith, Bool-cases, Option-cases, inl, inr, is_some, is_none, str_eq, eq_iff,
}
use luxury_video_tool.Sql.{update}
use luxury_video_tool.Sql.Laws.{find-All, find_sat}
use luxury_video_tool.Auth.Model.{
  User, Session, Principal, Accounts, Outcome, Failure, success, failure,
}
use luxury_video_tool.Auth.Repository
use luxury_video_tool.Auth.Token.{parse_access}
use luxury_video_tool.Auth.Service.{
  Settings, validate_access, reset_password, set_user_active, logout, change_password,
  hash_password,
}

abbrev pub AllRevoked : (Session → Bool) → Accounts → Type 0
AllRevoked q db = All (λ s. q s ≡ true → is_some s.revoked_at ≡ true) db.sessions

update-AllRevoked :
    (q p : Session → Bool) (now : ℕ) (users : List User)
    → ((s : Session) → q s ≡ true → is_none s.revoked_at ≡ true → p s ≡ true)
    → ((s : Session) → q (Repository.set_revoked now s) ≡ q s)
    → (xs : List Session)
    → AllRevoked q (record { users = users; sessions = update p (Repository.set_revoked now) xs })
unfolding update Repository.set_revoked
update-AllRevoked q p now users covers same [] = tt
update-AllRevoked q p now users covers same (s ∷ ss) = (
  (elim (Bool-cases (p s)) [
    | inl e ↦ rw e (λ h. refl)
    | inr e ↦ rw e (λ h. ground (arith, covers s))
  ]),
  update-AllRevoked q p now users covers same ss,
)

pub revoke_all-AllRevoked :
    (user_id : String) (now : ℕ) (db : Accounts)
    → AllRevoked
        (λ s. str_eq s.user_id user_id)
        (Repository.revoke_all_user_sessions user_id now db)
unfolding Repository.revoke_all_user_sessions
revoke_all-AllRevoked user_id now db =
    update-AllRevoked (λ s. str_eq s.user_id user_id) (Repository.can_revoke_all user_id) now
      db.users (λ s q n. unfold Repository.can_revoke_all in ground arith)
      (λ s. unfold Repository.set_revoked in refl) db.sessions

pub revoke_other-AllRevoked :
    (user_id keep : String) (now : ℕ) (db : Accounts)
    → AllRevoked
        (λ s. str_eq s.user_id user_id && not (str_eq s.id keep))
        (Repository.revoke_other_user_sessions user_id keep now db)
unfolding Repository.revoke_other_user_sessions
revoke_other-AllRevoked user_id keep now db =
    update-AllRevoked (λ s. str_eq s.user_id user_id && not (str_eq s.id keep))
      (Repository.can_revoke_other user_id keep) now db.users
      (λ s q n. unfold Repository.can_revoke_other in ground arith)
      (λ s. unfold Repository.set_revoked in refl) db.sessions

pub logout-AllRevoked :
    (user_id session_id : String) (now : ℕ) (db : Accounts)
    → AllRevoked
        (λ s. str_eq s.user_id user_id && str_eq s.id session_id)
        (logout user_id session_id now db).0
unfolding logout Repository.revoke_session
logout-AllRevoked user_id session_id now db =
    let ends : (logout user_id session_id now db).0
        ≡ (Repository.revoke_session user_id session_id now db).0 =
      ground arith in
    rw ends (
      update-AllRevoked (λ s. str_eq s.user_id user_id && str_eq s.id session_id)
        (Repository.can_revoke user_id session_id) now db.users
        (λ s q n. unfold Repository.can_revoke in ground arith)
        (λ s. unfold Repository.set_revoked in refl) db.sessions)

pub Outcome-cases {ℓ} :
    {A : Type ℓ} (o : Outcome A) → ((a : A) × (o ≡ success a)) ⊎ ((e : Failure) × (o ≡ failure e))
Outcome-cases (success a) = inl (a, refl)
Outcome-cases (failure e) = inr (e, refl)

-- The user is active, and the session is there, not revoked and not expired.
abbrev pub IsLive : Principal → ℕ → Accounts → Type 0
IsLive p now db =
    (u : User) × (s : Session) × (Repository.find_user_by_id p.user_id db ≡ some u)
    × (u.is_active ≡ true)
    × (Repository.find_session_by_id p.user_id p.session_id db ≡ some s)
    × (is_some s.revoked_at ≡ false)
    × (now < s.expires_at)

module _ (settings : Settings) where
  -- An access token is accepted only while its user is active and its session is there, not revoked
  -- and not expired.
  pub validate_access-IsLive :
      (raw : String) (now : ℕ) (db : Accounts) {p : Principal}
      → validate_access settings raw now db ≡ success p
      → IsLive p now db
  unfolding validate_access
  validate_access-IsLive raw now db {p} h =
      elim (Outcome-cases (parse_access settings.codec raw now)) [
        | inr (e, t) ↦ absurd (ground arith)
        | inl (q, t) ↦ elim (Option-cases (Repository.find_user_by_id q.user_id db)) [
          | inl n ↦ absurd (ground arith)
          | inr (u, found) ↦
              elim (Option-cases (Repository.find_session_by_id q.user_id q.session_id db)) [
                | inl n ↦ absurd (ground arith)
                | inr (s, there) ↦
                    let same : q ≡ p = ground arith in
                    (
                      u,
                      s,
                      rw (sym same) found,
                      ground arith,
                      rw (sym same) there,
                      ground arith,
                      ground arith,
                    )
              ]
        ]
      ]
