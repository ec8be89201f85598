-- ===== src/Auth/Rotation.antt =====
-- A refresh token is good for one refresh; a second use revokes every session of its user.
use luxury_video_tool.Base.{
  ℕ, ◌≡◌, refl, ap, ◌∙◌, String, some, true, false, List, [], ◌∷◌, ◌++◌, arith, Option-cases, inl,
  inr, is_some, str_eq, eq_refl, leb,
}
use luxury_video_tool.Sql.{update, find}
use luxury_video_tool.Sql.Laws.{find-update}
use luxury_video_tool.Sql.Keys.{find-append_left}
use luxury_video_tool.Auth.Model.{
  User, Session, Device, Accounts, success, failure, revoked_session,
}
use luxury_video_tool.Auth.Repository.{
  find_session_by_token_hash, has_user_id, can_rotate, set_rotated, rotate_session, new_row,
  revoke_all_user_sessions,
}
use luxury_video_tool.Auth.Service.{Settings, Fresh, TokenPair, refresh, new_session}
use luxury_video_tool.Auth.Sessions.{AllRevoked, Outcome-cases, revoke_all-AllRevoked}

rotated_session_found :
    (hash new_id : String) (now : ℕ) (sessions : List Session) (row old : Session)
    → find (λ (s : Session). str_eq s.token_hash hash) sessions ≡ some old
    → can_rotate old.id now old ≡ true
    → find
        (λ (s : Session). str_eq s.token_hash hash)
        (update (can_rotate old.id now) (set_rotated new_id now) (sessions ++ row ∷ []))
      ≡ some (set_rotated new_id now old)
rotated_session_found hash new_id now sessions row old there fits =
    rw
      (
        find-update (λ (s : Session). str_eq s.token_hash hash) (can_rotate old.id now)
            (set_rotated new_id now) (λ s. unfold set_rotated in refl) (sessions ++ row ∷ []),
        find-append_left (λ (s : Session). str_eq s.token_hash hash) sessions (row ∷ []) old there,
        fits,
      )
      refl

rotated_found :
    (hash new_id : String) (now : ℕ) (db : Accounts) (row old : Session) (user : User)
    → find_session_by_token_hash hash db ≡ some (old, user)
    → can_rotate old.id now old ≡ true
    → find_session_by_token_hash hash (record db {
      sessions = update (can_rotate old.id now) (set_rotated new_id now) (db.sessions ++ row ∷ []);
    })
      ≡ some (set_rotated new_id now old, user)
unfolding find_session_by_token_hash set_rotated
rotated_found hash new_id now db row old user there fits =
    elim (Option-cases (find (λ (s : Session). str_eq s.token_hash hash) db.sessions)) [
      | inl n ↦ absurd (ground arith)
      | inr (s, e) ↦ elim (Option-cases (find (has_user_id s.user_id) db.users)) [
        | inl n ↦ absurd (ground arith)
        | inr (u, f) ↦
            let same : s ≡ old = ground arith in
            let kept = rotated_session_found hash new_id now db.sessions row old in
            ground (arith, kept)
      ]
    ]

rotate_success :
    (old_id : String) (replacement : Session) (now : ℕ) (db : Accounts)
    → (rotate_session old_id replacement now db).1 ≡ success tt
    → (rotate_session old_id replacement now db).0 ≡ record db {
      sessions =
          update
            (can_rotate old_id now)
            (set_rotated replacement.id now)
            (db.sessions ++ new_row replacement ∷ []);
    }
unfolding rotate_session
rotate_success old_id replacement now db h = ground arith

usable :
    (old : Session) (now : ℕ)
    → is_some old.revoked_at ≡ false
    → leb old.expires_at now ≡ false
    → can_rotate old.id now old ≡ true
unfolding can_rotate
usable old now r e = ground (arith, eq_refl old.id)

module _ (settings : Settings) where
  -- What a refresh that succeeds found and wrote.
  refreshed :
      (raw : String) (fresh : Fresh) (now : ℕ) (db : Accounts) {pair : TokenPair}
      → (refresh settings raw fresh now db).1 ≡ success pair
      → (old : Session) × (user : User) × (find_session_by_token_hash (settings.digest raw) db
          ≡ some (old, user))
        × (can_rotate old.id now old ≡ true)
        × ((rotate_session old.id (new_session settings user old.device fresh now).1 now db).1
            ≡ success tt)
        × ((refresh settings raw fresh now db).0
            ≡ (rotate_session old.id (new_session settings user old.device fresh now).1 now db).0)
        × (pair ≡ (new_session settings user old.device fresh now).0)
  unfolding refresh
  refreshed raw fresh now db {pair} h =
      elim (Option-cases (find_session_by_token_hash (settings.digest raw) db)) [
        | inl n ↦ absurd (ground arith)
        | inr ((old, user), e) ↦
            elim (Outcome-cases
              (rotate_session old.id (new_session settings user old.device fresh now).1 now db).1) [
                | inr (x, f) ↦ absurd (ground arith)
                | inl (x, f) ↦ (
                  old,
                  user,
                  e,
                  usable old now (ground arith) (ground arith),
                  f,
                  ground arith,
                  ground arith,
                )
              ]
      ]

  refused_again :
      (raw : String) (again : Fresh) (later : ℕ) (db : Accounts) (old : Session) (user : User)
      → find_session_by_token_hash (settings.digest raw) db ≡ some (old, user)
      → is_some old.revoked_at ≡ true
      → refresh settings raw again later db
        ≡ (revoke_all_user_sessions user.id later db, failure revoked_session)
  unfolding refresh
  refused_again raw again later db old user e r = ground arith

  pair_user :
      (user : User) (device : Device) (fresh : Fresh) (now : ℕ)
      → (new_session settings user device fresh now).0.user ≡ user
  unfolding new_session
  pair_user user device fresh now = refl

  -- Once a refresh token has been exchanged, a second use of it is refused, whenever it comes, and
  -- revokes every session of the user that it belonged to.
  pub refresh-reuse :
      (raw : String) (fresh : Fresh) (now : ℕ) (db : Accounts) {pair : TokenPair}
      → (refresh settings raw fresh now db).1 ≡ success pair
      → (again : Fresh) (later : ℕ)
      → ((refresh settings raw again later (refresh settings raw fresh now db).0).1
          ≡ failure revoked_session)
        × AllRevoked
            (λ s. str_eq s.user_id pair.user.id)
            (refresh settings raw again later (refresh settings raw fresh now db).0).0
  refresh-reuse raw fresh now db {pair} h again later =
      let (old, user, e, fits, rotated, tables, made) = refreshed raw fresh now db h in
      let row : Session = (new_session settings user old.device fresh now).1 in
      let after : find_session_by_token_hash (settings.digest raw)
            (refresh settings raw fresh now db).0
          ≡ some (set_rotated row.id now old, user) =
        rw (tables, rotate_success old.id row now db rotated)
          (rotated_found (settings.digest raw) row.id now db (new_row row) old user e fits) in
      let refused =
        refused_again raw again later (refresh settings raw fresh now db).0
          (set_rotated row.id now old) user after (unfold set_rotated in refl) in
      let owner : pair.user ≡ user =
        ap (λ (t : TokenPair). t.user) made ∙ pair_user user old.device fresh now in
      (
        ap (λ t. t.1) refused,
        rw (refused, owner)
            (revoke_all-AllRevoked user.id later (refresh settings raw fresh now db).0),
      )
