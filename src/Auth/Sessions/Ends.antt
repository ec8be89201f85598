-- ===== src/Auth/Sessions/Ends.antt =====
-- What ends sessions: a password reset, a change of the password, a user switched off, a logout.
use luxury_video_tool.Base.{
  ℕ, ◌≡◌, sym, subst, String, Bool, true, false, ◌&&◌, not, arith, Bool-cases, Option-cases, inl,
  inr, is_some, str_eq, eq_iff,
}
use luxury_video_tool.Sql.Laws.{find-All, find_sat}
use luxury_video_tool.Auth.Model.{Session, Principal, Accounts, success}
use luxury_video_tool.Auth.Repository
use luxury_video_tool.Auth.Service.{
  Settings, validate_access, reset_password, set_user_active, logout, change_password,
  hash_password,
}
use luxury_video_tool.Auth.Sessions.{
  AllRevoked, Outcome-cases, validate_access-IsLive, revoke_all-AllRevoked, revoke_other-AllRevoked,
  logout-AllRevoked,
}

module _ (settings : Settings) where
  -- Where every session of the kind is revoked, an accepted token has none of that kind.
  not_of_revoked :
      (q : Session → Bool) (raw : String) (now : ℕ) (db : Accounts) {p : Principal}
      → AllRevoked q db
      → ((s : Session) → Repository.is_session_of p.user_id p.session_id s ≡ true → q s ≡ true)
      → validate_access settings raw now db ≡ success p
      → ⊥
  unfolding Repository.find_session_by_id
  not_of_revoked q raw now db {p} revoked kind h =
      let (u, s, found, active, there, live, unexpired) =
        validate_access-IsLive settings raw now db h in
      let gone =
        find-All (λ s. q s ≡ true → is_some s.revoked_at ≡ true) _ db.sessions revoked there in
      let ended = gone (kind s (find_sat _ db.sessions there)) in cc

  of_user :
      (user_id : String) (p : Principal) (s : Session)
      → str_eq user_id "" ≡ false
      → str_eq p.user_id user_id ≡ true
      → Repository.is_session_of p.user_id p.session_id s ≡ true
      → str_eq s.user_id user_id ≡ true
  of_user user_id p s nonempty same h =
      let e : p.user_id ≡ user_id = (eq_iff p.user_id user_id).0 same in
      let g : Repository.is_session_of user_id p.session_id s ≡ true =
        subst (λ t. Repository.is_session_of t p.session_id s ≡ true) e h in
      ground arith

  reset_password-AllRevoked :
      (user_id password : String) (now : ℕ) (db : Accounts)
      → (reset_password settings user_id password now db).1 ≡ success tt
      → AllRevoked
          (λ s. str_eq s.user_id user_id)
          (reset_password settings user_id password now db).0
  unfolding reset_password Repository.revoke_all_user_sessions Repository.can_revoke_all
  reset_password-AllRevoked user_id password now db done =
      elim (Option-cases (hash_password settings password)) [
        | inl n ↦ absurd (ground arith)
        | inr (hash, e) ↦ elim (Outcome-cases (Repository.update_password user_id hash now db).1) [
          | inr (x, f) ↦ absurd (ground arith)
          | inl (x, f) ↦
              let ends : (reset_password settings user_id password now db).0
                  ≡ Repository.revoke_all_user_sessions user_id now
                      (Repository.update_password user_id hash now db).0 =
                ground arith in
              rw ends (
                revoke_all-AllRevoked user_id now
                  (Repository.update_password user_id hash now db).0)
        ]
      ]

  -- In the state that a successful password reset leaves, no access token of that user, whose id
  -- is not empty, is accepted at any time.
  pub reset_password-ends :
      (user_id password : String) (now : ℕ) (db : Accounts)
      → str_eq user_id "" ≡ false
      → (reset_password settings user_id password now db).1 ≡ success tt
      → (raw : String) (later : ℕ) (p : Principal)
      → validate_access settings raw later (reset_password settings user_id password now db).0
        ≡ success p
      → str_eq p.user_id user_id ≡ false
  reset_password-ends user_id password now db nonempty done raw later p h =
      elim (Bool-cases (str_eq p.user_id user_id)) [
        | inr e ↦ e
        | inl e ↦ absurd (
            not_of_revoked (λ s. str_eq s.user_id user_id) raw later _
              (reset_password-AllRevoked user_id password now db done)
              (λ s. of_user user_id p s nonempty e) h)
      ]

  -- In the state that a logout leaves, no access token of that session of the user, whose id is
  -- not empty, is accepted at any time.
  pub logout-ends :
      (user_id session_id : String) (now : ℕ) (db : Accounts)
      → str_eq user_id "" ≡ false
      → (raw : String) (later : ℕ) (p : Principal)
      → validate_access settings raw later (logout user_id session_id now db).0 ≡ success p
      → (str_eq p.user_id user_id && str_eq p.session_id session_id) ≡ false
  logout-ends user_id session_id now db nonempty raw later p h =
      elim (Bool-cases (str_eq p.user_id user_id && str_eq p.session_id session_id)) [
        | inr e ↦ e
        | inl e ↦
            let user : str_eq p.user_id user_id ≡ true = ground arith in
            let id : p.session_id ≡ session_id =
              (eq_iff p.session_id session_id).0 (ground arith) in
            absurd (
              not_of_revoked (λ s. str_eq s.user_id user_id && str_eq s.id session_id) raw later _
                (logout-AllRevoked user_id session_id now db)
                (λ s k. ground (
                  arith,
                  of_user user_id p s nonempty user k,
                  subst (λ t. Repository.is_session_of p.user_id t s ≡ true) id k,
                ))
                h)
      ]

  change_password-AllRevoked :
      (principal : Principal) (current new : String) (now : ℕ) (db : Accounts)
      → (change_password settings principal current new now db).1 ≡ success tt
      → AllRevoked
          (λ s. str_eq s.user_id principal.user_id && not (str_eq s.id principal.session_id))
          (change_password settings principal current new now db).0
  unfolding change_password
  change_password-AllRevoked principal current new now db done =
      elim (Option-cases (Repository.find_user_by_id principal.user_id db)) [
        | inl n ↦ absurd (ground arith)
        | inr (u, found) ↦ elim (Option-cases (hash_password settings new)) [
          | inl n ↦ absurd (ground arith)
          | inr (hash, e) ↦
              elim (Outcome-cases (Repository.update_password principal.user_id hash now db).1) [
                | inr (x, f) ↦ absurd (ground arith)
                | inl (x, f) ↦
                    let updated : Accounts =
                      (Repository.update_password principal.user_id hash now db).0 in
                    let ends : (change_password settings principal current new now db).0
                        ≡ Repository.revoke_other_user_sessions principal.user_id
                            principal.session_id now updated =
                      ground arith in
                    rw ends
                      (revoke_other-AllRevoked principal.user_id principal.session_id now updated)
              ]
        ]
      ]

  -- In the state that a successful change of the password leaves, an access token of that user,
  -- whose id is not empty, is accepted only if it belongs to the session that changed it.
  pub change_password-ends :
      (principal : Principal) (current new : String) (now : ℕ) (db : Accounts)
      → str_eq principal.user_id "" ≡ false
      → (change_password settings principal current new now db).1 ≡ success tt
      → (raw : String) (later : ℕ) (p : Principal)
      → validate_access settings raw later (change_password settings principal current new now db).0
        ≡ success p
      → str_eq p.user_id principal.user_id ≡ true
      → p.session_id ≡ principal.session_id
  change_password-ends principal current new now db nonempty done raw later p h user =
      elim (Bool-cases (str_eq p.session_id principal.session_id)) [
        | inl e ↦ (eq_iff _ _).0 e
        | inr e ↦ absurd (
            not_of_revoked
              (λ s. str_eq s.user_id principal.user_id && not (str_eq s.id principal.session_id))
              raw later _ (change_password-AllRevoked principal current new now db done)
              (λ s k.
                let id : s.id ≡ p.session_id = (eq_iff _ _).0 (ground arith) in
                let other : str_eq s.id principal.session_id ≡ false =
                  subst (λ t. str_eq t principal.session_id ≡ false) (sym id) e in
                ground (arith, of_user principal.user_id p s nonempty user k))
              h)
      ]

  set_user_active-AllRevoked :
      (user_id : String) (now : ℕ) (db : Accounts)
      → (set_user_active user_id false now db).1 ≡ success tt
      → AllRevoked (λ s. str_eq s.user_id user_id) (set_user_active user_id false now db).0
  unfolding set_user_active
  set_user_active-AllRevoked user_id now db done =
      elim (Outcome-cases (Repository.set_active user_id false now db).1) [
        | inr (x, f) ↦ absurd (ground arith)
        | inl (x, f) ↦
            let updated : Accounts = (Repository.set_active user_id false now db).0 in
            let ends : (set_user_active user_id false now db).0
                ≡ Repository.revoke_all_user_sessions user_id now updated =
              ground arith in
            rw ends (revoke_all-AllRevoked user_id now updated)
      ]

  -- In the state that switching a user off leaves, no access token of that user, whose id is not
  -- empty, is accepted at any time.
  pub set_user_active-ends :
      (user_id : String) (now : ℕ) (db : Accounts)
      → str_eq user_id "" ≡ false
      → (set_user_active user_id false now db).1 ≡ success tt
      → (raw : String) (later : ℕ) (p : Principal)
      → validate_access settings raw later (set_user_active user_id false now db).0 ≡ success p
      → str_eq p.user_id user_id ≡ false
  set_user_active-ends user_id now db nonempty done raw later p h =
      elim (Bool-cases (str_eq p.user_id user_id)) [
        | inr e ↦ e
        | inl e ↦ absurd (
            not_of_revoked (λ s. str_eq s.user_id user_id) raw later _
              (set_user_active-AllRevoked user_id now db done) (λ s. of_user user_id p s nonempty e)
              h)
      ]
