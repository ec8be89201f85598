-- ===== src/Http/Access.antt =====
-- Who gets to what: the access token before a protected endpoint, the role before an administrator's,
-- and the jobs that a user's requests come to.
use luxury_video_tool.Base.{
  ℕ, ◌+◌, ◌≡◌, ◌⊎◌, refl, String, some, false, inl, inr, Bool-cases, Option-cases, str_eq,
}
use luxury_video_tool.Auth.Model
use luxury_video_tool.Auth.Model.{Accounts, Principal, success, failure, role_admin}
use luxury_video_tool.Auth.Service.{validate_access, revoke_any_session}
use luxury_video_tool.Jobs.Model.{Db}
use luxury_video_tool.Jobs.Lifecycle.Steps.{IsSoundDb}
use luxury_video_tool.Http.Admin.{
  handle_revoke_any, handle_providers, handle_set_providers, handle_stats, handle_users,
  handle_create_user, handle_reset_password, handle_set_active, handle_user_sessions,
}
use luxury_video_tool.Http.Admin.Jobs.{
  handle_all_jobs, handle_any_job, handle_cancel_any, handle_retry_any, handle_delete_any,
  handle_any_file,
}
use luxury_video_tool.Http.Keeps.{Rely}
use luxury_video_tool.Http.Keeps.Others.{IsForeign, others-Guarantee, others-Creates}
use luxury_video_tool.Http.Keeps.Requests.{Keeps-serve_own}
use luxury_video_tool.Http.Keeps.Sound.{sound-Guarantee, sound-Creates}
use luxury_video_tool.Http.Keeps.Whole.{serve-Keeps}
use luxury_video_tool.Http.Request.{Request, bearer}
use luxury_video_tool.Http.Response.{Response}
use luxury_video_tool.Http.Run.{
  Data, World, Dependencies, Outside, answered, Exec, give, ◌>>=◌, ask, act, call,
}
use luxury_video_tool.Http.Serve
use luxury_video_tool.Http.Serve.{
  Own, OfAdmin, Endpoint, admitted, expired, revoked, response_of, principal_of, require_auth,
  serve_own, serve_admin, serve,
}

-- What others do between two calls keeps `P`.
abbrev pub KeptByOthers : Outside → (Data → Type 0) → Type 0
KeptByOthers o P = (t : ℕ) (d : Data) → P d → P (o.others t d)

-- The state and the clock that the check of the token meets.
abbrev pub met : Outside → World → World
met o w = record w {
  state = o.others (w.turn + 1) (o.others w.turn w.state);
  turn = w.turn + 1 + 1;
}

-- The handler goes on for a principal whose access token is valid at the clock, by the accounts met.
abbrev pub Admitted :
    Outside → Dependencies → Request → (Principal → Exec Response) → World → Type 0
Admitted o deps r next w =
    (token : String) × (p : Principal) × (bearer deps.readers r ≡ some token)
    × (validate_access deps.auth token (o.clock w.turn) (met o w).state.accounts ≡ success p)
    × (require_auth o deps r next w ≡ next p (met o w))

denied :
    (e : Model.Failure)
    → (r : Response) × (admitted (some (failure e)) ≡ answered r) × (r.status ≡ 401)
denied Model.invalid_credentials = (expired, refl, refl)
denied Model.inactive_user = (expired, refl, refl)
denied Model.username_taken = (expired, refl, refl)
denied Model.invalid_token = (expired, refl, refl)
denied Model.expired_token = (expired, refl, refl)
denied Model.revoked_session = (revoked, refl, refl)
denied Model.forbidden = (expired, refl, refl)
denied Model.not_found = (expired, refl, refl)
denied Model.constraint_failed = (expired, refl, refl)
denied Model.bad_password = (expired, refl, refl)
denied Model.bad_name = (expired, refl, refl)
denied Model.bad_role = (expired, refl, refl)

revoke_refused :
    (p : Principal) (id : String) (at : ℕ) (accounts : Accounts)
    → str_eq p.role role_admin ≡ false
    → ◌≡◌ {A = Accounts × Model.Outcome (Unit {0})}
        (revoke_any_session p id at accounts)
        (accounts, failure Model.forbidden)
unfolding revoke_any_session
revoke_refused p id at accounts n = rw n refl

module _ (o : Outside) (deps : Dependencies) (r : Request) where
  -- Behind the check of the access token, whatever the handler is: either the answer has the status
  -- 401 and all that other requests and workers keep of the tables, the limiter and the disk is kept,
  -- or the header has a token that is valid for a principal, by the clock and by the accounts that
  -- are met, and the handler runs for this principal on the state that is met.
  pub require_auth-admits :
      (next : Principal → Exec Response) (w : World) {P : Data → Type 0}
      → KeptByOthers o P
      → P w.state
      → ((response_of (require_auth o deps r next w).0).status ≡ 401)
          × P (require_auth o deps r next w).1.state
        ⊎ Admitted o deps r next w
  unfolding require_auth principal_of give ask call ◌>>=◌
  require_auth-admits next w {P} kept h = elim (Option-cases (bearer deps.readers r)) [
    | inl n ↦ inl (rw n (refl, h))
    | inr (token, t) ↦ elim (Bool-cases (o.fault (w.turn + 1))) [
      | inl lost ↦ inl (rw (t, lost) (refl, kept (w.turn + 1) _ (kept w.turn _ h)))
      | inr here ↦ checked token t here _ refl
    ]
  ]
    where
      checked :
          (token : String)
          → bearer deps.readers r ≡ some token
          → o.fault (w.turn + 1) ≡ false
          → (x : Model.Outcome Principal)
          → validate_access deps.auth token (o.clock w.turn) (met o w).state.accounts ≡ x
          → ((response_of (require_auth o deps r next w).0).status ≡ 401)
              × P (require_auth o deps r next w).1.state
            ⊎ Admitted o deps r next w
      checked token t here (failure e) v =
          let (answer, is_it, status) = denied e in
          inl (rw (t, here, v, is_it) (status, kept (w.turn + 1) _ (kept w.turn _ h)))
      checked token t here (success p) v = inr (token, p, t, v, rw (t, here, v) refl)

  module _ (request_id : String) (p : Principal) where
    -- An endpoint of an administrator, asked by a principal of another role, answers with the status
    -- 403, and all that other requests and workers keep of the tables, the limiter and the disk is
    -- kept.
    pub serve_admin-forbidden :
        (e : OfAdmin) (w : World) {P : Data → Type 0}
        → str_eq p.role role_admin ≡ false
        → KeptByOthers o P
        → P w.state
        → ((response_of (serve_admin o deps r request_id e p w).0).status ≡ 403)
          × P (serve_admin o deps r request_id e p w).1.state
    unfolding serve_admin handle_providers handle_stats handle_users handle_all_jobs
        handle_revoke_any handle_user_sessions handle_any_job handle_cancel_any handle_retry_any
        handle_delete_any handle_any_file handle_set_providers handle_create_user
        handle_reset_password handle_set_active give ask act ◌>>=◌
    serve_admin-forbidden Serve.providers w n kept h = rw n (refl, h)
    serve_admin-forbidden Serve.stats w n kept h = rw n (refl, h)
    serve_admin-forbidden Serve.users w n kept h = rw n (refl, h)
    serve_admin-forbidden Serve.all_jobs w n kept h = rw n (refl, h)
    serve_admin-forbidden (Serve.revoke_any id) w n kept h =
        rw (n, revoke_refused p id (o.clock w.turn) (met o w).state.accounts n)
          (refl, kept (w.turn + 1) _ (kept w.turn _ h))
    serve_admin-forbidden (Serve.user_sessions id) w n kept h = rw n (refl, h)
    serve_admin-forbidden (Serve.any_job id) w n kept h = rw n (refl, h)
    serve_admin-forbidden (Serve.cancel_any id) w n kept h = rw n (refl, h)
    serve_admin-forbidden (Serve.retry_any id) w n kept h = rw n (refl, h)
    serve_admin-forbidden (Serve.delete_any id) w n kept h = rw n (refl, h)
    serve_admin-forbidden (Serve.any_file id) w n kept h = rw n (refl, h)
    serve_admin-forbidden (Serve.set_providers body) w n kept h = rw n (refl, h)
    serve_admin-forbidden (Serve.create_user body) w n kept h = rw n (refl, h)
    serve_admin-forbidden (Serve.reset_password id body) w n kept h = rw n (refl, h)
    serve_admin-forbidden (Serve.set_active id body) w n kept h = rw n (refl, h)

    -- An endpoint for a user's own things keeps whatever is said of the jobs of the other users only,
    -- where other requests and workers keep it between the calls.
    pub serve_own-others :
        (e : Own) (w : World) {P : Db → Type 0}
        → IsForeign p.user_id P
        → Rely o P
        → P w.state.db
        → P (serve_own o deps r request_id e p w).1.state.db
    serve_own-others e w foreign rely h =
        (Keeps-serve_own o rely deps r request_id p (others-Guarantee p.user_id foreign)
            (others-Creates p.user_id foreign deps.extract) e).at
          w h

  -- A request to any endpoint, from the middleware on, keeps the table of jobs sound: every row keeps
  -- its progress, attempt, lease, completion and error columns consistent, and the ids and the
  -- idempotency keys stay unique, where other requests and workers keep it so between the calls.
  pub serve-IsSoundDb :
      (e : Endpoint) (w : World)
      → Rely o IsSoundDb
      → IsSoundDb w.state.db
      → IsSoundDb (serve o deps r e w).1.state.db
  serve-IsSoundDb e w rely v =
      serve-Keeps o rely deps r sound-Guarantee (sound-Creates deps.extract) e w v
