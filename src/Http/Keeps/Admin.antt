-- ===== src/Http/Keeps/Admin.antt =====
-- What the handlers of an administrator keep, and a whole request.
use luxury_video_tool.Base.{ℕ, String, Option, none, some, Bool, true, false, str_eq}
use luxury_video_tool.Auth.Model.{Principal, role_admin}
use luxury_video_tool.Jobs.Model.{Db}
use luxury_video_tool.Http.Admin.{
  UserForm, ProviderForm, read_status, revoke_call, save_setting, count_users, count_jobs,
  handle_revoke_any, handle_providers, handle_set_providers, handle_stats, handle_users,
  handle_create_user, handle_reset_password, handle_set_active, handle_user_sessions,
}
use luxury_video_tool.Http.Admin.Jobs.{
  found_any, handle_all_jobs, handle_any_job, handle_cancel_any, handle_retry_any,
  handle_delete_any, handle_any_file,
}
use luxury_video_tool.Http.Keeps.{
  Keeps, Rely, Guarantee, Keeps-give, Keeps-bind, Keeps-then, Keeps-if, Keeps-act, Keeps-asked,
  Keeps-looked, Keeps-call, Keeps-called,
}
use luxury_video_tool.Http.Keeps.Own.{
  Keeps-record_audit, Keeps-cancel_job, Keeps-retry_call, Keeps-delete_found, Keeps-download_file,
}
use luxury_video_tool.Http.Request.{Request, Decoded}
use luxury_video_tool.Http.Run.{Dependencies, Outside}
use luxury_video_tool.Http.Serve
use luxury_video_tool.Http.Serve.{
  OfAdmin, Endpoint, principal_of, require_auth, mounted, serve_admin, serve_endpoint, with_id,
  serve,
}
use luxury_video_tool.Http.Session

module _ (o : Outside) {P : Db → Type 0} (rely : Rely o P) (deps : Dependencies) (r : Request)
    (request_id : String) where
  module _ (p : Principal) where
    Keeps-audited :
        (action target metadata : String)
        → Keeps P (Session.record_audit o deps r request_id p.user_id action target metadata)
    Keeps-audited action target metadata = Keeps-record_audit o rely deps r request_id _ _ _ _

    Keeps-read_status : Keeps P (read_status o deps r request_id p)
    Keeps-read_status = Keeps-looked o rely _ _ (λ s. Keeps-give _)

    Keeps-save_setting :
        (name message : String) (value : Option String)
        → Keeps P (save_setting o deps r request_id p name message value)
    unfolding save_setting
    Keeps-save_setting name message none = Keeps-give _
    Keeps-save_setting name message (some value) = Keeps-asked o rely _ _ (λ nonce.
        Keeps-asked o rely _ _ (λ at. Keeps-called o rely _ _ (λ d h. h) (λ result. Keeps-give _)))

    Keeps-revoke_call :
        (id : String) (at : ℕ) (b : Bool) → Keeps P (revoke_call o deps r request_id p id at b)
    Keeps-revoke_call id at true = Keeps-call o rely _ (λ d h. h)
    Keeps-revoke_call id at false =
        Keeps-bind _ _ (Keeps-act o rely _ (λ d h. h)) (λ x. Keeps-give _)

    Keeps-revoke_any : (id : String) → Keeps P (handle_revoke_any o deps r request_id p id)
    unfolding handle_revoke_any
    Keeps-revoke_any id = Keeps-asked o rely _ _ (λ at.
        Keeps-bind _ _ (Keeps-revoke_call id at (str_eq p.role role_admin)) (λ result.
          Keeps-then _ _ (λ x. Keeps-bind _ _ (Keeps-audited _ _ _) (λ u. Keeps-give _))))

    Keeps-providers : Keeps P (handle_providers o deps r request_id p)
    unfolding handle_providers
    Keeps-providers = Keeps-then _ _ (λ x.
        Keeps-then _ _ (λ y.
          Keeps-bind _ _ Keeps-read_status (λ found. Keeps-then _ _ (λ status. Keeps-give _))))

    Keeps-set_providers :
        (body : Decoded ProviderForm) → Keeps P (handle_set_providers o deps r request_id p body)
    unfolding handle_set_providers
    Keeps-set_providers body = Keeps-then _ _ (λ a. Keeps-then _ _ (λ b. Keeps-then _ _ (λ c.
        Keeps-then _ _ (λ form. Keeps-then _ _ (λ e. Keeps-bind _ _ (Keeps-save_setting _ _ _) (λ x.
          Keeps-bind _ _ (Keeps-save_setting _ _ _) (λ y.
            Keeps-bind _ _ (Keeps-save_setting _ _ _) (λ z.
              Keeps-bind _ _ (Keeps-audited _ _ _)
                (λ u. Keeps-bind _ _ Keeps-read_status (λ s. Keeps-give _))))))))))

    Keeps-count_users : Keeps P (count_users o deps r request_id p)
    unfolding count_users
    Keeps-count_users =
        Keeps-if deps.has_auth _ _
          (Keeps-looked o rely _ _ (λ found. Keeps-then _ _ (λ us. Keeps-give _))) (Keeps-give _)

    Keeps-count_jobs : Keeps P (count_jobs o deps r request_id p)
    unfolding count_jobs
    Keeps-count_jobs =
        Keeps-if deps.has_jobs _ _
          (Keeps-asked o rely _ _ (λ at. Keeps-looked o rely _ _ (λ found. Keeps-give _)))
          (Keeps-give _)

    Keeps-stats : Keeps P (handle_stats o deps r request_id p)
    unfolding handle_stats
    Keeps-stats = Keeps-then _ _ (λ x.
        Keeps-bind _ _ Keeps-count_users
          (λ counted. Keeps-bind _ _ Keeps-count_jobs (λ jobs. Keeps-give _)))

    Keeps-users : Keeps P (handle_users o deps r request_id p)
    unfolding handle_users
    Keeps-users = Keeps-then _ _ (λ x.
        Keeps-then _ _
          (λ y. Keeps-looked o rely _ _ (λ found. Keeps-then _ _ (λ us. Keeps-give _))))

    Keeps-create_user :
        (body : Decoded UserForm) → Keeps P (handle_create_user o deps r request_id p body)
    unfolding handle_create_user
    Keeps-create_user body = Keeps-then _ _ (λ a. Keeps-then _ _ (λ form. Keeps-then _ _ (λ b.
        Keeps-then _ _ (λ c. Keeps-asked o rely _ _ (λ id. Keeps-asked o rely _ _ (λ at.
          Keeps-called o rely _ _ (λ d h. h)
            (λ result.
              Keeps-then _ _ (λ x. Keeps-bind _ _ (Keeps-audited _ _ _) (λ u. Keeps-give _)))))))))

    Keeps-reset_password :
        (target : String) (body : Decoded String)
        → Keeps P (handle_reset_password o deps r request_id p target body)
    unfolding handle_reset_password
    Keeps-reset_password target body = Keeps-then _ _ (λ a. Keeps-then _ _ (λ password.
        Keeps-then _ _ (λ b. Keeps-asked o rely _ _ (λ at.
          Keeps-called o rely _ _ (λ d h. h)
            (λ result.
              Keeps-then _ _ (λ x. Keeps-bind _ _ (Keeps-audited _ _ _) (λ u. Keeps-give _)))))))

    Keeps-set_active :
        (target : String) (body : Decoded Bool)
        → Keeps P (handle_set_active o deps r request_id p target body)
    unfolding handle_set_active
    Keeps-set_active target body = Keeps-then _ _ (λ a. Keeps-then _ _ (λ active.
        Keeps-then _ _ (λ b. Keeps-asked o rely _ _ (λ at.
          Keeps-called o rely _ _ (λ d h. h)
            (λ result.
              Keeps-then _ _ (λ x. Keeps-bind _ _ (Keeps-audited _ _ _) (λ u. Keeps-give _)))))))

    Keeps-user_sessions :
        (target : String) → Keeps P (handle_user_sessions o deps r request_id p target)
    unfolding handle_user_sessions
    Keeps-user_sessions target = Keeps-then _ _ (λ a.
        Keeps-asked o rely _ _
          (λ at. Keeps-looked o rely _ _ (λ found. Keeps-then _ _ (λ items. Keeps-give _))))

    Keeps-all_jobs : Keeps P (handle_all_jobs o deps r request_id p)
    unfolding handle_all_jobs
    Keeps-all_jobs = Keeps-then _ _ (λ a. Keeps-then _ _ (λ x. Keeps-then _ _ (λ bounds.
        Keeps-then _ _ (λ y. Keeps-asked o rely _ _ (λ works.
          Keeps-looked o rely _ _
            (λ found. Keeps-then _ _ (λ jobs. Keeps-asked o rely _ _ (λ at. Keeps-give _))))))))

    Keeps-found_any : (message id : String) → Keeps P (found_any o deps r request_id p message id)
    Keeps-found_any message id = Keeps-looked o rely _ _ (λ found. Keeps-give _)

    Keeps-any_job : (id : String) → Keeps P (handle_any_job o deps r request_id p id)
    unfolding handle_any_job
    Keeps-any_job id = Keeps-then _ _ (λ a. Keeps-then _ _ (λ b.
        Keeps-bind _ _ (Keeps-found_any _ _) (λ f. Keeps-asked o rely _ _ (λ at. Keeps-give _))))

    Keeps-any_file : (id : String) → Keeps P (handle_any_file o deps r request_id p id)
    unfolding handle_any_file
    Keeps-any_file id = Keeps-then _ _ (λ a. Keeps-then _ _ (λ b. Keeps-looked o rely _ _ (λ found.
        Keeps-then _ _
          (λ f. Keeps-bind _ _ (Keeps-audited _ _ _) (λ u. Keeps-download_file o rely f)))))

    module _ (g : (user_id : String) → Guarantee user_id P) where
      pub Keeps-serve_admin : (e : OfAdmin) → Keeps P (serve_admin o deps r request_id e p)
      unfolding serve_admin handle_cancel_any handle_retry_any handle_delete_any
      Keeps-serve_admin Serve.providers = Keeps-providers
      Keeps-serve_admin Serve.stats = Keeps-stats
      Keeps-serve_admin Serve.users = Keeps-users
      Keeps-serve_admin Serve.all_jobs = Keeps-all_jobs
      Keeps-serve_admin (Serve.revoke_any id) = Keeps-revoke_any id
      Keeps-serve_admin (Serve.user_sessions id) = Keeps-user_sessions id
      Keeps-serve_admin (Serve.any_job id) = Keeps-any_job id
      Keeps-serve_admin (Serve.cancel_any id) = Keeps-then _ _ (λ a.
          Keeps-bind _ _ (Keeps-found_any _ _) (λ f.
            Keeps-bind _ _ (Keeps-cancel_job o rely f.job.user_id (g f.job.user_id) id) (λ x.
              Keeps-then _ _ (λ y. Keeps-bind _ _ (Keeps-audited _ _ _) (λ u. Keeps-give _)))))
      Keeps-serve_admin (Serve.retry_any id) = Keeps-then _ _ (λ a.
          Keeps-bind _ _ (Keeps-found_any _ _) (λ f.
            Keeps-bind _ _ (Keeps-retry_call o rely f.job.user_id (g f.job.user_id) id) (λ x.
              Keeps-then _ _ (λ y. Keeps-bind _ _ (Keeps-audited _ _ _) (λ u. Keeps-give _)))))
      Keeps-serve_admin (Serve.delete_any id) = Keeps-then _ _ (λ a.
          Keeps-bind _ _ (Keeps-found_any _ _) (λ f.
            Keeps-bind _ _ (Keeps-delete_found o rely f.job.user_id (g f.job.user_id) deps id f)
              (λ x. Keeps-bind _ _ (Keeps-audited _ _ _) (λ u. Keeps-give _))))
      Keeps-serve_admin (Serve.any_file id) = Keeps-any_file id
      Keeps-serve_admin (Serve.set_providers body) = Keeps-set_providers body
      Keeps-serve_admin (Serve.create_user body) = Keeps-create_user body
      Keeps-serve_admin (Serve.reset_password id body) = Keeps-reset_password id body
      Keeps-serve_admin (Serve.set_active id body) = Keeps-set_active id body
