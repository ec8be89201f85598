-- ===== src/Http/Keeps/Requests.antt =====
-- What the handlers of a user's own endpoints keep.
use luxury_video_tool.Base.{ℕ, suc, String, Option, Bool, true, false, List, [], ◌∷◌, refl, str_eq}
use luxury_video_tool.Auth.Model.{Principal}
use luxury_video_tool.Jobs.Model.{Db, Job, File}
use luxury_video_tool.Jobs.Repository.Select.{FoundJob}
use luxury_video_tool.Http.Files.{entries, handle_file, handle_archive}
use luxury_video_tool.Http.Jobs.{handle_list, handle_get, handle_cancel, handle_retry}
use luxury_video_tool.Http.Jobs.Create.{
  JobForm, create_input, created_by, record_job_audit, reread, handle_create,
}
use luxury_video_tool.Http.Jobs.Removal.{handle_delete}
use luxury_video_tool.Http.Keeps.{
  Keeps, Rely, Guarantee, Creates, Keeps-give, Keeps-bind, Keeps-then, Keeps-if, Keeps-set_cookie,
  Keeps-call, Keeps-asked, Keeps-looked, Keeps-called,
}
use luxury_video_tool.Http.Keeps.Own.{
  Keeps-write_event, Keeps-record_audit, Keeps-cancel_job, Keeps-retry_call, Keeps-delete_found,
  Keeps-download_file,
}
use luxury_video_tool.Http.Request.{Request, Decoded}
use luxury_video_tool.Http.Run.{Dependencies, Outside}
use luxury_video_tool.Http.Serve
use luxury_video_tool.Http.Serve.{Open, Own, handle_ready, serve_open, serve_own}
use luxury_video_tool.Http.Session
use luxury_video_tool.Http.Session.Own.{
  handle_logout, handle_sessions, handle_revoke, handle_password,
}
use luxury_video_tool.Http.Session.{
  LoginForm, allowed, refresh_cookie, clear_cookie, has_cookie, refresh_token, handle_login,
  handle_refresh,
}

module _ (o : Outside) {P : Db → Type 0} (rely : Rely o P) (deps : Dependencies) (r : Request) where
  module _ (request_id : String) where
    module _ (p : Principal) where
      Keeps-audited :
          (action target metadata : String)
          → Keeps P (Session.record_audit o deps r request_id p.user_id action target metadata)
      Keeps-audited action target metadata = Keeps-record_audit o rely deps r request_id _ _ _ _

      Keeps-logout : Keeps P (handle_logout o deps r request_id p)
      unfolding handle_logout clear_cookie
      Keeps-logout = Keeps-bind _ _ (Keeps-set_cookie _) (λ x. Keeps-asked o rely _ _ (λ at.
          Keeps-called o rely _ _ (λ d h. h)
            (λ result.
              Keeps-then _ _ (λ y. Keeps-bind _ _ (Keeps-audited _ _ _) (λ u. Keeps-give _)))))

      Keeps-sessions : Keeps P (handle_sessions o deps r request_id p)
      unfolding handle_sessions
      Keeps-sessions =
          Keeps-asked o rely _ _
            (λ at. Keeps-looked o rely _ _ (λ found. Keeps-then _ _ (λ items. Keeps-give _)))

      Keeps-revoke : (id : String) → Keeps P (handle_revoke o deps r request_id p id)
      unfolding handle_revoke
      Keeps-revoke id = Keeps-asked o rely _ _ (λ at.
          Keeps-called o rely _ _ (λ d h. h)
            (λ result.
              Keeps-then _ _ (λ x. Keeps-bind _ _ (Keeps-audited _ _ _) (λ u. Keeps-give _))))

      Keeps-password :
          (body : Decoded (String × String)) → Keeps P (handle_password o deps r request_id p body)
      unfolding handle_password
      Keeps-password body = Keeps-then _ _ (λ form. Keeps-then _ _ (λ x. Keeps-then _ _ (λ y.
          Keeps-asked o rely _ _ (λ at.
            Keeps-called o rely _ _ (λ d h. h)
              (λ result.
                Keeps-then _ _ (λ z. Keeps-bind _ _ (Keeps-audited _ _ _) (λ u. Keeps-give _)))))))

      Keeps-list : Keeps P (handle_list o deps r request_id p)
      unfolding handle_list
      Keeps-list = Keeps-then _ _ (λ x. Keeps-then _ _ (λ bounds. Keeps-then _ _ (λ y.
          Keeps-asked o rely _ _ (λ works.
            Keeps-looked o rely _ _
              (λ found. Keeps-then _ _ (λ jobs. Keeps-asked o rely _ _ (λ at. Keeps-give _)))))))

      Keeps-get : (id : String) → Keeps P (handle_get o deps r request_id p id)
      unfolding handle_get
      Keeps-get id = Keeps-then _ _ (λ x.
          Keeps-looked o rely _ _
            (λ found. Keeps-then _ _ (λ f. Keeps-asked o rely _ _ (λ at. Keeps-give _))))

      Keeps-file : (id : String) → Keeps P (handle_file o deps r p id)
      unfolding handle_file
      Keeps-file id =
          Keeps-then _ _
            (λ x. Keeps-looked o rely _ _ (λ found. Keeps-then _ _ (Keeps-download_file o rely)))

      Keeps-entries : (index : ℕ) (fs : List File) → Keeps P (entries o deps r p index fs)
      unfolding entries
      Keeps-entries index [] = Keeps-give _
      Keeps-entries index (f ∷ fs) =
          let rest : Keeps P (entries o deps r p (suc index) fs) = Keeps-entries (suc index) fs in
          Keeps-asked o rely _ _ (λ opened. Keeps-then _ _ (λ x.
            Keeps-asked o rely _ _
              (λ written. Keeps-then _ _ (λ y. Keeps-bind _ _ rest (λ es. Keeps-give _)))))

      Keeps-archive :
          (work_id : Job → Option String) (id : String)
          → Keeps P (handle_archive o deps r p work_id id)
      unfolding handle_archive
      Keeps-archive work_id id = Keeps-then _ _ (λ a. Keeps-looked o rely _ _ (λ found.
          Keeps-then _ _ (λ f. Keeps-then _ _ (λ b. Keeps-looked o rely _ _ (λ listed.
            Keeps-then _ _ (λ owned. Keeps-then _ _ (λ c. Keeps-asked o rely _ _ (λ made.
              Keeps-then _ _ (λ x. Keeps-bind _ _ (Keeps-entries 0 _) (λ written.
                Keeps-asked o rely _ _ (λ closed. Keeps-then _ _ (λ y.
                  Keeps-asked o rely _ _ (λ sought. Keeps-then _ _ (λ z. Keeps-give _))))))))))))))

      module _ (g : Guarantee p.user_id P) (creates : Creates deps.extract p.user_id P) where
        Keeps-created_by :
            (form : JobForm) (key id : String) (at later : ℕ)
            → Keeps P (created_by o deps r request_id p (create_input p key form) id at later)
        unfolding created_by
        Keeps-created_by form key id at later = Keeps-asked o rely _ _ (λ turn.
            Keeps-if (str_eq form.action "info") _ _
              (Keeps-asked o rely _ _ (λ resolution. Keeps-call o rely _ (λ d h.
                creates.informs id at later resolution _ _ d.db refl h
                  (rely turn (record d { db = d.db }) h))))
              (Keeps-call o rely _ (λ d h.
                creates.downloads id at _ _ d.db refl h (rely turn (record d { db = d.db }) h))))

        Keeps-reread : (f : FoundJob) (b : Bool) → Keeps P (reread o deps r request_id p f b)
        Keeps-reread f true = Keeps-looked o rely _ _ (λ found. Keeps-give _)
        Keeps-reread f false = Keeps-give _

        Keeps-create : (body : Decoded JobForm) → Keeps P (handle_create o deps r request_id p body)
        unfolding handle_create record_job_audit
        Keeps-create body = Keeps-then _ _ (λ x. Keeps-then _ _ (λ y. Keeps-then _ _ (λ form.
            Keeps-then _ _ (λ z. Keeps-asked o rely _ _ (λ id. Keeps-asked o rely _ _ (λ at.
              Keeps-asked o rely _ _ (λ later.
                Keeps-bind _ _ (Keeps-created_by form _ id at later) (λ reply.
                  Keeps-then _ _ (λ created.
                    Keeps-bind _ _ (Keeps-write_event o rely deps r request_id _) (λ u.
                      Keeps-bind _ _ (Keeps-reread _ _)
                        (λ found. Keeps-asked o rely _ _ (λ shown_at. Keeps-give _))))))))))))

        -- What a user asks for goes to the tables in the calls on the user's own jobs only.
        pub Keeps-serve_own : (e : Own) → Keeps P (serve_own o deps r request_id e p)
        unfolding serve_own handle_cancel handle_retry handle_delete
        Keeps-serve_own Serve.logout = Keeps-logout
        Keeps-serve_own Serve.sessions = Keeps-sessions
        Keeps-serve_own Serve.list = Keeps-list
        Keeps-serve_own (Serve.revoke id) = Keeps-revoke id
        Keeps-serve_own (Serve.get id) = Keeps-get id
        Keeps-serve_own (Serve.cancel id) =
            Keeps-bind _ _ (Keeps-cancel_job o rely p.user_id g id)
              (λ x. Keeps-then _ _ (λ f. Keeps-give _))
        Keeps-serve_own (Serve.retry id) =
            Keeps-bind _ _ (Keeps-retry_call o rely p.user_id g id)
              (λ x. Keeps-then _ _ (λ f. Keeps-give _))
        Keeps-serve_own (Serve.delete id) = Keeps-looked o rely _ _ (λ found. Keeps-then _ _ (λ f.
            Keeps-bind _ _ (Keeps-delete_found o rely p.user_id g deps id f)
              (λ x. Keeps-bind _ _ (Keeps-audited _ _ _) (λ u. Keeps-give _))))
        Keeps-serve_own (Serve.file id) = Keeps-file id
        Keeps-serve_own (Serve.archive id) = Keeps-archive o.work_of id
        Keeps-serve_own (Serve.password body) = Keeps-password body
        Keeps-serve_own (Serve.create body) = Keeps-create body
