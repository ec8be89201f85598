-- ===== src/Http/Keeps/Open.antt =====
-- What the handlers of the open endpoints keep.
use luxury_video_tool.Base.{ℕ, String, not, ◌&&◌}
use luxury_video_tool.Jobs.Model.{Db, File}
use luxury_video_tool.Http.Files.{preview_file, signed, handle_asr_source, handle_media_preview}
use luxury_video_tool.Http.Keeps.{
  Keeps, Rely, Keeps-give, Keeps-bind, Keeps-then, Keeps-if, Keeps-set_cookie, Keeps-act,
  Keeps-asked, Keeps-looked, Keeps-called,
}
use luxury_video_tool.Http.Keeps.Own.{Keeps-record_audit, Keeps-download_file}
use luxury_video_tool.Http.Request.{Request, Decoded}
use luxury_video_tool.Http.Run.{Dependencies, Outside}
use luxury_video_tool.Http.Serve
use luxury_video_tool.Http.Serve.{Open, Own, handle_ready, serve_open, serve_own}
use luxury_video_tool.Http.Session.{
  LoginForm, allowed, refresh_cookie, has_cookie, refresh_token, handle_login, handle_refresh,
}

module _ (o : Outside) {P : Db → Type 0} (rely : Rely o P) (deps : Dependencies) (r : Request) where
  Keeps-signed : (id : String) → Keeps P (signed o deps r id)
  Keeps-signed id =
      Keeps-if (not (deps.has_files && deps.has_storage && deps.has_signer)) _ _ (Keeps-give _)
        (Keeps-asked o rely _ _ (λ at. Keeps-give _))

  Keeps-preview_file : (f : File) → Keeps P (preview_file o f)
  unfolding preview_file
  Keeps-preview_file f = Keeps-asked o rely _ _ (λ opened.
      Keeps-then _ _ (λ x. Keeps-asked o rely _ _ (λ known. Keeps-then _ _ (λ y. Keeps-give _))))

  Keeps-asr_source : (id : String) → Keeps P (handle_asr_source o deps r id)
  unfolding handle_asr_source
  Keeps-asr_source id =
      Keeps-bind _ _ (Keeps-signed id)
        (λ x. Keeps-looked o rely _ _ (λ found. Keeps-then _ _ (Keeps-download_file o rely)))

  Keeps-media_preview : (id : String) → Keeps P (handle_media_preview o deps r id)
  unfolding handle_media_preview
  Keeps-media_preview id =
      Keeps-bind _ _ (Keeps-signed id)
        (λ x. Keeps-looked o rely _ _ (λ found. Keeps-then _ _ Keeps-preview_file))

  module _ (request_id : String) where
    Keeps-allowed : (key : String) (at : ℕ) → Keeps P (allowed o deps r request_id key at)
    unfolding allowed
    Keeps-allowed key at = Keeps-bind _ _ (Keeps-act o rely _ (λ d h. h)) (λ ok. Keeps-give _)

    Keeps-refresh_cookie : (pair : _) → Keeps P (refresh_cookie o deps r request_id pair)
    unfolding refresh_cookie
    Keeps-refresh_cookie pair = Keeps-asked o rely _ _ (λ at. Keeps-set_cookie _)

    Keeps-login : (body : Decoded LoginForm) → Keeps P (handle_login o deps r request_id body)
    unfolding handle_login
    Keeps-login body = Keeps-then _ _ (λ form. Keeps-asked o rely _ _ (λ at.
        Keeps-bind _ _ (Keeps-allowed _ at) (λ x. Keeps-bind _ _ (Keeps-allowed _ at) (λ y.
          Keeps-then _ _ (λ z. Keeps-asked o rely _ _ (λ fresh. Keeps-asked o rely _ _ (λ later.
            Keeps-called o rely _ _ (λ d h. h)
              (λ result. Keeps-then _ _ (λ pair.
                Keeps-bind _ _ (Keeps-if _ _ _ (Keeps-refresh_cookie pair) (Keeps-give _)) (λ t.
                  Keeps-bind _ _ (Keeps-record_audit o rely deps r request_id _ _ _ _)
                    (λ u. Keeps-give _)))))))))))

    Keeps-refresh_token : (body : Decoded String) → Keeps P (refresh_token o deps r request_id body)
    unfolding refresh_token
    Keeps-refresh_token body =
        Keeps-if (has_cookie o deps r request_id) _ _ (Keeps-then _ _ (λ x. Keeps-give _))
          (Keeps-then _ _ (λ token. Keeps-give _))

    Keeps-refresh : (body : Decoded String) → Keeps P (handle_refresh o deps r request_id body)
    unfolding handle_refresh
    Keeps-refresh body = Keeps-bind _ _ (Keeps-refresh_token body) (λ token.
        Keeps-asked o rely _ _ (λ fresh. Keeps-asked o rely _ _ (λ at.
          Keeps-called o rely _ _ (λ d h. h)
            (λ result. Keeps-then _ _ (λ pair.
              Keeps-bind _ _ (Keeps-if _ _ _ (Keeps-refresh_cookie pair) (Keeps-give _)) (λ t.
                Keeps-bind _ _ (Keeps-record_audit o rely deps r request_id _ _ _ _)
                  (λ u. Keeps-give _)))))))

    -- An open endpoint keeps the tables.
    pub Keeps-serve_open : (e : Open) → Keeps P (serve_open o deps r request_id e)
    unfolding serve_open handle_ready
    Keeps-serve_open Serve.live = Keeps-give _
    Keeps-serve_open Serve.ready = Keeps-asked o rely _ _ (λ b. Keeps-then _ _ (λ x. Keeps-give _))
    Keeps-serve_open Serve.page = Keeps-give _
    Keeps-serve_open (Serve.login body) = Keeps-then _ _ (λ x. Keeps-login body)
    Keeps-serve_open (Serve.refresh body) = Keeps-then _ _ (λ x. Keeps-refresh body)
    Keeps-serve_open (Serve.asr_source id) = Keeps-asr_source id
    Keeps-serve_open (Serve.media_preview id) = Keeps-media_preview id
