-- ===== src/Http/Keeps/Whole.antt =====
-- What a whole request keeps.
use luxury_video_tool.Base.{String, Option, none, some}
use luxury_video_tool.Auth.Model.{Principal}
use luxury_video_tool.Jobs.Model.{Db}
use luxury_video_tool.Http.Keeps.{
  Keeps, Rely, Guarantee, Creates, Keeps-give, Keeps-bind, Keeps-if, Keeps-asked, Keeps-looked,
}
use luxury_video_tool.Http.Keeps.Admin.{Keeps-serve_admin}
use luxury_video_tool.Http.Keeps.Open.{Keeps-serve_open}
use luxury_video_tool.Http.Keeps.Requests.{Keeps-serve_own}
use luxury_video_tool.Http.Request.{Request, bearer}
use luxury_video_tool.Http.Response.{Response}
use luxury_video_tool.Http.Run.{Dependencies, Outside, Exec, World}
use luxury_video_tool.Http.Serve.{
  Endpoint, to_all, own, of_admin, principal_of, require_auth, mounted, serve_endpoint, with_id,
  serve,
}

module _ (o : Outside) {P : Db → Type 0} (rely : Rely o P) (deps : Dependencies) (r : Request) where
  Keeps-principal_of : (token : Option String) → Keeps P (principal_of o deps r token)
  unfolding principal_of
  Keeps-principal_of none = Keeps-give _
  Keeps-principal_of (some token) =
      Keeps-asked o rely _ _ (λ at. Keeps-looked o rely _ _ (λ result. Keeps-give _))

  Keeps-mounted :
      (next : Principal → Exec Response)
      → ((p : Principal) → Keeps P (next p))
      → Keeps P (mounted o deps r next)
  unfolding require_auth
  Keeps-mounted next k =
      Keeps-if deps.has_auth _ _ (Keeps-bind _ _ (Keeps-principal_of (bearer deps.readers r)) k)
        (Keeps-give _)

  module _ (g : (user_id : String) → Guarantee user_id P)
      (creates : (user_id : String) → Creates deps.extract user_id P) where
    Keeps-serve_endpoint : (id : String) (e : Endpoint) → Keeps P (serve_endpoint o deps r id e)
    unfolding serve_endpoint
    Keeps-serve_endpoint id (to_all e) = Keeps-serve_open o rely deps r id e
    Keeps-serve_endpoint id (own e) =
        Keeps-mounted _
          (λ p. Keeps-serve_own o rely deps r id p (g p.user_id) (creates p.user_id) e)
    Keeps-serve_endpoint id (of_admin e) =
        Keeps-mounted _ (λ p. Keeps-serve_admin o rely deps r id p g e)

    Keeps-with_id : (e : Endpoint) (id : Option String) → Keeps P (with_id o deps r e id)
    Keeps-with_id e none = Keeps-give _
    Keeps-with_id e (some id) = Keeps-serve_endpoint id e

    pub serve-Keeps : (e : Endpoint) (w : World) → P w.state.db → P (serve o deps r e w).1.state.db
    unfolding serve
    serve-Keeps e w h = (Keeps-asked o rely o.new_id _ (Keeps-with_id e)).at w h
