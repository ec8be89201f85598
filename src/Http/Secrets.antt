-- ===== src/Http/Secrets.antt =====
-- The refresh token of clients that keep it in a cookie, in the bodies of the answers.
use luxury_video_tool.Base.{
  ℕ, ◌≡◌, refl, String, Option, none, some, Bool, true, false, if◌then◌else◌, ◌||◌, ltb, str_eq,
  Bool-cases, inl, inr,
}
use Prim.Native.String.{len}
use luxury_video_tool.Auth.Model
use luxury_video_tool.Auth.Model.{success, failure}
use luxury_video_tool.Auth.Service.{TokenPair}
use luxury_video_tool.Audit.{Event}
use luxury_video_tool.Http.Request.{
  Request, Decoded, malformed, trailing, decoded, is_web_client, same_origin,
}
use luxury_video_tool.Http.Response.{Response, Payload, Body, tokens, token_payload}
use luxury_video_tool.Http.Response
use luxury_video_tool.Http.Run.{
  Data, Cookie, World, Dependencies, Outside, Outcome, done, answered, Exec, continue, ◌>>=◌, give,
  unless_answer, set_cookie, ask, act, acted, call, called,
}
use luxury_video_tool.Http.Serve.{response_of}
use luxury_video_tool.Http.Session.{
  LoginForm, decoded_or, login_answer, refresh_answer, sent_token, login_refused, allowed,
  refresh_cookie, has_cookie, refresh_token, audit_row, write_event, record_audit, handle_login,
  handle_refresh,
}

-- A response whose body has no refresh token.
abbrev pub HidesBody : Body → Type 0
HidesBody (Response.json (tokens t)) = t.refresh_token ≡ ""
HidesBody _ = Unit

abbrev pub Hides : Response → Type 0
Hides r = HidesBody r.body

abbrev HidesEarly {ℓ} : {A : Type ℓ} → Outcome A → Type 0
HidesEarly (done a) = Unit
HidesEarly (answered r) = Hides r

-- Where `m` answers before its end, the answer has no refresh token.
record Early {ℓ} {A : Type ℓ} (m : Exec A) : Type ℓ where
  at : (w : World) → HidesEarly (m w).0

-- The answer of `m` has no refresh token.
record Whole (m : Exec Response) : Type 0 where
  at : (w : World) → Hides (response_of (m w).0)

module _ {ℓ} {A : Type ℓ} where
  Early-give : (r : Outcome A) → HidesEarly r → Early (give r)
  unfolding give
  Early-give r h = record { at = λ w. h }

  Whole-bind :
      (m : Exec A) (f : A → Exec Response) → Early m → ((a : A) → Whole (f a)) → Whole (m >>= f)
  unfolding ◌>>=◌
  Whole-bind m f k l = record { at = λ w. goes (m w).0 (m w).1 (k.at w) }
    where
      goes : (r : Outcome A) (w : World) → HidesEarly r → Hides (response_of (continue r f w).0)
      goes (done a) w h = (l a).at w
      goes (answered r) w h = h

  Whole-given : (a : A) (f : A → Exec Response) → Whole (f a) → Whole (give (done a) >>= f)
  unfolding give ◌>>=◌
  Whole-given a f k = record { at = λ w. k.at w }

Whole-answer : (r : Response) → Hides r → Whole (give (done r))
unfolding give
Whole-answer r h = record { at = λ w. h }

Early-bind {ℓ κ} :
    {A : Type ℓ} {B : Type κ} (m : Exec A) (f : A → Exec B)
    → Early m
    → ((a : A) → Early (f a))
    → Early (m >>= f)
unfolding ◌>>=◌
Early-bind {A = A} m f k l = record { at = λ w. goes (m w).0 (m w).1 (k.at w) }
  where
    goes : (r : Outcome A) (w : World) → HidesEarly r → HidesEarly (continue r f w).0
    goes (done a) w h = (l a).at w
    goes (answered r) w h = h

Early-if {ℓ} :
    {A : Type ℓ} (b : Bool) (m n : Exec A) → Early m → Early n → Early (if b then m else n)
Early-if true m n k l = k
Early-if false m n k l = l

Early-unless :
    (b : Bool) (code message : String) (status : ℕ) (retry : Bool)
    → Early (unless_answer b (Response.fails_with status code message retry))
Early-unless true code message status retry = Early-give _ tt
Early-unless false code message status retry = Early-give _ tt

Early-set_cookie : (c : Cookie) → Early (set_cookie c)
unfolding set_cookie
Early-set_cookie c = record { at = λ w. tt }

Early-decoded {ℓ} : {A : Type ℓ} (body : Decoded A) → HidesEarly (decoded_or body)
Early-decoded malformed = tt
Early-decoded trailing = tt
Early-decoded (decoded a) = tt

Early-sent : (token : String) → HidesEarly (sent_token token)
Early-sent token = elim (Bool-cases (str_eq token "" || ltb 512 (len token))) [
  | inl e ↦ rw e tt
  | inr e ↦ rw e tt
]

module _ (o : Outside) where
  Early-ask {ℓ} : {A : Type ℓ} (f : ℕ → A) → Early (ask o f)
  unfolding ask
  Early-ask f = record { at = λ w. tt }

  Early-act {ℓ} : {R : Type ℓ} (f : Data → Data × R) → Early (act o f)
  unfolding act
  Early-act f = Early-bind _ _ (Early-ask (λ t. t)) acts
    where
      acts : (t : ℕ) → Early (acted o f t)
      acts t = record { at = λ w. tt }

  Early-call {ℓ} : {R : Type ℓ} (f : Data → Data × R) → Early (call o f)
  unfolding call
  Early-call f = Early-bind _ _ (Early-ask o.fault) calls
    where
      calls : (b : Bool) → Early (called o f b)
      calls true = record { at = λ w. tt }
      calls false = record { at = λ w. tt }

login_refused-Hides : (e : Model.Failure) → Hides (login_refused e)
login_refused-Hides Model.invalid_credentials = tt
login_refused-Hides Model.inactive_user = tt
login_refused-Hides Model.username_taken = tt
login_refused-Hides Model.invalid_token = tt
login_refused-Hides Model.expired_token = tt
login_refused-Hides Model.revoked_session = tt
login_refused-Hides Model.forbidden = tt
login_refused-Hides Model.not_found = tt
login_refused-Hides Model.constraint_failed = tt
login_refused-Hides Model.bad_password = tt
login_refused-Hides Model.bad_name = tt
login_refused-Hides Model.bad_role = tt

Early-login_answer : (x : Option (Model.Outcome TokenPair)) → HidesEarly (login_answer x)
Early-login_answer none = tt
Early-login_answer (some (success pair)) = tt
Early-login_answer (some (failure e)) = login_refused-Hides e

Early-refresh_answer : (x : Option (Model.Outcome TokenPair)) → HidesEarly (refresh_answer x)
Early-refresh_answer none = tt
Early-refresh_answer (some (success pair)) = tt
Early-refresh_answer (some (failure e)) = tt

module _ (o : Outside) (deps : Dependencies) (r : Request) (request_id : String) where
  Early-audit_row :
      (event : Event) (id : Option String) → Early (audit_row o deps r request_id event id)
  Early-audit_row event none = Early-give _ tt
  Early-audit_row event (some id) =
      Early-bind _ _ (Early-ask o _) (λ at. Early-bind _ _ (Early-call o _) (λ x. Early-give _ tt))

  Early-record_audit :
      (user_id action target metadata : String)
      → Early (record_audit o deps r request_id user_id action target metadata)
  unfolding record_audit write_event
  Early-record_audit user_id action target metadata =
      Early-if deps.has_audit _ _ (Early-bind _ _ (Early-ask o _) (Early-audit_row _))
        (Early-give _ tt)

  Early-refresh_cookie : (pair : TokenPair) → Early (refresh_cookie o deps r request_id pair)
  unfolding refresh_cookie
  Early-refresh_cookie pair = Early-bind _ _ (Early-ask o _) (λ at. Early-set_cookie _)

  Early-allowed : (key : String) (at : ℕ) → Early (allowed o deps r request_id key at)
  unfolding allowed
  Early-allowed key at = Early-bind _ _ (Early-act o _) (λ ok. Early-unless ok _ _ _ _)

  Early-refresh_token : (body : Decoded String) → Early (refresh_token o deps r request_id body)
  unfolding refresh_token
  Early-refresh_token body =
      Early-if (has_cookie o deps r request_id) _ _
        (Early-bind _ _ (Early-unless (same_origin deps.readers r) _ _ _ _) (λ x. Early-give _ tt))
        (Early-bind _ _ (Early-give _ (Early-decoded body))
          (λ token. Early-give _ (Early-sent token)))

  web-Hides :
      (pair : TokenPair) (web : Bool)
      → web ≡ true
      → HidesBody (Response.json (tokens (token_payload pair web)))
  unfolding token_payload
  web-Hides pair web e = rw e refl

  -- A login from a web client is answered without the refresh token in the body, whatever the services
  -- and the database answer.
  pub handle_login-Hides :
      (form : LoginForm) (w : World)
      → is_web_client deps.readers form.device.platform form.device.app_version ≡ true
      → Hides (response_of (handle_login o deps r request_id (decoded form) w).0)
  unfolding handle_login
  handle_login-Hides form w web =
      (Whole-given form _ (
          Whole-bind _ _ (Early-ask o _) (λ at. Whole-bind _ _ (Early-allowed _ at) (λ a.
            Whole-bind _ _ (Early-allowed _ at) (λ b. Whole-bind _ _ (Early-unless _ _ _ _ _) (λ c.
              Whole-bind _ _ (Early-ask o _) (λ fresh. Whole-bind _ _ (Early-ask o _) (λ later.
                Whole-bind _ _ (Early-call o _) (λ result.
                  Whole-bind _ _ (Early-give _ (Early-login_answer result)) (λ pair.
                    Whole-bind _ _ (Early-if _ _ _ (Early-refresh_cookie pair) (Early-give _ tt))
                      (λ x.
                        Whole-bind _ _ (Early-record_audit _ _ _ _)
                          (λ y. Whole-answer _ (web-Hides pair _ web))))))))))))).at
        w

  -- A refresh by the cookie is answered without the refresh token in the body, whatever the services
  -- and the database answer.
  pub handle_refresh-Hides :
      (body : Decoded String) (w : World)
      → has_cookie o deps r request_id ≡ true
      → Hides (response_of (handle_refresh o deps r request_id body w).0)
  unfolding handle_refresh
  handle_refresh-Hides body w cookie =
      (Whole-bind _ _ (Early-refresh_token body) (λ token. Whole-bind _ _ (Early-ask o _) (λ fresh.
          Whole-bind _ _ (Early-ask o _) (λ at. Whole-bind _ _ (Early-call o _) (λ result.
            Whole-bind _ _ (Early-give _ (Early-refresh_answer result)) (λ pair.
              Whole-bind _ _ (Early-if _ _ _ (Early-refresh_cookie pair) (Early-give _ tt)) (λ x.
                Whole-bind _ _ (Early-record_audit _ _ _ _)
                  (λ y. Whole-answer _ (web-Hides pair _ cookie))))))))).at
        w
