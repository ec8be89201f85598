-- ===== src/Http/Request.antt =====
-- What router.go reads of a request. net's SplitHostPort and ParseIP, url.Parse, strconv.Atoi and
-- strings.ToLower are functions.
use luxury_video_tool.Base.{
  ℕ, String, Option, none, some, Bool, true, false, not, ◌&&◌, ◌||◌, List, [], ◌∷◌, if◌then◌else◌,
  ltb, leb, str_eq, trim_space,
}
use luxury_video_tool.Config.{ℤ, pos}
use Prim.Native.Char.{Char, code}

-- The headers and the address of a request; a header that is not there is empty. `query` gives the
-- first value of a parameter.
pub record Request : Type 0 where
  pub tls : Bool
  pub forwarded_proto : String
  pub origin : String
  pub host : String
  pub remote_addr : String
  pub authorization : String
  pub idempotency_key : String
  pub if_none_match : String
  pub cookie : Option String
  pub query : String → String

pub record Readers : Type 0 where
  pub split_host : String → Option String
  pub is_loopback : String → Bool
  -- the scheme and the host of a URL
  pub parse_url : String → Option (String × String)
  pub atoi : String → Option ℤ
  pub lower : String → String

-- What decodeJSON makes of a body: no JSON of the expected fields within 16 KiB, more than one
-- value, or the value.
pub data Decoded {ℓ} (A : Type ℓ) : Type ℓ where
  malformed trailing : Decoded A
  decoded : A → Decoded A

-- strings.HasPrefix
unfoldable pub has_prefix : String → String → Bool
has_prefix String.[] s = true
has_prefix (String.◌∷◌ p ps) String.[] = false
has_prefix (String.◌∷◌ p ps) (String.◌∷◌ c s) =
    let rest = has_prefix ps s in leb (code p) (code c) && leb (code c) (code p) && rest

-- strings.Cut(s, " ")
abbrev pub before_head : Char → Option (String × String) → Option (String × String)
before_head c none = none
before_head c (some (before, after)) = some (String.◌∷◌ c before, after)

unfoldable pub cut_space : String → Option (String × String)
cut_space String.[] = none
cut_space (String.◌∷◌ c s) =
    let rest = cut_space s in
    if leb 32 (code c) && leb (code c) 32 then some (String.[], s) else before_head c rest

module _ (readers : Readers) where
  unfoldable pub remote_ip : String → String
  unfolding trim_space
  remote_ip address = elim (readers.split_host address) [
    | none ↦ trim_space address
    | some host ↦ host
  ]

  unfoldable pub is_web_client : String → String → Bool
  unfolding trim_space has_prefix
  is_web_client platform version =
      str_eq platform "windows" && has_prefix "web-" (readers.lower (trim_space version))

  unfoldable pub request_scheme : Request → String
  unfolding trim_space
  request_scheme r =
      if r.tls
      then "https"
      else if str_eq (readers.lower (trim_space r.forwarded_proto)) "https"
      then "https"
      else "http"

  -- secureSettingsRequest
  unfoldable pub is_secure_settings : Request → Bool
  unfolding remote_ip
  is_secure_settings r = r.tls || readers.is_loopback (remote_ip r.remote_addr)

  unfoldable pub cookie_secure : Request → Bool
  unfolding request_scheme remote_ip
  cookie_secure r =
      str_eq (request_scheme r) "https" || readers.is_loopback (remote_ip r.remote_addr)

  unfoldable pub same_origin : Request → Bool
  unfolding request_scheme trim_space
  same_origin r =
      if str_eq (trim_space r.origin) ""
      then true
      else elim (readers.parse_url (trim_space r.origin)) [
        | none ↦ false
        | some (scheme, host) ↦ str_eq scheme (request_scheme r) && str_eq host r.host
      ]

  -- queryInt; none is an error.
  unfoldable pub query_int : Request → String → ℕ → Option ℤ
  unfolding trim_space
  query_int r name fallback =
      if str_eq (trim_space (r.query name)) ""
      then some (pos fallback)
      else readers.atoi (trim_space (r.query name))

  -- The token of the header Authorization, none where requireAuth finds none.
  unfoldable pub bearer : Request → Option String
  unfolding trim_space cut_space
  bearer r = elim (cut_space (trim_space r.authorization)) [
    | none ↦ none
    | some (scheme, token) ↦
        if not (str_eq (readers.lower scheme) "bearer") || str_eq (trim_space token) ""
        then none
        else some (trim_space token)
  ]

abbrev pub is_listed : String → List String → Bool
is_listed s [] = false
is_listed s (t ∷ ts) = str_eq s t || is_listed s ts

unfoldable pub valid_job_filter : String → String → Bool
valid_job_filter status action =
    is_listed status (
      "" ∷ "processing" ∷ "queued" ∷ "resolving" ∷ "downloading" ∷ "extracting" ∷ "transcribing"
      ∷ "postprocessing" ∷ "retry_wait" ∷ "completed" ∷ "failed" ∷ "cancelled" ∷ [])
    && is_listed action ("" ∷ "info" ∷ "download" ∷ "transcribe" ∷ "full" ∷ [])

-- The limit and the offset of a page, within their bounds.
unfoldable pub page_bounds : Option ℤ → Option ℤ → Option (ℕ × ℕ)
page_bounds (some (pos limit)) (some (pos offset)) =
    if ltb limit 1 || ltb 100 limit then none else some (limit, offset)
page_bounds _ _ = none
