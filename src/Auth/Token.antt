-- ===== src/Auth/Token.antt =====
-- services/api_go/internal/auth/token.go: access tokens. HMAC, base64 and JSON, which are not code
-- of this repository, are the fields of `Codec`.
pub mod Roundtrip
use luxury_video_tool.Base.{
  ℕ, ◌+◌, ◌/◌, String, Option, none, some, Bool, true, false, ◌&&◌, ◌||◌, not, List, [], ◌∷◌,
  if◌then◌else◌, ltb, leb, str_eq,
}
use Prim.Native.String
use Prim.Native.Char.{Char}
use luxury_video_tool.Auth.Model.{
  User, Principal, Outcome, success, failure, invalid_token, expired_token, role_admin, role_user,
}
use luxury_video_tool.Auth.Repository.{is_role}

-- accessClaims
pub record Claims : Type 0 where
  pub issuer : String
  pub subject : String
  pub audience : String
  pub session_id : String
  pub role : String
  pub issued_at : ℕ
  pub expires_at : ℕ

-- Of a token header, the values of "alg" and "typ".
pub record Header : Type 0 where
  pub alg : String
  pub typ : String

pub record Codec : Type 0 where
  -- HMAC-SHA256 under the server's key, and base64.RawURLEncoding of its bytes
  pub mac : String → String
  pub encode : String → String
  pub decode : String → Option String
  -- a JSON object as a segment of a token, and back, without unknown fields or trailing data
  pub header_segment : Header → String
  pub read_header : String → Option Header
  pub claims_segment : Claims → String
  pub read_claims : String → Option Claims

-- strings.Split(token, "."), with the part before the first dot apart.
unfoldable pub split_dots : String → String × List String
split_dots String.[] = (String.[], [])
split_dots (String.◌∷◌ c s) =
    let (first, rest) = split_dots s in
    if str_eq (String.◌∷◌ c String.[]) "."
    then (String.[], first ∷ rest)
    else (String.◌∷◌ c first, rest)

unfoldable pub check_claims : ℕ → Claims → Outcome Principal
unfolding is_role
check_claims now c =
    if not (str_eq c.issuer "douyin-capture")
      || not (str_eq c.audience "douyin-capture-client")
      || str_eq c.subject ""
      || str_eq c.session_id ""
      || ltb (now + 60) c.issued_at
    then failure invalid_token
    else if leb c.expires_at now
    then failure expired_token
    else if not (is_role c.role)
    then failure invalid_token
    else success (record { user_id = c.subject; session_id = c.session_id; role = c.role })

abbrev is_jwt : Header → Bool
is_jwt h = str_eq h.alg "HS256" && str_eq h.typ "JWT"

abbrev pub jwt_header : Header
jwt_header = record { alg = "HS256"; typ = "JWT" }

-- Clocks are in milliseconds; `now / 1000` is Unix().
abbrev pub access_claims : User → String → ℕ → ℕ → Claims
access_claims user session_id now ttl = record {
  issuer = "douyin-capture";
  subject = user.id;
  audience = "douyin-capture-client";
  session_id = session_id;
  role = user.role;
  issued_at = now / 1000;
  expires_at = (now + ttl) / 1000;
}

module _ (codec : Codec) where
  abbrev pub sign : String → String
  sign unsigned = codec.encode (codec.mac unsigned)

  unfoldable pub issue_access : User → String → ℕ → ℕ → String × ℕ
  issue_access user session_id now ttl =
      let unsigned : String =
        String.◌++◌ (codec.header_segment jwt_header)
          (String.◌++◌ "." (codec.claims_segment (access_claims user session_id now ttl))) in
      (String.◌++◌ unsigned (String.◌++◌ "." (sign unsigned)), now + ttl)

  unfoldable pub read_parts : String → String → String → ℕ → Outcome Principal
  unfolding check_claims
  read_parts header claims signature now = elim (codec.decode signature) [
    | none ↦ failure invalid_token
    | some want ↦
        if not (str_eq want (codec.mac (String.◌++◌ header (String.◌++◌ "." claims))))
        then failure invalid_token
        else elim (codec.read_header header) [
          | none ↦ failure invalid_token
          | some h ↦
              if not (is_jwt h) then failure invalid_token else elim (codec.read_claims claims) [
                | none ↦ failure invalid_token
                | some c ↦ check_claims (now / 1000) c
              ]
        ]
  ]

  unfoldable pub parse_access : String → ℕ → Outcome Principal
  unfolding split_dots read_parts
  parse_access token now =
      let (header, rest) = split_dots token in
      elim rest [
        | [] ↦ failure invalid_token
        | claims ∷ rest ↦ elim rest [
          | [] ↦ failure invalid_token
          | signature ∷ rest ↦ elim rest [
            | [] ↦ read_parts header claims signature now
            | part ∷ rest ↦ failure invalid_token
          ]
        ]
      ]
