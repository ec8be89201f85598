-- ===== src/Auth/Token/Roundtrip.antt =====
-- An access token that is issued is accepted, until it expires, with what it was issued for.
use luxury_video_tool.Base.{
  ℕ, ◌+◌, ◌/◌, ◌≤◌, ◌<◌, ◌≡◌, refl, String, some, Bool, true, false, ◌||◌, [], ◌∷◌, arith, str_eq,
  eq_refl,
}
use Prim.Native.String
use Prim.Native.String.append
use text.Mathlib.TextLemmas.{append_assoc}
use luxury_video_tool.Auth.Model.{User, success}
use luxury_video_tool.Auth.Repository.{is_role}
use luxury_video_tool.Auth.Token.{
  Claims, access_claims, jwt_header, Codec, split_dots, check_claims, sign, issue_access,
  read_parts, parse_access,
}

unfoldable pub has_dot : String → Bool
has_dot String.[] = false
has_dot (String.◌∷◌ c s) = let rest = has_dot s in str_eq (String.◌∷◌ c String.[]) "." || rest

split_dots-dotless : (s : String) → has_dot s ≡ false → split_dots s ≡ (s, [])
unfolding has_dot split_dots
split_dots-dotless String.[] h = refl
split_dots-dotless (String.◌∷◌ c s) h = ground (arith, split_dots-dotless s)

split_dots-join :
    (a b : String)
    → has_dot a ≡ false
    → split_dots (String.◌++◌ a (String.◌++◌ "." b)) ≡ (a, (split_dots b).0 ∷ (split_dots b).1)
unfolding has_dot split_dots
split_dots-join String.[] b h =
    rw (append.nil (String.◌++◌ "." b), append.cons "." "" b, append.nil b) refl
split_dots-join (String.◌∷◌ c a) b h =
    rw (append.cons c a (String.◌++◌ "." b)) (ground (arith, split_dots-join a b))

-- What the tokens rely on: base64 without dots that gives back the bytes of a signature, and JSON
-- that gives back the header.
pub record IsCodec (codec : Codec) : Type 0 where
  pub reads_mac : (s : String) → codec.decode (codec.encode (codec.mac s)) ≡ some (codec.mac s)
  pub mac_dotless : (s : String) → has_dot (codec.encode (codec.mac s)) ≡ false
  pub reads_header : codec.read_header (codec.header_segment jwt_header) ≡ some jwt_header
  pub header_dotless : has_dot (codec.header_segment jwt_header) ≡ false

split_token :
    (h c s : String)
    → has_dot h ≡ false
    → has_dot c ≡ false
    → has_dot s ≡ false
    → split_dots (String.◌++◌ (String.◌++◌ h (String.◌++◌ "." c)) (String.◌++◌ "." s))
      ≡ (h, c ∷ s ∷ [])
split_token h c s e f g =
    rw
      (
        append_assoc h (String.◌++◌ "." c) (String.◌++◌ "." s),
        append_assoc "." c (String.◌++◌ "." s),
        split_dots-join h (String.◌++◌ c (String.◌++◌ "." s)) e,
        split_dots-join c s f,
        split_dots-dotless s g,
      )
      refl

checked :
    (user : User) (session_id : String) (now ttl later : ℕ)
    → str_eq user.id "" ≡ false
    → str_eq session_id "" ≡ false
    → is_role user.role ≡ true
    → now / 1000 ≤ later / 1000 + 60
    → later / 1000 < (now + ttl) / 1000
    → check_claims (later / 1000) (access_claims user session_id now ttl)
      ≡ success (record { user_id = user.id; session_id = session_id; role = user.role })
unfolding check_claims
checked user session_id now ttl later named sessioned role from until = ground arith

module _ (codec : Codec) (laws : IsCodec codec) where
  read_signed :
      (claims : String) (c : Claims) (now : ℕ)
      → codec.read_claims claims ≡ some c
      → read_parts codec
          (codec.header_segment jwt_header)
          claims
          (sign codec (String.◌++◌ (codec.header_segment jwt_header) (String.◌++◌ "." claims)))
          now
        ≡ check_claims (now / 1000) c
  unfolding read_parts
  read_signed claims c now reads =
      let header : String = codec.header_segment jwt_header in
      ground (
        arith,
        reads,
        laws.reads_header,
        laws.reads_mac (String.◌++◌ header (String.◌++◌ "." claims)),
        eq_refl (codec.mac (String.◌++◌ header (String.◌++◌ "." claims))),
      )

-- A token that IssueAccess gives is accepted by ParseAccess, from a minute before it was issued
-- until it expires, with the user, session and role it was issued for, where the two ids are not
-- empty and the role is known. The encodings are assumed to give back this token's header, claims
-- and signature, and to have no dots.
pub parse-issue :
    (codec : Codec) (user : User) (session_id : String) (now ttl later : ℕ)
    → IsCodec codec
    → codec.read_claims (codec.claims_segment (access_claims user session_id now ttl))
      ≡ some (access_claims user session_id now ttl)
    → has_dot (codec.claims_segment (access_claims user session_id now ttl)) ≡ false
    → str_eq user.id "" ≡ false
    → str_eq session_id "" ≡ false
    → is_role user.role ≡ true
    → now / 1000 ≤ later / 1000 + 60
    → later / 1000 < (now + ttl) / 1000
    → parse_access codec (issue_access codec user session_id now ttl).0 later
      ≡ success (record { user_id = user.id; session_id = session_id; role = user.role })
unfolding parse_access issue_access
parse-issue codec user session_id now ttl later laws reads dotless named sessioned role from until =
    let header : String = codec.header_segment jwt_header in
    let claims : String = codec.claims_segment (access_claims user session_id now ttl) in
    let split =
      split_token header claims (sign codec (String.◌++◌ header (String.◌++◌ "." claims)))
        laws.header_dotless dotless (laws.mac_dotless _) in
    ground (
      arith,
      split,
      read_signed codec laws claims _ later reads,
      checked user session_id now ttl later named sessioned role from until,
    )
