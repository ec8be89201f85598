-- ===== src/Auth/Examples.antt =====
-- Two accounts with a session each, and the theorems on accounts at them.
use luxury_video_tool.Base.{
  ◌≡◌, refl, String, none, some, true, false, [], ◌∷◌, arith, str_eq, if◌then◌else◌,
}
use luxury_video_tool.Auth.Model.{
  User, Device, Session, Principal, Accounts, success, failure, revoked_session,
}
use luxury_video_tool.Auth.Repository.{is_role}
use luxury_video_tool.Auth.Token.{Codec, issue_access, parse_access}
use luxury_video_tool.Auth.Token.Roundtrip.{IsCodec, has_dot, parse-issue}
use luxury_video_tool.Auth.Service.{
  Settings, Fresh, refresh, validate_access, reset_password, change_password, new_session,
}
use luxury_video_tool.Auth.Sessions.{AllRevoked, IsLive, validate_access-IsLive}
use luxury_video_tool.Auth.Sessions.Ends.{reset_password-ends, change_password-ends}
use luxury_video_tool.Auth.Rotation.{refresh-reuse}

unfoldable pub drop_dots : String → String
drop_dots String.[] = String.[]
drop_dots (String.◌∷◌ c s) =
    let rest = drop_dots s in
    if str_eq (String.◌∷◌ c String.[]) "." then rest else String.◌∷◌ c rest

drop_dots-has_dot : (s : String) → has_dot (drop_dots s) ≡ false
unfolding drop_dots has_dot
drop_dots-has_dot String.[] = refl
drop_dots-has_dot (String.◌∷◌ c s) = ground (arith, drop_dots-has_dot s)

-- A codec that stands in for HMAC, base64 and JSON.
abbrev codec : Codec
codec = record {
  mac = drop_dots;
  encode = λ s. s;
  decode = λ s. some s;
  header_segment = λ h. h.alg;
  read_header = λ s. some (record { alg = s; typ = "JWT" });
  claims_segment = λ c. c.subject;
  read_claims = λ s. some (record {
    issuer = "douyin-capture";
    subject = s;
    audience = "douyin-capture-client";
    session_id = if str_eq s "u1" then "s1" else "s4";
    role = "user";
    issued_at = 5;
    expires_at = 905;
  });
}

codec-IsCodec : IsCodec codec
unfolding has_dot
codec-IsCodec = record {
  reads_mac = λ s. refl;
  mac_dotless = drop_dots-has_dot;
  reads_header = refl;
  header_dotless = refl;
}

abbrev pub settings : Settings
settings = record {
  codec = codec;
  digest = λ raw. raw;
  verify = λ password hash. some (str_eq password hash);
  hash = λ password. password;
  refresh_ttl = 1000000;
  access_ttl = 900000;
}

abbrev anna : User
anna = record {
  id = "u1";
  username_normalized = "anna";
  display_name = "Anna";
  password_hash = "correct horse";
  role = "user";
  is_active = true;
  created_at = 0;
  updated_at = 0;
  last_login_at = none;
}

abbrev bella : User
bella = record anna { id = "u2"; username_normalized = "bella" }

abbrev pub phone : Device
phone = record { id = "d1"; name = "phone"; platform = "android"; app_version = "1" }

abbrev first_session : Session
first_session = record {
  id = "s1";
  user_id = "u1";
  token_hash = "t1";
  device = phone;
  expires_at = 2000000;
  revoked_at = none;
  replaced_by = none;
  created_at = 0;
  last_used_at = 0;
}

abbrev pub accounts : Accounts
accounts = record {
  users = anna ∷ bella ∷ [];
  sessions =
      first_session
      ∷ record first_session { id = "s2"; token_hash = "t2" }
      ∷ record first_session { id = "s4"; user_id = "u2"; token_hash = "t4" }
      ∷ [];
}

abbrev pub fresh : Fresh
fresh = record { id = "s3"; raw = "t3" }

parse-issue_example :
    parse_access codec (issue_access codec anna "s1" 5000 900000).0 6000
    ≡ success (record { user_id = "u1"; session_id = "s1"; role = "user" })
unfolding has_dot is_role
parse-issue_example =
    parse-issue codec anna "s1" 5000 900000 6000 codec-IsCodec refl refl refl refl refl
      (ground arith) (ground arith)

refresh-reuse_example :
    ((refresh settings "t1" fresh 20 (refresh settings "t1" fresh 10 accounts).0).1
      ≡ failure revoked_session)
    × AllRevoked
        (λ s. str_eq s.user_id "u1")
        (refresh settings "t1" fresh 20 (refresh settings "t1" fresh 10 accounts).0).0
unfolding refresh
refresh-reuse_example =
    refresh-reuse settings "t1" fresh 10 accounts
      {pair = (new_session settings anna phone fresh 10).0} refl fresh 20

abbrev pub token : String
token = "HS256.u1.HS256u1"

abbrev pub as_anna : Principal
as_anna = record { user_id = "u1"; session_id = "s1"; role = "user" }

validate_access-IsLive_example : IsLive as_anna 6000 accounts
unfolding validate_access drop_dots
validate_access-IsLive_example =
    validate_access-IsLive settings token 6000 accounts {p = as_anna} refl

abbrev other_token : String
other_token = "HS256.u2.HS256u2"

abbrev as_bella : Principal
as_bella = record { user_id = "u2"; session_id = "s4"; role = "user" }

reset_password-ends_example : str_eq as_bella.user_id "u1" ≡ false
unfolding validate_access drop_dots reset_password
reset_password-ends_example =
    reset_password-ends settings "u1" "battery staple" 20 accounts refl refl other_token 6000
      as_bella refl

change_password-ends_example : as_anna.session_id ≡ "s1"
unfolding validate_access drop_dots change_password
change_password-ends_example =
    change_password-ends settings as_anna "correct horse" "battery staple" 20 accounts refl refl
      token 6000 as_anna refl refl
