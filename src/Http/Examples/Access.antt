-- ===== src/Http/Examples/Access.antt =====
-- The theorems on the requests at a server with the accounts and the tables of the other examples.
use luxury_video_tool.Base.{◌+◌, ◌≡◌, ◌⊎◌, refl, ◌∙◌, none, some, true, false, [], ◌∷◌, str_eq}
use luxury_video_tool.Sql.{exists}
use luxury_video_tool.Auth.Examples.{drop_dots, settings, accounts, fresh, as_anna, phone}
use luxury_video_tool.Auth.Model.{Principal}
use luxury_video_tool.Auth.Service.{validate_access}
use luxury_video_tool.Files.Repository.{list_by_job}
use luxury_video_tool.Http.Access.{
  Admitted, require_auth-admits, serve_admin-forbidden, serve_own-others, serve-IsSoundDb,
}
use luxury_video_tool.Http.Examples.{limiter}
use luxury_video_tool.Http.Jobs.{handle_cancel, cancel_job}
use luxury_video_tool.Http.Jobs.Removal.{delete_found}
use luxury_video_tool.Http.Jobs.Removal.Stops.{delete_found-refused}
use luxury_video_tool.Http.Keeps.Others.{others_jobs}
use luxury_video_tool.Http.Request.{Request, Readers, decoded, bearer, is_web_client}
use luxury_video_tool.Http.Response.{Response, fails_with}
use luxury_video_tool.Http.Run.{Data, World, Dependencies, Outside, answered, call, give}
use luxury_video_tool.Http.Secrets.{Hides, handle_login-Hides, handle_refresh-Hides}
use luxury_video_tool.Http.Serve
use luxury_video_tool.Http.Serve.{
  response_of, serve_endpoint, principal_of, require_auth, serve_own, serve_admin, serve,
}
use luxury_video_tool.Http.Session.{LoginForm, handle_login, handle_refresh}
use luxury_video_tool.Jobs.Examples
use luxury_video_tool.Jobs.Examples.{tables, tables-IsSound}
use luxury_video_tool.Jobs.Lifecycle.Steps.{IsSoundDb}
use luxury_video_tool.Jobs.Model.{File}
use luxury_video_tool.Jobs.Repository.Select.{FoundJob, find_by_id}
use luxury_video_tool.Jobs.Repository.User.{cancel}
use luxury_video_tool.Jobs.Service.{unresolved}

abbrev readers : Readers
readers = record {
  split_host = λ s. some s;
  is_loopback = λ s. str_eq s "127.0.0.1";
  parse_url = λ s. none;
  atoi = λ s. none;
  lower = λ s. s;
}

abbrev request : Request
request = record {
  tls = true;
  forwarded_proto = "";
  origin = "";
  host = "example.org";
  remote_addr = "10.0.0.1";
  authorization = "bearer HS256.u1.HS256u1";
  idempotency_key = "k9";
  if_none_match = "";
  cookie = some "t1";
  query = λ name. "";
}

abbrev deps : Dependencies
deps = record {
  has_auth = true;
  has_jobs = true;
  has_files = true;
  has_storage = true;
  has_signer = true;
  has_audit = true;
  has_settings = true;
  aliyun_available = false;
  allow_insecure_provider_settings = false;
  version = "1.0";
  commit = "abc";
  auth = settings;
  normalize_username = λ s. s;
  extract = λ s. some s;
  cipher = record {
    nonce_size = 0;
    seal = λ nonce value name. [];
    open_sealed = λ nonce sealed name. none;
  };
  fallback = λ name. "";
  codes = record {
    format_int = λ n. "";
    parse_int = λ s. none;
    hex_mac = λ s. s;
    decode_hex = λ s. some s;
    path_escape = λ s. s;
  };
  audit_mac = λ s. s;
  readers = readers;
  object = λ fields. "{}";
}

abbrev quiet : Outside
quiet = record {
  clock = λ t. 6000 + t;
  others = λ t d. d;
  fault = λ t. false;
  ready = λ t. true;
  new_id = λ t. some "r1";
  ulid = λ t. "j9";
  fresh = λ t. fresh;
  nonce = λ t. none;
  resolution = λ t. unresolved "E" "m";
  works = λ t. [];
  removes = λ t path. false;
  opens = λ t path. true;
  stops = λ t job_id. false;
  gone = λ t. false;
  proceeds = λ t. true;
  work_of = λ j. none;
  elsewhere = fails_with 404 "NOT_FOUND" "" false;
}

abbrev file : File
file = record {
  id = "f1";
  user_id = "u1";
  job_id = "j4";
  kind = "video";
  relative_path = "u1/j4/video.mp4";
  original_name = "video.mp4";
  mime_type = "video/mp4";
  size_bytes = 9;
  sha256 = "";
  expires_at = none;
  created_at = 40;
  deleted_at = none;
}

abbrev data_at_first : Data
data_at_first = record {
  accounts = accounts;
  db = record tables { files = file ∷ [] };
  settings = [];
  audit = [];
  limiter = limiter;
  disk = "u1/j4/video.mp4" ∷ [];
}

abbrev world : World
world = record { state = data_at_first; turn = 0; cookie = none }

db-IsSound : IsSoundDb data_at_first.db
db-IsSound = record {
  rows = tables-IsSound.rows;
  ids = tables-IsSound.ids;
  keys = tables-IsSound.keys;
}

-- A user's token: the job is cancelled.
cancelled_now : (serve quiet deps request (Serve.own (Serve.cancel "j1")) world).0.status ≡ 200
unfolding serve serve_endpoint require_auth principal_of bearer call give validate_access drop_dots
    serve_own handle_cancel cancel_job cancel find_by_id
cancelled_now = refl

require_auth-admits_example :
    ((response_of
          (require_auth quiet deps request
            (serve_own quiet deps request "r1" Serve.list)
            world).0).status
        ≡ 401)
      × ((require_auth quiet deps request
            (serve_own quiet deps request "r1" Serve.list)
            world).1.state.audit
          ≡ [])
    ⊎ Admitted quiet deps request (serve_own quiet deps request "r1" Serve.list) world
require_auth-admits_example =
    require_auth-admits quiet deps request (serve_own quiet deps request "r1" Serve.list) world
      {P = λ d. d.audit ≡ []} (λ t d h. h) refl

serve_admin-forbidden_example :
    ((response_of
        (serve_admin quiet deps request "r1" (Serve.delete_any "j4") as_anna world).0).status
      ≡ 403)
    × ((serve_admin quiet deps request "r1" (Serve.delete_any "j4") as_anna world).1.state
        ≡ data_at_first)
serve_admin-forbidden_example =
    serve_admin-forbidden quiet deps request "r1" as_anna (Serve.delete_any "j4") world
      {P = λ d. d ≡ data_at_first} refl (λ t d h. h) refl

abbrev as_bella : Principal
as_bella = record { user_id = "u2"; session_id = "s4"; role = "user" }

serve_own-others_example :
    others_jobs "u2"
      (serve_own quiet deps request "r1" (Serve.cancel "j1") as_bella world).1.state.db
    ≡ others_jobs "u2" tables
unfolding others_jobs
serve_own-others_example =
    serve_own-others quiet deps request "r1" as_bella (Serve.cancel "j1") world
      {P = λ db. others_jobs "u2" db ≡ others_jobs "u2" tables} (λ db db' e h. e ∙ h) (λ t d h. h)
      refl

serve-IsSoundDb_example :
    IsSoundDb (serve quiet deps request (Serve.own (Serve.retry "j4")) world).1.state.db
serve-IsSoundDb_example =
    serve-IsSoundDb quiet deps request (Serve.own (Serve.retry "j4")) world (λ t d h. h) db-IsSound

abbrev web_login : LoginForm
web_login = record {
  username = "anna";
  password = "correct horse";
  device = record phone { platform = "windows"; app_version = "web-1" };
}

handle_login-Hides_example :
    Hides (response_of (handle_login quiet deps request "r1" (decoded web_login) world).0)
unfolding is_web_client
handle_login-Hides_example = handle_login-Hides quiet deps request "r1" web_login world refl

handle_refresh-Hides_example :
    Hides (response_of (handle_refresh quiet deps request "r1" (decoded "") world).0)
handle_refresh-Hides_example = handle_refresh-Hides quiet deps request "r1" (decoded "") world refl

abbrev done_job : FoundJob
done_job = record { job = Examples.done; files = none }

delete_found-refused_example :
    ((r : Response) × ((delete_found quiet deps "u1" "j4" done_job world).0 ≡ answered r))
    × ((delete_found quiet deps "u1" "j4" done_job world).1.state.db ≡ data_at_first.db)
unfolding exists list_by_job
delete_found-refused_example =
    delete_found-refused quiet deps "u1" "j4" done_job world "u1/j4/video.mp4"
      (λ db. db ≡ data_at_first.db) (λ t d h. h) refl refl refl refl refl (λ t. refl)
