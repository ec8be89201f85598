-- ===== src/Http/Response.antt =====
-- What the handlers answer, of services/api_go/internal/httpapi/response.go and router.go: the status
-- and the body, as the values that are encoded. The requestId of each body is that of the header
-- X-Request-ID, which the middleware sets.
use luxury_video_tool.Base.{ℕ, String, Option, none, some, Bool, true, false, List, if◌then◌else◌}
use luxury_video_tool.Settings
use luxury_video_tool.Auth.Model.{User, Device, Session}
use luxury_video_tool.Auth.Service.{TokenPair}
use luxury_video_tool.Jobs.Model.{Job, File}
use luxury_video_tool.Jobs.Stats.{Stats}

-- userResponse
pub record UserResponse : Type 0 where
  pub id : String
  pub display_name : String
  pub role : String

-- tokenResponse; none is Go's zero time, which omitempty does not leave out.
pub record TokenResponse : Type 0 where
  pub access_token : String
  pub access_expires_at : ℕ
  pub refresh_token : String
  pub refresh_expires_at : Option ℕ
  pub user : UserResponse

pub record SessionItem : Type 0 where
  pub id : String
  pub device : Device
  pub current : Bool
  pub created_at : ℕ
  pub last_used_at : ℕ
  pub expires_at : ℕ

pub record UserItem : Type 0 where
  pub id : String
  pub username : String
  pub display_name : String
  pub role : String
  pub is_active : Bool
  pub created_at : ℕ
  pub updated_at : ℕ
  pub last_login_at : Option ℕ

-- A job with its files, each with its preview address, "" where it has none.
pub record JobView : Type 0 where
  pub job : Job
  pub files : Option (List (File × String))

pub data Payload : Type 0 where
  only_request_id : Payload
  health : String → Payload
  tokens : TokenResponse → Payload
  sessions : List SessionItem → Payload
  -- the status and whether Aliyun is available
  providers : Settings.Status → Bool → Payload
  statistics : ℕ → ℕ → Stats → Payload
  users : List UserItem → Payload
  user : UserResponse → Payload
  job : JobView → Payload
  created_job : JobView → Bool → Payload
  page : List JobView → ℕ → ℕ → ℕ → Payload

pub data Body : Type 0 where
  -- the code, the message and whether to try again
  error : String → String → Bool → Body
  json : Payload → Body
  -- http.NotFound, StatusNotModified, and what the file server answers
  plain_not_found not_modified asset : Body
  -- a file as an attachment or inline, and the images of a job as a ZIP archive under a name
  attachment inline : File → Body
  archive : String → List (String × File) → Body

pub record Response : Type 0 where
  pub status : ℕ
  pub body : Body

-- writeError, writeJSON and http.NotFound
abbrev pub fails_with : ℕ → String → String → Bool → Response
fails_with status code message retryable = record {
  status = status;
  body = error code message retryable;
}

abbrev pub answers_with : ℕ → Payload → Response
answers_with status payload = record { status = status; body = json payload }

abbrev pub not_found_page : Response
not_found_page = record { status = 404; body = plain_not_found }

abbrev pub not_ready : Response
not_ready = fails_with 503 "SERVICE_NOT_READY" "服务尚未就绪" true

abbrev pub bad_request : String → Response
bad_request message = fails_with 400 "INVALID_REQUEST" message false

abbrev pub broken : String → Response
broken message = fails_with 500 "INTERNAL_ERROR" message true

abbrev pub user_response : User → UserResponse
user_response u = record { id = u.id; display_name = u.display_name; role = u.role }

-- tokenPayload
unfoldable pub token_payload : TokenPair → Bool → TokenResponse
token_payload pair web = record {
  access_token = pair.access_token;
  access_expires_at = pair.access_expires;
  refresh_token = if web then "" else pair.refresh_token;
  refresh_expires_at = if web then none else some pair.refresh_expires;
  user = user_response pair.user;
}

abbrev pub session_item : (Session → Bool) → Session → SessionItem
session_item is_current s = record {
  id = s.id;
  device = s.device;
  current = is_current s;
  created_at = s.created_at;
  last_used_at = s.last_used_at;
  expires_at = s.expires_at;
}

abbrev pub user_item : User → UserItem
user_item u = record {
  id = u.id;
  username = u.username_normalized;
  display_name = u.display_name;
  role = u.role;
  is_active = u.is_active;
  created_at = u.created_at;
  updated_at = u.updated_at;
  last_login_at = u.last_login_at;
}
