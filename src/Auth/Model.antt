-- ===== src/Auth/Model.antt =====
-- services/api_go/internal/auth/model.go, with the columns of the tables users and refresh_tokens.
-- A time is a number of milliseconds.
use luxury_video_tool.Base.{ℕ, String, List, Option, Bool}

pub record User : Type 0 where
  pub id : String
  pub username_normalized : String
  pub display_name : String
  pub password_hash : String
  pub role : String
  pub is_active : Bool
  pub created_at : ℕ
  pub updated_at : ℕ
  pub last_login_at : Option ℕ

pub record Device : Type 0 where
  pub id : String
  pub name : String
  pub platform : String
  pub app_version : String

pub record Session : Type 0 where
  pub id : String
  pub user_id : String
  pub token_hash : String
  pub device : Device
  pub expires_at : ℕ
  pub revoked_at : Option ℕ
  pub replaced_by : Option String
  pub created_at : ℕ
  pub last_used_at : ℕ

pub record Principal : Type 0 where
  pub user_id : String
  pub session_id : String
  pub role : String

-- The tables users and refresh_tokens.
pub record Accounts : Type 0 where
  pub users : List User
  pub sessions : List Session

-- The sentinel errors, then a statement that breaks a constraint and the errors without a sentinel:
-- a password that cannot be hashed or compared, a name or a role that is refused.
pub data Failure : Type 0 where
  invalid_credentials inactive_user username_taken invalid_token : Failure
  expired_token revoked_session forbidden not_found : Failure
  constraint_failed bad_password bad_name bad_role : Failure

pub data Outcome {ℓ} (A : Type ℓ) : Type ℓ where
  success : A → Outcome A
  failure : Failure → Outcome A

abbrev pub role_admin : String
role_admin = "admin"

abbrev pub role_user : String
role_user = "user"
