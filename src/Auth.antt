-- ===== src/Auth.antt =====
-- services/api_go/internal/auth: users, sessions and tokens.
pub mod Model
pub mod Repository
pub mod Token
pub mod Service
pub mod Lists
pub mod Sessions
pub mod Rotation
pub mod Examples
