-- ===== src/Audit.antt =====
-- services/api_go/internal/audit/audit.go: the table audit_logs. The metadata is the text that JSON
-- makes of it; `mac` stands for the HMAC-SHA256 of the recorder's key, cut to 16 bytes, in
-- hexadecimal.
use luxury_video_tool.Base.{
  ℕ, String, Option, none, some, List, [], ◌∷◌, ◌++◌, if◌then◌else◌, str_eq, cat,
}

pub record Event : Type 0 where
  pub actor_user_id : String
  pub action : String
  pub target_type : String
  pub target_id : String
  pub request_id : String
  pub ip : String
  pub metadata : String

pub record AuditRow : Type 0 where
  pub id : String
  pub actor_user_id : Option String
  pub action : String
  pub target_type : String
  pub target_id : Option String
  pub request_id : String
  pub ip_hash : String
  pub metadata : String
  pub created_at : ℕ

abbrev null_if_empty : String → Option String
null_if_empty s = if str_eq s "" then none else some s

unfoldable pub hash_ip : (String → String) → String → String
unfolding cat
hash_ip mac value = if str_eq value "" then "" else mac (cat "audit-ip:" value)

-- Recorder.Record, once there is an id and the statement succeeds.
unfoldable pub record_event : (String → String) → String → ℕ → Event → List AuditRow → List AuditRow
unfolding hash_ip
record_event mac id now event rows =
    rows
    ++ record {
      id = id;
      actor_user_id = null_if_empty event.actor_user_id;
      action = event.action;
      target_type = event.target_type;
      target_id = null_if_empty event.target_id;
      request_id = event.request_id;
      ip_hash = hash_ip mac event.ip;
      metadata = event.metadata;
      created_at = now;
    }
      ∷ []
