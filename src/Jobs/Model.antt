-- ===== src/Jobs/Model.antt =====
-- The data of services/api_go/internal/jobs/model.go, with the columns that the tables jobs,
-- job_steps, files and asr_calls of services/api_go/migrations give it. A time is a number of
-- milliseconds (UnixMilli), a nullable column an Option, an id a text.
use luxury_video_tool.Base.{ℕ, String, List, Option, Bool, true, false}

-- The values that the CHECK of jobs.status admits.
pub data Status : Type 0 where
  queued resolving downloading extracting transcribing postprocessing : Status
  retry_wait completed failed cancelled : Status

-- A row of the table jobs; options_json stands decoded, as the three fields that it encodes.
pub record Job : Type 0 where
  pub id : String
  pub user_id : String
  pub work_id : Option String
  pub input_text : String
  pub input_url : String
  pub action : String
  pub status : Status
  pub progress : ℕ
  pub status_message : String
  pub idempotency_key : String
  pub force_refresh : Bool
  pub attempt_count : ℕ
  pub max_attempts : ℕ
  pub lease_owner : Option String
  pub lease_expires_at : Option ℕ
  pub heartbeat_at : Option ℕ
  pub retry_at : Option ℕ
  pub cancel_requested_at : Option ℕ
  pub error_code : Option String
  pub error_message : Option String
  pub started_at : Option ℕ
  pub completed_at : Option ℕ
  pub created_at : ℕ
  pub updated_at : ℕ
  pub result_json : Option String
  pub keep_video : Bool
  pub language_hints : List String
  pub hotwords : List String

-- The values that the CHECK of job_steps.status admits.
pub data StepStatus : Type 0 where
  running completed failed : StepStatus

-- A row of the table job_steps.
pub record Step : Type 0 where
  pub id : String
  pub job_id : String
  pub name : String
  pub attempt : ℕ
  pub status : StepStatus
  pub started_at : ℕ
  pub completed_at : Option ℕ
  pub details : String
  pub error_code : Option String
  pub error_message : Option String

-- A row of the table files.
pub record File : Type 0 where
  pub id : String
  pub user_id : String
  pub job_id : String
  pub kind : String
  pub relative_path : String
  pub original_name : String
  pub mime_type : String
  pub size_bytes : ℕ
  pub sha256 : String
  pub expires_at : Option ℕ
  pub created_at : ℕ
  pub deleted_at : Option ℕ

-- The values that the CHECK of asr_calls.status admits.
pub data CallStatus : Type 0 where
  submitted running completed failed : CallStatus

-- The columns of the table asr_calls that the job repository reads.
pub record AsrCall : Type 0 where
  pub id : String
  pub job_id : String
  pub provider_task_id : Option String
  pub status : CallStatus

-- The tables that the job repository reads and writes.
pub record Db : Type 0 where
  pub jobs : List Job
  pub steps : List Step
  pub files : List File
  pub asr_calls : List AsrCall

-- The sentinel errors of model.go, and the error of a statement that breaks a table's constraint.
pub data Error : Type 0 where
  not_found idempotency_conflict not_cancellable not_retryable : Error
  not_deletable invalid_options lease_lost : Error
  constraint_failed : Error

pub data Result {ℓ} (A : Type ℓ) : Type ℓ where
  ok : A → Result A
  err : Error → Result A

-- status IN ('resolving','downloading','extracting','transcribing','postprocessing')
abbrev pub is_processing : Status → Bool
is_processing resolving = true
is_processing downloading = true
is_processing extracting = true
is_processing transcribing = true
is_processing postprocessing = true
is_processing _ = false

-- status IN ('queued','retry_wait')
abbrev pub is_waiting : Status → Bool
is_waiting queued = true
is_waiting retry_wait = true
is_waiting _ = false

-- The states in which a job is finished.
abbrev pub is_terminal : Status → Bool
is_terminal completed = true
is_terminal failed = true
is_terminal cancelled = true
is_terminal _ = false

abbrev pub is_queued : Status → Bool
is_queued queued = true
is_queued _ = false

abbrev pub is_resolving : Status → Bool
is_resolving resolving = true
is_resolving _ = false

abbrev pub is_downloading : Status → Bool
is_downloading downloading = true
is_downloading _ = false

abbrev pub is_transcribing : Status → Bool
is_transcribing transcribing = true
is_transcribing _ = false

abbrev pub is_postprocessing : Status → Bool
is_postprocessing postprocessing = true
is_postprocessing _ = false

abbrev pub is_completed : Status → Bool
is_completed completed = true
is_completed _ = false
