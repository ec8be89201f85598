-- ===== src/Jobs/Service.antt =====
-- services/api_go/internal/jobs/service.go: the requests of a user, over the tables. `Failure` is
-- a Go error with the sentinels that errors.Is finds in it. `extract` stands for ExtractInput of
-- the resolver, `id` for the new ULID and `now` for the clock of the request. What other requests
-- write between the lookup by the idempotency key and the INSERT is the argument `between`.
pub mod Made
pub mod Download
pub mod Idempotency
use luxury_video_tool.Base.{
  ℕ, String, Option, none, some, Bool, true, false, ◌&&◌, ◌||◌, not, List, [], ◌∷◌, if◌then◌else◌,
  leb, ltb, ◌==◌, str_eq, length, trim_space, rune_count, suc,
}
use luxury_video_tool.Jobs.Model
use luxury_video_tool.Jobs.Model.{
  Job, Db, Error, Result, ok, err, not_found, idempotency_conflict, not_deletable, not_cancellable,
  invalid_options, Status, queued, resolving, cancelled, is_terminal,
}
use luxury_video_tool.Jobs.Repository.Select.{
  FoundJob, find_by_idempotency_key, find_by_id, create_info, create_queued,
}
use luxury_video_tool.Jobs.Repository.Worker.{complete_info, fail}
use luxury_video_tool.Jobs.Repository.User.{cancel, retry, delete_job}

pub record CreateInput : Type 0 where
  pub user_id : String
  pub share_text : String
  pub idempotency_key : String
  pub action : String
  pub force : Bool
  pub keep_video : Bool
  pub language_hints : List String
  pub hotwords : List String

-- A request either fails, with an error of the repository or of the share text, or gives a job and
-- whether it was there before.
pub data Reply : Type 0 where
  job_reply : FoundJob → Bool → Reply
  repository_error : Error → Reply
  share_text_error : Reply

unfoldable pub same_strings : List String → List String → Bool
same_strings [] [] = true
same_strings (x ∷ xs) (y ∷ ys) = let rest = same_strings xs ys in str_eq x y && rest
same_strings _ _ = false

unfoldable pub valid_options : List String → ℕ → Bool
valid_options [] max_runes = true
valid_options (v ∷ vs) max_runes =
    let rest = valid_options vs max_runes in
    let value : String = trim_space v in
    if str_eq value "" || ltb max_runes (rune_count value) then false else rest

unfoldable pub same_info_request : CreateInput → Job → Bool
same_info_request input r =
    str_eq r.input_text input.share_text
    && str_eq r.action "info"
    && (if r.force_refresh then input.force else not input.force)

abbrev same_bool : Bool → Bool → Bool
same_bool a b = if a then b else not b

unfoldable pub same_request : CreateInput → Job → Bool
unfolding same_strings
same_request input r =
    str_eq r.input_text input.share_text
    && str_eq r.action input.action
    && same_bool r.force_refresh input.force
    && same_bool r.keep_video input.keep_video
    && same_strings r.language_hints input.language_hints
    && same_strings r.hotwords input.hotwords

abbrev reply_of : Bool → Result FoundJob → Reply
reply_of reused (ok f) = job_reply f reused
reply_of reused (err e) = repository_error e

-- FindByIdempotencyKey gives no files.
abbrev pub reused : Job → Reply
reused r = job_reply (record { job = r; files = none }) true

unfoldable pub info_job : String → ℕ → String → CreateInput → Job
info_job id now url input = record {
  id = id;
  user_id = input.user_id;
  work_id = none;
  input_text = input.share_text;
  input_url = url;
  action = "info";
  status = resolving;
  progress = 10;
  status_message = "正在读取作品信息";
  idempotency_key = input.idempotency_key;
  force_refresh = input.force;
  attempt_count = 0;
  max_attempts = 0;
  lease_owner = none;
  lease_expires_at = none;
  heartbeat_at = none;
  retry_at = none;
  cancel_requested_at = none;
  error_code = none;
  error_message = none;
  started_at = none;
  completed_at = none;
  created_at = now;
  updated_at = now;
  result_json = none;
  keep_video = false;
  language_hints = [];
  hotwords = [];
}

unfoldable pub download_job : String → ℕ → String → CreateInput → Job
unfolding info_job
download_job id now url input = record (info_job id now url input) {
  action = input.action;
  status = queued;
  progress = 0;
  status_message = "等待处理";
  max_attempts = 3;
  keep_video = input.keep_video;
  language_hints = input.language_hints;
  hotwords = input.hotwords;
}

-- What resolver.Service.Resolve gives: the id of the stored work, or the code and the message that
-- resolverError makes of its error.
pub data Resolution : Type 0 where
  resolved : String → Resolution
  unresolved : String → String → Resolution

unfoldable pub finish_info : CreateInput → String → ℕ → Resolution → Db → Db × Reply
unfolding fail complete_info find_by_id
finish_info input id at (unresolved code message) db =
    let (db', r) = fail id code message at db in
    elim r [
      | err e ↦ (db', repository_error e)
      | ok _ ↦ (db', reply_of false (find_by_id input.user_id id db'))
    ]
finish_info input id at (resolved work_id) db =
    let (db', r) = complete_info id work_id at db in
    elim r [
      | err e ↦ (db', repository_error e)
      | ok _ ↦ (db', reply_of false (find_by_id input.user_id id db'))
    ]

-- The INSERT failed: another request may have used the key meanwhile.
unfoldable pub info_lost : CreateInput → Db → Error → Db × Reply
unfolding find_by_idempotency_key same_info_request
info_lost input db e = elim (find_by_idempotency_key input.user_id input.idempotency_key db) [
  | none ↦ (db, repository_error e)
  | some r ↦
      (db, if same_info_request input r then reused r else repository_error idempotency_conflict)
]

-- The INSERT failed. Here the request that used the key is not compared.
unfoldable pub download_lost : CreateInput → Db → Error → Db × Reply
unfolding find_by_idempotency_key
download_lost input db e = elim (find_by_idempotency_key input.user_id input.idempotency_key db) [
  | none ↦ (db, repository_error e)
  | some r ↦ (db, reused r)
]

-- An empty action means "download".
unfoldable pub default_action : CreateInput → CreateInput
default_action input =
    if str_eq input.action "" then record input { action = "download" } else input

unfoldable pub options_valid : CreateInput → Bool
unfolding valid_options
options_valid input =
    (str_eq input.action "download"
      || str_eq input.action "transcribe"
      || str_eq input.action "full")
    && leb (length input.language_hints) 8
    && leb (length input.hotwords) 100
    && valid_options input.language_hints 16
    && valid_options input.hotwords 128

module _ (extract : String → Option String) where
  -- `at` is the clock after the resolution.
  unfoldable pub create_info_job :
      String → ℕ → ℕ → Resolution → (Db → Db) → CreateInput → Db → Db × Reply
  unfolding find_by_idempotency_key same_info_request info_job create_info info_lost finish_info
  create_info_job id now at resolution between input db =
      elim (find_by_idempotency_key input.user_id input.idempotency_key db) [
        | some r ↦ (
          db,
          if same_info_request input r then reused r else repository_error idempotency_conflict,
        )
        | none ↦ elim (extract input.share_text) [
          | none ↦ (db, share_text_error)
          | some url ↦
              let (db', r) = create_info (info_job id now url input) (between db) in
              elim r [
                | err e ↦ info_lost input db' e
                | ok _ ↦ finish_info input id at resolution db'
              ]
        ]
      ]

  unfoldable pub download_checked : String → ℕ → (Db → Db) → CreateInput → Db → Db × Reply
  unfolding find_by_idempotency_key same_request download_job create_queued download_lost find_by_id
  download_checked id now between input db =
      elim (find_by_idempotency_key input.user_id input.idempotency_key db) [
        | some r ↦
            (db, if same_request input r then reused r else repository_error idempotency_conflict)
        | none ↦ elim (extract input.share_text) [
          | none ↦ (db, share_text_error)
          | some url ↦
              let (db', r) = create_queued (download_job id now url input) (between db) in
              elim r [
                | err e ↦ download_lost input db' e
                | ok _ ↦ (db', reply_of false (find_by_id input.user_id id db'))
              ]
        ]
      ]

  unfoldable pub create_download : String → ℕ → (Db → Db) → CreateInput → Db → Db × Reply
  unfolding default_action options_valid download_checked
  create_download id now between input db =
      if options_valid (default_action input)
      then download_checked id now between (default_action input) db
      else (db, repository_error invalid_options)

-- Service.Delete
unfoldable pub delete : String → String → Db → Db × Result (Unit {0})
unfolding find_by_id delete_job
delete user_id job_id db = elim (find_by_id user_id job_id db) [
  | err e ↦ (db, err e)
  | ok f ↦
      if is_terminal f.job.status then delete_job user_id job_id db else (db, err not_deletable)
]

-- Service.Retry
unfoldable pub retry_job : String → String → ℕ → Db → Db × Result FoundJob
unfolding retry find_by_id
retry_job user_id job_id at db =
    let (db', r) = retry user_id job_id at db in
    elim r [ err e ↦ (db', err e) | ok _ ↦ (db', find_by_id user_id job_id db') ]
