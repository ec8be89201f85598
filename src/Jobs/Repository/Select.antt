-- ===== src/Jobs/Repository/Select.antt =====
-- The lookups of repository_sqlite.go and the INSERT of a job.
use luxury_video_tool.Base.{
  String, Option, none, some, Bool, true, false, ◌&&◌, ◌||◌, List, [], ◌∷◌, ◌++◌, if◌then◌else◌,
  ltb, str_eq, not,
}
use luxury_video_tool.Sql.{find, select, order_by, exists}
use luxury_video_tool.Jobs.Model.{
  Job, File, Db, Result, ok, err, not_found, constraint_failed, is_completed,
}
use luxury_video_tool.Jobs.Repository.{has_id, is_owned_by}

-- A row of the result of FindByID: the job, and its files if it is completed.
pub record FoundJob : Type 0 where
  pub job : Job
  pub files : Option (List File)

-- WHERE user_id = ? AND job_id = ? AND deleted_at IS NULL
abbrev is_file_of : String → String → File → Bool
is_file_of user_id job_id f =
    str_eq f.user_id user_id
    && str_eq f.job_id job_id
    && elim f.deleted_at [ none ↦ true | some t ↦ false ]

unfoldable pub find_files : String → String → Db → List File
unfolding select order_by
find_files user_id job_id db =
    order_by (λ f. f.created_at) (select (is_file_of user_id job_id) db.files)

unfoldable pub found : Db → Option Job → Result FoundJob
unfolding find_files
found db none = err not_found
found db (some r) = ok (record {
  job = r;
  files = if is_completed r.status then some (find_files r.user_id r.id db) else none;
})

unfoldable pub find_by_idempotency_key : String → String → Db → Option Job
unfolding find
find_by_idempotency_key user_id key db =
    find (λ r. str_eq r.user_id user_id && str_eq r.idempotency_key key) db.jobs

unfoldable pub find_by_id : String → String → Db → Result FoundJob
unfolding found find
find_by_id user_id job_id db = found db (find (is_owned_by user_id job_id) db.jobs)

unfoldable pub find_any_by_id : String → Db → Result FoundJob
unfolding found find
find_any_by_id job_id db = found db (find (has_id job_id) db.jobs)

-- action IN ('info', 'download', 'transcribe', 'full')
abbrev pub is_action : String → Bool
is_action a = str_eq a "info" || str_eq a "download" || str_eq a "transcribe" || str_eq a "full"

-- The PRIMARY KEY and UNIQUE(user_id, idempotency_key) of jobs.
abbrev pub clashes : Job → Job → Bool
clashes new r =
    str_eq r.id new.id
    || (str_eq r.user_id new.user_id && str_eq r.idempotency_key new.idempotency_key)

-- The columns that the INSERT leaves out take the defaults of the migrations.
unfoldable pub set_created : Bool → Job → Job
set_created started job = record job {
  work_id = none;
  attempt_count = 0;
  max_attempts = 3;
  lease_owner = none;
  lease_expires_at = none;
  heartbeat_at = none;
  retry_at = none;
  cancel_requested_at = none;
  error_code = none;
  error_message = none;
  started_at = if started then some job.created_at else none;
  completed_at = none;
  result_json = none;
}

-- The constraints of the table that a new row can break.
unfoldable pub is_refused : Job → List Job → Bool
unfolding exists
is_refused job jobs =
    exists (clashes job) jobs || ltb 100 job.progress || not (is_action job.action)

unfoldable pub create : Bool → Job → Db → Db × Result (Unit {0})
unfolding is_refused set_created
create started job db =
    if is_refused job db.jobs
    then (db, err constraint_failed)
    else (record db { jobs = db.jobs ++ set_created started job ∷ [] }, ok tt)

unfoldable pub create_info : Job → Db → Db × Result (Unit {0})
unfolding create
create_info = create true

unfoldable pub create_queued : Job → Db → Db × Result (Unit {0})
unfolding create
create_queued = create false
