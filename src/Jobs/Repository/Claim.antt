-- ===== src/Jobs/Repository/Claim.antt =====
-- ClaimNext of repository_sqlite.go: one statement that leases the oldest job that is due.
use luxury_video_tool.Base.{
  ℕ, ◌+◌, String, Option, none, some, Bool, true, false, ◌&&◌, ◌||◌, List, ltb, not_after,
}
use luxury_video_tool.Sql.{update, find, select, order_by, first}
use luxury_video_tool.Jobs.Model.{
  Job, Db, Result, ok, err, not_found, Status, resolving, retry_wait, is_waiting, is_queued,
}
use luxury_video_tool.Jobs.Repository.{has_id}

abbrev is_retry_wait : Status → Bool
is_retry_wait retry_wait = true
is_retry_wait _ = false

-- The WHERE clause of the subquery.
unfoldable pub is_due : ℕ → Job → Bool
is_due now r =
    (is_queued r.status || (is_retry_wait r.status && not_after r.retry_at now))
    && ltb r.attempt_count r.max_attempts

-- The id that the subquery gives; of jobs created at the same time, the one first in the table.
unfoldable pub oldest_due : ℕ → List Job → Option Job
unfolding is_due first order_by select
oldest_due now jobs = first (order_by (λ r. r.created_at) (select (is_due now) jobs))

abbrev pub coalesce : Option ℕ → ℕ → Option ℕ
coalesce none t = some t
coalesce (some s) t = some s

unfoldable pub can_claim : String → Job → Bool
can_claim job_id r = has_id job_id r && is_waiting r.status

unfoldable pub set_claim : String → ℕ → ℕ → Job → Job
set_claim owner now lease r = record r {
  status = resolving;
  progress = 5;
  status_message = "正在读取作品信息";
  attempt_count = r.attempt_count + 1;
  lease_owner = some owner;
  lease_expires_at = some (now + lease);
  heartbeat_at = some now;
  started_at = coalesce r.started_at now;
  retry_at = none;
  updated_at = now;
}

abbrev or_not_found : Option Job → Result Job
or_not_found none = err not_found
or_not_found (some r) = ok r

-- The claim of a job of the given id, read back after the UPDATE.
unfoldable pub claim : String → ℕ → ℕ → String → Db → Db × Result Job
unfolding update find can_claim set_claim
claim owner now lease job_id db =
    let jobs : List Job = update (can_claim job_id) (set_claim owner now lease) db.jobs in
    (record db { jobs = jobs }, or_not_found (find (has_id job_id) jobs))

unfoldable pub claim_next : String → ℕ → ℕ → Db → Db × Result Job
unfolding oldest_due claim
claim_next owner now lease db = elim (oldest_due now db.jobs) [
  | none ↦ (db, err not_found)
  | some due ↦ claim owner now lease due.id db
]
