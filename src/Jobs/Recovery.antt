-- ===== src/Jobs/Recovery.antt =====
-- What Recover leaves when the worker starts.
use luxury_video_tool.Base.{
  ℕ, ◌≡◌, refl, ap, ap₂, String, Option, none, some, Bool, true, false, not, ◌&&◌, List, [], ◌∷◌,
  All, arith, if◌then◌else◌, map, ltb, leb, str_eq, is_some, before,
}
use luxury_video_tool.Sql.{update, find, exists}
use luxury_video_tool.Sql.Laws.{find-map}
use luxury_video_tool.Jobs.Model.{
  Job, AsrCall, CallStatus, Db, queued, failed, is_processing, is_transcribing,
}
use luxury_video_tool.Jobs.Repository.{has_id}
use luxury_video_tool.Jobs.Repository.Recovery.{
  recover, has_open_call, needs_review, set_review, is_expired, set_recovered,
}

abbrev pub is_past : ℕ → Option ℕ → Bool
is_past now none = false
is_past now (some t) = ltb t now

-- The provider has taken a recognition task of the job, and has not ended it.
abbrev pub is_pending : Job → AsrCall → Bool
is_pending r c =
    str_eq c.job_id r.id
    && is_some c.provider_task_id
    && elim c.status [ CallStatus.submitted ↦ true | CallStatus.running ↦ true | _ ↦ false ]

-- A job as the start of a worker leaves it: one that is in progress under a lease that has run out
-- loses the lease and its heartbeat. Where it was transcribing and the provider has its task, it
-- fails for a manual check; else it fails where it has no attempt left, and is queued again where
-- it has. Any other job stays.
abbrev pub recover_row : List AsrCall → ℕ → Job → Job
recover_row calls now r =
    let freed : Job = record r {
      lease_owner = none;
      lease_expires_at = none;
      heartbeat_at = none;
      updated_at = now;
    } in
    if not (is_processing r.status && is_past now r.lease_expires_at)
    then r
    else if is_transcribing r.status && exists (is_pending r) calls
    then record freed {
      status = failed;
      progress = 100;
      status_message = "ASR 状态需人工恢复";
      error_code = some "ASR_RECOVERY_REQUIRED";
      error_message = some "ASR 状态需人工恢复";
      completed_at = some now;
    }
    else if leb r.max_attempts r.attempt_count
    then record freed {
      status = failed;
      progress = 100;
      status_message = "任务恢复次数已耗尽";
      error_code = some "JOB_RECOVERY_EXHAUSTED";
      error_message = some "任务恢复次数已耗尽";
      completed_at = some now;
    }
    else record freed {
      status = queued;
      progress = 0;
      status_message = "服务恢复后重新排队";
      completed_at = none;
    }

exists_same :
    (p q : AsrCall → Bool) (cs : List AsrCall)
    → ((c : AsrCall) → p c ≡ q c)
    → exists p cs ≡ exists q cs
unfolding exists
exists_same p q [] h = refl
exists_same p q (c ∷ cs) h = rw (h c, exists_same p q cs h) refl

pending_same :
    (calls : List AsrCall) (r : Job) → exists (is_pending r) calls ≡ has_open_call calls r
unfolding has_open_call
pending_same calls r = exists_same _ _ calls (λ c. ground arith)

past_same : (now : ℕ) (o : Option ℕ) → is_past now o ≡ before o now
past_same now none = refl
past_same now (some t) = refl

-- The same by the conditions and the columns of the two statements.
pub recover_row_parts :
    (calls : List AsrCall) (now : ℕ) (r : Job)
    → (if is_expired now r
        then (if is_transcribing r.status && has_open_call calls r
            then set_review now r
            else set_recovered now r)
        else r)
      ≡ recover_row calls now r
unfolding is_expired set_review set_recovered
recover_row_parts calls now r =
    rw (pending_same calls r, past_same now r.lease_expires_at) (ground arith)

two_passes :
    (calls : List AsrCall) (now : ℕ) (r : Job)
    → (if is_expired now (if needs_review calls now r then set_review now r else r)
        then set_recovered now (if needs_review calls now r then set_review now r else r)
        else (if needs_review calls now r then set_review now r else r))
      ≡ recover_row calls now r
unfolding needs_review is_expired set_review
two_passes calls now r = rw (← recover_row_parts calls now r) (ground arith)

rows_twice :
    (calls : List AsrCall) (now : ℕ) (jobs : List Job)
    → update
        (is_expired now)
        (set_recovered now)
        (update (needs_review calls now) (set_review now) jobs)
      ≡ map (recover_row calls now) jobs
unfolding update
rows_twice calls now [] = refl
rows_twice calls now (r ∷ rs) = ap₂ ◌∷◌ (two_passes calls now r) (rows_twice calls now rs)

-- Recover changes the jobs alone, each on its own. A job in progress whose lease has run out loses
-- the lease: if it was transcribing and the provider has its task, it fails for a manual check, else
-- it fails where no attempt is left and goes back to the queue where one is. Any other job stays.
pub recover-row :
    (now : ℕ) (db : Db)
    → (recover now db).0 ≡ record db { jobs = map (recover_row db.asr_calls now) db.jobs }
unfolding recover
recover-row now db =
    ap (λ (js : List Job). record db { jobs = js }) (rows_twice db.asr_calls now db.jobs)

row_not_expired :
    (calls : List AsrCall) (now : ℕ) (r : Job) → is_expired now (recover_row calls now r) ≡ false
unfolding is_expired
row_not_expired calls now r = rw (past_same now r.lease_expires_at) (ground arith)

-- After Recover no job in progress has a lease that has run out.
pub recover-leases :
    (now : ℕ) (db : Db) → All (λ r. is_expired now r ≡ false) (recover now db).0.jobs
recover-leases now db = rw (recover-row now db) (rows db.jobs)
  where
    rows :
        (jobs : List Job)
        → All (λ r. is_expired now r ≡ false) (map (recover_row db.asr_calls now) jobs)
    rows [] = tt
    rows (r ∷ rs) = (row_not_expired db.asr_calls now r, rows rs)

pub recover_row-has_id :
    (calls : List AsrCall) (now : ℕ) (job_id : String) (r : Job)
    → has_id job_id (recover_row calls now r) ≡ has_id job_id r
recover_row-has_id calls now job_id r = ground arith

-- A job that waited, its lease run out, for a recognition task that the provider still has fails
-- and asks for a manual check; it is not put back into the queue.
pub recover-review :
    (job_id : String) (now : ℕ) (db : Db) {r : Job}
    → find (has_id job_id) db.jobs ≡ some r
    → is_transcribing r.status ≡ true
    → is_expired now r ≡ true
    → has_open_call db.asr_calls r ≡ true
    → find (has_id job_id) (recover now db).0.jobs ≡ some (set_review now r)
unfolding is_expired set_review
recover-review job_id now db {r} there t e o = rw (recover-row now db) (
    rw
      (
        find-map (has_id job_id) (recover_row db.asr_calls now)
            (recover_row-has_id db.asr_calls now job_id) db.jobs,
        there,
      )
      (rw (pending_same db.asr_calls r, past_same now r.lease_expires_at) (ground arith)))
