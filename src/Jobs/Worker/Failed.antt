-- ===== src/Jobs/Worker/Failed.antt =====
-- What becomes of a job whose worker failed.
use luxury_video_tool.Base.{
  ℕ, ◌+◌, ◌^◌, ◌≤◌, ◌<◌, ◌≡◌, refl, String, none, some, true, false, arith, min, suc, Bool-cases,
  inl, inr, ◌⊎◌, zero, if◌then◌else◌,
}
use luxury_video_tool.Sql.{find}
use luxury_video_tool.Sql.Laws.{find-update, find_sat}
use luxury_video_tool.Jobs.Model.{Job, Db, is_terminal, retry_wait}
use luxury_video_tool.Jobs.Repository.{exec, has_id, is_leased_by, is_exhausted}
use luxury_video_tool.Jobs.Repository.Worker.{
  cancel_owned, set_cancel_owned, fail, set_fail, retry_later, set_retry_later,
}
use luxury_video_tool.Jobs.Worker.{
  Cause, canceled, asr_rate_limited, retry_after, retry_delay, media_code, is_final, failed_with,
}

-- The row that failedWith leaves of the job.
unfoldable pub failed_row : String → Cause → ℕ → ℕ → ℕ → Job → Job → Job
unfolding set_cancel_owned set_fail set_retry_later is_final retry_delay media_code
failed_row message cause random now at job r =
    if cause.matches canceled
    then set_cancel_owned "任务已取消" now r
    else if is_final cause job.attempt_count
    then set_fail (media_code cause) message now r
    else set_retry_later (media_code cause) message
        (now + retry_delay cause job.attempt_count random) at r

failed_with-row :
    (job : Job) (owner message : String) (cause : Cause) (random now at : ℕ) (db : Db) {r : Job}
    → find (has_id job.id) db.jobs ≡ some r
    → is_leased_by job.id owner r ≡ true
    → find (has_id job.id) (failed_with job owner message cause random now at db).0.jobs
      ≡ some (failed_row message cause random now at job r)
unfolding failed_with failed_row cancel_owned fail retry_later exec set_cancel_owned set_fail
    set_retry_later
failed_with-row job owner message cause random now at db {r} there held =
    let by_cancel =
      find-update (has_id job.id) (is_leased_by job.id owner) (set_cancel_owned "任务已取消" now)
        (λ x. refl) db.jobs in
    let by_fail =
      find-update (has_id job.id) (has_id job.id) (set_fail (media_code cause) message now)
        (λ x. refl) db.jobs in
    let by_retry =
      find-update (has_id job.id) (is_leased_by job.id owner)
        (set_retry_later (media_code cause) message
          (now + retry_delay cause job.attempt_count random) at)
        (λ x. refl) db.jobs in
    ground (arith, by_cancel, by_fail, by_retry, find_sat (has_id job.id) db.jobs there)

row_released :
    (message : String) (cause : Cause) (random now at : ℕ) (job r : Job)
    → ((failed_row message cause random now at job r).lease_owner ≡ none)
unfolding failed_row set_cancel_owned set_fail set_retry_later
row_released message cause random now at job r = ground arith

-- The job is finished, or it waits for a retry at the time given, with an attempt left.
abbrev pub IsSettled : ℕ → Job → Job → Type 0
IsSettled retry_at r r' =
    (is_terminal r'.status ≡ true)
    ⊎ ((r'.status ≡ retry_wait)
        × (r'.retry_at ≡ some retry_at)
        × (r.attempt_count < r.max_attempts))

row-IsSettled :
    (message : String) (cause : Cause) (random now at : ℕ) (job r : Job)
    → IsSettled
        (now + retry_delay cause job.attempt_count random)
        r
        (failed_row message cause random now at job r)
unfolding failed_row set_cancel_owned set_fail set_retry_later
row-IsSettled message cause random now at job r = elim (Bool-cases (cause.matches canceled)) [
  | inl e ↦ inl (ground arith)
  | inr e ↦ elim (Bool-cases (is_final cause job.attempt_count)) [
    | inl f ↦ inl (ground arith)
    | inr f ↦ elim (Bool-cases (is_exhausted r)) [
      | inl g ↦ inl (ground arith)
      | inr g ↦ inr (ground arith, ground arith, ground arith)
    ]
  ]
]

-- A worker that failed gives up the lease that it held: the job is finished, or waits for a retry
-- after the delay, with an attempt left.
pub failed_with-released :
    (job : Job) (owner message : String) (cause : Cause) (random now at : ℕ) (db : Db) {r : Job}
    → find (has_id job.id) db.jobs ≡ some r
    → is_leased_by job.id owner r ≡ true
    → (r' : Job) × (find
          (has_id job.id)
          (failed_with job owner message cause random now at db).0.jobs
        ≡ some r')
      × (r'.lease_owner ≡ none)
      × IsSettled (now + retry_delay cause job.attempt_count random) r r'
failed_with-released job owner message cause random now at db {r} there held = (
  failed_row message cause random now at job r,
  failed_with-row job owner message cause random now at db there held,
  row_released message cause random now at job r,
  row-IsSettled message cause random now at job r,
)

pow_bounds : (k : ℕ) → 1 ≤ k → k ≤ 6 → (2 ≤ 2 ^ k) × (2 ^ k ≤ 64)
pow_bounds zero l h = absurd (omega arith)
pow_bounds (suc zero) l h = (omega arith, omega arith)
pow_bounds (suc (suc zero)) l h = (omega arith, omega arith)
pow_bounds (suc (suc (suc zero))) l h = (omega arith, omega arith)
pow_bounds (suc (suc (suc (suc zero)))) l h = (omega arith, omega arith)
pow_bounds (suc (suc (suc (suc (suc zero))))) l h = (omega arith, omega arith)
pow_bounds (suc (suc (suc (suc (suc (suc zero)))))) l h = (omega arith, omega arith)
pow_bounds (suc (suc (suc (suc (suc (suc (suc k))))))) l h = absurd (omega arith)

-- Where no rate limit asks to wait, a job that has been attempted is tried again after at least 2
-- and less than 65 seconds, with a jitter below one second.
pub retry_delay-bounds :
    (cause : Cause) (attempts random : ℕ)
    → cause.after ≡ 0
    → cause.matches asr_rate_limited ≡ false
    → 1 ≤ attempts
    → random < 1000
    → (2000 ≤ retry_delay cause attempts random) × (retry_delay cause attempts random < 65000)
unfolding retry_delay retry_after
retry_delay-bounds cause attempts random unasked unlimited started small =
    let bounds = pow_bounds (min attempts 6) (omega arith) (omega arith) in
    (ground (arith, bounds.0), ground (arith, bounds.1))
