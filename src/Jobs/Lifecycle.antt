-- ===== src/Jobs/Lifecycle.antt =====
-- What holds of every row of the table jobs, between any two statements.
pub mod Rows
pub mod Steps
pub mod Edges
pub mod Moves
pub mod Completed
use luxury_video_tool.Base.{ℕ, ◌≤◌, ◌≡◌, Option, Bool, true, is_some}
use luxury_video_tool.Jobs.Model.{Job, retry_wait, failed, is_processing, is_terminal}

pub record IsSound (r : Job) : Type 0 where
  pub progress_bound : r.progress ≤ 100
  pub attempts_bound : r.attempt_count ≤ r.max_attempts
  -- A lease is held on a job in progress only, and has an end.
  pub lease_processing : is_some r.lease_owner ≡ true → is_processing r.status ≡ true
  pub lease_ends : is_some r.lease_owner ≡ true → is_some r.lease_expires_at ≡ true
  -- A job has a completion time exactly when it is finished, and then its progress is full.
  pub finished : is_some r.completed_at ≡ is_terminal r.status
  pub full : is_terminal r.status ≡ true → r.progress ≡ 100
  pub due : r.status ≡ retry_wait → is_some r.retry_at ≡ true
  pub reported : r.status ≡ failed → is_some r.error_code ≡ true
