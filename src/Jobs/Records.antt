-- ===== src/Jobs/Records.antt =====
-- The steps of a job, and the rows that a deleted job leaves behind.
use luxury_video_tool.Base.{
  ℕ, ◌≡◌, refl, String, none, some, Bool, true, false, List, [], ◌∷◌, arith, All, if◌then◌else◌,
  Bool-cases, Option-cases, inl, inr, str_eq, ◌==◌,
}
use luxury_video_tool.Sql.{update, affected, delete, find}
use luxury_video_tool.Jobs.Model.{
  Job, Step, StepStatus, Db, ok, err, not_found, constraint_failed, is_terminal, Error,
}
use luxury_video_tool.Jobs.Repository.{is_owned_by}
use luxury_video_tool.Jobs.Repository.Select.{find_by_id, found}
use luxury_video_tool.Jobs.Repository.User.{delete_job}
use luxury_video_tool.Jobs.Repository.Records.{
  finish_step, check_step_status, is_open_step, set_finished, is_running,
}
use luxury_video_tool.Jobs.Service.{delete as delete_request}

-- A status that the table's CHECK does not admit closes no step: FinishStep reports an error and
-- leaves the tables as they are.
pub finish_step-refused :
    (step_id status code message details : String) (at : ℕ) (db : Db)
    → check_step_status status ≡ none
    → (finish_step step_id status code message details at db).0 ≡ db
      × ((finish_step step_id status code message details at db).1 ≡ (
          if affected (is_open_step step_id) db.steps == 0
          then err not_found
          else err constraint_failed))
unfolding finish_step
finish_step-refused step_id status code message details at db e = ground arith

closed :
    (step_id : String) (st : StepStatus) (code message details : String) (at : ℕ)
    (steps : List Step)
    → is_running st ≡ false
    → affected
        (is_open_step step_id)
        (update (is_open_step step_id) (set_finished st code message details at) steps)
      ≡ 0
unfolding affected update is_open_step set_finished
closed step_id st code message details at [] e = refl
closed step_id st code message details at (s ∷ ss) e =
    ground (arith, closed step_id st code message details at ss e)

-- A step is closed once: after a FinishStep that succeeded with another status than "running",
-- every FinishStep of that step finds no open step and leaves the tables as they are.
pub finish_step-once :
    (step_id status code message details : String) (at : ℕ) (db : Db)
    → (finish_step step_id status code message details at db).1 ≡ ok tt
    → str_eq status "running" ≡ false
    → (status' code' message' details' : String) (at' : ℕ)
    → finish_step step_id status' code' message' details' at'
        (finish_step step_id status code message details at db).0
      ≡ ((finish_step step_id status code message details at db).0, err not_found)
unfolding finish_step check_step_status
finish_step-once step_id status code message details at db h r status' code' message' details' at' =
    elim (Bool-cases (str_eq status "completed")) [
      | inl e ↦
          ground (arith, closed step_id StepStatus.completed code message details at db.steps refl)
      | inr e ↦
          ground (arith, closed step_id StepStatus.failed code message details at db.steps refl)
    ]

module _ {ℓ} {A : Type ℓ} where
  delete-gone : (p : A → Bool) (xs : List A) → All (λ x. p x ≡ false) (delete p xs)
  unfolding delete
  delete-gone p [] = tt
  delete-gone p (x ∷ xs) = elim (Bool-cases (p x)) [
    | inl e ↦ rw e (delete-gone p xs)
    | inr e ↦ rw e (e, delete-gone p xs)
  ]

-- A Delete that succeeds leaves no step, no file and no recognition call of the job, and no job
-- with that id and owner.
pub delete_job-gone :
    (user_id job_id : String) (db : Db)
    → (delete_job user_id job_id db).1 ≡ ok tt
    → All (λ r. is_owned_by user_id job_id r ≡ false) (delete_job user_id job_id db).0.jobs
      × All (λ s. str_eq s.job_id job_id ≡ false) (delete_job user_id job_id db).0.steps
      × All (λ f. str_eq f.job_id job_id ≡ false) (delete_job user_id job_id db).0.files
      × All (λ c. str_eq c.job_id job_id ≡ false) (delete_job user_id job_id db).0.asr_calls
unfolding delete_job
delete_job-gone user_id job_id db h =
    elim (Bool-cases (affected (is_owned_by user_id job_id) db.jobs == 0)) [
      | inl e ↦ absurd (ground arith)
      | inr e ↦ rw e (
        delete-gone _ db.jobs,
        delete-gone _ db.steps,
        delete-gone _ db.files,
        delete-gone _ db.asr_calls,
      )
    ]

-- A request to delete succeeds for a finished job of that very user only; where it fails, the
-- tables stay as they are.
pub delete_request-guarded :
    (user_id job_id : String) (db : Db)
    → ((delete_request user_id job_id db).1 ≡ ok tt
        → (r : Job) × (find (is_owned_by user_id job_id) db.jobs ≡ some r)
          × (is_terminal r.status ≡ true))
      × ((e : Error)
          → (delete_request user_id job_id db).1 ≡ err e
          → (delete_request user_id job_id db).0 ≡ db)
unfolding delete_request find_by_id found delete_job
delete_request-guarded user_id job_id db =
    elim (Option-cases (find (is_owned_by user_id job_id) db.jobs)) [
      | inl e ↦ ((λ h. absurd (ground arith)), (λ k h. ground arith))
      | inr (r, e) ↦ elim (Bool-cases (is_terminal r.status)) [
        | inl t ↦ ((λ h. (r, e, t)), (λ k h. ground arith))
        | inr t ↦ ((λ h. absurd (ground arith)), (λ k h. ground arith))
      ]
    ]
