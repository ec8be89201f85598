-- ===== src/Http/Keeps/Others.antt =====
-- The calls of a user's requests and the jobs of the other users.
use luxury_video_tool.Base.{
  ℕ, ◌≡◌, refl, ◌∙◌, ap, String, Option, Bool, true, false, List, All, All-map, All-every,
  All-append, str_eq, eq_refl, if◌then◌else◌, ltb, ◌==◌, arith, Bool-cases, inl, inr,
}
use luxury_video_tool.Sql
use luxury_video_tool.Sql.{update, affected, exists}
use luxury_video_tool.Sql.Deletes.{delete-update, delete-delete, delete-append}
use luxury_video_tool.Sql.Keys.{exists_none}
use luxury_video_tool.Jobs.Model.{Job, Db, Result, ok, err, not_deletable, is_terminal}
use luxury_video_tool.Jobs.Repository.{is_owned_by, exec, has_id}
use luxury_video_tool.Jobs.Repository.Select.{
  FoundJob, find_by_id, is_refused, set_created, clashes,
}
use luxury_video_tool.Jobs.Repository.User.{
  cancel, can_cancel, set_cancel, retry, can_retry, set_retry, delete_job,
}
use luxury_video_tool.Jobs.Repository.Worker.{
  complete_info, can_complete_info, set_complete_info, fail, set_fail,
}
use luxury_video_tool.Jobs.Service.{
  CreateInput, info_job, download_job, default_action, retry_job, delete,
}
use luxury_video_tool.Jobs.Service.Made.{with_job, create_info_job_kept, create_download_kept}
use luxury_video_tool.Http.Keeps.{Guarantee, Creates}

abbrev pub belongs_to : String → Job → Bool
belongs_to user_id r = str_eq r.user_id user_id

-- The jobs of all users but one.
unfoldable pub others_jobs : String → Db → List Job
unfolding Sql.delete
others_jobs user_id db = Sql.delete (belongs_to user_id) db.jobs

module _ (user_id : String) where
  retry-others :
      (job_id : String) (at : ℕ) (db : Db)
      → others_jobs user_id (retry user_id job_id at db).0 ≡ others_jobs user_id db
  unfolding others_jobs retry can_retry set_retry
  retry-others job_id at db =
      elim (Bool-cases (ltb 0 (affected (can_retry user_id job_id) db.jobs))) [
        | inl hit ↦ rw hit (
            delete-update (belongs_to user_id) (can_retry user_id job_id) (set_retry at) db.jobs
              (All-every _ (λ r h. ground arith) db.jobs) (λ r. refl))
        | inr miss ↦ rw miss (elim (Bool-cases (exists (is_owned_by user_id job_id) db.jobs)) [
          | inl e ↦ rw e refl
          | inr e ↦ rw e refl
        ])
      ]

  cancel-others :
      (job_id : String) (at : ℕ) (db : Db)
      → others_jobs user_id (cancel user_id job_id at db).0 ≡ others_jobs user_id db
  unfolding others_jobs cancel can_cancel set_cancel
  cancel-others job_id at db =
      elim (Bool-cases (ltb 0 (affected (can_cancel user_id job_id) db.jobs))) [
        | inl hit ↦ rw hit (
            delete-update (belongs_to user_id) (can_cancel user_id job_id) (set_cancel at) db.jobs
              (All-every _ (λ r h. ground arith) db.jobs) (λ r. refl))
        | inr miss ↦ rw miss (elim (Bool-cases (exists (is_owned_by user_id job_id) db.jobs)) [
          | inl e ↦ rw e refl
          | inr e ↦ rw e refl
        ])
      ]

  pub retry_job_tables :
      (job_id : String) (at : ℕ) (db : Db)
      → (retry_job user_id job_id at db).0 ≡ (retry user_id job_id at db).0
  unfolding retry_job retry
  retry_job_tables job_id at db = ground arith

  delete_job-others :
      (job_id : String) (db : Db)
      → others_jobs user_id (delete_job user_id job_id db).0 ≡ others_jobs user_id db
  unfolding others_jobs delete_job
  delete_job-others job_id db =
      elim (Bool-cases (affected (is_owned_by user_id job_id) db.jobs == 0)) [
        | inl e ↦ rw e refl
        | inr e ↦ rw e (
            delete-delete (belongs_to user_id) (is_owned_by user_id job_id) db.jobs
              (λ r h. ground arith))
      ]

  delete-others :
      (job_id : String) (db : Db)
      → others_jobs user_id (delete user_id job_id db).0 ≡ others_jobs user_id db
  unfolding delete
  delete-others job_id db = removed (find_by_id user_id job_id db)
    where
      removed :
          (x : Result FoundJob)
          → others_jobs user_id
              (elim x as (λ y. Db × Result (Unit {0})) [
                | err e ↦ (db, err e)
                | ok f ↦
                    if is_terminal f.job.status
                    then delete_job user_id job_id db
                    else (db, err not_deletable)
              ]).0
            ≡ others_jobs user_id db
      removed (err e) = refl
      removed (ok f) = elim (Bool-cases (is_terminal f.job.status)) [
        | inl e ↦ rw e (delete_job-others job_id db)
        | inr e ↦ rw e refl
      ]

  new-others :
      (started : Bool) (job : Job) (db : Db)
      → job.user_id ≡ user_id
      → others_jobs user_id (with_job started job db) ≡ others_jobs user_id db
  unfolding others_jobs set_created
  new-others started job db mine =
      delete-append (belongs_to user_id) (set_created started job) db.jobs
        (rw mine (eq_refl user_id))

  -- The row of a new id is the only one that a statement on that id changes.
  new_row_only :
      (started : Bool) (job : Job) (db : Db)
      → job.user_id ≡ user_id
      → is_refused job db.jobs ≡ false
      → All
          (λ r. has_id job.id r ≡ true → belongs_to user_id r ≡ true)
          (with_job started job db).jobs
  unfolding is_refused set_created
  new_row_only started job db mine fresh =
      All-append _ db.jobs _
        (All-map _ _ (λ r h same. absurd (ground arith)) db.jobs
          (exists_none (clashes job) db.jobs (ground arith)))
        ((λ same. rw mine (eq_refl user_id)), tt)

  completed-others :
      (id : String) (at later : ℕ) (url work_id : String) (input : CreateInput) (db : Db)
      → input.user_id ≡ user_id
      → is_refused (info_job id at url input) db.jobs ≡ false
      → others_jobs user_id
          (complete_info id work_id later (with_job true (info_job id at url input) db)).0
        ≡ others_jobs user_id db
  unfolding complete_info exec can_complete_info info_job set_complete_info others_jobs
  completed-others id at later url work_id input db mine fresh =
      delete-update (belongs_to user_id) (can_complete_info id) (set_complete_info work_id later) _
        (All-map _ _ (λ r only h. only (ground arith)) _
          (new_row_only true (info_job id at url input) db mine fresh))
        (λ r. refl)
      ∙ new-others true (info_job id at url input) db mine

  failed-others :
      (id : String) (at later : ℕ) (url code message : String) (input : CreateInput) (db : Db)
      → input.user_id ≡ user_id
      → is_refused (info_job id at url input) db.jobs ≡ false
      → others_jobs user_id
          (fail id code message later (with_job true (info_job id at url input) db)).0
        ≡ others_jobs user_id db
  unfolding fail exec info_job set_fail others_jobs
  failed-others id at later url code message input db mine fresh =
      delete-update (belongs_to user_id) (has_id id) (set_fail code message later) _
        (new_row_only true (info_job id at url input) db mine fresh) (λ r. refl)
      ∙ new-others true (info_job id at url input) db mine

  queued-others :
      (id : String) (at : ℕ) (url : String) (input : CreateInput) (db : Db)
      → input.user_id ≡ user_id
      → others_jobs user_id (with_job false (download_job id at url (default_action input)) db)
        ≡ others_jobs user_id db
  unfolding download_job default_action
  queued-others id at url input db mine =
      new-others false (download_job id at url (default_action input)) db (ground arith)

-- `P` is about the jobs of other users only.
abbrev pub IsForeign : String → (Db → Type 0) → Type 0
IsForeign user_id P =
    (db db' : Db) → others_jobs user_id db' ≡ others_jobs user_id db → P db → P db'

module _ (user_id : String) {P : Db → Type 0} (foreign : IsForeign user_id P) where
  pub others-Guarantee : Guarantee user_id P
  others-Guarantee = record {
    cancels = λ job_id at db h. foreign db _ (cancel-others user_id job_id at db) h;
    retries = λ job_id at db h.
        foreign db _
          (ap (others_jobs user_id) (retry_job_tables user_id job_id at db)
            ∙ retry-others user_id job_id at db)
          h;
    deletes = λ job_id db h. foreign db _ (delete-others user_id job_id db) h;
  }

  pub others-Creates : (extract : String → Option String) → Creates extract user_id P
  others-Creates extract = record {
    informs = λ id at later resolution between input db mine h g.
        create_info_job_kept extract id at input between db P later resolution h g
          (λ url work_id fresh.
            foreign (between db) _
              (completed-others user_id id at later url work_id input (between db) mine fresh) g)
          (λ url code message fresh.
            foreign (between db) _
              (failed-others user_id id at later url code message input (between db) mine fresh) g);
    downloads = λ id at between input db mine h g.
        create_download_kept extract id at input between db P h g (λ url fresh.
          foreign (between db) _ (queued-others user_id id at url input (between db) mine) g);
  }
