-- ===== src/Http/Keeps/Sound.antt =====
-- The calls of the requests and the soundness of the table of jobs.
use luxury_video_tool.Base.{
  ℕ, ◌≡◌, refl, sym, subst, String, Option, none, Bool, true, false, All, All-map, All-append,
  arith, if◌then◌else◌, Bool-cases, inl, inr,
}
use luxury_video_tool.Sql.Keys.{exists_none}
use luxury_video_tool.Jobs.Lifecycle.Steps
use luxury_video_tool.Jobs.Lifecycle.Steps.{IsSoundDb, perform}
use luxury_video_tool.Jobs.Lifecycle.Steps.Kept.{perform-IsSoundDb}
use luxury_video_tool.Jobs.Lifecycle.Steps.Statements.{
  cancel-IsSoundDb, retry-IsSoundDb, delete_job-IsSoundDb,
}
use luxury_video_tool.Jobs.Model.{Job, Db, Result, ok, err, not_deletable, is_terminal}
use luxury_video_tool.Jobs.Repository.{has_id}
use luxury_video_tool.Jobs.Repository.Select.{
  FoundJob, find_by_id, create, create_info, create_queued, is_refused, set_created, clashes,
}
use luxury_video_tool.Jobs.Repository.User.{delete_job}
use luxury_video_tool.Jobs.Service.{CreateInput, info_job, download_job, default_action, delete}
use luxury_video_tool.Jobs.Service.Made.{
  with_job, create_made, create_info_job_kept, create_download_kept,
}
use luxury_video_tool.Http.Keeps.{Guarantee, Creates}
use luxury_video_tool.Http.Keeps.Others.{retry_job_tables}

delete-IsSoundDb :
    (user_id job_id : String) (db : Db) → IsSoundDb db → IsSoundDb (delete user_id job_id db).0
unfolding delete
delete-IsSoundDb user_id job_id db v = removed (find_by_id user_id job_id db)
  where
    removed :
        (x : Result FoundJob)
        → IsSoundDb
            (elim x as (λ y. Db × Result (Unit {0})) [
              | err e ↦ (db, err e)
              | ok f ↦
                  if is_terminal f.job.status
                  then delete_job user_id job_id db
                  else (db, err not_deletable)
            ]).0
    removed (err e) = v
    removed (ok f) = elim (Bool-cases (is_terminal f.job.status)) [
      | inl e ↦ rw e (delete_job-IsSoundDb user_id job_id db v)
      | inr e ↦ rw e v
    ]

pub sound-Guarantee : (user_id : String) → Guarantee user_id IsSoundDb
sound-Guarantee user_id = record {
  cancels = λ job_id at db v. cancel-IsSoundDb user_id job_id at db v;
  retries = λ job_id at db v.
      subst IsSoundDb (sym (retry_job_tables user_id job_id at db))
        (retry-IsSoundDb user_id job_id at db v);
  deletes = λ job_id db v. delete-IsSoundDb user_id job_id db v;
}

-- The row of a new id is the only one that has it, and no worker holds it.
new_row_free :
    (started : Bool) (job : Job) (db : Db)
    → is_refused job db.jobs ≡ false
    → All (λ r. has_id job.id r ≡ true → r.lease_owner ≡ none) (with_job started job db).jobs
unfolding is_refused set_created
new_row_free started job db fresh =
    All-append _ db.jobs _
      (All-map _ _ (λ r h same. absurd (ground arith)) db.jobs
        (exists_none (clashes job) db.jobs (ground arith)))
      ((λ same. refl), tt)

pub sound-Creates :
    (extract : String → Option String) (user_id : String) → Creates extract user_id IsSoundDb
unfolding perform create create_info create_queued
sound-Creates extract user_id = record {
  informs = λ id at later resolution between input db mine v g.
      create_info_job_kept extract id at input between db IsSoundDb later resolution v g
        (λ url work_id fresh.
          perform-IsSoundDb (Steps.completes_info id work_id later) _
            (made_free id at url input (between db) fresh)
            (made_sound id at url input (between db) fresh g))
        (λ url code message fresh.
          perform-IsSoundDb (Steps.fails id code message later) _ tt
            (made_sound id at url input (between db) fresh g));
  downloads = λ id at between input db mine v g.
      create_download_kept extract id at input between db IsSoundDb v g
        (λ url fresh. queued_sound id at url (default_action input) (between db) fresh g);
}
  where
    made_sound :
        (id : String) (at : ℕ) (url : String) (input : CreateInput) (db : Db)
        → is_refused (info_job id at url input) db.jobs ≡ false
        → IsSoundDb db
        → IsSoundDb (with_job true (info_job id at url input) db)
    made_sound id at url input db fresh v =
        subst IsSoundDb (create_made true (info_job id at url input) db fresh) (
          perform-IsSoundDb (Steps.creates_info (info_job id at url input)) db
            (unfold info_job in refl) v)

    queued_sound :
        (id : String) (at : ℕ) (url : String) (input : CreateInput) (db : Db)
        → is_refused (download_job id at url input) db.jobs ≡ false
        → IsSoundDb db
        → IsSoundDb (with_job false (download_job id at url input) db)
    queued_sound id at url input db fresh v =
        subst IsSoundDb (create_made false (download_job id at url input) db fresh) (
          perform-IsSoundDb (Steps.creates_queued (download_job id at url input)) db
            (unfold download_job in refl) v)

    made_free :
        (id : String) (at : ℕ) (url : String) (input : CreateInput) (db : Db)
        → is_refused (info_job id at url input) db.jobs ≡ false
        → All
            (λ r. has_id id r ≡ true → r.lease_owner ≡ none)
            (with_job true (info_job id at url input) db).jobs
    made_free id at url input db fresh =
        unfold info_job in new_row_free true (info_job id at url input) db fresh
