-- ===== src/Jobs/Service/Made.antt =====
-- What the two creations leave in the tables: what was there, or one more row.
use luxury_video_tool.Base.{
  ℕ, ◌≡◌, sym, ap, subst, refl, String, Option, Bool, true, false, [], ◌∷◌, ◌++◌, arith, Bool-cases,
  Option-cases, inl, inr,
}
use luxury_video_tool.Jobs.Model.{Job, Db, Error, Result, ok, err, constraint_failed}
use luxury_video_tool.Jobs.Repository.{exec}
use luxury_video_tool.Jobs.Repository.Select.{
  find_by_idempotency_key, create_info, create_queued, create, is_refused, set_created,
}
use luxury_video_tool.Jobs.Repository.Worker.{complete_info, fail}
use luxury_video_tool.Jobs.Service.{
  CreateInput, Resolution, resolved, unresolved, info_job, download_job, default_action,
  options_valid, info_lost, download_lost, finish_info, create_info_job, download_checked,
  create_download,
}

-- The tables with a new row.
abbrev pub with_job : Bool → Job → Db → Db
with_job started job db = record db { jobs = db.jobs ++ set_created started job ∷ [] }

info_made :
    (job : Job) (db : Db)
    → is_refused job db.jobs ≡ false
    → ◌≡◌ {A = Db × Result (Unit {0})} (create_info job db) (with_job true job db, ok tt)
unfolding create_info create
info_made job db fresh = rw fresh refl

info_refused :
    (job : Job) (db : Db)
    → is_refused job db.jobs ≡ true
    → ◌≡◌ {A = Db × Result (Unit {0})} (create_info job db) (db, err constraint_failed)
unfolding create_info create
info_refused job db refused = rw refused refl

queued_made :
    (job : Job) (db : Db)
    → is_refused job db.jobs ≡ false
    → ◌≡◌ {A = Db × Result (Unit {0})} (create_queued job db) (with_job false job db, ok tt)
unfolding create_queued create
queued_made job db fresh = rw fresh refl

queued_refused :
    (job : Job) (db : Db)
    → is_refused job db.jobs ≡ true
    → ◌≡◌ {A = Db × Result (Unit {0})} (create_queued job db) (db, err constraint_failed)
unfolding create_queued create
queued_refused job db refused = rw refused refl

pub create_made :
    (started : Bool) (job : Job) (db : Db)
    → is_refused job db.jobs ≡ false
    → (create started job db).0 ≡ with_job started job db
unfolding create
create_made started job db fresh = rw fresh refl

module _ (extract : String → Option String) (id : String) (now : ℕ) (input : CreateInput)
    (between : Db → Db) (db : Db) (Q : Db → Type 0) where
  info_lost_kept : (e : Error) (met : Db) → Q met → Q (info_lost input met e).0
  unfolding info_lost
  info_lost_kept e met h =
      elim (Option-cases (find_by_idempotency_key input.user_id input.idempotency_key met)) [
        | inl n ↦ rw (n, info_lost) h
        | inr (r, s) ↦ rw (s, info_lost) h
      ]

  completed_tables :
      (work_id : String) (at : ℕ) (made : Db)
      → (finish_info input id at (resolved work_id) made).0 ≡ (complete_info id work_id at made).0
  unfolding finish_info complete_info exec
  completed_tables work_id at made = ground arith

  failed_tables :
      (code message : String) (at : ℕ) (made : Db)
      → (finish_info input id at (unresolved code message) made).0
        ≡ (fail id code message at made).0
  unfolding finish_info fail exec
  failed_tables code message at made = ground arith

  finish_info_kept :
      (at : ℕ) (resolution : Resolution) (made : Db)
      → ((work_id : String) → Q (complete_info id work_id at made).0)
      → ((code message : String) → Q (fail id code message at made).0)
      → Q (finish_info input id at resolution made).0
  finish_info_kept at (resolved work_id) made good bad =
      subst Q (sym (completed_tables work_id at made)) (good work_id)
  finish_info_kept at (unresolved code message) made good bad =
      subst Q (sym (failed_tables code message at made)) (bad code message)

  pub create_info_job_kept :
      (at : ℕ) (resolution : Resolution)
      → Q db
      → Q (between db)
      → ((url work_id : String)
          → is_refused (info_job id now url input) (between db).jobs ≡ false
          → Q
              (complete_info id work_id at
                (with_job true (info_job id now url input) (between db))).0)
      → ((url code message : String)
          → is_refused (info_job id now url input) (between db).jobs ≡ false
          → Q (fail id code message at (with_job true (info_job id now url input) (between db))).0)
      → Q (create_info_job extract id now at resolution between input db).0
  unfolding create_info_job
  create_info_job_kept at resolution h g good bad =
      elim (Option-cases (find_by_idempotency_key input.user_id input.idempotency_key db)) [
        | inr (r, s) ↦ rw (s, create_info_job) h
        | inl n ↦ elim (Option-cases (extract input.share_text)) [
          | inl m ↦ rw (n, m, create_info_job) h
          | inr (url, m) ↦
              elim (Bool-cases (is_refused (info_job id now url input) (between db).jobs)) [
                | inl refused ↦
                    rw
                      (
                        n,
                        m,
                        create_info_job,
                        info_refused (info_job id now url input) (between db) refused,
                        ap (λ (x : Db × Result (Unit {0})). x.0)
                            (info_refused (info_job id now url input) (between db) refused),
                      )
                      (info_lost_kept constraint_failed (between db) g)
                | inr fresh ↦
                    rw
                      (
                        n,
                        m,
                        create_info_job,
                        info_made (info_job id now url input) (between db) fresh,
                        ap (λ (x : Db × Result (Unit {0})). x.0)
                            (info_made (info_job id now url input) (between db) fresh),
                      )
                      (finish_info_kept at resolution _ (λ work_id. good url work_id fresh)
                        (λ code message. bad url code message fresh))
              ]
        ]
      ]

  download_lost_kept :
      (asked : CreateInput) (e : Error) (met : Db) → Q met → Q (download_lost asked met e).0
  unfolding download_lost
  download_lost_kept asked e met h =
      elim (Option-cases (find_by_idempotency_key asked.user_id asked.idempotency_key met)) [
        | inl n ↦ rw (n, download_lost) h
        | inr (r, s) ↦ rw (s, download_lost) h
      ]

  checked_kept :
      (asked : CreateInput)
      → Q db
      → Q (between db)
      → ((url : String)
          → is_refused (download_job id now url asked) (between db).jobs ≡ false
          → Q (with_job false (download_job id now url asked) (between db)))
      → Q (download_checked extract id now between asked db).0
  unfolding download_checked
  checked_kept asked h g made =
      elim (Option-cases (find_by_idempotency_key asked.user_id asked.idempotency_key db)) [
        | inr (r, s) ↦ rw (s, download_checked) h
        | inl n ↦ elim (Option-cases (extract asked.share_text)) [
          | inl m ↦ rw (n, m, download_checked) h
          | inr (url, m) ↦
              elim (Bool-cases (is_refused (download_job id now url asked) (between db).jobs)) [
                | inl refused ↦
                    rw
                      (
                        n,
                        m,
                        download_checked,
                        queued_refused (download_job id now url asked) (between db) refused,
                        ap (λ (x : Db × Result (Unit {0})). x.0)
                            (queued_refused (download_job id now url asked) (between db) refused),
                      )
                      (download_lost_kept asked constraint_failed (between db) g)
                | inr fresh ↦
                    rw
                      (
                        n,
                        m,
                        download_checked,
                        queued_made (download_job id now url asked) (between db) fresh,
                        ap (λ (x : Db × Result (Unit {0})). x.0)
                            (queued_made (download_job id now url asked) (between db) fresh),
                      )
                      (made url fresh)
              ]
        ]
      ]

  pub create_download_kept :
      Q db
      → Q (between db)
      → ((url : String)
          → is_refused (download_job id now url (default_action input)) (between db).jobs ≡ false
          → Q (with_job false (download_job id now url (default_action input)) (between db)))
      → Q (create_download extract id now between input db).0
  unfolding create_download
  create_download_kept h g made = elim (Bool-cases (options_valid (default_action input))) [
    | inl good ↦ rw (good, create_download) (checked_kept (default_action input) h g made)
    | inr bad ↦ rw (bad, create_download) h
  ]
