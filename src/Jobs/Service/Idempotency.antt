-- ===== src/Jobs/Service/Idempotency.antt =====
-- A request that is sent again, and two requests that meet under one idempotency key.
use luxury_video_tool.Base.{
  ℕ, ◌≡◌, ◌∙◌, String, Option, none, some, true, false, ◌&&◌, List, [], ◌∷◌, ◌++◌, if◌then◌else◌,
  str_eq, arith, Bool-cases, inl, inr,
}
use luxury_video_tool.Sql.{find}
use luxury_video_tool.Sql.Keys.{find_exists}
use luxury_video_tool.Jobs.Model.{Job, Db, err, idempotency_conflict, constraint_failed}
use luxury_video_tool.Jobs.Repository.Select.{
  FoundJob, find_by_idempotency_key, create_info, create, is_refused, clashes,
}
use luxury_video_tool.Jobs.Service.{
  CreateInput, job_reply, repository_error, same_info_request, reused, download_job, info_job,
  create_download, default_action, options_valid, download_checked, download_lost, info_lost,
  create_info_job, Resolution,
}
use luxury_video_tool.Jobs.Service.Download.{
  checked_used, checked_lost, fresh_checked, by_key, new_row-same_request, new_row,
}

-- A request that made a new job can be sent again under its key, with whatever new id and clock:
-- it is answered with the job that it made, as one that was there, and nothing is written.
pub create_download-again :
    (extract : String → Option String) (id : String) (now : ℕ) (between : Db → Db)
    (input : CreateInput) (db : Db) {f : FoundJob}
    → (create_download extract id now between input db).1 ≡ job_reply f false
    → (id' : String) (now' : ℕ) (between' : Db → Db)
    → create_download extract id' now' between' input
        (create_download extract id now between input db).0
      ≡ (
        (create_download extract id now between input db).0,
        job_reply (record { job = f.job; files = none }) true,
      )
unfolding create_download
create_download-again extract id now between input db {f} h id' now' between' =
    elim (Bool-cases (options_valid (default_action input))) [
      | inr bad ↦ absurd (ground arith)
      | inl good ↦
          let asked = default_action input in
          let (url, k, tables, reply) =
            fresh_checked extract id now between asked db {f = f} (ground arith) in
          rw good (again url k tables reply)
    ]
  where
    again :
        (url : String)
        → is_refused (download_job id now url (default_action input)) (between db).jobs ≡ false
        → (download_checked extract id now between (default_action input) db).0
          ≡ record (between db) {
            jobs = (between db).jobs ++ new_row id now url (default_action input) ∷ [];
          }
        → f ≡ record { job = new_row id now url (default_action input); files = none }
        → download_checked extract id' now' between'
            (default_action input)
            (download_checked extract id now between (default_action input) db).0
          ≡ (
            (download_checked extract id now between (default_action input) db).0,
            job_reply (record { job = f.job; files = none }) true,
          )
    again url k tables reply =
        rw (tables, reply)
          (checked_used extract id' now' between' (default_action input) _ _
              (by_key id now url (default_action input) (between db) k)
            ∙ rw (new_row-same_request id now url (default_action input)))

clash_of_key :
    (job : Job) (jobs : List Job) {r : Job}
    → find (λ x. str_eq x.user_id job.user_id && str_eq x.idempotency_key job.idempotency_key) jobs
      ≡ some r
    → is_refused job jobs ≡ true
unfolding is_refused
clash_of_key job jobs there = rw (find_exists _ (clashes job) jobs (λ x h. ground arith) there)

asked_key :
    (input : CreateInput)
    → ((default_action input).user_id ≡ input.user_id)
      × ((default_action input).idempotency_key ≡ input.idempotency_key)
      × ((default_action input).share_text ≡ input.share_text)
unfolding default_action
asked_key input = ground arith

lost_reuses :
    (input : CreateInput) (db : Db) (r : Job)
    → find_by_idempotency_key input.user_id input.idempotency_key db ≡ some r
    → download_lost input db constraint_failed ≡ (db, reused r)
unfolding download_lost
lost_reuses input db r e = rw (e, download_lost)

download_refused :
    (id : String) (now : ℕ) (url : String) (input : CreateInput) (db : Db) {r : Job}
    → find_by_idempotency_key input.user_id input.idempotency_key db ≡ some r
    → is_refused (download_job id now url (default_action input)) db.jobs ≡ true
unfolding find_by_idempotency_key download_job info_job
download_refused id now url input db {r} taken =
    let asked = asked_key input in
    clash_of_key (download_job id now url (default_action input)) db.jobs {r = r}
      (rw (asked.0, asked.1) taken)

info_refused :
    (job : Job) (db : Db)
    → is_refused job db.jobs ≡ true
    → create_info job db ≡ (db, err constraint_failed)
unfolding create_info create
info_refused job db k = rw k

info_compares :
    (input : CreateInput) (db : Db) (r : Job)
    → find_by_idempotency_key input.user_id input.idempotency_key db ≡ some r
    → info_lost input db constraint_failed
      ≡ (db, if same_info_request input r then reused r else repository_error idempotency_conflict)
unfolding info_lost
info_compares input db r e = rw (e, info_lost)

module _ (extract : String → Option String) (id : String) (now : ℕ) (between : Db → Db)
    (input : CreateInput) (db : Db) {r : Job} (url : String) where
  -- Where another request takes the idempotency key between the lookup and the INSERT of a
  -- CreateDownload with valid options, it answers with that request's job, whatever that asked
  -- for, and writes nothing.
  pub create_download_race :
      options_valid (default_action input) ≡ true
      → find_by_idempotency_key input.user_id input.idempotency_key db ≡ none
      → extract input.share_text ≡ some url
      → find_by_idempotency_key input.user_id input.idempotency_key (between db) ≡ some r
      → create_download extract id now between input db ≡ (between db, reused r)
  unfolding create_download
  create_download_race good unused link taken =
      let asked = asked_key input in
      let lost =
        checked_lost extract id now between (default_action input) db (rw (asked.0, asked.1) unused)
          url (rw asked.2 link) (download_refused id now url input (between db) taken) in
      rw good
        (rw lost (lost_reuses (default_action input) (between db) r (rw (asked.0, asked.1) taken)))

  -- Where another request takes the idempotency key between the lookup and the INSERT, CreateInfo
  -- compares the requests and answers with the other job or with a conflict, and writes nothing.
  pub create_info_race :
      (at : ℕ) (resolution : Resolution)
      → find_by_idempotency_key input.user_id input.idempotency_key db ≡ none
      → extract input.share_text ≡ some url
      → find_by_idempotency_key input.user_id input.idempotency_key (between db) ≡ some r
      → create_info_job extract id now at resolution between input db ≡ (
        between db,
        if same_info_request input r then reused r else repository_error idempotency_conflict,
      )
  unfolding create_info_job info_job
  create_info_race at resolution unused link taken = ground (
    arith,
    create_info_job,
    info_refused (info_job id now url input) (between db) (
        clash_of_key (info_job id now url input) (between db).jobs
          (unfold find_by_idempotency_key in taken)),
    info_compares input (between db) r taken,
  )
