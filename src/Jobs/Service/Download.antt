-- ===== src/Jobs/Service/Download.antt =====
-- What CreateDownload answers, by what it meets: a used key, a bad link, a clash of the INSERT, or
-- none of these.
use luxury_video_tool.Base.{
  ℕ, ◌≡◌, ◌≢◌, refl, ap, String, Option, none, some, Bool, true, false, ◌&&◌, List, [], ◌∷◌, ◌++◌,
  if◌then◌else◌, str_eq, eq_refl, All, All-map, arith, Bool-cases, Option-cases, inl, inr,
}
use luxury_video_tool.Sql.{find}
use luxury_video_tool.Sql.Keys.{exists_none, find-append_new}
use luxury_video_tool.Jobs.Model.{Job, Db, Error, ok, err, idempotency_conflict, constraint_failed}
use luxury_video_tool.Jobs.Repository.{is_owned_by}
use luxury_video_tool.Jobs.Repository.Select.{
  FoundJob, find_by_idempotency_key, find_by_id, create_queued, create, is_refused, set_created,
  clashes,
}
use luxury_video_tool.Jobs.Service.{
  CreateInput, Reply, job_reply, repository_error, share_text_error, same_strings, same_request,
  reused, download_job, default_action, download_checked, download_lost,
}

same_strings_refl : (xs : List String) → same_strings xs xs ≡ true
unfolding same_strings
same_strings_refl [] = refl
same_strings_refl (x ∷ xs) = rw (eq_refl x) (same_strings_refl xs)

-- The row that a fresh request inserts.
abbrev pub new_row : String → ℕ → String → CreateInput → Job
new_row id now url input = set_created false (download_job id now url input)

pub new_row-same_request :
    (id : String) (now : ℕ) (url : String) (input : CreateInput)
    → same_request input (new_row id now url input) ≡ true
unfolding same_request set_created download_job
new_row-same_request id now url input = ground (
  arith,
  eq_refl input.share_text,
  eq_refl input.action,
  same_strings_refl input.language_hints,
  same_strings_refl input.hotwords,
)

default_action_twice :
    (input : CreateInput) → default_action (default_action input) ≡ default_action input
unfolding default_action
default_action_twice input = ground arith

abbrev pub has_key : CreateInput → Job → Bool
has_key input r = str_eq r.user_id input.user_id && str_eq r.idempotency_key input.idempotency_key

clash_free :
    (id : String) (now : ℕ) (url : String) (input : CreateInput) (r : Job)
    → clashes (download_job id now url input) r ≡ false
    → (has_key input r ≡ false) × (is_owned_by input.user_id id r ≡ false)
unfolding download_job
clash_free id now url input r h = ground arith

new_row_keys :
    (id : String) (now : ℕ) (url : String) (input : CreateInput)
    → (has_key input (new_row id now url input) ≡ true)
      × (is_owned_by input.user_id id (new_row id now url input) ≡ true)
unfolding set_created download_job
new_row_keys id now url input =
    ground (arith, eq_refl input.user_id, eq_refl input.idempotency_key, eq_refl id)

insert_refused :
    (job : Job) (db : Db)
    → is_refused job db.jobs ≡ true
    → create_queued job db ≡ (db, err constraint_failed)
unfolding create_queued create
insert_refused job db k = rw k

module _ (id : String) (now : ℕ) (url : String) (input : CreateInput) (db : Db)
    (free : is_refused (download_job id now url input) db.jobs ≡ false) where
  abbrev row : Job
  row = new_row id now url input

  abbrev with_row : Db
  with_row = record db { jobs = db.jobs ++ row ∷ [] }

  insert_new : create_queued (download_job id now url input) db ≡ (with_row, ok tt)
  unfolding create_queued create
  insert_new = rw free

  no_clashes : All (λ r. clashes (download_job id now url input) r ≡ false) db.jobs
  no_clashes = exists_none _ db.jobs (unfold is_refused in ground arith)

  pub by_key : find_by_idempotency_key input.user_id input.idempotency_key with_row ≡ some row
  unfolding find_by_idempotency_key
  by_key =
      find-append_new (has_key input) db.jobs row
        (All-map _ _ (λ r h. (clash_free id now url input r h).0) db.jobs no_clashes)
        (new_row_keys id now url input).0

  by_id : find (is_owned_by input.user_id id) with_row.jobs ≡ some row
  by_id =
      find-append_new (is_owned_by input.user_id id) db.jobs row
        (All-map _ _ (λ r h. (clash_free id now url input r h).1) db.jobs no_clashes)
        (new_row_keys id now url input).1

  -- The lookup after the INSERT gives the row that was inserted.
  read_back : find_by_id input.user_id id with_row ≡ ok (record { job = row; files = none })
  unfolding find_by_id
  read_back = rw by_id (unfold set_created download_job in refl)

module _ (extract : String → Option String) (id : String) (now : ℕ) (between : Db → Db)
    (input : CreateInput) (db : Db) where
  pub checked_used :
      (r : Job)
      → find_by_idempotency_key input.user_id input.idempotency_key db ≡ some r
      → download_checked extract id now between input db
        ≡ (db, if same_request input r then reused r else repository_error idempotency_conflict)
  unfolding download_checked
  checked_used r e = rw (e, download_checked)

  checked_bad_link :
      find_by_idempotency_key input.user_id input.idempotency_key db ≡ none
      → extract input.share_text ≡ none
      → download_checked extract id now between input db ≡ (db, share_text_error)
  unfolding download_checked
  checked_bad_link e x = ground arith

  module _ (unused : find_by_idempotency_key input.user_id input.idempotency_key db ≡ none)
      (url : String) (link : extract input.share_text ≡ some url) where
    checked_fresh :
        is_refused (download_job id now url input) (between db).jobs ≡ false
        → download_checked extract id now between input db ≡ (
          record (between db) { jobs = (between db).jobs ++ new_row id now url input ∷ [] },
          job_reply (record { job = new_row id now url input; files = none }) false,
        )
    unfolding download_checked
    checked_fresh k = ground (
      arith,
      insert_new id now url input (between db) k,
      read_back id now url input (between db) k,
    )

    pub checked_lost :
        is_refused (download_job id now url input) (between db).jobs ≡ true
        → download_checked extract id now between input db
          ≡ download_lost input (between db) constraint_failed
    unfolding download_checked
    checked_lost k = ground (arith, insert_refused (download_job id now url input) (between db) k)

lost_not_fresh :
    (input : CreateInput) (db : Db) (e : Error) (f : FoundJob)
    → (download_lost input db e).1 ≢ job_reply f false
unfolding download_lost
lost_not_fresh input db e f h = ground arith

module _ (extract : String → Option String) (id : String) (now : ℕ) (between : Db → Db)
    (input : CreateInput) (db : Db) {f : FoundJob} where
  pub fresh_checked :
      (download_checked extract id now between input db).1 ≡ job_reply f false
      → (url : String) × (is_refused (download_job id now url input) (between db).jobs ≡ false)
        × ((download_checked extract id now between input db).0
            ≡ record (between db) { jobs = (between db).jobs ++ new_row id now url input ∷ [] })
        × (f ≡ record { job = new_row id now url input; files = none })
  fresh_checked h =
      elim (Option-cases (find_by_idempotency_key input.user_id input.idempotency_key db)) [
        | inr (r, e) ↦ absurd (ground (arith, checked_used extract id now between input db r e))
        | inl e ↦ elim (Option-cases (extract input.share_text)) [
          | inl x ↦ absurd (ground (arith, checked_bad_link extract id now between input db e x))
          | inr (url, x) ↦
              elim (Bool-cases (is_refused (download_job id now url input) (between db).jobs)) [
                | inl k ↦ absurd (
                    ground (
                      arith,
                      checked_lost extract id now between input db e url x k,
                      lost_not_fresh input (between db) constraint_failed f,
                    ))
                | inr k ↦
                    let all = checked_fresh extract id now between input db e url x k in
                    (url, k, ap (λ (p : Db × Reply). p.0) all, ground arith)
              ]
        ]
      ]
