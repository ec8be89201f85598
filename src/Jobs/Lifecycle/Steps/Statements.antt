-- ===== src/Jobs/Lifecycle/Steps/Statements.antt =====
-- The statements that branch keep the table of jobs sound.
use luxury_video_tool.Base.{
  ℕ, ◌≡◌, refl, String, some, Bool, true, List, ltb, All, All-map, arith, Bool-cases, Option-cases,
  inl, inr, ◌==◌,
}
use luxury_video_tool.Sql.{update, exists, delete, affected}
use luxury_video_tool.Sql.Laws.{update_unmatched, delete-All, order_by-All, first-All, select-All}
use luxury_video_tool.Sql.Keys.{delete-Unique, select_keeps, Unique-only}
use luxury_video_tool.Jobs.Model.{Job, Db, is_processing, Status}
use luxury_video_tool.Jobs.Repository.{exec, is_leased_by, is_owned_by}
use luxury_video_tool.Jobs.Repository.Worker.{set_stage, set_stage_row}
use luxury_video_tool.Jobs.Repository.User.{
  cancel, can_cancel, set_cancel, retry, can_retry, set_retry, delete_job,
}
use luxury_video_tool.Jobs.Repository.Claim.{
  claim_next, claim, can_claim, set_claim, is_due, oldest_due,
}
use luxury_video_tool.Jobs.Repository.Recovery.{recover, needs_review, set_review, set_recovered}
use luxury_video_tool.Jobs.Lifecycle.{IsSound}
use luxury_video_tool.Jobs.Lifecycle.Rows.{
  stage-IsSound, cancel-IsSound, retry-IsSound, claim-IsSound, review-IsSound, recovered-IsSound,
}
use luxury_video_tool.Jobs.Lifecycle.Steps.{same_id, same_key, IsSoundDb}
use luxury_video_tool.Jobs.Lifecycle.Steps.Tables.{every-IsSoundDb, update-IsSoundDb, str_eq_comm}

module _ (now : ℕ) (jobs : List Job) {c : Job} (chosen : oldest_due now jobs ≡ some c) where
  pub oldest_due-is_due : is_due now c ≡ true
  unfolding oldest_due
  oldest_due-is_due =
      first-All (λ r. is_due now r ≡ true) _
        (order_by-All _ (λ (r : Job). r.created_at) _ (select-All (is_due now) jobs)) chosen

  pub oldest_due_in : (P : Job → Type 0) → All P jobs → P c
  unfolding oldest_due
  oldest_due_in P h =
      first-All P _
        (order_by-All P (λ (r : Job). r.created_at) _ (select_keeps P (is_due now) jobs h)) chosen

claim_row :
    (owner : String) (now lease : ℕ) (c r : Job)
    → is_due now c ≡ true
    → (same_id r c ≡ true → r ≡ c)
    → IsSound r
    → can_claim c.id r ≡ true
    → IsSound (set_claim owner now lease r)
unfolding is_due can_claim
claim_row owner now lease c r d only v g =
    let same : r ≡ c = only (ground arith) in
    claim-IsSound owner now lease r (rw same (ground arith)) (ground arith) v

pub claim-IsSoundDb :
    (owner : String) (now lease : ℕ) (db : Db)
    → IsSoundDb db
    → IsSoundDb (claim_next owner now lease db).0
unfolding claim_next claim set_claim
claim-IsSoundDb owner now lease db v = elim (Option-cases (oldest_due now db.jobs)) [
  | inl e ↦ rw (e, claim_next) v
  | inr (c, e) ↦
      rw (e, claim_next)
        (update-IsSoundDb (can_claim c.id) (set_claim owner now lease) db (λ r. (refl, refl, refl))
          (All-map _ _
            (λ r only. claim_row owner now lease c r (oldest_due-is_due now db.jobs e) only) db.jobs
            (oldest_due_in now db.jobs e _
              (Unique-only same_id (λ x y. str_eq_comm x.id y.id) db.jobs v.ids)))
          v)
]

pub delete-IsSoundDb :
    (p : Job → Bool) (db db' : Db) → db'.jobs ≡ delete p db.jobs → IsSoundDb db → IsSoundDb db'
delete-IsSoundDb p db db' e v = record {
  rows = rw e (delete-All IsSound p db.jobs v.rows);
  ids = rw e (delete-Unique same_id p db.jobs v.ids);
  keys = rw e (delete-Unique same_key p db.jobs v.keys);
}

pub set_stage-IsSoundDb :
    (job_id owner : String) (status : Status) (progress : ℕ) (message : String) (at : ℕ) (db : Db)
    → is_processing status ≡ true
    → IsSoundDb db
    → IsSoundDb (set_stage job_id owner status progress message at db).0
unfolding set_stage exec set_stage_row
set_stage-IsSoundDb job_id owner status progress message at db s v =
    elim (Bool-cases (ltb 100 progress)) [
      | inr low ↦ rw low (
          every-IsSoundDb _ _ db (λ r. (refl, refl, refl))
            (λ r. stage-IsSound job_id owner status progress message at r s (ground arith)) v)
      | inl high ↦
          rw high (elim (Bool-cases (ltb 0 (affected (is_leased_by job_id owner) db.jobs))) [
            | inl some_row ↦ rw some_row v
            | inr no_row ↦ rw no_row (
                rw
                  (update_unmatched (is_leased_by job_id owner)
                    (set_stage_row status progress message at) db.jobs (ground arith))
                  v)
          ])
    ]

pub cancel-IsSoundDb :
    (user_id job_id : String) (at : ℕ) (db : Db)
    → IsSoundDb db
    → IsSoundDb (cancel user_id job_id at db).0
unfolding cancel set_cancel
cancel-IsSoundDb user_id job_id at db v =
    elim (Bool-cases (ltb 0 (affected (can_cancel user_id job_id) db.jobs))) [
      | inl hit ↦ rw hit (
          every-IsSoundDb _ (set_cancel at) db (λ r. (refl, refl, refl))
            (λ r s g. cancel-IsSound at r s) v)
      | inr miss ↦ rw miss (elim (Bool-cases (exists (is_owned_by user_id job_id) db.jobs)) [
        | inl e ↦ rw e v
        | inr e ↦ rw e v
      ])
    ]

pub retry-IsSoundDb :
    (user_id job_id : String) (at : ℕ) (db : Db)
    → IsSoundDb db
    → IsSoundDb (retry user_id job_id at db).0
unfolding retry set_retry
retry-IsSoundDb user_id job_id at db v =
    elim (Bool-cases (ltb 0 (affected (can_retry user_id job_id) db.jobs))) [
      | inl hit ↦ rw hit (
          every-IsSoundDb _ (set_retry at) db (λ r. (refl, refl, refl))
            (retry-IsSound user_id job_id at) v)
      | inr miss ↦ rw miss (elim (Bool-cases (exists (is_owned_by user_id job_id) db.jobs)) [
        | inl e ↦ rw e v
        | inr e ↦ rw e v
      ])
    ]

pub delete_job-IsSoundDb :
    (user_id job_id : String) (db : Db) → IsSoundDb db → IsSoundDb (delete_job user_id job_id db).0
unfolding delete_job
delete_job-IsSoundDb user_id job_id db v =
    elim (Bool-cases (affected (is_owned_by user_id job_id) db.jobs == 0)) [
      | inl e ↦ rw e v
      | inr e ↦ rw e (delete-IsSoundDb (is_owned_by user_id job_id) db _ refl v)
    ]

pub recover-IsSoundDb : (now : ℕ) (db : Db) → IsSoundDb db → IsSoundDb (recover now db).0
unfolding recover set_review set_recovered
recover-IsSoundDb now db v =
    let first_pass : Db = record db {
      jobs = update (needs_review db.asr_calls now) (set_review now) db.jobs;
    } in
    every-IsSoundDb _ (set_recovered now) first_pass (λ r. (refl, refl, refl))
      (λ r s g. recovered-IsSound now r s)
      (every-IsSoundDb _ (set_review now) db (λ r. (refl, refl, refl))
        (λ r s g. review-IsSound now r s) v)
