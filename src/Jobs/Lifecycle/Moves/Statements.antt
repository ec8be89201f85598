-- ===== src/Jobs/Lifecycle/Moves/Statements.antt =====
-- The statements that branch: where they leave a job that the table holds.
use luxury_video_tool.Base.{
  ℕ, ◌≡◌, refl, String, some, Bool, true, ◌&&◌, eq_iff, ltb, ◌==◌, All, All-map, arith, Bool-cases,
  Option-cases, inl, inr,
}
use luxury_video_tool.Sql.{update, find, affected, exists}
use luxury_video_tool.Sql.Laws.{find-update, find_sat, find-All}
use luxury_video_tool.Sql.Keys.{find-append_left, find-delete_kept, find-delete_gone, Unique-only}
use luxury_video_tool.Jobs.Lifecycle.Steps.Tables.{str_eq_comm}
use luxury_video_tool.Jobs.Repository.Select.{create, is_refused}
use luxury_video_tool.Jobs.Model.{Job, Db, Status, is_processing}
use luxury_video_tool.Jobs.Repository.{exec, has_id, is_leased_by, is_owned_by}
use luxury_video_tool.Jobs.Repository.Worker
use luxury_video_tool.Jobs.Repository.User
use luxury_video_tool.Jobs.Repository.Claim
use luxury_video_tool.Jobs.Repository.Recovery
use luxury_video_tool.Jobs.Lifecycle.{IsSound}
use luxury_video_tool.Jobs.Recovery.{recover_row, recover-row, recover_row-has_id}
use luxury_video_tool.Sql.Laws.{find-map}
use luxury_video_tool.Jobs.Lifecycle.Steps.{IsSoundDb, same_id}
use luxury_video_tool.Jobs.Lifecycle.Edges.{
  ◌⟶◌, stay, claimed, advance, stop, again, Moved, leased-processing, recover_row-edge,
}

module _ (job_id : String) (db : Db) {r : Job} (there : find (has_id job_id) db.jobs ≡ some r) where
  pub unmoved : Moved job_id r db
  unmoved = inr (r, there, stay)

  pub update-Moved :
      (p : Job → Bool) (f : Job → Job)
      → ((x : Job) → (f x).id ≡ x.id)
      → (p r ≡ true → r.status ⟶ (f r).status)
      → Moved job_id r (record db { jobs = update p f db.jobs })
  update-Moved p f kept edge =
      let looked_up = find-update (has_id job_id) p f (λ x. rw (kept x)) db.jobs in
      elim (Bool-cases (p r)) [
        | inl e ↦ inr (f r, rw (looked_up, there, e), edge e)
        | inr e ↦ inr (r, rw (looked_up, there, e), stay)
      ]

module _ (job_id : String) (db : Db) (v : IsSoundDb db) {r : Job}
    (there : find (has_id job_id) db.jobs ≡ some r) where
  sound : IsSound r
  sound = find-All IsSound (has_id job_id) db.jobs v.rows there

  pub leased : (id owner : String) → is_leased_by id owner r ≡ true → is_processing r.status ≡ true
  leased id owner h = leased-processing id owner r sound h

  pub created-Moved : (started : Bool) (job : Job) → Moved job_id r (create started job db).0
  unfolding create
  created-Moved started job = elim (Bool-cases (is_refused job db.jobs)) [
    | inl e ↦ rw e (unmoved job_id db there)
    | inr e ↦ rw e (inr (r, find-append_left (has_id job_id) db.jobs _ r there, stay))
  ]

  only_row : All (λ x. has_id job_id x ≡ true → x ≡ r) db.jobs
  only_row =
      let others =
        find-All _ (has_id job_id) db.jobs
          (Unique-only same_id (λ x y. str_eq_comm x.id y.id) db.jobs v.ids) there in
      All-map _ _ (λ x only h. only (same_ids x h)) db.jobs others
    where
      same_ids : (x : Job) → has_id job_id x ≡ true → same_id x r ≡ true
      same_ids x h =
          let mine = find_sat (has_id job_id) db.jobs there in
          ground (arith, eq_iff x.id job_id, eq_iff r.id job_id, eq_iff x.id r.id)

  pub deleted-Moved : (user_id other : String) → Moved job_id r (User.delete_job user_id other db).0
  unfolding User.delete_job
  deleted-Moved user_id other =
      elim (Bool-cases (affected (is_owned_by user_id other) db.jobs == 0)) [
        | inl e ↦ rw e (unmoved job_id db there)
        | inr e ↦ rw e (elim (Bool-cases (is_owned_by user_id other r)) [
          | inl mine ↦ inl (
              find-delete_gone (has_id job_id) _ db.jobs
                (All-map _ _ (λ x only h. rw (only h) mine) db.jobs only_row))
          | inr kept ↦ inr (r, find-delete_kept (has_id job_id) _ db.jobs r there kept, stay)
        ])
      ]

  pub recovered-Moved : (now : ℕ) → Moved job_id r (Recovery.recover now db).0
  recovered-Moved now =
      let looked_up =
        find-map (has_id job_id) (recover_row db.asr_calls now)
          (recover_row-has_id db.asr_calls now job_id) db.jobs in
      rw (recover-row now db) (
        inr (
          recover_row db.asr_calls now r,
          rw (looked_up, there),
          recover_row-edge db.asr_calls now r,
        ))

  pub staged-Moved :
      (id owner : String) (status : Status) (progress : ℕ) (message : String) (at : ℕ)
      → is_processing status ≡ true
      → Moved job_id r (Worker.set_stage id owner status progress message at db).0
  unfolding Worker.set_stage exec Worker.set_stage_row
  staged-Moved id owner status progress message at s =
      elim (Bool-cases (ltb 100 progress && ltb 0 (affected (is_leased_by id owner) db.jobs))) [
        | inl e ↦ rw e (unmoved job_id db there)
        | inr e ↦ rw e (
            update-Moved job_id db there (is_leased_by id owner)
              (Worker.set_stage_row status progress message at) (λ x. refl)
              (λ h. advance (leased id owner h) s))
      ]

  pub cancelled-Moved :
      (user_id id : String) (at : ℕ) → Moved job_id r (User.cancel user_id id at db).0
  unfolding User.cancel User.can_cancel User.set_cancel
  cancelled-Moved user_id id at =
      elim (Bool-cases (ltb 0 (affected (User.can_cancel user_id id) db.jobs))) [
        | inl e ↦ rw e (
            update-Moved job_id db there (User.can_cancel user_id id) (User.set_cancel at)
              (λ x. refl) (λ h. stop (ground arith)))
        | inr e ↦ rw e (elim (Bool-cases (exists (is_owned_by user_id id) db.jobs)) [
          | inl f ↦ rw f (unmoved job_id db there)
          | inr f ↦ rw f (unmoved job_id db there)
        ])
      ]

  pub retried-Moved :
      (user_id id : String) (at : ℕ) → Moved job_id r (User.retry user_id id at db).0
  unfolding User.retry User.can_retry User.set_retry
  retried-Moved user_id id at =
      elim (Bool-cases (ltb 0 (affected (User.can_retry user_id id) db.jobs))) [
        | inl e ↦ rw e (
            update-Moved job_id db there (User.can_retry user_id id) (User.set_retry at) (λ x. refl)
              (λ h. again (ground arith) (ground arith)))
        | inr e ↦ rw e (elim (Bool-cases (exists (is_owned_by user_id id) db.jobs)) [
          | inl f ↦ rw f (unmoved job_id db there)
          | inr f ↦ rw f (unmoved job_id db there)
        ])
      ]

  pub claimed-Moved :
      (owner : String) (now lease : ℕ) → Moved job_id r (Claim.claim_next owner now lease db).0
  unfolding Claim.claim Claim.can_claim Claim.set_claim Claim.claim_next
  claimed-Moved owner now lease = elim (Option-cases (Claim.oldest_due now db.jobs)) [
    | inl e ↦ rw (e, Claim.claim_next) (unmoved job_id db there)
    | inr (c, e) ↦
        rw (e, Claim.claim_next)
          (update-Moved job_id db there (Claim.can_claim c.id) (Claim.set_claim owner now lease)
            (λ x. refl) (λ h. claimed (ground arith)))
  ]
