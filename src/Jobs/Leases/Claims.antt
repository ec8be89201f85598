-- ===== src/Jobs/Leases/Claims.antt =====
-- ClaimNext of repository_sqlite.go: which job it leases, how, and when there is none.
use luxury_video_tool.Base.{
  ℕ, ◌+◌, ◌≤◌, ◌<◌, ◌≡◌, ◌≢◌, ◌⊎◌, eq_refl, refl, ◌∙◌, ap₂, String, Option, none, some, true, false,
  List, [], ◌∷◌, All, All-map, arith, not_after, Option-cases, Bool-cases, inl, inr, ◌↔◌,
  if◌then◌else◌,
}
use luxury_video_tool.Sql.{update, find, first, order_by}
use luxury_video_tool.Sql.Laws.{find-update, find_sat, select_nil, All-select_back, find-All}
use luxury_video_tool.Sql.Order.{first-order_by, first-order_by-none}
use luxury_video_tool.Sql.Keys.{Unique-only, find-none, select_unmatched}
use luxury_video_tool.Jobs.Model.{
  Job, Db, Status, Result, ok, err, not_found, queued, retry_wait, resolving, is_queued, is_waiting,
}
use luxury_video_tool.Jobs.Repository.{has_id}
use luxury_video_tool.Jobs.Repository.Claim.{
  is_due, oldest_due, can_claim, set_claim, claim, claim_next,
}
use luxury_video_tool.Jobs.Lifecycle.Steps.{IsSoundDb, same_id}
use luxury_video_tool.Jobs.Lifecycle.Steps.Statements.{oldest_due-is_due, oldest_due_in}
use luxury_video_tool.Jobs.Lifecycle.Steps.Tables.{str_eq_comm}

-- A job that waits to be run: it is queued, or its retry is due, and it has an attempt left.
abbrev pub IsDue : ℕ → Job → Type 0
IsDue now r =
    ((r.status ≡ queued) ⊎ ((r.status ≡ retry_wait) × (t : ℕ) × (r.retry_at ≡ some t) × (t ≤ now)))
    × (r.attempt_count < r.max_attempts)

queued_is : (s : Status) → is_queued s ≡ true → s ≡ queued
queued_is s h = ground arith

retry_wait_is : (s : Status) → is_queued s ≡ false → is_waiting s ≡ true → s ≡ retry_wait
retry_wait_is s h w = ground arith

retry_due : (o : Option ℕ) (now : ℕ) → not_after o now ≡ true → (t : ℕ) × (o ≡ some t) × (t ≤ now)
retry_due none now h = cc
retry_due (some t) now h = (t, refl, ground arith)

is_due-IsDue : (now : ℕ) (r : Job) → is_due now r ≡ true → IsDue now r
unfolding is_due
is_due-IsDue now r d = elim (Bool-cases (is_queued r.status)) [
  | inl e ↦ (inl (queued_is r.status e), ground arith)
  | inr e ↦
      let (t, at, passed) = retry_due r.retry_at now (ground arith) in
      (inr (retry_wait_is r.status e (ground arith), t, at, passed), ground arith)
]

IsDue-is_due : (now : ℕ) (r : Job) → IsDue now r → is_due now r ≡ true
unfolding is_due
IsDue-is_due now r (inl e, l) = rw e (ground arith)
IsDue-is_due now r (inr (e, t, at, le), l) = rw (e, at) (ground arith)

not_due : (now : ℕ) (r : Job) → ¬ IsDue now r → is_due now r ≡ false
not_due now r n = elim (Bool-cases (is_due now r)) [
  | inl e ↦ absurd (n (is_due-IsDue now r e))
  | inr e ↦ e
]

-- The job as a claim leases it.
abbrev pub claimed_row : String → ℕ → ℕ → Job → Job
claimed_row owner now lease c = record c {
  status = resolving;
  progress = 5;
  status_message = "正在读取作品信息";
  attempt_count = c.attempt_count + 1;
  lease_owner = some owner;
  lease_expires_at = some (now + lease);
  heartbeat_at = some now;
  started_at = elim c.started_at [ none ↦ some now | some t ↦ some t ];
  retry_at = none;
  updated_at = now;
}

ok_inj : (a b : Job) → ◌≡◌ {A = Result Job} (ok a) (ok b) → a ≡ b
ok_inj a b h = cc

claimed_same :
    (owner : String) (now lease : ℕ) (c : Job)
    → set_claim owner now lease c ≡ claimed_row owner now lease c
unfolding set_claim
claimed_same owner now lease c = ground arith

due_claimable : (now : ℕ) (c : Job) → is_due now c ≡ true → can_claim c.id c ≡ true
unfolding is_due can_claim
due_claimable now c d = ground (arith, eq_refl c.id)

module _ (now : ℕ) (db : Db) (c : Job) (v : IsSoundDb db)
    (e : oldest_due now db.jobs ≡ some c) where
  only_with_id : All (λ r. has_id c.id r ≡ true → r ≡ c) db.jobs
  only_with_id =
      oldest_due_in now db.jobs e _
        (Unique-only same_id (λ x y. str_eq_comm x.id y.id) db.jobs v.ids)

  oldest_found : find (has_id c.id) db.jobs ≡ some c
  oldest_found = elim (Option-cases (find (has_id c.id) db.jobs)) [
    | inl missing ↦
        let other = oldest_due_in now db.jobs e _ (find-none (has_id c.id) db.jobs missing) in
        absurd (ground (arith, eq_refl c.id))
    | inr (y, there) ↦
        let same : y ≡ c =
          find-All (λ r. has_id c.id r ≡ true → r ≡ c) (has_id c.id) db.jobs only_with_id there
            (find_sat _ db.jobs there) in
        rw same at there
  ]

  one_claimed :
      (owner : String) (lease : ℕ) (r : Job)
      → (has_id c.id r ≡ true → r ≡ c)
      → (if can_claim c.id r then set_claim owner now lease r else r)
        ≡ (if has_id c.id r then claimed_row owner now lease c else r)
  one_claimed owner lease r only = elim (Bool-cases (has_id c.id r)) [
    | inl h ↦
        let same = only h in
        let claimable = due_claimable now c (oldest_due-is_due now db.jobs e) in
        rw (same, claimable, eq_refl c.id) (claimed_same owner now lease c)
    | inr h ↦
        let other : can_claim c.id r ≡ false = unfold can_claim in ground arith in
        rw (h, other) refl
  ]

  claimed_jobs :
      (owner : String) (lease : ℕ) (rs : List Job)
      → All (λ r. has_id c.id r ≡ true → r ≡ c) rs
      → update (can_claim c.id) (set_claim owner now lease) rs
        ≡ update (has_id c.id) (λ r. claimed_row owner now lease c) rs
  unfolding update
  claimed_jobs owner lease [] h = refl
  claimed_jobs owner lease (r ∷ rs) h =
      ap₂ ◌∷◌ (one_claimed owner lease r h.0) (claimed_jobs owner lease rs h.1)

  claim_reads_back :
      (owner : String) (lease : ℕ)
      → claim owner now lease c.id db ≡ (
        record db { jobs = update (has_id c.id) (λ r. claimed_row owner now lease c) db.jobs },
        ok (claimed_row owner now lease c),
      )
  unfolding claim
  claim_reads_back owner lease =
      let looked_up =
        find-update (has_id c.id) (can_claim c.id) (set_claim owner now lease)
          (λ x. unfold set_claim in refl) db.jobs in
      let claimable = due_claimable now c (oldest_due-is_due now db.jobs e) in
      ap₂ (λ (js : List Job) (r : Result Job). (record db { jobs = js }, r))
        (claimed_jobs owner lease db.jobs only_with_id)
        (rw (looked_up, oldest_found, claimable, claimed_same owner now lease c) refl)

none_older :
    (now : ℕ) (jobs : List Job) (c : Job)
    → oldest_due now jobs ≡ some c
    → All (λ x. is_due now x ≡ true → c.created_at ≤ x.created_at) jobs
unfolding oldest_due
none_older now jobs c e =
    All-select_back _ (is_due now) jobs (first-order_by (λ (x : Job). x.created_at) _ e)

chosen_claimed :
    (owner : String) (now lease : ℕ) (c : Job) (db : Db)
    → oldest_due now db.jobs ≡ some c
    → claim_next owner now lease db ≡ claim owner now lease c.id db
unfolding claim_next
chosen_claimed owner now lease c db e = rw (e, claim_next) refl

-- On a sound job table, a successful ClaimNext takes from the table a job that was due, queued or
-- with its retry due and with an attempt left, such that no due job was created before it. It leases
-- that row to the owner from now on, with one attempt more, the status resolving and no retry
-- time, gives the row as it is then, and changes no other.
pub claim_next-oldest :
    (owner : String) (now lease : ℕ) (db : Db) {r : Job}
    → IsSoundDb db
    → (claim_next owner now lease db).1 ≡ ok r
    → (c : Job) × (find (has_id c.id) db.jobs ≡ some c)
      × IsDue now c
      × All (λ x. IsDue now x → c.created_at ≤ x.created_at) db.jobs
      × (r ≡ claimed_row owner now lease c)
      × ((claim_next owner now lease db).0
          ≡ record db { jobs = update (has_id c.id) (λ x. r) db.jobs })
claim_next-oldest owner now lease db {r} v h = elim (Option-cases (oldest_due now db.jobs)) [
  | inl e ↦ absurd (unfold claim_next in ground arith)
  | inr (c, e) ↦
      let claimed =
        chosen_claimed owner now lease c db e ∙ claim_reads_back now db c v e owner lease in
      let given : claimed_row owner now lease c ≡ r = ok_inj _ r (rw claimed at h) in
      (
        c,
        oldest_found now db c v e,
        is_due-IsDue now c (oldest_due-is_due now db.jobs e),
        All-map _ _ (λ x older d. older (IsDue-is_due now x d)) db.jobs
            (none_older now db.jobs c e),
        cc,
        rw (claimed, given) refl,
      )
]

idle_of_none :
    (now : ℕ) (jobs : List Job) → oldest_due now jobs ≡ none → All (λ r. is_due now r ≡ false) jobs
unfolding oldest_due
idle_of_none now jobs e =
    select_nil (is_due now) jobs (first-order_by-none (λ (r : Job). r.created_at) _ e)

none_of_idle :
    (now : ℕ) (jobs : List Job) → All (λ r. is_due now r ≡ false) jobs → oldest_due now jobs ≡ none
unfolding oldest_due first order_by
none_of_idle now jobs h = rw (select_unmatched (is_due now) jobs h)

claim_found :
    (owner : String) (now lease : ℕ) (c : Job) (db : Db)
    → oldest_due now db.jobs ≡ some c
    → (claim owner now lease c.id db).1 ≢ err not_found
unfolding claim
claim_found owner now lease c db e h =
    let looked_up =
      find-update (has_id c.id) (can_claim c.id) (set_claim owner now lease)
        (λ x. unfold set_claim in refl) db.jobs in
    elim (Option-cases (find (has_id c.id) db.jobs)) [
      | inl missing ↦
          let other = oldest_due_in now db.jobs e _ (find-none (has_id c.id) db.jobs missing) in
          ground (arith, eq_refl c.id)
      | inr (y, there) ↦ ground (arith, looked_up)
    ]

-- ClaimNext reports that there is no job exactly when no job is due, which is one that is queued or
-- has its retry due, with an attempt left.
pub claim_next-idle :
    (owner : String) (now lease : ℕ) (db : Db)
    → ((claim_next owner now lease db).1 ≡ err not_found) ↔ All (λ r. ¬ IsDue now r) db.jobs
unfolding claim_next
claim_next-idle owner now lease db = (
  (λ h. elim (Option-cases (oldest_due now db.jobs)) [
    | inl e ↦
        All-map _ _ (λ r n d. let yes = IsDue-is_due now r d in absurd (ground arith)) db.jobs
          (idle_of_none now db.jobs e)
    | inr (c, e) ↦ absurd (claim_found owner now lease c db e (ground arith))
  ]),
  (λ h. rw (none_of_idle now db.jobs (All-map _ _ (not_due now) db.jobs h), claim_next)),
)
