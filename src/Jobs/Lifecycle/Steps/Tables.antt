-- ===== src/Jobs/Lifecycle/Steps/Tables.antt =====
-- An UPDATE or an INSERT of sound rows keeps the table of jobs sound.
use luxury_video_tool.Base.{
  ◌≤◌, ◌≡◌, ◌≢◌, String, Bool, true, false, ◌||◌, [], ◌∷◌, ◌++◌, str_eq, eq_iff, All, All-map,
  All-append, All-every, arith, Bool-cases, inl, inr,
}
use luxury_video_tool.Sql.{update}
use luxury_video_tool.Sql.Laws.{update_within}
use luxury_video_tool.Sql.Keys.{update-Unique, append-Unique, exists_none}
use luxury_video_tool.Jobs.Model.{Job, Db, is_waiting, is_processing, Status}
use luxury_video_tool.Jobs.Repository.Select.{create, set_created, clashes, is_refused}
use luxury_video_tool.Jobs.Lifecycle.{IsSound}
use luxury_video_tool.Jobs.Lifecycle.Rows.{created-IsSound}
use luxury_video_tool.Jobs.Lifecycle.Steps.{same_id, same_key, IsSoundDb}

-- A SET clause that leaves the keys alone.
abbrev pub KeepsKeys : (Job → Job) → Type 0
KeepsKeys f =
    (r : Job)
    → ((f r).id ≡ r.id) × ((f r).user_id ≡ r.user_id) × ((f r).idempotency_key ≡ r.idempotency_key)

pub update-IsSoundDb :
    (p : Job → Bool) (f : Job → Job) (db : Db)
    → KeepsKeys f
    → All (λ r. IsSound r → p r ≡ true → IsSound (f r)) db.jobs
    → IsSoundDb db
    → IsSoundDb (record db { jobs = update p f db.jobs })
update-IsSoundDb p f db kept keep v = record {
  rows = update_within IsSound p f db.jobs keep v.rows;
  ids = update-Unique same_id p f (λ x y. rw (kept x).0) (λ x y. rw (kept y).0) db.jobs v.ids;
  keys =
      update-Unique same_key p f (λ x y. rw ((kept x).1, (kept x).2))
        (λ x y. rw ((kept y).1, (kept y).2)) db.jobs v.keys;
}

-- The same, for a SET clause that keeps every sound row sound.
pub every-IsSoundDb :
    (p : Job → Bool) (f : Job → Job) (db : Db)
    → KeepsKeys f
    → ((r : Job) → IsSound r → p r ≡ true → IsSound (f r))
    → IsSoundDb db
    → IsSoundDb (record db { jobs = update p f db.jobs })
every-IsSoundDb p f db kept keep v = update-IsSoundDb p f db kept (All-every _ keep db.jobs) v

pub str_eq_comm : (s t : String) → str_eq s t ≡ str_eq t s
str_eq_comm s t = ground (arith, eq_iff s t, eq_iff t s)

no_clash :
    (job r : Job) → clashes job r ≡ false → (same_id job r ≡ false) × (same_key job r ≡ false)
no_clash job r h = ground (
  arith,
  str_eq_comm job.id r.id,
  str_eq_comm job.user_id r.user_id,
  str_eq_comm job.idempotency_key r.idempotency_key,
)

pub create-IsSoundDb :
    (started : Bool) (job : Job) (db : Db)
    → is_waiting job.status || is_processing job.status ≡ true
    → job.status ≢ Status.retry_wait
    → IsSoundDb db
    → IsSoundDb (create started job db).0
unfolding create is_refused
create-IsSoundDb started job db s n v = elim (Bool-cases (is_refused job db.jobs)) [
  | inl e ↦ rw e v
  | inr e ↦
      let fresh : All (λ r. clashes job r ≡ false) db.jobs =
        exists_none (clashes job) db.jobs (ground arith) in
      rw e (added (ground arith) fresh)
]
  where
    added :
        job.progress ≤ 100
        → All (λ r. clashes job r ≡ false) db.jobs
        → IsSoundDb (record db { jobs = db.jobs ++ set_created started job ∷ [] })
    added p fresh =
        unfold set_created in
        record {
          rows = All-append IsSound db.jobs _ v.rows (created-IsSound started job p s n, tt);
          ids =
              append-Unique same_id db.jobs _
                (All-map _ _ (λ r h. (no_clash job r h).0) db.jobs fresh) v.ids;
          keys =
              append-Unique same_key db.jobs _
                (All-map _ _ (λ r h. (no_clash job r h).1) db.jobs fresh) v.keys;
        }
