-- ===== src/Jobs/Worker/Run.antt =====
-- How a worker runs: it reads and writes the tables and the disk, any call may fail, and between
-- two calls other workers and requests change the tables.
use luxury_video_tool.Base.{
  ℕ, ◌+◌, String, Option, none, some, Bool, false, List, ◌∷◌, if◌then◌else◌, str_eq,
}
use luxury_video_tool.Sql.{delete}
use luxury_video_tool.Jobs.Model.{Db, Result, ok, err}
use luxury_video_tool.Jobs.Worker.{Cause, Sentinel}
use luxury_video_tool.Resolver.Work.{Work}
use luxury_video_tool.Results.{Formats}

-- The tables, the paths of the files on the disk, and the number of calls made so far.
pub record World : Type 0 where
  pub db : Db
  pub disk : List String
  pub turn : ℕ

-- A Go call: a value, or an error.
pub data Outcome {ℓ} (A : Type ℓ) : Type ℓ where
  done : A → Outcome A
  raised : Cause → Outcome A

abbrev pub Exec {ℓ} : Type ℓ → Type ℓ
Exec A = World → Outcome A × World

-- The context of a call: that of the job, which a cancellation ends, or one that never ends.
pub data Scope : Type 0 where
  of_job background : Scope

-- result.MIMEType, result.SHA256 and result.SizeBytes of a download
pub record Media : Type 0 where
  pub mime_type : String
  pub sha256 : String
  pub size_bytes : ℕ

-- What is outside of the worker, by the number of the call: the clock, what others do to the
-- tables before the call, the error of the database or the context that the call meets, and the
-- answers of the services that it asks.
pub record Outside : Type 0 where
  pub clock : ℕ → ℕ
  pub others : ℕ → Db → Db
  pub fault : Scope → ℕ → Option Cause
  -- the error of the job's context, once it is cancelled
  pub ended : ℕ → Option Cause
  pub new_id : ℕ → Outcome String
  pub resolved : ℕ → Outcome Work
  -- the data root, the random name of a new file and whether its directory can be made
  pub root : List String
  pub random_name : ℕ → String
  pub made : ℕ → Bool
  pub downloaded : ℕ → String → Outcome Media
  pub written : ℕ → Outcome (Unit {0})
  pub removes : ℕ → String → Bool
  pub jitter : ℕ → ℕ
  -- the message of mediaError, a SHA-256 in hexadecimal, and how results are written
  pub describe : Cause → String
  pub digest : String → String
  pub formats : Formats
  -- whether the whole program is stopping
  pub stopping : ℕ → Bool

infixl 5 ◌>>=◌ ◌>>◌
abbrev pub continue {ℓ κ} : {A : Type ℓ} {B : Type κ} → Outcome A → (A → Exec B) → Exec B
continue (done a) f w = f a w
continue (raised c) f w = (raised c, w)

unfoldable pub ◌>>=◌ {ℓ κ} : {A : Type ℓ} {B : Type κ} → Exec A → (A → Exec B) → Exec B
◌>>=◌ m f w = let (r, w') = m w in continue r f w'

abbrev pub ◌>>◌ {ℓ κ} : {A : Type ℓ} {B : Type κ} → Exec A → Exec B → Exec B
m >> k = m >>= λ _. k

unfoldable pub pure {ℓ} : {A : Type ℓ} → A → Exec A
pure a w = (done a, w)

unfoldable pub raise {ℓ} : {A : Type ℓ} → Cause → Exec A
raise c w = (raised c, w)

-- The call's error as a value.
unfoldable pub attempt {ℓ} : {A : Type ℓ} → Exec A → Exec (Outcome A)
attempt m w = let (r, w') = m w in (done r, w')

-- What follows a call, where its error is looked at.
abbrev pub either {ℓ κ} :
    {A : Type ℓ} {B : Type κ} → (A → Exec B) → (Cause → Exec B) → Outcome A → Exec B
either f g (done a) = f a
either f g (raised c) = g c

unfoldable pub handle {ℓ κ} :
    {A : Type ℓ} {B : Type κ} → Exec A → (A → Exec B) → (Cause → Exec B) → Exec B
unfolding ◌>>=◌ attempt
handle m f g = attempt m >>= either f g

-- An error of the repository matches none of the sentinels that the worker asks for.
abbrev pub plain_cause : Cause
plain_cause = record { matches = λ s. false; after = 0 }

abbrev pub sentinel_cause : (Sentinel → Bool) → Cause
sentinel_cause f = record { matches = f; after = 0 }

abbrev pub outcome_of {ℓ} : {A : Type ℓ} → Result A → Outcome A
outcome_of (ok a) = done a
outcome_of (err e) = raised plain_cause

module _ (o : Outside) where
  -- One turn passes: others act, and then the call is answered.
  unfoldable pub ask {ℓ} : {A : Type ℓ} → (ℕ → A) → Exec A
  ask f w = (done (f w.turn), record w { db = o.others w.turn w.db; turn = w.turn + 1 })

  unfoldable pub now : Exec ℕ
  unfolding ask
  now = ask o.clock

  abbrev pub answer {ℓ} : {A : Type ℓ} → Outcome A → Exec A
  answer (done a) w = (done a, w)
  answer (raised c) w = (raised c, w)

  unfoldable pub query {ℓ} : {A : Type ℓ} → (ℕ → Outcome A) → Exec A
  unfolding ask ◌>>=◌
  query f = ask f >>= answer

  abbrev pub where_ended {ℓ} : {A : Type ℓ} → (Cause → Exec A) → Exec A → Option Cause → Exec A
  where_ended f m none = m
  where_ended f m (some c) = f c

  -- ctx.Err(): what is done where the context of the job is over, and elsewhere.
  unfoldable pub if_ended {ℓ} : {A : Type ℓ} → (Cause → Exec A) → Exec A → Exec A
  unfolding ask ◌>>=◌
  if_ended f m = ask o.ended >>= where_ended f m

  -- A statement on the tables.
  abbrev pub stated {ℓ} : {A : Type ℓ} → Option Cause → (Db → Db × Result A) → Exec A
  stated (some c) f w = (raised c, w)
  stated none f w = let (db', r) = f w.db in (outcome_of r, record w { db = db' })

  unfoldable pub statement {ℓ} : {A : Type ℓ} → Scope → (Db → Db × Result A) → Exec A
  unfolding ask ◌>>=◌
  statement scope f = ask (o.fault scope) >>= λ c. stated c f

  abbrev pub unlinked : String → Bool → Exec Bool
  unlinked path b w =
      (done b, if b then record w { disk = delete (λ p. str_eq p path) w.disk } else w)

  -- Storage.Remove: what is gone already is no error.
  unfoldable pub remove : String → Exec Bool
  unfolding ask ◌>>=◌ delete
  remove path = ask (λ t. o.removes t path) >>= unlinked path

  -- A file is there, whole, once a call has put it in its place.
  unfoldable pub placed : String → Exec (Unit {0})
  placed path w = (done tt, record w { disk = path ∷ w.disk })
