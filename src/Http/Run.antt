-- ===== src/Http/Run.antt =====
-- How a handler runs: it reads and writes the tables, the limiter and the disk, it may answer before
-- its end, and between two of its calls other requests and the workers act.
use luxury_video_tool.Base.{
  ℕ, ◌+◌, String, Option, none, some, Bool, true, false, List, if◌then◌else◌, str_eq,
}
use Prim.Native.Char.{Char}
use luxury_video_tool.Sql.{delete}
use luxury_video_tool.Settings.{Setting, Cipher}
use luxury_video_tool.Audit.{AuditRow, Event, record_event}
use luxury_video_tool.Auth.Model.{Accounts}
use luxury_video_tool.Auth.Service
use luxury_video_tool.Auth.Service.{Fresh}
use luxury_video_tool.Files.Signer.{Codes}
use luxury_video_tool.Jobs.Model.{Job, Db}
use luxury_video_tool.Jobs.Listing.{WorkRow}
use luxury_video_tool.Jobs.Service.{Resolution}
use luxury_video_tool.Http.Limiter.{Limiter}
use luxury_video_tool.Http.Request.{Readers}
use luxury_video_tool.Http.Response.{Response}

-- The tables, the windows of the login limiter and the paths of the files on the disk.
pub record Data : Type 0 where
  pub accounts : Accounts
  pub db : Db
  pub settings : List Setting
  pub audit : List AuditRow
  pub limiter : Limiter
  pub disk : List String

-- http.Cookie of the refresh token: the value, MaxAge in seconds, none for a deletion, and Secure.
pub record Cookie : Type 0 where
  pub value : String
  pub max_age : Option ℕ
  pub secure : Bool

-- The number of calls made so far, and the cookie that the response will set.
pub record World : Type 0 where
  pub state : Data
  pub turn : ℕ
  pub cookie : Option Cookie

-- Dependencies: which parts there are, and the functions that they rest on.
pub record Dependencies : Type 0 where
  pub has_auth : Bool
  pub has_jobs : Bool
  pub has_files : Bool
  pub has_storage : Bool
  pub has_signer : Bool
  pub has_audit : Bool
  pub has_settings : Bool
  pub aliyun_available : Bool
  pub allow_insecure_provider_settings : Bool
  pub version : String
  pub commit : String
  pub auth : Service.Settings
  pub normalize_username : String → String
  pub extract : String → Option String
  pub cipher : Cipher
  pub fallback : String → String
  pub codes : Codes
  pub audit_mac : String → String
  pub readers : Readers
  -- the JSON of an object, of names and the JSON of their values
  pub object : List (String × String) → String

-- What a request meets, by the number of the call: the clock, what others do before the call,
-- whether the database fails, and what the services and the disk answer.
pub record Outside : Type 0 where
  pub clock : ℕ → ℕ
  pub others : ℕ → Data → Data
  pub fault : ℕ → Bool
  pub ready : ℕ → Bool
  -- an id for a row of the audit or for the request, and for a new job or user
  pub new_id : ℕ → Option String
  pub ulid : ℕ → String
  pub fresh : ℕ → Fresh
  pub nonce : ℕ → Option (List Char)
  pub resolution : ℕ → Resolution
  pub works : ℕ → List WorkRow
  pub removes : ℕ → String → Bool
  pub opens : ℕ → String → Bool
  -- whether a worker is told to stop a job, and whether the client has gone
  pub stops : ℕ → String → Bool
  pub gone : ℕ → Bool
  -- whether a further step on an open file or on an archive succeeds
  pub proceeds : ℕ → Bool
  -- the id of a job's work at the platform
  pub work_of : Job → Option String
  -- what answers a request to a pattern that is not mounted
  pub elsewhere : Response

-- The rest of a handler goes on with a value, or the response is written.
pub data Outcome {ℓ} (A : Type ℓ) : Type ℓ where
  done : A → Outcome A
  answered : Response → Outcome A

abbrev pub Exec {ℓ} : Type ℓ → Type ℓ
Exec A = World → Outcome A × World

infixl 5 ◌>>=◌ ◌>>◌
abbrev pub continue {ℓ κ} : {A : Type ℓ} {B : Type κ} → Outcome A → (A → Exec B) → Exec B
continue (done a) f w = f a w
continue (answered r) f w = (answered r, w)

unfoldable pub ◌>>=◌ {ℓ κ} : {A : Type ℓ} {B : Type κ} → Exec A → (A → Exec B) → Exec B
◌>>=◌ m f w = let (r, w') = m w in continue r f w'

abbrev pub ◌>>◌ {ℓ κ} : {A : Type ℓ} {B : Type κ} → Exec A → Exec B → Exec B
m >> k = m >>= λ _. k

unfoldable pub give {ℓ} : {A : Type ℓ} → Outcome A → Exec A
give r w = (r, w)

abbrev pub pure {ℓ} : {A : Type ℓ} → A → Exec A
pure a = give (done a)

abbrev pub answer {ℓ} : {A : Type ℓ} → Response → Exec A
answer r = give (answered r)

-- if !b { write r; return }
abbrev pub unless_answer : Bool → Response → Exec (Unit {0})
unless_answer b r = give (if b then done tt else answered r)

-- The value, or the response where there is none.
abbrev pub or_answered {ℓ} : {A : Type ℓ} → Response → Option A → Outcome A
or_answered r none = answered r
or_answered r (some a) = done a

unfoldable pub set_cookie : Cookie → Exec (Unit {0})
set_cookie c w = (done tt, record w { cookie = some c })

abbrev pub on_accounts {ℓ} : {R : Type ℓ} → (Accounts → Accounts × R) → Data → Data × R
on_accounts f d = let (a, r) = f d.accounts in (record d { accounts = a }, r)

abbrev pub on_db {ℓ} : {R : Type ℓ} → (Db → Db × R) → Data → Data × R
on_db f d = let (a, r) = f d.db in (record d { db = a }, r)

abbrev pub on_settings {ℓ} : {R : Type ℓ} → (List Setting → List Setting × R) → Data → Data × R
on_settings f d = let (a, r) = f d.settings in (record d { settings = a }, r)

-- INSERT INTO audit_logs
abbrev pub audited : (String → String) → String → ℕ → Event → Data → Data × Unit {0}
audited mac id at event d = (record d { audit = record_event mac id at event d.audit }, tt)

abbrev pub on_limiter {ℓ} : {R : Type ℓ} → (Limiter → Limiter × R) → Data → Data × R
on_limiter f d = let (a, r) = f d.limiter in (record d { limiter = a }, r)

module _ (o : Outside) where
  -- One turn passes: others act, and then the call is answered.
  unfoldable pub ask {ℓ} : {A : Type ℓ} → (ℕ → A) → Exec A
  ask f w = (done (f w.turn), record w { state = o.others w.turn w.state; turn = w.turn + 1 })

  abbrev pub now : Exec ℕ
  now = ask o.clock

  abbrev pub ran {ℓ} : {R : Type ℓ} → Data × R → World → Outcome R × World
  ran (d, r) w = (done r, record w { state = d })

  abbrev pub acted {ℓ} : {R : Type ℓ} → (Data → Data × R) → ℕ → World → Outcome R × World
  acted f turn w = ran (f w.state) w

  -- What needs no database.
  unfoldable pub act {ℓ} : {R : Type ℓ} → (Data → Data × R) → Exec R
  unfolding ask ◌>>=◌
  act f = ask (λ t. t) >>= acted f

  abbrev pub called {ℓ} :
      {R : Type ℓ} → (Data → Data × R) → Bool → World → Outcome (Option R) × World
  called f true w = (done none, w)
  called f false w = let (d, r) = f w.state in (done (some r), record w { state = d })

  -- A call that uses the database: none is an error of the database or of the context.
  unfoldable pub call {ℓ} : {R : Type ℓ} → (Data → Data × R) → Exec (Option R)
  unfolding ask ◌>>=◌
  call f = ask o.fault >>= called f

  -- A call that writes nothing.
  abbrev pub look {ℓ} : {R : Type ℓ} → (Data → R) → Exec (Option R)
  look f = call (λ d. (d, f d))

  abbrev pub unlinked : String → Bool → World → Outcome Bool × World
  unlinked path b w = (
    done b,
    if b
        then record w { state = record w.state { disk = delete (λ p. str_eq p path) w.state.disk } }
        else w,
  )

  -- Storage.Remove
  unfoldable pub remove : String → Exec Bool
  unfolding ask ◌>>=◌ delete
  remove path = ask (λ t. o.removes t path) >>= unlinked path
