-- ===== src/Jobs/Worker/Keeps.antt =====
-- The statements with which the worker changes the tables. Those on a job or its rows have the id of
-- its own job; the end of a step, and the marking and the dropping of a file row go by the id of that
-- step or file, which may be any here.
pub mod Files
pub mod Note
pub mod Process
use luxury_video_tool.Base.{
  ℕ, ◌≡◌, refl, String, Option, none, some, Bool, true, false, if◌then◌else◌,
}
use luxury_video_tool.Jobs.Model.{Job, File, Db, Step, Status, Result, ok, err, is_processing}
use luxury_video_tool.Jobs.Repository.Records.{begin_step, finish_step}
use luxury_video_tool.Jobs.Repository.Worker.{
  set_resolved, set_stage, complete_download, complete_transcription, cancel_owned,
}
use luxury_video_tool.Jobs.Worker.{Cause, failed_with}
use luxury_video_tool.Jobs.Worker.Files.{
  create_file, drop_record, drop_records, drop_kind, mark_file,
}
use luxury_video_tool.Jobs.Worker.Run.{
  continue, answer, stated, unlinked, World, Outcome, done, raised, Exec, Scope, Outside, ◌>>=◌,
  pure, raise, attempt, handle, either, if_ended, where_ended, ask, now, query, statement, remove,
  placed,
}

-- The statements of a worker that claimed `job`; finish_step, drop_record and mark_file of any id.
pub data IsOwn (owner : String) (job : Job) : (Db → Db × Result (Unit {0})) → Type 0 where
  begins : (step : Step) → step.job_id ≡ job.id → IsOwn owner job (begin_step step)
  finishes :
      (step_id status code message details : String) (at : ℕ)
      → IsOwn owner job (finish_step step_id status code message details at)
  resolves : (work_id : String) (at : ℕ) → IsOwn owner job (set_resolved job.id owner work_id at)
  stages :
      (status : Status) (progress : ℕ) (message : String) (at : ℕ)
      → is_processing status ≡ true
      → IsOwn owner job (set_stage job.id owner status progress message at)
  completes : (at : ℕ) → IsOwn owner job (complete_download job.id owner at)
  transcribes :
      (result message : String) (at : ℕ)
      → IsOwn owner job (complete_transcription job.id owner result message at)
  fails :
      (message : String) (cause : Cause) (random at later : ℕ)
      → IsOwn owner job (failed_with job owner message cause random at later)
  cancels : (message : String) (at : ℕ) → IsOwn owner job (cancel_owned job.id owner message at)
  creates :
      (file : File)
      → file.user_id ≡ job.user_id
      → file.job_id ≡ job.id
      → IsOwn owner job (create_file file)
  drops : (file_id : String) → IsOwn owner job (drop_record file_id)
  drops_all : IsOwn owner job (drop_records job.user_id job.id)
  drops_kind : (kind : String) → IsOwn owner job (drop_kind job.id kind)
  marks : (file_id : String) (at : ℕ) → IsOwn owner job (mark_file file_id at)

-- `m` keeps what `P` says of the tables, whether it returns or raises.
pub record Keeps {ℓ} {A : Type ℓ} (P : Db → Type 0) (m : Exec A) : Type ℓ where
  pub at : (w : World) → P w.db → P (m w).1.db

module _ {ℓ} {A : Type ℓ} {P : Db → Type 0} where
  pub Keeps-pure : (a : A) → Keeps P (pure a)
  unfolding pure
  Keeps-pure a = record { at = λ w h. h }

  pub Keeps-raise : (c : Cause) → Keeps P (raise {A = A} c)
  unfolding raise
  Keeps-raise c = record { at = λ w h. h }

  pub Keeps-attempt : (m : Exec A) → Keeps P m → Keeps P (attempt m)
  unfolding attempt
  Keeps-attempt m k = record { at = λ w h. k.at w h }

module _ {ℓ κ} {A : Type ℓ} {B : Type κ} {P : Db → Type 0} where
  pub Keeps-bind :
      (m : Exec A) (f : A → Exec B) → Keeps P m → ((a : A) → Keeps P (f a)) → Keeps P (m >>= f)
  unfolding ◌>>=◌
  Keeps-bind m f k l = record { at = λ w h. goes (m w).0 (m w).1 (k.at w h) }
    where
      goes : (r : Outcome A) (w : World) → P w.db → P (continue r f w).1.db
      goes (done a) w h = (l a).at w h
      goes (raised c) w h = h

module _ {ℓ κ} {A : Type ℓ} {B : Type κ} {P : Db → Type 0} where
  pub Keeps-handle :
      (m : Exec A) (f : A → Exec B) (g : Cause → Exec B)
      → Keeps P m
      → ((a : A) → Keeps P (f a))
      → ((c : Cause) → Keeps P (g c))
      → Keeps P (handle m f g)
  unfolding handle
  Keeps-handle m f g k good bad = Keeps-bind (attempt m) _ (Keeps-attempt m k) follows
    where
      follows : (r : Outcome A) → Keeps P (either f g r)
      follows (done a) = good a
      follows (raised c) = bad c

pub Keeps-if {ℓ} :
    {A : Type ℓ} {P : Db → Type 0} (b : Bool) (m n : Exec A)
    → Keeps P m
    → Keeps P n
    → Keeps P (if b then m else n)
Keeps-if true m n k l = k
Keeps-if false m n k l = l

-- What others do between two calls keeps `P`.
abbrev pub Rely : Outside → (Db → Type 0) → Type 0
Rely o P = (t : ℕ) (db : Db) → P db → P (o.others t db)

-- What the worker of a job does keeps `P`.
abbrev pub Guarantee : String → Job → (Db → Type 0) → Type 0
Guarantee owner job P =
    (f : Db → Db × Result (Unit {0})) (db : Db) → IsOwn owner job f → P db → P (f db).0

module _ (o : Outside) {P : Db → Type 0} (rely : Rely o P) where
  pub Keeps-ask {ℓ} : {A : Type ℓ} (f : ℕ → A) → Keeps P (ask o f)
  unfolding ask
  Keeps-ask f = record { at = λ w h. rely w.turn w.db h }

  pub Keeps-now : Keeps P (now o)
  unfolding now
  Keeps-now = Keeps-ask o.clock

  pub Keeps-query {ℓ} : {A : Type ℓ} (f : ℕ → Outcome A) → Keeps P (query o f)
  unfolding query
  Keeps-query {A = A} f = Keeps-bind (ask o f) _ (Keeps-ask f) answers
    where
      answers : (r : Outcome A) → Keeps P (answer o r)
      answers (done a) = record { at = λ w h. h }
      answers (raised c) = record { at = λ w h. h }

  pub Keeps-if_ended {ℓ} :
      {A : Type ℓ} (f : Cause → Exec A) (m : Exec A)
      → ((c : Cause) → Keeps P (f c))
      → Keeps P m
      → Keeps P (if_ended o f m)
  unfolding if_ended
  Keeps-if_ended f m k l = Keeps-bind (ask o o.ended) _ (Keeps-ask o.ended) follows
    where
      follows : (e : Option Cause) → Keeps P (where_ended o f m e)
      follows none = l
      follows (some c) = k c

  pub Keeps-statement {ℓ} :
      {A : Type ℓ} (scope : Scope) (f : Db → Db × Result A)
      → ((db : Db) → P db → P (f db).0)
      → Keeps P (statement o scope f)
  unfolding statement
  Keeps-statement scope f k = Keeps-bind _ _ (Keeps-ask (o.fault scope)) states
    where
      states : (c : Option Cause) → Keeps P (stated o c f)
      states none = record { at = λ w h. k w.db h }
      states (some c) = record { at = λ w h. h }

  pub Keeps-remove : (path : String) → Keeps P (remove o path)
  unfolding remove
  Keeps-remove path = Keeps-bind _ _ (Keeps-ask _) unlinks
    where
      unlinks : (b : Bool) → Keeps P (unlinked o path b)
      unlinks true = record { at = λ w h. h }
      unlinks false = record { at = λ w h. h }

  pub Keeps-placed : (path : String) → Keeps P (placed o path)
  unfolding placed
  Keeps-placed path = record { at = λ w h. h }
