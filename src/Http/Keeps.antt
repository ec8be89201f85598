-- ===== src/Http/Keeps.antt =====
-- How what is said of the tables of jobs and files is carried through a handler: by its calls on
-- them, and by what others do between its calls.
pub mod Own
pub mod Admin
pub mod Open
pub mod Whole
pub mod Others
pub mod Sound
pub mod Requests
use luxury_video_tool.Base.{
  ℕ, ◌+◌, ◌≡◌, String, Option, none, some, Bool, true, false, if◌then◌else◌,
}
use luxury_video_tool.Auth.Model.{Accounts}
use luxury_video_tool.Jobs.Model.{Db}
use luxury_video_tool.Jobs.Repository.User.{cancel}
use luxury_video_tool.Jobs.Service.{
  CreateInput, Resolution, create_info_job, create_download, delete, retry_job,
}
use luxury_video_tool.Http.Limiter.{Limiter}
use luxury_video_tool.Http.Response.{Response}
use luxury_video_tool.Http.Run.{
  Data, Cookie, World, Outside, Outcome, done, answered, Exec, continue, ◌>>=◌, give, unless_answer,
  set_cookie, on_db, on_accounts, ask, act, call, called, look, acted, remove, unlinked,
}

-- `m` keeps what `P` says of the tables, whether it goes on or answers.
pub record Keeps {ℓ} {A : Type ℓ} (P : Db → Type 0) (m : Exec A) : Type ℓ where
  pub at : (w : World) → P w.state.db → P (m w).1.state.db

module _ {ℓ} {A : Type ℓ} {P : Db → Type 0} where
  pub Keeps-give : (r : Outcome A) → Keeps P (give r)
  unfolding give
  Keeps-give r = record { at = λ w h. h }

module _ {ℓ κ} {A : Type ℓ} {B : Type κ} {P : Db → Type 0} where
  pub Keeps-bind :
      (m : Exec A) (f : A → Exec B) → Keeps P m → ((a : A) → Keeps P (f a)) → Keeps P (m >>= f)
  unfolding ◌>>=◌
  Keeps-bind m f k l = record { at = λ w h. goes (m w).0 (m w).1 (k.at w h) }
    where
      goes : (r : Outcome A) (w : World) → P w.state.db → P (continue r f w).1.state.db
      goes (done a) w h = (l a).at w h
      goes (answered r) w h = h

  -- A response or a value, and then the rest.
  pub Keeps-then :
      (r : Outcome A) (f : A → Exec B) → ((a : A) → Keeps P (f a)) → Keeps P (give r >>= f)
  Keeps-then r f l = Keeps-bind (give r) f (Keeps-give r) l

pub Keeps-if {ℓ} :
    {A : Type ℓ} {P : Db → Type 0} (b : Bool) (m n : Exec A)
    → Keeps P m
    → Keeps P n
    → Keeps P (if b then m else n)
Keeps-if true m n k l = k
Keeps-if false m n k l = l

pub Keeps-set_cookie : {P : Db → Type 0} (c : Cookie) → Keeps P (set_cookie c)
unfolding set_cookie
Keeps-set_cookie c = record { at = λ w h. h }

-- What others do between two calls keeps `P`.
abbrev pub Rely : Outside → (Db → Type 0) → Type 0
Rely o P = (t : ℕ) (d : Data) → P d.db → P (o.others t d).db

-- A call on the tables keeps `P`.
abbrev pub Preserves {ℓ} : {R : Type ℓ} → (Db → Type 0) → (Data → Data × R) → Type 0
Preserves P f = (d : Data) → P d.db → P (f d).0.db

-- The calls of the requests on a user's jobs keep `P`.
pub record Guarantee (user_id : String) (P : Db → Type 0) : Type 0 where
  pub cancels : (job_id : String) (at : ℕ) (db : Db) → P db → P (cancel user_id job_id at db).0
  pub retries : (job_id : String) (at : ℕ) (db : Db) → P db → P (retry_job user_id job_id at db).0
  pub deletes : (job_id : String) (db : Db) → P db → P (delete user_id job_id db).0

-- A user's creations keep `P`, where what others do before the INSERT keeps it.
pub record Creates (extract : String → Option String) (user_id : String) (P : Db → Type 0)
    : Type 0 where
  pub informs :
      (id : String) (at later : ℕ) (resolution : Resolution) (between : Db → Db)
      (input : CreateInput) (db : Db)
      → input.user_id ≡ user_id
      → P db
      → P (between db)
      → P (create_info_job extract id at later resolution between input db).0
  pub downloads :
      (id : String) (at : ℕ) (between : Db → Db) (input : CreateInput) (db : Db)
      → input.user_id ≡ user_id
      → P db
      → P (between db)
      → P (create_download extract id at between input db).0

module _ (o : Outside) {P : Db → Type 0} (rely : Rely o P) where
  pub Keeps-ask {ℓ} : {A : Type ℓ} (f : ℕ → A) → Keeps P (ask o f)
  unfolding ask
  Keeps-ask f = record { at = λ w h. rely w.turn w.state h }

  pub Keeps-act {ℓ} : {R : Type ℓ} (f : Data → Data × R) → Preserves P f → Keeps P (act o f)
  unfolding act
  Keeps-act {R = R} f k = Keeps-bind _ _ (Keeps-ask (λ t. t)) acts
    where
      acts : (t : ℕ) → Keeps P (acted o f t)
      acts t = record { at = λ w h. k w.state h }

  pub Keeps-call {ℓ} : {R : Type ℓ} (f : Data → Data × R) → Preserves P f → Keeps P (call o f)
  unfolding call
  Keeps-call {R = R} f k = Keeps-bind _ _ (Keeps-ask o.fault) calls
    where
      calls : (b : Bool) → Keeps P (called o f b)
      calls true = record { at = λ w h. h }
      calls false = record { at = λ w h. k w.state h }

  pub Keeps-look {ℓ} : {R : Type ℓ} (f : Data → R) → Keeps P (look o f)
  Keeps-look f = Keeps-call (λ d. (d, f d)) (λ d h. h)

  pub Keeps-remove : (path : String) → Keeps P (remove o path)
  unfolding remove
  Keeps-remove path = Keeps-bind _ _ (Keeps-ask _) unlinks
    where
      unlinks : (b : Bool) → Keeps P (unlinked o path b)
      unlinks true = record { at = λ w h. h }
      unlinks false = record { at = λ w h. h }

  -- A question, and then the rest.
  pub Keeps-asked {ℓ κ} :
      {A : Type ℓ} {B : Type κ} (q : ℕ → A) (f : A → Exec B)
      → ((a : A) → Keeps P (f a))
      → Keeps P (ask o q >>= f)
  Keeps-asked q f l = Keeps-bind (ask o q) f (Keeps-ask q) l

  pub Keeps-looked {ℓ κ} :
      {R : Type ℓ} {B : Type κ} (q : Data → R) (f : Option R → Exec B)
      → ((a : Option R) → Keeps P (f a))
      → Keeps P (look o q >>= f)
  Keeps-looked q f l = Keeps-bind (look o q) f (Keeps-look q) l

  pub Keeps-called {ℓ κ} :
      {R : Type ℓ} {B : Type κ} (g : Data → Data × R) (f : Option R → Exec B)
      → Preserves P g
      → ((a : Option R) → Keeps P (f a))
      → Keeps P (call o g >>= f)
  Keeps-called g f k l = Keeps-bind (call o g) f (Keeps-call g k) l
