-- ===== src/Jobs/Listing.antt =====
-- List and ListAll of repository_sqlite.go and service.go: pages of jobs. The table works, which
-- is joined, is an argument with the columns that are searched. A limit or an offset below 0 is
-- treated as 0.
pub mod Cut
pub mod Pages
use luxury_video_tool.Base.{
  ℕ, zero, suc, String, Option, none, some, Bool, true, false, ◌&&◌, ◌||◌, List, [], ◌∷◌, ◌++◌,
  if◌then◌else◌, ltb, ◌==◌, str_eq, trim_space, map,
}
use Prim.Native.String.{compare}
use Prim.Native.Nat.{Ordering}
use luxury_video_tool.Sql.{select, affected, find}
use luxury_video_tool.Sql.Like.{like, codes}
use luxury_video_tool.Jobs.Model.{
  Job, Db, Status, queued, resolving, downloading, extracting, transcribing, postprocessing,
  retry_wait, completed, failed, cancelled, is_processing, is_completed,
}
use luxury_video_tool.Jobs.Repository.Select.{FoundJob, find_files}

pub record WorkRow : Type 0 where
  pub id : String
  pub title : String
  pub author_name : Option String

pub record ListInput : Type 0 where
  pub user_id : String
  pub query : String
  pub status : String
  pub action : String
  pub limit : ℕ
  pub offset : ℕ

pub record JobPage : Type 0 where
  pub items : List FoundJob
  pub total : ℕ
  pub limit : ℕ
  pub offset : ℕ

unfoldable pub status_text : Status → String
status_text queued = "queued"
status_text resolving = "resolving"
status_text downloading = "downloading"
status_text extracting = "extracting"
status_text transcribing = "transcribing"
status_text postprocessing = "postprocessing"
status_text retry_wait = "retry_wait"
status_text completed = "completed"
status_text failed = "failed"
status_text cancelled = "cancelled"

-- strings.NewReplacer(`\`, `\\`, `%`, `\%`, `_`, `\_`)
unfoldable pub escape_like : List ℕ → List ℕ
escape_like [] = []
escape_like (c ∷ cs) =
    let rest = escape_like cs in if c == 92 || c == 37 || c == 95 then 92 ∷ c ∷ rest else c ∷ rest

-- "%" + escapeLike(query) + "%"
unfoldable pub like_pattern : String → List ℕ
unfolding escape_like codes
like_pattern query = 37 ∷ (escape_like (codes query) ++ 37 ∷ [])

abbrev pub like_column : List ℕ → Option String → Bool
like_column pattern none = false
like_column pattern (some text) = like pattern (codes text)

abbrev work_of : List WorkRow → Job → Option WorkRow
work_of works r = elim r.work_id [ none ↦ none | some id ↦ find (λ w. str_eq w.id id) works ]

unfoldable pub matches_query : List WorkRow → String → Job → Bool
unfolding like_pattern like codes find
matches_query works query r =
    like (like_pattern query) (codes r.input_text) || elim (work_of works r) [
      | none ↦ false
      | some w ↦
          like (like_pattern query) (codes w.title)
          || like_column (like_pattern query) w.author_name
    ]

unfoldable pub matches_filters : List WorkRow → ListInput → Job → Bool
unfolding status_text matches_query
matches_filters works input r =
    (str_eq input.status ""
      || (if str_eq input.status "processing"
          then is_processing r.status
          else str_eq (status_text r.status) input.status))
    && (str_eq input.action "" || str_eq r.action input.action)
    && (str_eq input.query "" || matches_query works input.query r)

unfoldable pub matches : List WorkRow → ListInput → Job → Bool
unfolding matches_filters
matches works input r = str_eq r.user_id input.user_id && matches_filters works input r

-- ListAll: an empty user id asks for the jobs of all users.
unfoldable pub matches_any : List WorkRow → ListInput → Job → Bool
unfolding matches_filters
matches_any works input r =
    (str_eq input.user_id "" || str_eq r.user_id input.user_id) && matches_filters works input r

-- ORDER BY created_at DESC, id DESC
unfoldable pub comes_first : Job → Job → Bool
comes_first x y =
    ltb y.created_at x.created_at
    || (x.created_at == y.created_at && elim (compare x.id y.id) [ Ordering.lt ↦ false | _ ↦ true ])

unfoldable pub insert_row : Job → List Job → List Job
unfolding comes_first
insert_row r [] = r ∷ []
insert_row r (x ∷ xs) =
    let rest = insert_row r xs in if comes_first r x then r ∷ x ∷ xs else x ∷ rest

unfoldable pub newest_first : List Job → List Job
unfolding insert_row
newest_first [] = []
newest_first (r ∷ rs) = insert_row r (newest_first rs)

unfoldable pub take : ℕ → List Job → List Job
take zero rs = []
take (suc n) [] = []
take (suc n) (r ∷ rs) = r ∷ take n rs

unfoldable pub skip : ℕ → List Job → List Job
skip zero rs = rs
skip (suc n) [] = []
skip (suc n) (r ∷ rs) = skip n rs

abbrev with_files : Db → Job → FoundJob
with_files db r = record {
  job = r;
  files = if is_completed r.status then some (find_files r.user_id r.id db) else none;
}

unfoldable pub page_of : (Job → Bool) → ListInput → Db → JobPage
unfolding newest_first take skip select affected find_files
page_of p input db = record {
  items =
      map (with_files db) (take input.limit (skip input.offset (newest_first (select p db.jobs))));
  total = affected p db.jobs;
  limit = input.limit;
  offset = input.offset;
}

unfoldable pub list_page : List WorkRow → ListInput → Db → JobPage
unfolding page_of matches
list_page works input db = page_of (matches works input) input db

unfoldable pub list_all_page : List WorkRow → ListInput → Db → JobPage
unfolding page_of matches_any
list_all_page works input db = page_of (matches_any works input) input db

-- Service.List
unfoldable pub clamp : ListInput → ListInput
clamp input =
    let limit : ℕ = if input.limit == 0 then 20 else input.limit in
    record input { query = trim_space input.query; limit = if ltb 100 limit then 100 else limit }

unfoldable pub list_jobs : List WorkRow → ListInput → Db → JobPage
unfolding clamp list_page
list_jobs works input db = list_page works (clamp input) db

-- Service.ListAll
unfoldable pub list_all_jobs : List WorkRow → ListInput → Db → JobPage
unfolding clamp list_all_page
list_all_jobs works input db = list_all_page works (clamp input) db
