-- ===== src/Resolver/Cache.antt =====
-- services/api_go/internal/resolver/repository_sqlite.go and service.go: the table works and the
-- service that answers from it. What ExtractInput finds and what the adapter answers are arguments.
-- The fields that metadata_json holds stand in the row; a resolved_at of 0 is Go's zero time.
pub mod Again
use luxury_video_tool.Base.{
  ℕ, ◌-◌, String, Option, none, some, Bool, true, false, not, ◌&&◌, ◌||◌, List, [], ◌∷◌, ◌++◌,
  if◌then◌else◌, leb, ◌==◌, str_eq,
}
use luxury_video_tool.Sql.{update, exists, find}
use luxury_video_tool.Resolver.Work.{Work, is_empty_shell}

abbrev pub is_work : String → String → Work → Bool
is_work work_id version w = str_eq w.douyin_work_id work_id && str_eq w.resolver_version version

-- … AND resolved_at >= ?
abbrev pub is_fresh : ℕ → Work → Bool
is_fresh after w = leb after w.resolved_at

-- none is ErrCacheMiss
unfoldable pub find_fresh : String → String → ℕ → List Work → Option Work
unfolding find
find_fresh work_id version after works =
    find (λ w. is_work work_id version w && is_fresh after w) works

unfoldable pub find_work : String → String → List Work → Option Work
unfolding find
find_work work_id version works = find (is_work work_id version) works

-- CHECK (content_type IN ('video', 'note'))
abbrev pub is_content_type : String → Bool
is_content_type t = str_eq t "video" || str_eq t "note"

-- What is written: an id and a time where the work has none.
unfoldable pub completed_work : String → ℕ → Work → Work
completed_work id now work = record work {
  id = if str_eq work.id "" then id else work.id;
  resolved_at = if work.resolved_at == 0 then now else work.resolved_at;
}

-- ON CONFLICT(douyin_work_id) DO UPDATE: all but the id of the row.
unfoldable pub upsert : Work → List Work → List Work
unfolding exists update
upsert work works =
    if exists (λ w. str_eq w.douyin_work_id work.douyin_work_id) works
    then update (λ w. str_eq w.douyin_work_id work.douyin_work_id) (λ w. record work { id = w.id })
        works
    else works ++ work ∷ []

-- An id that is taken, or another content type, fails the statement.
unfoldable pub save : String → ℕ → Work → List Work → List Work × Option Work
unfolding exists completed_work upsert find_work
save id now work works =
    let row : Work = completed_work id now work in
    if not (is_content_type row.work_type) || exists (λ w. str_eq w.id row.id) works
    then (works, none)
    else (upsert row works, find_work row.douyin_work_id row.resolver_version (upsert row works))

-- The answer of Resolve: a work and whether it was cached, or what failed.
pub data Answer : Type 0 where
  answered : Work → Bool → Answer
  invalid_link adapter_failed cache_failed : Answer

abbrev pub saved : List Work × Option Work → List Work × Answer
saved (works, none) = (works, cache_failed)
saved (works, some w) = (works, answered w false)

abbrev pub cached : Bool → String → String → ℕ → List Work → Option Work
cached force work_id version after works =
    if force || str_eq work_id "" then none else find_fresh work_id version after works

-- The adapter's work, which is kept unless it is an empty shell.
unfoldable pub keep : String → ℕ → Option Work → List Work → List Work × Answer
unfolding save is_empty_shell
keep id now none works = (works, adapter_failed)
keep id now (some work) works =
    if is_empty_shell work then (works, answered work false) else saved (save id now work works)

unfoldable pub answer_from : String → ℕ → Option Work → List Work → Option Work → List Work × Answer
unfolding keep
answer_from id at answer works (some w) = (works, answered w true)
answer_from id at answer works none = keep id at answer works

-- Service.Resolve, with the work id that the link names, empty if it names none.
unfoldable pub resolve :
    ℕ
    → String
    → Option String
    → Bool
    → ℕ
    → Option Work
    → String
    → ℕ
    → List Work
    → List Work × Answer
unfolding find_fresh answer_from
resolve ttl version none force now answer id at works = (works, invalid_link)
resolve ttl version (some work_id) force now answer id at works =
    answer_from id at answer works (cached force work_id version (now - ttl) works)
