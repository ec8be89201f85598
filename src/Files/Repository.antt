-- ===== src/Files/Repository.antt =====
-- services/api_go/internal/files/files.go: the statements on the table files.
use luxury_video_tool.Base.{
  ℕ, String, Option, none, some, Bool, true, false, ◌&&◌, ◌||◌, List, [], ◌∷◌, ◌++◌, if◌then◌else◌,
  str_eq, ltb, ◌==◌, not_after, is_none,
}
use Prim.Native.String.{compare}
use Prim.Native.Nat.{Ordering}
use luxury_video_tool.Sql.{update, find, select, exists, order_by, limit}
use luxury_video_tool.Jobs.Model.{File, Result, ok, err, not_found, constraint_failed}

-- The PRIMARY KEY and the UNIQUE path of the table files.
abbrev pub clashes : File → File → Bool
clashes new f = str_eq f.id new.id || str_eq f.relative_path new.relative_path

unfoldable pub create : File → List File → List File × Result (Unit {0})
unfolding exists
create file files =
    if exists (clashes file) files
    then (files, err constraint_failed)
    else (files ++ record file { deleted_at = none } ∷ [], ok tt)

abbrev pub is_live : File → Bool
is_live f = is_none f.deleted_at

-- sql.ErrNoRows is ErrNotFound.
unfoldable pub scan_file : Option File → Result File
scan_file none = err not_found
scan_file (some f) = ok f

unfoldable pub find_owned : String → String → List File → Result File
unfolding find scan_file
find_owned user_id file_id files =
    scan_file (find (λ f. str_eq f.id file_id && str_eq f.user_id user_id && is_live f) files)

unfoldable pub find_by_id : String → List File → Result File
unfolding find scan_file
find_by_id file_id files = scan_file (find (λ f. str_eq f.id file_id && is_live f) files)

-- ORDER BY created_at, id
abbrev pub comes_before : File → File → Bool
comes_before x y =
    ltb x.created_at y.created_at
    || (x.created_at == y.created_at && elim (compare x.id y.id) [ Ordering.gt ↦ false | _ ↦ true ])

unfoldable pub insert_file : File → List File → List File
insert_file f [] = f ∷ []
insert_file f (x ∷ xs) =
    let rest = insert_file f xs in if comes_before f x then f ∷ x ∷ xs else x ∷ rest

unfoldable pub oldest_first : List File → List File
unfolding insert_file
oldest_first [] = []
oldest_first (f ∷ fs) = insert_file f (oldest_first fs)

unfoldable pub list_by_job : String → String → List File → List File
unfolding select oldest_first
list_by_job user_id job_id files =
    oldest_first
      (select (λ f. str_eq f.job_id job_id && str_eq f.user_id user_id && is_live f) files)

-- expires_at <= ? AND deleted_at IS NULL
abbrev pub has_expired : ℕ → File → Bool
has_expired now f = not_after f.expires_at now && is_live f

abbrev pub expiry : File → ℕ
expiry f = elim f.expires_at [ none ↦ 0 | some t ↦ t ]

unfoldable pub expired : ℕ → ℕ → List File → List File
unfolding select order_by limit
expired now most files = limit most (order_by expiry (select (has_expired now) files))

abbrev pub is_live_with : String → File → Bool
is_live_with file_id f = str_eq f.id file_id && is_live f

-- An UPDATE that matches no row is no error here.
unfoldable pub mark_deleted : String → ℕ → List File → List File
unfolding update
mark_deleted file_id at = update (is_live_with file_id) (λ f. record f { deleted_at = some at })
