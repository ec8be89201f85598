-- ===== src/Files/Storage.antt =====
-- NewTarget and NewScopedTarget of services/api_go/internal/files/files.go: where a new file goes.
-- The random name is an argument, and `made` says whether MkdirAll succeeds.
pub mod Places
use Prim.Native.Char.{code}
use Prim.Native.String.{len}
use luxury_video_tool.Base.{
  cat, ℕ, String, Option, none, some, Bool, true, false, ◌&&◌, ◌||◌, List, [], ◌∷◌, if◌then◌else◌,
  ltb, leb, ◌==◌, str_eq, not,
}
use luxury_video_tool.Files.Paths.{join, resolve}

unfoldable pub is_safe : ℕ → Bool
is_safe c =
    (leb 65 c && leb c 90)
    || (leb 97 c && leb c 122)
    || (leb 48 c && leb c 57)
    || c == 45
    || c == 95

unfoldable pub all_safe : String → Bool
unfolding is_safe
all_safe String.[] = true
all_safe (String.◌∷◌ c s) = is_safe (code c) && all_safe s

unfoldable pub safe_segment : String → Bool
unfolding all_safe
safe_segment value = if str_eq value "" then false else all_safe value

-- strings.ContainsAny(extension, `/\\`)
unfoldable pub has_slash : String → Bool
has_slash String.[] = false
has_slash (String.◌∷◌ c s) = code c == 47 || code c == 92 || has_slash s

unfoldable pub bad_extension : String → Bool
unfolding has_slash
bad_extension extension = str_eq extension "" || ltb 10 (len extension) || has_slash extension

-- A path below the root, as text and in full; the temporary file is the latter with ".part".
pub record Target : Type 0 where
  pub relative : String
  pub final : List String

unfoldable pub temporary : List String → List String
unfolding cat
temporary [] = []
temporary (s ∷ []) = cat s ".part" ∷ []
temporary (s ∷ t ∷ ss) = s ∷ temporary (t ∷ ss)

unfoldable pub open_target : List String → Bool → String → Option Target
unfolding resolve
open_target root made relative = elim (resolve root relative) [
  | none ↦ none
  | some final ↦ if made then some (record { relative = relative; final = final }) else none
]

unfoldable pub new_target : List String → String → String → String → String → Bool → Option Target
unfolding safe_segment bad_extension join open_target
new_target root user_id job_id extension name made =
    if not (safe_segment user_id) || not (safe_segment job_id)
    then none
    else let ext : String = if bad_extension extension then ".bin" else extension in
      open_target root made (join ("media" ∷ user_id ∷ job_id ∷ cat name ext ∷ []))

unfoldable pub new_scoped_target :
    List String → String → String → String → String → String → Bool → Option Target
unfolding safe_segment bad_extension join open_target
new_scoped_target root scope user_id job_id extension name made =
    if not (safe_segment scope)
      || not (safe_segment user_id)
      || not (safe_segment job_id)
      || bad_extension extension
    then none
    else open_target root made (join (scope ∷ user_id ∷ job_id ∷ cat name extension ∷ []))
