-- ===== src/Files/Paths.antt =====
-- Storage.Resolve of services/api_go/internal/files/files.go, and what it uses of Go's
-- path/filepath on Unix. An absolute path is the list of its segments.
pub mod Inside
use Prim.Native.Char.{Char, code}
use luxury_video_tool.Base.{
  ℕ, String, Option, none, some, Bool, true, false, ◌||◌, List, [], ◌∷◌, ◌++◌, if◌then◌else◌, ◌==◌,
  str_eq, map, cat,
}

abbrev prepend : Char → List String → List String
prepend c [] = String.◌∷◌ c String.[] ∷ []
prepend c (s ∷ ss) = String.◌∷◌ c s ∷ ss

-- The texts between the slashes.
unfoldable pub segments : String → List String
segments String.[] = "" ∷ []
segments (String.◌∷◌ c s) =
    let rest = segments s in if code c == 47 then "" ∷ rest else prepend c rest

abbrev pub parent : List String → List String
parent [] = []
parent (_ ∷ up) = up

-- filepath.Clean of an absolute path: `done` is what stands so far, its last segment first.
unfoldable pub clean_step : String → List String → List String
clean_step s done =
    if str_eq s "" || str_eq s "." then done else if str_eq s ".." then parent done else s ∷ done

unfoldable pub clean_from : List String → List String → List String
unfolding clean_step
clean_from [] done = done
clean_from (s ∷ ss) done = clean_from ss (clean_step s done)

abbrev pub backwards : List String → List String → List String
backwards [] ys = ys
backwards (x ∷ xs) ys = backwards xs (x ∷ ys)

unfoldable pub clean : List String → List String
unfolding clean_from
clean ss = backwards (clean_from ss []) []

abbrev pub ups : List String → List String
ups [] = []
ups (_ ∷ bs) = ".." ∷ ups bs

-- filepath.Rel of two clean absolute paths.
unfoldable pub rel : List String → List String → List String
rel [] ts = ts
rel (b ∷ bs) [] = ".." ∷ ups bs
rel (b ∷ bs) (t ∷ ts) = if str_eq b t then rel bs ts else ".." ∷ (ups bs ++ t ∷ ts)

-- filepath.IsAbs
abbrev pub is_abs : String → Bool
is_abs String.[] = false
is_abs (String.◌∷◌ c s) = code c == 47

-- relation == "." || relation == ".." || strings.HasPrefix(relation, "../")
unfoldable pub escapes : List String → Bool
escapes [] = true
escapes (s ∷ ss) = str_eq s ".."

unfoldable pub resolve : List String → String → Option (List String)
unfolding segments clean rel escapes
resolve root relative =
    if str_eq relative "" || is_abs relative
    then none
    else let target = clean (root ++ segments relative) in
      if escapes (rel root target) then none else some target

-- filepath.Clean of a relative path: a leading `..` stays.
relative_parent : List String → List String
relative_parent [] = ".." ∷ []
relative_parent (s ∷ up) = if str_eq s ".." then ".." ∷ s ∷ up else up

unfoldable pub relative_step : String → List String → List String
unfolding relative_parent
relative_step s done =
    if str_eq s "" || str_eq s "."
    then done
    else if str_eq s ".."
    then relative_parent done
    else s ∷ done

unfoldable pub clean_relative : List String → List String → List String
unfolding relative_step
clean_relative [] done = backwards done []
clean_relative (s ∷ ss) done = clean_relative ss (relative_step s done)

unfoldable pub slashed : List String → String
unfolding cat
slashed [] = "."
slashed (s ∷ []) = s
slashed (s ∷ t ∷ ss) = cat s (String.◌∷◌ "/" (slashed (t ∷ ss)))

unfoldable pub all_segments : List String → List String
unfolding segments
all_segments [] = []
all_segments (s ∷ ss) = if str_eq s "" then all_segments ss else segments s ++ all_segments ss

-- filepath.Join of texts that do not begin with a slash.
unfoldable pub join : List String → String
unfolding slashed clean_relative all_segments
join ss = slashed (clean_relative (all_segments ss) [])
