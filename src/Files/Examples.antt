-- ===== src/Files/Examples.antt =====
-- The theorems at concrete files and paths, and runs of the code.
use luxury_video_tool.Files.Signer.{Codes, sign, validate, validate-sign}
use luxury_video_tool.Base.{
  if◌then◌else◌, str_eq, cat, ℕ, zero, suc, ◌≡◌, ◌≢◌, refl, String, none, some, Bool, true, false,
  List, [], ◌∷◌, ◌++◌, arith, All, All-every, ◌+◌, not, ◌==◌, ◌⊎◌, ◌≤◌,
}
use luxury_video_tool.Sql.{affected}
use luxury_video_tool.Jobs.Model.{File}
use luxury_video_tool.Files.Repository.{expired, has_expired}
use luxury_video_tool.Files.Paths.{resolve}
use luxury_video_tool.Files.Paths.Inside.{IsName, resolve-inside}
use luxury_video_tool.Files.Storage.{safe_segment, bad_extension, Target, new_scoped_target}
use luxury_video_tool.Files.Storage.Places.{new_scoped_target-place}
use luxury_video_tool.Files.Cleanup.{Sweep, once}
use luxury_video_tool.Files.Cleanup.Ends.{once_clears, once_stuck}

abbrev root : List String
root = "srv" ∷ "files" ∷ []

resolve_runs :
    resolve root "media/../media/./u1//a.mp4"
    ≡ some ("srv" ∷ "files" ∷ "media" ∷ "u1" ∷ "a.mp4" ∷ [])
unfolding resolve
resolve_runs = refl

resolve_refuses : resolve root "media/../../x" ≡ none
unfolding resolve
resolve_refuses = refl

resolve-inside_example :
    (rest : List String) × ("srv" ∷ "files" ∷ "media" ∷ "a.mp4" ∷ [] ≡ root ++ rest)
    × (rest ≢ [])
    × All IsName rest
unfolding resolve
resolve-inside_example = resolve-inside root "media/u1/../a.mp4" refl

new_scoped_target-place_example :
    (t : Target) × (new_scoped_target root "images" "u1" "j1" ".jpg" "0a1b" true ≡ some t)
    × (t.final ≡ root ++ "images" ∷ "u1" ∷ "j1" ∷ cat "0a1b" ".jpg" ∷ [])
unfolding safe_segment bad_extension
new_scoped_target-place_example =
    new_scoped_target-place root "images" "u1" "j1" ".jpg" "0a1b" (refl, (refl, tt)) refl refl refl
      refl refl

abbrev file : String → ℕ → File
file id expires = record {
  id = id;
  user_id = "u1";
  job_id = "j1";
  kind = "video";
  relative_path = id;
  original_name = "a.mp4";
  mime_type = "video/mp4";
  size_bytes = 10;
  sha256 = "00";
  expires_at = some expires;
  created_at = 0;
  deleted_at = none;
}

-- The third query fails.
abbrev asked : ℕ → Bool
asked n = not (n == 2)

abbrev two_files : Sweep
two_files = record { files = file "a" 10 ∷ file "b" 90 ∷ []; reads = 0 }

once_clears_example :
    (s' : Sweep) × (once (λ p. true) (λ n. 50 + n) asked (λ n. true) 3 two_files ≡ some s')
    × (All (λ g. has_expired 50 g ≡ false) s'.files
        ⊎ ((n : ℕ) × (0 ≤ n) × (asked n ≡ false) × (s'.reads ≡ n + 1)))
unfolding affected
once_clears_example =
    once_clears (λ p. true) (λ n. 50 + n) asked (λ n. true) (λ a b l. omega arith) 3 50 two_files
      (λ n. refl) (omega arith) (omega arith) (refl, (refl, tt))

-- A file whose removal cannot be recorded stays in the table, and a query that fails ends the loop.
unrecorded :
    once (λ p. true) (λ n. 50) (λ n. true) (λ n. false) 1 two_files
    ≡ some (record two_files { reads = 2 })
unfolding once expired
unrecorded = refl

unasked :
    once (λ p. true) (λ n. 50) (λ n. false) (λ n. true) 1 two_files
    ≡ some (record two_files { reads = 1 })
unfolding once
unasked = refl

-- A hundred files whose removal fails.
abbrev many : ℕ → String → List File
many zero id = []
many (suc n) id = file id 10 ∷ many n (String.◌∷◌ "x" id)

irremovable : (fs : List File) → All (λ f. ◌≡◌ {A = Bool} false false) fs
irremovable fs = All-every (λ f. ◌≡◌ {A = Bool} false false) (λ f. refl) fs

once_stuck_example :
    once
      (λ p. false)
      (λ n. 50)
      (λ n. true)
      (λ n. true)
      1000
      (record { files = many 100 "x"; reads = 0 })
    ≡ none
unfolding expired
once_stuck_example =
    once_stuck (λ p. false) (λ n. 50) (λ n. true) (λ n. true) (many 100 "x") (λ n. refl)
      (λ n. (refl, irremovable (expired 50 100 (many 100 "x")))) 1000 0

-- Codes that put a mark before a text in place of hashing it.
abbrev codes : Codes
codes = record {
  format_int = λ n. "90";
  parse_int = λ s. if str_eq s "90" then some 90 else none;
  hex_mac = λ s. s;
  decode_hex = λ s. some s;
  path_escape = λ s. s;
}

another_file : validate codes "f2" "90" (sign codes "f1" "90") 80 ≡ false
unfolding validate cat
another_file = refl

validate-sign_example : validate codes "f1" "90" (sign codes "f1" "90") 91 ≡ false
validate-sign_example = validate-sign codes "f1" 90 91 refl refl
