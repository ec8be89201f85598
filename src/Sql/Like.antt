-- ===== src/Sql/Like.antt =====
-- SQLite's `text LIKE pattern ESCAPE '\'` on the codes of the characters, which folds the case of
-- ASCII letters.
pub mod Escape
use luxury_video_tool.Base.{
  ℕ, ◌+◌, Bool, true, false, ◌&&◌, ◌||◌, List, [], ◌∷◌, if◌then◌else◌, leb, ◌==◌, String,
}
use Prim.Native.Char.{code}
use Prim.Native.String

unfoldable pub codes : String → List ℕ
codes String.[] = []
codes (String.◌∷◌ c s) = code c ∷ codes s

unfoldable pub fold_case : ℕ → ℕ
fold_case c = if leb 65 c && leb c 90 then c + 32 else c

-- One of the tests of a suffix of the text.
unfoldable pub at_suffix : (List ℕ → Bool) → List ℕ → Bool
at_suffix p [] = p []
at_suffix p (c ∷ cs) = p (c ∷ cs) || at_suffix p cs

unfoldable pub one : (ℕ → Bool) → (List ℕ → Bool) → List ℕ → Bool
one p q [] = false
one p q (c ∷ cs) = p c && q cs

-- `%` is 37, `_` is 95 and `\` is 92.
unfoldable pub like : List ℕ → List ℕ → Bool
unfolding at_suffix one fold_case
like [] [] = true
like [] (c ∷ cs) = false
like (k ∷ []) text =
    let ends = like [] in
    if k == 37
    then at_suffix ends text
    else if k == 92
    then false
    else one (λ c. k == 95 || fold_case c == fold_case k) ends text
like (k ∷ l ∷ ks) text =
    let after = like (l ∷ ks) in
    let literal = like ks in
    if k == 37
    then at_suffix after text
    else if k == 92
    then one (λ c. fold_case c == fold_case l) literal text
    else one (λ c. k == 95 || fold_case c == fold_case k) after text
