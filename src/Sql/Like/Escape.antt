-- ===== src/Sql/Like/Escape.antt =====
-- A text whose wildcards are escaped stands for itself in a pattern.
use luxury_video_tool.Base.{
  ℕ, ◌≡◌, refl, Bool, true, false, ◌&&◌, ◌||◌, List, [], ◌∷◌, ◌==◌, arith, ap, ap₂,
}
use luxury_video_tool.Sql.Like.{like, fold_case, at_suffix, one}

-- The text begins with `query`, up to the case of ASCII letters.
unfoldable pub begins : List ℕ → List ℕ → Bool
unfolding one fold_case
begins [] text = true
begins (q ∷ qs) text = one (λ c. fold_case c == fold_case q) (begins qs) text

-- The text contains `query`, up to the case of ASCII letters.
unfoldable pub contains : List ℕ → List ℕ → Bool
unfolding at_suffix begins
contains query text = at_suffix (begins query) text

-- The characters that a pattern gives a meaning.
abbrev pub is_special : ℕ → Bool
is_special c = c == 92 || c == 37 || c == 95

pub like_percent : (ks text : List ℕ) → like (37 ∷ ks) text ≡ at_suffix (like ks) text
unfolding like
like_percent [] text = refl
like_percent (l ∷ ks) text = refl

pub like_plain :
    (k : ℕ) (ks text : List ℕ)
    → is_special k ≡ false
    → like (k ∷ ks) text ≡ one (λ c. fold_case c == fold_case k) (like ks) text
unfolding like one
like_plain k [] [] h = ground arith
like_plain k [] (c ∷ text) h = ground arith
like_plain k (l ∷ ks) [] h = ground arith
like_plain k (l ∷ ks) (c ∷ text) h = ground arith

pub like_escaped :
    (k : ℕ) (ks text : List ℕ)
    → like (92 ∷ k ∷ ks) text ≡ one (λ c. fold_case c == fold_case k) (like ks) text
unfolding like
like_escaped k ks text = refl

pub at_suffix-true : (text : List ℕ) → at_suffix (like []) text ≡ true
unfolding at_suffix like
at_suffix-true [] = refl
at_suffix-true (c ∷ text) = at_suffix-true text

pub at_suffix_same :
    (p q : List ℕ → Bool)
    → ((text : List ℕ) → p text ≡ q text)
    → (text : List ℕ) → at_suffix p text ≡ at_suffix q text
unfolding at_suffix
at_suffix_same p q same [] = same []
at_suffix_same p q same (c ∷ text) = ap₂ ◌||◌ (same (c ∷ text)) (at_suffix_same p q same text)

pub one_same :
    (t : ℕ → Bool) (p q : List ℕ → Bool)
    → ((text : List ℕ) → p text ≡ q text)
    → (text : List ℕ) → one t p text ≡ one t q text
unfolding one
one_same t p q same [] = refl
one_same t p q same (c ∷ text) = ap (λ b. t c && b) (same text)
