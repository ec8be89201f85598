-- ===== src/Base/Text.antt =====
-- Go's strings package on the texts that the program handles: TrimSpace and the count of runes.
use Prim.Native.Nat.{ℕ, zero, suc, ◌/◌, ◌%◌}
use Prim.Native.Char.{Char, code}
use Prim.Native.String.{String}
use text.Mathlib.Text.{◌==◌ as str_eq}
use text.Mathlib.TextEquality.{eq_iff}
use mathlib.Core.Path.{◌≡◌, refl, ap}
use mathlib.Core.Logic.{◌≢◌, inl, inr}
use mathlib.Core.Bool.{Bool, false, ◌&&◌, ◌||◌}
use luxury_video_tool.Base.Tests.{leb, ◌==◌, if◌then◌else◌, Bool-cases}

-- unicode.IsSpace
unfoldable pub is_space : ℕ → Bool
is_space c =
    (leb 9 c && leb c 13)
    || c == 32
    || c == 0x85
    || c == 0xA0
    || c == 0x1680
    || (leb 0x2000 c && leb c 0x200A)
    || c == 0x2028
    || c == 0x2029
    || c == 0x202F
    || c == 0x205F
    || c == 0x3000

unfoldable pub trim_left : String → String
unfolding is_space
trim_left String.[] = String.[]
trim_left (String.◌∷◌ c s) =
    let rest = trim_left s in if is_space (code c) then rest else String.◌∷◌ c s

push_right : Char → String → String
unfolding is_space
push_right c String.[] = if is_space (code c) then String.[] else String.◌∷◌ c String.[]
push_right c (String.◌∷◌ d s) = String.◌∷◌ c (String.◌∷◌ d s)

unfoldable pub trim_right : String → String
unfolding push_right
trim_right String.[] = String.[]
trim_right (String.◌∷◌ c s) = push_right c (trim_right s)

-- strings.TrimSpace
unfoldable pub trim_space : String → String
unfolding trim_left trim_right
trim_space s = trim_right (trim_left s)

-- len([]rune(s))
unfoldable pub rune_count : String → ℕ
rune_count String.[] = 0
rune_count (String.◌∷◌ c s) = suc (rune_count s)

-- 0 for the empty text, else one more than the code of the first character.
abbrev pub first_code : String → ℕ
first_code String.[] = 0
first_code (String.◌∷◌ c s) = suc (code c)

-- Texts that begin differently differ.
pub str_eq-first : (s t : String) → first_code s ≢ first_code t → str_eq s t ≡ false
str_eq-first s t h = elim (Bool-cases (str_eq s t)) [
  | inl e ↦ absurd (h (ap first_code ((eq_iff s t).0 e)))
  | inr e ↦ e
]

-- The text a, then the text b.
unfoldable pub cat : String → String → String
cat String.[] b = b
cat (String.◌∷◌ c a) b = String.◌∷◌ c (cat a b)

-- A digit before a text.
digit : ℕ → String → String
digit n s =
    if n == 0
    then String.◌∷◌ "0" s
    else if n == 1
    then String.◌∷◌ "1" s
    else if n == 2
    then String.◌∷◌ "2" s
    else if n == 3
    then String.◌∷◌ "3" s
    else if n == 4
    then String.◌∷◌ "4" s
    else if n == 5
    then String.◌∷◌ "5" s
    else if n == 6
    then String.◌∷◌ "6" s
    else if n == 7
    then String.◌∷◌ "7" s
    else if n == 8
    then String.◌∷◌ "8" s
    else String.◌∷◌ "9" s

digits_before : ℕ → ℕ → String → String
unfolding digit
digits_before zero n s = s
digits_before (suc fuel) n s =
    let more = digits_before fuel (n / 10) (digit (n % 10) s) in if leb n 9 then digit n s else more

-- strconv.Itoa of a number that is not negative; a number has fewer digits than it counts.
unfoldable pub decimal : ℕ → String
unfolding digits_before
decimal n = digits_before (suc n) n String.[]

decimal_runs : decimal 305 ≡ "305"
unfolding decimal
decimal_runs = refl

trim_runs : trim_space " \t 解析 a " ≡ "解析 a"
unfolding trim_space
trim_runs = refl
