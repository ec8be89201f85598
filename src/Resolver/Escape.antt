-- ===== src/Resolver/Escape.antt =====
-- encodeURIComponent of services/api_go/internal/resolver/abogus.go, on the bytes of a text.
use luxury_video_tool.Base.{
  ℕ, ◌+◌, ◌-◌, ◌*◌, ◌/◌, ◌%◌, ◌<◌, ◌≡◌, refl, ap, ap₂, Bool, true, false, ◌&&◌, ◌||◌, List, [], ◌∷◌,
  if◌then◌else◌, leb, ltb, ◌==◌, arith, All, Bool-cases, inl, inr,
}

-- A-Z, a-z, 0-9 and - _ . ! ~ * ' ( )
unfoldable pub is_unreserved : ℕ → Bool
is_unreserved c =
    (leb 65 c && leb c 90)
    || (leb 97 c && leb c 122)
    || (leb 48 c && leb c 57)
    || c == 45
    || c == 95
    || c == 46
    || c == 33
    || c == 126
    || c == 42
    || c == 39
    || c == 40
    || c == 41

-- "0123456789ABCDEF"[n]
unfoldable pub hex_digit : ℕ → ℕ
hex_digit n = if ltb n 10 then 48 + n else 55 + n

unfoldable pub escape : List ℕ → List ℕ
unfolding is_unreserved hex_digit
escape [] = []
escape (c ∷ cs) =
    let rest = escape cs in
    if is_unreserved c then c ∷ rest else 37 ∷ hex_digit (c / 16) ∷ hex_digit (c % 16) ∷ rest

-- The value of a hexadecimal digit in upper case.
unfoldable pub hex_value : ℕ → ℕ
hex_value d = if ltb d 65 then d - 48 else d - 55

-- What a reader of such a text makes of it: "%" and two digits stand for a byte.
unfoldable pub unescape : List ℕ → List ℕ
unfolding hex_value
unescape [] = []
unescape (c ∷ []) = c ∷ []
unescape (c ∷ d ∷ []) = c ∷ d ∷ []
unescape (c ∷ h ∷ l ∷ cs) =
    let escaped = unescape cs in
    let plain = unescape (h ∷ l ∷ cs) in
    if c == 37 then (hex_value h * 16 + hex_value l) ∷ escaped else c ∷ plain

unescape_plain : (c : ℕ) (cs : List ℕ) → (c == 37) ≡ false → unescape (c ∷ cs) ≡ c ∷ unescape cs
unfolding unescape
unescape_plain c [] h = refl
unescape_plain c (d ∷ []) h = refl
unescape_plain c (h ∷ l ∷ cs) e = rw e refl

unescape_code :
    (h l : ℕ) (cs : List ℕ)
    → unescape (37 ∷ h ∷ l ∷ cs) ≡ (hex_value h * 16 + hex_value l) ∷ unescape cs
unfolding unescape
unescape_code h l cs = refl

hex_value-hex_digit : (n : ℕ) → n < 16 → hex_value (hex_digit n) ≡ n
unfolding hex_value hex_digit
hex_value-hex_digit n h = ground arith

unreserved_plain : (c : ℕ) → is_unreserved c ≡ true → (c == 37) ≡ false
unfolding is_unreserved
unreserved_plain c h = ground arith

-- Nothing is lost by encodeURIComponent: a reader of the escaped text has every byte of a text of
-- bytes.
pub unescape-escape : (cs : List ℕ) → All (λ c. c < 256) cs → unescape (escape cs) ≡ cs
unfolding escape unescape
unescape-escape [] h = refl
unescape-escape (c ∷ cs) h = elim (Bool-cases (is_unreserved c)) [
  | inl e ↦
      rw (e, unescape_plain c (escape cs) (unreserved_plain c e))
        (ap (λ t. c ∷ t) (unescape-escape cs h.1))
  | inr e ↦
      rw
        (
          e,
          unescape_code (hex_digit (c / 16)) (hex_digit (c % 16)) (escape cs),
          hex_value-hex_digit (c / 16) (omega (arith, h.0)),
          hex_value-hex_digit (c % 16) (omega arith),
        )
        (ap₂ (λ s t. s ∷ t) (omega arith) (unescape-escape cs h.1))
]

-- A byte that a URL's query can hold as it is.
abbrev pub IsSafe : ℕ → Type 0
IsSafe c = (is_unreserved c || c == 37) ≡ true

hex_digit-IsSafe : (n : ℕ) → n < 16 → IsSafe (hex_digit n)
unfolding is_unreserved hex_digit
hex_digit-IsSafe n h = ground arith

-- What encodeURIComponent makes of bytes has nothing but unreserved characters and the percent
-- sign.
pub escape-IsSafe : (cs : List ℕ) → All (λ c. c < 256) cs → All IsSafe (escape cs)
unfolding escape
escape-IsSafe [] h = tt
escape-IsSafe (c ∷ cs) h = elim (Bool-cases (is_unreserved c)) [
  | inl e ↦ rw e (ground (arith, e), escape-IsSafe cs h.1)
  | inr e ↦ rw e (
    ground arith,
    (
      hex_digit-IsSafe (c / 16) (omega (arith, h.0)),
      (hex_digit-IsSafe (c % 16) (omega arith), escape-IsSafe cs h.1),
    ),
  )
]
