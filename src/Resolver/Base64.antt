-- ===== src/Resolver/Base64.antt =====
-- aBogusBase64 of services/api_go/internal/resolver/abogus.go, on bytes.
use luxury_video_tool.Base.{
  ℕ, zero, suc, ◌+◌, ◌*◌, ◌/◌, ◌%◌, ◌^◌, ◌<◌, ◌≡◌, refl, ap, ap₂, List, [], ◌∷◌, ◌++◌,
  if◌then◌else◌, ◌==◌, length, All, arith, map, ◌≤◌, ◌-◌, length-append, Bool-cases, inl, inr,
}
use luxury_video_tool.Resolver.Rc4.{get}

-- The codes of aBogusCharset.
abbrev charset : List ℕ
charset =
    68 ∷ 107 ∷ 100 ∷ 112 ∷ 103 ∷ 104 ∷ 50 ∷ 90 ∷ 109 ∷ 115 ∷ 81 ∷ 66 ∷ 56 ∷ 48 ∷ 47 ∷ 77 ∷ 102 ∷ 118
    ∷ 86 ∷ 51 ∷ 54 ∷ 88 ∷ 73 ∷ 49 ∷ 82 ∷ 52 ∷ 53 ∷ 45 ∷ 87 ∷ 85 ∷ 65 ∷ 108 ∷ 69 ∷ 105 ∷ 120 ∷ 78
    ∷ 76 ∷ 119 ∷ 111 ∷ 113 ∷ 89 ∷ 84 ∷ 79 ∷ 80 ∷ 117 ∷ 122 ∷ 75 ∷ 70 ∷ 106 ∷ 74 ∷ 110 ∷ 114 ∷ 121
    ∷ 55 ∷ 57 ∷ 72 ∷ 98 ∷ 71 ∷ 99 ∷ 97 ∷ 83 ∷ 116 ∷ 67 ∷ 101 ∷ []

-- The numbers of the characters: four for three bytes, and three or two for what remains. The
-- shifted bytes do not overlap, so that their `|` is their sum.
unfoldable pub sextets : List ℕ → List ℕ
sextets [] = []
sextets (a ∷ []) = let n : ℕ = a * 2 ^ 16 in (n / 2 ^ 18) % 64 ∷ (n / 2 ^ 12) % 64 ∷ []
sextets (a ∷ b ∷ []) =
    let n : ℕ = a * 2 ^ 16 + b * 2 ^ 8 in
    (n / 2 ^ 18) % 64 ∷ (n / 2 ^ 12) % 64 ∷ (n / 2 ^ 6) % 64 ∷ []
sextets (a ∷ b ∷ c ∷ rest) =
    let n : ℕ = a * 2 ^ 16 + b * 2 ^ 8 + c in
    (n / 2 ^ 18) % 64 ∷ (n / 2 ^ 12) % 64 ∷ (n / 2 ^ 6) % 64 ∷ n % 64 ∷ sextets rest

-- The loop that appends "=" up to a multiple of four; three rounds are enough.
unfoldable pub fill : ℕ → List ℕ → List ℕ
fill zero text = text
fill (suc n) text = if length text % 4 == 0 then text else fill n (text ++ 61 ∷ [])

unfoldable pub base64 : List ℕ → List ℕ
unfolding sextets fill get
base64 bytes = fill 3 (map (get charset) (sextets bytes))

-- What a reader makes of the numbers.
unfoldable pub octets : List ℕ → List ℕ
octets [] = []
octets (p ∷ []) = []
octets (p ∷ q ∷ []) = (p * 4 + q / 16) ∷ []
octets (p ∷ q ∷ r ∷ []) = (p * 4 + q / 16) ∷ (q % 16 * 16 + r / 4) ∷ []
octets (p ∷ q ∷ r ∷ s ∷ rest) =
    (p * 4 + q / 16) ∷ (q % 16 * 16 + r / 4) ∷ (r % 4 * 64 + s) ∷ octets rest

-- Every byte of a text of bytes can be read back from the character numbers that aBogusBase64
-- computes.
pub octets-sextets : (bytes : List ℕ) → All (λ b. b < 256) bytes → octets (sextets bytes) ≡ bytes
unfolding octets sextets
octets-sextets [] h = refl
octets-sextets (a ∷ []) h = ap (λ x. x ∷ []) (omega (arith, h.0))
octets-sextets (a ∷ b ∷ []) h =
    ap₂ (λ x y. x ∷ y ∷ []) (omega (arith, h.0, h.1.0)) (omega (arith, h.0, h.1.0))
octets-sextets (a ∷ b ∷ c ∷ rest) h =
    ap₂ (λ x xs. x ∷ xs) (omega (arith, h.0, h.1.0, h.1.1.0))
      (ap₂ (λ x xs. x ∷ xs) (omega (arith, h.0, h.1.0, h.1.1.0))
        (ap₂ (λ x xs. x ∷ xs) (omega (arith, h.0, h.1.0, h.1.1.0)) (octets-sextets rest h.1.1.1)))

length-map : (f : ℕ → ℕ) (xs : List ℕ) → length (map f xs) ≡ length xs
length-map f [] = refl
length-map f (x ∷ xs) = ap suc (length-map f xs)

fill-length :
    (n k : ℕ) (text : List ℕ) → (length text + k) % 4 ≡ 0 → k ≤ n → length (fill n text) % 4 ≡ 0
unfolding fill
fill-length zero k text h b = omega (arith, h, b)
fill-length (suc n) k text h b = elim (Bool-cases (length text % 4 == 0)) [
  | inl e ↦ rw e (ground (arith, e))
  | inr e ↦ rw e (
      fill-length n (k - 1) (text ++ 61 ∷ [])
        (let longer = length-append text (61 ∷ []) in ground (arith, longer, h, e))
        (omega (arith, b)))
]

-- The characters that are missing to a multiple of four are at most two.
missing : (bytes : List ℕ) → (k : ℕ) × ((length (sextets bytes) + k) % 4 ≡ 0) × (k ≤ 3)
unfolding sextets
missing [] = (0, refl, omega arith)
missing (a ∷ []) = (2, refl, omega arith)
missing (a ∷ b ∷ []) = (1, refl, omega arith)
missing (a ∷ b ∷ c ∷ rest) = let (k, e, bound) = missing rest in (k, omega (arith, e), bound)

-- The text of aBogusBase64 has a multiple of four characters.
pub base64-length : (bytes : List ℕ) → length (base64 bytes) % 4 ≡ 0
unfolding base64
base64-length bytes =
    let (k, e, bound) = missing bytes in
    let same = length-map (get charset) (sextets bytes) in
    fill-length 3 k (map (get charset) (sextets bytes)) (omega (arith, e, same)) bound
