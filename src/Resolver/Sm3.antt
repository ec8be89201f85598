-- ===== src/Resolver/Sm3.antt =====
-- services/api_go/internal/resolver/sm3.go: the digest SM3 over bytes. A uint32 is a number below
-- 2 ^ 32, and `+` on it wraps around.
pub mod Padding
use luxury_video_tool.Base.{
  ℕ, zero, suc, ◌+◌, ◌-◌, ◌*◌, ◌/◌, ◌%◌, ◌^◌, ◌≡◌, refl, List, [], ◌∷◌, ◌++◌, bit_and, bit_or,
  bit_xor, if◌then◌else◌, ltb, ◌==◌, length, String,
}
use luxury_video_tool.Resolver.Rc4.{get}

abbrev add : ℕ → ℕ → ℕ
add x y = (x + y) % 2 ^ 32

unfoldable pub rotl : ℕ → ℕ → ℕ
rotl x n = bit_or ((x * 2 ^ n) % 2 ^ 32) (x / 2 ^ (32 - n))

-- ^x
abbrev complement : ℕ → ℕ
complement x = bit_xor x 0xFFFFFFFF

unfoldable pub ff : ℕ → ℕ → ℕ → ℕ → ℕ
ff j x y z =
    if ltb j 16
    then bit_xor (bit_xor x y) z
    else bit_or (bit_or (bit_and x y) (bit_and x z)) (bit_and y z)

unfoldable pub gg : ℕ → ℕ → ℕ → ℕ → ℕ
gg j x y z =
    if ltb j 16 then bit_xor (bit_xor x y) z else bit_or (bit_and x y) (bit_and (complement x) z)

unfoldable pub p0 : ℕ → ℕ
unfolding rotl
p0 x = bit_xor (bit_xor x (rotl x 9)) (rotl x 17)

unfoldable pub p1 : ℕ → ℕ
unfolding rotl
p1 x = bit_xor (bit_xor x (rotl x 15)) (rotl x 23)

-- The loop that appends zeros until 8 bytes are missing to a whole number of blocks. 64 rounds are
-- enough.
unfoldable pub fill : ℕ → List ℕ → List ℕ
fill zero padded = padded
fill (suc n) padded = if length padded % 64 == 56 then padded else fill n (padded ++ 0 ∷ [])

-- binary.BigEndian.PutUint32 and PutUint64
unfoldable pub bytes_of_word : ℕ → List ℕ
bytes_of_word x = (x / 2 ^ 24) % 256 ∷ (x / 2 ^ 16) % 256 ∷ (x / 2 ^ 8) % 256 ∷ x % 256 ∷ []

unfoldable pub bytes_of_long : ℕ → List ℕ
unfolding bytes_of_word
bytes_of_long x = bytes_of_word (x / 2 ^ 32) ++ bytes_of_word (x % 2 ^ 32)

unfoldable pub pad : List ℕ → List ℕ
unfolding fill bytes_of_long
pad message = fill 64 (message ++ 0x80 ∷ []) ++ bytes_of_long ((length message * 8) % 2 ^ 64)

-- The first `n` words of a block.
unfoldable pub words : ℕ → List ℕ → List ℕ
words (suc n) (a ∷ b ∷ c ∷ d ∷ rest) = (a * 2 ^ 24 + b * 2 ^ 16 + c * 2 ^ 8 + d) ∷ words n rest
words _ _ = []

-- The words w[j] for the next `n` values of j; `w` has the words so far.
unfoldable pub expand : ℕ → ℕ → List ℕ → List ℕ
unfolding get p1 rotl
expand zero j w = w
expand (suc n) j w = expand n (suc j) (
    w
    ++ bit_xor
        (bit_xor (p1 (bit_xor (bit_xor (get w (j - 16)) (get w (j - 9))) (rotl (get w (j - 3)) 15)))
          (rotl (get w (j - 13)) 7))
        (get w (j - 6))
      ∷ [])

pub record Registers : Type 0 where
  pub a : ℕ
  pub b : ℕ
  pub c : ℕ
  pub d : ℕ
  pub e : ℕ
  pub f : ℕ
  pub g : ℕ
  pub h : ℕ

unfoldable pub constant : ℕ → ℕ
constant j = if ltb j 16 then 0x79CC4519 else 0x7A879D8A

-- One round of the compression.
unfoldable pub compress_round : List ℕ → ℕ → Registers → Registers
unfolding get ff gg p0 rotl constant
compress_round w j v =
    let ss1 : ℕ = rotl (add (add (rotl v.a 12) v.e) (rotl (constant j) (j % 32))) 7 in
    let ss2 : ℕ = bit_xor ss1 (rotl v.a 12) in
    let w1 : ℕ = bit_xor (get w j) (get w (j + 4)) in
    let tt1 : ℕ = add (add (add (ff j v.a v.b v.c) v.d) ss2) w1 in
    let tt2 : ℕ = add (add (add (gg j v.e v.f v.g) v.h) ss1) (get w j) in
    record {
      a = tt1;
      b = v.a;
      c = rotl v.b 9;
      d = v.c;
      e = p0 tt2;
      f = v.e;
      g = rotl v.f 19;
      h = v.g;
    }

unfoldable pub compress : List ℕ → ℕ → ℕ → Registers → Registers
unfolding compress_round
compress w zero j v = v
compress w (suc n) j v = compress w n (suc j) (compress_round w j v)

unfoldable pub block : List ℕ → Registers → Registers
unfolding words expand compress
block bytes v =
    let r : Registers = compress (expand 52 16 (words 16 bytes)) 64 0 v in
    record {
      a = bit_xor v.a r.a;
      b = bit_xor v.b r.b;
      c = bit_xor v.c r.c;
      d = bit_xor v.d r.d;
      e = bit_xor v.e r.e;
      f = bit_xor v.f r.f;
      g = bit_xor v.g r.g;
      h = bit_xor v.h r.h;
    }

unfoldable pub drop : ℕ → List ℕ → List ℕ
drop zero xs = xs
drop (suc n) [] = []
drop (suc n) (x ∷ xs) = drop n xs

-- The loop over the blocks; the first number counts the blocks to go.
unfoldable pub blocks : ℕ → List ℕ → Registers → Registers
unfolding block drop
blocks zero padded v = v
blocks (suc n) padded v = blocks n (drop 64 padded) (block padded v)

abbrev initial : Registers
initial = record {
  a = 0x7380166F;
  b = 0x4914B2B9;
  c = 0x172442D7;
  d = 0xDA8A0600;
  e = 0xA96F30BC;
  f = 0x163138AA;
  g = 0xE38DEE4D;
  h = 0xB0FB0E4E;
}

unfoldable pub sm3_sum : List ℕ → List ℕ
unfolding pad blocks bytes_of_word
sm3_sum message =
    let v : Registers = blocks (length (pad message) / 64) (pad message) initial in
    bytes_of_word v.a
    ++ bytes_of_word v.b
    ++ bytes_of_word v.c
    ++ bytes_of_word v.d
    ++ bytes_of_word v.e
    ++ bytes_of_word v.f
    ++ bytes_of_word v.g
    ++ bytes_of_word v.h
