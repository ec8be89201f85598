-- ===== src/Resolver/Rc4.antt =====
-- rc4EncryptBytes of services/api_go/internal/resolver/abogus.go.
pub mod Involution
use luxury_video_tool.Base.{
  ℕ, zero, suc, ◌+◌, ◌%◌, List, [], ◌∷◌, bit_xor, if◌then◌else◌, ◌==◌, length,
}

-- xs[i], which the program reads in bounds only.
unfoldable pub get : List ℕ → ℕ → ℕ
get [] i = 0
get (x ∷ xs) zero = x
get (x ∷ xs) (suc i) = get xs i

unfoldable pub set : List ℕ → ℕ → ℕ → List ℕ
set [] i v = []
set (x ∷ xs) zero v = v ∷ xs
set (x ∷ xs) (suc i) v = x ∷ set xs i v

-- s[i], s[j] = s[j], s[i]
unfoldable pub swap : List ℕ → ℕ → ℕ → List ℕ
unfolding get set
swap s i j = set (set s i (get s j)) j (get s i)

pub record Rc4 : Type 0 where
  pub s : List ℕ
  pub i : ℕ
  pub j : ℕ

-- The numbers from `i` on.
unfoldable pub count_from : ℕ → ℕ → List ℕ
count_from i zero = []
count_from i (suc n) = i ∷ count_from (suc i) n

-- The loop of the key schedule from `i` on, with `n` rounds to go.
unfoldable pub schedule : List ℕ → ℕ → ℕ → ℕ → List ℕ → List ℕ
unfolding get swap
schedule key zero i j s = s
schedule key (suc n) i j s =
    let next : ℕ = (j + get s i + get key (i % length key)) % 256 in
    schedule key n (suc i) next (swap s i next)

unfoldable pub start : List ℕ → Rc4
unfolding schedule count_from
start key = record { s = schedule key 256 0 0 (count_from 0 256); i = 0; j = 0 }

-- One round of the output loop: the state after it and the byte of the key stream.
unfoldable pub round : Rc4 → Rc4 × ℕ
unfolding get swap
round st =
    let i : ℕ = (st.i + 1) % 256 in
    let j : ℕ = (st.j + get st.s i) % 256 in
    let s : List ℕ = swap st.s i j in
    (record { s = s; i = i; j = j }, get s ((get s i + get s j) % 256))

unfoldable pub encrypt_from : Rc4 → List ℕ → List ℕ
unfolding round
encrypt_from st [] = []
encrypt_from st (d ∷ ds) = bit_xor d (round st).1 ∷ encrypt_from (round st).0 ds

-- The key is not empty.
unfoldable pub encrypt : List ℕ → List ℕ → List ℕ
unfolding start encrypt_from
encrypt key bytes = encrypt_from (start key) bytes
