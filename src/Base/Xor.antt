-- ===== src/Base/Xor.antt =====
-- The exclusive or of two numbers, digit by digit.
use Prim.Native.Nat.{
  ℕ, zero, suc, ◌+◌, ◌*◌, ◌/◌, ◌%◌, ◌≤◌, ◌<◌, bit_xor, digits, differ, bit_xor-bitwise,
}
use mathlib.Core.Path.{◌≡◌, refl, ap, ap₂, sym, ◌∙◌}
use native.Mathlib.Omega.{arith}

-- The count of digits to go does not matter once it is enough.
digits_enough :
    (z : ℕ → ℕ) (f : ℕ → ℕ → ℕ) (n m a b : ℕ) → a ≤ n → a ≤ m → digits z f n a b ≡ digits z f m a b
digits_enough z f zero zero a b h k = refl
digits_enough z f zero (suc m) zero b h k = refl
digits_enough z f zero (suc m) (suc a) b h k = absurd (omega arith)
digits_enough z f (suc n) zero zero b h k = refl
digits_enough z f (suc n) zero (suc a) b h k = absurd (omega arith)
digits_enough z f (suc n) (suc m) zero b h k = refl
digits_enough z f (suc n) (suc m) (suc a) b h k =
    ap (λ t. t * 2 + f (suc a % 2) (b % 2))
      (digits_enough z f n m (suc a / 2) (b / 2) (omega arith) (omega arith))

xor_step : (a b : ℕ) → bit_xor a b ≡ bit_xor (a / 2) (b / 2) * 2 + differ (a % 2) (b % 2)
xor_step zero b = simp bit_xor-bitwise (omega arith)
xor_step (suc a) b =
    let shift : ℕ → ℕ = λ t. t * 2 + differ (suc a % 2) (b % 2) in
    let fewer =
      digits_enough (λ y. y) differ a (suc a / 2) (suc a / 2) (b / 2) (omega arith) (omega arith) in
    let halves : bit_xor (suc a / 2) (b / 2)
        ≡ digits (λ y. y) differ (suc a / 2) (suc a / 2) (b / 2) =
      bit_xor-bitwise (suc a / 2) (b / 2) in
    let whole : bit_xor (suc a) b ≡ digits (λ y. y) differ (suc a) (suc a) b =
      bit_xor-bitwise (suc a) b in
    whole ∙ ap shift (fewer ∙ sym halves)

differ_twice : (p q : ℕ) → p < 2 → q < 2 → differ (differ p q) q ≡ p
differ_twice zero zero h k = refl
differ_twice zero (suc zero) h k = refl
differ_twice (suc zero) zero h k = refl
differ_twice (suc zero) (suc zero) h k = refl
differ_twice (suc (suc p)) q h k = absurd (omega arith)
differ_twice p (suc (suc q)) h k = absurd (omega arith)

differ_bit : (p q : ℕ) → p < 2 → q < 2 → differ p q < 2
differ_bit zero zero h k = omega arith
differ_bit zero (suc zero) h k = omega arith
differ_bit (suc zero) zero h k = omega arith
differ_bit (suc zero) (suc zero) h k = omega arith
differ_bit (suc (suc p)) q h k = absurd (omega arith)
differ_bit p (suc (suc q)) h k = absurd (omega arith)

xor_twice_within : (n a b : ℕ) → a ≤ n → b ≤ n → bit_xor (bit_xor a b) b ≡ a
xor_twice_within zero a b h k =
    let left : a ≡ 0 = omega arith in let right : b ≡ 0 = omega arith in rw (left, right) refl
xor_twice_within (suc n) a b h k =
    let low = differ_bit (a % 2) (b % 2) (omega arith) (omega arith) in
    let halves = xor_twice_within n (a / 2) (b / 2) (omega arith) (omega arith) in
    let back = differ_twice (a % 2) (b % 2) (omega arith) (omega arith) in
    let step = xor_step a b in
    let high : bit_xor a b / 2 ≡ bit_xor (a / 2) (b / 2) = omega (arith, step, low) in
    let bit : bit_xor a b % 2 ≡ differ (a % 2) (b % 2) = omega (arith, step, low) in
    let outer =
      xor_step (bit_xor a b) b ∙ ap₂ (λ s t. bit_xor s (b / 2) * 2 + differ t (b % 2)) high bit in
    omega (arith, outer, halves, back)

-- Masking twice gives the number back.
pub xor_twice : (a b : ℕ) → bit_xor (bit_xor a b) b ≡ a
xor_twice a b = xor_twice_within (a + b) a b (omega arith) (omega arith)
