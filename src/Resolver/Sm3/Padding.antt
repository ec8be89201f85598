-- ===== src/Resolver/Sm3/Padding.antt =====
-- The padding of SM3 makes whole blocks, for a message of any length.
use luxury_video_tool.Base.{
  ℕ, zero, suc, ◌+◌, ◌-◌, ◌*◌, ◌%◌, ◌^◌, ◌≡◌, ◌≤◌, List, [], ◌∷◌, ◌++◌, length, length-append,
  arith, Bool-cases, inl, inr, ◌==◌,
}
use luxury_video_tool.Resolver.Sm3.{fill, pad, bytes_of_long, bytes_of_word}

-- Enough rounds bring the length to the place where the loop stops.
fill-length :
    (n k : ℕ) (padded : List ℕ)
    → (length padded + k) % 64 ≡ 56
    → k ≤ n
    → length (fill n padded) % 64 ≡ 56
unfolding fill
fill-length zero k padded h b = omega (arith, h, b)
fill-length (suc n) k padded h b = elim (Bool-cases (length padded % 64 == 56)) [
  | inl e ↦ rw e (ground (arith, e))
  | inr e ↦ rw e (
      fill-length n (k - 1) (padded ++ 0 ∷ [])
        (let longer = length-append padded (0 ∷ []) in ground (arith, longer, h, e))
        (omega (arith, b)))
]

-- With its 64 rounds the padding loop of SM3 reaches its end, and the padded message is a whole
-- number of blocks, whatever its length.
pub pad-length : (message : List ℕ) → length (pad message) % 64 ≡ 0
unfolding pad bytes_of_long bytes_of_word
pad-length message =
    let started : List ℕ = message ++ 0x80 ∷ [] in
    let filled =
      fill-length 64 ((120 - length started % 64) % 64) started (omega arith) (omega arith) in
    let tail : List ℕ = bytes_of_long ((length message * 8) % 2 ^ 64) in
    let whole = length-append (fill 64 started) tail in ground (arith, filled, whole)
