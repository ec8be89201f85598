-- ===== src/Resolver/Rc4/Involution.antt =====
-- RC4 twice under one key.
use luxury_video_tool.Base.{ℕ, ◌≡◌, refl, ap₂, List, [], ◌∷◌, xor_twice}
use luxury_video_tool.Resolver.Rc4.{Rc4, round, encrypt_from, encrypt}

encrypt_from_twice : (st : Rc4) (bytes : List ℕ) → encrypt_from st (encrypt_from st bytes) ≡ bytes
unfolding encrypt_from
encrypt_from_twice st [] = refl
encrypt_from_twice st (d ∷ ds) =
    ap₂ ◌∷◌ (xor_twice d (round st).1) (encrypt_from_twice (round st).0 ds)

-- What RC4 makes of a text, RC4 under the same key turns back into the text.
pub encrypt-twice : (key bytes : List ℕ) → encrypt key (encrypt key bytes) ≡ bytes
unfolding encrypt
encrypt-twice key bytes = encrypt_from_twice _ bytes
