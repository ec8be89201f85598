-- ===== src/Resolver/Signature.antt =====
-- The value a_bogus of services/api_go/internal/resolver/abogus.go. Texts are their bytes, the clock
-- and the random numbers are arguments.
use luxury_video_tool.Base.{
  ℕ, ◌+◌, ◌/◌, ◌%◌, ◌^◌, ◌≡◌, refl, List, [], ◌∷◌, ◌++◌, bit_and, bit_or, bit_xor, length,
}
use luxury_video_tool.Resolver.Rc4.{get, encrypt}
use luxury_video_tool.Resolver.Rc4.Involution.{encrypt-twice}
use luxury_video_tool.Resolver.Sm3.{sm3_sum}
use luxury_video_tool.Resolver.Base64.{base64}

abbrev a_bogus_ua : List ℕ
a_bogus_ua =
    76 ∷ 98 ∷ 15 ∷ 131 ∷ 97 ∷ 245 ∷ 224 ∷ 133 ∷ 122 ∷ 199 ∷ 241 ∷ 166 ∷ 79 ∷ 34 ∷ 90 ∷ 191 ∷ 128
    ∷ 126 ∷ 122 ∷ 98 ∷ 66 ∷ 11 ∷ 14 ∷ 40 ∷ 49 ∷ 110 ∷ 110 ∷ 173 ∷ 67 ∷ 96 ∷ 138 ∷ 252 ∷ []

-- "cus"
abbrev end_string : List ℕ
end_string = 99 ∷ 117 ∷ 115 ∷ []

unfoldable pub random_list : ℕ → ℕ → ℕ → ℕ → ℕ → ℕ → ℕ → List ℕ
random_list r b c d e f g =
    let v1 : ℕ = r % 256 in
    let v2 : ℕ = (r / 2 ^ 8) % 256 in
    bit_or (bit_and v1 b) d % 256
    ∷ bit_or (bit_and v1 c) e % 256
    ∷ bit_or (bit_and v2 b) f % 256
    ∷ bit_or (bit_and v2 c) g % 256
    ∷ []

unfoldable pub generate_string1 : ℕ → ℕ → ℕ → List ℕ
unfolding random_list
generate_string1 r1 r2 r3 =
    random_list r1 170 85 1 2 5 (bit_and 45 170)
    ++ random_list r2 170 85 1 0 0 0
    ++ random_list r3 170 85 1 0 5 0

end_check_from : ℕ → List ℕ → ℕ
end_check_from r [] = r
end_check_from r (v ∷ vs) = end_check_from (bit_xor r v) vs

unfoldable pub end_check_num : List ℕ → ℕ
unfolding end_check_from
end_check_num arr = end_check_from 0 arr

-- `now` is the start time, and `drift` the random 4 to 8 milliseconds until the end time.
unfoldable pub list4 : List ℕ → List ℕ → ℕ → ℕ → ℕ → List ℕ
unfolding sm3_sum get
list4 params method now drift browser_length =
    let finish : ℕ = now + drift in
    let params_digest : List ℕ = sm3_sum (params ++ end_string) in
    let method_digest : List ℕ = sm3_sum (method ++ end_string) in
    44
    ∷ (finish / 2 ^ 24) % 256
    ∷ 0
    ∷ 0
    ∷ 0
    ∷ 0
    ∷ 24
    ∷ get params_digest 21
    ∷ get method_digest 21
    ∷ 0
    ∷ get a_bogus_ua 23
    ∷ (finish / 2 ^ 16) % 256
    ∷ get params_digest 22
    ∷ get a_bogus_ua 24
    ∷ (finish / 2 ^ 8) % 256
    ∷ finish % 256
    ∷ 0
    ∷ 0
    ∷ 0
    ∷ 0
    ∷ (now / 2 ^ 24) % 256
    ∷ (now / 2 ^ 16) % 256
    ∷ 0
    ∷ 0
    ∷ 14
    ∷ (now / 2 ^ 8) % 256
    ∷ now % 256
    ∷ 0
    ∷ get method_digest 22
    ∷ (finish / 2 ^ 32) % 256
    ∷ (now / 2 ^ 32) % 256
    ∷ 3
    ∷ browser_length % 256
    ∷ 1
    ∷ 1
    ∷ 0
    ∷ 0
    ∷ 0
    ∷ []

unfoldable pub generate_string2 : List ℕ → List ℕ → ℕ → ℕ → List ℕ → List ℕ
unfolding list4 end_check_num encrypt
generate_string2 params method now drift browser =
    let arr : List ℕ = list4 params method now drift (length browser) in
    encrypt (121 ∷ []) (arr ++ browser ++ end_check_num arr ∷ [])

unfoldable pub get_value : ℕ → ℕ → ℕ → List ℕ → ℕ → ℕ → List ℕ → List ℕ
unfolding generate_string1 generate_string2 base64
get_value r1 r2 r3 params now drift browser =
    base64
      (generate_string1 r1 r2 r3 ++ generate_string2 params (71 ∷ 69 ∷ 84 ∷ []) now drift browser)

-- The second part of the signature, decrypted, is the list of 38 bytes that it was made of, the
-- browser's description and the check byte of the list.
pub string2-readable :
    (params method browser : List ℕ) (now drift : ℕ)
    → (encrypt (121 ∷ []) (generate_string2 params method now drift browser)
        ≡ list4 params method now drift (length browser)
          ++ browser
          ++ end_check_num (list4 params method now drift (length browser)) ∷ [])
      × (length (list4 params method now drift (length browser)) ≡ 38)
unfolding generate_string2 list4
string2-readable params method browser now drift = (encrypt-twice (121 ∷ []) _, refl)
