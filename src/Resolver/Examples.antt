-- ===== src/Resolver/Examples.antt =====
-- Published test vectors of SM3 and RC4, and the theorems at concrete texts.
mod Lookups
use luxury_video_tool.Base.{ℕ, ◌%◌, ◌≡◌, refl, List, [], ◌∷◌, ◌++◌, length, All, arith}
use luxury_video_tool.Resolver.Rc4.{encrypt}
use luxury_video_tool.Resolver.Rc4.Involution.{encrypt-twice}
use luxury_video_tool.Resolver.Sm3.{sm3_sum, pad}
use luxury_video_tool.Resolver.Sm3.Padding.{pad-length}
use luxury_video_tool.Resolver.Base64.{octets, sextets, base64, octets-sextets, base64-length}
use luxury_video_tool.Resolver.Signature.{list4, generate_string2, end_check_num, string2-readable}
use luxury_video_tool.Resolver.Escape.{escape, unescape, IsSafe, unescape-escape, escape-IsSafe}

abc_digest :
    sm3_sum (97 ∷ 98 ∷ 99 ∷ [])
    ≡ 102 ∷ 199 ∷ 240 ∷ 244 ∷ 98 ∷ 238 ∷ 237 ∷ 217 ∷ 209 ∷ 242 ∷ 212 ∷ 107 ∷ 220 ∷ 16 ∷ 228 ∷ 226
      ∷ 65 ∷ 103 ∷ 196 ∷ 135 ∷ 92 ∷ 242 ∷ 247 ∷ 162 ∷ 41 ∷ 125 ∷ 160 ∷ 43 ∷ 143 ∷ 75 ∷ 168 ∷ 224
      ∷ []
unfolding sm3_sum
abc_digest = refl

empty_digest :
    sm3_sum []
    ≡ 26 ∷ 178 ∷ 29 ∷ 131 ∷ 85 ∷ 207 ∷ 161 ∷ 127 ∷ 142 ∷ 97 ∷ 25 ∷ 72 ∷ 49 ∷ 232 ∷ 26 ∷ 143 ∷ 34
      ∷ 190 ∷ 200 ∷ 199 ∷ 40 ∷ 254 ∷ 251 ∷ 116 ∷ 126 ∷ 208 ∷ 53 ∷ 235 ∷ 80 ∷ 130 ∷ 170 ∷ 43 ∷ []
unfolding sm3_sum
empty_digest = refl

abbrev key : List ℕ
key = 75 ∷ 101 ∷ 121 ∷ []

abbrev plaintext : List ℕ
plaintext = 80 ∷ 108 ∷ 97 ∷ 105 ∷ 110 ∷ 116 ∷ 101 ∷ 120 ∷ 116 ∷ []

ciphertext : encrypt key plaintext ≡ 187 ∷ 243 ∷ 22 ∷ 232 ∷ 217 ∷ 64 ∷ 175 ∷ 10 ∷ 211 ∷ []
unfolding encrypt
ciphertext = refl

abbrev signature : List ℕ
signature = 97 ∷ 47 ∷ 98 ∷ 61 ∷ []

unescape-escape_example : unescape (escape signature) ≡ signature
unescape-escape_example =
    unescape-escape signature (ground arith, (ground arith, (ground arith, (ground arith, tt))))
