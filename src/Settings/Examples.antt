-- ===== src/Settings/Examples.antt =====
-- A key that is set where there is a fallback, with a cipher that only marks what it sealed.
use luxury_video_tool.Base.{◌≡◌, refl, ap, String, Option, some, none, true, List, [], ◌∷◌, arith}
use Prim.Native.Char.{Char}
use luxury_video_tool.Settings.{Cipher, Setting, set, resolve, status}
use luxury_video_tool.Settings.Kept.{IsCipher, resolve-set}

abbrev chars : String → List Char
chars String.[] = []
chars (String.◌∷◌ c s) = c ∷ chars s

abbrev text : List Char → String
text [] = ""
text (c ∷ cs) = String.◌∷◌ c (text cs)

text-chars : (s : String) → text (chars s) ≡ s
text-chars String.[] = refl
text-chars (String.◌∷◌ c s) = ap (λ (r : String). String.◌∷◌ c r) (text-chars s)

abbrev unmarked : List Char → Option String
unmarked [] = none
unmarked (c ∷ cs) = some (text cs)

abbrev marking : Cipher
marking = record {
  nonce_size = 1;
  seal = λ nonce value name. "!" ∷ chars value;
  open_sealed = λ nonce sealed name. unmarked sealed;
}

marking-IsCipher : IsCipher marking
marking-IsCipher = record {
  opens = λ nonce value name. ap (λ (r : String). some r) (text-chars value);
  grows = λ nonce value name. ground arith;
}

abbrev row : String → Setting
row value = record {
  name = "asr_model";
  encrypted_value = "n" ∷ "!" ∷ chars value;
  updated_at = 7;
  updated_by = "u1";
}

-- A model that is cleared: the program works without one, Status names the fallback.
cleared :
    (resolve marking "asr_model" "small" (row "\0" ∷ []) ≡ "")
    × (status marking (λ name. "small") (row "\0" ∷ [])
        ≡ some (record {
          aliyun_configured = true;
          silicon_flow_configured = true;
          asr_model = "small";
        }))
unfolding resolve status
cleared = (refl, refl)

resolve-set_example :
    (resolve marking "asr_model" "small" (row "large" ∷ []) ≡ "large")
    × (resolve marking "aliyun_api_key" "small" (row "large" ∷ [])
        ≡ resolve marking "aliyun_api_key" "small" [])
unfolding set
resolve-set_example =
    resolve-set marking "asr_model" " large " "u1" ("n" ∷ []) 7 true [] (row "large" ∷ []) "small"
      "aliyun_api_key" marking-IsCipher refl refl refl refl
