-- ===== src/Settings.antt =====
-- services/api_go/internal/settings/service.go: the settings that an administrator changes at run
-- time, kept encrypted in the table runtime_settings. AES-GCM is a record of functions; a byte of
-- what it makes is the character of that number.
pub mod Kept
mod Examples
use luxury_video_tool.Base.{
  ℕ, zero, suc, ◌+◌, String, Option, none, some, Bool, true, false, not, ◌&&◌, ◌||◌, List, [], ◌∷◌,
  ◌++◌, if◌then◌else◌, ltb, leb, ◌==◌, str_eq, length, trim_space,
}
use Prim.Native.Char.{Char, code}
use luxury_video_tool.Sql.{update, exists, find, limit}

-- cipher.AEAD: the nonce, the text and the additional data; a text that is not authentic is none.
pub record Cipher : Type 0 where
  pub nonce_size : ℕ
  pub seal : List Char → String → String → List Char
  pub open_sealed : List Char → List Char → String → Option String

-- A row of runtime_settings.
pub record Setting : Type 0 where
  pub name : String
  pub encrypted_value : List Char
  pub updated_at : ℕ
  pub updated_by : String

-- What Get reports: sql.ErrNoRows, or a value that cannot be read.
pub data Lookup : Type 0 where
  found : String → Lookup
  no_row unreadable : Lookup

abbrev pub disabled_value : String
disabled_value = "\0"

abbrev pub has_name : String → Setting → Bool
has_name name s = str_eq s.name name

-- encrypted[n:]
unfoldable pub rest_from : ℕ → List Char → List Char
rest_from zero bs = bs
rest_from (suc n) [] = []
rest_from (suc n) (b ∷ bs) = rest_from n bs

unfoldable pub decrypt : Cipher → String → List Char → Option String
unfolding limit rest_from
decrypt c name encrypted =
    if leb (length encrypted) c.nonce_size
    then none
    else c.open_sealed (limit c.nonce_size encrypted) (rest_from c.nonce_size encrypted) name

abbrev pub read_value : Option String → Lookup
read_value none = unreadable
read_value (some value) = found value

abbrev pub read_row : Cipher → String → Option Setting → Lookup
read_row c name none = no_row
read_row c name (some s) = read_value (decrypt c name s.encrypted_value)

unfoldable pub get : Cipher → String → List Setting → Lookup
unfolding find decrypt
get c name table = read_row c name (find (has_name name) table)

abbrev pub value_or : String → Lookup → String
value_or fallback (found value) = if str_eq value disabled_value then "" else value
value_or fallback no_row = fallback
value_or fallback unreadable = ""

unfoldable pub resolve : Cipher → String → String → List Setting → String
unfolding get
resolve c name fallback table = value_or fallback (get c name table)

-- len(value), in bytes of UTF-8
unfoldable pub byte_count : String → ℕ
byte_count String.[] = 0
byte_count (String.◌∷◌ r s) =
    byte_count s
    + (if ltb (code r) 128
        then 1
        else if ltb (code r) 2048
        then 2
        else if ltb (code r) 65536
        then 3
        else 4)

-- strings.ContainsAny(value, "\r\n\t ")
unfoldable pub has_blank : String → Bool
has_blank String.[] = false
has_blank (String.◌∷◌ r s) =
    code r == 13 || code r == 10 || code r == 9 || code r == 32 || has_blank s

-- The checks of Set on a name and a value without blanks around it.
unfoldable pub is_valid : String → String → Bool
unfolding byte_count has_blank
is_valid name value =
    if str_eq name "asr_model"
    then not (ltb 256 (byte_count value)) && not (has_blank value)
    else (str_eq name "aliyun_api_key" || str_eq name "siliconflow_api_key")
      && not (ltb 4096 (byte_count value))

-- INSERT … ON CONFLICT(name) DO UPDATE
unfoldable pub put : Setting → List Setting → List Setting
unfolding update exists
put row table =
    if exists (has_name row.name) table
    then update (has_name row.name) (λ s. row) table
    else table ++ row ∷ []

abbrev pub stored : String → String
stored value = if str_eq value "" then disabled_value else value

-- Set, with the nonce that is read, none if there is an error, and whether the statement succeeds.
unfoldable pub set :
    Cipher
    → String
    → String
    → String
    → Option (List Char)
    → ℕ
    → Bool
    → List Setting
    → List Setting × Bool
unfolding is_valid put trim_space
set c name value user_id none at saves table = (table, false)
set c name value user_id (some nonce) at saves table =
    if not (is_valid name (trim_space value)) || not saves then (table, false) else (
      put
          (record {
            name = name;
            encrypted_value = nonce ++ c.seal nonce (stored (trim_space value)) name;
            updated_at = at;
            updated_by = user_id;
          })
          table,
      true,
    )

-- The answer of Status, of which the code never sets aliyunAvailable.
pub record Status : Type 0 where
  pub aliyun_configured : Bool
  pub silicon_flow_configured : Bool
  pub asr_model : String

abbrev pub is_known : Setting → Bool
is_known s =
    str_eq s.name "aliyun_api_key"
    || str_eq s.name "siliconflow_api_key"
    || str_eq s.name "asr_model"

abbrev pub with_value : String → String → Status → Status
with_value name value s =
    let configured : Bool = not (str_eq value disabled_value) in
    record {
      aliyun_configured = if str_eq name "aliyun_api_key" then configured else s.aliyun_configured;
      silicon_flow_configured =
          if str_eq name "siliconflow_api_key" then configured else s.silicon_flow_configured;
      asr_model = if str_eq name "asr_model" && configured then value else s.asr_model;
    }

-- The loop over the rows of the three settings; none where one of them cannot be read.
unfoldable pub status_from : Cipher → List Setting → Status → Option Status
unfolding limit rest_from
status_from c [] s = some s
status_from c (r ∷ rs) s =
    let kept = status_from c rs s in
    let bytes : List Char = r.encrypted_value in
    if not (is_known r) || leb (length bytes) c.nonce_size
    then kept
    else elim (c.open_sealed (limit c.nonce_size bytes) (rest_from c.nonce_size bytes) r.name) [
      | none ↦ none
      | some value ↦ status_from c rs (with_value r.name value s)
    ]

unfoldable pub status : Cipher → (String → String) → List Setting → Option Status
unfolding status_from
status c fallback table = status_from c table (record {
  aliyun_configured = not (str_eq (fallback "aliyun_api_key") "");
  silicon_flow_configured = not (str_eq (fallback "siliconflow_api_key") "");
  asr_model = fallback "asr_model";
})
