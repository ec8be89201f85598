-- ===== src/Files/Signer.antt =====
-- services/api_go/internal/files/signer.go: signed links to a file. The texts of numbers, HMAC-SHA256
-- with its hexadecimal text, and url.PathEscape are a record of functions; bytes stand as the text of
-- the characters of those numbers.
use luxury_video_tool.Base.{
  ℕ, ◌≡◌, String, Option, none, some, Bool, false, not, ◌&&◌, ltb, str_eq, eq_refl, cat, arith,
}

-- An expiry below zero is before any time, as one that cannot be read.
pub record Codes : Type 0 where
  pub format_int : ℕ → String
  pub parse_int : String → Option ℕ
  pub hex_mac : String → String
  pub decode_hex : String → Option String
  pub path_escape : String → String

abbrev same_bytes : Option String → Option String → Bool
same_bytes none received = false
same_bytes (some expected) none = false
same_bytes (some expected) (some received) = str_eq expected received

abbrev is_in_time : ℕ → Option ℕ → Bool
is_in_time now none = false
is_in_time now (some expires) = not (ltb expires now)

module _ (c : Codes) where
  unfoldable pub sign : String → String → String
  unfolding cat
  sign file_id expiry = c.hex_mac (cat file_id (cat "\0" expiry))

  unfoldable pub link : String → String → ℕ → String
  unfolding cat sign
  link path file_id expires =
      let expiry : String = c.format_int expires in
      cat path (
        cat (c.path_escape file_id)
          (cat "?expires=" (cat expiry (cat "&signature=" (sign file_id expiry)))))

  -- Signer.URL and PreviewURL
  unfoldable pub source_url : String → String → ℕ → String
  unfolding link cat
  source_url base_url file_id expires = link (cat base_url "/api/v1/asr-source/") file_id expires

  unfoldable pub preview_url : String → ℕ → String
  unfolding link
  preview_url file_id expires = link "/api/v1/media-preview/" file_id expires

  unfoldable pub validate : String → String → String → ℕ → Bool
  unfolding sign
  validate file_id expiry signature now =
      is_in_time now (c.parse_int expiry)
      && same_bytes (c.decode_hex (sign file_id expiry)) (c.decode_hex signature)

  -- The signature in a link is accepted for the file and the expiry of that link, up to and at the
  -- second that it expires, and not later, where the expiry can be read back and the text of the
  -- signature is hexadecimal.
  pub validate-sign :
      (file_id : String) (expires now : ℕ)
      → {bytes : String} → c.parse_int (c.format_int expires) ≡ some expires
      → c.decode_hex (sign file_id (c.format_int expires)) ≡ some bytes
      → validate file_id (c.format_int expires) (sign file_id (c.format_int expires)) now
        ≡ not (ltb expires now)
  unfolding validate
  validate-sign file_id expires now {bytes} r d = rw (r, d, eq_refl bytes) (ground arith)
