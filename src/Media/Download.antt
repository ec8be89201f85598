-- ===== src/Media/Download.antt =====
-- Download of services/api_go/internal/media/download.go. The response and what the disk answers
-- are arguments; a body is the bytes that it has, and the disk the files that it has.
pub mod Whole
use luxury_video_tool.Base.{
  ℕ, ◌+◌, ◌/◌, ◌*◌, String, Option, none, some, Bool, true, false, not, ◌&&◌, ◌||◌, List, [], ◌∷◌,
  ◌++◌, if◌then◌else◌, ltb, leb, ◌==◌, str_eq, length, trim_space,
}
use Prim.Native.Char.{Char, code}
use luxury_video_tool.Sql.{delete, exists, limit}
use luxury_video_tool.Resolver.Hosts.{Url, valid_media_url}

-- ErrURLNotAllowed, ErrTooLarge, ErrDownload, and an error of the disk
pub data Failure : Type 0 where
  url_not_allowed too_large download_failed disk_failed : Failure

pub data Outcome {ℓ} (A : Type ℓ) : Type ℓ where
  success : A → Outcome A
  failure : Failure → Outcome A

pub record DownloadResult : Type 0 where
  pub size_bytes : ℕ
  pub sha256 : String
  pub mime_type : String

-- The paths with their bytes.
abbrev pub Disk : Type 0
Disk = List (String × List ℕ)

-- A response, with the length that it announces, none if it announces none, and whether its body
-- can be read to the end.
pub record Response : Type 0 where
  pub status : ℕ
  pub content_length : Option ℕ
  pub body : List ℕ
  pub complete : Bool
  pub content_type : String

abbrev pub is_at : String → String × List ℕ → Bool
is_at path f = str_eq f.0 path

unfoldable pub unlink : String → Disk → Disk
unfolding delete
unlink path = delete (is_at path)

-- The time limit in milliseconds: two minutes and a second for each two MiB, two hours at most.
unfoldable pub time_limit : ℕ → ℕ
time_limit max_bytes =
    let total : ℕ = 120000 + max_bytes / 2097152 * 1000 in
    if ltb 7200000 total then 7200000 else total

-- strings.Split(value, ";")[0]
unfoldable pub before_semicolon : String → String
before_semicolon String.[] = String.[]
before_semicolon (String.◌∷◌ c s) =
    let rest = before_semicolon s in if code c == 59 then String.[] else String.◌∷◌ c rest

unfoldable pub mime_of : String → String
unfolding before_semicolon trim_space
mime_of content_type =
    let mime : String = trim_space (before_semicolon content_type) in
    if str_eq mime "" then "application/octet-stream" else mime

abbrev pub announces_more : ℕ → Option ℕ → Bool
announces_more max_bytes none = false
announces_more max_bytes (some n) = ltb max_bytes n

module _ (digest : List ℕ → String) where
  -- The bytes that are kept: one more than the limit is read at most, so that a body which breaks
  -- off after that is too large all the same. `closes` is whether Sync and Close succeed, `renames`
  -- whether Rename does. The removal of the temporary file, whose error the code ignores, succeeds.
  unfoldable pub store :
      String → String → ℕ → Response → Bool → Bool → Disk → Disk × Outcome DownloadResult
  unfolding mime_of
  store temporary final max_bytes response closes renames disk =
      let written : List ℕ = limit (max_bytes + 1) response.body in
      if ltb max_bytes (length written)
      then (unlink temporary ((temporary, written) ∷ disk), failure too_large)
      else if not response.complete
      then (unlink temporary ((temporary, written) ∷ disk), failure download_failed)
      else if not closes || not renames
      then (unlink temporary ((temporary, written) ∷ disk), failure disk_failed)
      else (
        (final, written) ∷ unlink final (unlink temporary ((temporary, written) ∷ disk)),
        success (record {
          size_bytes = length written;
          sha256 = digest written;
          mime_type = mime_of response.content_type;
        }),
      )

  -- Once there is a response, none if there was an error: O_EXCL refuses a temporary file that is
  -- there, and `opens` is whether the file can be made.
  unfoldable pub receive :
      String
      → String
      → ℕ
      → Option Response
      → Bool
      → Bool
      → Bool
      → Disk
      → Disk × Outcome DownloadResult
  unfolding store exists
  receive temporary final max_bytes none opens closes renames disk = (disk, failure download_failed)
  receive temporary final max_bytes (some response) opens closes renames disk =
      if ltb response.status 200 || leb 300 response.status
      then (disk, failure download_failed)
      else if announces_more max_bytes response.content_length
      then (disk, failure too_large)
      else if not opens || exists (is_at temporary) disk
      then (disk, failure disk_failed)
      else store temporary final max_bytes response closes renames disk

  unfoldable pub download :
      Option Url
      → String
      → String
      → ℕ
      → Option Response
      → Bool
      → Bool
      → Bool
      → Disk
      → Disk × Outcome DownloadResult
  unfolding receive valid_media_url
  download none temporary final max_bytes response opens closes renames disk =
      (disk, failure url_not_allowed)
  download (some url) temporary final max_bytes response opens closes renames disk =
      if not (valid_media_url url)
      then (disk, failure url_not_allowed)
      else if max_bytes == 0
      then (disk, failure too_large)
      else receive temporary final max_bytes response opens closes renames disk
