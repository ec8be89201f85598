-- ===== src/Results.antt =====
-- services/api_go/internal/results/results.go: the result files of a job. Go's %q, RFC 3339, JSON
-- and asr.Normalize, which is Unicode's normal form from another library, are `Formats`.
use luxury_video_tool.Base.{ℕ, String, List, [], ◌∷◌, if◌then◌else◌, str_eq, cat, trim_space}
use Prim.Native.Char.{code}
use luxury_video_tool.Base.{◌==◌}
use luxury_video_tool.Resolver.Work.{Work}

pub record Formats : Type 0 where
  pub quote : String → String
  pub rfc3339 : ℕ → String
  pub object : List (String × String) → String
  pub normalize : String → String

pub record Bundle : Type 0 where
  pub markdown : String
  pub text : String
  pub meta : String

-- The texts of a recognition: as recognised, and normalised.
pub record Transcript : Type 0 where
  pub raw_text : String
  pub normalized_text : String
  pub request_id : String

-- strings.ReplaceAll(value, "\n", " ")
unfoldable pub flatten_lines : String → String
flatten_lines String.[] = String.[]
flatten_lines (String.◌∷◌ c s) =
    let rest = flatten_lines s in if code c == 10 then String.◌∷◌ " " rest else String.◌∷◌ c rest

unfoldable pub safe_heading : String → String
unfolding flatten_lines trim_space
safe_heading value =
    let line : String = trim_space (flatten_lines value) in if str_eq line "" then "抖音作品" else line

unfoldable pub concat : List String → String
unfolding cat
concat [] = ""
concat (s ∷ ss) = cat s (concat ss)

module _ (f : Formats) where
  -- The text of a note: its description, or its title where that is empty.
  unfoldable pub note_text : Work → String
  note_text work =
      let text : String = f.normalize work.description in
      if str_eq text "" then f.normalize work.title else text

  unfoldable pub build_note : Work → ℕ → Bundle
  unfolding note_text safe_heading concat
  build_note work captured = record {
    markdown = concat (
        "---\nsource: douyin\nvideo_id: "
        ∷ f.quote work.douyin_work_id
        ∷ "\nauthor: "
        ∷ f.quote work.author_name
        ∷ "\nsource_url: "
        ∷ f.quote work.canonical_url
        ∷ "\ncaptured_at: "
        ∷ f.quote (f.rfc3339 captured)
        ∷ "\ncontent_type: note\n---\n\n# "
        ∷ safe_heading work.title
        ∷ "\n\n## 配文\n\n"
        ∷ note_text work
        ∷ "\n"
        ∷ []);
    text = cat (note_text work) "\n";
    meta = f.object (
        ("source", "douyin")
        ∷ ("videoId", work.douyin_work_id)
        ∷ ("author", work.author_name)
        ∷ ("sourceUrl", work.canonical_url)
        ∷ ("capturedAt", f.rfc3339 captured)
        ∷ ("asrProvider", "")
        ∷ ("asrModel", "")
        ∷ ("providerRequestId", "")
        ∷ ("rawText", "")
        ∷ ("normalizedText", note_text work)
        ∷ ("processingVersion", "note-v1")
        ∷ []);
  }

  unfoldable pub build : Work → Transcript → String → String → ℕ → Bundle
  unfolding safe_heading concat
  build work result provider model captured =
      let normalized : String =
        if str_eq result.normalized_text ""
        then f.normalize result.raw_text
        else result.normalized_text in
      record {
        markdown = concat (
            "---\nsource: douyin\nvideo_id: "
            ∷ f.quote work.douyin_work_id
            ∷ "\nauthor: "
            ∷ f.quote work.author_name
            ∷ "\nsource_url: "
            ∷ f.quote work.canonical_url
            ∷ "\ncaptured_at: "
            ∷ f.quote (f.rfc3339 captured)
            ∷ "\nasr_provider: "
            ∷ f.quote provider
            ∷ "\n---\n\n# "
            ∷ safe_heading work.title
            ∷ "\n\n## 发布文案\n\n"
            ∷ work.description
            ∷ "\n\n## 口播文案\n\n"
            ∷ normalized
            ∷ "\n"
            ∷ []);
        text = cat normalized "\n";
        meta = f.object (
            ("source", "douyin")
            ∷ ("videoId", work.douyin_work_id)
            ∷ ("author", work.author_name)
            ∷ ("sourceUrl", work.canonical_url)
            ∷ ("capturedAt", f.rfc3339 captured)
            ∷ ("asrProvider", provider)
            ∷ ("asrModel", model)
            ∷ ("providerRequestId", result.request_id)
            ∷ ("rawText", result.raw_text)
            ∷ ("normalizedText", normalized)
            ∷ ("processingVersion", "normalize-v1")
            ∷ []);
      }
