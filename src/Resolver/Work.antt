-- ===== src/Resolver/Work.antt =====
-- services/api_go/internal/resolver/model.go: a work of the platform, as its page describes it.
use luxury_video_tool.Base.{ℕ, String, Bool, List, [], ◌∷◌, ◌&&◌, str_eq, true, false}

pub record Image : Type 0 where
  pub url : String
  -- the moving version, empty if there is none
  pub animated_url : String

pub record Work : Type 0 where
  pub id : String
  pub douyin_work_id : String
  pub work_type : String
  pub canonical_url : String
  pub author_name : String
  pub title : String
  pub description : String
  pub cover_url : String
  pub video_url : String
  pub images : List Image
  pub music_url : String
  pub resolver_version : String
  pub resolved_at : ℕ

abbrev no_images : List Image → Bool
no_images [] = true
no_images (_ ∷ _) = false

-- A work with an id and nothing else.
unfoldable pub is_empty_shell : Work → Bool
is_empty_shell w =
    str_eq w.title ""
    && str_eq w.author_name ""
    && str_eq w.video_url ""
    && no_images w.images
    && str_eq w.cover_url ""
