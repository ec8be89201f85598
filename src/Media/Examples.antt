-- ===== src/Media/Examples.antt =====
-- The cutting of a recording of twenty minutes, and a download.
use luxury_video_tool.Base.{
  ℕ, ◌≡◌, refl, String, some, none, true, false, List, [], ◌∷◌, All, arith,
}
use luxury_video_tool.Resolver.Hosts.{Url}
use luxury_video_tool.Media.Segments.{Segment, segment_length, split}
use luxury_video_tool.Media.Segments.Cover.{Covers, IsWithin, split-Covers}
use luxury_video_tool.Media.Download.{Response, download, unlink}
use luxury_video_tool.Sql.{limit}
use luxury_video_tool.Media.Download.Whole.{IsWhole, download-IsWhole}

split-Covers_example :
    (ss : List Segment) × (split 1200000 540000 1000 ≡ some ss)
    × Covers 0 1200000 ss
    × All (IsWithin 1200000 (segment_length 540000)) ss
unfolding segment_length
split-Covers_example = split-Covers 1200000 540000 1000 (omega arith)

abbrev url : Url
url = record { scheme = "https"; has_user = false; host = "v.example.com"; port = ""; ip = none }

abbrev response : Response
response = record {
  status = 200;
  content_length = some 3;
  body = 1 ∷ 2 ∷ 3 ∷ [];
  complete = true;
  content_type = "video/mp4; codecs=a";
}

abbrev sum : List ℕ → String
sum bytes = "digest"

received :
    (download sum (some url) "a.part" "a" 10 (some response) true true true []).0
    ≡ ("a", 1 ∷ 2 ∷ 3 ∷ []) ∷ []
unfolding download limit unlink
received = refl

download-IsWhole_example :
    IsWhole sum "a" 10
      (some response)
      []
      (download sum (some url) "a.part" "a" 10 (some response) true true true [])
download-IsWhole_example =
    download-IsWhole sum "a.part" "a" 10 true true true [] (some url) (some response)
