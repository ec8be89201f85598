-- ===== src/Media/Segments.antt =====
-- SplitMP3 of services/api_go/internal/media/ffmpeg.go: the times at which a recording is cut, in
-- milliseconds. The loop has fuel; a run of ffmpeg that fails ends it, and is not modelled here.
pub mod Cover
use luxury_video_tool.Base.{
  ℕ, zero, suc, ◌+◌, ◌-◌, ◌||◌, Option, none, some, Bool, List, [], ◌∷◌, if◌then◌else◌, ltb, leb,
  ◌==◌,
}
use mathlib.Core.Option

pub record Segment : Type 0 where
  pub start : ℕ
  pub stop : ℕ

-- 9*time.Minute where the length is 0, and time.Second where the overlap is too long
unfoldable pub segment_length : ℕ → ℕ
segment_length segment = if segment == 0 then 540000 else segment

unfoldable pub overlap_length : ℕ → ℕ → ℕ
overlap_length segment overlap = if leb segment overlap then 1000 else overlap

-- min(segment, total-start)
unfoldable pub cut : ℕ → ℕ → ℕ → Segment
cut total segment start = record {
  start = start;
  stop = start + (if leb segment (total - start) then segment else total - start);
}

abbrev pub push : Segment → Option (List Segment) → Option (List Segment)
push s none = none
push s (some ss) = some (s ∷ ss)

unfoldable pub split_from : ℕ → ℕ → ℕ → ℕ → ℕ → Option (List Segment)
unfolding cut
split_from zero total segment step start = none
split_from (suc fuel) total segment step start =
    let rest = split_from fuel total segment step (start + step) in
    if ltb start total then push (cut total segment start) rest else some []

unfoldable pub split : ℕ → ℕ → ℕ → Option (List Segment)
unfolding split_from segment_length overlap_length
split total segment overlap =
    let length : ℕ = segment_length segment in
    split_from (suc total) total length (length - overlap_length length overlap) 0
