-- ===== src/Media/Segments/Cover.antt =====
-- The segments cover the recording.
use luxury_video_tool.Base.{
  ℕ, zero, suc, ◌+◌, ◌-◌, ◌≤◌, ◌<◌, ◌≡◌, refl, some, List, [], ◌∷◌, ltb, arith, All, Bool-cases,
  inl, inr,
}
use luxury_video_tool.Media.Segments.{
  Segment, segment_length, overlap_length, cut, split_from, split,
}

-- From the time `from` on, each segment begins before the one before it has ended, up to `total`.
abbrev pub Covers : ℕ → ℕ → List Segment → Type 0
Covers from total [] = total ≤ from
Covers from total (s ∷ ss) = (s.start ≤ from) × Covers s.stop total ss

-- A segment lies within the recording and is not longer than asked.
abbrev pub IsWithin : ℕ → ℕ → Segment → Type 0
IsWithin total segment s = (s.start < s.stop) × (s.stop ≤ total) × (s.stop ≤ s.start + segment)

cut-IsWithin :
    (total segment start : ℕ)
    → 0 < segment
    → start < total
    → IsWithin total segment (cut total segment start)
unfolding cut
cut-IsWithin total segment start s h = ground arith

cut-next :
    (total segment step start : ℕ)
    → step ≤ segment
    → start < total
    → (cut total segment start).stop < total
    → start + step ≤ (cut total segment start).stop
unfolding cut
cut-next total segment step start s h k = ground arith

starts_before :
    (total start from : ℕ) → start < total → (from < total → start ≤ from) → start ≤ from
starts_before total start from l h = ground arith

split_from-Covers :
    (fuel total segment step start from : ℕ)
    → 0 < step
    → step ≤ segment
    → 0 < fuel
    → total < start + fuel
    → (from < total → start ≤ from)
    → (ss : List Segment) × (split_from fuel total segment step start ≡ some ss)
      × Covers from total ss
      × All (IsWithin total segment) ss
unfolding split_from
split_from-Covers zero total segment step start from p s n f h = absurd (omega arith)
split_from-Covers (suc fuel) total segment step start from p s n f h =
    elim (Bool-cases (ltb start total)) [
      | inl e ↦
          let rest =
            split_from-Covers fuel total segment step (start + step) (cut total segment start).stop
              p s (ground arith) (omega arith)
              (cut-next total segment step start s (ground arith)) in
          (
            cut total segment start ∷ rest.0,
            rw (e, rest.1) refl,
            (starts_before total start from (ground arith) h, rest.2),
            (cut-IsWithin total segment start (omega arith) (ground arith), rest.3),
          )
      | inr e ↦ ([], rw e refl, ground arith, tt)
    ]

step_pos : (n overlap : ℕ) → 1000 < n → 0 < n - overlap_length n overlap
unfolding overlap_length
step_pos n overlap h = ground arith

step-le : (n overlap : ℕ) → n - overlap_length n overlap ≤ n
step-le n overlap = omega arith

-- Cut into segments of more than a second, a recording is cut in finitely many, and the segments
-- cover it from its start to its end without a gap; each lies within it, is not empty and is not
-- longer than the length asked for.
pub split-Covers :
    (total segment overlap : ℕ)
    → 1000 < segment_length segment
    → (ss : List Segment) × (split total segment overlap ≡ some ss)
      × Covers 0 total ss
      × All (IsWithin total (segment_length segment)) ss
unfolding split
split-Covers total segment overlap h =
    split_from-Covers (suc total) total (segment_length segment)
      (segment_length segment - overlap_length (segment_length segment) overlap) 0 0
      (step_pos (segment_length segment) overlap h) (step-le (segment_length segment) overlap)
      (omega arith) (omega arith) (λ l. omega arith)
