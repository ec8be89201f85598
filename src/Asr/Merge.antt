-- ===== src/Asr/Merge.antt =====
-- Merge of services/api_go/internal/asr/service.go: the texts of overlapping segments as one. The
-- texts are lists of runes; Normalize, which rests on Unicode's normal form from another library,
-- is an argument.
pub mod Whole
use luxury_video_tool.Base.{
  ℕ, zero, suc, ◌-◌, String, Bool, true, false, List, [], ◌∷◌, if◌then◌else◌, ltb, str_eq, min, cat,
  rune_count,
}

unfoldable pub take_runes : ℕ → String → String
take_runes zero s = ""
take_runes (suc n) String.[] = ""
take_runes (suc n) (String.◌∷◌ c s) = String.◌∷◌ c (take_runes n s)

unfoldable pub drop_runes : ℕ → String → String
drop_runes zero s = s
drop_runes (suc n) String.[] = ""
drop_runes (suc n) (String.◌∷◌ c s) = drop_runes n s

-- string(left[len(left)-size:]) == string(right[:size])
unfoldable pub overlaps : ℕ → String → String → Bool
unfolding drop_runes take_runes rune_count
overlaps size left right = str_eq (drop_runes (rune_count left - size) left) (take_runes size right)

-- for size := max; size >= 4; size--
unfoldable pub overlap_from : ℕ → String → String → ℕ
unfolding overlaps
overlap_from zero left right = 0
overlap_from (suc n) left right =
    let fewer = overlap_from n left right in
    if ltb (suc n) 4 then 0 else if overlaps (suc n) left right then suc n else fewer

unfoldable pub overlap : String → String → ℕ
unfolding overlap_from rune_count
overlap left right = overlap_from (min 40 (min (rune_count left) (rune_count right))) left right

-- One round of the loop, on a part that is not empty.
unfoldable pub join_part : String → String → String
unfolding overlap drop_runes cat
join_part merged part =
    let size : ℕ = overlap merged part in
    if ltb 0 size then cat merged (drop_runes size part) else cat merged (cat "\n" part)

module _ (normalize : String → String) where
  unfoldable pub merge_step : String → String → String
  unfolding join_part
  merge_step merged part =
      let text : String = normalize part in
      if str_eq text "" then merged else if str_eq merged "" then text else join_part merged text

  unfoldable pub merge_from : String → List String → String
  unfolding merge_step
  merge_from merged [] = merged
  merge_from merged (part ∷ parts) = merge_from (merge_step merged part) parts

  unfoldable pub merge : List String → String
  unfolding merge_from
  merge parts = merge_from "" parts
