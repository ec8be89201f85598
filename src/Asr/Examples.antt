-- ===== src/Asr/Examples.antt =====
-- The texts of two segments that overlap, and a third that is empty.
use luxury_video_tool.Base.{◌≡◌, refl, String, List, [], ◌∷◌, All}
use luxury_video_tool.Asr.Merge.{merge}
use luxury_video_tool.Asr.Merge.Whole.{Has, merge-Has}

abbrev texts : List String
texts = "see you tomorrow" ∷ "tomorrow at ten" ∷ "" ∷ []

merged : merge (λ s. s) texts ≡ "see you tomorrow at ten"
unfolding merge
merged = refl

merge-Has_example : All (λ part. Has part (merge (λ s. s) texts)) texts
merge-Has_example = merge-Has (λ s. s) texts
