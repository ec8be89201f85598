-- ===== src/Jobs/Examples/Pages.antt =====
-- The theorems on pages of jobs, at the table.
use luxury_video_tool.Base.{◌≤◌, ◌≡◌, false, refl, trim_space, [], All, length}
use luxury_video_tool.Sql.Like.{like, codes}
use luxury_video_tool.Sql.Like.Escape.{contains}
use luxury_video_tool.Jobs.Listing.{ListInput, like_pattern, list_jobs}
use luxury_video_tool.Jobs.Listing.Pages.{like-like_pattern, list_jobs-All, IsAsked}
use luxury_video_tool.Jobs.Examples.{tables}

abbrev asked : ListInput
asked = record {
  user_id = "u1";
  query = " li ";
  status = "queued";
  action = "download";
  limit = 0;
  offset = 1;
}

like-like_pattern_example :
    like (like_pattern "50%_") (codes "a 50%_ b") ≡ contains (codes "50%_") (codes "a 50%_ b")
like-like_pattern_example = like-like_pattern "50%_" (codes "a 50%_ b")

list_jobs-All_example :
    All (λ f. (f.job.user_id ≡ "u1") × IsAsked [] asked f.job) (list_jobs [] asked tables).items
    × (length (list_jobs [] asked tables).items ≤ 100)
list_jobs-All_example = list_jobs-All [] asked tables

-- The second of the two jobs that wait, without the files of a completed one.
second_page : length (list_jobs [] asked tables).items ≡ 1
unfolding list_jobs trim_space
second_page = refl

wildcards : like (like_pattern "50%") (codes "50 kg") ≡ false
unfolding like_pattern like codes
wildcards = refl
