-- ===== src/Jobs/Examples/Failures.antt =====
-- The theorems on a worker that failed, at the table.
use luxury_video_tool.Base.{◌+◌, ◌≡◌, refl, some, none, Bool, true, false}
use luxury_video_tool.Sql.{find}
use luxury_video_tool.Jobs.Model.{Job}
use luxury_video_tool.Jobs.Repository.{has_id}
use luxury_video_tool.Jobs.Worker.{Cause, Sentinel, download, failed_with, retry_delay}
use luxury_video_tool.Jobs.Worker.Failed.{IsSettled, failed_with-released}
use luxury_video_tool.Jobs.Examples.{running, tables}

abbrev is_download : Sentinel → Bool
is_download download = true
is_download _ = false

abbrev broken : Cause
broken = record { matches = is_download; after = 0 }

failed_with-released_example :
    (r' : Job) × (find (has_id "j3") (failed_with running "w" "m" broken 500 60 61 tables).0.jobs
      ≡ some r')
    × (r'.lease_owner ≡ none)
    × IsSettled (60 + retry_delay broken 1 500) running r'
unfolding find
failed_with-released_example =
    failed_with-released running "w" "m" broken 500 60 61 tables refl refl
