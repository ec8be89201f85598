-- ===== src/Jobs/Examples/Requests.antt =====
-- The theorems on the requests of a user, at the table.
use luxury_video_tool.Base.{
  ◌≡◌, refl, String, Option, none, some, true, false, [], ◌∷◌, trim_space, rune_count,
}
use luxury_video_tool.Jobs.Model.{Job, Db}
use luxury_video_tool.Jobs.Repository.Select.{find_by_idempotency_key, set_created}
use luxury_video_tool.Jobs.Service.{
  CreateInput, create_download, job_reply, reused, default_action, download_job, options_valid,
}
use luxury_video_tool.Jobs.Service.Idempotency.{create_download-again, create_download_race}
use luxury_video_tool.Jobs.Examples.{waiting, tables}

abbrev asked : CreateInput
asked = record {
  user_id = "u1";
  share_text = "link";
  idempotency_key = "k9";
  action = "";
  force = false;
  keep_video = false;
  language_hints = "zh" ∷ [];
  hotwords = [];
}

-- Another request has taken the key with another link.
abbrev taker : Job
taker = record waiting { id = "j6"; input_text = "other"; idempotency_key = "k9" }

abbrev taken : Db → Db
taken db = record db { jobs = taker ∷ db.jobs }

abbrev extract : String → Option String
extract text = some "https://v"

create_download-again_example :
    create_download extract "j8" 200
      (λ db. db)
      asked
      (create_download extract "j7" 100 (λ db. db) asked tables).0
    ≡ (
      (create_download extract "j7" 100 (λ db. db) asked tables).0,
      job_reply
          (record {
            job = set_created false (download_job "j7" 100 "https://v" (default_action asked));
            files = none;
          })
          true,
    )
unfolding create_download trim_space rune_count
create_download-again_example =
    create_download-again extract "j7" 100 (λ db. db) asked tables
      {f = record {
        job = set_created false (download_job "j7" 100 "https://v" (default_action asked));
        files = none;
      }}
      refl "j8" 200 (λ db. db)

create_download_race_example :
    create_download extract "j7" 100 taken asked tables ≡ (taken tables, reused taker)
unfolding options_valid default_action find_by_idempotency_key trim_space rune_count
create_download_race_example =
    create_download_race extract "j7" 100 taken asked tables {r = taker} "https://v" refl refl refl
      refl
