-- ===== src/Jobs/Examples/Processing.antt =====
-- Runs of a worker, and the theorems on the processing of a job at them.
use luxury_video_tool.Base.{
  ℕ, ◌+◌, ◌≡◌, ◌≢◌, refl, eq_iff, none, some, true, false, [], ◌∷◌, arith, decimal,
}
use luxury_video_tool.Sql.{find}
use luxury_video_tool.Jobs.Model.{Job, resolving, postprocessing}
use luxury_video_tool.Jobs.Repository.{has_id, is_leased_by}
use luxury_video_tool.Jobs.Repository.Claim.{is_due}
use luxury_video_tool.Jobs.Lifecycle.Steps.{IsSoundDb}
use luxury_video_tool.Jobs.Processing.{process-IsSoundDb, process-HasRow}
use luxury_video_tool.Jobs.Worker.Alone.{HasRow}
use luxury_video_tool.Jobs.Worker.Note.{note_result}
use luxury_video_tool.Jobs.Worker.Process.{process}
use luxury_video_tool.Jobs.Worker.Run.{World, Outside, done, raised, plain_cause}
use luxury_video_tool.Jobs.Worker.Stranded.{has_raised, note_result-stranded}
use luxury_video_tool.Jobs.Examples.{waiting, running, tables, tables-IsSound}
use luxury_video_tool.Resolver.Work.{Work}
use luxury_video_tool.Results.{Formats}

abbrev video : Work
video = record {
  id = "w1";
  douyin_work_id = "7";
  work_type = "video";
  canonical_url = "https://www.douyin.com/video/7";
  author_name = "a";
  title = "t";
  description = "d";
  cover_url = "";
  video_url = "https://v/7.mp4";
  images = [];
  music_url = "";
  resolver_version = "1";
  resolved_at = 5;
}

abbrev formats : Formats
formats = record { quote = λ s. s; rfc3339 = λ t. ""; object = λ fields. ""; normalize = λ s. s }

-- A server on which all goes well, and nobody else acts.
abbrev calm : Outside
calm = record {
  clock = λ t. 100 + t;
  others = λ t db. db;
  fault = λ scope t. none;
  ended = λ t. none;
  new_id = λ t. done (decimal t);
  resolved = λ t. done video;
  root = "srv" ∷ [];
  random_name = λ t. "f";
  made = λ t. true;
  downloaded = λ t url. done (record { mime_type = "video/mp4"; sha256 = "00"; size_bytes = 9 });
  written = λ t. done tt;
  removes = λ t path. true;
  jitter = λ t. 0;
  describe = λ c. "";
  digest = λ s. s;
  formats = formats;
  stopping = λ t. false;
}

abbrev claimed : Job
claimed = record running { status = resolving }

abbrev world : World
world = record { db = record tables { jobs = claimed ∷ waiting ∷ [] }; disk = []; turn = 0 }

apart : "j1" ≢ claimed.id
apart e = let h : false ≡ true = (eq_iff "j1" "j3").1 e in absurd (ground arith)

process-HasRow_example : HasRow "j1" waiting (process calm 1000 none "w" claimed world).1.db
unfolding find
process-HasRow_example =
    process-HasRow calm 1000 none "w" claimed world "j1" waiting apart (λ t db h. h) refl

abbrev sound_world : World
sound_world = record { db = tables; disk = []; turn = 0 }

process-IsSoundDb_example : IsSoundDb (process calm 1000 none "w" running sound_world).1.db
process-IsSoundDb_example =
    process-IsSoundDb calm 1000 none "w" running sound_world (λ t db v. v) tables-IsSound

abbrev disk_full : Outside
disk_full = record calm { written = λ t. raised plain_cause }

abbrev running_world : World
running_world = record { db = tables; disk = []; turn = 0 }

note_result-stranded_example :
    (has_raised (note_result disk_full 1000 "w" running video 50 running_world).0 ≡ true)
    × (r' : Job) × (find
          (has_id running.id)
          (note_result disk_full 1000 "w" running video 50 running_world).1.db.jobs
        ≡ some r')
    × (r'.status ≡ postprocessing)
    × (is_leased_by running.id "w" r' ≡ true)
    × ((now : ℕ) → is_due now r' ≡ false)
unfolding find
note_result-stranded_example =
    note_result-stranded disk_full (λ t db. refl) (λ t. refl) (λ scope t. refl) 1000 "w" running
      video 50 running_world refl refl
