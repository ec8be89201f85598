-- ===== src/Jobs/Stats.antt =====
-- Stats of services/api_go/internal/jobs/repository_sqlite.go: how many jobs there are, by status and
-- by day. A day is its number since 1970, in UTC; the clock is more than 13 days after its beginning.
use luxury_video_tool.Base.{
  ℕ, zero, suc, ◌-◌, ◌*◌, ◌/◌, Bool, ◌&&◌, List, [], ◌∷◌, leb, ◌==◌, length,
}
use luxury_video_tool.Sql.{affected}
use luxury_video_tool.Jobs.Model.{
  Job, Db, Status, queued, resolving, downloading, extracting, transcribing, postprocessing,
  retry_wait, completed, failed, cancelled,
}

pub record Stats : Type 0 where
  pub total : ℕ
  pub today : ℕ
  pub by_status : Status → ℕ
  pub by_day : List (ℕ × ℕ)

abbrev has_status : Status → Job → Bool
has_status queued r = elim r.status [ queued ↦ Bool.true | _ ↦ Bool.false ]
has_status resolving r = elim r.status [ resolving ↦ Bool.true | _ ↦ Bool.false ]
has_status downloading r = elim r.status [ downloading ↦ Bool.true | _ ↦ Bool.false ]
has_status extracting r = elim r.status [ extracting ↦ Bool.true | _ ↦ Bool.false ]
has_status transcribing r = elim r.status [ transcribing ↦ Bool.true | _ ↦ Bool.false ]
has_status postprocessing r = elim r.status [ postprocessing ↦ Bool.true | _ ↦ Bool.false ]
has_status retry_wait r = elim r.status [ retry_wait ↦ Bool.true | _ ↦ Bool.false ]
has_status completed r = elim r.status [ completed ↦ Bool.true | _ ↦ Bool.false ]
has_status failed r = elim r.status [ failed ↦ Bool.true | _ ↦ Bool.false ]
has_status cancelled r = elim r.status [ cancelled ↦ Bool.true | _ ↦ Bool.false ]

abbrev pub day_of : ℕ → ℕ
day_of t = t / 86400000

-- The jobs of the day, among those since the beginning of the first day.
unfoldable pub count_day : ℕ → ℕ → List Job → ℕ
unfolding affected
count_day first day jobs =
    affected (λ r. leb (first * 86400000) r.created_at && day_of r.created_at == day) jobs

-- for offset := 13; offset >= 0; offset--, with the offsets below n
unfoldable pub days_from : ℕ → ℕ → List Job → List (ℕ × ℕ)
unfolding count_day
days_from zero today jobs = []
days_from (suc n) today jobs =
    (today - n, count_day (today - 13) (today - n) jobs) ∷ days_from n today jobs

unfoldable pub stats : ℕ → Db → Stats
unfolding affected days_from
stats now db = record {
  total = length db.jobs;
  today = affected (λ r. leb (day_of now * 86400000) r.created_at) db.jobs;
  by_status = λ s. affected (has_status s) db.jobs;
  by_day = days_from 14 (day_of now) db.jobs;
}
