-- ===== src/Jobs/Processing.antt =====
-- What the processing of a job leaves, transcription included, whatever the worker meets.
use luxury_video_tool.Base.{ℕ, ◌≢◌, String, Option}
use luxury_video_tool.Jobs.Model.{Job, Db}
use luxury_video_tool.Jobs.Lifecycle.Steps.{IsSoundDb}
use luxury_video_tool.Jobs.Transcription.{Tools, transcriber_of}
use luxury_video_tool.Jobs.Transcription.Keeps.{Keeps-transcriber}
use luxury_video_tool.Jobs.Worker.Alone.{HasRow, own-HasRow}
use luxury_video_tool.Jobs.Worker.Guarantees.{own-IsSoundDb}
use luxury_video_tool.Jobs.Worker.Keeps.{Rely, Guarantee}
use luxury_video_tool.Jobs.Worker.Keeps.Process.{process-Keeps}
use luxury_video_tool.Jobs.Worker.Process.{process}
use luxury_video_tool.Jobs.Worker.Run.{World, Outside}

module _ (o : Outside) (retention : ℕ) (tools : Option Tools) (owner : String) (job : Job)
    (w : World) where
  -- What each statement that IsOwn admits keeps, and what others do keeps, is kept by the whole run.
  process_kept :
      (P : Db → Type 0)
      → Rely o P
      → Guarantee owner job P
      → P w.db
      → P (process o retention (transcriber_of o owner job tools) owner job w).1.db
  process_kept P rely own h =
      (process-Keeps o retention (transcriber_of o owner job tools) owner job rely own
          (Keeps-transcriber o tools owner job rely own)).at
        w h

  -- A sound job table is sound after a worker has processed a job, whatever answers, errors and
  -- cancellations it meets, where what others do meanwhile keeps it sound.
  pub process-IsSoundDb :
      Rely o IsSoundDb
      → IsSoundDb w.db
      → IsSoundDb (process o retention (transcriber_of o owner job tools) owner job w).1.db
  process-IsSoundDb rely v = process_kept IsSoundDb rely (own-IsSoundDb owner job) v

  -- The row of another job, which others leave alone meanwhile, is the same after a worker has
  -- processed its job, whatever answers, errors and cancellations it meets.
  pub process-HasRow :
      (other : String) (r : Job)
      → other ≢ job.id
      → Rely o (HasRow other r)
      → HasRow other r w.db
      → HasRow other r (process o retention (transcriber_of o owner job tools) owner job w).1.db
  process-HasRow other r apart rely there =
      process_kept (HasRow other r) rely (own-HasRow job other r apart owner) there
