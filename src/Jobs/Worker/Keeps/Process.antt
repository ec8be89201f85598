-- ===== src/Jobs/Worker/Keeps/Process.antt =====
-- The processing of a job keeps what its worker's statements keep.
use luxury_video_tool.Base.{cat, ℕ, ◌+◌, refl, String, Option, none, some}
use luxury_video_tool.Jobs.Model.{Job, File, Db}
use luxury_video_tool.Jobs.Worker.{Cause}
use luxury_video_tool.Jobs.Worker.Run.{Exec, of_job, background, Media, Outside}
use luxury_video_tool.Jobs.Worker.Files.{file_of}
use luxury_video_tool.Jobs.Worker.Names.{safe_media_name}
use luxury_video_tool.Jobs.Worker.Process.{
  Transcriber, or_finish_failed, or_rollback, register_video, fetch_video, drop_video, stop_job,
  transcribe_video, after_video, process_video, unresolved, found_work, resolve_work, after_resolve,
  process_job, stop_unless, process, not_a_video, no_transcriber,
}
use luxury_video_tool.Jobs.Worker.Keeps.{
  finishes, resolves, completes, cancels, creates, marks, Keeps, Keeps-pure, Keeps-raise,
  Keeps-attempt, Keeps-bind, Keeps-handle, Keeps-if, Keeps-if_ended, Keeps-ask, Keeps-now,
  Keeps-query, Keeps-remove, Rely, Guarantee,
}
use luxury_video_tool.Jobs.Worker.Keeps.Files.{
  Keeps-own, Keeps-media_target, Keeps-download, Keeps-rollback_file, Keeps-clear_stale,
  Keeps-begin, Keeps-end_step, Keeps-failed, Keeps-finish_failed,
}
use luxury_video_tool.Jobs.Worker.Keeps.Note.{Keeps-process_note}
use luxury_video_tool.Resolver.Work.{Work}

-- A transcription keeps `P`.
abbrev pub KeptBy : (Db → Type 0) → Option Transcriber → Type 0
KeptBy P none = Unit
KeptBy P (some run) = (work : Work) (file : File) → Keeps P (run work file)

module _ (o : Outside) (retention : ℕ) (transcriber : Option Transcriber) (owner : String)
    (job : Job) {P : Db → Type 0} (rely : Rely o P) (own : Guarantee owner job P)
    (speech : KeptBy P transcriber) where
  Keeps-or_finish_failed {ℓ} :
      {A : Type ℓ} (step_id : String) (m : Exec A)
      → Keeps P m
      → Keeps P (or_finish_failed o retention transcriber owner job step_id m)
  unfolding or_finish_failed
  Keeps-or_finish_failed step_id m k =
      Keeps-handle m _ _ k Keeps-pure (λ c. Keeps-finish_failed o owner job rely own step_id c)

  Keeps-or_rollback :
      (file : File) (m : Exec (Unit {0}))
      → Keeps P m
      → Keeps P (or_rollback o retention transcriber owner job file m)
  unfolding or_rollback
  Keeps-or_rollback file m k =
      Keeps-handle m _ _ k Keeps-pure
        (λ c. Keeps-bind _ _ (Keeps-rollback_file o owner job rely own file) (λ _. Keeps-raise c))

  Keeps-register_video :
      (step_id : String) (work : Work) (path : String) (media : Media)
      → Keeps P (register_video o retention transcriber owner job step_id work path media)
  unfolding register_video
  Keeps-register_video step_id work path media = Keeps-bind _ _ (Keeps-now o rely) (λ at.
      Keeps-bind _ _ (Keeps-or_finish_failed step_id _ (Keeps-query o rely o.new_id)) (λ id.
        Keeps-bind _ _
          (Keeps-or_finish_failed step_id _ (
            Keeps-own o owner job rely own of_job _ (
              creates
                (file_of at job "video" path (cat (safe_media_name work.douyin_work_id) ".mp4")
                  media (some (at + retention)) id)
                (unfold file_of in refl) (unfold file_of in refl))))
          (λ _. Keeps-pure _)))

  Keeps-fetch_video :
      (step_id : String) (work : Work)
      → Keeps P (fetch_video o retention transcriber owner job step_id work)
  unfolding fetch_video
  Keeps-fetch_video step_id work =
      Keeps-bind _ _
        (Keeps-or_finish_failed step_id _
          (Keeps-media_target o owner job rely own job.user_id job.id ".mp4"))
        (λ path.
          Keeps-bind _ _
            (Keeps-or_finish_failed step_id _
              (Keeps-download o owner job rely own work.video_url path))
            (λ media.
              Keeps-if_ended o rely _ _
                (λ c.
                  Keeps-bind _ _ (Keeps-remove o rely path)
                    (λ _. Keeps-finish_failed o owner job rely own step_id c))
                (Keeps-register_video step_id work path media)))

  Keeps-drop_video : (file : File) → Keeps P (drop_video o retention transcriber owner job file)
  unfolding drop_video
  Keeps-drop_video file = Keeps-bind _ _ (Keeps-remove o rely file.relative_path) (λ _.
      Keeps-bind _ _ (Keeps-now o rely) (λ at.
        Keeps-bind _ _
          (Keeps-attempt _ (Keeps-own o owner job rely own background _ (marks file.id at)))
          (λ _. Keeps-pure tt)))

  Keeps-stop_job {ℓ} :
      {A : Type ℓ} (c : Cause) → Keeps P (stop_job o retention transcriber owner job {A = A} c)
  unfolding stop_job
  Keeps-stop_job c = Keeps-bind _ _ (Keeps-now o rely) (λ at.
      Keeps-bind _ _
        (Keeps-attempt _ (Keeps-own o owner job rely own background _ (cancels "任务已取消" at)))
        (λ _. Keeps-raise c))

  Keeps-transcribe_video :
      (step_id : String) (work : Work) (file : File) (run : Option Transcriber)
      → KeptBy P run
      → Keeps P (transcribe_video o retention transcriber owner job step_id work file run)
  unfolding transcribe_video
  Keeps-transcribe_video step_id work file none k =
      Keeps-finish_failed o owner job rely own step_id no_transcriber
  Keeps-transcribe_video step_id work file (some run) k =
      Keeps-handle _ _ _ (k work file) (λ _. Keeps-if _ _ _ (Keeps-drop_video file) (Keeps-pure tt))
        (λ c. Keeps-failed o owner job rely own c)

  Keeps-after_video :
      (step_id : String) (work : Work) (file : File)
      → Keeps P (after_video o retention transcriber owner job step_id work file)
  unfolding after_video
  Keeps-after_video step_id work file =
      Keeps-if _ _ _
        (Keeps-or_rollback file _
          (Keeps-own o owner job rely own of_job _ (completes file.created_at)))
        (Keeps-transcribe_video step_id work file transcriber speech)

  Keeps-process_video :
      (work : Work) → Keeps P (process_video o retention transcriber owner job work)
  unfolding process_video
  Keeps-process_video work = Keeps-bind _ _ (Keeps-clear_stale o owner job rely own) (λ _.
      Keeps-bind _ _ (Keeps-query o rely o.new_id) (λ step_id.
        Keeps-bind _ _ (Keeps-now o rely) (λ at.
          Keeps-bind _ _ (Keeps-begin o owner job rely own step_id "download" at) (λ _.
            Keeps-bind _ _ (Keeps-fetch_video step_id work) (λ file.
              Keeps-bind _ _
                (Keeps-or_rollback file _ (
                  Keeps-own o owner job rely own of_job _
                    (finishes step_id "completed" "" "" _ file.created_at)))
                (λ _. Keeps-after_video step_id work file))))))

  Keeps-resolve_work : Keeps P (resolve_work o retention transcriber owner job)
  unfolding resolve_work unresolved found_work
  Keeps-resolve_work = Keeps-bind _ _ (Keeps-query o rely o.new_id) (λ step_id.
      Keeps-bind _ _ (Keeps-now o rely) (λ at.
        Keeps-bind _ _ (Keeps-begin o owner job rely own step_id "resolve" at) (λ _.
          Keeps-handle _ _ _ (Keeps-query o rely o.resolved)
            (λ work. Keeps-bind _ _ (Keeps-now o rely) (λ end.
              Keeps-bind _ _
                (Keeps-own o owner job rely own of_job _ (finishes step_id "completed" "" "" _ end))
                (λ _. Keeps-pure work)))
            (λ c. Keeps-bind _ _ (Keeps-now o rely) (λ end.
              Keeps-bind _ _ (Keeps-end_step o owner job rely own step_id "failed" _ _ end)
                (λ _. Keeps-if _ _ _ (Keeps-stop_job c) (Keeps-failed o owner job rely own c)))))))

  Keeps-after_resolve :
      (work : Work) → Keeps P (after_resolve o retention transcriber owner job work)
  unfolding after_resolve
  Keeps-after_resolve work =
      Keeps-if _ _ _
        (Keeps-if _ _ _ (Keeps-process_note o retention owner job work rely own)
          (Keeps-failed o owner job rely own not_a_video))
        (Keeps-process_video work)

  Keeps-process_job : Keeps P (process_job o retention transcriber owner job)
  unfolding process_job
  Keeps-process_job = Keeps-bind _ _ Keeps-resolve_work (λ work.
      Keeps-bind _ _ (Keeps-now o rely) (λ at.
        Keeps-bind _ _ (Keeps-own o owner job rely own of_job _ (resolves work.id at))
          (λ _. Keeps-after_resolve work)))

  -- Whatever the answers and errors that the worker meets, it reaches the tables through statements
  -- on its own job only: what those, the acts of others and a transcription keep, process keeps.
  pub process-Keeps : Keeps P (process o retention transcriber owner job)
  unfolding process stop_unless
  process-Keeps = Keeps-handle _ _ _ Keeps-process_job Keeps-pure (λ c.
      Keeps-bind _ _ (Keeps-ask o rely o.stopping)
        (λ stopping. Keeps-if _ _ _ (Keeps-stop_job c) (Keeps-raise c)))
