-- ===== src/Jobs/Worker/Keeps/Note.antt =====
-- The processing of a note keeps what its worker's statements keep.
use luxury_video_tool.Base.{
  ℕ, ◌+◌, refl, String, some, true, false, List, [], ◌∷◌, if◌then◌else◌, length,
}
use luxury_video_tool.Jobs.Model.{Job, Db, downloading, postprocessing}
use luxury_video_tool.Jobs.Worker.{Cause}
use luxury_video_tool.Jobs.Worker.Run.{of_job, Outside}
use luxury_video_tool.Jobs.Worker.Note.{
  Part, part_of, cancelled_step, fetch_part, one_image, all_images, note_music, count_music,
  note_media, media_of, note_result, process_note, download_error,
}
use luxury_video_tool.Jobs.Worker.Keeps.{
  finishes, stages, transcribes, Keeps, Keeps-pure, Keeps-raise, Keeps-bind, Keeps-handle, Keeps-if,
  Keeps-if_ended, Keeps-now, Keeps-query, Keeps-remove, Rely, Guarantee,
}
use luxury_video_tool.Jobs.Worker.Keeps.Files.{
  Keeps-own, Keeps-scoped_target, Keeps-download, Keeps-or_remove, Keeps-register,
  Keeps-clear_stale, Keeps-write_result, Keeps-begin, Keeps-end_step, Keeps-finish_failed,
}
use luxury_video_tool.Resolver.Work.{Image, Work}

module _ (o : Outside) (retention : ℕ) (owner : String) (job : Job) (work : Work) {P : Db → Type 0}
    (rely : Rely o P) (own : Guarantee owner job P) where
  Keeps-cancelled_step {ℓ} :
      {A : Type ℓ} (step_id : String) (at : ℕ) (c : Cause)
      → Keeps P (cancelled_step o retention owner job work {A = A} step_id at c)
  unfolding cancelled_step
  Keeps-cancelled_step step_id at c =
      Keeps-bind _ _ (Keeps-end_step o owner job rely own step_id "cancelled" "" "任务已取消" at)
        (λ _. Keeps-raise c)

  Keeps-fetch_part :
      (step_id : String) (at expires index : ℕ) (part : Part)
      → Keeps P (fetch_part o retention owner job work step_id at expires index part)
  unfolding fetch_part
  Keeps-fetch_part step_id at expires index part =
      Keeps-handle _ _ _
        (Keeps-scoped_target o owner job rely own "images" job.user_id job.id part.ext)
        (λ path.
          Keeps-handle _ _ _ (Keeps-download o owner job rely own part.url path)
            (λ media.
              Keeps-handle _ _ _
                (Keeps-register o owner job rely own (at + index) part.kind path part.name media
                  (some expires))
                (λ file. Keeps-pure true) (λ c. Keeps-pure false))
            (λ c. Keeps-bind _ _ (Keeps-remove o rely path) (λ _.
              Keeps-if_ended o rely _ _ (Keeps-cancelled_step step_id at) (Keeps-pure false))))
        (λ c. Keeps-pure false)

  Keeps-one_image :
      (step_id : String) (at expires index : ℕ) (img : Image)
      → Keeps P (one_image o retention owner job work step_id at expires index img)
  unfolding one_image
  Keeps-one_image step_id at expires index img =
      Keeps-if_ended o rely _ _ (Keeps-cancelled_step step_id at) (
        Keeps-if _ _ _ (Keeps-pure false) (
          Keeps-handle _ _ _
            (Keeps-own o owner job rely own of_job _ (stages downloading _ _ at refl))
            (λ _. Keeps-fetch_part step_id at expires index (part_of index img))
            (λ c.
              Keeps-if_ended o rely _ _ (Keeps-cancelled_step step_id at)
                (Keeps-finish_failed o owner job rely own step_id c))))

  Keeps-all_images :
      (step_id : String) (at expires index : ℕ) (imgs : List Image) (count : ℕ)
      → Keeps P (all_images o retention owner job work step_id at expires index imgs count)
  unfolding all_images
  Keeps-all_images step_id at expires index [] count = Keeps-pure count
  Keeps-all_images step_id at expires index (img ∷ imgs) count =
      Keeps-bind _ _ (Keeps-one_image step_id at expires index img) (λ got.
        Keeps-all_images step_id at expires (index + 1) imgs (if got then count + 1 else count))

  Keeps-note_music : (expires at : ℕ) → Keeps P (note_music o retention owner job work expires at)
  unfolding note_music
  Keeps-note_music expires at =
      Keeps-bind _ _ (Keeps-scoped_target o owner job rely own "music" job.user_id job.id ".mp3")
        (λ path.
          Keeps-bind _ _
            (Keeps-or_remove o owner job rely own path _
              (Keeps-download o owner job rely own work.music_url path))
            (λ media. Keeps-register o owner job rely own at "music" path _ media (some expires)))

  Keeps-count_music :
      (step_id : String) (at count : ℕ)
      → Keeps P (count_music o retention owner job work step_id at count)
  unfolding count_music
  Keeps-count_music step_id at count =
      Keeps-if _ _ _ (Keeps-finish_failed o owner job rely own step_id download_error) (
        Keeps-if _ _ _ (Keeps-pure count) (
          Keeps-handle _ _ _ (Keeps-note_music (at + retention) (at + length work.images))
            (λ file. Keeps-pure (count + 1))
            (λ c. Keeps-if_ended o rely _ _ (Keeps-cancelled_step step_id at) (Keeps-pure count))))

  Keeps-note_media : (at : ℕ) → Keeps P (note_media o retention owner job work at)
  unfolding note_media
  Keeps-note_media at = Keeps-bind _ _ (Keeps-query o rely o.new_id) (λ step_id.
      Keeps-bind _ _ (Keeps-begin o owner job rely own step_id "download" at) (λ _.
        Keeps-bind _ _ (Keeps-all_images step_id at (at + retention) 0 work.images 0) (λ count.
          Keeps-bind _ _ (Keeps-count_music step_id at count) (λ total.
            Keeps-own o owner job rely own of_job _ (finishes step_id "completed" "" "" _ at)))))

  Keeps-media_of :
      (imgs : List Image) (at : ℕ) → Keeps P (media_of o retention owner job work imgs at)
  unfolding media_of
  Keeps-media_of [] at = Keeps-pure tt
  Keeps-media_of (img ∷ imgs) at = Keeps-note_media at

  Keeps-note_result : (at : ℕ) → Keeps P (note_result o retention owner job work at)
  unfolding note_result
  Keeps-note_result at =
      Keeps-bind _ _ (Keeps-own o owner job rely own of_job _ (stages postprocessing 90 _ at refl))
        (λ _.
          Keeps-bind _ _
            (Keeps-write_result o owner job rely own "result.md" ".md" "result_markdown" _ _)
            (λ markdown.
              Keeps-bind _ _
                (Keeps-write_result o owner job rely own "result.txt" ".txt" "result_text" _ _)
                (λ plain.
                  Keeps-bind _ _
                    (Keeps-write_result o owner job rely own "meta.json" ".json" "result_meta" _ _)
                    (λ meta. Keeps-own o owner job rely own of_job _ (transcribes _ _ at)))))

  pub Keeps-process_note : Keeps P (process_note o retention owner job work)
  unfolding process_note
  Keeps-process_note = Keeps-bind _ _ (Keeps-now o rely) (λ at.
      Keeps-bind _ _ (Keeps-clear_stale o owner job rely own)
        (λ _. Keeps-bind _ _ (Keeps-media_of work.images at) (λ _. Keeps-note_result at)))
