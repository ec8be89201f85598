-- ===== src/Jobs/Transcription/Keeps.antt =====
-- A transcription keeps what its worker's statements keep.
use luxury_video_tool.Base.{
  ℕ, zero, suc, ◌+◌, ◌++◌, ◌*◌, ◌/◌, refl, String, Option, none, some, Bool, true, false, List, [],
  ◌∷◌, length,
}
use luxury_video_tool.Jobs.Model.{Job, File, Db, extracting, transcribing, postprocessing}
use luxury_video_tool.Jobs.Worker.Run.{of_job, background, Outside}
use luxury_video_tool.Jobs.Worker.Keeps.{
  stages, transcribes, marks, drops_kind, Keeps, Keeps-pure, Keeps-raise, Keeps-attempt, Keeps-bind,
  Keeps-handle, Keeps-if, Keeps-ask, Keeps-now, Keeps-query, Keeps-remove, Keeps-placed, Rely,
  Guarantee,
}
use luxury_video_tool.Jobs.Worker.Keeps.Files.{
  Keeps-own, Keeps-scoped_target, Keeps-register, Keeps-write_result,
}
use luxury_video_tool.Jobs.Worker.Keeps.Process.{KeptBy}
use luxury_video_tool.Jobs.Transcription.{
  Spoken, Tools, register_audio, offer, withdraw, report, recognise, one_segment, all_segments,
  cut_audio, write_transcript, run, transcriber_of, segment_name,
}
use luxury_video_tool.Media.Segments.{Segment}
use luxury_video_tool.Resolver.Work.{Work}

module _ (o : Outside) (tools : Tools) (owner : String) (job : Job) {P : Db → Type 0}
    (rely : Rely o P) (own : Guarantee owner job P) where
  Keeps-register_audio : (name : String) → Keeps P (register_audio o tools owner job name)
  unfolding register_audio
  Keeps-register_audio name = Keeps-bind _ _ (Keeps-query o rely tools.read) (λ body.
      Keeps-bind _ _ (Keeps-scoped_target o owner job rely own "asr" job.user_id job.id ".mp3")
        (λ path. Keeps-bind _ _ (Keeps-query o rely o.written) (λ _.
          Keeps-bind _ _ (Keeps-placed o rely path) (λ _. Keeps-bind _ _ (Keeps-now o rely) (λ at.
            Keeps-register o owner job rely own at "asr_source" path name
              (record {
                mime_type = "audio/mpeg";
                sha256 = o.digest body;
                size_bytes = tools.size body;
              })
              (some (at + 7200000)))))))

  Keeps-offer : (name : String) (signs : Bool) → Keeps P (offer o tools owner job name signs)
  unfolding offer
  Keeps-offer name false = Keeps-pure none
  Keeps-offer name true =
      Keeps-bind _ _ (Keeps-register_audio name) (λ file. Keeps-pure (some file))

  Keeps-withdraw : (source : Option File) → Keeps P (withdraw o tools owner job source)
  unfolding withdraw
  Keeps-withdraw none = Keeps-pure tt
  Keeps-withdraw (some file) = Keeps-bind _ _ (Keeps-remove o rely file.relative_path) (λ _.
      Keeps-bind _ _ (Keeps-now o rely) (λ at.
        Keeps-bind _ _
          (Keeps-attempt _ (Keeps-own o owner job rely own background _ (marks file.id at)))
          (λ _.
            Keeps-bind _ _
              (Keeps-attempt _
                (Keeps-own o owner job rely own background _ (drops_kind "asr_source")))
              (λ _. Keeps-pure tt))))

  Keeps-report : (n index count : ℕ) → Keeps P (report o tools owner job n index count)
  unfolding report
  Keeps-report zero index count = Keeps-pure tt
  Keeps-report (suc n) index count = Keeps-bind _ _ (Keeps-now o rely) (λ at.
      Keeps-bind _ _
        (Keeps-own o owner job rely own of_job _
          (stages transcribing (70 + (index + 1) * 19 / count) _ at refl))
        (λ _. Keeps-report n index count))

  Keeps-one_segment : (index count : ℕ) → Keeps P (one_segment o tools owner job index count)
  unfolding one_segment recognise
  Keeps-one_segment index count =
      Keeps-bind _ _ (Keeps-offer (segment_name count index) tools.signs) (λ source.
        Keeps-handle _ _ _
          (Keeps-bind _ _ (Keeps-ask o rely tools.reports) (λ reports.
            Keeps-bind _ _ (Keeps-report reports index count)
              (λ _. Keeps-query o rely tools.recognised)))
          (λ spoken. Keeps-bind _ _ (Keeps-withdraw source) (λ _. Keeps-pure spoken))
          (λ c. Keeps-bind _ _ (Keeps-withdraw source) (λ _. Keeps-raise c)))

  Keeps-all_segments :
      (index count : ℕ) (segments : List Segment) (spoken : List Spoken)
      → Keeps P (all_segments o tools owner job index count segments spoken)
  unfolding all_segments
  Keeps-all_segments index count [] spoken = Keeps-pure spoken
  Keeps-all_segments index count (s ∷ ss) spoken =
      Keeps-bind _ _ (Keeps-one_segment index count)
        (λ text. Keeps-all_segments (index + 1) count ss (spoken ++ text ∷ []))

  Keeps-cut_audio : (duration : ℕ) → Keeps P (cut_audio o tools owner job duration)
  unfolding cut_audio
  Keeps-cut_audio duration =
      Keeps-if _ _ _ (Keeps-bind _ _ (Keeps-query o rely tools.cut) (λ _. Keeps-pure _))
        (Keeps-pure _)

  Keeps-write_transcript :
      (work : Work) (spoken : List Spoken)
      → Keeps P (write_transcript o tools owner job work spoken)
  unfolding write_transcript
  Keeps-write_transcript work spoken = Keeps-bind _ _ (Keeps-now o rely) (λ at.
      Keeps-bind _ _ (Keeps-own o owner job rely own of_job _ (stages postprocessing 90 _ at refl))
        (λ _. Keeps-bind _ _ (Keeps-now o rely) (λ captured.
          Keeps-bind _ _
            (Keeps-write_result o owner job rely own "result.md" ".md" "result_markdown" _ _)
            (λ markdown.
              Keeps-bind _ _
                (Keeps-write_result o owner job rely own "result.txt" ".txt" "result_text" _ _)
                (λ plain.
                  Keeps-bind _ _
                    (Keeps-write_result o owner job rely own "meta.json" ".json" "result_meta" _ _)
                    (λ meta.
                      Keeps-bind _ _ (Keeps-now o rely)
                        (λ end. Keeps-own o owner job rely own of_job _ (transcribes _ _ end))))))))

  Keeps-run : (work : Work) (file : File) → Keeps P (run o tools owner job work file)
  unfolding run
  Keeps-run work file = Keeps-bind _ _ (Keeps-query o rely _) (λ _.
      Keeps-bind _ _ (Keeps-now o rely) (λ at.
        Keeps-bind _ _ (Keeps-own o owner job rely own of_job _ (stages extracting 55 _ at refl))
          (λ _. Keeps-bind _ _ (Keeps-query o rely tools.extracted) (λ _.
            Keeps-bind _ _ (Keeps-query o rely tools.probed) (λ duration.
              Keeps-bind _ _ (Keeps-cut_audio duration) (λ segments.
                Keeps-bind _ _ (Keeps-now o rely) (λ start.
                  Keeps-bind _ _
                    (Keeps-own o owner job rely own of_job _ (stages transcribing 70 _ start refl))
                    (λ _.
                      Keeps-bind _ _ (Keeps-all_segments 0 (length segments) segments [])
                        (λ spoken. Keeps-write_transcript work spoken)))))))))

pub Keeps-transcriber :
    (o : Outside) (tools : Option Tools) (owner : String) (job : Job) {P : Db → Type 0}
    → Rely o P
    → Guarantee owner job P
    → KeptBy P (transcriber_of o owner job tools)
Keeps-transcriber o none owner job rely own = tt
Keeps-transcriber o (some tools) owner job rely own =
    λ work file. Keeps-run o tools owner job rely own work file
