-- ===== src/Jobs/Transcription.antt =====
-- services/api_go/internal/jobs/transcription.go: Run, from the video to the result files. What
-- ffmpeg, its probe and the speech recognition answer are functions of the number of the call.
pub mod Keeps
use luxury_video_tool.Base.{
  ℕ, zero, suc, map, ◌+◌, ◌*◌, ◌/◌, String, Option, none, some, Bool, true, false, List, [], ◌∷◌,
  ◌++◌, if◌then◌else◌, ltb, length, cat, decimal,
}
use luxury_video_tool.Jobs.Model.{
  Job, File, Db, Result, ok, extracting, transcribing, postprocessing,
}
use luxury_video_tool.Jobs.Repository.Records.{delete_files_by_kind}
use luxury_video_tool.Jobs.Repository.Worker.{set_stage, complete_transcription}
use luxury_video_tool.Jobs.Worker.{Cause}
use luxury_video_tool.Jobs.Worker.Run.{
  Outcome, done, raised, Exec, of_job, background, Media, Outside, ◌>>=◌, ◌>>◌, pure, raise,
  attempt, handle, plain_cause, ask, now, query, statement, remove, placed,
}
use luxury_video_tool.Jobs.Worker.Names.{segment_message, two_digits}
use luxury_video_tool.Jobs.Worker.Files.{
  scoped_target, register, write_result, drop_kind, mark_file,
}
use luxury_video_tool.Jobs.Worker.Note.{files_json}
use luxury_video_tool.Jobs.Worker.Process.{Transcriber}
use luxury_video_tool.Asr.Merge.{merge}
use luxury_video_tool.Files.Paths.{resolve}
use luxury_video_tool.Media.Segments.{Segment, split}
use luxury_video_tool.Resolver.Work.{Work}
use luxury_video_tool.Results.{Bundle, Transcript, build}

-- What a recognition gives of a segment.
pub record Spoken : Type 0 where
  pub text : String
  pub provider : String
  pub model : String
  pub request_id : String

pub record Tools : Type 0 where
  pub extracted : ℕ → Outcome (Unit {0})
  -- the length of the recording in milliseconds
  pub probed : ℕ → Outcome ℕ
  pub cut : ℕ → Outcome (Unit {0})
  -- the bytes of a segment, where the server offers them to the provider under a signed link
  pub signs : Bool
  pub read : ℕ → Outcome String
  pub size : String → ℕ
  -- how often the provider reports progress, and its answer
  pub reports : ℕ → ℕ
  pub recognised : ℕ → Outcome Spoken

-- A zero value
abbrev pub no_one : Spoken
no_one = record { text = ""; provider = ""; model = ""; request_id = "" }

-- segment-%03d.mp3
unfoldable pub segment_name : ℕ → ℕ → String
unfolding cat two_digits decimal
segment_name count index =
    if ltb 1 count
    then cat "segment-"
        (cat (if ltb index 100 then cat "0" (two_digits index) else decimal index) ".mp3")
    else "audio.mp3"

-- strings.Join(texts, "\n")
unfoldable pub lines : List String → String
unfolding cat
lines [] = ""
lines (t ∷ []) = t
lines (t ∷ u ∷ ts) = cat t (cat "\n" (lines (u ∷ ts)))

-- The last recognition, whose provider and request id the results name.
abbrev pub last_spoken : Spoken → List Spoken → Spoken
last_spoken s [] = s
last_spoken s (t ∷ ts) = last_spoken t ts

abbrev pub in_root : List String → String → Outcome (List String)
in_root root path = elim (resolve root path) [ none ↦ raised plain_cause | some p ↦ done p ]

abbrev pub segments_of : ℕ → List Segment
segments_of duration = elim (split duration 540000 1000) [ none ↦ [] | some ss ↦ ss ]

module _ (o : Outside) (tools : Tools) (owner : String) (job : Job) where
  unfoldable pub register_audio : String → Exec File
  register_audio name = do
    body ← query o tools.read
    path ← scoped_target o "asr" job.user_id job.id ".mp3"
    query o o.written
    placed o path
    at ← now o
    register o at job "asr_source" path name
        (record { mime_type = "audio/mpeg"; sha256 = o.digest body; size_bytes = tools.size body })
        (some (at + 7200000))

  -- The audio of a segment, if it is offered.
  unfoldable pub offer : String → Bool → Exec (Option File)
  offer name false = pure none
  offer name true = do file ← register_audio name; pure (some file)

  unfoldable pub withdraw : Option File → Exec (Unit {0})
  withdraw none = pure tt
  withdraw (some file) = do
    remove o file.relative_path
    at ← now o
    attempt (statement o background (mark_file file.id at))
    attempt (statement o background (drop_kind job.id "asr_source"))
    pure tt

  -- The reports of the provider, each of which is a stage.
  unfoldable pub report : ℕ → ℕ → ℕ → Exec (Unit {0})
  report zero index count = pure tt
  report (suc n) index count = do
    at ← now o
    statement o of_job (
        set_stage job.id owner transcribing (70 + (index + 1) * 19 / count)
          (segment_message (index + 1) count) at)
    report n index count

  unfoldable pub recognise : ℕ → ℕ → Exec Spoken
  recognise index count = do
    reports ← ask o tools.reports
    report reports index count
    query o tools.recognised

  -- One segment: the audio is withdrawn whether it was recognised or not.
  unfoldable pub one_segment : ℕ → ℕ → Exec Spoken
  one_segment index count = do
    source ← offer (segment_name count index) tools.signs
    handle (recognise index count) (λ spoken. withdraw source >> pure spoken)
        (λ c. withdraw source >> raise c)

  unfoldable pub all_segments : ℕ → ℕ → List Segment → List Spoken → Exec (List Spoken)
  all_segments index count [] spoken = pure spoken
  all_segments index count (s ∷ ss) spoken = do
    text ← one_segment index count
    all_segments (index + 1) count ss (spoken ++ text ∷ [])

  unfoldable pub cut_audio : ℕ → Exec (List Segment)
  cut_audio duration =
      if ltb 540000 duration
      then query o tools.cut >> pure (segments_of duration)
      else pure (record { start = 0; stop = duration } ∷ [])

  unfoldable pub transcript : List Spoken → Transcript
  transcript spoken = record {
    raw_text = lines (map (λ s. s.text) spoken);
    normalized_text = merge o.formats.normalize (map (λ s. s.text) spoken);
    request_id = (last_spoken no_one spoken).request_id;
  }

  unfoldable pub write_transcript : Work → List Spoken → Exec (Unit {0})
  write_transcript work spoken = do
    at ← now o
    statement o of_job (set_stage job.id owner postprocessing 90 "正在生成结果文件" at)
    captured ← now o
    let last = last_spoken no_one spoken
    let text = transcript spoken
    let bundle = build o.formats work text last.provider last.model captured
    markdown ←
        write_result o job "result.md" ".md" "result_markdown" "text/markdown; charset=utf-8"
          bundle.markdown
    plain ←
        write_result o job "result.txt" ".txt" "result_text" "text/plain; charset=utf-8" bundle.text
    meta ← write_result o job "meta.json" ".json" "result_meta" "application/json" bundle.meta
    end ← now o
    statement o of_job (
        complete_transcription job.id owner
          (o.formats.object (
            ("rawText", text.raw_text)
            ∷ ("normalizedText", text.normalized_text)
            ∷ ("providerRequestId", text.request_id)
            ∷ ("files", files_json o.formats (markdown ∷ plain ∷ meta ∷ []))
            ∷ []))
          "转写与结果生成完成" end)

  -- Transcriber.Run
  unfoldable pub run : Work → File → Exec (Unit {0})
  run work file = do
    query o (λ t. in_root o.root file.relative_path)
    at ← now o
    statement o of_job (set_stage job.id owner extracting 55 "正在提取音频" at)
    query o tools.extracted
    duration ← query o tools.probed
    segments ← cut_audio duration
    start ← now o
    statement o of_job (set_stage job.id owner transcribing 70 "正在识别口播文案" start)
    spoken ← all_segments 0 (length segments) segments []
    write_transcript work spoken

-- The transcription of the server, if it has the tools for it.
abbrev pub transcriber_of : Outside → String → Job → Option Tools → Option Transcriber
transcriber_of o owner job none = none
transcriber_of o owner job (some tools) = some (run o tools owner job)
