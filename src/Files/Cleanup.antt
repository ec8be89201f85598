-- ===== src/Files/Cleanup.antt =====
-- services/api_go/internal/cleanup/cleanup.go: Once. `removes` says of a relative path whether
-- the removal of that file from the disk succeeds, and `clock` gives the readings of the clock, one
-- after the other. Each statement comes after a reading: by its number, `asks` says whether Expired
-- succeeds and `marks` whether MarkDeleted does. The loop has fuel; `none` is a run that has not
-- ended yet.
pub mod Ends
use luxury_video_tool.Base.{
  ℕ, zero, suc, ◌+◌, String, Option, none, some, Bool, not, List, [], ◌∷◌, if◌then◌else◌, ltb,
  length,
}
use luxury_video_tool.Jobs.Model.{File}
use luxury_video_tool.Files.Repository.{expired, mark_deleted}

-- The table files, and how often the clock has been read.
pub record Sweep : Type 0 where
  pub files : List File
  pub reads : ℕ

module _ (removes : String → Bool) (clock : ℕ → ℕ) (asks marks : ℕ → Bool) where
  unfoldable pub sweep_file : File → Sweep → Sweep
  unfolding mark_deleted
  sweep_file f s =
      if not (removes f.relative_path)
      then s
      else if marks s.reads
      then record { files = mark_deleted f.id (clock s.reads) s.files; reads = s.reads + 1 }
      else record s { reads = s.reads + 1 }

  unfoldable pub sweep_all : List File → Sweep → Sweep
  unfolding sweep_file
  sweep_all [] s = s
  sweep_all (f ∷ fs) s = sweep_all fs (sweep_file f s)

  -- The batch of one round, of 100 files at most.
  unfoldable pub batch : Sweep → List File
  unfolding expired
  batch s = expired (clock s.reads) 100 s.files

  -- What a round leaves.
  unfoldable pub sweep_batch : Sweep → Sweep
  unfolding sweep_all batch
  sweep_batch s = sweep_all (batch s) (record s { reads = s.reads + 1 })

  -- An error of Expired ends the loop, and so does a batch of none, since sweeping it does nothing.
  unfoldable pub once : ℕ → Sweep → Option Sweep
  unfolding sweep_batch
  once zero s = none
  once (suc fuel) s =
      let rest = once fuel (sweep_batch s) in
      if not (asks s.reads)
      then some (record s { reads = s.reads + 1 })
      else if ltb (length (batch s)) 100
      then some (sweep_batch s)
      else rest
