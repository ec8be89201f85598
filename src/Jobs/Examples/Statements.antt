-- ===== src/Jobs/Examples/Statements.antt =====
-- The theorems on the statements of the repository, at the table.
use luxury_video_tool.Base.{String, ℕ, ◌↔◌, ◌≤◌, ◌≡◌, refl, some, List, [], ◌∷◌, All, map}
use luxury_video_tool.Sql.{find, update}
use luxury_video_tool.Jobs.Model.{Status, Job, err, lease_lost, not_found}
use luxury_video_tool.Jobs.Repository.{has_id}
use luxury_video_tool.Jobs.Repository.Worker.{
  heartbeat, set_resolved, set_stage, complete_download, complete_transcription, retry_later,
  cancel_owned,
}
use luxury_video_tool.Jobs.Repository.Claim.{claim_next, set_claim}
use luxury_video_tool.Jobs.Repository.Recovery.{recover}
use luxury_video_tool.Jobs.Lifecycle.Steps.{
  Call, claims, heartbeats, completes_download, cancels, recovers, perform, perform_all, IsSoundDb,
}
use luxury_video_tool.Jobs.Lifecycle.Steps.Kept.{perform_all-IsSoundDb}
use luxury_video_tool.Jobs.Lifecycle.Edges.{Moved}
use luxury_video_tool.Jobs.Lifecycle.Moves.{perform-Moved}
use luxury_video_tool.Jobs.Lifecycle.Completed.{completed-Kept}
use luxury_video_tool.Jobs.Leases.{stale_worker}
use luxury_video_tool.Jobs.Leases.Claims.{claim_next-oldest, claim_next-idle, IsDue, claimed_row}
use luxury_video_tool.Jobs.Recovery.{recover-row, recover_row}
use luxury_video_tool.Jobs.Examples.{waiting, running, done, tables, tables-IsSound}

abbrev day : List Call
day =
    heartbeats "j3" "w" 50 60 ∷ claims "v" 60 50 ∷ completes_download "j3" "w" 70 ∷ recovers 95 ∷ []

perform_all-IsSoundDb_example : IsSoundDb (perform_all day tables)
perform_all-IsSoundDb_example =
    perform_all-IsSoundDb day tables (tt, (tt, (tt, (tt, tt)))) tables-IsSound

perform-Moved_example : Moved "j3" running (perform (completes_download "j3" "w" 70) tables)
unfolding find
perform-Moved_example =
    perform-Moved (completes_download "j3" "w" 70) "j3" tables tt tables-IsSound refl

completed-Kept_example : find (has_id "j4") (perform (cancels "u1" "j4" 70) tables).jobs ≡ some done
unfolding find
completed-Kept_example =
    completed-Kept (cancels "u1" "j4" 70) "j4" tables tables-IsSound refl refl tt

stale_worker_example :
    ((now lease : ℕ) → heartbeat "j3" "v" now lease tables ≡ (tables, err lease_lost))
    × ((work_id : String) (at : ℕ)
        → set_resolved "j3" "v" work_id at tables ≡ (tables, err lease_lost))
    × ((status : Status) (progress : ℕ) (message : String) (at : ℕ)
        → set_stage "j3" "v" status progress message at tables ≡ (tables, err lease_lost))
    × ((at : ℕ) → complete_download "j3" "v" at tables ≡ (tables, err lease_lost))
    × ((result message : String) (at : ℕ)
        → complete_transcription "j3" "v" result message at tables ≡ (tables, err lease_lost))
    × ((code message : String) (retry_at at : ℕ)
        → retry_later "j3" "v" code message retry_at at tables ≡ (tables, err lease_lost))
    × ((message : String) (at : ℕ)
        → cancel_owned "j3" "v" message at tables ≡ (tables, err lease_lost))
stale_worker_example =
    stale_worker "j3" "v" tables
      ((λ _. refl), ((λ _. refl), ((λ _. refl), ((λ _. refl), ((λ _. refl), tt)))))

claim_next-oldest_example :
    (c : Job) × (find (has_id c.id) tables.jobs ≡ some c)
    × IsDue 100 c
    × All (λ x. IsDue 100 x → c.created_at ≤ x.created_at) tables.jobs
    × (set_claim "v" 100 50 waiting ≡ claimed_row "v" 100 50 c)
    × ((claim_next "v" 100 50 tables).0 ≡ record tables {
      jobs = update (has_id c.id) (λ x. set_claim "v" 100 50 waiting) tables.jobs;
    })
unfolding claim_next
claim_next-oldest_example = claim_next-oldest "v" 100 50 tables tables-IsSound refl

claim_next-idle_example :
    ((claim_next "v" 100 50 tables).1 ≡ err not_found) ↔ All (λ r. ¬ IsDue 100 r) tables.jobs
claim_next-idle_example = claim_next-idle "v" 100 50 tables

recover-row_example :
    (recover 95 tables).0
    ≡ record tables { jobs = map (recover_row tables.asr_calls 95) tables.jobs }
recover-row_example = recover-row 95 tables
