-- ===== src/Http/Keeps/Own.antt =====
-- What the parts of the handlers of a user's own jobs keep.
use luxury_video_tool.Base.{
  ℕ, zero, suc, String, Option, none, some, Bool, true, false, List, [], ◌∷◌,
}
use luxury_video_tool.Audit.{Event}
use luxury_video_tool.Jobs.Model.{
  Db, File, Result, ok, err, not_found, not_cancellable, not_retryable, not_deletable,
  idempotency_conflict, invalid_options, constraint_failed, lease_lost,
}
use luxury_video_tool.Jobs.Repository.Select.{FoundJob}
use luxury_video_tool.Http.Files.{download_file}
use luxury_video_tool.Http.Jobs.{
  waited, seen, is_cancelled, await_cancel, if_stopped, after_cancel, cancel_job, retry_call,
}
use luxury_video_tool.Http.Jobs.Removal.{owned_files, remove_files, delete_found}
use luxury_video_tool.Http.Keeps.{
  Keeps, Rely, Guarantee, Keeps-give, Keeps-bind, Keeps-then, Keeps-if, Keeps-call, Keeps-look,
  Keeps-remove, Keeps-asked, Keeps-looked, Keeps-called,
}
use luxury_video_tool.Http.Request.{Request}
use luxury_video_tool.Http.Run.{Dependencies, Outside, Exec}
use luxury_video_tool.Http.Session.{audit_row, write_event, record_audit}

module _ (o : Outside) {P : Db → Type 0} (rely : Rely o P) where
  module _ (deps : Dependencies) (r : Request) (request_id : String) where
    Keeps-audit_row :
        (event : Event) (id : Option String) → Keeps P (audit_row o deps r request_id event id)
    Keeps-audit_row event none = Keeps-give _
    Keeps-audit_row event (some id) =
        Keeps-asked o rely _ _ (λ at. Keeps-called o rely _ _ (λ d h. h) (λ x. Keeps-give _))

    pub Keeps-write_event : (event : Event) → Keeps P (write_event o deps r request_id event)
    unfolding write_event
    Keeps-write_event event =
        Keeps-if deps.has_audit _ _ (Keeps-asked o rely _ _ (Keeps-audit_row event)) (Keeps-give _)

    pub Keeps-record_audit :
        (user_id action target metadata : String)
        → Keeps P (record_audit o deps r request_id user_id action target metadata)
    unfolding record_audit
    Keeps-record_audit user_id action target metadata = Keeps-write_event _

  Keeps-seen :
      (found : Option (Result FoundJob)) (m : Exec (Option (Result FoundJob)))
      → Keeps P m
      → Keeps P (seen o found m)
  Keeps-seen none m k = k
  Keeps-seen (some (err e)) m k = k
  Keeps-seen (some (ok f)) m k = Keeps-if (is_cancelled f) _ _ (Keeps-give _) k

  Keeps-waited :
      (gone : Bool) (m : Exec (Option (Result FoundJob))) → Keeps P m → Keeps P (waited o gone m)
  Keeps-waited true m k = Keeps-give _
  Keeps-waited false m k = k

  Keeps-await_cancel :
      (ticks : ℕ) (user_id job_id : String) → Keeps P (await_cancel o ticks user_id job_id)
  unfolding await_cancel
  Keeps-await_cancel zero user_id job_id = Keeps-give _
  Keeps-await_cancel (suc ticks) user_id job_id =
      let rest : Keeps P (await_cancel o ticks user_id job_id) =
        Keeps-await_cancel ticks user_id job_id in
      Keeps-asked o rely _ _
        (λ gone. Keeps-waited gone _ (Keeps-looked o rely _ _ (λ found. Keeps-seen found _ rest)))

  Keeps-if_stopped : (user_id job_id : String) (b : Bool) → Keeps P (if_stopped o user_id job_id b)
  Keeps-if_stopped user_id job_id true = Keeps-await_cancel 100 user_id job_id
  Keeps-if_stopped user_id job_id false = Keeps-give _

  Keeps-after_cancel :
      (user_id job_id : String) (x : Option (Result Bool))
      → Keeps P (after_cancel o user_id job_id x)
  Keeps-after_cancel user_id job_id none = Keeps-give _
  Keeps-after_cancel user_id job_id (some (ok b)) = Keeps-look o rely _
  Keeps-after_cancel user_id job_id (some (err not_cancellable)) =
      Keeps-asked o rely _ _ (Keeps-if_stopped user_id job_id)
  Keeps-after_cancel user_id job_id (some (err not_found)) = Keeps-give _
  Keeps-after_cancel user_id job_id (some (err lease_lost)) = Keeps-give _
  Keeps-after_cancel user_id job_id (some (err not_retryable)) = Keeps-give _
  Keeps-after_cancel user_id job_id (some (err not_deletable)) = Keeps-give _
  Keeps-after_cancel user_id job_id (some (err idempotency_conflict)) = Keeps-give _
  Keeps-after_cancel user_id job_id (some (err invalid_options)) = Keeps-give _
  Keeps-after_cancel user_id job_id (some (err constraint_failed)) = Keeps-give _

  module _ (user_id : String) (g : Guarantee user_id P) where
    pub Keeps-cancel_job : (job_id : String) → Keeps P (cancel_job o user_id job_id)
    unfolding cancel_job
    Keeps-cancel_job job_id = Keeps-asked o rely _ _ (λ at.
        Keeps-called o rely _ _ (λ d h. g.cancels job_id at d.db h)
          (Keeps-after_cancel user_id job_id))

    pub Keeps-retry_call : (job_id : String) → Keeps P (retry_call o user_id job_id)
    unfolding retry_call
    Keeps-retry_call job_id =
        Keeps-asked o rely _ _ (λ at. Keeps-call o rely _ (λ d h. g.retries job_id at d.db h))

    Keeps-remove_files : (deps : Dependencies) (fs : List File) → Keeps P (remove_files o deps fs)
    unfolding remove_files
    Keeps-remove_files deps [] = Keeps-give _
    Keeps-remove_files deps (f ∷ fs) =
        let rest : Keeps P (remove_files o deps fs) = Keeps-remove_files deps fs in
        Keeps-bind _ _ (Keeps-remove o rely f.relative_path) (λ removed. Keeps-then _ _ (λ x. rest))

    Keeps-owned_files :
        (deps : Dependencies) (job_id : String) → Keeps P (owned_files o deps user_id job_id)
    Keeps-owned_files deps job_id =
        Keeps-if deps.has_files _ _ (Keeps-looked o rely _ _ (λ x. Keeps-give _)) (Keeps-give _)

    pub Keeps-delete_found :
        (deps : Dependencies) (job_id : String) (f : FoundJob)
        → Keeps P (delete_found o deps user_id job_id f)
    unfolding delete_found
    Keeps-delete_found deps job_id f = Keeps-then _ _ (λ x.
        Keeps-bind _ _ (Keeps-owned_files deps job_id) (λ owned.
          Keeps-bind _ _
            (Keeps-if deps.has_storage _ _ (Keeps-remove_files deps owned) (Keeps-give _))
            (λ y. Keeps-called o rely _ _ (λ d h. g.deletes job_id d.db h) (λ z. Keeps-give _))))

  pub Keeps-download_file : (f : File) → Keeps P (download_file o f)
  unfolding download_file
  Keeps-download_file f = Keeps-asked o rely _ _ (λ opened.
      Keeps-then _ _ (λ x. Keeps-asked o rely _ _ (λ known. Keeps-then _ _ (λ y. Keeps-give _))))
