-- ===== src/Jobs/Worker/Keeps/Files.antt =====
-- The operations on the files of a job keep what its worker's statements keep.
use luxury_video_tool.Base.{ℕ, refl, String, Option, none, List, [], ◌∷◌}
use luxury_video_tool.Jobs.Model.{Job, File, Db, Result}
use luxury_video_tool.Jobs.Worker.{Cause}
use luxury_video_tool.Jobs.Worker.Run.{Exec, Scope, of_job, background, Media, Outside, statement}
use luxury_video_tool.Jobs.Worker.Files.{
  scoped_target, media_target, download, file_of, register, rollback_file, remove_all, clear_files,
  clear_stale, join, write_result, begin, end_step, failed, finish_failed, begun_step, or_remove,
}
use luxury_video_tool.Jobs.Worker.Keeps.{
  IsOwn, begins, finishes, creates, drops, drops_all, fails, Keeps, Keeps-pure, Keeps-raise,
  Keeps-attempt, Keeps-bind, Keeps-handle, Keeps-ask, Keeps-now, Keeps-query, Keeps-statement,
  Keeps-remove, Keeps-placed, Rely, Guarantee,
}

module _ (o : Outside) (owner : String) (job : Job) {P : Db → Type 0} (rely : Rely o P)
    (own : Guarantee owner job P) where
  pub Keeps-own :
      (scope : Scope) (f : Db → Db × Result (Unit {0}))
      → IsOwn owner job f
      → Keeps P (statement o scope f)
  Keeps-own scope f i = Keeps-statement o rely scope f (λ db h. own f db i h)

  pub Keeps-scoped_target :
      (scope user_id job_id ext : String) → Keeps P (scoped_target o scope user_id job_id ext)
  unfolding scoped_target
  Keeps-scoped_target scope user_id job_id ext = Keeps-query o rely _

  pub Keeps-media_target :
      (user_id job_id ext : String) → Keeps P (media_target o user_id job_id ext)
  unfolding media_target
  Keeps-media_target user_id job_id ext = Keeps-query o rely _

  pub Keeps-download : (url path : String) → Keeps P (download o url path)
  unfolding download
  Keeps-download url path =
      Keeps-bind _ _ (Keeps-query o rely _)
        (λ media. Keeps-bind _ _ (Keeps-placed o rely path) (λ _. Keeps-pure media))

  pub Keeps-begin : (step_id name : String) (at : ℕ) → Keeps P (begin o job step_id name at)
  unfolding begin
  Keeps-begin step_id name at = Keeps-own of_job _ (begins (begun_step job step_id name at) refl)

  pub Keeps-end_step :
      (step_id status code message : String) (at : ℕ)
      → Keeps P (end_step o step_id status code message at)
  unfolding end_step
  Keeps-end_step step_id status code message at =
      Keeps-bind _ _
        (Keeps-attempt _ (Keeps-own background _ (finishes step_id status code message "{}" at)))
        (λ _. Keeps-pure tt)

  pub Keeps-or_remove {ℓ} :
      {A : Type ℓ} (relative : String) (m : Exec A) → Keeps P m → Keeps P (or_remove o relative m)
  unfolding or_remove
  Keeps-or_remove relative m k =
      Keeps-handle m _ _ k Keeps-pure
        (λ c. Keeps-bind _ _ (Keeps-remove o rely relative) (λ _. Keeps-raise c))

  pub Keeps-register :
      (at : ℕ) (kind relative name : String) (media : Media) (expires : Option ℕ)
      → Keeps P (register o at job kind relative name media expires)
  unfolding register
  Keeps-register at kind relative name media expires =
      Keeps-bind _ _ (Keeps-or_remove relative _ (Keeps-query o rely o.new_id)) (λ id.
        Keeps-bind _ _
          (Keeps-or_remove relative _ (
            Keeps-own of_job _ (
              creates (file_of at job kind relative name media expires id) (unfold file_of in refl)
                (unfold file_of in refl))))
          (λ _. Keeps-pure _))

  pub Keeps-remove_all : (files : List File) → Keeps P (remove_all o files)
  unfolding remove_all
  Keeps-remove_all [] = Keeps-pure tt
  Keeps-remove_all (f ∷ fs) =
      Keeps-bind _ _ (Keeps-remove o rely f.relative_path) (λ _. Keeps-remove_all fs)

  pub Keeps-rollback_file : (file : File) → Keeps P (rollback_file o file)
  unfolding rollback_file
  Keeps-rollback_file file =
      Keeps-handle _ _ _ (Keeps-own background _ (drops file.id))
        (λ _. Keeps-bind _ _ (Keeps-remove o rely file.relative_path) (λ _. Keeps-pure tt))
        (λ c. Keeps-pure tt)

  Keeps-clear_files : (files : List File) → Keeps P (clear_files o job files)
  unfolding clear_files
  Keeps-clear_files [] = Keeps-pure tt
  Keeps-clear_files (f ∷ fs) =
      Keeps-handle _ _ _ (Keeps-own background _ drops_all) (λ _. Keeps-remove_all (f ∷ fs))
        (λ c. Keeps-pure tt)

  pub Keeps-clear_stale : Keeps P (clear_stale o job)
  unfolding clear_stale
  Keeps-clear_stale =
      Keeps-handle _ _ _ (Keeps-statement o rely background _ (λ db h. h)) Keeps-clear_files
        (λ c. Keeps-pure tt)

  pub Keeps-write_result :
      (name ext kind mime body : String) → Keeps P (write_result o job name ext kind mime body)
  unfolding write_result
  Keeps-write_result name ext kind mime body =
      Keeps-bind _ _ (Keeps-scoped_target "results" job.user_id job.id ext) (λ relative.
        Keeps-bind _ _ (Keeps-query o rely _) (λ _.
          Keeps-bind _ _ (Keeps-placed o rely relative) (λ _.
            Keeps-bind _ _ (Keeps-now o rely) (λ at. Keeps-register at kind relative name _ none))))

  pub Keeps-failed {ℓ} : {A : Type ℓ} (cause : Cause) → Keeps P (failed o {A = A} job owner cause)
  unfolding failed
  Keeps-failed cause = Keeps-bind _ _ (Keeps-now o rely) (λ at.
      Keeps-bind _ _ (Keeps-ask o rely o.jitter) (λ random.
        Keeps-bind _ _ (Keeps-now o rely) (λ later.
          Keeps-handle _ _ _
            (Keeps-own background _ (fails (o.describe cause) cause random at later))
            (λ _. Keeps-raise cause) (λ c. Keeps-raise (join cause c)))))

  pub Keeps-finish_failed {ℓ} :
      {A : Type ℓ} (step_id : String) (cause : Cause)
      → Keeps P (finish_failed o {A = A} job owner step_id cause)
  unfolding finish_failed
  Keeps-finish_failed step_id cause =
      Keeps-bind _ _ (Keeps-now o rely)
        (λ at. Keeps-bind _ _ (Keeps-end_step step_id "failed" _ _ at) (λ _. Keeps-failed cause))
