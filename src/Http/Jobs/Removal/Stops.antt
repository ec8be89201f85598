-- ===== src/Http/Jobs/Removal/Stops.antt =====
-- A deletion where a file of the job cannot be removed from the disk.
use luxury_video_tool.Base.{
  ℕ, ◌≡◌, refl, sym, subst, String, Bool, true, false, List, [], ◌∷◌, if◌then◌else◌, arith,
  Bool-cases, inl, inr, str_eq, eq_iff,
}
use luxury_video_tool.Sql.{exists}
use luxury_video_tool.Files.Repository.{list_by_job}
use luxury_video_tool.Jobs.Model.{File, Db, is_terminal}
use luxury_video_tool.Jobs.Repository.Select.{FoundJob}
use luxury_video_tool.Http.Jobs.{undeletable}
use luxury_video_tool.Http.Jobs.Removal.{owned_files, remove_files, delete_found}
use luxury_video_tool.Http.Keeps.{Keeps, Rely, Keeps-give, Keeps-if, Keeps-looked, Keeps-remove}
use luxury_video_tool.Http.Response.{Response, fails_with}
use luxury_video_tool.Http.Run.{
  World, Dependencies, Outside, Outcome, done, answered, Exec, ◌>>=◌, ◌>>◌, unless_answer, give,
  ask, call, remove,
}

abbrev pub lies_at : String → File → Bool
lies_at path f = str_eq f.relative_path path

-- `m` answers before its end and keeps what `P` says of the tables.
abbrev pub StopsAt {ℓ} : {A : Type ℓ} → (Db → Type 0) → Exec A → World → Type ℓ
StopsAt P m w = ((r : Response) × ((m w).0 ≡ answered r)) × P (m w).1.state.db

module _ {ℓ κ} {A : Type ℓ} {B : Type κ} (P : Db → Type 0) (m : Exec A) (f : A → Exec B)
    (w : World) where
  stops_first : StopsAt P m w → StopsAt P (m >>= f) w
  unfolding ◌>>=◌
  stops_first ((r, e), h) = rw e ((r, refl), h)

  stops_value : (a : A) → (m w).0 ≡ done a → StopsAt P (f a) (m w).1 → StopsAt P (m >>= f) w
  unfolding ◌>>=◌
  stops_value a e h = rw e h

  stops_later :
      Keeps P m
      → P w.state.db
      → ((a : A) (v : World) → P v.state.db → StopsAt P (f a) v)
      → StopsAt P (m >>= f) w
  unfolding ◌>>=◌
  stops_later k h l = goes (m w).0 refl (k.at w h)
    where
      goes : (x : Outcome A) → (m w).0 ≡ x → P (m w).1.state.db → StopsAt P (m >>= f) w
      goes (done a) e g = rw e (l a (m w).1 g)
      goes (answered r) e g = rw e ((r, refl), g)

module _ {ℓ κ} {A : Type ℓ} {B : Type κ} (P : Db → Type 0) (f : A → Exec B) (w : World) where
  stops_refused :
      (b : Bool) (r : Response) (a : A)
      → b ≡ false
      → P w.state.db
      → StopsAt P (give (if b then done a else answered r) >>= f) w
  unfolding ◌>>=◌ give
  stops_refused b r a e h = rw e ((r, refl), h)

  stops_given :
      (b : Bool) (r : Response) (a : A)
      → b ≡ true
      → StopsAt P (f a) w
      → StopsAt P (give (if b then done a else answered r) >>= f) w
  unfolding ◌>>=◌ give
  stops_given b r a e h = rw e h

stops_if {ℓ} :
    {A : Type ℓ} (P : Db → Type 0) (b : Bool) (m n : Exec A) (w : World)
    → b ≡ true
    → StopsAt P m w
    → StopsAt P (if b then m else n) w
stops_if P b m n w e h = rw e h

remove_stuck :
    (o : Outside) (path : String) (w : World)
    → ((t : ℕ) → o.removes t path ≡ false)
    → (remove o path w).0 ≡ done false
unfolding remove ask ◌>>=◌
remove_stuck o path w stuck = rw (stuck w.turn) refl

-- The rest of a removal that went well, and of one that did not.
stops_removed :
    (P : Db → Type 0) (o : Outside) (deps : Dependencies) (fs : List File) (removed : Bool)
    (w : World)
    → P w.state.db
    → (removed ≡ true → StopsAt P (remove_files o deps fs) w)
    → StopsAt P
        (unless_answer removed (fails_with 500 "FILE_DELETE_FAILED" "删除任务文件失败" true)
          >> remove_files o deps fs)
        w
unfolding ◌>>=◌ give
stops_removed P o deps fs true w h rest = rest refl
stops_removed P o deps fs false w h rest = ((_, refl), h)

module _ (P : Db → Type 0) (o : Outside) (deps : Dependencies) (rely : Rely o P) (path : String)
    (stuck : (t : ℕ) → o.removes t path ≡ false) where
  removal_stops :
      (fs : List File) (w : World)
      → exists (lies_at path) fs ≡ true
      → P w.state.db
      → StopsAt P (remove_files o deps fs) w
  unfolding exists remove_files
  removal_stops [] w there h = absurd (ground arith)
  removal_stops (f ∷ fs) w there h =
      let rest : (v : World)
          → exists (lies_at path) fs ≡ true
          → P v.state.db
          → StopsAt P (remove_files o deps fs) v =
        λ v. removal_stops fs v in
      elim (Bool-cases (lies_at path f)) [
        | inl e ↦
            stops_value P (remove o f.relative_path) _ w false
              (remove_stuck o f.relative_path w (
                subst (λ p. (t : ℕ) → o.removes t p ≡ false)
                  (sym ((eq_iff f.relative_path path).0 e)) stuck))
              (stops_removed P o deps fs false _ ((Keeps-remove o rely f.relative_path).at w h)
                (λ n. absurd (ground arith)))
        | inr e ↦
            stops_later P (remove o f.relative_path) _ w (Keeps-remove o rely f.relative_path) h
              (λ removed v g. stops_removed P o deps fs removed v g (λ n. rest v (ground arith) g))
      ]

  owned_found :
      (user_id job_id : String) (w : World)
      → deps.has_files ≡ true
      → o.fault w.turn ≡ false
      → (owned_files o deps user_id job_id w).0
        ≡ done (list_by_job user_id job_id (o.others w.turn w.state).db.files)
  unfolding call ask ◌>>=◌ give
  owned_found user_id job_id w there here = rw (there, here) refl

  Keeps-owned : (user_id job_id : String) → Keeps P (owned_files o deps user_id job_id)
  Keeps-owned user_id job_id =
      Keeps-if deps.has_files _ _ (Keeps-looked o rely _ _ (λ x. Keeps-give _)) (Keeps-give _)

-- The deletion of a job that was found, where the list of its files can be read and one of them
-- cannot be removed from the disk: it is refused before anything goes from the tables, so whatever
-- other requests and workers keep of the tables is kept.
pub delete_found-refused :
    (o : Outside) (deps : Dependencies) (user_id job_id : String) (f : FoundJob) (w : World)
    (path : String) (P : Db → Type 0)
    → Rely o P
    → P w.state.db
    → deps.has_files ≡ true
    → deps.has_storage ≡ true
    → o.fault w.turn ≡ false
    → exists (lies_at path) (list_by_job user_id job_id (o.others w.turn w.state).db.files) ≡ true
    → ((t : ℕ) → o.removes t path ≡ false)
    → ((r : Response) × ((delete_found o deps user_id job_id f w).0 ≡ answered r))
      × P (delete_found o deps user_id job_id f w).1.state.db
unfolding delete_found
delete_found-refused o deps user_id job_id f w path P rely h files storage here there stuck =
    elim (Bool-cases (is_terminal f.job.status)) [
      | inr busy ↦ stops_refused P _ w (is_terminal f.job.status) undeletable tt busy h
      | inl over ↦ stops_given P _ w (is_terminal f.job.status) undeletable tt over (
          stops_value P (owned_files o deps user_id job_id) _ w _
            (owned_found P o deps rely path stuck user_id job_id w files here)
            (stops_first P _ _ _ (
              stops_if P deps.has_storage _ _ _ storage (
                removal_stops P o deps rely path stuck _ _ there
                  ((Keeps-owned P o deps rely path stuck user_id job_id).at w h)))))
    ]
