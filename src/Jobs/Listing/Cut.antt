-- ===== src/Jobs/Listing/Cut.antt =====
-- What the sorting and the cutting of a page keep.
use luxury_video_tool.Base.{
  ℕ, zero, suc, ◌≤◌, ◌≡◌, refl, ap, Bool, true, List, [], ◌∷◌, map, length, All, arith, Bool-cases,
  inl, inr,
}
use luxury_video_tool.Sql.{select}
use luxury_video_tool.Jobs.Model.{Job, Db}
use luxury_video_tool.Jobs.Repository.Select.{FoundJob}
use luxury_video_tool.Jobs.Listing.{
  ListInput, comes_first, insert_row, newest_first, take, skip, page_of, with_files,
}

select-All : (p : Job → Bool) (rs : List Job) → All (λ r. p r ≡ true) (select p rs)
unfolding select
select-All p [] = tt
select-All p (r ∷ rs) = elim (Bool-cases (p r)) [
  | inl e ↦ rw e (e, select-All p rs)
  | inr e ↦ rw e (select-All p rs)
]

module _ (P : Job → Type 0) where
  insert_row-All : (r : Job) (rs : List Job) → P r → All P rs → All P (insert_row r rs)
  unfolding insert_row
  insert_row-All r [] h hs = (h, tt)
  insert_row-All r (x ∷ xs) h hs = elim (Bool-cases (comes_first r x)) [
    | inl e ↦ rw e (h, hs)
    | inr e ↦ rw e (hs.0, insert_row-All r xs h hs.1)
  ]

  newest_first-All : (rs : List Job) → All P rs → All P (newest_first rs)
  unfolding newest_first
  newest_first-All [] h = tt
  newest_first-All (r ∷ rs) h = insert_row-All r (newest_first rs) h.0 (newest_first-All rs h.1)

  skip-All : (n : ℕ) (rs : List Job) → All P rs → All P (skip n rs)
  unfolding skip
  skip-All zero rs h = h
  skip-All (suc n) [] h = tt
  skip-All (suc n) (r ∷ rs) h = skip-All n rs h.1

  take-All : (n : ℕ) (rs : List Job) → All P rs → All P (take n rs)
  unfolding take
  take-All zero rs h = tt
  take-All (suc n) [] h = tt
  take-All (suc n) (r ∷ rs) h = (h.0, take-All n rs h.1)

map-All :
    (P : FoundJob → Type 0) (f : Job → FoundJob) (rs : List Job)
    → All (λ r. P (f r)) rs
    → All P (map f rs)
map-All P f [] h = tt
map-All P f (r ∷ rs) h = (h.0, map-All P f rs h.1)

take-length : (n : ℕ) (rs : List Job) → length (take n rs) ≤ n
unfolding take
take-length zero rs = omega arith
take-length (suc n) [] = omega arith
take-length (suc n) (r ∷ rs) = omega (arith, take-length n rs)

length-map : (f : Job → FoundJob) (rs : List Job) → length (map f rs) ≡ length rs
length-map f [] = refl
length-map f (r ∷ rs) = ap suc (length-map f rs)

pub page_of-All :
    (p : Job → Bool) (input : ListInput) (db : Db)
    → All (λ f. p f.job ≡ true) (page_of p input db).items
      × (length (page_of p input db).items ≤ input.limit)
unfolding page_of
page_of-All p input db =
    let found : List Job = newest_first (select p db.jobs) in
    let rows = newest_first-All (λ r. p r ≡ true) (select p db.jobs) (select-All p db.jobs) in
    (
      map-All (λ f. p f.job ≡ true) (with_files db) (take input.limit (skip input.offset found))
          (take-All (λ r. p r ≡ true) input.limit (skip input.offset found)
            (skip-All (λ r. p r ≡ true) input.offset found rows)),
      omega (
        arith,
        length-map (with_files db) (take input.limit (skip input.offset found)),
        take-length input.limit (skip input.offset found),
      ),
    )
