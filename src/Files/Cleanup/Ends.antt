-- ===== src/Files/Cleanup/Ends.antt =====
-- What Once leaves, and when it ends.
use native.Mathlib.Nat.{le_trans}
use luxury_video_tool.Base.{
  ℕ, zero, suc, ◌+◌, ◌≤◌, ◌<◌, ◌≡◌, ◌⊎◌, refl, String, none, some, Bool, true, false, List, [], ◌∷◌,
  str_eq, eq_refl, ◌∙◌, arith, All, All-map, length, ltb, Bool-cases, inl, inr,
}
use luxury_video_tool.Sql.{update, affected, select, exists, order_by}
use luxury_video_tool.Sql.Laws.{update-All, order_by-All}
use luxury_video_tool.Sql.Selects.{All-select, All-limit, limit_uncut, exists-order_by, update_each}
use luxury_video_tool.Jobs.Model.{File}
use luxury_video_tool.Files.Repository.{
  expired, mark_deleted, is_live, is_live_with, has_expired, expiry,
}
use luxury_video_tool.Files.Cleanup.{Sweep, sweep_file, sweep_all, batch, sweep_batch, once}

-- An expired row has its own id among the ids that are selected.
selected :
    (t : ℕ) (fs : List File)
    → All
        (λ g.
          has_expired t g ≡ true
          → exists (λ f. str_eq g.id f.id) (select (has_expired t) fs) ≡ true)
        fs
unfolding exists select
selected t [] = tt
selected t (f ∷ fs) = (
  (λ e. ground (arith, eq_refl f.id)),
  All-map _ _ (λ g h e. ground (arith, h e)) fs (selected t fs),
)

-- A live row is live under its own id.
live_own : (fs : List File) → All (λ g. is_live g ≡ true → 1 ≤ affected (is_live_with g.id) fs) fs
unfolding affected
live_own [] = tt
live_own (f ∷ fs) = (
  (λ e. ground (arith, eq_refl f.id)),
  All-map _ _ (λ g h e. ground (arith, h e)) fs (live_own fs),
)

marked-le :
    (id : String) (at : ℕ) (fs : List File)
    → affected is_live (mark_deleted id at fs) + affected (is_live_with id) fs ≤ affected is_live fs
unfolding affected mark_deleted update
marked-le id at [] = omega arith
marked-le id at (f ∷ fs) = ground (arith, marked-le id at fs)

not_yet : (t u : ℕ) (g : File) → t ≤ u → has_expired u g ≡ false → has_expired t g ≡ false
not_yet t u g l h = ground arith

live_of_expired : (u : ℕ) (g : File) → has_expired u g ≡ true → is_live g ≡ true
live_of_expired u g h = ground arith

part : (n : ℕ) → ltb n 100 ≡ true → n < 100
part n h = ground arith

full : (n : ℕ) → ltb n 100 ≡ false → 100 ≤ n
full n h = ground arith

module _ (removes : String → Bool) (clock : ℕ → ℕ) (asks marks : ℕ → Bool) where
  swept-le :
      (fs : List File) (s : Sweep)
      → affected is_live (sweep_all removes clock asks marks fs s).files ≤ affected is_live s.files
  unfolding sweep_all sweep_file
  swept-le [] s = omega arith
  swept-le (f ∷ fs) s = ground (
    arith,
    swept-le fs (sweep_file removes clock asks marks f s),
    marked-le f.id (clock s.reads) s.files,
  )

  reads-le :
      (fs : List File) (s : Sweep) → s.reads ≤ (sweep_all removes clock asks marks fs s).reads
  unfolding sweep_all sweep_file
  reads-le [] s = omega arith
  reads-le (f ∷ fs) s = ground (arith, reads-le fs (sweep_file removes clock asks marks f s))

  abbrev Removable : List File → Type 0
  Removable fs = All (λ f. removes f.relative_path ≡ true) fs

  swept-Removable :
      (fs : List File) (s : Sweep)
      → Removable s.files
      → Removable (sweep_all removes clock asks marks fs s).files
  unfolding sweep_all sweep_file mark_deleted
  swept-Removable [] s h = h
  swept-Removable (f ∷ fs) s h =
      let marked =
        update-All (λ g. removes g.relative_path ≡ true) (is_live_with f.id)
          (λ g. record g { deleted_at = some (clock s.reads) }) (λ g r e. r) s.files h in
      swept-Removable fs (sweep_file removes clock asks marks f s)
        (elim (Bool-cases (removes f.relative_path)) [
          | inr e ↦ rw e h
          | inl e ↦ elim (Bool-cases (marks s.reads)) [
            | inl g ↦ rw (e, g) marked
            | inr g ↦ rw (e, g) h
          ]
        ])

  -- Where every expired row has an id of the batch, none is left when the batch is swept.
  swept-cleared :
      (t : ℕ) (fs : List File) (s : Sweep)
      → ((n : ℕ) → marks n ≡ true)
      → Removable fs
      → All (λ g. has_expired t g ≡ true → exists (λ f. str_eq g.id f.id) fs ≡ true) s.files
      → All (λ g. has_expired t g ≡ false) (sweep_all removes clock asks marks fs s).files
  unfolding sweep_all sweep_file mark_deleted exists
  swept-cleared t [] s m r h = All-map _ _ (λ g i. ground (arith, i)) s.files h
  swept-cleared t (f ∷ fs) s m r h =
      swept-cleared t fs (sweep_file removes clock asks marks f s) m r.1 (
        rw (r.0, m s.reads)
          (update_each _ _ (is_live_with f.id) (λ g. record g { deleted_at = some (clock s.reads) })
            (λ g i e d. absurd (ground arith)) (λ g i e d. ground (arith, i d)) s.files h))

  batch-All {κ} :
      (P : File → Type κ) (s : Sweep)
      → All (λ g. has_expired (clock s.reads) g ≡ true → P g) s.files
      → All P (batch removes clock asks marks s)
  unfolding batch expired
  batch-All P s h =
      All-limit P 100 _
        (order_by-All P expiry _ (All-select P (has_expired (clock s.reads)) s.files h))

  -- A full batch of files that can be removed leaves fewer live ones.
  swept-lt :
      (fs : List File) (s : Sweep)
      → ((n : ℕ) → marks n ≡ true)
      → 100 ≤ length fs
      → Removable fs
      → All (λ g. 1 ≤ affected (is_live_with g.id) s.files) fs
      → affected is_live (sweep_all removes clock asks marks fs s).files < affected is_live s.files
  unfolding sweep_all sweep_file
  swept-lt [] s m n r h = absurd (omega arith)
  swept-lt (f ∷ fs) s m n r h = ground (
    arith,
    r.0,
    m s.reads,
    h.0,
    swept-le fs (sweep_file removes clock asks marks f s),
    marked-le f.id (clock s.reads) s.files,
  )

  -- A batch that the limit did not cut has every expired row.
  batch_whole :
      (s : Sweep)
      → length (batch removes clock asks marks s) < 100
      → All
          (λ g.
            has_expired (clock s.reads) g ≡ true
            → exists (λ f. str_eq g.id f.id) (batch removes clock asks marks s) ≡ true)
          s.files
  unfolding batch expired
  batch_whole s n =
      rw (limit_uncut 100 (order_by expiry (select (has_expired (clock s.reads)) s.files)) n) (
        All-map _ _ (λ g h e. exists-order_by _ expiry _ ∙ h e) s.files
          (selected (clock s.reads) s.files))

  module _ (later : (a b : ℕ) → a ≤ b → clock a ≤ clock b) where
    -- Where the clock never goes back, every file of the table can be removed, and every removal can
    -- be recorded, Once ends with more rounds of fuel than there are live files, and then no file is
    -- left that had expired when it began, unless a query for the expired files has failed.
    pub once_clears :
        (fuel t : ℕ) (s : Sweep)
        → ((n : ℕ) → marks n ≡ true)
        → t ≤ clock s.reads
        → affected is_live s.files < fuel
        → Removable s.files
        → (s' : Sweep) × (once removes clock asks marks fuel s ≡ some s')
          × (All (λ g. has_expired t g ≡ false) s'.files
              ⊎ ((n : ℕ) × (s.reads ≤ n) × (asks n ≡ false) × (s'.reads ≡ n + 1)))
    unfolding once sweep_batch
    once_clears zero t s m l n r = absurd (omega arith)
    once_clears (suc fuel) t s m l n r =
        let able =
          batch-All (λ g. removes g.relative_path ≡ true) s (All-map _ _ (λ g h e. h) s.files r) in
        elim (Bool-cases (asks s.reads)) [
          | inr fails ↦ (
            record s { reads = s.reads + 1 },
            rw fails refl,
            inr (s.reads, omega arith, fails, refl),
          )
          | inl asked ↦ elim (Bool-cases (ltb (length (batch removes clock asks marks s)) 100)) [
            | inl e ↦ (
              sweep_batch removes clock asks marks s,
              rw (asked, e) refl,
              inl (
                  All-map _ _ (λ g h. not_yet t (clock s.reads) g l h) _
                    (swept-cleared (clock s.reads) (batch removes clock asks marks s)
                      (record s { reads = s.reads + 1 }) m able (batch_whole s (part _ e)))),
            )
            | inr e ↦
                let fewer =
                  swept-lt (batch removes clock asks marks s) (record s { reads = s.reads + 1 }) m
                    (full _ e) able
                    (batch-All _ s (
                      All-map _ _ (λ g h x. h (live_of_expired _ g x)) s.files
                        (live_own s.files))) in
                let more =
                  reads-le (batch removes clock asks marks s) (record s { reads = s.reads + 1 }) in
                let rest =
                  once_clears fuel t (sweep_batch removes clock asks marks s) m
                    (le_trans l (later s.reads _ (omega (arith, more)))) (omega (arith, fewer))
                    (swept-Removable (batch removes clock asks marks s)
                      (record s { reads = s.reads + 1 }) r) in
                (rest.0, rw (asked, e) rest.1, since rest.0 s.reads _ (omega (arith, more)) rest.2)
          ]
        ]
      where
        since :
            {Q : Type 0} (s' : Sweep) (a b : ℕ)
            → a ≤ b
            → Q ⊎ ((n : ℕ) × (b ≤ n) × (asks n ≡ false) × (s'.reads ≡ n + 1))
            → Q ⊎ ((n : ℕ) × (a ≤ n) × (asks n ≡ false) × (s'.reads ≡ n + 1))
        since s' a b l (inl q) = inl q
        since s' a b l (inr (n, h, e, at)) = inr (n, le_trans l h, e, at)

  swept_unmoved :
      (fs : List File) (s : Sweep)
      → All (λ f. removes f.relative_path ≡ false) fs
      → sweep_all removes clock asks marks fs s ≡ s
  unfolding sweep_all sweep_file
  swept_unmoved [] s h = refl
  swept_unmoved (f ∷ fs) s h = rw h.0 (swept_unmoved fs s h.1)

  -- Where no query for the expired files fails, each batch is full, and no file of it can be
  -- removed, Once never ends.
  pub once_stuck :
      (files : List File)
      → ((n : ℕ) → asks n ≡ true)
      → ((n : ℕ)
          → (length (expired (clock n) 100 files) ≡ 100)
            × All (λ f. removes f.relative_path ≡ false) (expired (clock n) 100 files))
      → (fuel reads : ℕ)
      → once removes clock asks marks fuel (record { files = files; reads = reads }) ≡ none
  unfolding once sweep_batch batch
  once_stuck files asked h zero reads = refl
  once_stuck files asked h (suc fuel) reads =
      let here = h reads in
      let unmoved =
        swept_unmoved (expired (clock reads) 100 files)
          (record { files = files; reads = reads + 1 }) here.1 in
      rw (asked reads, here.0, unmoved) (once_stuck files asked h fuel (reads + 1))
