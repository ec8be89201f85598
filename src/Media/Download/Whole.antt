-- ===== src/Media/Download/Whole.antt =====
-- What a download leaves on the disk.
use luxury_video_tool.Base.{
  ℕ, zero, suc, ◌+◌, ◌≤◌, ◌≡◌, refl, ap, String, Option, none, some, Bool, true, false, not, ◌||◌,
  List, [], ◌∷◌, ltb, leb, ◌==◌, eq_refl, length, arith, Bool-cases, inl, inr,
}
use luxury_video_tool.Sql.{delete, exists, limit}
use luxury_video_tool.Resolver.Hosts.{Url, valid_media_url}
use luxury_video_tool.Media.Download.{
  Outcome, success, failure, DownloadResult, Disk, Response, is_at, unlink, announces_more, store,
  receive, download,
}

-- A name that is not on the disk is not there after its file was made and removed again, and the
-- disk is as it was.
delete_absent {ℓ} :
    {A : Type ℓ} (p : A → Bool) (xs : List A) → exists p xs ≡ false → delete p xs ≡ xs
unfolding delete exists
delete_absent p [] h = refl
delete_absent p (x ∷ xs) h = ground (arith, delete_absent p xs)

unlinked_new :
    (path : String) (bytes : List ℕ) (disk : Disk)
    → exists (is_at path) disk ≡ false
    → unlink path ((path, bytes) ∷ disk) ≡ disk
unfolding unlink delete
unlinked_new path bytes disk h = rw (eq_refl path) (delete_absent (is_at path) disk h)

limit_within {ℓ} :
    {A : Type ℓ} (n : ℕ) (xs : List A) → length (limit (suc n) xs) ≤ n → limit (suc n) xs ≡ xs
unfolding limit
limit_within {A = A} n [] h = refl
limit_within {A = A} zero (x ∷ xs) h = absurd (omega arith)
limit_within {A = A} (suc n) (x ∷ xs) h =
    ap (λ (r : List A). x ∷ r) (limit_within n xs (omega arith))

limit_more :
    (n : ℕ) (xs : List ℕ) → ltb n (length (limit (n + 1) xs)) ≡ false → limit (n + 1) xs ≡ xs
limit_more n xs h =
    let one : n + 1 ≡ suc n = omega arith in rw one (limit_within n xs (rw one at (ends _ h)))
  where
    ends : (m : ℕ) → ltb n m ≡ false → m ≤ n
    ends m k = ground arith

complete_true : (b : Bool) → not b ≡ false → b ≡ true
complete_true b h = ground arith

absent : (a b : Bool) → not a || b ≡ false → b ≡ false
absent a b h = ground arith

within : (n m : ℕ) → ltb n m ≡ false → m ≤ n
within n m h = ground arith

-- The disk afterwards: as it was, but for the final file where there is one.
abbrev pub IsWhole :
    (List ℕ → String) → String → ℕ → Option Response → Disk → Disk × Outcome DownloadResult → Type 0
IsWhole digest final max_bytes response disk (disk', failure e) = disk' ≡ disk
IsWhole digest final max_bytes none disk (disk', success r) = ⊥
IsWhole digest final max_bytes (some s) disk (disk', success r) =
    (disk' ≡ (final, s.body) ∷ unlink final disk)
    × (r.size_bytes ≡ length s.body)
    × (length s.body ≤ max_bytes)
    × (r.sha256 ≡ digest s.body)
    × (s.complete ≡ true)

module _ (digest : List ℕ → String) (temporary final : String) (max_bytes : ℕ)
    (opens closes renames : Bool) (disk : Disk) where
  store-IsWhole :
      (s : Response)
      → exists (is_at temporary) disk ≡ false
      → IsWhole digest final max_bytes
          (some s)
          disk
          (store digest temporary final max_bytes s closes renames disk)
  unfolding store
  store-IsWhole s h =
      let gone = unlinked_new temporary (limit (max_bytes + 1) s.body) disk h in
      elim (Bool-cases (ltb max_bytes (length (limit (max_bytes + 1) s.body)))) [
        | inl f ↦ rw f gone
        | inr f ↦ elim (Bool-cases (not s.complete)) [
          | inl e ↦ rw (f, e) gone
          | inr e ↦ elim (Bool-cases (not closes || not renames)) [
            | inl g ↦ rw (f, e, g) gone
            | inr g ↦
                let whole = limit_more max_bytes s.body f in
                rw (f, e, g, gone, whole)
                  (
                    refl,
                    refl,
                    within max_bytes (length s.body) (rw whole at f),
                    refl,
                    complete_true s.complete e,
                  )
          ]
        ]
      ]

  receive-IsWhole :
      (s : Response)
      → IsWhole digest final max_bytes
          (some s)
          disk
          (receive digest temporary final max_bytes (some s) opens closes renames disk)
  unfolding receive
  receive-IsWhole s = elim (Bool-cases (ltb s.status 200 || leb 300 s.status)) [
    | inl e ↦ rw e refl
    | inr e ↦ elim (Bool-cases (announces_more max_bytes s.content_length)) [
      | inl f ↦ rw (e, f) refl
      | inr f ↦ elim (Bool-cases (not opens || exists (is_at temporary) disk)) [
        | inl g ↦ rw (e, f, g) refl
        | inr g ↦ rw (e, f, g) (store-IsWhole s (absent opens (exists (is_at temporary) disk) g))
      ]
    ]
  ]

  -- Where the removal of the temporary file succeeds, a download that fails leaves the disk as it
  -- was, without the temporary file. One that succeeds leaves the whole body of the response,
  -- within the limit, as the final file, and reports its length and digest; all other files stay.
  pub download-IsWhole :
      (url : Option Url) (response : Option Response)
      → IsWhole digest final max_bytes response disk
          (download digest url temporary final max_bytes response opens closes renames disk)
  unfolding download
  download-IsWhole none response = refl
  download-IsWhole (some url) none = elim (Bool-cases (not (valid_media_url url))) [
    | inl e ↦ rw e refl
    | inr e ↦ elim (Bool-cases (max_bytes == 0)) [ inl f ↦ rw (e, f) refl | inr f ↦ rw (e, f) refl ]
  ]
  download-IsWhole (some url) (some s) = elim (Bool-cases (not (valid_media_url url))) [
    | inl e ↦ rw e refl
    | inr e ↦ elim (Bool-cases (max_bytes == 0)) [
      | inl f ↦ rw (e, f) refl
      | inr f ↦ rw (e, f) (receive-IsWhole s)
    ]
  ]
