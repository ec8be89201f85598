-- ===== src/Sql/Laws.antt =====
-- Laws of the statements: what an UPDATE, a DELETE or an ORDER BY keeps.
use luxury_video_tool.Base.{
  ℕ, ◌≤◌, ◌≡◌, refl, ap, ap₂, List, [], ◌∷◌, map, none, some, Bool, true, false, if◌then◌else◌, leb,
  arith, All, Bool-cases, inl, inr,
}
use mathlib.Core.Option
use luxury_video_tool.Sql.{update, affected, delete, select, find, insert_by, order_by, first}

module _ {ℓ κ} {A : Type ℓ} (P : A → Type κ) where
  -- An UPDATE keeps what its SET clause keeps in the rows that it matches.
  pub update-All :
      (p : A → Bool) (f : A → A)
      → ((x : A) → P x → p x ≡ true → P (f x))
      → (xs : List A) → All P xs
      → All P (update p f xs)
  unfolding update
  update-All p f keep [] h = tt
  update-All p f keep (x ∷ xs) h = elim (Bool-cases (p x)) [
    | inl e ↦ rw e (keep x h.0 e, update-All p f keep xs h.1)
    | inr e ↦ rw e (h.0, update-All p f keep xs h.1)
  ]

  -- The same, where the SET clause is only known to keep it in the rows of this table.
  pub update_within :
      (p : A → Bool) (f : A → A) (xs : List A)
      → All (λ x. P x → p x ≡ true → P (f x)) xs
      → All P xs
      → All P (update p f xs)
  unfolding update
  update_within p f [] keep h = tt
  update_within p f (x ∷ xs) keep h = elim (Bool-cases (p x)) [
    | inl e ↦ rw e (keep.0 h.0 e, update_within p f xs keep.1 h.1)
    | inr e ↦ rw e (h.0, update_within p f xs keep.1 h.1)
  ]

  -- What an UPDATE makes true where it matches, and what held elsewhere, holds of every row.
  pub update_every :
      (p : A → Bool) (f : A → A)
      → ((x : A) → p x ≡ true → P (f x))
      → ((x : A) → p x ≡ false → P x)
      → (xs : List A) → All P (update p f xs)
  unfolding update
  update_every p f hit miss [] = tt
  update_every p f hit miss (x ∷ xs) = elim (Bool-cases (p x)) [
    | inl e ↦ rw e (hit x e, update_every p f hit miss xs)
    | inr e ↦ rw e (miss x e, update_every p f hit miss xs)
  ]

  pub delete-All : (p : A → Bool) (xs : List A) → All P xs → All P (delete p xs)
  unfolding delete
  delete-All p [] h = tt
  delete-All p (x ∷ xs) h = elim (Bool-cases (p x)) [
    | inl e ↦ rw e (delete-All p xs h.1)
    | inr e ↦ rw e (h.0, delete-All p xs h.1)
  ]

  pub insert_by-All : (k : A → ℕ) (a : A) (xs : List A) → P a → All P xs → All P (insert_by k a xs)
  unfolding insert_by
  insert_by-All k a [] pa h = (pa, tt)
  insert_by-All k a (x ∷ xs) pa h = elim (Bool-cases (leb (k a) (k x))) [
    | inl e ↦ rw e (pa, h)
    | inr e ↦ rw e (h.0, insert_by-All k a xs pa h.1)
  ]

  pub order_by-All : (k : A → ℕ) (xs : List A) → All P xs → All P (order_by k xs)
  unfolding order_by
  order_by-All k [] h = tt
  order_by-All k (x ∷ xs) h = insert_by-All k x (order_by k xs) h.0 (order_by-All k xs h.1)

  pub find-All : (p : A → Bool) (xs : List A) {x : A} → All P xs → find p xs ≡ some x → P x
  unfolding find
  find-All p [] h e = cc
  find-All p (y ∷ xs) {x} h e = elim (Bool-cases (p y)) [
    | inl t ↦ let same : y ≡ x = ground (arith) in rw (← same) h.0
    | inr t ↦ find-All p xs h.1 (ground arith)
  ]

  pub first-All : (xs : List A) {x : A} → All P xs → first xs ≡ some x → P x
  unfolding first
  first-All [] h e = cc
  first-All (y ∷ xs) {x} h e = let same : y ≡ x = cc in rw (← same) h.0

module _ {ℓ} {A : Type ℓ} where
  -- A row that a SELECT gives satisfies its condition.
  pub select-All : (p : A → Bool) (xs : List A) → All (λ x. p x ≡ true) (select p xs)
  unfolding select
  select-All p [] = tt
  select-All p (x ∷ xs) = elim (Bool-cases (p x)) [
    | inl e ↦ rw e (e, select-All p xs)
    | inr e ↦ rw e (select-All p xs)
  ]

  pub find_sat : (p : A → Bool) (xs : List A) {x : A} → find p xs ≡ some x → p x ≡ true
  unfolding find
  find_sat p [] e = cc
  find_sat p (y ∷ xs) {x} e = elim (Bool-cases (p y)) [
    | inl t ↦ let same : y ≡ x = ground arith in rw (← same) t
    | inr t ↦ find_sat p xs (ground arith)
  ]

  -- An UPDATE that matches no row changes nothing.
  pub update_unmatched :
      (p : A → Bool) (f : A → A) (xs : List A) → affected p xs ≡ 0 → update p f xs ≡ xs
  unfolding update affected
  update_unmatched p f [] h = refl
  update_unmatched p f (x ∷ xs) h = elim (Bool-cases (p x)) [
    | inl e ↦ absurd (ground arith)
    | inr e ↦ rw e (ap (λ (r : List A). x ∷ r) (update_unmatched p f xs (ground arith)))
  ]

  -- A column that the SET clause leaves alone keeps its values.
  pub map-update {κ} :
      {B : Type κ} (k : A → B) (p : A → Bool) (f : A → A)
      → ((x : A) → k (f x) ≡ k x)
      → (xs : List A) → map k (update p f xs) ≡ map k xs
  unfolding update
  map-update k p f keep [] = refl
  map-update k p f keep (x ∷ xs) = elim (Bool-cases (p x)) [
    | inl e ↦ rw e (ap₂ ◌∷◌ (keep x) (map-update k p f keep xs))
    | inr e ↦ rw e (ap₂ ◌∷◌ (refl {a = k x}) (map-update k p f keep xs))
  ]

  -- A row that is looked up by columns that the UPDATE leaves alone is the old one, updated.
  pub find-update :
      (q p : A → Bool) (f : A → A)
      → ((x : A) → q (f x) ≡ q x)
      → (xs : List A)
      → find q (update p f xs) ≡ Option.map (λ x. if p x then f x else x) (find q xs)
  unfolding find update
  find-update q p f keep [] = refl
  find-update q p f keep (x ∷ xs) = ground (arith, keep x, find-update q p f keep xs)

  -- A table in which no row matches is counted as 0 rows.
  pub affected_none : (p : A → Bool) (xs : List A) → All (λ x. p x ≡ false) xs → affected p xs ≡ 0
  unfolding affected
  affected_none p [] h = refl
  affected_none p (x ∷ xs) h = rw h.0 (affected_none p xs h.1)

  -- A row that is found by `q` and matches `p` is counted.
  pub affected_found :
      (q p : A → Bool) (xs : List A) {x : A} → find q xs ≡ some x → p x ≡ true → 1 ≤ affected p xs
  unfolding find affected
  affected_found q p [] e h = cc
  affected_found q p (y ∷ xs) {x} e h = elim (Bool-cases (q y)) [
    | inl t ↦ let same : y ≡ x = ground arith in let hit : p y ≡ true = rw same h in ground arith
    | inr t ↦ ground (arith, affected_found q p xs (ground arith) h)
  ]

  -- Where the row that `q` finds is the only one that can match `p`, it decides the count.
  pub affected_implied :
      (q p : A → Bool) (xs : List A)
      → ((x : A) → q x ≡ false → p x ≡ false)
      → find q xs ≡ none
      → affected p xs ≡ 0
  unfolding find affected
  affected_implied q p [] i e = refl
  affected_implied q p (x ∷ xs) i e = elim (Bool-cases (q x)) [
    | inl t ↦ absurd (ground arith)
    | inr t ↦ ground (arith, i x, affected_implied q p xs i)
  ]

  -- What holds of the rows that a SELECT gives holds of every row that matches.
  pub All-select_back {κ} :
      (P : A → Type κ) (p : A → Bool) (xs : List A)
      → All P (select p xs)
      → All (λ x. p x ≡ true → P x) xs
  unfolding select
  All-select_back P p [] h = tt
  All-select_back P p (x ∷ xs) h = elim (Bool-cases (p x)) [
    | inl e ↦
        let h' : All P (x ∷ select p xs) = rw e at h in ((λ _. h'.0), All-select_back P p xs h'.1)
    | inr e ↦
        let h' : All P (select p xs) = rw e at h in
        ((λ t. absurd (ground arith)), All-select_back P p xs h')
  ]

  -- A SELECT without result: no row matches.
  pub select_nil : (p : A → Bool) (xs : List A) → select p xs ≡ [] → All (λ x. p x ≡ false) xs
  unfolding select
  select_nil p [] e = tt
  select_nil p (x ∷ xs) e = (ground arith, select_nil p xs (ground arith))

  -- An UPDATE as a map over the rows.
  pub update-map :
      (p : A → Bool) (f : A → A) (xs : List A)
      → update p f xs ≡ map (λ x. if p x then f x else x) xs
  unfolding update
  update-map p f [] = refl
  update-map p f (x ∷ xs) = ap (◌∷◌ (if p x then f x else x)) (update-map p f xs)

  -- A map that leaves alone the columns of a lookup.
  pub find-map :
      (q : A → Bool) (g : A → A)
      → ((x : A) → q (g x) ≡ q x)
      → (xs : List A) → find q (map g xs) ≡ Option.map g (find q xs)
  unfolding find
  find-map q g keep [] = refl
  find-map q g keep (x ∷ xs) = ground (arith, keep x, find-map q g keep xs)
