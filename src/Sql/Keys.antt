-- ===== src/Sql/Keys.antt =====
-- Uniqueness constraints: `same` compares two rows by the columns of a key.
use luxury_video_tool.Base.{
  ◌≡◌, refl, ◌∙◌, List, [], ◌∷◌, ◌++◌, none, some, Bool, true, false, arith, All, All-map,
  Bool-cases, inl, inr,
}
use luxury_video_tool.Sql.{update, delete, select, exists, find}
use luxury_video_tool.Sql.Laws.{update-All, delete-All}

module _ {ℓ} {A : Type ℓ} where
  pub exists_none : (p : A → Bool) (xs : List A) → exists p xs ≡ false → All (λ x. p x ≡ false) xs
  unfolding exists
  exists_none p [] h = tt
  exists_none p (x ∷ xs) h = (ground arith, exists_none p xs (ground arith))

  pub find-none : (p : A → Bool) (xs : List A) → find p xs ≡ none → All (λ x. p x ≡ false) xs
  unfolding find
  find-none p [] h = tt
  find-none p (x ∷ xs) h = elim (Bool-cases (p x)) [
    | inl e ↦ absurd (ground arith)
    | inr e ↦ (e, find-none p xs (ground arith))
  ]

  pub select_unmatched : (p : A → Bool) (xs : List A) → All (λ x. p x ≡ false) xs → select p xs ≡ []
  unfolding select
  select_unmatched p [] h = refl
  select_unmatched p (x ∷ xs) h = rw h.0 (select_unmatched p xs h.1)

  pub find-append_left :
      (q : A → Bool) (xs ys : List A) (r : A) → find q xs ≡ some r → find q (xs ++ ys) ≡ some r
  unfolding find
  find-append_left q [] ys r e = cc
  find-append_left q (x ∷ xs) ys r e = ground (arith, find-append_left q xs ys r)

  pub find_exists :
      (q p : A → Bool) (xs : List A)
      → ((x : A) → q x ≡ true → p x ≡ true)
      → {r : A} → find q xs ≡ some r
      → exists p xs ≡ true
  unfolding find exists
  find_exists q p [] i e = cc
  find_exists q p (x ∷ xs) i {r} e = elim (Bool-cases (q x)) [
    | inl t ↦ ground (arith, i x)
    | inr t ↦ ground (arith, find_exists q p xs i {r = r})
  ]

  -- A new row is found where no old row was.
  pub find-append_new :
      (q : A → Bool) (xs : List A) (a : A)
      → All (λ x. q x ≡ false) xs
      → q a ≡ true
      → find q (xs ++ a ∷ []) ≡ some a
  unfolding find
  find-append_new q [] a h e = rw e
  find-append_new q (x ∷ xs) a h e = rw h.0 (find-append_new q xs a h.1 e)

  -- A DELETE that does not match the row that is found leaves it to be found.
  pub find-delete_kept :
      (q p : A → Bool) (xs : List A) (r : A)
      → find q xs ≡ some r
      → p r ≡ false
      → find q (delete p xs) ≡ some r
  unfolding find delete
  find-delete_kept q p [] r e h = cc
  find-delete_kept q p (x ∷ xs) r e h = elim (Bool-cases (q x)) [
    | inl t ↦ let same : x ≡ r = ground arith in let kept : p x ≡ false = rw same h in ground arith
    | inr t ↦ ground (arith, find-delete_kept q p xs r)
  ]

  -- A DELETE that matches every row that could be found leaves none.
  pub find-delete_gone :
      (q p : A → Bool) (xs : List A)
      → All (λ x. q x ≡ true → p x ≡ true) xs
      → find q (delete p xs) ≡ none
  unfolding find delete
  find-delete_gone q p [] h = refl
  find-delete_gone q p (x ∷ xs) h = ground (arith, h.0, find-delete_gone q p xs h.1)

  -- What holds of every row holds of the rows that a SELECT gives.
  pub select_keeps {κ} :
      (P : A → Type κ) (p : A → Bool) (xs : List A) → All P xs → All P (select p xs)
  unfolding select
  select_keeps P p [] h = tt
  select_keeps P p (x ∷ xs) h = elim (Bool-cases (p x)) [
    | inl e ↦ rw e (h.0, select_keeps P p xs h.1)
    | inr e ↦ rw e (select_keeps P p xs h.1)
  ]

module _ {ℓ} {A : Type ℓ} (same : A → A → Bool) where
  abbrev pub Unique : List A → Type 0
  Unique [] = Unit
  Unique (x ∷ xs) = All (λ y. same y x ≡ false) xs × Unique xs

  pub update-Unique :
      (p : A → Bool) (f : A → A)
      → ((x y : A) → same (f x) y ≡ same x y)
      → ((x y : A) → same x (f y) ≡ same x y)
      → (xs : List A) → Unique xs
      → Unique (update p f xs)
  unfolding update
  update-Unique p f left right [] u = tt
  update-Unique p f left right (x ∷ xs) u = elim (Bool-cases (p x)) [
    | inl e ↦ rw e (
      update-All (λ y. same y (f x) ≡ false) p f (λ y h _. left y (f x) ∙ h) xs
          (All-map _ _ (λ y h. right y x ∙ h) xs u.0),
      update-Unique p f left right xs u.1,
    )
    | inr e ↦ rw e (
      update-All (λ y. same y x ≡ false) p f (λ y h _. left y x ∙ h) xs u.0,
      update-Unique p f left right xs u.1,
    )
  ]

  pub delete-Unique : (p : A → Bool) (xs : List A) → Unique xs → Unique (delete p xs)
  unfolding delete
  delete-Unique p [] u = tt
  delete-Unique p (x ∷ xs) u = elim (Bool-cases (p x)) [
    | inl e ↦ rw e (delete-Unique p xs u.1)
    | inr e ↦ rw e (delete-All _ p xs u.0, delete-Unique p xs u.1)
  ]

  append-All : (P : A → Type 0) (xs : List A) (a : A) → All P xs → P a → All P (xs ++ a ∷ [])
  append-All P [] a h pa = (pa, tt)
  append-All P (x ∷ xs) a h pa = (h.0, append-All P xs a h.1 pa)

  -- An INSERT of a row whose key is not in the table.
  pub append-Unique :
      (xs : List A) (a : A) → All (λ y. same a y ≡ false) xs → Unique xs → Unique (xs ++ a ∷ [])
  append-Unique [] a h u = (tt, tt)
  append-Unique (x ∷ xs) a h u =
      (append-All (λ y. same y x ≡ false) xs a u.0 h.0, append-Unique xs a h.1 u.1)

  -- A row is the only one with its key.
  pub Unique-only :
      ((x y : A) → same x y ≡ same y x)
      → (xs : List A) → Unique xs
      → All (λ y. All (λ r. same r y ≡ true → r ≡ y) xs) xs
  Unique-only swap [] u = tt
  Unique-only swap (x ∷ xs) u = (
    ((λ _. refl), All-map _ _ (λ r h t. absurd (clash h t)) xs u.0),
    both xs u.0 (Unique-only swap xs u.1),
  )
    where
      clash : {b : Bool} → b ≡ false → b ≡ true → ⊥
      clash h t = cc

      both :
          (ys : List A)
          → All (λ y. same y x ≡ false) ys
          → All (λ y. All (λ r. same r y ≡ true → r ≡ y) xs) ys
          → All (λ y. All (λ r. same r y ≡ true → r ≡ y) (x ∷ xs)) ys
      both [] h k = tt
      both (y ∷ ys) h k = (((λ t. absurd (clash (swap x y ∙ h.0) t)), k.0), both ys h.1 k.1)
