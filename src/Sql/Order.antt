-- ===== src/Sql/Order.antt =====
-- What an ORDER BY gives first.
use luxury_video_tool.Base.{
  ℕ, ◌≤◌, ◌≡◌, refl, List, [], ◌∷◌, none, some, leb, arith, subst, ◌≢◌, All, All-map, Bool-cases,
  inl, inr,
}
use luxury_video_tool.Sql.{insert_by, order_by, first}
use luxury_video_tool.Sql.Laws.{insert_by-All}

module _ {ℓ} {A : Type ℓ} where
  abbrev Least : (A → ℕ) → A → List A → Type 0
  Least k m xs = All (λ y. k m ≤ k y) xs

  -- Rows in ascending order.
  abbrev Ascending : (A → ℕ) → List A → Type 0
  Ascending k [] = Unit
  Ascending k (x ∷ xs) = Least k x xs × Ascending k xs

  insert_by-Ascending :
      (k : A → ℕ) (a : A) (xs : List A) → Ascending k xs → Ascending k (insert_by k a xs)
  unfolding insert_by
  insert_by-Ascending k a [] h = (tt, tt)
  insert_by-Ascending k a (x ∷ xs) h = elim (Bool-cases (leb (k a) (k x))) [
    | inl e ↦
        let le : k a ≤ k x = ground arith in rw e ((le, All-map _ _ (λ y l. omega arith) xs h.0), h)
    | inr e ↦
        let le : k x ≤ k a = ground arith in
        rw e (insert_by-All (λ y. k x ≤ k y) k a xs le h.0, insert_by-Ascending k a xs h.1)
  ]

  pub order_by-Ascending : (k : A → ℕ) (xs : List A) → Ascending k (order_by k xs)
  unfolding order_by
  order_by-Ascending k [] = tt
  order_by-Ascending k (x ∷ xs) = insert_by-Ascending k x (order_by k xs) (order_by-Ascending k xs)

  insert_by-All_back {κ} :
      (P : A → Type κ) (k : A → ℕ) (a : A) (xs : List A) → All P (insert_by k a xs) → P a × All P xs
  unfolding insert_by
  insert_by-All_back P k a [] h = (h.0, tt)
  insert_by-All_back P k a (x ∷ xs) h = elim (Bool-cases (leb (k a) (k x))) [
    | inl e ↦ rw e at h
    | inr e ↦
        let h' : All P (x ∷ insert_by k a xs) = rw e at h in
        let rest = insert_by-All_back P k a xs h'.1 in (rest.0, (h'.0, rest.1))
  ]

  order_by-All_back {κ} :
      (P : A → Type κ) (k : A → ℕ) (xs : List A) → All P (order_by k xs) → All P xs
  unfolding order_by
  order_by-All_back P k [] h = tt
  order_by-All_back P k (x ∷ xs) h =
      let both = insert_by-All_back P k x (order_by k xs) h in
      (both.0, order_by-All_back P k xs both.1)

  Ascending-first :
      (k : A → ℕ) (xs : List A) {m : A} → Ascending k xs → first xs ≡ some m → Least k m xs
  unfolding first
  Ascending-first k [] h e = cc
  Ascending-first k (x ∷ xs) {m} h e =
      let same : x ≡ m = cc in
      let least : Least k x (x ∷ xs) = (omega arith, h.0) in
      subst (λ t. Least k t (x ∷ xs)) same least

  -- The first row in an order is least among all the rows.
  pub first-order_by :
      (k : A → ℕ) (xs : List A) {m : A} → first (order_by k xs) ≡ some m → All (λ y. k m ≤ k y) xs
  first-order_by k xs e =
      order_by-All_back _ k xs (Ascending-first k (order_by k xs) (order_by-Ascending k xs) e)

  insert_by-first_some : (k : A → ℕ) (a : A) (xs : List A) → first (insert_by k a xs) ≢ none
  unfolding first insert_by
  insert_by-first_some k a [] e = cc
  insert_by-first_some k a (x ∷ xs) e = ground arith

  -- Only the empty order has no first row.
  pub first-order_by-none : (k : A → ℕ) (xs : List A) → first (order_by k xs) ≡ none → xs ≡ []
  unfolding order_by
  first-order_by-none k [] e = refl
  first-order_by-none k (x ∷ xs) e = absurd (insert_by-first_some k x (order_by k xs) e)
