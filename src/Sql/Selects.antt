-- ===== src/Sql/Selects.antt =====
-- What a SELECT with an order and a limit gives, and what an UPDATE makes of each row.
use luxury_video_tool.Base.{
  ℕ, zero, suc, ◌<◌, ◌≡◌, refl, ap, Bool, true, false, List, [], ◌∷◌, arith, All, length,
  Bool-cases, inl, inr,
}
use luxury_video_tool.Sql.{update, select, exists, order_by, insert_by, limit}

module _ {ℓ} {A : Type ℓ} where
  pub All-select {κ} :
      (P : A → Type κ) (p : A → Bool) (xs : List A)
      → All (λ x. p x ≡ true → P x) xs
      → All P (select p xs)
  unfolding select
  All-select P p [] h = tt
  All-select P p (x ∷ xs) h = elim (Bool-cases (p x)) [
    | inl e ↦ rw e (h.0 e, All-select P p xs h.1)
    | inr e ↦ rw e (All-select P p xs h.1)
  ]

  pub All-limit {κ} : (P : A → Type κ) (n : ℕ) (xs : List A) → All P xs → All P (limit n xs)
  unfolding limit
  All-limit P zero xs h = tt
  All-limit P (suc n) [] h = tt
  All-limit P (suc n) (x ∷ xs) h = (h.0, All-limit P n xs h.1)

  pub limit_uncut : (n : ℕ) (xs : List A) → length (limit n xs) < n → limit n xs ≡ xs
  unfolding limit
  limit_uncut zero xs h = absurd (omega arith)
  limit_uncut (suc n) [] h = refl
  limit_uncut (suc n) (x ∷ xs) h = ap (λ (r : List A). x ∷ r) (limit_uncut n xs (omega arith))

  exists-insert_by :
      (p : A → Bool) (k : A → ℕ) (a : A) (xs : List A)
      → exists p (insert_by k a xs) ≡ exists p (a ∷ xs)
  unfolding exists insert_by
  exists-insert_by p k a [] = refl
  exists-insert_by p k a (x ∷ xs) = ground (arith, exists-insert_by p k a xs)

  pub exists-order_by :
      (p : A → Bool) (k : A → ℕ) (xs : List A) → exists p (order_by k xs) ≡ exists p xs
  unfolding exists order_by
  exists-order_by p k [] = refl
  exists-order_by p k (x ∷ xs) =
      ground (arith, exists-insert_by p k x (order_by k xs), exists-order_by p k xs)

  -- An UPDATE turns what held of each row into what holds of it afterwards.
  pub update_each {κ μ} :
      (P : A → Type κ) (Q : A → Type μ) (p : A → Bool) (f : A → A)
      → ((x : A) → P x → p x ≡ true → Q (f x))
      → ((x : A) → P x → p x ≡ false → Q x)
      → (xs : List A) → All P xs
      → All Q (update p f xs)
  unfolding update
  update_each P Q p f hit miss [] h = tt
  update_each P Q p f hit miss (x ∷ xs) h = elim (Bool-cases (p x)) [
    | inl e ↦ rw e (hit x h.0 e, update_each P Q p f hit miss xs h.1)
    | inr e ↦ rw e (miss x h.0 e, update_each P Q p f hit miss xs h.1)
  ]
