-- ===== src/Sql/Deletes.antt =====
-- The rows that are left of a table without the rows of a kind, where only rows of that kind change.
use luxury_video_tool.Base.{
  ◌≡◌, refl, ap, Bool, true, List, [], ◌∷◌, ◌++◌, All, Bool-cases, inl, inr,
}
use luxury_video_tool.Sql.{update, delete}

module _ {ℓ} {A : Type ℓ} (p : A → Bool) where
  pub delete-update :
      (q : A → Bool) (f : A → A) (xs : List A)
      → All (λ x. q x ≡ true → p x ≡ true) xs
      → ((x : A) → p (f x) ≡ p x)
      → delete p (update q f xs) ≡ delete p xs
  unfolding delete update
  delete-update q f [] within same = refl
  delete-update q f (x ∷ xs) within same =
      let rest : delete p (update q f xs) ≡ delete p xs = delete-update q f xs within.1 same in
      elim (Bool-cases (q x)) [
        | inl e ↦ rw (e, same x, within.0 e) rest
        | inr e ↦ elim (Bool-cases (p x)) [
          | inl g ↦ rw (e, g) rest
          | inr g ↦ rw (e, g) (ap (λ (ys : List A). x ∷ ys) rest)
        ]
      ]

  pub delete-delete :
      (q : A → Bool) (xs : List A)
      → ((x : A) → q x ≡ true → p x ≡ true)
      → delete p (delete q xs) ≡ delete p xs
  unfolding delete
  delete-delete q [] within = refl
  delete-delete q (x ∷ xs) within =
      let rest : delete p (delete q xs) ≡ delete p xs = delete-delete q xs within in
      elim (Bool-cases (q x)) [
        | inl e ↦ rw (e, within x e) rest
        | inr e ↦ elim (Bool-cases (p x)) [
          | inl g ↦ rw (e, g) rest
          | inr g ↦ rw (e, g) (ap (λ (ys : List A). x ∷ ys) rest)
        ]
      ]

  pub delete-append : (x : A) (xs : List A) → p x ≡ true → delete p (xs ++ x ∷ []) ≡ delete p xs
  unfolding delete
  delete-append x [] h = rw h refl
  delete-append x (y ∷ ys) h =
      let rest : delete p (ys ++ x ∷ []) ≡ delete p ys = delete-append x ys h in
      elim (Bool-cases (p y)) [
        | inl g ↦ rw g rest
        | inr g ↦ rw g (ap (λ (zs : List A). y ∷ zs) rest)
      ]
