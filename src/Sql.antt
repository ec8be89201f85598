-- ===== src/Sql.antt =====
-- The SQL statements of the repositories, over a table as the list of its rows.
pub mod Laws
pub mod Keys
pub mod Order
pub mod Like
pub mod Selects
pub mod Deletes
use luxury_video_tool.Base.{
  ℕ, zero, suc, List, [], ◌∷◌, Option, none, some, Bool, true, false, if◌then◌else◌, leb, ◌||◌,
}

module _ {ℓ} {A : Type ℓ} where
  -- UPDATE … SET f WHERE p
  unfoldable pub update : (A → Bool) → (A → A) → List A → List A
  update p f [] = []
  update p f (x ∷ xs) = (if p x then f x else x) ∷ update p f xs

  -- The number that RowsAffected gives for an UPDATE or a DELETE WHERE p; also SELECT COUNT(*).
  unfoldable pub affected : (A → Bool) → List A → ℕ
  affected p [] = 0
  affected p (x ∷ xs) = let rest = affected p xs in if p x then suc rest else rest

  -- DELETE … WHERE p
  unfoldable pub delete : (A → Bool) → List A → List A
  delete p [] = []
  delete p (x ∷ xs) = let rest = delete p xs in if p x then rest else x ∷ rest

  -- SELECT … WHERE p
  unfoldable pub select : (A → Bool) → List A → List A
  select p [] = []
  select p (x ∷ xs) = let rest = select p xs in if p x then x ∷ rest else rest

  -- SELECT … WHERE p of which one row is read
  unfoldable pub find : (A → Bool) → List A → Option A
  find p [] = none
  find p (x ∷ xs) = if p x then some x else find p xs

  -- EXISTS (SELECT 1 … WHERE p)
  unfoldable pub exists : (A → Bool) → List A → Bool
  exists p [] = false
  exists p (x ∷ xs) = p x || exists p xs

  unfoldable pub insert_by : (A → ℕ) → A → List A → List A
  insert_by k a [] = a ∷ []
  insert_by k a (x ∷ xs) = if leb (k a) (k x) then a ∷ x ∷ xs else x ∷ insert_by k a xs

  -- ORDER BY k; rows with equal keys stay in the order of the table.
  unfoldable pub order_by : (A → ℕ) → List A → List A
  unfolding insert_by
  order_by k [] = []
  order_by k (x ∷ xs) = insert_by k x (order_by k xs)

  -- LIMIT 1
  unfoldable pub first : List A → Option A
  first [] = none
  first (x ∷ xs) = some x

  -- LIMIT n
  unfoldable pub limit : ℕ → List A → List A
  limit zero xs = []
  limit (suc n) [] = []
  limit (suc n) (x ∷ xs) = x ∷ limit n xs
