-- ===== src/Settings/Kept.antt =====
-- A setting that was set is what the program works with from then on.
use luxury_video_tool.Base.{
  ℕ, ◌<◌, ◌≡◌, refl, sym, ap, String, Option, some, Bool, true, false, not, ◌||◌, List, [], ◌∷◌,
  ◌++◌, if◌then◌else◌, leb, str_eq, eq_iff, eq_refl, length, length-append, trim_space, arith,
  Bool-cases, inl, inr,
}
use Prim.Native.Char.{Char}
use luxury_video_tool.Sql.{update, exists, find, limit}
use luxury_video_tool.Settings.{
  Cipher, Setting, found, disabled_value, has_name, rest_from, decrypt, get, value_or, resolve,
  is_valid, put, stored, set,
}

-- A cipher that opens what it sealed, and adds to it.
pub record IsCipher (c : Cipher) : Type 0 where
  pub opens :
      (nonce : List Char) (value name : String)
      → c.open_sealed nonce (c.seal nonce value name) name ≡ some value
  pub grows : (nonce : List Char) (value name : String) → 0 < length (c.seal nonce value name)

limit-append : (xs ys : List Char) → limit (length xs) (xs ++ ys) ≡ xs
unfolding limit
limit-append [] ys = refl
limit-append (x ∷ xs) ys = ap (λ (r : List Char). x ∷ r) (limit-append xs ys)

rest_from-append : (xs ys : List Char) → rest_from (length xs) (xs ++ ys) ≡ ys
unfolding rest_from
rest_from-append [] ys = refl
rest_from-append (x ∷ xs) ys = rest_from-append xs ys

decrypt-seal :
    (c : Cipher) (name value : String) (nonce : List Char)
    → IsCipher c
    → length nonce ≡ c.nonce_size
    → decrypt c name (nonce ++ c.seal nonce value name) ≡ some value
unfolding decrypt
decrypt-seal c name value nonce ok n =
    let grown = ok.grows nonce value name in
    let long : leb (length (nonce ++ c.seal nonce value name)) (length nonce) ≡ false =
      rw (length-append nonce (c.seal nonce value name)) (ground arith) in
    rw
      (
        ← n,
        long,
        limit-append nonce (c.seal nonce value name),
        rest_from-append nonce (c.seal nonce value name),
      )
      (ok.opens nonce value name)

-- The row that a statement has written, by a column that it was matched by.
find-replaced {ℓ} :
    {A : Type ℓ} (p : A → Bool) (row : A) (xs : List A)
    → p row ≡ true
    → exists p xs ≡ true
    → find p (update p (λ x. row) xs) ≡ some row
unfolding find update exists
find-replaced p row [] h e = absurd (ground arith)
find-replaced p row (x ∷ xs) h e = elim (Bool-cases (p x)) [
  | inl t ↦ rw (t, h) refl
  | inr t ↦ rw (t, t) (find-replaced p row xs h (rw t at e))
]

find-appended {ℓ} :
    {A : Type ℓ} (p : A → Bool) (row : A) (xs : List A)
    → p row ≡ true
    → exists p xs ≡ false
    → find p (xs ++ row ∷ []) ≡ some row
unfolding find exists
find-appended p row [] h e = rw h refl
find-appended p row (x ∷ xs) h e = ground (arith, find-appended p row xs h)

find_other-appended {ℓ} :
    {A : Type ℓ} (q : A → Bool) (row : A) (xs : List A)
    → q row ≡ false
    → find q (xs ++ row ∷ []) ≡ find q xs
unfolding find
find_other-appended q row [] h = rw h refl
find_other-appended q row (x ∷ xs) h = ground (arith, find_other-appended q row xs h)

find_other-replaced {ℓ} :
    {A : Type ℓ} (p q : A → Bool) (row : A) (xs : List A)
    → q row ≡ false
    → ((x : A) → p x ≡ true → q x ≡ false)
    → find q (update p (λ x. row) xs) ≡ find q xs
unfolding find update
find_other-replaced p q row [] h apart = refl
find_other-replaced p q row (x ∷ xs) h apart = elim (Bool-cases (p x)) [
  | inl t ↦ rw (t, h, apart x t) (find_other-replaced p q row xs h apart)
  | inr t ↦
      rw t
        (ap (λ (r : Option _). if q x then some x else r) (find_other-replaced p q row xs h apart))
]

find-put :
    (row : Setting) (table : List Setting) → find (has_name row.name) (put row table) ≡ some row
unfolding put
find-put row table = elim (Bool-cases (exists (has_name row.name) table)) [
  | inl e ↦ rw e (find-replaced (has_name row.name) row table (eq_refl row.name) e)
  | inr e ↦ rw e (find-appended (has_name row.name) row table (eq_refl row.name) e)
]

find_other-put :
    (other : String) (row : Setting) (table : List Setting)
    → str_eq row.name other ≡ false
    → find (has_name other) (put row table) ≡ find (has_name other) table
unfolding put
find_other-put other row table h = elim (Bool-cases (exists (has_name row.name) table)) [
  | inl e ↦ rw e (
      find_other-replaced (has_name row.name) (has_name other) row table h
        (λ x t. let same : x.name ≡ row.name = (eq_iff x.name row.name).0 t in rw same h))
  | inr e ↦ rw e (find_other-appended (has_name other) row table h)
]

stored-value :
    (value fallback : String)
    → str_eq value disabled_value ≡ false
    → value_or fallback (found (stored value)) ≡ value
stored-value value fallback h = elim (Bool-cases (str_eq value "")) [
  | inl e ↦ rw e (sym ((eq_iff value "").0 e))
  | inr e ↦ rw (e, h) refl
]

-- What Set accepts, trimmed, is what the program works with under that name from then on, whatever
-- the fallback; an empty value switches the fallback off. Every other setting stays. The cipher is
-- assumed to open what it sealed, and the text is not the mark for an empty one.
pub resolve-set :
    (c : Cipher) (name value user_id : String) (nonce : List Char) (at : ℕ) (saves : Bool)
    (table table' : List Setting) (fallback other : String)
    → IsCipher c
    → length nonce ≡ c.nonce_size
    → str_eq name other ≡ false
    → str_eq (trim_space value) disabled_value ≡ false
    → set c name value user_id (some nonce) at saves table ≡ (table', true)
    → (resolve c name fallback table' ≡ trim_space value)
      × (resolve c other fallback table' ≡ resolve c other fallback table)
unfolding set
resolve-set c name value user_id nonce at saves table table' fallback other ok n apart plain h =
    elim (Bool-cases (not (is_valid name (trim_space value)) || not saves)) [
      | inl e ↦ absurd (refused (rw e at h))
      | inr e ↦
          let row : Setting = record {
            name = name;
            encrypted_value = nonce ++ c.seal nonce (stored (trim_space value)) name;
            updated_at = at;
            updated_by = user_id;
          } in
          let same : put row table ≡ table' = ap (λ (t : List Setting × Bool). t.0) (rw e at h) in
          (
            rw (← same) (
                unfold resolve get in
                rw (find-put row table) (
                  rw (decrypt-seal c name (stored (trim_space value)) nonce ok n)
                    (stored-value (trim_space value) fallback plain))),
            rw (← same) (unfold resolve get in rw (find_other-put other row table apart) refl),
          )
    ]
  where
    refused : ◌≡◌ {A = List Setting × Bool} (table, false) (table', true) → ⊥
    refused e = ground arith
