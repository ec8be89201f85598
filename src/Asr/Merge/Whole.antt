-- ===== src/Asr/Merge/Whole.antt =====
-- Merge loses nothing of the texts.
use luxury_video_tool.Base.{
  ℕ, zero, suc, ◌-◌, ◌≡◌, refl, sym, ap, ◌∙◌, String, true, List, [], ◌∷◌, ltb, str_eq, eq_iff, min,
  cat, rune_count, arith, Bool-cases, inl, inr, All,
}
use luxury_video_tool.Asr.Merge.{
  take_runes, drop_runes, overlaps, overlap_from, overlap, join_part, merge_step, merge_from, merge,
}

cat_assoc : (a b c : String) → cat (cat a b) c ≡ cat a (cat b c)
unfolding cat
cat_assoc String.[] b c = refl
cat_assoc (String.◌∷◌ x a) b c = ap (λ (r : String). String.◌∷◌ x r) (cat_assoc a b c)

cat_nil : (a : String) → cat a "" ≡ a
unfolding cat
cat_nil String.[] = refl
cat_nil (String.◌∷◌ x a) = ap (λ (r : String). String.◌∷◌ x r) (cat_nil a)

nil_cat : (a : String) → cat "" a ≡ a
unfolding cat
nil_cat a = refl

take-drop : (n : ℕ) (s : String) → cat (take_runes n s) (drop_runes n s) ≡ s
unfolding cat take_runes drop_runes
take-drop zero s = refl
take-drop (suc n) String.[] = refl
take-drop (suc n) (String.◌∷◌ c s) = ap (λ (r : String). String.◌∷◌ c r) (take-drop n s)

-- The overlap that is found is one.
overlap_from-overlaps :
    (n : ℕ) (left right : String)
    → ltb 0 (overlap_from n left right) ≡ true
    → overlaps (overlap_from n left right) left right ≡ true
unfolding overlap_from
overlap_from-overlaps zero left right h = absurd (ground arith)
overlap_from-overlaps (suc n) left right h = elim (Bool-cases (ltb (suc n) 4)) [
  | inl e ↦ absurd (ground arith)
  | inr e ↦ elim (Bool-cases (overlaps (suc n) left right)) [
    | inl f ↦ rw (e, f) f
    | inr f ↦ rw (e, f) (overlap_from-overlaps n left right (ground arith))
  ]
]

-- A text ends with `part`, begins with `merged`.
abbrev pub Extends : String → String → String → Type 0
Extends merged part whole =
    ((after : String) × (whole ≡ cat merged after)) × ((front : String) × (whole ≡ cat front part))

glued :
    (k size : ℕ) (left right : String)
    → str_eq (drop_runes k left) (take_runes size right) ≡ true
    → cat left (drop_runes size right) ≡ cat (take_runes k left) right
glued k size left right h =
    let same = (eq_iff (drop_runes k left) (take_runes size right)).0 h in
    ap (λ (t : String). cat t (drop_runes size right)) (sym (take-drop k left))
    ∙ cat_assoc (take_runes k left) (drop_runes k left) (drop_runes size right)
    ∙ ap (λ (t : String). cat (take_runes k left) (cat t (drop_runes size right))) same
    ∙ ap (cat (take_runes k left)) (take-drop size right)

join_part-Extends : (merged part : String) → Extends merged part (join_part merged part)
unfolding join_part overlap overlaps
join_part-Extends merged part = elim (Bool-cases (ltb 0 (overlap merged part))) [
  | inl e ↦
      let size : ℕ = overlap merged part in
      let found =
        overlap_from-overlaps (min 40 (min (rune_count merged) (rune_count part))) merged part e in
      rw e (
        (drop_runes size part, refl),
        (take_runes (rune_count merged - size) merged, glued _ size merged part found),
      )
  | inr e ↦ rw e ((cat "\n" part, refl), (cat merged "\n", sym (cat_assoc merged "\n" part)))
]

-- A text stands somewhere in another.
abbrev pub Has : String → String → Type 0
Has text whole = (front : String) × (after : String) × (whole ≡ cat front (cat text after))

empty-Has : (text whole : String) → text ≡ "" → Has text whole
unfolding cat
empty-Has text whole e = ("", whole, sym (ap (λ (t : String). cat "" (cat t whole)) e))

Has-later :
    (text merged whole after : String) → whole ≡ cat merged after → Has text merged → Has text whole
Has-later text merged whole after e (front, rest, h) = (
  front,
  cat rest after,
  e
      ∙ ap (λ (t : String). cat t after) h
      ∙ cat_assoc front (cat text rest) after
      ∙ ap (cat front) (cat_assoc text rest after),
)

module _ (normalize : String → String) where
  merge_step-prefix :
      (merged part : String)
      → (after : String) × (merge_step normalize merged part ≡ cat merged after)
  unfolding merge_step
  merge_step-prefix merged part = elim (Bool-cases (str_eq (normalize part) "")) [
    | inl e ↦ rw e ("", sym (cat_nil merged))
    | inr e ↦ elim (Bool-cases (str_eq merged "")) [
      | inl f ↦
          rw (e, f)
            (
              normalize part,
              sym (
                  ap (λ (t : String). cat t (normalize part)) ((eq_iff merged "").0 f)
                  ∙ nil_cat (normalize part)),
            )
      | inr f ↦ rw (e, f) (join_part-Extends merged (normalize part)).0
    ]
  ]

  merge_step-Has : (merged part : String) → Has (normalize part) (merge_step normalize merged part)
  unfolding merge_step
  merge_step-Has merged part = elim (Bool-cases (str_eq (normalize part) "")) [
    | inl e ↦ empty-Has (normalize part) _ ((eq_iff (normalize part) "").0 e)
    | inr e ↦ elim (Bool-cases (str_eq merged "")) [
      | inl f ↦ rw (e, f) ("", "", sym (cat_nil (normalize part)))
      | inr f ↦
          let ends = (join_part-Extends merged (normalize part)).1 in
          rw (e, f) (ends.0, "", ends.1 ∙ ap (cat ends.0) (sym (cat_nil (normalize part))))
    ]
  ]

  merge_from-prefix :
      (merged : String) (parts : List String)
      → (after : String) × (merge_from normalize merged parts ≡ cat merged after)
  unfolding merge_from
  merge_from-prefix merged [] = ("", sym (cat_nil merged))
  merge_from-prefix merged (part ∷ parts) =
      let (a, e) = merge_step-prefix merged part in
      let (b, f) = merge_from-prefix (merge_step normalize merged part) parts in
      (cat a b, f ∙ ap (λ (t : String). cat t b) e ∙ cat_assoc merged a b)

  merge_from-Has :
      (merged : String) (parts : List String)
      → All (λ part. Has (normalize part) (merge_from normalize merged parts)) parts
  unfolding merge_from
  merge_from-Has merged [] = tt
  merge_from-Has merged (part ∷ parts) =
      let (after, e) = merge_from-prefix (merge_step normalize merged part) parts in
      (
        Has-later _ (merge_step normalize merged part) _ after e (merge_step-Has merged part),
        merge_from-Has (merge_step normalize merged part) parts,
      )

  -- Merge loses nothing: each text, normalised, stands whole in the text that it makes of them.
  pub merge-Has :
      (parts : List String) → All (λ part. Has (normalize part) (merge normalize parts)) parts
  unfolding merge
  merge-Has parts = merge_from-Has "" parts
