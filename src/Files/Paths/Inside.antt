-- ===== src/Files/Paths/Inside.antt =====
-- Where the paths that Resolve accepts lie.
use luxury_video_tool.Base.{
  ◌≡◌, ◌≢◌, refl, String, some, Bool, true, false, ◌||◌, List, [], ◌∷◌, ◌++◌, str_eq, eq_iff, arith,
  All, Bool-cases, inl, inr, if◌then◌else◌,
}
use luxury_video_tool.Files.Paths.{
  segments, clean_step, clean_from, parent, backwards, clean, rel, escapes, resolve,
}

-- A segment that names an entry of a directory.
abbrev pub is_name : String → Bool
is_name s = if str_eq s "" || str_eq s "." || str_eq s ".." then false else true

abbrev pub IsName : String → Type 0
IsName s = is_name s ≡ true

pub backwards-All {κ} :
    (P : String → Type κ) (xs ys : List String) → All P xs → All P ys → All P (backwards xs ys)
backwards-All P [] ys h k = k
backwards-All P (x ∷ xs) ys h k = backwards-All P xs (x ∷ ys) h.1 (h.0, k)

parent-All : (done : List String) → All IsName done → All IsName (parent done)
parent-All [] h = tt
parent-All (s ∷ up) h = h.1

step-All : (s : String) (done : List String) → All IsName done → All IsName (clean_step s done)
unfolding clean_step
step-All s done h = elim (Bool-cases (str_eq s "" || str_eq s ".")) [
  | inl e ↦ rw e h
  | inr e ↦ elim (Bool-cases (str_eq s "..")) [
    | inl f ↦ rw (e, f) (parent-All done h)
    | inr f ↦ rw (e, f) (ground arith, h)
  ]
]

clean_from-All : (ss done : List String) → All IsName done → All IsName (clean_from ss done)
unfolding clean_from
clean_from-All [] done h = h
clean_from-All (s ∷ ss) done h = clean_from-All ss (clean_step s done) (step-All s done h)

clean-All : (ss : List String) → All IsName (clean ss)
unfolding clean
clean-All ss = backwards-All IsName (clean_from ss []) [] (clean_from-All ss [] tt) tt

escapes_nil : (rest : List String) → escapes rest ≡ false → rest ≢ []
unfolding escapes
escapes_nil [] h e = cc
escapes_nil (s ∷ ss) h e = cc

rel-append :
    (root target : List String)
    → escapes (rel root target) ≡ false
    → target ≡ root ++ rel root target
unfolding rel escapes
rel-append [] target h = refl
rel-append (b ∷ bs) [] h = absurd (ground arith)
rel-append (b ∷ bs) (t ∷ ts) h = elim (Bool-cases (str_eq b t)) [
  | inl e ↦ ground (arith, eq_iff b t, rel-append bs ts)
  | inr e ↦ absurd (ground arith)
]

All-append_right {κ} : (P : String → Type κ) (xs ys : List String) → All P (xs ++ ys) → All P ys
All-append_right P [] ys h = h
All-append_right P (x ∷ xs) ys h = All-append_right P xs ys h.1

-- A path that Resolve accepts lies strictly below the root: the root's segments come first, then at
-- least one more, and each of those names an entry, so none of them is `..`.
pub resolve-inside :
    (root : List String) (relative : String) {target : List String}
    → resolve root relative ≡ some target
    → (rest : List String) × (target ≡ root ++ rest) × (rest ≢ []) × All IsName rest
unfolding resolve
resolve-inside root relative {target} h =
    elim (Bool-cases (escapes (rel root (clean (root ++ segments relative))))) [
      | inl e ↦ absurd (ground arith)
      | inr e ↦
          let place : List String = clean (root ++ segments relative) in
          let found : place ≡ target = ground arith in
          let below : target ≡ root ++ rel root target = rw (← found) (rel-append root place e) in
          let names : All IsName target = rw (← found) (clean-All (root ++ segments relative)) in
          (
            rel root target,
            below,
            escapes_nil (rel root target) (rw (← found) e),
            All-append_right IsName root (rel root target) (rw (← below) names),
          )
    ]
