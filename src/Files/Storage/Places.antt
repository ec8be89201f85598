-- ===== src/Files/Storage/Places.antt =====
-- The place of a new file: the directory of its user and job.
use Prim.Native.Char.{Char, code}
use mathlib.Core.List.{append-nil}
use luxury_video_tool.Base.{
  cat, ℕ, ◌-◌, suc, str_eq-first, ◌≡◌, ◌≢◌, refl, String, some, Bool, true, false, ◌||◌, List, [],
  ◌∷◌, ◌++◌, str_eq, eq_refl, arith, All, All-map, All-append, if◌then◌else◌, ap, ◌==◌, ◌∙◌,
}
use luxury_video_tool.Files.Paths.{
  segments, clean_from, clean_step, backwards, clean, rel, is_abs, escapes, resolve, slashed,
  all_segments, join, clean_relative, relative_step,
}
use luxury_video_tool.Files.Paths.Inside.{IsName}
use luxury_video_tool.Files.Storage.{
  is_safe, all_safe, safe_segment, has_slash, bad_extension, Target, open_target, new_scoped_target,
}

-- A text of one segment.
no_slash : String → Bool
no_slash String.[] = true
no_slash (String.◌∷◌ c s) = if code c == 47 then false else no_slash s

from_root : String → Bool
unfolding resolve
from_root s = str_eq s "" || is_abs s

segments_one : (s : String) → no_slash s ≡ true → segments s ≡ s ∷ []
unfolding segments no_slash
segments_one String.[] h = refl
segments_one (String.◌∷◌ c s) h = ground (arith, segments_one s)

segments-cat :
    (s t : String) → no_slash s ≡ true → segments (cat s (String.◌∷◌ "/" t)) ≡ s ∷ segments t
unfolding segments cat no_slash
segments-cat String.[] t h = refl
segments-cat (String.◌∷◌ c s) t h = ground (arith, segments-cat s t)

abbrev IsPlain : String → Type 0
IsPlain s = (no_slash s ≡ true) × IsName s

segments-slashed :
    (s : String) (ss : List String) → All IsPlain (s ∷ ss) → segments (slashed (s ∷ ss)) ≡ s ∷ ss
unfolding slashed
segments-slashed s [] h = segments_one s h.0.0
segments-slashed s (t ∷ ss) h =
    segments-cat s (slashed (t ∷ ss)) h.0.0
    ∙ ap (λ (r : List String). s ∷ r) (segments-slashed t ss h.1)

all_segments_plain : (ss : List String) → All IsPlain ss → all_segments ss ≡ ss
unfolding all_segments
all_segments_plain [] h = refl
all_segments_plain (s ∷ ss) h = ground (arith, segments_one s h.0.0, all_segments_plain ss h.1)

clean_from_plain : (ss done : List String) → All IsName ss → clean_from ss done ≡ backwards ss done
unfolding clean_from clean_step
clean_from_plain [] done h = refl
clean_from_plain (s ∷ ss) done h = ground (arith, clean_from_plain ss (s ∷ done) h.1)

clean_relative_plain :
    (ss done : List String)
    → All IsName ss
    → clean_relative ss done ≡ backwards (backwards ss done) []
unfolding clean_relative relative_step
clean_relative_plain [] done h = refl
clean_relative_plain (s ∷ ss) done h = ground (arith, clean_relative_plain ss (s ∷ done) h.1)

backwards_twice :
    (xs ys zs : List String) → backwards (backwards xs ys) zs ≡ backwards ys (xs ++ zs)
backwards_twice [] ys zs = refl
backwards_twice (x ∷ xs) ys zs = backwards_twice xs (x ∷ ys) zs

rel_self : (root rest : List String) → rel root (root ++ rest) ≡ rest
unfolding rel
rel_self [] rest = refl
rel_self (b ∷ bs) rest = rw (eq_refl b) (rel_self bs rest)

backwards_back : (xs : List String) → backwards (backwards xs []) [] ≡ xs
backwards_back xs = backwards_twice xs [] [] ∙ append-nil xs

join_plain : (ss : List String) → All IsPlain ss → join ss ≡ slashed ss
unfolding join
join_plain ss h =
    rw
      (
        all_segments_plain ss h,
        clean_relative_plain ss [] (All-map _ _ (λ s p. p.1) ss h),
        backwards_back ss,
      )
      refl

first_no_slash : (c : Char) (s : String) → no_slash (String.◌∷◌ c s) ≡ true → (code c == 47) ≡ false
unfolding no_slash
first_no_slash c s h = ground arith

from_root_first :
    (c : Char) (s : String) → (code c == 47) ≡ false → from_root (String.◌∷◌ c s) ≡ false
unfolding from_root
from_root_first c s h = rw (str_eq-first (String.◌∷◌ c s) "" (λ e. omega (arith, e))) h

slashed_relative :
    (s : String) (ss : List String) → IsPlain s → from_root (slashed (s ∷ ss)) ≡ false
unfolding slashed cat
slashed_relative String.[] ss h = absurd (ground arith)
slashed_relative (String.◌∷◌ c s) [] h = from_root_first c s (first_no_slash c s h.0)
slashed_relative (String.◌∷◌ c s) (t ∷ ss) h = from_root_first c _ (first_no_slash c s h.0)

not_up : (s : String) → IsName s → str_eq s ".." ≡ false
not_up s h = ground arith

-- A plain path below a clean root resolves to what it says.
resolve_plain :
    (root : List String) (s : String) (ss : List String)
    → All IsName root
    → All IsPlain (s ∷ ss)
    → str_eq s ".." ≡ false
    → resolve root (join (s ∷ ss)) ≡ some (root ++ s ∷ ss)
unfolding resolve from_root escapes clean
resolve_plain root s ss r h n =
    let whole = All-append IsName root (s ∷ ss) r (All-map _ _ (λ x p. p.1) (s ∷ ss) h) in
    rw
      (
        join_plain (s ∷ ss) h,
        slashed_relative s ss h.0,
        segments-slashed s ss h,
        clean_from_plain (root ++ s ∷ ss) [] whole,
        backwards_back (root ++ s ∷ ss),
        rel_self root (s ∷ ss),
        n,
      )
      refl

-- Segments of letters, digits, `-` and `_` name entries, and so does such a name with an extension
-- that has no slash.
all_safe-no_slash : (s : String) → all_safe s ≡ true → no_slash s ≡ true
unfolding all_safe is_safe no_slash
all_safe-no_slash String.[] h = refl
all_safe-no_slash (String.◌∷◌ c s) h = ground (arith, all_safe-no_slash s)

has_slash-no_slash : (s : String) → has_slash s ≡ false → no_slash s ≡ true
unfolding has_slash no_slash
has_slash-no_slash String.[] h = refl
has_slash-no_slash (String.◌∷◌ c s) h = ground (arith, has_slash-no_slash s)

no_slash-cat : (s t : String) → no_slash s ≡ true → no_slash t ≡ true → no_slash (cat s t) ≡ true
unfolding no_slash cat
no_slash-cat String.[] t h k = k
no_slash-cat (String.◌∷◌ c s) t h k = ground (arith, no_slash-cat s t)

not_dot : (n : ℕ) → (n == 46) ≡ false → suc n ≢ 47
not_dot n h e = ground (arith, ap (λ (t : ℕ). t - 1) e)

IsName-first : (c : Char) (s : String) → (code c == 46) ≡ false → IsName (String.◌∷◌ c s)
IsName-first c s h =
    rw
      (
        str_eq-first (String.◌∷◌ c s) "" (λ e. omega (arith, e)),
        str_eq-first (String.◌∷◌ c s) "." (not_dot (code c) h),
        str_eq-first (String.◌∷◌ c s) ".." (not_dot (code c) h),
      )
      refl

safe-IsPlain : (s : String) → safe_segment s ≡ true → IsPlain s
unfolding safe_segment all_safe is_safe
safe-IsPlain String.[] h = absurd (ground arith)
safe-IsPlain (String.◌∷◌ c s) h =
    (all_safe-no_slash _ (ground arith), IsName-first c s (ground arith))

named-IsPlain :
    (name ext : String) → safe_segment name ≡ true → has_slash ext ≡ false → IsPlain (cat name ext)
unfolding safe_segment all_safe is_safe cat
named-IsPlain String.[] ext h k = absurd (ground arith)
named-IsPlain (String.◌∷◌ c s) ext h k = (
  no_slash-cat (String.◌∷◌ c s) ext (all_safe-no_slash _ (ground arith)) (has_slash-no_slash ext k),
  IsName-first c (cat s ext) (ground arith),
)

opened :
    (root : List String) (relative : String) (final : List String)
    → resolve root relative ≡ some final
    → open_target root true relative ≡ some (record { relative = relative; final = final })
unfolding open_target
opened root relative final e = rw (e, open_target) refl

-- For a safe scope, user and job, a safe random name and an extension that is accepted,
-- NewScopedTarget gives the file with that name and extension in the directory of the scope, the
-- user and the job, wherever the root is.
pub new_scoped_target-place :
    (root : List String) (scope user_id job_id extension name : String)
    → All IsName root
    → safe_segment scope ≡ true
    → safe_segment user_id ≡ true
    → safe_segment job_id ≡ true
    → bad_extension extension ≡ false
    → safe_segment name ≡ true
    → (t : Target) × (new_scoped_target root scope user_id job_id extension name true ≡ some t)
      × (t.final ≡ root ++ scope ∷ user_id ∷ job_id ∷ cat name extension ∷ [])
unfolding new_scoped_target bad_extension
new_scoped_target-place root scope user_id job_id extension name r s u j x n =
    let plain : All IsPlain (scope ∷ user_id ∷ job_id ∷ cat name extension ∷ []) = (
      safe-IsPlain scope s,
      (
        safe-IsPlain user_id u,
        (safe-IsPlain job_id j, (named-IsPlain name extension n (ground arith), tt)),
      ),
    ) in
    let place =
      resolve_plain root scope (user_id ∷ job_id ∷ cat name extension ∷ []) r plain
        (not_up scope plain.0.1) in
    (
      record {
        relative = join (scope ∷ user_id ∷ job_id ∷ cat name extension ∷ []);
        final = root ++ scope ∷ user_id ∷ job_id ∷ cat name extension ∷ [];
      },
      rw (s, u, j, x) (opened root _ _ place),
      refl,
    )
