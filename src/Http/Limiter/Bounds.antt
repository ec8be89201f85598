-- ===== src/Http/Limiter/Bounds.antt =====
-- How many requests a window admits.
use luxury_video_tool.Base.{
  ℕ, suc, ◌+◌, ◌≤◌, ◌<◌, ◌≡◌, refl, sym, subst, String, some, Bool, true, false, ◌&&◌, ◌⊎◌, List,
  [], ◌∷◌, if◌then◌else◌, leb, str_eq, eq_iff, length, All, arith, Bool-cases, Option-cases, inl,
  inr,
}
use luxury_video_tool.Sql.{find}
use luxury_video_tool.Sql.Keys.{find-delete_kept}
use luxury_video_tool.Sql.Laws.{find_sat}
use luxury_video_tool.Http.Limiter.{
  Window, Limiter, has_key, is_over, clean, put, open_window, admit, allow,
}

keys_differ :
    (key : String) (w v : Window)
    → has_key key w ≡ false
    → has_key key v ≡ true
    → has_key w.key v ≡ false
keys_differ key w v h k = elim (Bool-cases (has_key w.key v)) [
  | inr e ↦ e
  | inl e ↦
      let same : v.key ≡ w.key = (eq_iff v.key w.key).0 e in
      let again : str_eq w.key key ≡ true = subst (λ t. str_eq t key ≡ true) same k in cc
]

put_same :
    (key : String) (w : Window) (ws : List Window)
    → has_key key w ≡ true
    → find (has_key key) (put w ws) ≡ some w
unfolding put find
put_same key w ws h = rw h refl

put_other :
    (key : String) (w : Window) (ws : List Window) (v : Window)
    → has_key key w ≡ false
    → find (has_key key) ws ≡ some v
    → find (has_key key) (put w ws) ≡ some v
unfolding put find
put_other key w ws v h there = rw h (
    find-delete_kept (has_key key) (has_key w.key) ws v there
      (keys_differ key w v h (find_sat (has_key key) ws there)))

-- The window of the key goes on: it has the start it had, counts `n` requests more and no more than
-- the limit.
abbrev Continues : String → Window → ℕ → Limiter → Type 0
Continues key w n l =
    (v : Window) × (find (has_key key) l.windows ≡ some v)
    × (v.started ≡ w.started)
    × (v.count ≡ w.count + n)
    × (v.count ≤ l.limit)

clean_keeps :
    (key : String) (now : ℕ) (l : Limiter) (w : Window)
    → find (has_key key) l.windows ≡ some w
    → now < w.started + 60000
    → find (has_key key) (clean now l).windows ≡ some w
unfolding clean
clean_keeps key now l w there fresh =
    let kept = find-delete_kept (has_key key) (λ v. is_over now v.started) l.windows w there in
    ground (arith, kept)

-- 1 for a request of the key that is admitted.
abbrev counted : String → String → Bool → ℕ
counted key request admitted = if str_eq request key && admitted then 1 else 0

-- In a window that is open, a request is refused and changes nothing, or is counted.
admit_open :
    (request : String) (now : ℕ) (l : Limiter) (w : Window)
    → find (has_key request) l.windows ≡ some w
    → now < w.started + 60000
    → (admit request now l ≡ (l, false))
      ⊎ ((admit request now l
            ≡ (record l { windows = put (record w { count = suc w.count }) l.windows }, true))
          × (w.count < l.limit))
unfolding admit
admit_open request now l w there fresh = elim (Bool-cases (leb 10000 (length l.windows))) [
  | inl e ↦ inl (ground arith)
  | inr e ↦ elim (Bool-cases (leb l.limit w.count)) [
    | inl f ↦ inl (ground arith)
    | inr f ↦ inr (ground arith, ground arith)
  ]
]

admit_own :
    (key request : String) (now : ℕ) (l : Limiter) (w : Window)
    → find (has_key key) l.windows ≡ some w
    → now < w.started + 60000
    → w.count ≤ l.limit
    → str_eq request key ≡ true
    → Continues key w (counted key request (admit request now l).1) (admit request now l).0
admit_own key request now l w there fresh bound own =
    let same : request ≡ key = (eq_iff request key).0 own in
    let found : find (has_key request) l.windows ≡ some w =
      subst (λ t. find (has_key t) l.windows ≡ some w) (sym same) there in
    elim (admit_open request now l w found fresh) [
      | inl e ↦ rw (e, own) (w, there, refl, omega arith, bound)
      | inr (e, less) ↦
          let counted_once =
            put_same key (record w { count = suc w.count }) l.windows
              (find_sat (has_key key) l.windows there) in
          rw (e, own)
            (record w { count = suc w.count }, counted_once, refl, omega arith, omega (arith, less))
    ]

-- Whatever its window, a request is refused and changes nothing, or puts a window of its own key.
admit_puts :
    (request : String) (now : ℕ) (l : Limiter)
    → (admit request now l ≡ (l, false))
      ⊎ ((v : Window) × (v.key ≡ request)
          × (admit request now l ≡ (record l { windows = put v l.windows }, true)))
unfolding admit open_window
admit_puts request now l = elim (Bool-cases (leb 10000 (length l.windows))) [
  | inl e ↦ inl (ground arith)
  | inr e ↦ elim (Option-cases (find (has_key request) l.windows)) [
    | inl n ↦ inr (record { key = request; started = now; count = 1 }, refl, ground arith)
    | inr (w, f) ↦
        let own : w.key ≡ request =
          (eq_iff w.key request).0 (find_sat (has_key request) l.windows f) in
        elim (Bool-cases (is_over now w.started)) [
          | inl o ↦ inr (record { key = request; started = now; count = 1 }, refl, ground arith)
          | inr o ↦ elim (Bool-cases (leb l.limit w.count)) [
            | inl g ↦ inl (ground arith)
            | inr g ↦ inr (record w { count = suc w.count }, own, ground arith)
          ]
        ]
  ]
]

admit_other :
    (key request : String) (now : ℕ) (l : Limiter) (w : Window)
    → find (has_key key) l.windows ≡ some w
    → w.count ≤ l.limit
    → str_eq request key ≡ false
    → Continues key w (counted key request (admit request now l).1) (admit request now l).0
admit_other key request now l w there bound other = elim (admit_puts request now l) [
  | inl e ↦ rw (e, other) (w, there, refl, omega arith, bound)
  | inr (v, own, e) ↦
      let another : has_key key v ≡ false = subst (λ t. str_eq t key ≡ false) (sym own) other in
      rw (e, other) (w, put_other key v l.windows w another there, refl, omega arith, bound)
]

clean_limit : (now : ℕ) (l : Limiter) → (clean now l).limit ≡ l.limit
unfolding clean
clean_limit now l = ground arith

admit_step :
    (key request : String) (now : ℕ) (l : Limiter) (w : Window)
    → find (has_key key) l.windows ≡ some w
    → now < w.started + 60000
    → w.count ≤ l.limit
    → Continues key w (counted key request (admit request now l).1) (admit request now l).0
admit_step key request now l w there fresh bound = elim (Bool-cases (str_eq request key)) [
  | inl e ↦ admit_own key request now l w there fresh bound e
  | inr e ↦ admit_other key request now l w there bound e
]

admit_limit : (request : String) (now : ℕ) (l : Limiter) → (admit request now l).0.limit ≡ l.limit
admit_limit request now l = elim (admit_puts request now l) [
  | inl e ↦ rw e refl
  | inr (v, own, e) ↦ rw e refl
]

allow_limit : (request : String) (now : ℕ) (l : Limiter) → (allow request now l).0.limit ≡ l.limit
unfolding allow
allow_limit request now l = ground (arith, admit_limit request now (clean now l), clean_limit now l)

counted_refused : (key request : String) → counted key request false ≡ 0
counted_refused key request = ground arith

allow_step :
    (key request : String) (now : ℕ) (l : Limiter) (w : Window)
    → find (has_key key) l.windows ≡ some w
    → now < w.started + 60000
    → w.count ≤ l.limit
    → Continues key w (counted key request (allow request now l).1) (allow request now l).0
unfolding allow
allow_step key request now l w there fresh bound = elim (Bool-cases (leb l.limit 0)) [
  | inl e ↦ rw (e, counted_refused key request) (w, there, refl, omega arith, bound)
  | inr e ↦ rw e (
      admit_step key request now (clean now l) w (clean_keeps key now l w there fresh) fresh
        (omega (arith, bound, clean_limit now l)))
]

-- The requests of the key that are admitted.
unfoldable pub accepted : String → List (String × ℕ) → Limiter → ℕ
unfolding allow
accepted key [] l = 0
accepted key (r ∷ rs) l = counted key r.0 (allow r.0 r.1 l).1 + accepted key rs (allow r.0 r.1 l).0

-- Where the window of a key has counted no more than the limit, of the requests of that key that
-- come before the window is over, whatever requests of other keys stand between them, no more are
-- admitted than the limit leaves after those counted.
pub accepted-limit :
    (key : String) (requests : List (String × ℕ)) (l : Limiter) (w : Window)
    → find (has_key key) l.windows ≡ some w
    → w.count ≤ l.limit
    → All (λ r. r.1 < w.started + 60000) requests
    → w.count + accepted key requests l ≤ l.limit
unfolding accepted
accepted-limit key [] l w there bound early = omega (arith, bound)
accepted-limit key (r ∷ rs) l w there bound early =
    let (v, found, started, count, within) = allow_step key r.0 r.1 l w there early.0 bound in
    let rest =
      accepted-limit key rs (allow r.0 r.1 l).0 v found within
        (subst (λ t. All (λ q. q.1 < t + 60000) rs) (sym started) early.1) in
    omega (arith, rest, count, allow_limit r.0 r.1 l)
