-- ===== src/Http/Limiter/Size.antt =====
-- How many windows there are.
use luxury_video_tool.Base.{
  ℕ, suc, ◌≤◌, String, Bool, List, [], ◌∷◌, leb, length, arith, Bool-cases, Option-cases, inl, inr,
}
use luxury_video_tool.Sql.{delete, find}
use luxury_video_tool.Http.Limiter.{
  Window, Limiter, has_key, is_over, clean, put, open_window, admit, allow,
}

delete-length : (p : Window → Bool) (ws : List Window) → length (delete p ws) ≤ length ws
unfolding delete
delete-length p [] = omega arith
delete-length p (w ∷ ws) = ground (arith, delete-length p ws)

clean-length : (now : ℕ) (l : Limiter) → length (clean now l).windows ≤ length l.windows
unfolding clean
clean-length now l = ground (arith, delete-length (λ w. is_over now w.started) l.windows)

put-length : (w : Window) (ws : List Window) → length (put w ws) ≤ suc (length ws)
unfolding put
put-length w ws = omega (arith, delete-length (has_key w.key) ws)

admit-length :
    (key : String) (now : ℕ) (l : Limiter)
    → length l.windows ≤ 10000
    → length (admit key now l).0.windows ≤ 10000
unfolding admit open_window
admit-length key now l h = elim (Bool-cases (leb 10000 (length l.windows))) [
  | inl e ↦ rw e h
  | inr e ↦ elim (Option-cases (find (has_key key) l.windows)) [
    | inl n ↦ ground (arith, put-length (record { key = key; started = now; count = 1 }) l.windows)
    | inr (w, f) ↦ ground (
      arith,
      put-length (record { key = key; started = now; count = 1 }) l.windows,
      put-length (record w { count = suc w.count }) l.windows,
    )
  ]
]

-- A limiter of at most 10,000 windows has at most 10,000 after any request.
pub allow-length :
    (key : String) (now : ℕ) (l : Limiter)
    → length l.windows ≤ 10000
    → length (allow key now l).0.windows ≤ 10000
unfolding allow
allow-length key now l h = ground (arith, admit-length key now (clean now l), clean-length now l)
