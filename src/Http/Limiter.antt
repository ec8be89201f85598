-- ===== src/Http/Limiter.antt =====
-- loginLimiter of services/api_go/internal/httpapi/middleware.go. A time is a number of
-- milliseconds, and the map of windows a list in which a key stands once.
pub mod Size
pub mod Bounds
use luxury_video_tool.Base.{
  ℕ, suc, ◌+◌, String, Option, none, some, Bool, true, false, ◌||◌, List, [], ◌∷◌, if◌then◌else◌,
  leb, str_eq, length,
}
use luxury_video_tool.Sql.{delete, find}

pub record Window : Type 0 where
  pub key : String
  pub started : ℕ
  pub count : ℕ

pub record Limiter : Type 0 where
  pub limit : ℕ
  pub windows : List Window
  pub last_cleanup : Option ℕ

unfoldable pub new_limiter : ℕ → Limiter
new_limiter limit = record { limit = limit; windows = []; last_cleanup = none }

abbrev pub has_key : String → Window → Bool
has_key key w = str_eq w.key key

-- now.Sub(started) >= time.Minute
abbrev pub is_over : ℕ → ℕ → Bool
is_over now started = leb (started + 60000) now

abbrev needs_cleanup : ℕ → Option ℕ → Bool
needs_cleanup now none = true
needs_cleanup now (some last) = is_over now last

unfoldable pub clean : ℕ → Limiter → Limiter
unfolding delete
clean now l =
    if needs_cleanup now l.last_cleanup
    then record l {
      windows = delete (λ w. is_over now w.started) l.windows;
      last_cleanup = some now;
    }
    else l

-- windows[key] = w
unfoldable pub put : Window → List Window → List Window
unfolding delete
put w ws = w ∷ delete (has_key w.key) ws

unfoldable pub open_window : String → ℕ → Limiter → Limiter
unfolding put
open_window key now l = record l {
  windows = put (record { key = key; started = now; count = 1 }) l.windows;
}

-- What Allow does after the cleanup.
unfoldable pub admit : String → ℕ → Limiter → Limiter × Bool
unfolding find put open_window
admit key now l =
    if leb 10000 (length l.windows) then (l, false) else elim (find (has_key key) l.windows) [
      | none ↦ (open_window key now l, true)
      | some w ↦
          if is_over now w.started
          then (open_window key now l, true)
          else if leb l.limit w.count
          then (l, false)
          else (record l { windows = put (record w { count = suc w.count }) l.windows }, true)
    ]

unfoldable pub allow : String → ℕ → Limiter → Limiter × Bool
unfolding clean admit
allow key now l = if leb l.limit 0 then (l, false) else admit key now (clean now l)
