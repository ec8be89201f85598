-- ===== src/Http/Examples.antt =====
-- The theorem on the login limiter at a limiter of two requests.
pub mod Access
use luxury_video_tool.Base.{ℕ, ◌+◌, ◌≤◌, ◌≡◌, refl, String, some, true, List, [], ◌∷◌, arith}
use luxury_video_tool.Sql.{find}
use luxury_video_tool.Http.Limiter.{Limiter, allow}
use luxury_video_tool.Http.Limiter.Bounds.{accepted, accepted-limit}

abbrev pub limiter : Limiter
limiter = record {
  limit = 2;
  windows = record { key = "a"; started = 1000; count = 1 } ∷ [];
  last_cleanup = some 1000;
}

abbrev requests : List (String × ℕ)
requests = ("a", 2000) ∷ ("b", 2500) ∷ ("a", 3000) ∷ ("a", 60999) ∷ []

-- One of the three is admitted.
accepted_once : accepted "a" requests limiter ≡ 1
unfolding accepted
accepted_once = refl

-- A minute later the window is opened anew.
opened_anew : (allow "a" 61000 (allow "a" 2000 limiter).0).1 ≡ true
unfolding allow
opened_anew = refl

accepted-limit_example : 1 + accepted "a" requests limiter ≤ 2
unfolding find
accepted-limit_example =
    accepted-limit "a" requests limiter (record { key = "a"; started = 1000; count = 1 }) refl
      (ground arith) (ground arith, (ground arith, (ground arith, (ground arith, tt))))
