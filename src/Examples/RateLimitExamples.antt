-- ===== src/Examples/RateLimitExamples.antt =====
-- Two requests a second, from two clients.
use wantmytime.Prelude.{◌≡◌, refl, [], ◌∷◌, arith, List, String}
use wantmytime.Prelude.Int64.{pos}
use wantmytime.Prelude.Time.{Time, second}
use wantmytime.RateLimit.{RateLimiter}
use wantmytime.RateLimit.Window.{admitted, allow_local_window}

abbrev two_a_second : RateLimiter
two_a_second = record { limit = pos 2; window = pos second; hits = []; swept = 0 }

abbrev calls : List (String × Time)
calls = ("b", 5) ∷ ("a", 6) ∷ ("a", 7) ∷ []

allow_local_window_example : (admitted "a" (("a", 5) ∷ calls) two_a_second).0 ≡ 2
allow_local_window_example =
    allow_local_window "a" 5 second 2 two_a_second calls (omega arith) (omega arith) refl refl refl
      (omega arith, omega arith, (omega arith, omega arith, (omega arith, omega arith, tt)))
