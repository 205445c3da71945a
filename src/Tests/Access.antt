-- ===== src/Tests/Access.antt =====
-- The rate limiter at concrete inputs.
use flux_panel_v.Base.{◌≡◌, refl, List, [], ◌∷◌, arith, codes, eq_text, true, false}
use flux_panel_v.RateLimit.{
  RateLimiter, new_rate_limiter, Event, request, sweep, put, allow_first, allow_next, allow,
  cleanup, answers,
}
use flux_panel_v.RateLimit.Windows.{admitted, admitted-window}
use flux_panel_v.RateLimit.Cleanup.{requests_only, answers-requests_only}

-- Two requests in a window of ten.
abbrev small : RateLimiter
small = new_rate_limiter 2 10

abbrev busy : List Event
busy = request (codes "b") 1 ∷ (request (codes "a") 2 ∷ (sweep 3 ∷ (request (codes "a") 10 ∷ [])))

third_refused : answers small (request (codes "a") 0 ∷ busy) ≡ true ∷ (true ∷ (true ∷ (false ∷ [])))
unfolding answers allow allow_first allow_next put cleanup eq_text
third_refused = refl

admitted-window_example : admitted (codes "a") small (request (codes "a") 0 ∷ busy) ≡ 2
unfolding eq_text
admitted-window_example =
    admitted-window (codes "a") 0 busy small refl (omega arith) (omega arith) (omega arith)
      (omega arith, (omega arith, (omega arith, (omega arith, tt))))

answers-requests_only_example : answers small busy ≡ answers small (requests_only busy)
answers-requests_only_example =
    answers-requests_only 0 small busy
      (omega arith, (omega arith, (omega arith, (omega arith, tt))))
