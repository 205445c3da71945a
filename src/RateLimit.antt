-- ===== src/RateLimit.antt =====
-- The rate limiter of logins and captchas: go-backend/middleware/rate_limit.go. A map is a function,
-- times are nanoseconds, and a count is an int64 that may wrap.
pub mod Windows
pub mod Cleanup
use flux_panel_v.Base.{
  ℕ, ◌+◌, ◌%◌, Bool, true, Option, none, some, List, [], ◌∷◌, Text, eq_text, ltb, le_int64,
  if◌then◌else◌,
}

pub record IpRecord : Type 0 where
  pub count : ℕ
  pub reset_at : ℕ

pub record RateLimiter : Type 0 where
  pub records : Text → Option IpRecord
  pub limit : ℕ
  pub window : ℕ

abbrev pub new_rate_limiter : ℕ → ℕ → RateLimiter
new_rate_limiter limit window = record { records = λ ip. none; limit = limit; window = window }

abbrev pub login_limiter : RateLimiter
login_limiter = new_rate_limiter 10 60000000000

abbrev pub captcha_limiter : RateLimiter
captcha_limiter = new_rate_limiter 20 60000000000

-- `now.After(rec.resetAt)`
abbrev pub is_over : ℕ → IpRecord → Bool
is_over now r = ltb r.reset_at now

unfoldable pub put : Text → IpRecord → RateLimiter → RateLimiter
put ip r rl = record rl { records = λ x. if eq_text x ip then some r else rl.records x }

abbrev pub count_up : IpRecord → IpRecord
count_up r = record r { count = (r.count + 1) % 18446744073709551616 }

unfoldable pub allow_first : Text → ℕ → RateLimiter → Bool × RateLimiter
allow_first ip now rl = (true, put ip (record { count = 1; reset_at = now + rl.window }) rl)

unfoldable pub allow_next : Text → IpRecord → RateLimiter → Bool × RateLimiter
allow_next ip r rl = (le_int64 (count_up r).count rl.limit, put ip (count_up r) rl)

abbrev pub allow_by : Text → ℕ → Option IpRecord → RateLimiter → Bool × RateLimiter
allow_by ip now none rl = allow_first ip now rl
allow_by ip now (some r) rl = if is_over now r then allow_first ip now rl else allow_next ip r rl

unfoldable pub allow : Text → ℕ → RateLimiter → Bool × RateLimiter
allow ip now rl = allow_by ip now (rl.records ip) rl

-- The record that a cleanup leaves of one.
abbrev pub live : ℕ → Option IpRecord → Option IpRecord
live now none = none
live now (some r) = if is_over now r then none else some r

unfoldable pub cleanup : ℕ → RateLimiter → RateLimiter
cleanup now rl = record rl { records = λ ip. live now (rl.records ip) }

-- What happens to a limiter, one after the other under its lock.
pub data Event : Type 0 where
  request : Text → ℕ → Event
  sweep : ℕ → Event

abbrev pub time_of : Event → ℕ
time_of (request ip now) = now
time_of (sweep now) = now

unfoldable pub after : Event → RateLimiter → RateLimiter
after (request ip now) rl = (allow ip now rl).1
after (sweep now) rl = cleanup now rl

-- The answers to the requests.
unfoldable pub answers : RateLimiter → List Event → List Bool
answers rl [] = []
answers rl (request ip now ∷ es) =
    let rest = answers (allow ip now rl).1 es in (allow ip now rl).0 ∷ rest
answers rl (sweep now ∷ es) = answers (cleanup now rl) es
