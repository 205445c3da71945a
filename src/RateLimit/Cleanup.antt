-- ===== src/RateLimit/Cleanup.antt =====
-- The periodic cleanup, which changes no answer.
use flux_panel_v.Base.{
  ℕ, ◌+◌, ◌≤◌, ◌≡◌, refl, sym, ap, ◌∙◌, inl, inr, Option, none, some, List, [], ◌∷◌, arith, Text,
  eq_text, Bool-cases, le_int64,
}
use flux_panel_v.RateLimit.{
  IpRecord, RateLimiter, is_over, put, count_up, allow_first, allow_next, allow_by, allow, live,
  cleanup, Event, request, sweep, time_of, answers,
}

-- The events without the cleanups.
abbrev pub requests_only : List Event → List Event
requests_only [] = []
requests_only (request ip now ∷ es) = request ip now ∷ requests_only es
requests_only (sweep now ∷ es) = requests_only es

-- The clock does not go back.
abbrev pub IsOrdered : ℕ → List Event → Type 0
IsOrdered t [] = Unit
IsOrdered t (e ∷ es) = (t ≤ time_of e) × IsOrdered (time_of e) es

-- Two limiters with the same records but for those that are over.
record Alike (t : ℕ) (a b : RateLimiter) : Type 0 where
  limit : a.limit ≡ b.limit
  window : a.window ≡ b.window
  records : (ip : Text) → live t (a.records ip) ≡ live t (b.records ip)

live-live : (t now : ℕ) (r : Option IpRecord) → t ≤ now → live now (live t r) ≡ live now r
live-live t now none h = refl
live-live t now (some r) h = ground arith

Alike-later : (t now : ℕ) (a b : RateLimiter) → t ≤ now → Alike t a b → Alike now a b
Alike-later t now a b h k = record {
  limit = k.limit;
  window = k.window;
  records = λ ip.
      sym (live-live t now (a.records ip) h)
      ∙ (ap (live now) (k.records ip) ∙ live-live t now (b.records ip) h);
}

Alike-put :
    (now : ℕ) (ip : Text) (r q : IpRecord) (a b : RateLimiter)
    → r ≡ q
    → Alike now a b
    → Alike now (put ip r a) (put ip q b)
unfolding put
Alike-put now ip r q a b e k = record {
  limit = k.limit;
  window = k.window;
  records = λ x. elim (Bool-cases (eq_text x ip)) [
    | inl own ↦ rw own (ap (λ s. live now (some s)) e)
    | inr other ↦ rw other (k.records x)
  ];
}

Alike-cleanup : (now : ℕ) (a b : RateLimiter) → Alike now a b → Alike now (cleanup now a) b
unfolding cleanup
Alike-cleanup now a b k = record {
  limit = k.limit;
  window = k.window;
  records = λ ip. live-live now now (a.records ip) (omega arith) ∙ k.records ip;
}

-- A record that is over counts for none.
allow_by-live :
    (ip : Text) (now : ℕ) (r : Option IpRecord) (rl : RateLimiter)
    → allow_by ip now r rl ≡ allow_by ip now (live now r) rl
allow_by-live ip now none rl = refl
allow_by-live ip now (some r) rl = elim (Bool-cases (is_over now r)) [
  | inl gone ↦ rw gone refl
  | inr there ↦ rw (there, there) refl
]

-- The window that a first request opens.
Alike-first :
    (ip : Text) (now : ℕ) (a b : RateLimiter)
    → Alike now a b
    → Alike now (allow_first ip now a).1 (allow_first ip now b).1
unfolding allow_first
Alike-first ip now a b k =
    Alike-put now ip _ _ a b (ap (λ w. record { count = 1; reset_at = now + w }) k.window) k

allow_by-Alike :
    (ip : Text) (now : ℕ) (r : Option IpRecord) (a b : RateLimiter)
    → Alike now a b
    → ((allow_by ip now r a).0 ≡ (allow_by ip now r b).0)
      × Alike now (allow_by ip now r a).1 (allow_by ip now r b).1
unfolding allow_first allow_next
allow_by-Alike ip now none a b k = (refl, Alike-first ip now a b k)
allow_by-Alike ip now (some r) a b k = elim (Bool-cases (is_over now r)) [
  | inl gone ↦ rw gone (refl, Alike-first ip now a b k)
  | inr there ↦ rw there (
    ap (le_int64 (count_up r).count) k.limit,
    Alike-put now ip (count_up r) (count_up r) a b refl k,
  )
]

allow-Alike :
    (ip : Text) (now : ℕ) (a b : RateLimiter)
    → Alike now a b
    → ((allow ip now a).0 ≡ (allow ip now b).0) × Alike now (allow ip now a).1 (allow ip now b).1
unfolding allow
allow-Alike ip now a b k =
    rw (allow_by-live ip now (a.records ip) a, allow_by-live ip now (b.records ip) b, k.records ip)
      (allow_by-Alike ip now (live now (b.records ip)) a b k)

Alike-answers :
    (t : ℕ) (a b : RateLimiter) (es : List Event)
    → IsOrdered t es
    → Alike t a b
    → answers a es ≡ answers b (requests_only es)
unfolding answers
Alike-answers t a b [] o k = refl
Alike-answers t a b (request ip now ∷ es) o k =
    let (same, next) = allow-Alike ip now a b (Alike-later t now a b o.0 k) in
    let rest = Alike-answers now _ _ es o.1 next in rw (same, rest) refl
Alike-answers t a b (sweep now ∷ es) o k =
    Alike-answers now _ _ es o.1 (Alike-cleanup now a b (Alike-later t now a b o.0 k))

-- As long as the clock does not go back, the cleanups between requests change none of the answers.
pub answers-requests_only :
    (t : ℕ) (rl : RateLimiter) (es : List Event)
    → IsOrdered t es
    → answers rl es ≡ answers rl (requests_only es)
answers-requests_only t rl es o =
    Alike-answers t rl rl es o (record { limit = refl; window = refl; records = λ ip. refl })
