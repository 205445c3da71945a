-- ===== src/RateLimit/Windows.antt =====
-- How many requests an address may send within a window.
use flux_panel_v.Base.{
  subst, ℕ, ◌%◌, ◌+◌, ◌≤◌, ◌<◌, ◌≡◌, refl, sym, ap, ◌∙◌, inl, inr, Bool, true, false, Option, none,
  some, List, [], ◌∷◌, arith, Text, eq_text, eq_text_refl, eq_text→eq, leb, if◌then◌else◌,
  Bool-cases, le_int64, All, length,
}
use flux_panel_v.RateLimit.{
  IpRecord, RateLimiter, put, count_up, allow_first, allow_next, allow_by, allow, live, cleanup,
  Event, request, sweep, time_of, after,
}

abbrev pub min : ℕ → ℕ → ℕ
min a b = if leb a b then a else b

-- The requests of an address, and those of them that are admitted.
abbrev pub requests : Text → List Event → ℕ
requests ip [] = 0
requests ip (request x now ∷ es) = (if eq_text x ip then 1 else 0) + requests ip es
requests ip (sweep now ∷ es) = requests ip es

abbrev pub is_admitted : Text → Event → RateLimiter → Bool
is_admitted ip (request x now) rl = if eq_text x ip then (allow x now rl).0 else false
is_admitted ip (sweep now) rl = false

unfoldable pub admitted : Text → RateLimiter → List Event → ℕ
admitted ip rl [] = 0
admitted ip rl (e ∷ es) = (if is_admitted ip e rl then 1 else 0) + admitted ip (after e rl) es

-- No record of the address is in force.
abbrev pub IsFresh : Text → ℕ → RateLimiter → Type 0
IsFresh ip now rl = live now (rl.records ip) ≡ none

-- A request of another address leaves a record alone, and so does a cleanup in time.
other-records :
    (ip x : Text) (now : ℕ) (r : Option IpRecord) (rl : RateLimiter)
    → eq_text ip x ≡ false
    → (allow_by x now r rl).1.records ip ≡ rl.records ip
unfolding allow_first allow_next put
other-records ip x now r rl h = ground arith

sweep-records :
    (ip : Text) (now : ℕ) (r : IpRecord) (rl : RateLimiter)
    → now ≤ r.reset_at
    → rl.records ip ≡ some r
    → (cleanup now rl).records ip ≡ some r
unfolding cleanup
sweep-records ip now r rl h e = rw e (ground arith)

allow_by-first :
    (ip : Text) (now : ℕ) (r : Option IpRecord) (rl : RateLimiter)
    → live now r ≡ none
    → allow_by ip now r rl ≡ allow_first ip now rl
allow_by-first ip now none rl h = refl
allow_by-first ip now (some r) rl h = ground arith

allow-first :
    (ip : Text) (now : ℕ) (rl : RateLimiter)
    → IsFresh ip now rl
    → allow ip now rl ≡ allow_first ip now rl
unfolding allow
allow-first ip now rl h = allow_by-first ip now (rl.records ip) rl h

allow-next :
    (ip : Text) (now : ℕ) (r : IpRecord) (rl : RateLimiter)
    → now ≤ r.reset_at
    → rl.records ip ≡ some r
    → allow ip now rl ≡ allow_next ip r rl
unfolding allow
allow-next ip now r rl h e = rw e (ground arith)

eq_text_sym : (s t : Text) → eq_text s t ≡ eq_text t s
unfolding eq_text
eq_text_sym [] [] = refl
eq_text_sym [] (d ∷ t) = refl
eq_text_sym (c ∷ s) [] = refl
eq_text_sym (c ∷ s) (d ∷ t) = ground (arith, eq_text_sym s t)

put-own :
    (ip x : Text) (r : IpRecord) (rl : RateLimiter) → x ≡ ip → (put x r rl).records ip ≡ some r
unfolding put
put-own ip x r rl e =
    let own : eq_text ip x ≡ true = subst (λ y. eq_text y x ≡ true) e (eq_text_refl x) in
    rw own refl

allow_by-limit :
    (ip : Text) (now : ℕ) (r : Option IpRecord) (rl : RateLimiter)
    → (allow_by ip now r rl).1.limit ≡ rl.limit
unfolding allow_first allow_next put
allow_by-limit ip now none rl = refl
allow_by-limit ip now (some r) rl = ground arith

-- One more request counted, and the requests after it.
one_more :
    (c limit n rest : ℕ)
    → limit < 9223372036854775808
    → c + 1 < 9223372036854775808
    → rest + min ((c + 1) % 18446744073709551616) limit
      ≡ min ((c + 1) % 18446744073709551616 + n) limit
    → (if le_int64 ((c + 1) % 18446744073709551616) limit then 1 else 0) + rest + min c limit
      ≡ min (c + (1 + n)) limit
one_more c limit n rest small fits ih = ground arith

none_more :
    (c limit n rest : ℕ)
    → rest + min c limit ≡ min (c + n) limit
    → 0 + rest + min c limit ≡ min (c + (0 + n)) limit
none_more c limit n rest ih = ground arith

-- Within the window, as many more requests are admitted as are left of the limit.
admitted-rest :
    (ip : Text) (es : List Event) (r : IpRecord) (rl : RateLimiter)
    → rl.records ip ≡ some r
    → rl.limit < 9223372036854775808
    → r.count + length es < 9223372036854775808
    → All (λ e. time_of e ≤ r.reset_at) es
    → admitted ip rl es + min r.count rl.limit ≡ min (r.count + requests ip es) rl.limit
unfolding admitted after allow_next put cleanup
admitted-rest ip [] r rl known small fits early = ground arith
admitted-rest ip (sweep now ∷ es) r rl known small fits early =
    let ih : admitted ip (cleanup now rl) es + min r.count rl.limit
        ≡ min (r.count + requests ip es) rl.limit =
      admitted-rest ip es r (cleanup now rl) (sweep-records ip now r rl early.0 known) small
        (omega arith) early.1 in
    omega (arith, ih)
admitted-rest ip (request x now ∷ es) r rl known small fits early =
    elim (Bool-cases (eq_text x ip)) [
      | inl own ↦
          let same = eq_text→eq x ip own in
          let plain : (r.count + 1) % 18446744073709551616 ≡ r.count + 1 = omega arith in
          let step = allow-next x now r rl early.0 (ap rl.records same ∙ known) in
          let ih =
            admitted-rest ip es (count_up r) (put x (count_up r) rl)
              (put-own ip x (count_up r) rl same) small (omega arith) early.1 in
          rw own (
            subst
              (λ (p : Bool × RateLimiter).
                (if p.0 then 1 else 0) + admitted ip p.1 es + min r.count rl.limit
                ≡ min (r.count + (1 + requests ip es)) rl.limit)
              (sym step)
              (one_more r.count rl.limit (requests ip es) (admitted ip (put x (count_up r) rl) es)
                small (omega arith) ih))
      | inr other ↦
          let kept : (allow x now rl).1.limit ≡ rl.limit =
            unfold allow in allow_by-limit x now (rl.records x) rl in
          let there : (allow x now rl).1.records ip ≡ some r =
            unfold allow in
            other-records ip x now (rl.records x) rl (eq_text_sym ip x ∙ other) ∙ known in
          let ih =
            admitted-rest ip es r (allow x now rl).1 there (rw kept small) (omega arith) early.1 in
          let same_limit : admitted ip (allow x now rl).1 es + min r.count rl.limit
              ≡ min (r.count + requests ip es) rl.limit =
            subst
              (λ l.
                admitted ip (allow x now rl).1 es + min r.count l
                ≡ min (r.count + requests ip es) l)
              kept ih in
          rw other (none_more r.count rl.limit (requests ip es) _ same_limit)
    ]

-- An address without a record in force, one that never sent a request among them, sends a request,
-- and other events follow before its window is over. Then of all its requests exactly the first ones
-- are admitted, up to the limit, however other addresses and cleanups come between them.
pub admitted-window :
    (ip : Text) (t : ℕ) (es : List Event) (rl : RateLimiter)
    → IsFresh ip t rl
    → 1 ≤ rl.limit
    → rl.limit < 9223372036854775808
    → 1 + length es < 9223372036854775808
    → All (λ e. time_of e ≤ t + rl.window) es
    → admitted ip rl (request ip t ∷ es) ≡ min (1 + requests ip es) rl.limit
unfolding admitted after allow_first put
admitted-window ip t es rl fresh some_limit small fits early =
    let start : IpRecord = record { count = 1; reset_at = t + rl.window } in
    let rest =
      admitted-rest ip es start (put ip start rl) (put-own ip ip start rl refl) small fits early in
    rw (eq_text_refl ip) (
      subst
        (λ (p : Bool × RateLimiter).
          (if p.0 then 1 else 0) + admitted ip p.1 es ≡ min (1 + requests ip es) rl.limit)
        (sym (allow-first ip t rl fresh)) (ground arith))
