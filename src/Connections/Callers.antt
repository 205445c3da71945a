-- ===== src/Connections/Callers.antt =====
-- How many actions a caller is from its return.
use flux_panel_v.Base.{
  ℕ, ◌+◌, ◌≤◌, ◌≡◌, refl, subst, ◌∙◌, ◌⊎◌, inl, inr, true, false, Option, some, List, [], ◌∷◌,
  arith, Text, is_some, is_empty, eq_text, Bool-cases, Option-cases, if◌then◌else◌,
}
use flux_panel_v.Connections.{
  write_by, write, writing, writes, takes_off, Answer, Caller, idle, waiting, expired, returned,
  Manager, Request, Inbound, metrics, reply, ignored, broadcast, read_node_message, Event, connects,
  ends, sends, reads, hands_over, receives, times_out, forgets, is_idle, take_reply, step, run,
  send_request, put_answer, hand_over, get_answer, receive, expire, expire_by, forget, forget_by,
}
use flux_panel_v.Connections.Requests.{
  not_none, some_eq, at_id, reply_at, request_after, step-requests,
}
use flux_panel_v.Connections.Waiting.{AllOf, AllOf-at_id, AllOf-some, some_with}

-- How many more actions the caller needs at most.
abbrev pub rank : Caller → ℕ
rank writing = 3
rank waiting = 2
rank expired = 1
rank _ = 0

-- The actions of the caller of a request in a run.
abbrev pub own_actions : Text → List Event → ℕ
own_actions x [] = 0
own_actions x (writes id ∷ es) = (if eq_text x id then 1 else 0) + own_actions x es
own_actions x (receives id ∷ es) = (if eq_text x id then 1 else 0) + own_actions x es
own_actions x (times_out id ∷ es) = (if eq_text x id then 1 else 0) + own_actions x es
own_actions x (forgets id ∷ es) = (if eq_text x id then 1 else 0) + own_actions x es
own_actions x (e ∷ es) = own_actions x es

-- The request was sent, and its caller needs so many actions less.
abbrev Nears : ℕ → ℕ → Request → Type 0
Nears n before r = (is_idle r.caller ≡ false) × (rank r.caller + n ≤ before)

take_reply-caller : (t : Text) (r : Request) → (take_reply t r).caller ≡ r.caller
take_reply-caller t r = ground arith

reply_at-caller : (x : Text) (i : Inbound) (r : Request) → (reply_at x i r).caller ≡ r.caller
reply_at-caller x metrics r = refl
reply_at-caller x (reply id t) r = elim (Bool-cases (eq_text x id)) [
  | inl own ↦ rw own (take_reply-caller t r)
  | inr other ↦ rw other refl
]
reply_at-caller x ignored r = refl
reply_at-caller x broadcast r = refl

send-Nears :
    (s : Option ℕ) (r : Request)
    → is_idle r.caller ≡ false
    → AllOf (Nears 0 (rank r.caller)) (send_request s r)
send-Nears s r sent = rw sent tt

put-Nears :
    (carried : List Text) (r : Request)
    → is_idle r.caller ≡ false
    → AllOf (Nears 0 (rank r.caller)) (put_answer carried r)
put-Nears [] r sent = tt
put-Nears (t ∷ ts) r sent = elim (Bool-cases (is_empty r.channel)) [
  | inl room ↦ rw room (sent, omega arith)
  | inr full ↦ rw full tt
]

receive-Nears :
    (c : Caller) (channel : List Text) (r : Request)
    → AllOf (Nears 1 (rank c)) (get_answer c channel r)
receive-Nears idle ts r = tt
receive-Nears writing ts r = tt
receive-Nears waiting [] r = tt
receive-Nears waiting (t ∷ ts) r = (refl, omega arith)
receive-Nears expired ts r = tt
receive-Nears (returned a) ts r = tt

write-Nears : (c : Caller) (r : Request) → AllOf (Nears 1 (rank c)) (write_by c r)
write-Nears idle r = tt
write-Nears writing r = (refl, omega arith)
write-Nears waiting r = tt
write-Nears expired r = tt
write-Nears (returned a) r = tt

expire-Nears : (c : Caller) (r : Request) → AllOf (Nears 1 (rank c)) (expire_by c r)
expire-Nears idle r = tt
expire-Nears writing r = tt
expire-Nears waiting r = (refl, omega arith)
expire-Nears expired r = tt
expire-Nears (returned a) r = tt

forget-Nears : (c : Caller) (r : Request) → AllOf (Nears 1 (rank c)) (forget_by c r)
forget-Nears idle r = tt
forget-Nears writing r = tt
forget-Nears waiting r = tt
forget-Nears expired r = (refl, omega arith)
forget-Nears (returned a) r = tt

-- Only the caller's own actions bring it nearer.
own_at :
    (act : Request → Option Request) (x id : Text) (r : Request)
    → is_idle r.caller ≡ false
    → AllOf (Nears 1 (rank r.caller)) (act r)
    → AllOf (Nears (if eq_text x id then 1 else 0) (rank r.caller)) (at_id x id act r)
own_at act x id r sent h = elim (Bool-cases (eq_text x id)) [
  | inl own ↦ rw own h
  | inr other ↦ rw other (sent, omega arith)
]

abbrev is_own : Text → Event → ℕ
is_own x (writes id) = if eq_text x id then 1 else 0
is_own x (receives id) = if eq_text x id then 1 else 0
is_own x (times_out id) = if eq_text x id then 1 else 0
is_own x (forgets id) = if eq_text x id then 1 else 0
is_own x e = 0

own_first :
    (x : Text) (e : Event) (es : List Event)
    → own_actions x (e ∷ es) ≡ is_own x e + own_actions x es
own_first x (connects n s) es = omega arith
own_first x (ends n s) es = omega arith
own_first x (takes_off n s) es = omega arith
own_first x (writes id) es = refl
own_first x (sends n id) es = omega arith
own_first x (reads s) es = omega arith
own_first x (hands_over id) es = omega arith
own_first x (receives id) es = refl
own_first x (times_out id) es = refl
own_first x (forgets id) es = refl

module _ (parse : Text → Option (Text × Text)) where
  event-Nears :
      (x : Text) (e : Event) (sessions : ℕ → Option ℕ) (r : Request)
      → is_idle r.caller ≡ false
      → AllOf (Nears (is_own x e) (rank r.caller)) (request_after parse x e sessions r)
  event-Nears x (connects n s) sessions r sent = (sent, omega arith)
  event-Nears x (ends n s) sessions r sent = (sent, omega arith)
  event-Nears x (takes_off n s) sessions r sent = (sent, omega arith)
  event-Nears x (writes id) sessions r sent = own_at write x id r sent (write-Nears r.caller r)
  event-Nears x (sends n id) sessions r sent =
      AllOf-at_id _ (send_request (sessions n)) x id r (sent, omega arith)
        (send-Nears (sessions n) r sent)
  event-Nears x (reads s) sessions r sent =
      rw (reply_at-caller x (read_node_message parse s) r) (sent, omega arith)
  event-Nears x (hands_over id) sessions r sent =
      AllOf-at_id _ hand_over x id r (sent, omega arith) (put-Nears r.carried r sent)
  event-Nears x (receives id) sessions r sent =
      own_at receive x id r sent (receive-Nears r.caller r.channel r)
  event-Nears x (times_out id) sessions r sent = own_at expire x id r sent (expire-Nears r.caller r)
  event-Nears x (forgets id) sessions r sent = own_at forget x id r sent (forget-Nears r.caller r)

  run-Nears :
      (x : Text) (es : List Event) (m v : Manager)
      → run parse es m ≡ some v
      → is_idle (m.requests x).caller ≡ false
      → Nears (own_actions x es) (rank (m.requests x).caller) (v.requests x)
  unfolding run
  run-Nears x [] m v h sent =
      subst (λ (u : Manager). Nears 0 (rank (m.requests x).caller) (u.requests x)) (some_eq m v h)
        (sent, omega arith)
  run-Nears x (e ∷ es) m v h sent = elim (Option-cases (step parse e m)) [
    | inl stuck ↦ absurd (not_none v (rw stuck at h))
    | inr (u, done) ↦
        let first : Nears (is_own x e) (rank (m.requests x).caller) (u.requests x) =
          AllOf-some _ (u.requests x) (step-requests parse x e m u done)
            (event-Nears x e m.node_sessions (m.requests x) sent) in
        let rest = run-Nears x es u v (rw done at h) first.0 in
        (rest.0, omega (arith, first.1, rest.1, own_first x e es))
  ]

  -- A caller that waits and is not done has an action of its own that is possible.
  may_act :
      (c : Caller) (r : Request)
      → is_idle c ≡ false
      → rank c ≤ 2
      → ((a : Answer) × (c ≡ returned a))
        ⊎ ((is_some (expire_by c r) ≡ true) ⊎ (is_some (forget_by c r) ≡ true))
  may_act idle r sent near = cc
  may_act writing r sent near = absurd (omega arith)
  may_act waiting r sent near = inr (inl refl)
  may_act expired r sent near = inr (inr refl)
  may_act (returned a) r sent near = inl (a, refl)

  -- Whatever the readers, the other callers and the nodes do in a run, a caller whose `sendToNode` has
  -- returned takes two more actions at most, and until it has returned itself, one of its own actions,
  -- the timeout or the removal after it, is possible: the wait for the answer is not for ever. Nothing
  -- is said of a caller that is still in `sendToNode`.
  pub run-rank :
      (id : Text) (es : List Event) (m v : Manager)
      → run parse es m ≡ some v
      → (m.requests id).caller ≡ waiting
      → (rank (v.requests id).caller + own_actions id es ≤ 2)
        × (((a : Answer) × ((v.requests id).caller ≡ returned a))
            ⊎ ((is_some (step parse (times_out id) v) ≡ true)
                ⊎ (is_some (step parse (forgets id) v) ≡ true)))
  unfolding step
  run-rank id es m v h sent =
      let near = run-Nears id es m v h (rw sent refl) in
      let two : rank (m.requests id).caller ≡ 2 = rw sent refl in
      (
        omega (arith, near.1, two),
        elim (may_act (v.requests id).caller (v.requests id) near.0 (omega (arith, near.1, two))) [
          | inl done ↦ inl done
          | inr (inl late) ↦ inr (inl (some_with id (expire (v.requests id)) v ∙ late))
          | inr (inr gone) ↦ inr (inr (some_with id (forget (v.requests id)) v ∙ gone))
        ],
      )
