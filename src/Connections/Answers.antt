-- ===== src/Connections/Answers.antt =====
-- Where the answers come from.
use flux_panel_v.Base.{
  ℕ, ◌≡◌, refl, sym, ap, subst, ◌∙◌, ◌⊎◌, inl, inr, Bool, true, false, Option, none, some, List, [],
  ◌∷◌, arith, Text, Any, is_empty, eq_text, eq_text→eq, contains, codes, Bool-cases, Option-cases,
}
use flux_panel_v.Connections.{
  write_by, write, writing, writes, takes_off, answered, Caller, idle, waiting, expired, returned,
  Manager, Request, new_manager, Inbound, metrics, reply, ignored, broadcast, reply_of,
  read_node_message, Event, connects, ends, sends, reads, hands_over, receives, times_out, forgets,
  is_idle, take_reply, step, run, send_request, hand_over, receive, expire, expire_by, forget,
  forget_by,
}
use flux_panel_v.Connections.Requests.{
  not_none, some_eq, at_id, reply_at, request_after, step-requests,
}
use flux_panel_v.Connections.Waiting.{AllOf, AllOf-at_id, AllOf-some}

-- A text that the caller returned, or that is on its way to it.
abbrev IsReturned : Text → Caller → Type 0
IsReturned t (returned (answered u)) = u ≡ t
IsReturned t _ = ⊥

abbrev Carries : Text → Request → Type 0
Carries t r = IsReturned t r.caller ⊎ (Any (λ u. u ≡ t) r.carried ⊎ Any (λ u. u ≡ t) r.channel)

module _ (parse : Text → Option (Text × Text)) (x t : Text) where
  -- A node's message that answers the request with this text.
  abbrev pub Replies : Event → Type 0
  Replies (reads s) = read_node_message parse s ≡ reply x t
  Replies _ = ⊥

-- An action that carries nothing new.
abbrev Keeps : Text → Request → Request → Type 0
Keeps t r q = Carries t q → Carries t r

send-Keeps : (t : Text) (s : Option ℕ) (r : Request) → AllOf (Keeps t r) (send_request s r)
send-Keeps t none r = elim (Bool-cases (is_idle r.caller)) [
  | inl new ↦ rw new (λ k. inr (elim k [ inl h ↦ absurd h | inr h ↦ h ]))
  | inr old ↦ rw old tt
]
send-Keeps t (some n) r = elim (Bool-cases (is_idle r.caller)) [
  | inl new ↦ rw new (λ k. inr (elim k [ inl h ↦ absurd h | inr h ↦ h ]))
  | inr old ↦ rw old tt
]

hand_over-Keeps : (t : Text) (r : Request) → AllOf (Keeps t r) (hand_over r)
hand_over-Keeps t r = handed r.caller r.is_pending r.carried r.channel
  where
    handed :
        (c : Caller) (p : Bool) (carried channel : List Text)
        → AllOf
            (Keeps t (record { caller = c; is_pending = p; carried = carried; channel = channel }))
            (hand_over
              (record { caller = c; is_pending = p; carried = carried; channel = channel }))
    handed c p [] channel = tt
    handed c p (u ∷ us) [] = λ k. elim k [
      | inl said ↦ inl said
      | inr (inl later) ↦ inr (inl (inr later))
      | inr (inr (inl now)) ↦ inr (inl (inl now))
      | inr (inr (inr h)) ↦ absurd h
    ]
    handed c p (u ∷ us) (w ∷ ws) = tt

receive-Keeps : (t : Text) (r : Request) → AllOf (Keeps t r) (receive r)
receive-Keeps t r = received r.caller r.is_pending r.carried r.channel
  where
    received :
        (c : Caller) (p : Bool) (carried channel : List Text)
        → AllOf
            (Keeps t (record { caller = c; is_pending = p; carried = carried; channel = channel }))
            (receive (record { caller = c; is_pending = p; carried = carried; channel = channel }))
    received idle p carried channel = tt
    received writing p carried channel = tt
    received waiting p carried [] = tt
    received waiting p carried (u ∷ us) = λ k. elim k [
      | inl said ↦ inr (inr (inl said))
      | inr (inl later) ↦ inr (inl later)
      | inr (inr h) ↦ inr (inr (inr h))
    ]
    received expired p carried channel = tt
    received (returned a) p carried channel = tt

write-Keeps : (t : Text) (c : Caller) (r : Request) → AllOf (Keeps t r) (write_by c r)
write-Keeps t idle r = tt
write-Keeps t writing r = λ k. inr (elim k [ inl h ↦ absurd h | inr h ↦ h ])
write-Keeps t waiting r = tt
write-Keeps t expired r = tt
write-Keeps t (returned a) r = tt

expire-Keeps : (t : Text) (c : Caller) (r : Request) → AllOf (Keeps t r) (expire_by c r)
expire-Keeps t idle r = tt
expire-Keeps t writing r = tt
expire-Keeps t waiting r = λ k. inr (elim k [ inl h ↦ absurd h | inr h ↦ h ])
expire-Keeps t expired r = tt
expire-Keeps t (returned a) r = tt

forget-Keeps : (t : Text) (c : Caller) (r : Request) → AllOf (Keeps t r) (forget_by c r)
forget-Keeps t idle r = tt
forget-Keeps t writing r = tt
forget-Keeps t waiting r = tt
forget-Keeps t expired r = λ k. inr (elim k [ inl h ↦ absurd h | inr h ↦ h ])
forget-Keeps t (returned a) r = tt

-- A reply brings its own text only.
take_reply-Carries : (t u : Text) (r : Request) → Carries t (take_reply u r) → Carries t r ⊎ (u ≡ t)
take_reply-Carries t u r k = taken r.caller r.is_pending r.carried r.channel k
  where
    taken :
        (c : Caller) (p : Bool) (carried channel : List Text)
        → Carries t (
            take_reply u
              (record { caller = c; is_pending = p; carried = carried; channel = channel }))
        → Carries t (record { caller = c; is_pending = p; carried = carried; channel = channel })
          ⊎ (u ≡ t)
    taken c false carried channel k = inl k
    taken c true carried channel k = elim k [
      | inl said ↦ inl (inl said)
      | inr (inl (inl new)) ↦ inr new
      | inr (inl (inr later)) ↦ inl (inr (inl later))
      | inr (inr now) ↦ inl (inr (inr now))
    ]

AllOf-map :
    (P Q : Request → Type 0) (o : Option Request)
    → ((q : Request) → P q → Q q)
    → AllOf P o
    → AllOf Q o
AllOf-map P Q none f h = tt
AllOf-map P Q (some r) f h = f r h

module _ (parse : Text → Option (Text × Text)) (x t : Text) where
  reply_at-Carries :
      (i : Inbound) (r : Request) → Carries t (reply_at x i r) → Carries t r ⊎ (i ≡ reply x t)
  reply_at-Carries metrics r k = inl k
  reply_at-Carries (reply id u) r k = elim (Bool-cases (eq_text x id)) [
    | inl own ↦
        let same = eq_text→eq x id own in
        elim (take_reply-Carries t u r (rw own at k)) [
          | inl old ↦ inl old
          | inr new ↦ inr (ap (λ y. reply y u) (sym same) ∙ ap (reply x) new)
        ]
    | inr other ↦ inl (rw other at k)
  ]
  reply_at-Carries ignored r k = inl k
  reply_at-Carries broadcast r k = inl k

  kept :
      (e : Event) (act : Request → Option Request) (id : Text) (r : Request)
      → AllOf (Keeps t r) (act r)
      → AllOf (λ q. Carries t q → Carries t r ⊎ Replies parse x t e) (at_id x id act r)
  kept e act id r h =
      AllOf-map (Keeps t r) _ (at_id x id act r) (λ q f k. inl (f k))
        (AllOf-at_id (Keeps t r) act x id r (λ k. k) h)

  event-Carries :
      (e : Event) (sessions : ℕ → Option ℕ) (r : Request)
      → AllOf
          (λ q. Carries t q → Carries t r ⊎ Replies parse x t e)
          (request_after parse x e sessions r)
  event-Carries (connects n s) sessions r = λ k. inl k
  event-Carries (ends n s) sessions r = λ k. inl k
  event-Carries (takes_off n s) sessions r = λ k. inl k
  event-Carries (writes id) sessions r = kept (writes id) write id r (write-Keeps t r.caller r)
  event-Carries (sends n id) sessions r =
      kept (sends n id) (send_request (sessions n)) id r (send-Keeps t (sessions n) r)
  event-Carries (reads s) sessions r = reply_at-Carries (read_node_message parse s) r
  event-Carries (hands_over id) sessions r =
      kept (hands_over id) hand_over id r (hand_over-Keeps t r)
  event-Carries (receives id) sessions r = kept (receives id) receive id r (receive-Keeps t r)
  event-Carries (times_out id) sessions r =
      kept (times_out id) expire id r (expire-Keeps t r.caller r)
  event-Carries (forgets id) sessions r = kept (forgets id) forget id r (forget-Keeps t r.caller r)

  run-Carries :
      (es : List Event) (m v : Manager)
      → run parse es m ≡ some v
      → Carries t (v.requests x)
      → Carries t (m.requests x) ⊎ Any (Replies parse x t) es
  unfolding run
  run-Carries [] m v h k =
      inl (subst (λ (u : Manager). Carries t (u.requests x)) (sym (some_eq m v h)) k)
  run-Carries (e ∷ es) m v h k = elim (Option-cases (step parse e m)) [
    | inl stuck ↦ absurd (not_none v (rw stuck at h))
    | inr (u, done) ↦ elim (run-Carries es u v (rw done at h) k) [
      | inl before ↦
          elim (AllOf-some (λ q. Carries t q → Carries t (m.requests x) ⊎ Replies parse x t e)
            (u.requests x) (step-requests parse x e m u done)
            (event-Carries e m.node_sessions (m.requests x)) before) [
              | inl old ↦ inl old
              | inr now ↦ inr (inl now)
            ]
      | inr later ↦ inr (inr later)
    ]
  ]

  reply_of-filled :
      (o : Option (Text × Text))
      → reply_of o ≡ reply x t
      → (is_empty x ≡ false) × (is_empty t ≡ false)
  reply_of-filled none h = cc
  reply_of-filled (some (id, message)) h = ground arith

  filled-read : (s : Text) → read_node_message parse s ≡ reply x t → is_empty t ≡ false
  unfolding read_node_message
  filled-read s h = elim (Bool-cases (contains s (codes "memory_usage"))) [
    | inl hit ↦ absurd (metrics_reply (rw hit at h))
    | inr no_metrics ↦ elim (Bool-cases (contains s (codes "requestId"))) [
      | inl hit ↦ (reply_of-filled (parse s) (rw (no_metrics, hit) at h)).1
      | inr missed ↦ absurd (broadcast_reply (rw (no_metrics, missed) at h))
    ]
  ]
    where
      metrics_reply : metrics ≡ reply x t → ⊥
      metrics_reply e = cc

      broadcast_reply : broadcast ≡ reply x t → ⊥
      broadcast_reply e = cc

  filled : (es : List Event) → Any (Replies parse x t) es → is_empty t ≡ false
  filled (e ∷ es) (inr later) = filled es later
  filled (reads s ∷ es) (inl now) = filled-read s now
  filled [] h = absurd h
  filled (connects n s ∷ es) (inl now) = absurd now
  filled (ends n s ∷ es) (inl now) = absurd now
  filled (takes_off n s ∷ es) (inl now) = absurd now
  filled (writes id ∷ es) (inl now) = absurd now
  filled (sends n id ∷ es) (inl now) = absurd now
  filled (hands_over id ∷ es) (inl now) = absurd now
  filled (receives id ∷ es) (inl now) = absurd now
  filled (times_out id ∷ es) (inl now) = absurd now
  filled (forgets id ∷ es) (inl now) = absurd now

  -- What a caller that sent a request is answered with is, unless it was told that the node is offline
  -- or that the wait took too long, the text of a message that a reader read for this very request,
  -- and it is not empty: answers are never mixed up between requests.
  pub run-Replies :
      (es : List Event) (v : Manager)
      → run parse es new_manager ≡ some v
      → (v.requests x).caller ≡ returned (answered t)
      → Any (Replies parse x t) es × (is_empty t ≡ false)
  run-Replies es v h said = elim (run-Carries es new_manager v h (inl (rw said refl))) [
    | inl before ↦ elim before [
      | inl e ↦ absurd e
      | inr (inl e) ↦ absurd e
      | inr (inr e) ↦ absurd e
    ]
    | inr found ↦ (found, filled es found)
  ]
