-- ===== src/Connections/Waiting.antt =====
-- The answers of a request on their way to its caller, and the room in its channel.
use flux_panel_v.Base.{
  ℕ, ◌+◌, ◌≤◌, ◌≡◌, refl, subst, ◌∙◌, inl, inr, Bool, true, false, Option, none, some, List, [],
  ◌∷◌, arith, Text, is_some, is_empty, length, eq_text, Bool-cases, Option-cases, if◌then◌else◌,
}
use flux_panel_v.Connections.{
  write, writing, writes, takes_off, answered, Caller, idle, waiting, expired, returned, Manager,
  Request, new_manager, Inbound, metrics, reply, ignored, broadcast, read_node_message, Event,
  connects, ends, sends, reads, hands_over, receives, times_out, forgets, is_idle, take_reply,
  with_request, step, run, send_request, hand_over, receive, expire, forget,
}
use flux_panel_v.Connections.Requests.{
  not_none, some_eq, at_id, reply_at, request_after, step-requests,
}

abbrev pub AllOf : (Request → Type 0) → Option Request → Type 0
AllOf P none = Unit
AllOf P (some r) = P r

-- The answers on their way to the caller, with the place that waits for one in the map.
abbrev has_answer : Caller → ℕ
has_answer (returned (answered t)) = 1
has_answer _ = 0

abbrev in_flight : Request → ℕ
in_flight r =
    (if r.is_pending then 1 else 0) + (length r.carried + (length r.channel + has_answer r.caller))

abbrev IsSound : Request → Type 0
IsSound r = (in_flight r ≤ 1) × (is_idle r.caller ≡ true → in_flight r ≡ 0)

send_request-IsSound : (s : Option ℕ) (r : Request) → IsSound r → AllOf IsSound (send_request s r)
send_request-IsSound s r h = sent s r.caller r.is_pending r.carried r.channel h
  where
    sent :
        (s : Option ℕ) (c : Caller) (p : Bool) (carried channel : List Text)
        → IsSound (record { caller = c; is_pending = p; carried = carried; channel = channel })
        → AllOf IsSound (
            send_request s
              (record { caller = c; is_pending = p; carried = carried; channel = channel }))
    sent none idle p carried channel h = ground arith
    sent (some n) idle p carried channel h = ground arith
    sent s writing p carried channel h = tt
    sent s waiting p carried channel h = tt
    sent s expired p carried channel h = tt
    sent s (returned a) p carried channel h = tt

write-IsSound : (r : Request) → IsSound r → AllOf IsSound (write r)
write-IsSound r h = written r.caller r.is_pending r.carried r.channel h
  where
    written :
        (c : Caller) (p : Bool) (carried channel : List Text)
        → IsSound (record { caller = c; is_pending = p; carried = carried; channel = channel })
        → AllOf IsSound
            (write (record { caller = c; is_pending = p; carried = carried; channel = channel }))
    written idle p carried channel h = tt
    written writing p carried channel h = ground arith
    written waiting p carried channel h = tt
    written expired p carried channel h = tt
    written (returned a) p carried channel h = tt

take_reply-IsSound : (t : Text) (r : Request) → IsSound r → IsSound (take_reply t r)
take_reply-IsSound t r h = elim (Bool-cases r.is_pending) [
  | inl pending ↦ rw pending (ground arith)
  | inr gone ↦ rw gone (rw gone at h)
]

hand_over-IsSound : (r : Request) → IsSound r → AllOf IsSound (hand_over r)
hand_over-IsSound r h = handed r.caller r.is_pending r.carried r.channel h
  where
    handed :
        (c : Caller) (p : Bool) (carried channel : List Text)
        → IsSound (record { caller = c; is_pending = p; carried = carried; channel = channel })
        → AllOf IsSound (
            hand_over (record { caller = c; is_pending = p; carried = carried; channel = channel }))
    handed c p [] channel h = tt
    handed c p (t ∷ ts) [] h = ground arith
    handed c p (t ∷ ts) (u ∷ us) h = tt

receive-IsSound : (r : Request) → IsSound r → AllOf IsSound (receive r)
receive-IsSound r h = received r.caller r.is_pending r.carried r.channel h
  where
    received :
        (c : Caller) (p : Bool) (carried channel : List Text)
        → IsSound (record { caller = c; is_pending = p; carried = carried; channel = channel })
        → AllOf IsSound
            (receive (record { caller = c; is_pending = p; carried = carried; channel = channel }))
    received idle p carried channel h = tt
    received writing p carried channel h = tt
    received waiting p carried [] h = tt
    received waiting p carried (t ∷ ts) h = ground arith
    received expired p carried channel h = tt
    received (returned a) p carried channel h = tt

expire-IsSound : (r : Request) → IsSound r → AllOf IsSound (expire r)
expire-IsSound r h = late r.caller r.is_pending r.carried r.channel h
  where
    late :
        (c : Caller) (p : Bool) (carried channel : List Text)
        → IsSound (record { caller = c; is_pending = p; carried = carried; channel = channel })
        → AllOf IsSound
            (expire (record { caller = c; is_pending = p; carried = carried; channel = channel }))
    late idle p carried channel h = tt
    late writing p carried channel h = tt
    late waiting p carried channel h = ground arith
    late expired p carried channel h = tt
    late (returned a) p carried channel h = tt

forget-IsSound : (r : Request) → IsSound r → AllOf IsSound (forget r)
forget-IsSound r h = gone r.caller r.is_pending r.carried r.channel h
  where
    gone :
        (c : Caller) (p : Bool) (carried channel : List Text)
        → IsSound (record { caller = c; is_pending = p; carried = carried; channel = channel })
        → AllOf IsSound
            (forget (record { caller = c; is_pending = p; carried = carried; channel = channel }))
    gone idle p carried channel h = tt
    gone writing p carried channel h = tt
    gone waiting p carried channel h = tt
    gone expired p carried channel h = ground arith
    gone (returned a) p carried channel h = tt

-- An action concerns one request.
pub AllOf-at_id :
    (P : Request → Type 0) (act : Request → Option Request) (x id : Text) (r : Request)
    → P r
    → AllOf P (act r)
    → AllOf P (at_id x id act r)
AllOf-at_id P act x id r h k = elim (Bool-cases (eq_text x id)) [
  | inl own ↦ rw own k
  | inr other ↦ rw other h
]

pub AllOf-some :
    (P : Request → Type 0) {o : Option Request} (r : Request) → o ≡ some r → AllOf P o → P r
AllOf-some P r e h = subst (AllOf P) e h

pub some_with :
    (id : Text) (o : Option Request) (m : Manager) → is_some (with_request id o m) ≡ is_some o
some_with id none m = refl
some_with id (some r) m = refl

has_room :
    (c : Caller) (p : Bool) (carried channel : List Text)
    → is_empty carried ≡ false
    → IsSound (record { caller = c; is_pending = p; carried = carried; channel = channel })
    → is_some
        (hand_over (record { caller = c; is_pending = p; carried = carried; channel = channel }))
      ≡ true
has_room c p [] channel e h = cc
has_room c p (t ∷ ts) [] e h = refl
has_room c p (t ∷ ts) (u ∷ us) e h = absurd (ground arith)

module _ (parse : Text → Option (Text × Text)) where
  reply_at-IsSound : (x : Text) (i : Inbound) (r : Request) → IsSound r → IsSound (reply_at x i r)
  reply_at-IsSound x metrics r h = h
  reply_at-IsSound x (reply id t) r h = elim (Bool-cases (eq_text x id)) [
    | inl own ↦ rw own (take_reply-IsSound t r h)
    | inr other ↦ rw other h
  ]
  reply_at-IsSound x ignored r h = h
  reply_at-IsSound x broadcast r h = h

  event-IsSound :
      (x : Text) (e : Event) (sessions : ℕ → Option ℕ) (r : Request)
      → IsSound r
      → AllOf IsSound (request_after parse x e sessions r)
  event-IsSound x (connects n s) sessions r h = h
  event-IsSound x (ends n s) sessions r h = h
  event-IsSound x (takes_off n s) sessions r h = h
  event-IsSound x (writes id) sessions r h = AllOf-at_id IsSound write x id r h (write-IsSound r h)
  event-IsSound x (sends n id) sessions r h =
      AllOf-at_id IsSound (send_request (sessions n)) x id r h
        (send_request-IsSound (sessions n) r h)
  event-IsSound x (reads s) sessions r h = reply_at-IsSound x (read_node_message parse s) r h
  event-IsSound x (hands_over id) sessions r h =
      AllOf-at_id IsSound hand_over x id r h (hand_over-IsSound r h)
  event-IsSound x (receives id) sessions r h =
      AllOf-at_id IsSound receive x id r h (receive-IsSound r h)
  event-IsSound x (times_out id) sessions r h =
      AllOf-at_id IsSound expire x id r h (expire-IsSound r h)
  event-IsSound x (forgets id) sessions r h =
      AllOf-at_id IsSound forget x id r h (forget-IsSound r h)

  run-IsSound :
      (x : Text) (es : List Event) (m v : Manager)
      → run parse es m ≡ some v
      → IsSound (m.requests x)
      → IsSound (v.requests x)
  unfolding run
  run-IsSound x [] m v h k = subst (λ (u : Manager). IsSound (u.requests x)) (some_eq m v h) k
  run-IsSound x (e ∷ es) m v h k = elim (Option-cases (step parse e m)) [
    | inl stuck ↦ absurd (not_none v (rw stuck at h))
    | inr (u, done) ↦ run-IsSound x es u v (rw done at h) (
        AllOf-some IsSound (u.requests x) (step-requests parse x e m u done)
          (event-IsSound x e m.node_sessions (m.requests x) k))
  ]

  -- In every run from the panel's start, a reader that took a request out of the map finds room in
  -- its channel: the send never blocks the reader, also when the caller has given up long ago.
  pub run-hands_over :
      (id : Text) (es : List Event) (v : Manager)
      → run parse es new_manager ≡ some v
      → is_empty (v.requests id).carried ≡ false
      → is_some (step parse (hands_over id) v) ≡ true
  unfolding step
  run-hands_over id es v h taken =
      some_with id (hand_over (v.requests id)) v
      ∙ has_room (v.requests id).caller (v.requests id).is_pending (v.requests id).carried
          (v.requests id).channel taken (run-IsSound id es new_manager v h (omega arith, λ e. refl))
