-- ===== src/Connections/Requests.antt =====
-- The requests that wait: their channels and their callers.
use flux_panel_v.Base.{
  ℕ, ◌≡◌, refl, sym, ap, ◌∙◌, inl, inr, Option, none, some, arith, Text, eq_text, eq_text→eq,
  Bool-cases, Option-cases, if◌then◌else◌,
}
use flux_panel_v.Connections.{
  set_leaving, take_off, write, writes, takes_off, Manager, Request, Inbound, metrics, reply,
  ignored, broadcast, read_node_message, Event, connects, ends, sends, reads, hands_over, receives,
  times_out, forgets, set_session, end_session, set_request, take_reply, with_request, dispatch,
  step, send_request, hand_over, receive, expire, forget,
}

-- An action on the request with an id, seen from any request.
abbrev pub at_id : Text → Text → (Request → Option Request) → Request → Option Request
at_id x id act r = if eq_text x id then act r else some r

abbrev pub reply_at : Text → Inbound → Request → Request
reply_at x (reply id t) r = if eq_text x id then take_reply t r else r
reply_at x _ r = r

module _ (parse : Text → Option (Text × Text)) where
  -- What an event makes of the request with an id.
  abbrev pub request_after : Text → Event → (ℕ → Option ℕ) → Request → Option Request
  request_after x (sends n id) sessions r = at_id x id (send_request (sessions n)) r
  request_after x (reads s) sessions r = some (reply_at x (read_node_message parse s) r)
  request_after x (writes id) sessions r = at_id x id write r
  request_after x (hands_over id) sessions r = at_id x id hand_over r
  request_after x (receives id) sessions r = at_id x id receive r
  request_after x (times_out id) sessions r = at_id x id expire r
  request_after x (forgets id) sessions r = at_id x id forget r
  request_after x e sessions r = some r

pub not_none : (v : Manager) → none ≡ some v → ⊥
not_none v e = cc

pub some_eq {ℓ} : {A : Type ℓ} (a b : A) → some a ≡ some b → a ≡ b
some_eq a b e = cc

set_request-requests :
    (x id : Text) (r : Request) (m : Manager)
    → (set_request id r m).requests x ≡ (if eq_text x id then r else m.requests x)
unfolding set_request
set_request-requests x id r m = refl

with_request-at :
    (act : Request → Option Request) (x id : Text) (m v : Manager)
    → with_request id (act (m.requests id)) m ≡ some v
    → at_id x id act (m.requests x) ≡ some (v.requests x)
with_request-at act x id m v h = elim (Option-cases (act (m.requests id))) [
  | inl stuck ↦ absurd (not_none v (rw stuck at h))
  | inr (r, done) ↦
      let v_is : set_request id r m ≡ v = some_eq _ v (rw done at h) in
      elim (Bool-cases (eq_text x id)) [
        | inl own ↦
            let same = eq_text→eq x id own in
            let there : v.requests x ≡ r =
              ap (λ (u : Manager). u.requests x) (sym v_is)
              ∙ (set_request-requests x id r m ∙ (rw own refl)) in
            rw (own, there) (ap (λ y. act (m.requests y)) same ∙ done)
        | inr other ↦
            let there : v.requests x ≡ m.requests x =
              ap (λ (u : Manager). u.requests x) (sym v_is)
              ∙ (set_request-requests x id r m ∙ (rw other refl)) in
            rw (other, there) refl
      ]
]

dispatch-requests :
    (x : Text) (i : Inbound) (m : Manager) → (dispatch i m).requests x ≡ reply_at x i (m.requests x)
dispatch-requests x metrics m = refl
dispatch-requests x (reply id t) m = elim (Bool-cases (eq_text x id)) [
  | inl own ↦
      set_request-requests x id _ m
      ∙ (rw own (ap (λ y. take_reply t (m.requests y)) (sym (eq_text→eq x id own))))
  | inr other ↦ set_request-requests x id _ m ∙ (rw other refl)
]
dispatch-requests x ignored m = refl
dispatch-requests x broadcast m = refl

set_session-requests :
    (n : ℕ) (s : Option ℕ) (m : Manager) → (set_session n s m).requests ≡ m.requests
unfolding set_session
set_session-requests n s m = refl

end_session-requests : (n s : ℕ) (m : Manager) → (end_session n s m).requests ≡ m.requests
unfolding end_session set_leaving
end_session-requests n s m = ground arith

take_off-requests : (n s : ℕ) (m v : Manager) → take_off n s m ≡ some v → v.requests ≡ m.requests
unfolding take_off set_session set_leaving
take_off-requests n s m v h = elim (Bool-cases (m.leaving n s)) [
  | inl found ↦ ap (λ (u : Manager). u.requests) (sym (some_eq _ v (rw found at h)))
  | inr other ↦ absurd (not_none v (rw other at h))
]

pub step-requests :
    (parse : Text → Option (Text × Text)) (x : Text) (e : Event) (m v : Manager)
    → step parse e m ≡ some v
    → request_after parse x e m.node_sessions (m.requests x) ≡ some (v.requests x)
unfolding step
step-requests parse x (connects k s) m v h =
    ap (λ f. some (f x)) (sym (set_session-requests k (some s) m))
    ∙ ap (λ (u : Manager). some (u.requests x)) (some_eq _ v h)
step-requests parse x (ends k s) m v h =
    ap (λ f. some (f x)) (sym (end_session-requests k s m))
    ∙ ap (λ (u : Manager). some (u.requests x)) (some_eq _ v h)
step-requests parse x (takes_off k s) m v h =
    ap (λ f. some (f x)) (sym (take_off-requests k s m v h))
step-requests parse x (writes id) m v h = with_request-at write x id m v h
step-requests parse x (sends k id) m v h =
    with_request-at (send_request (m.node_sessions k)) x id m v h
step-requests parse x (reads s) m v h =
    ap some (sym (dispatch-requests x (read_node_message parse s) m))
    ∙ ap (λ (u : Manager). some (u.requests x)) (some_eq _ v h)
step-requests parse x (hands_over id) m v h = with_request-at hand_over x id m v h
step-requests parse x (receives id) m v h = with_request-at receive x id m v h
step-requests parse x (times_out id) m v h = with_request-at expire x id m v h
step-requests parse x (forgets id) m v h = with_request-at forget x id m v h
