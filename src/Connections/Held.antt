-- ===== src/Connections/Held.antt =====
-- Which session a node keeps while the readers of its older sessions end.
use flux_panel_v.Base.{
  ℕ, ◌≡◌, ◌≢◌, refl, sym, ap, subst, ◌∙◌, inl, inr, true, false, Option, none, some, List, [], ◌∷◌,
  arith, Text, Bool-cases, Option-cases, true-false, ◌==◌,
}
use flux_panel_v.Connections.{
  Manager, Request, Inbound, metrics, reply, ignored, broadcast, read_node_message, Event, connects,
  ends, takes_off, sends, writes, reads, hands_over, receives, times_out, forgets, set_session,
  set_leaving, end_session, take_off, is_session, set_request, with_request, dispatch, step, run,
}
use flux_panel_v.Connections.Sessions.{with_request-sessions, dispatch-sessions, some_eq, not_none}

-- In a run the node does not connect again, and the reader of this session does not end.
abbrev pub IsUndisturbed : ℕ → ℕ → List Event → Type 0
IsUndisturbed n s [] = Unit
IsUndisturbed n s (connects k t ∷ es) = (k ≢ n) × IsUndisturbed n s es
IsUndisturbed n s (ends k t ∷ es) = ((k ≡ n) → t ≢ s) × IsUndisturbed n s es
IsUndisturbed n s (e ∷ es) = IsUndisturbed n s es

-- The node has the session, and no reader is about to take the node off.
pub record Holds (n s : ℕ) (m : Manager) : Type 0 where
  pub session : m.node_sessions n ≡ some s
  pub none_leaving : (t : ℕ) → m.leaving n t ≡ false

-- The readers that are about to take a node off, after an event that leaves the requests' side alone.
with_request-leaving :
    (id : Text) (o : Option Request) (m v : Manager)
    → with_request id o m ≡ some v
    → v.leaving ≡ m.leaving
unfolding set_request
with_request-leaving id none m v h = cc
with_request-leaving id (some r) m v h = ground arith

dispatch-leaving : (i : Inbound) (m : Manager) → (dispatch i m).leaving ≡ m.leaving
unfolding set_request
dispatch-leaving metrics m = refl
dispatch-leaving (reply id t) m = refl
dispatch-leaving ignored m = refl
dispatch-leaving broadcast m = refl

Holds-kept :
    (n s : ℕ) (m v : Manager)
    → v.node_sessions ≡ m.node_sessions
    → v.leaving ≡ m.leaving
    → Holds n s m
    → Holds n s v
Holds-kept n s m v e f h = record {
  session = ap (λ g. g n) e ∙ h.session;
  none_leaving = λ t. ap (λ g. g n t) f ∙ h.none_leaving t;
}

connects-Holds :
    (n s k t : ℕ) (m : Manager) → k ≢ n → Holds n s m → Holds n s (set_session k (some t) m)
unfolding set_session
connects-Holds n s k t m other h =
    let x = h.session in record { session = ground arith; none_leaving = h.none_leaving }

-- A reader whose session is not the node's does nothing; the reader of another node is not the node's.
ends-Holds :
    (n s k t : ℕ) (m : Manager) → (k ≡ n → t ≢ s) → Holds n s m → Holds n s (end_session k t m)
unfolding end_session set_leaving
ends-Holds n s k t m other h = elim (Bool-cases (k == n)) [
  | inl own ↦
      let same : k ≡ n = ground arith in
      let missed : is_session t (m.node_sessions k) ≡ false =
        rw (same, h.session) (not_own (other same)) in
      rw missed h
  | inr elsewhere ↦ elim (Bool-cases (is_session t (m.node_sessions k))) [
    | inl hit ↦ rw hit (record {
      session = h.session;
      none_leaving = λ u. let x = h.none_leaving u in ground arith;
    })
    | inr missed ↦ rw missed h
  ]
]
  where
    not_own : t ≢ s → s == t ≡ false
    not_own d = ground arith

takes_off-Holds :
    (n s k t : ℕ) (m v : Manager) → take_off k t m ≡ some v → Holds n s m → Holds n s v
unfolding take_off set_session set_leaving
takes_off-Holds n s k t m v e h = elim (Bool-cases (m.leaving k t)) [
  | inr stuck ↦ absurd (not_none v (rw stuck at e))
  | inl found ↦ elim (Bool-cases (k == n)) [
    | inl own ↦
        let same : k ≡ n = ground arith in
        absurd (true-false (sym (subst (λ i. m.leaving i t ≡ true) same found) ∙ h.none_leaving t))
    | inr elsewhere ↦ subst (Holds n s) (some_eq _ v (rw found at e)) (record {
      session = let x = h.session in ground arith;
      none_leaving = λ u. let x = h.none_leaving u in ground arith;
    })
  ]
]

by_request :
    {n s : ℕ} (id : Text) (o : Option Request) (m v : Manager)
    → with_request id o m ≡ some v
    → Holds n s m
    → Holds n s v
by_request {n} {s} id o m v h k =
    Holds-kept n s m v (with_request-sessions id o m v h) (with_request-leaving id o m v h) k

module _ (parse : Text → Option (Text × Text)) (n s : ℕ) where
  step-Holds :
      (e : Event) (es : List Event) (m v : Manager)
      → step parse e m ≡ some v
      → IsUndisturbed n s (e ∷ es)
      → Holds n s m
      → Holds n s v × IsUndisturbed n s es
  unfolding step
  step-Holds (connects k t) es m v h d k' =
      (subst (Holds n s) (some_eq _ v h) (connects-Holds n s k t m d.0 k'), d.1)
  step-Holds (ends k t) es m v h d k' =
      (subst (Holds n s) (some_eq _ v h) (ends-Holds n s k t m d.0 k'), d.1)
  step-Holds (takes_off k t) es m v h d k' = (takes_off-Holds n s k t m v h k', d)
  step-Holds (sends k id) es m v h d k' = (by_request id _ m v h k', d)
  step-Holds (writes id) es m v h d k' = (by_request id _ m v h k', d)
  step-Holds (reads x) es m v h d k' =
      let i = read_node_message parse x in
      let there =
        Holds-kept n s m (dispatch i m) (dispatch-sessions i m) (dispatch-leaving i m) k' in
      (subst (Holds n s) (some_eq _ v h) there, d)
  step-Holds (hands_over id) es m v h d k' = (by_request id _ m v h k', d)
  step-Holds (receives id) es m v h d k' = (by_request id _ m v h k', d)
  step-Holds (times_out id) es m v h d k' = (by_request id _ m v h k', d)
  step-Holds (forgets id) es m v h d k' = (by_request id _ m v h k', d)

  -- In a run that starts when the node has a session and no reader is about to take the node off, the
  -- node keeps this session as long as it does not connect again and the session's own reader does not
  -- end: the readers of its older sessions may end, late and in any order.
  pub run-Holds :
      (es : List Event) (m v : Manager)
      → run parse es m ≡ some v
      → IsUndisturbed n s es
      → Holds n s m
      → Holds n s v
  unfolding run
  run-Holds [] m v h d k = subst (Holds n s) (some_eq m v h) k
  run-Holds (e ∷ es) m v h d k = elim (Option-cases (step parse e m)) [
    | inl stuck ↦ absurd (not_none v (rw stuck at h))
    | inr (u, done) ↦
        let next = step-Holds e es m u done d k in run-Holds es u v (rw done at h) next.1 next.0
  ]
