-- ===== src/Connections/Sessions.antt =====
-- Which nodes are online.
use flux_panel_v.Base.{
  ℕ, ◌≡◌, refl, Bool, true, false, not, ◌&&◌, ◌||◌, Option, none, some, List, [], ◌∷◌, arith, Text,
  if◌then◌else◌, ◌==◌,
}
use flux_panel_v.Connections.{
  takes_off, Manager, Request, Inbound, metrics, reply, ignored, broadcast, Event, connects,
  set_request, with_request, dispatch,
}

-- No reader takes the node off.
abbrev pub stays : ℕ → List Event → Bool
stays n [] = true
stays n (takes_off k t ∷ es) = not (k == n) && stays n es
stays n (e ∷ es) = stays n es

-- The node connects and is not taken off after that.
abbrev pub connects_to_stay : ℕ → List Event → Bool
connects_to_stay n [] = false
connects_to_stay n (connects k s ∷ es) = (k == n && stays n es) || connects_to_stay n es
connects_to_stay n (e ∷ es) = connects_to_stay n es

abbrev has_session : ℕ → Option ℕ → List Event → Bool
has_session n none es = false
has_session n (some s) es = stays n es

-- What an event makes of the node's session.
abbrev session_after : ℕ → Event → Option ℕ → Option ℕ
session_after n (connects k s) o = if n == k then some s else o
session_after n (takes_off k s) o = if n == k then none else o
session_after n e o = o

pub with_request-sessions :
    (id : Text) (o : Option Request) (m v : Manager)
    → with_request id o m ≡ some v
    → v.node_sessions ≡ m.node_sessions
unfolding set_request
with_request-sessions id none m v h = cc
with_request-sessions id (some r) m v h = ground arith

pub dispatch-sessions : (i : Inbound) (m : Manager) → (dispatch i m).node_sessions ≡ m.node_sessions
unfolding set_request
dispatch-sessions metrics m = refl
dispatch-sessions (reply id t) m = refl
dispatch-sessions ignored m = refl
dispatch-sessions broadcast m = refl

pub some_eq : (a b : Manager) → some a ≡ some b → a ≡ b
some_eq a b e = cc

pub not_none : (v : Manager) → none ≡ some v → ⊥
not_none v e = cc
