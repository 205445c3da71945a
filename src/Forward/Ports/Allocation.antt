-- ===== src/Forward/Ports/Allocation.antt =====
-- What the port allocator hands out.
use flux_panel_v.Base.{
  ℕ, zero, suc, ◌+◌, ◌-◌, ◌≤◌, ◌<◌, ◌≡◌, ◌≢◌, refl, ◌⊎◌, inl, inr, Bool, true, false, Option, none,
  some, arith, Bool-cases, Option-cases, sym, ◌∙◌, true-false,
}
use native.Mathlib.Decide.{dec_le}
use flux_panel_v.Model.{Tunnel, Node}
use flux_panel_v.Store.{Db, ok}
use flux_panel_v.Forward.{get_node_by_id, is_tunnel_forward}
use flux_panel_v.Forward.Ports.Usage.{IsUsed, is_port_used_iff}
use flux_panel_v.Forward.Ports.{
  is_port_used, first_free, allocate_port_for_node, is_in_port_available, allocate_in_port,
  allocate_ports,
}

-- The first free port of `lo … hi - 1`, or that none is free.
abbrev pub IsFirstFree : (ℕ → Bool) → ℕ → ℕ → Option ℕ → Type 0
IsFirstFree used lo hi none = (m : ℕ) → lo ≤ m → m < hi → used m ≡ true
IsFirstFree used lo hi (some p) =
    (lo ≤ p) × (p < hi) × (used p ≡ false) × ((m : ℕ) → lo ≤ m → m < p → used m ≡ true)

-- One round: a used port moves the lower end up by one.
skip_used :
    (used : ℕ → Bool) (lo hi : ℕ) (o : Option ℕ)
    → used lo ≡ true
    → IsFirstFree used (lo + 1) hi o
    → IsFirstFree used lo hi o
skip_used used lo hi none u h = λ m a b. elim (dec_le (lo + 1) m) [
  | yes after ↦ h m after b
  | no before ↦ let e : m ≡ lo = omega arith in rw e u
]
skip_used used lo hi (some p) u h = (
  omega arith,
  h.1,
  h.2,
  λ m a b. elim (dec_le (lo + 1) m) [
    | yes after ↦ h.3 m after b
    | no before ↦ let e : m ≡ lo = omega arith in rw e u
  ],
)

first_free-IsFirstFree :
    (used : ℕ → Bool) (rounds lo hi : ℕ)
    → hi ≡ lo + rounds
    → IsFirstFree used lo hi (first_free used rounds lo)
unfolding first_free
first_free-IsFirstFree used zero lo hi e = λ m a b. absurd (omega arith)
first_free-IsFirstFree used (suc rounds) lo hi e = elim (Bool-cases (used lo)) [
  | inl taken ↦
      rw taken (
        skip_used used lo hi _ taken (first_free-IsFirstFree used rounds (lo + 1) hi (omega arith)))
  | inr free ↦ rw free (omega arith, omega arith, free, λ m a b. absurd (omega arith))
]

first_free-range :
    (used : ℕ → Bool) (lo hi : ℕ) → IsFirstFree used lo hi (first_free used (hi - lo) lo)
unfolding first_free
first_free-range used lo hi = elim (dec_le lo hi) [
  | yes h ↦ first_free-IsFirstFree used (hi - lo) lo hi (omega arith)
  | no h ↦ let e : hi - lo ≡ 0 = omega arith in rw (e, first_free) (λ m a b. absurd (omega arith))
]

-- On a node that exists, the allocator gives the lowest port of the node's range that is not in use
-- there, and gives none only where every port of the range is in use.
pub allocate_port_for_node_lem :
    (node_id : ℕ) (exclude : Option ℕ) (db : Db) (n : Node)
    → get_node_by_id node_id db ≡ some n
    → IsFirstFree
        (is_port_used node_id exclude db)
        n.port_sta
        (n.port_end + 1)
        (allocate_port_for_node node_id exclude db)
unfolding allocate_port_for_node
allocate_port_for_node_lem node_id exclude db n e =
    rw (e, allocate_port_for_node)
      (first_free-range (is_port_used node_id exclude db) n.port_sta (n.port_end + 1))

-- A port that a node offers to a forward: in its range and, unless it is 0, no forward's there.
pub record IsOffered (node_id : ℕ) (exclude : Option ℕ) (db : Db) (port : ℕ) : Type 0 where
  pub node : Node
  pub exists : get_node_by_id node_id db ≡ some node
  pub above : node.port_sta ≤ port
  pub below : port ≤ node.port_end
  pub unused : port ≢ 0 → ¬ IsUsed node_id exclude db port

unused-of :
    (node_id : ℕ) (exclude : Option ℕ) (db : Db) (port : ℕ)
    → is_port_used node_id exclude db port ≡ false
    → port ≢ 0
    → ¬ IsUsed node_id exclude db port
unused-of node_id exclude db port free h used =
    true-false (sym ((is_port_used_iff node_id exclude db port h).1 used) ∙ free)

allocated-IsOffered :
    (node_id : ℕ) (exclude : Option ℕ) (db : Db) (port : ℕ)
    → allocate_port_for_node node_id exclude db ≡ some port
    → IsOffered node_id exclude db port
allocated-IsOffered node_id exclude db port e = elim (Option-cases (get_node_by_id node_id db)) [
  | inl missing ↦ unfold allocate_port_for_node in ground arith
  | inr (n, found) ↦
      let h = rw e at (allocate_port_for_node_lem node_id exclude db n found) in
      record {
        node = n;
        exists = found;
        above = h.0;
        below = omega arith;
        unused = unused-of node_id exclude db port h.2;
      }
]

available-IsOffered :
    (t : Tunnel) (exclude : Option ℕ) (db : Db) (port : ℕ)
    → is_in_port_available t port exclude db ≡ true
    → IsOffered t.in_node_id exclude db port
available-IsOffered t exclude db port e = elim (Option-cases (get_node_by_id t.in_node_id db)) [
  | inl missing ↦ unfold is_in_port_available in ground arith
  | inr (n, found) ↦ record {
    node = n;
    exists = found;
    above = unfold is_in_port_available in ground arith;
    below = unfold is_in_port_available in ground arith;
    unused = unused-of t.in_node_id exclude db port (unfold is_in_port_available in ground arith);
  }
]

in_port-IsOffered :
    (t : Tunnel) (specified exclude : Option ℕ) (db : Db) (port : ℕ)
    → allocate_in_port t specified exclude db ≡ ok port
    → IsOffered t.in_node_id exclude db port
in_port-IsOffered t none exclude db port e =
    allocated-IsOffered t.in_node_id exclude db port (ground arith)
in_port-IsOffered t (some p) exclude db port e =
    elim (Bool-cases (is_in_port_available t p exclude db)) [
      | inl free ↦
          let same : p ≡ port = ground arith in
          available-IsOffered t exclude db port (rw same at free)
      | inr busy ↦ ground arith
    ]

-- What a successful allocation gives: an entry port that the entry node offers, the asked one if one
-- was asked for, and for a tunnel forward an exit port that the exit node offers, otherwise 0.
pub record IsAllocated (t : Tunnel) (specified exclude : Option ℕ) (db : Db) (ports : ℕ × ℕ)
    : Type 0 where
  pub entry : IsOffered t.in_node_id exclude db ports.0
  pub asked : (specified ≡ none) ⊎ (specified ≡ some ports.0)
  pub exit :
      ((t.type ≡ 2) × IsOffered t.out_node_id exclude db ports.1) ⊎ ((t.type ≢ 2) × (ports.1 ≡ 0))

allocated_entry :
    (t : Tunnel) (specified exclude : Option ℕ) (db : Db) (a b : ℕ)
    → allocate_ports t specified exclude db ≡ ok (a, b)
    → allocate_in_port t specified exclude db ≡ ok a
unfolding allocate_ports
allocated_entry t specified exclude db a b e = ground arith

allocated_exit :
    (t : Tunnel) (specified exclude : Option ℕ) (db : Db) (a b : ℕ)
    → allocate_ports t specified exclude db ≡ ok (a, b)
    → is_tunnel_forward t ≡ true
    → allocate_port_for_node t.out_node_id exclude db ≡ some b
unfolding allocate_ports
allocated_exit t specified exclude db a b e h = ground arith

allocated_no_exit :
    (t : Tunnel) (specified exclude : Option ℕ) (db : Db) (a b : ℕ)
    → allocate_ports t specified exclude db ≡ ok (a, b)
    → is_tunnel_forward t ≡ false
    → b ≡ 0
unfolding allocate_ports
allocated_no_exit t specified exclude db a b e h = ground arith

asked_port :
    (t : Tunnel) (specified exclude : Option ℕ) (db : Db) (a : ℕ)
    → allocate_in_port t specified exclude db ≡ ok a
    → (specified ≡ none) ⊎ (specified ≡ some a)
asked_port t none exclude db a e = inl refl
asked_port t (some q) exclude db a e = inr (ground arith)

-- Ports that `allocatePorts` returns are in the ranges of their nodes. A port other than 0 is neither
-- the entry port of another forward whose tunnel starts on that node nor the exit port of one whose
-- tunnel ends there. The entry port is the one asked for, if one was; without an exit node the exit
-- port is 0.
pub allocate_ports-IsAllocated :
    (t : Tunnel) (specified exclude : Option ℕ) (db : Db) (a b : ℕ)
    → allocate_ports t specified exclude db ≡ ok (a, b)
    → IsAllocated t specified exclude db (a, b)
allocate_ports-IsAllocated t specified exclude db a b e =
    let entry = allocated_entry t specified exclude db a b e in
    record {
      entry = in_port-IsOffered t specified exclude db a entry;
      asked = asked_port t specified exclude db a entry;
      exit = elim (Bool-cases (is_tunnel_forward t)) [
        | inl tunnel ↦ inl (
          ground arith,
          allocated-IsOffered t.out_node_id exclude db b
              (allocated_exit t specified exclude db a b e tunnel),
        )
        | inr direct ↦ inr (ground arith, allocated_no_exit t specified exclude db a b e direct)
      ];
    }
