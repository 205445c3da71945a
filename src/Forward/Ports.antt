-- ===== src/Forward/Ports.antt =====
-- Port allocation on a node.
pub mod Allocation
pub mod Usage
use flux_panel_v.Base.{
  ℕ, zero, suc, ◌+◌, ◌-◌, ◌≤◌, ◌<◌, ◌≡◌, ◌≢◌, refl, ◌⊎◌, inl, inr, ◌↔◌, Bool, true, false, not,
  ◌&&◌, ◌||◌, Option, none, some, List, [], ◌∷◌, arith, select, find, any, Any, any-Any, Any-any,
  ◌==◌, ltb, leb, if◌then◌else◌, Bool-cases, Option-cases, is_empty,
}
use flux_panel_v.Model.{Forward, Tunnel, Node}
use flux_panel_v.Store.{Db, Result, ok, err, panic, Notice, notice, notice_num, bind_result, or_err}
use flux_panel_v.Forward.{get_node_by_id, is_tunnel_forward}

-- `excludeForwardId != nil` adds `id != ?`.
abbrev pub not_excluded : Option ℕ → Forward → Bool
not_excluded none f = true
not_excluded (some id) f = not (f.id == id)

-- `tunnel_id IN ?` over the tunnels that a test selects.
abbrev pub through : (Tunnel → Bool) → Db → Forward → Bool
through p db f = any (λ t. t.id == f.tunnel_id) (select p db.tunnels)

-- `usedPorts[port]`, as `getAllUsedPortsOnNode` fills the map: entry ports of the tunnels that start
-- on the node, exit ports of those that end there, 0 left out.
unfoldable pub is_port_used : ℕ → Option ℕ → Db → ℕ → Bool
is_port_used node exclude db port =
    any
      (λ f.
        through (λ t. t.in_node_id == node) db f
        && (not_excluded exclude f && (not (f.in_port == 0) && f.in_port == port)))
      db.forwards
    || any
        (λ f.
          through (λ t. t.out_node_id == node) db f
          && (not_excluded exclude f && (not (f.out_port == 0) && f.out_port == port)))
        db.forwards

-- The loop `for port := from; port <= to; port++`, with the rounds left.
unfoldable pub first_free : (ℕ → Bool) → ℕ → ℕ → Option ℕ
first_free used zero port = none
first_free used (suc rounds) port =
    let rest = first_free used rounds (port + 1) in if used port then rest else some port

unfoldable pub allocate_port_for_node : ℕ → Option ℕ → Db → Option ℕ
allocate_port_for_node node_id exclude db = elim (get_node_by_id node_id db) [
  | none ↦ none
  | some n ↦ first_free (is_port_used node_id exclude db) (n.port_end + 1 - n.port_sta) n.port_sta
]

unfoldable pub is_in_port_available : Tunnel → ℕ → Option ℕ → Db → Bool
is_in_port_available t port exclude db = elim (get_node_by_id t.in_node_id db) [
  | none ↦ false
  | some n ↦
      if ltb port n.port_sta || ltb n.port_end port
      then false
      else not (is_port_used t.in_node_id exclude db port)
]

abbrev pub allocate_in_port : Tunnel → Option ℕ → Option ℕ → Db → Result ℕ
allocate_in_port t (some port) exclude db =
    if is_in_port_available t port exclude db
    then ok port
    else err (notice_num Notice.in_port_unavailable port)
allocate_in_port t none exclude db =
    or_err (allocate_port_for_node t.in_node_id exclude db) Notice.in_ports_full

-- The pair of the entry port and the exit port; the exit port is 0 unless the tunnel has an exit.
unfoldable pub allocate_ports : Tunnel → Option ℕ → Option ℕ → Db → Result (ℕ × ℕ)
allocate_ports t specified exclude db =
    bind_result (allocate_in_port t specified exclude db) λ in_port.
      if is_tunnel_forward t
      then (bind_result
          (or_err (allocate_port_for_node t.out_node_id exclude db) Notice.out_ports_full)
          λ out_port. ok (in_port, out_port))
      else ok (in_port, 0)
