-- ===== src/Forward.antt =====
-- The forward service: go-backend/service/forward.go, with the lookups that its handlers share.
pub mod Ports
pub mod Limits
pub mod Services
pub mod Address
pub mod Ssrf
pub mod Create
pub mod Order
pub mod Control
pub mod Replace
pub mod Update
use flux_panel_v.Base.{
  ℕ, Bool, true, false, not, ◌&&◌, ◌||◌, Option, none, some, List, [], ◌∷◌, ◌++◌, Text, codes,
  length, select, find, show_nat, eq_text, ◌==◌, ltb, if◌then◌else◌,
}
use flux_panel_v.Model.{User, Forward, Tunnel, UserTunnel, Node}
use flux_panel_v.Store.{Db, Result, ok, err, Notice, Msg, notice, bind_result, or_err}

-- `adminRoleId`, and the two tunnel types.
abbrev pub is_admin : ℕ → Bool
is_admin role_id = role_id == 0

abbrev pub is_port_forward : Tunnel → Bool
is_port_forward t = t.type == 1

abbrev pub is_tunnel_forward : Tunnel → Bool
is_tunnel_forward t = t.type == 2

-- `DB.First` by primary key.
unfoldable pub first_forward : ℕ → Db → Option Forward
first_forward id db = find (λ f. f.id == id) db.forwards

unfoldable pub first_tunnel : ℕ → Db → Option Tunnel
first_tunnel id db = find (λ t. t.id == id) db.tunnels

unfoldable pub first_user : ℕ → Db → Option User
first_user id db = find (λ u. u.id == id) db.users

unfoldable pub get_node_by_id : ℕ → Db → Option Node
get_node_by_id id db = find (λ n. n.id == id) db.nodes

unfoldable pub get_user_tunnel : ℕ → ℕ → Db → Option UserTunnel
get_user_tunnel user_id tunnel_id db =
    find (λ ut. ut.user_id == user_id && ut.tunnel_id == tunnel_id) db.user_tunnels

-- No row of `user_node` for the user means an old account, which may use every node.
unfoldable pub user_has_gost_node_access : ℕ → ℕ → Db → Bool
user_has_gost_node_access user_id node_id db =
    length (select (λ r. r.user_id == user_id) db.user_nodes) == 0
    || ltb 0 (
        length (
          select (λ r. r.user_id == user_id && (r.node_id == node_id && r.gost_enabled == 1))
            db.user_nodes))

abbrev pub tunnel_key : Option UserTunnel → ℕ
tunnel_key none = 0
tunnel_key (some ut) = ut.id

unfoldable pub build_service_name : ℕ → ℕ → Option UserTunnel → Text
build_service_name forward_id user_id ut =
    show_nat forward_id ++ (b'_' ∷ (show_nat user_id ++ (b'_' ∷ show_nat (tunnel_key ut))))

-- `result.Msg == "OK"` of an answer that is not nil.
unfoldable pub is_gost_success : Text → Bool
is_gost_success msg = eq_text msg (codes "OK")

-- The owner's check: others than the administrator see only their own forwards.
unfoldable pub validate_forward_exists : ℕ → ℕ → ℕ → Db → Option Forward
unfolding first_forward
validate_forward_exists id user_id role_id db = elim (first_forward id db) [
  | none ↦ none
  | some f ↦ if not (is_admin role_id) && not (user_id == f.user_id) then none else some f
]

-- The entry node, and the exit node of a tunnel forward.
unfoldable pub get_required_nodes : Tunnel → Db → Result (Node × Option Node)
get_required_nodes t db =
    bind_result (or_err (get_node_by_id t.in_node_id db) Notice.in_node_missing) λ in_node.
      if is_tunnel_forward t
      then (bind_result (or_err (get_node_by_id t.out_node_id db) Notice.out_node_missing)
          λ out_node. ok (in_node, some out_node))
      else ok (in_node, none)
