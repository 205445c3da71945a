-- ===== src/Reconcile.antt =====
-- The synchronisation of a node with the panel's tables: go-backend/service/reconcile.go. Its phases
-- for Xray write tables and send messages that the model has not, and are left out; the text of an
-- error is kept as its parts.
pub mod Limiters
pub mod Forwards
pub mod Orphans
pub mod Runs
pub mod Preserves
pub mod Recovery
pub mod Kept
pub mod HotUpdates
use flux_panel_v.Base.{
  ℕ, ◌+◌, Bool, true, false, not, ◌&&◌, ◌||◌, Option, none, some, List, [], ◌∷◌, ◌++◌, Text, codes,
  any, contains, eq_text, find, is_empty, length, ltb, map, select, show_nat, split, update, ◌==◌,
  if◌then◌else◌,
}
use flux_panel_v.Model.{ℤ, pos, negsuc, eq_ℤ, Forward, Tunnel, UserTunnel, Node, SpeedLimit}
use flux_panel_v.Gost.{format_listen_addr}
use flux_panel_v.Store.{
  Db, Sent, Command, Env, Result, ok, err, panic, Msg, Action, Act, pure, lift, gets, ◌>>=◌, ◌>>◌,
  modify_db, send,
}
use flux_panel_v.Nodes.{
  add_limiters, add_service, add_remote_service, add_chains, update_forwarder,
  update_remote_forwarder, pause_remote_service, pause_service, pause_service_multi_ip,
}
use flux_panel_v.Forward.{
  is_port_forward, is_tunnel_forward, is_gost_success, get_user_tunnel, get_required_nodes,
  build_service_name,
}
use flux_panel_v.Forward.Services.{service_args, override_listen, is_multi_ip}

-- An entry of `Errors`.
pub data Problem : Type 0 where
  already_running : Problem
  limiter_problem : ℕ → Text → Problem
  tunnel_problem : ℕ → Msg → Problem
  forward_problem : ℕ → Text → Problem

pub record ReconcileResult : Type 0 where
  pub limiters : ℕ
  pub forwards : ℕ
  pub orphans_cleaned : ℕ
  pub errors : List Problem

abbrev pub no_result : ReconcileResult
no_result = record { limiters = 0; forwards = 0; orphans_cleaned = 0; errors = [] }

abbrev pub add_problem : Problem → ReconcileResult → ReconcileResult
add_problem p r = record r { errors = r.errors ++ (p ∷ []) }

-- `strings.Contains(r.Msg, "already exists")`
abbrev pub is_existing : Text → Bool
is_existing msg = contains msg (codes "already exists")

-- `*SpeedId` where it is above 0.
abbrev pub speed_key : Option ℕ → Option ℕ
speed_key none = none
speed_key (some k) = if k == 0 then none else some k

abbrev pub limiter_key : Option UserTunnel → Option ℕ
limiter_key none = none
limiter_key (some ut) = speed_key ut.speed_id

module _ (node : ℕ) where
  abbrev pub touches_node : Tunnel → Bool
  touches_node t = t.in_node_id == node || t.out_node_id == node

  -- `JOIN tunnel ON tunnel.id = forward.tunnel_id`, for the forwards with a tunnel on this node.
  abbrev pub is_on_node : Db → Forward → Bool
  is_on_node db f = any (λ t. t.id == f.tunnel_id && touches_node t) db.tunnels

  unfoldable pub has_forwards : Db → Bool
  has_forwards db = any (is_on_node db) db.forwards
