-- ===== src/Forward/Update.antt =====
-- `UpdateForward` in go-backend/service/forward.go: its checks, which plan the update, and the update.
pub mod Plan
pub mod Preserves
pub mod Confined
use flux_panel_v.Base.{
  ℕ, Bool, true, false, not, ◌&&◌, ◌||◌, Option, none, some, List, [], ◌∷◌, Text, eq_text, is_empty,
  update, ◌==◌, if◌then◌else◌,
}
use flux_panel_v.Model.{pos, negsuc, ℤ, User, Forward, Tunnel, UserTunnel, Node}
use flux_panel_v.Store.{
  Db, World, Env, Result, ok, err, panic, Notice, Msg, notice, notice_text, relayed, Action, Act,
  pure, fail, lift, gets, check, or_err, bind_result, ◌>>=◌, ◌>>◌, modify_db, fail_if,
}
use flux_panel_v.Nodes.{update_forwarder, update_remote_forwarder}
use flux_panel_v.Forward.{
  is_admin, is_port_forward, is_tunnel_forward, is_gost_success, first_user, first_tunnel,
  get_user_tunnel, validate_forward_exists, get_required_nodes, build_service_name,
}
use flux_panel_v.Forward.Ports.{allocate_ports}
use flux_panel_v.Forward.Limits.{is_expired, check_forward_quota, check_user_permissions}
use flux_panel_v.Forward.Services.{
  override_listen, create_gost_services, sync_gost_services, delete_old_gost_services,
}
use flux_panel_v.Forward.Ssrf.{Net, validate_remote_addr}
use flux_panel_v.Forward.Create.{set_status}
use flux_panel_v.Forward.Control.{check_user_enabled}
use flux_panel_v.Forward.Replace.{update_services}

-- `dto.ForwardUpdateDto`; its `userId` is overwritten and never read.
pub record ForwardUpdateDto : Type 0 where
  pub id : ℕ
  pub name : Text
  pub tunnel_id : ℕ
  pub remote_addr : Text
  pub strategy : Text
  pub in_port : Option ℕ
  pub listen_ip : Text
  pub interface_name : Text

-- What the checks of an update settle.
pub record Planned : Type 0 where
  pub old : Forward
  pub new : Forward
  pub tunnel : Tunnel
  pub limiter : Option ℕ
  pub user_tunnel : Option UserTunnel
  pub in_node : Node
  pub out_node : Option Node

module _ (env : Env) where
  -- The administrator moves another's forward: the owner's permission row is checked.
  unfoldable pub check_owner_row :
      ForwardUpdateDto
      → Forward
      → User
      → Option UserTunnel
      → Db
      → Result (Option ℕ × Option UserTunnel)
  check_owner_row d old owner none db = err (notice Notice.owner_permission_missing)
  check_owner_row d old owner (some ut) db =
      if not (ut.status == 1)
      then err (notice Notice.user_tunnel_disabled)
      else if is_expired env ut.exp_time
      then err (notice Notice.user_tunnel_expired)
      else bind_result (check_forward_quota old.user_id d.tunnel_id ut owner (some d.id) db)
          λ _. ok (ut.speed_id, some ut)

  unfoldable pub check_owner :
      ForwardUpdateDto → Forward → Db → Result (Option ℕ × Option UserTunnel)
  unfolding check_owner_row
  check_owner d old db =
      bind_result (or_err (first_user old.user_id db) Notice.user_missing)
        λ owner. check_owner_row d old owner (get_user_tunnel old.user_id d.tunnel_id db) db

  -- Permissions matter only where the tunnel changes.
  unfoldable pub check_move :
      ForwardUpdateDto → ℕ → ℕ → Forward → Tunnel → Db → Result (Option ℕ × Option UserTunnel)
  unfolding check_owner
  check_move d user_id role_id old t db =
      if old.tunnel_id == d.tunnel_id
      then ok (none, none)
      else if is_admin role_id
      then (if user_id == old.user_id then ok (none, none) else check_owner d old db)
      else check_user_permissions env user_id role_id t (some d.id) db

  -- The row whose key names the services.
  unfoldable pub naming_user_tunnel : ℕ → ℕ → Forward → Tunnel → Db → Result (Option UserTunnel)
  naming_user_tunnel user_id role_id old t db =
      if is_admin role_id
      then ok (get_user_tunnel old.user_id t.id db)
      else bind_result (or_err (get_user_tunnel user_id t.id db) Notice.no_tunnel_permission)
          λ ut. ok (some ut)

  -- The row of the permission check takes precedence, where the tunnel changes.
  abbrev pub chosen_row : Option UserTunnel → Option UserTunnel → Option UserTunnel
  chosen_row none found = found
  chosen_row (some ut) found = some ut

  abbrev pub is_other_port : Option ℕ → ℕ → Bool
  is_other_port none port = false
  is_other_port (some p) port = not (p == port)

  -- Ports are allocated anew if the tunnel or the entry port changes. The old port stands in for one
  -- that was not given only where the tunnel stays, and then no port is allocated without one.
  unfoldable pub choose_ports : ForwardUpdateDto → Forward → Tunnel → Db → Result (ℕ × ℕ)
  choose_ports d old t db =
      if not (old.tunnel_id == d.tunnel_id) || is_other_port d.in_port old.in_port
      then allocate_ports t d.in_port (some d.id) db
      else ok (old.in_port, old.out_port)

  -- `updatedForward`; the fields that the code leaves at zero are never written back.
  unfoldable pub updated_forward : ForwardUpdateDto → Forward → ℕ × ℕ → Forward
  updated_forward d old (in_port, out_port) = record {
    id = d.id;
    user_id = old.user_id;
    user_name = [];
    name = d.name;
    tunnel_id = d.tunnel_id;
    in_port = in_port;
    out_port = out_port;
    remote_addr = d.remote_addr;
    strategy = d.strategy;
    listen_ip = d.listen_ip;
    interface_name = d.interface_name;
    in_flow = 0;
    out_flow = 0;
    created_time = 0;
    updated_time = env.now;
    status = pos 0;
    inx = 0;
  }

  -- The columns of a successful update.
  unfoldable pub save_forward : Forward → Db → Db
  save_forward f db = record db {
    forwards =
        update (λ g. g.id == f.id)
          (λ g. record g {
            name = f.name;
            tunnel_id = f.tunnel_id;
            remote_addr = f.remote_addr;
            strategy = f.strategy;
            listen_ip = f.listen_ip;
            interface_name = f.interface_name;
            in_port = f.in_port;
            out_port = f.out_port;
            status = pos 1;
            updated_time = f.updated_time;
          })
          db.forwards;
  }

  unfoldable pub save_row : Forward → Act
  save_row f w =
      if env.update_fails w.db
      then (err (notice Notice.update_refused), w)
      else (ok tt, record w { db = save_forward f w.db })

  unfoldable pub plan_update : Net → ForwardUpdateDto → ℕ → ℕ → Action Planned
  plan_update net d user_id role_id = do
    check (check_user_enabled user_id role_id)
    lift (validate_remote_addr net d.remote_addr role_id)
    old ←
        check
          (λ db. or_err (validate_forward_exists d.id user_id role_id db) Notice.forward_missing)
    t ← check (λ db. or_err (first_tunnel d.tunnel_id db) Notice.tunnel_missing)
    fail_if (not (t.status == 1)) (notice Notice.tunnel_disabled)
    (limiter, permitted) ← check (check_move d user_id role_id old t)
    found ← check (naming_user_tunnel user_id role_id old t)
    ports ← check (choose_ports d old t)
    (in_node, out_node) ← check (get_required_nodes t)
    pure (record {
      old = old;
      new = updated_forward d old ports;
      tunnel = override_listen d.listen_ip t;
      limiter = limiter;
      user_tunnel = chosen_row permitted found;
      in_node = in_node;
      out_node = out_node;
    })

  unfoldable pub carry_out : Planned → Act
  carry_out p = do
    update_services env p.old p.new p.tunnel p.limiter p.in_node p.out_node
        (build_service_name p.new.id p.new.user_id p.user_tunnel)
    save_row p.new

  unfoldable pub update_forward : Net → ForwardUpdateDto → ℕ → ℕ → Act
  update_forward net d user_id role_id = plan_update net d user_id role_id >>= carry_out
