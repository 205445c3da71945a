-- ===== src/Forward/Replace.antt =====
-- What an update does to the services in go-backend/service/forward.go: the second half of
-- `UpdateForward`, and `UpdateForwardA`.
use flux_panel_v.Base.{
  ℕ, Bool, false, not, ◌&&◌, ◌||◌, Option, none, some, Text, eq_text, is_empty, update, ◌==◌,
  if◌then◌else◌,
}
use flux_panel_v.Model.{negsuc, Forward, Tunnel, UserTunnel, Node}
use flux_panel_v.Store.{
  Db, Env, Result, ok, Notice, notice_text, relayed, Action, Act, pure, fail, gets, check, or_err,
  ◌>>=◌, ◌>>◌, modify_db,
}
use flux_panel_v.Nodes.{update_forwarder, update_remote_forwarder}
use flux_panel_v.Forward.{
  is_port_forward, is_tunnel_forward, is_gost_success, first_tunnel, get_user_tunnel,
  get_required_nodes, build_service_name,
}
use flux_panel_v.Forward.Services.{
  override_listen, create_gost_services, sync_gost_services, delete_old_gost_services,
}
use flux_panel_v.Forward.Create.{set_status}

-- `updateForwardStatusToError`
unfoldable pub update_forward_status_to_error : ℕ → Act
update_forward_status_to_error id = modify_db (set_status (negsuc 0) id)

-- The speed limiter of a permission row.
abbrev pub limiter_of : Option UserTunnel → Option ℕ
limiter_of none = none
limiter_of (some ut) = ut.speed_id

module _ (env : Env) where
  -- `updateGostServices`: a refusal that is not "" also marks the row.
  unfoldable pub update_gost_services :
      Forward → Tunnel → Option ℕ → Node → Option Node → Text → Action Text
  update_gost_services f t limiter in_node out_node name = do
    msg ← sync_gost_services env f t limiter in_node out_node name
    if is_empty msg then pure msg else (update_forward_status_to_error f.id >> pure msg)

  -- The columns that are written when the new services cannot be created.
  unfoldable pub save_target : Forward → Db → Db
  save_target f db = record db {
    forwards =
        update (λ g. g.id == f.id)
          (λ g. record g {
            tunnel_id = f.tunnel_id;
            in_port = f.in_port;
            out_port = f.out_port;
            listen_ip = f.listen_ip;
            status = negsuc 0;
          })
          db.forwards;
  }

  unfoldable pub create_anew : Forward → Tunnel → Option ℕ → Node → Option Node → Text → Act
  create_anew f t limiter in_node out_node name = do
    msg ← create_gost_services env f t limiter in_node out_node name
    if is_empty msg
        then pure tt
        else (modify_db (save_target f) >> fail (notice_text Notice.new_config_failed msg))

  -- The old services go, the new ones come.
  unfoldable pub rebuild :
      Forward → Forward → Tunnel → Tunnel → Option ℕ → Node → Option Node → Text → Act
  rebuild old f old_t t limiter in_node out_node name = do
    delete_old_gost_services env old old_t
    create_anew f t limiter in_node out_node name

  -- The full update in place.
  unfoldable pub refresh : Forward → Tunnel → Option ℕ → Node → Option Node → Text → Act
  unfolding update_gost_services
  refresh f t limiter in_node out_node name = do
    msg ← update_gost_services f t limiter in_node out_node name
    if is_empty msg then pure tt else (update_forward_status_to_error f.id >> fail (relayed msg))

  abbrev pub hot_remote : Tunnel → Option Node → Forward → Text → Action Bool
  hot_remote t none f name = pure false
  hot_remote t (some n) f name =
      if is_tunnel_forward t
      then (update_remote_forwarder env n.id name f.remote_addr f.strategy >>= λ msg.
          pure (is_gost_success msg))
      else pure false

  -- Only the targets changed: the forwarder is replaced and the listener stays.
  unfoldable pub hot_update : Forward → Tunnel → Node → Option Node → Text → Action Bool
  hot_update f t in_node out_node name =
      if is_port_forward t
      then (update_forwarder env in_node.id name f.remote_addr f.strategy >>= λ msg.
          pure (is_gost_success msg))
      else hot_remote t out_node f name

  unfoldable pub hot_or_refresh : Forward → Tunnel → Option ℕ → Node → Option Node → Text → Act
  unfolding hot_update refresh
  hot_or_refresh f t limiter in_node out_node name = do
    done ← hot_update f t in_node out_node name
    if done then pure tt else refresh f t limiter in_node out_node name

  abbrev pub is_same_place : Forward → Forward → Bool
  is_same_place old f = old.in_port == f.in_port && eq_text old.interface_name f.interface_name

  abbrev pub is_same_target : Forward → Forward → Bool
  is_same_target old f = eq_text old.remote_addr f.remote_addr && eq_text old.strategy f.strategy

  -- The lightest update that the changes allow.
  unfoldable pub light_update :
      Forward → Forward → Tunnel → Option ℕ → Node → Option Node → Text → Act
  unfolding hot_or_refresh
  light_update old f t limiter in_node out_node name =
      if is_same_place old f
      then (if is_same_target old f
          then pure tt
          else hot_or_refresh f t limiter in_node out_node name)
      else refresh f t limiter in_node out_node name

  -- The tunnel whose services are deleted: the old one, or where it stays the tunnel with its listen
  -- address already overridden.
  unfoldable pub old_tunnel : Forward → Forward → Tunnel → Db → Result Tunnel
  old_tunnel old f t db =
      if old.tunnel_id == f.tunnel_id
      then ok t
      else or_err (first_tunnel old.tunnel_id db) Notice.old_tunnel_missing

  unfoldable pub rebuild_from :
      Forward → Forward → Tunnel → Option ℕ → Node → Option Node → Text → Act
  unfolding rebuild create_anew
  rebuild_from old f t limiter in_node out_node name = do
    old_t ← check (old_tunnel old f t)
    rebuild old f old_t t limiter in_node out_node name

  unfoldable pub update_services :
      Forward → Forward → Tunnel → Option ℕ → Node → Option Node → Text → Act
  unfolding rebuild_from light_update
  update_services old f t limiter in_node out_node name =
      if not (old.tunnel_id == f.tunnel_id) || not (eq_text old.listen_ip f.listen_ip)
      then rebuild_from old f t limiter in_node out_node name
      else light_update old f t limiter in_node out_node name

  abbrev pub refresh_on : Forward → Tunnel → Option UserTunnel → Result (Node × Option Node) → Act
  refresh_on f t ut (ok (in_node, out_node)) =
      update_gost_services f (override_listen f.listen_ip t) (limiter_of ut) in_node out_node
        (build_service_name f.id f.user_id ut)
      >>= λ msg. pure tt
  refresh_on f t ut _ = pure tt

  abbrev pub refresh_through : Forward → Option Tunnel → Act
  refresh_through f none = pure tt
  refresh_through f (some t) = do
    ut ← gets (get_user_tunnel f.user_id t.id)
    nodes ← gets (get_required_nodes t)
    refresh_on f t ut nodes

  -- `UpdateForwardA`, which refreshes the services of a stored forward and reports nothing.
  unfoldable pub update_forward_a : Forward → Act
  unfolding update_gost_services
  update_forward_a f = gets (first_tunnel f.tunnel_id) >>= refresh_through f
