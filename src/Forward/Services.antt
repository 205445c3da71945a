-- ===== src/Forward/Services.antt =====
-- The calls that build, refresh and remove a forward's GOST services on its nodes.
pub mod Rollback
pub mod Preserves
use flux_panel_v.Base.{
  ℕ, Bool, true, false, not, ◌&&◌, ◌||◌, Option, none, some, List, [], ◌∷◌, Text, codes, is_empty,
  has_byte, contains, if◌then◌else◌,
}
use flux_panel_v.Model.{ℤ, pos, negsuc, Forward, Tunnel, UserTunnel, Node}
use flux_panel_v.Gost.{ServiceArgs, format_listen_addr}
use flux_panel_v.Store.{Db, Env, Result, ok, err, panic, Action, Act, pure, lift, gets, ◌>>=◌, ◌>>◌}
use flux_panel_v.Nodes.{
  add_service, update_service, delete_service, delete_service_multi_ip, add_remote_service,
  update_remote_service, delete_remote_service, add_chains, update_chains, delete_chains,
}
use flux_panel_v.Forward.{
  is_tunnel_forward, is_gost_success, get_user_tunnel, get_node_by_id, get_required_nodes,
  build_service_name,
}

-- `strings.Contains(msg, "not found")`
abbrev pub is_not_found : Text → Bool
is_not_found msg = contains msg (codes "not found")

-- The forward's own listen address takes the place of the tunnel's.
unfoldable pub override_listen : Text → Tunnel → Tunnel
override_listen [] t = t
override_listen (c ∷ s) t = record t { tcp_listen_addr = c ∷ s; udp_listen_addr = c ∷ s }

-- `listenIp != "" && strings.Contains(listenIp, ",")`
unfoldable pub is_multi_ip : Text → Bool
is_multi_ip listen_ip = not (is_empty listen_ip) && has_byte b',' listen_ip

abbrev pub service_args : Forward → Tunnel → Option ℕ → ServiceArgs
service_args f t limiter = record {
  in_port = f.in_port;
  limiter = limiter;
  remote_addr = f.remote_addr;
  fwd_type = t.type;
  strategy = f.strategy;
  interface_name = if is_tunnel_forward t then [] else f.interface_name;
}

module _ (env : Env) where
  unfoldable pub delete_remote_if : Option Node → Text → Action Text
  delete_remote_if none name = pure []
  delete_remote_if (some n) name = delete_remote_service env n.id name

  -- The last third of `createGostServices`, and all of it for a direct forward.
  unfoldable pub create_main_service :
      Forward → Tunnel → Option ℕ → Node → Option Node → Text → Action Text
  create_main_service f t limiter in_node out_node name = do
    msg ← add_service env in_node.id name (service_args f t limiter) t
    if is_gost_success msg
        then pure []
        else (delete_chains env in_node.id name >> (delete_remote_if out_node name >> pure msg))

  -- The exit node's part; `outNode.ID` of a nil node is a panic.
  unfoldable pub create_remote_service :
      Forward → Tunnel → Option ℕ → Node → Option Node → Text → Action Text
  create_remote_service f t limiter in_node none name = lift panic
  create_remote_service f t limiter in_node (some out_node) name = do
    msg ←
        add_remote_service env out_node.id name f.out_port f.remote_addr t.protocol f.strategy
          f.interface_name
    if is_gost_success msg
        then create_main_service f t limiter in_node (some out_node) name
        else (delete_chains env in_node.id name
            >> (delete_remote_service env out_node.id name >> pure msg))

  -- The chain comes first where the tunnel has an exit node.
  unfoldable pub create_chain :
      Forward → Tunnel → Option ℕ → Node → Option Node → Text → Action Text
  create_chain f t limiter in_node out_node name = do
    msg ←
        add_chains env in_node.id name (format_listen_addr t.out_ip f.out_port) t.protocol
          t.interface_name
    if is_gost_success msg
        then create_remote_service f t limiter in_node out_node name
        else (delete_chains env in_node.id name >> pure msg)

  unfoldable pub create_gost_services :
      Forward → Tunnel → Option ℕ → Node → Option Node → Text → Action Text
  create_gost_services f t limiter in_node out_node name =
      if is_tunnel_forward t
      then create_chain f t limiter in_node out_node name
      else create_main_service f t limiter in_node out_node name

  -- An update whose answer is "not found" is sent again as an addition.
  unfoldable pub or_add : Action Text → Action Text → Action Text
  or_add update add = do msg ← update; if is_not_found msg then add else pure msg

  unfoldable pub sync_main_service : Forward → Tunnel → Option ℕ → Node → Text → Action Text
  unfolding or_add
  sync_main_service f t limiter in_node name = do
    msg ←
        or_add (update_service env in_node.id name (service_args f t limiter) t)
          (add_service env in_node.id name (service_args f t limiter) t)
    pure (if is_gost_success msg then [] else msg)

  unfoldable pub sync_remote_service :
      Forward → Tunnel → Option ℕ → Node → Option Node → Text → Action Text
  unfolding sync_main_service
  sync_remote_service f t limiter in_node none name = lift panic
  sync_remote_service f t limiter in_node (some out_node) name = do
    msg ←
        or_add
          (update_remote_service env out_node.id name f.out_port f.remote_addr t.protocol f.strategy
            f.interface_name)
          (add_remote_service env out_node.id name f.out_port f.remote_addr t.protocol f.strategy
            f.interface_name)
    if is_gost_success msg then sync_main_service f t limiter in_node name else pure msg

  unfoldable pub sync_chain : Forward → Tunnel → Option ℕ → Node → Option Node → Text → Action Text
  sync_chain f t limiter in_node out_node name = do
    msg ←
        or_add
          (update_chains env in_node.id name (format_listen_addr t.out_ip f.out_port) t.protocol
            t.interface_name)
          (add_chains env in_node.id name (format_listen_addr t.out_ip f.out_port) t.protocol
            t.interface_name)
    if is_gost_success msg then sync_remote_service f t limiter in_node out_node name else pure msg

  unfoldable pub sync_gost_services :
      Forward → Tunnel → Option ℕ → Node → Option Node → Text → Action Text
  unfolding sync_chain
  sync_gost_services f t limiter in_node out_node name =
      if is_tunnel_forward t
      then sync_chain f t limiter in_node out_node name
      else sync_main_service f t limiter in_node name

  -- The deletion of the entry services under the names that fit the listen address.
  unfoldable pub delete_entry_services : Node → Text → Text → Action Text
  delete_entry_services in_node name listen_ip =
      if is_multi_ip listen_ip
      then delete_service_multi_ip env in_node.id name listen_ip
      else delete_service env in_node.id name

  -- An answer that neither succeeds nor says "not found".
  abbrev pub is_refusal : Text → Bool
  is_refusal msg = not (is_gost_success msg) && not (is_not_found msg)

  abbrev pub delete_remote_or_refusal : Option Node → Text → Action Text
  delete_remote_or_refusal none name = pure []
  delete_remote_or_refusal (some n) name = do
    msg ← delete_remote_service env n.id name
    pure (if is_refusal msg then msg else [])

  -- The chain and the remote service of a tunnel forward.
  unfoldable pub delete_exit_services : Tunnel → Node → Option Node → Text → Action Text
  delete_exit_services t in_node out_node name = do
    msg ← delete_chains env in_node.id name
    if is_refusal msg then pure msg else delete_remote_or_refusal out_node name

  unfoldable pub delete_gost_services_with_ip :
      Tunnel → Node → Option Node → Text → Text → Action Text
  unfolding delete_entry_services delete_exit_services
  delete_gost_services_with_ip t in_node out_node name listen_ip = do
    msg ← delete_entry_services in_node name listen_ip
    if is_refusal msg
        then pure msg
        else (if is_tunnel_forward t then delete_exit_services t in_node out_node name else pure [])

  abbrev pub delete_old_entry : Result (Node × Option Node) → Text → Text → Action Text
  delete_old_entry (ok (in_node, out_node)) name listen_ip =
      delete_entry_services in_node name listen_ip
  delete_old_entry _ name listen_ip = pure []

  -- The entry node's chain, and the exit node's service even where the entry node is gone.
  abbrev pub delete_old_exit : Result (Node × Option Node) → Option Node → Text → Action Text
  delete_old_exit (ok (in_node, out_node)) found name =
      delete_chains env in_node.id name >> delete_remote_if out_node name
  delete_old_exit _ found name = delete_remote_if found name

  unfoldable pub delete_old_gost_services : Forward → Tunnel → Action Text
  unfolding delete_entry_services delete_remote_if
  delete_old_gost_services f t = do
    ut ← gets (get_user_tunnel f.user_id t.id)
    let name = build_service_name f.id f.user_id ut
    nodes ← gets (get_required_nodes t)
    delete_old_entry nodes name f.listen_ip
    found ← gets (get_node_by_id t.out_node_id)
    if is_tunnel_forward t then delete_old_exit nodes found name else pure []
