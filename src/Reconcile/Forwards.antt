-- ===== src/Reconcile/Forwards.antt =====
-- `reconcileForwards` and `gentleSyncGostServices`.
use flux_panel_v.Base.{
  ℕ, ◌+◌, Bool, ◌&&◌, ◌||◌, Option, none, some, List, [], ◌∷◌, Text, select, update, ◌==◌,
  if◌then◌else◌,
}
use flux_panel_v.Model.{pos, negsuc, eq_ℤ, Forward, Tunnel, Node}
use flux_panel_v.Gost.{format_listen_addr}
use flux_panel_v.Store.{
  Db, Env, Result, ok, err, panic, Action, Act, pure, lift, gets, ◌>>=◌, ◌>>◌, modify_db,
}
use flux_panel_v.Nodes.{
  add_service, add_remote_service, add_chains, update_forwarder, update_remote_forwarder,
  pause_remote_service, pause_service, pause_service_multi_ip,
}
use flux_panel_v.Forward.{
  is_port_forward, is_tunnel_forward, is_gost_success, get_user_tunnel, get_required_nodes,
  build_service_name,
}
use flux_panel_v.Forward.Services.{service_args, override_listen, is_multi_ip}
use flux_panel_v.Reconcile.{
  tunnel_problem, forward_problem, ReconcileResult, add_problem, is_existing, limiter_key,
  touches_node,
}

-- `gentleSyncGostServices`: additions, and what is there already gets its targets anew.
module _ (env : Env) where
  unfoldable pub sync_entry : Forward → Tunnel → Option ℕ → Node → Text → Action Text
  sync_entry f t limiter in_node name = do
    msg ← add_service env in_node.id name (service_args f t limiter) t
    if is_gost_success msg
        then pure []
        else if is_existing msg
        then (if is_port_forward t
            then (update_forwarder env in_node.id name f.remote_addr f.strategy >>= λ again.
                pure (if is_gost_success again then [] else again))
            else pure [])
        else pure msg

  unfoldable pub sync_exit : Forward → Tunnel → Option ℕ → Node → Option Node → Text → Action Text
  unfolding sync_entry
  sync_exit f t limiter in_node none name = lift panic
  sync_exit f t limiter in_node (some out_node) name = do
    msg ←
        add_remote_service env out_node.id name f.out_port f.remote_addr t.protocol f.strategy
          f.interface_name
    if is_gost_success msg
        then sync_entry f t limiter in_node name
        else if is_existing msg
        then (update_remote_forwarder env out_node.id name f.remote_addr f.strategy >>= λ again.
            if is_gost_success again then sync_entry f t limiter in_node name else pure again)
        else pure msg

  unfoldable pub gentle_sync_gost_services :
      Forward → Tunnel → Option ℕ → Node → Option Node → Text → Action Text
  unfolding sync_entry sync_exit
  gentle_sync_gost_services f t limiter in_node out_node name =
      if is_tunnel_forward t
      then (add_chains env in_node.id name (format_listen_addr t.out_ip f.out_port) t.protocol
            t.interface_name
          >>= λ msg.
              if is_gost_success msg || is_existing msg
              then sync_exit f t limiter in_node out_node name
              else pure msg)
      else sync_entry f t limiter in_node name

-- A forward that was in error is active again.
unfoldable pub recover : ℕ → Db → Db
recover id db = record db {
  forwards = update (λ f. f.id == id) (λ f. record f { status = pos 1 }) db.forwards;
}

abbrev pub is_error : Forward → Bool
is_error f = eq_ℤ f.status (negsuc 0)

abbrev pub is_paused : Forward → Bool
is_paused f = eq_ℤ f.status (pos 0)

module _ (env : Env) (node : ℕ) where
  unfoldable pub note_sync : Forward → Text → ReconcileResult → Action ReconcileResult
  note_sync f [] r = if is_error f then (modify_db (recover f.id) >> pure r) else pure r
  note_sync f (c ∷ s) r = pure (add_problem (forward_problem f.id (c ∷ s)) r)

  unfoldable pub pause_entry_here : Forward → Tunnel → Text → Act
  pause_entry_here f t name =
      if t.in_node_id == node
      then ((if is_multi_ip f.listen_ip
            then pause_service_multi_ip env node name f.listen_ip
            else pause_service env node name)
          >> pure tt)
      else pure tt

  unfoldable pub pause_exit_here : Tunnel → Option Node → Text → Act
  pause_exit_here t none name = pure tt
  pause_exit_here t (some n) name =
      if is_tunnel_forward t && t.out_node_id == node
      then (pause_remote_service env node name >> pure tt)
      else pure tt

  -- What is paused stays paused on this node.
  unfoldable pub keep_paused : Forward → Tunnel → Option Node → Text → Act
  keep_paused f t out_node name =
      if is_paused f
      then (pause_entry_here f t name >> pause_exit_here t out_node name)
      else pure tt

  abbrev pub count_forward : ReconcileResult → ReconcileResult
  count_forward r = record r { forwards = r.forwards + 1 }

  unfoldable pub reconcile_forward :
      Tunnel → Node → Option Node → Forward → ReconcileResult → Action ReconcileResult
  reconcile_forward t in_node out_node f r = do
    ut ← gets (get_user_tunnel f.user_id f.tunnel_id)
    let name = build_service_name f.id f.user_id ut
    msg ←
        gentle_sync_gost_services env f (override_listen f.listen_ip t) (limiter_key ut) in_node
          out_node name
    v ← note_sync f msg r
    keep_paused f t out_node name
    pure (count_forward v)

  unfoldable pub reconcile_each :
      Tunnel → Node → Option Node → List Forward → ReconcileResult → Action ReconcileResult
  reconcile_each t in_node out_node [] r = pure r
  reconcile_each t in_node out_node (f ∷ fs) r =
      reconcile_forward t in_node out_node f r >>= λ v. reconcile_each t in_node out_node fs v

  unfoldable pub reconcile_on :
      Tunnel → List Forward → Result (Node × Option Node) → ReconcileResult → Action ReconcileResult
  reconcile_on t fs (ok (in_node, out_node)) r = reconcile_each t in_node out_node fs r
  reconcile_on t fs (err m) r = pure (add_problem (tunnel_problem t.id m) r)
  reconcile_on t fs panic r = lift panic

  unfoldable pub reconcile_tunnels : List Tunnel → ReconcileResult → Action ReconcileResult
  reconcile_tunnels [] r = pure r
  reconcile_tunnels (t ∷ ts) r =
      gets (λ db. select (λ f. f.tunnel_id == t.id) db.forwards) >>= λ fs.
      gets (get_required_nodes t) >>= λ nodes.
      reconcile_on t fs nodes r >>= λ v. reconcile_tunnels ts v

  unfoldable pub reconcile_forwards : ReconcileResult → Action ReconcileResult
  reconcile_forwards r =
      gets (λ db. select (touches_node node) db.tunnels) >>= λ ts. reconcile_tunnels ts r
