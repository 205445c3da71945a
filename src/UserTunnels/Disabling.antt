-- ===== src/UserTunnels/Disabling.antt =====
-- The pause of the forwards under a row that is being disabled: `pauseForwardForDisable` and its caller.
use flux_panel_v.Base.{Option, none, some, List, [], ◌∷◌, Text, if◌then◌else◌}
use flux_panel_v.Model.{pos, Forward, Tunnel, UserTunnel, Node}
use flux_panel_v.Store.{Env, Action, Act, pure, gets, ◌>>=◌, ◌>>◌, modify_db}
use flux_panel_v.Nodes.{pause_service, pause_service_multi_ip, pause_remote_service}
use flux_panel_v.Forward.{is_tunnel_forward, first_tunnel, get_node_by_id}
use flux_panel_v.Forward.Services.{is_multi_ip}
use flux_panel_v.Forward.Create.{set_status}
use flux_panel_v.UserTunnels.{name_of, running_forwards_of}

module _ (env : Env) where
  -- `pauseForwardForDisable`
  unfoldable pub pause_entry_of : Node → Forward → Text → Action Text
  pause_entry_of n f name =
      if is_multi_ip f.listen_ip
      then pause_service_multi_ip env n.id name f.listen_ip
      else pause_service env n.id name

  unfoldable pub pause_exit_of : Tunnel → Option Node → Text → Action Text
  pause_exit_of t none name = pure []
  pause_exit_of t (some n) name =
      if is_tunnel_forward t then pause_remote_service env n.id name else pure []

  unfoldable pub pause_for_disable_at : Forward → Tunnel → UserTunnel → Option Node → Act
  unfolding pause_entry_of pause_exit_of
  pause_for_disable_at f t ut none = pure tt
  pause_for_disable_at f t ut (some n) = do
    pause_entry_of n f (name_of f ut)
    out_node ← gets (get_node_by_id t.out_node_id)
    pause_exit_of t out_node (name_of f ut)
    modify_db (set_status (pos 0) f.id)

  unfoldable pub pause_forward_for_disable : Forward → Tunnel → UserTunnel → Act
  unfolding pause_for_disable_at
  pause_forward_for_disable f t ut =
      gets (get_node_by_id t.in_node_id) >>= pause_for_disable_at f t ut

  unfoldable pub pause_all_for_disable : Tunnel → UserTunnel → List Forward → Act
  pause_all_for_disable t ut [] = pure tt
  pause_all_for_disable t ut (f ∷ fs) =
      pause_forward_for_disable f t ut >> pause_all_for_disable t ut fs

  unfoldable pub pause_disabled_on : Option Tunnel → UserTunnel → List Forward → Act
  pause_disabled_on none ut fs = pure tt
  pause_disabled_on (some t) ut fs = pause_all_for_disable t ut fs

  unfoldable pub pause_disabled : UserTunnel → Act
  unfolding pause_disabled_on
  pause_disabled ut = do
    fs ← gets (running_forwards_of ut)
    t ← gets (first_tunnel ut.tunnel_id)
    pause_disabled_on t ut fs
