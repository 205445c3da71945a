-- ===== src/UserTunnels/Speeds.antt =====
-- A new speed limit for the forwards under a permission row: `updateForwardWithNewSpeed` and its caller.
use flux_panel_v.Base.{ℕ, Option, none, some, List, [], ◌∷◌, if◌then◌else◌}
use flux_panel_v.Model.{Forward, Tunnel, UserTunnel, Node}
use flux_panel_v.Store.{Env, Act, pure, gets, ◌>>=◌, ◌>>◌}
use flux_panel_v.Nodes.{update_service}
use flux_panel_v.Forward.{first_tunnel, get_node_by_id}
use flux_panel_v.Forward.Services.{override_listen, service_args}
use flux_panel_v.UserTunnels.{add_limiter_if, forwards_of, is_other_speed, name_of}

module _ (env : Env) where
  -- `updateForwardWithNewSpeed`
  unfoldable pub update_with_speed : Forward → Tunnel → UserTunnel → Option Node → Act
  update_with_speed f t ut none = pure tt
  update_with_speed f t ut (some n) =
      update_service env n.id (name_of f ut)
        (service_args f (override_listen f.listen_ip t) ut.speed_id) (override_listen f.listen_ip t)
      >> pure tt

  unfoldable pub update_forward_with_new_speed : Forward → Tunnel → UserTunnel → Act
  unfolding update_with_speed
  update_forward_with_new_speed f t ut =
      gets (get_node_by_id t.in_node_id) >>= update_with_speed f t ut

  unfoldable pub refresh_speeds : Tunnel → UserTunnel → List Forward → Act
  refresh_speeds t ut [] = pure tt
  refresh_speeds t ut (f ∷ fs) = update_forward_with_new_speed f t ut >> refresh_speeds t ut fs

  unfoldable pub change_speed : Tunnel → UserTunnel → ℕ → Node → Act
  unfolding add_limiter_if
  change_speed t ut speed_id n = do
    add_limiter_if env (some n) speed_id
    fs ← gets (forwards_of ut)
    refresh_speeds t (record ut { speed_id = some speed_id }) fs

  unfoldable pub change_speed_at : Tunnel → UserTunnel → ℕ → Option Node → Act
  unfolding change_speed
  change_speed_at t ut speed_id none = pure tt
  change_speed_at t ut speed_id (some n) =
      if is_other_speed ut.speed_id speed_id then change_speed t ut speed_id n else pure tt

  unfoldable pub change_speed_on : Option Tunnel → UserTunnel → ℕ → Act
  unfolding change_speed_at
  change_speed_on none ut speed_id = pure tt
  change_speed_on (some t) ut speed_id =
      gets (get_node_by_id t.in_node_id) >>= change_speed_at t ut speed_id

  unfoldable pub change_speed_if : UserTunnel → Option ℕ → Act
  unfolding change_speed_on
  change_speed_if ut none = pure tt
  change_speed_if ut (some speed_id) =
      gets (first_tunnel ut.tunnel_id) >>= λ t. change_speed_on t ut speed_id
