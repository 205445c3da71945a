-- ===== src/Links/Panel.antt =====
-- The panel as a whole: every request that the modelled handlers serve, in any order, each with an
-- environment of its own.
use flux_panel_v.Base.{ℕ, Bool, Option, List, Text}
use flux_panel_v.Model.{ℤ, Forward}
use flux_panel_v.Store.{World, Env, Sent}
use flux_panel_v.Forward.Ssrf.{Net}
use flux_panel_v.Forward.Create.{ForwardDto, create_forward}
use flux_panel_v.Forward.Update.{ForwardUpdateDto, update_forward}
use flux_panel_v.Forward.Order.{Items, update_forward_order}
use flux_panel_v.Forward.Replace.{update_forward_a}
use flux_panel_v.Forward.Control.{
  pause_forward, resume_forward, delete_forward, force_delete_forward,
}
use flux_panel_v.Flow.{FlowDto, Floats, process_flow_data}
use flux_panel_v.Reset.{Today, reset_flow}
use flux_panel_v.Tunnels.{
  TunnelDto, TunnelUpdateDto, OrderItem, create_tunnel, update_tunnel, update_tunnel_order,
  delete_tunnel,
}
use flux_panel_v.NodeRows.{
  NodeDto, NodeUpdateDto, NodeSetProtocolDto, Drawn, create_node, update_node, set_node_protocol,
  update_node_order,
}
use flux_panel_v.Links.Nodes.{
  create_node-IsLinked, update_node-IsLinked, set_node_protocol-IsLinked,
  update_node_order-IsLinked,
}
use flux_panel_v.UserTunnels.{UserTunnelDto, UserTunnelUpdateDto, assign_user_tunnel}
use flux_panel_v.UserTunnels.Removal.{remove_user_tunnel}
use flux_panel_v.UserTunnels.Change.{update_user_tunnel}
use flux_panel_v.SpeedLimits.{
  SpeedLimitDto, SpeedLimitUpdateDto, create_speed_limit, update_speed_limit, delete_speed_limit,
}
use flux_panel_v.Links.{IsLinked}
use flux_panel_v.Links.Tunnels.{
  create_tunnel-IsLinked, update_tunnel-IsLinked, update_tunnel_order-IsLinked,
  delete_tunnel-IsLinked, assign_user_tunnel-IsLinked,
}
use flux_panel_v.Links.Rows.{remove_user_tunnel-IsLinked, update_user_tunnel-IsLinked}
use flux_panel_v.Links.Limits.{
  create_speed_limit-IsLinked, update_speed_limit-IsLinked, delete_speed_limit-IsLinked,
}
use flux_panel_v.Links.Forwards.{create_forward-IsLinked, update_forward-IsLinked}
use flux_panel_v.Links.Control.{
  pause_forward-IsLinked, resume_forward-IsLinked, delete_forward-IsLinked,
  force_delete_forward-IsLinked, update_forward_a-IsLinked, update_forward_order-IsLinked,
}
use flux_panel_v.Links.Tasks.{process_flow_data-IsLinked}
use flux_panel_v.Links.Daily.{reset_flow-IsLinked}
use flux_panel_v.Reconcile.Runs.{reconcile_gost_services}
use flux_panel_v.Links.Reconcile.{reconcile_gost_services-IsLinked}

-- A request with what its handler is given: of the caller, his key, his role and his name.
pub data Request : Type 0 where
  creates_forward : Net → ForwardDto → ℕ → ℕ → Text → Request
  updates_forward : Net → ForwardUpdateDto → ℕ → ℕ → Request
  refreshes_forward : Forward → Request
  orders_forwards : Items → ℕ → ℕ → Request
  pauses_forward resumes_forward deletes_forward : ℕ → ℕ → ℕ → Request
  force_deletes_forward : ℕ → Request
  creates_tunnel : TunnelDto → Request
  updates_tunnel : TunnelUpdateDto → Request
  orders_tunnels : List OrderItem → Request
  deletes_tunnel : ℕ → Request
  creates_node : Drawn → NodeDto → Request
  updates_node : NodeUpdateDto → Request
  sets_protocol : NodeSetProtocolDto → Request
  orders_nodes : List OrderItem → Request
  assigns_tunnel : UserTunnelDto → Request
  updates_permission : UserTunnelUpdateDto → Request
  removes_permission : ℕ → Request
  creates_speed_limit : SpeedLimitDto → Request
  updates_speed_limit : SpeedLimitUpdateDto → Request
  deletes_speed_limit : ℕ → Request
  reports_flow : Floats → (Text → ℕ) → FlowDto → Request
  resets_flow : Today → Request
  synchronises : (Text → Option ℤ) → (List Sent → Option (List Text)) → ℕ → Bool → Request

-- The panel after a request, whatever the caller was answered.
unfoldable pub serve : Env → Request → World → World
serve env (creates_forward net d user_id role_id user_name) w =
    (create_forward env net d user_id role_id user_name w).1
serve env (updates_forward net d user_id role_id) w = (update_forward env net d user_id role_id w).1
serve env (orders_forwards asked user_id role_id) w =
    (update_forward_order asked user_id role_id w).1
serve env (refreshes_forward f) w = (update_forward_a env f w).1
serve env (pauses_forward id user_id role_id) w = (pause_forward env id user_id role_id w).1
serve env (resumes_forward id user_id role_id) w = (resume_forward env id user_id role_id w).1
serve env (deletes_forward id user_id role_id) w = (delete_forward env id user_id role_id w).1
serve env (force_deletes_forward id) w = (force_delete_forward env id w).1
serve env (creates_tunnel d) w = (create_tunnel env d w).1
serve env (updates_tunnel d) w = (update_tunnel env d w).1
serve env (orders_tunnels items) w = (update_tunnel_order items w).1
serve env (deletes_tunnel id) w = (delete_tunnel id w).1
serve env (creates_node drawn d) w = (create_node env drawn d w).1
serve env (updates_node d) w = (update_node env d w).1
serve env (sets_protocol d) w = (set_node_protocol env d w).1
serve env (orders_nodes is) w = (update_node_order is w).1
serve env (assigns_tunnel d) w = (assign_user_tunnel env d w).1
serve env (updates_permission d) w = (update_user_tunnel env d w).1
serve env (removes_permission id) w = (remove_user_tunnel env id w).1
serve env (creates_speed_limit d) w = (create_speed_limit env d w).1
serve env (updates_speed_limit d) w = (update_speed_limit env d w).1
serve env (deletes_speed_limit id) w = (delete_speed_limit env id w).1
serve env (reports_flow fl read_key flow) w = (process_flow_data env fl read_key flow w).1
serve env (resets_flow now) w = (reset_flow env now w).1
serve env (synchronises parse_int data_of node is_locked) w =
    (reconcile_gost_services env parse_int data_of node is_locked w).1

-- The panels that requests lead to.
pub data Reaches (w : World) : World → Type 0 where
  here : Reaches w w
  next : {v : World} → Reaches w v → (env : Env) → (r : Request) → Reaches w (serve env r v)

serve-IsLinked : (env : Env) (r : Request) (w : World) → IsLinked w.db → IsLinked (serve env r w).db
unfolding serve
serve-IsLinked env (creates_forward net d user_id role_id user_name) =
    (create_forward-IsLinked env net d user_id role_id user_name).after
serve-IsLinked env (updates_forward net d user_id role_id) =
    (update_forward-IsLinked env net d user_id role_id).after
serve-IsLinked env (orders_forwards asked user_id role_id) =
    (update_forward_order-IsLinked asked user_id role_id).after
serve-IsLinked env (refreshes_forward f) = (update_forward_a-IsLinked env f).after
serve-IsLinked env (pauses_forward id user_id role_id) =
    (pause_forward-IsLinked env id user_id role_id).after
serve-IsLinked env (resumes_forward id user_id role_id) =
    (resume_forward-IsLinked env id user_id role_id).after
serve-IsLinked env (deletes_forward id user_id role_id) =
    (delete_forward-IsLinked env id user_id role_id).after
serve-IsLinked env (force_deletes_forward id) = (force_delete_forward-IsLinked env id).after
serve-IsLinked env (creates_tunnel d) = (create_tunnel-IsLinked env d).after
serve-IsLinked env (updates_tunnel d) = (update_tunnel-IsLinked env d).after
serve-IsLinked env (orders_tunnels items) = (update_tunnel_order-IsLinked items).after
serve-IsLinked env (deletes_tunnel id) = (delete_tunnel-IsLinked id).after
serve-IsLinked env (creates_node drawn d) = (create_node-IsLinked env drawn d).after
serve-IsLinked env (updates_node d) = (update_node-IsLinked env d).after
serve-IsLinked env (sets_protocol d) = (set_node_protocol-IsLinked env d).after
serve-IsLinked env (orders_nodes is) = (update_node_order-IsLinked is).after
serve-IsLinked env (assigns_tunnel d) = (assign_user_tunnel-IsLinked env d).after
serve-IsLinked env (updates_permission d) = (update_user_tunnel-IsLinked env d).after
serve-IsLinked env (removes_permission id) = (remove_user_tunnel-IsLinked env id).after
serve-IsLinked env (creates_speed_limit d) = (create_speed_limit-IsLinked env d).after
serve-IsLinked env (updates_speed_limit d) = (update_speed_limit-IsLinked env d).after
serve-IsLinked env (deletes_speed_limit id) = (delete_speed_limit-IsLinked env id).after
serve-IsLinked env (reports_flow fl read_key flow) =
    (process_flow_data-IsLinked env fl read_key flow).after
serve-IsLinked env (resets_flow now) = (reset_flow-IsLinked env now).after
serve-IsLinked env (synchronises parse_int data_of node is_locked) =
    (reconcile_gost_services-IsLinked env parse_int data_of node is_locked).after

-- Whatever requests the panel serves, in whatever order and whatever each of them is answered, its
-- forwards and permission rows stay on tunnels that exist, and no user gets two permission rows on
-- one tunnel, when the panel started so.
pub Reaches-IsLinked : (w v : World) → IsLinked w.db → Reaches w v → IsLinked v.db
Reaches-IsLinked w _ h here = h
Reaches-IsLinked w _ h (next earlier env r) =
    serve-IsLinked env r _ (Reaches-IsLinked w _ h earlier)
