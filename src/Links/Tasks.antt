-- ===== src/Links/Tasks.antt =====
-- References under traffic reports and the daily task.
use flux_panel_v.Base.{ℕ, refl, inl, inr, Option, none, some, List, [], ◌∷◌, Text, ◌==◌, Bool-cases}
use flux_panel_v.Model.{User, Forward, Tunnel, UserTunnel}
use flux_panel_v.Store.{Env, modify_db}
use flux_panel_v.Store.Preserves.{Preserves, Preserves-bind, Preserves-modify, preserving}
use flux_panel_v.Nodes.{pause_service, pause_service_multi_ip, pause_remote_service}
use flux_panel_v.Flow.{
  FlowDto, Floats, Keys, pause_on_entry, pause_on_exit, pause_through, pause_one,
  pause_forward_services, pause_all_user_services, pause_specific_forward, enforce_user,
  check_user_limits, enforce_user_tunnel, check_user_tunnel_limits, add_forward_flow, add_user_flow,
  add_user_tunnel_flow, account, enforce, charge, process_keys, process_flow_data,
}
use flux_panel_v.Links.{IsLinked}
use flux_panel_v.Links.Tables.{update_forwards-IsLinked, update_rows-IsLinked, with_users-IsLinked}
use flux_panel_v.Links.Rows.{set_status-IsLinked}

module _ (env : Env) where
  pause_through-IsLinked :
      (f : Forward) (t : Option Tunnel) → Preserves IsLinked (pause_through env f t)
  unfolding pause_through pause_on_entry pause_on_exit pause_service pause_service_multi_ip
      pause_remote_service
  pause_through-IsLinked f none = search preserving
  pause_through-IsLinked f (some t) = search (preserving, set_status-IsLinked) depth 20

  pause_services-IsLinked : (fs : List Forward) → Preserves IsLinked (pause_forward_services env fs)
  unfolding pause_forward_services pause_one
  pause_services-IsLinked [] = search preserving
  pause_services-IsLinked (f ∷ fs) =
      Preserves-bind _ _ (search (preserving, pause_through-IsLinked) depth 20)
        (λ a. pause_services-IsLinked fs)

  enforce_user-IsLinked : (id : ℕ) (u : Option User) → Preserves IsLinked (enforce_user env id u)
  unfolding enforce_user pause_all_user_services
  enforce_user-IsLinked id none = search preserving
  enforce_user-IsLinked id (some u) = search (preserving, pause_services-IsLinked) depth 20

  enforce_tunnel-IsLinked :
      (id : ℕ) (ut : Option UserTunnel) → Preserves IsLinked (enforce_user_tunnel env id ut)
  unfolding enforce_user_tunnel pause_specific_forward
  enforce_tunnel-IsLinked id none = search preserving
  enforce_tunnel-IsLinked id (some ut) = search (preserving, pause_services-IsLinked) depth 20

  enforce-IsLinked : (k : Keys) → Preserves IsLinked (enforce env k)
  unfolding enforce check_user_limits check_user_tunnel_limits
  enforce-IsLinked k = search (preserving, enforce_user-IsLinked, enforce_tunnel-IsLinked) depth 20

account-IsLinked : (k : Keys) (d u : ℕ) → Preserves IsLinked (modify_db (account k d u))
unfolding account add_forward_flow add_user_flow add_user_tunnel_flow
account-IsLinked k d u = Preserves-modify _ (λ db h.
    let both =
      with_users-IsLinked _ _
        (update_forwards-IsLinked db (λ f. f.id == k.forward) _ (λ f. inl refl) h) in
    elim (Bool-cases k.is_admin_forward) [
      | inl admin ↦ rw admin both
      | inr ordinary ↦
          rw ordinary
            (update_rows-IsLinked _ (λ f. f.id == k.user_tunnel) _ (λ x. refl) (λ x. refl) both)
    ])

module _ (env : Env) (fl : Floats) where
  charge-IsLinked :
      (k : Keys) (flow : FlowDto) (f : Option Forward) → Preserves IsLinked (charge env fl k flow f)
  unfolding charge
  charge-IsLinked k flow none = search preserving
  charge-IsLinked k flow (some f) = search (preserving, account-IsLinked, enforce-IsLinked) depth 20

  process_keys-IsLinked :
      (flow : FlowDto) (k : Option Keys) → Preserves IsLinked (process_keys env fl flow k)
  unfolding process_keys
  process_keys-IsLinked flow none = search preserving
  process_keys-IsLinked flow (some k) = search (preserving, charge-IsLinked) depth 20

  pub process_flow_data-IsLinked :
      (read_key : Text → ℕ) (flow : FlowDto)
      → Preserves IsLinked (process_flow_data env fl read_key flow)
  unfolding process_flow_data
  process_flow_data-IsLinked read_key flow = process_keys-IsLinked flow _
