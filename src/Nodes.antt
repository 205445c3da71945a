-- ===== src/Nodes.antt =====
-- The commands to a node: the exported functions of go-backend/pkg/gost.go, each the message that it
-- builds and sends by `WS.SendMsg`.
use flux_panel_v.Base.{ℕ, [], ◌∷◌, ◌++◌, Text, codes, show_nat}
use flux_panel_v.Model.{Tunnel}
use flux_panel_v.Gost.{
  ServiceArgs, create_limiter_data, build_services, build_forwarder, build_remote_service,
  build_chain_data, build_multi_ip_service_names, pair_names,
}
use flux_panel_v.Store.{Env, Action, Command, send}

module _ (env : Env) (node : ℕ) where
  unfoldable pub add_limiters : ℕ → Text → Action Text
  add_limiters name speed = send env node (Command.add_limiters (create_limiter_data name speed))

  unfoldable pub update_limiters : ℕ → Text → Action Text
  update_limiters name speed =
      send env node (Command.update_limiters (show_nat name) (create_limiter_data name speed))

  unfoldable pub delete_limiters : ℕ → Action Text
  delete_limiters name = send env node (Command.delete_limiters (show_nat name))

  unfoldable pub add_service : Text → ServiceArgs → Tunnel → Action Text
  add_service name a tunnel = send env node (Command.add_service (build_services name a tunnel))

  unfoldable pub update_service : Text → ServiceArgs → Tunnel → Action Text
  update_service name a tunnel =
      send env node (Command.update_service (build_services name a tunnel))

  unfoldable pub update_forwarder : Text → Text → Text → Action Text
  update_forwarder name remote_addr strategy = send env node (
      Command.update_forwarder (
        (name ++ codes "_tcp", build_forwarder remote_addr strategy)
        ∷ (name ++ codes "_udp", build_forwarder remote_addr strategy)
        ∷ []))

  unfoldable pub update_remote_forwarder : Text → Text → Text → Action Text
  update_remote_forwarder name remote_addr strategy =
      send env node (
        Command.update_forwarder
          ((name ++ codes "_tls", build_forwarder remote_addr strategy) ∷ []))

  unfoldable pub delete_service : Text → Action Text
  delete_service name = send env node (Command.delete_service (pair_names name))

  unfoldable pub delete_service_multi_ip : Text → Text → Action Text
  delete_service_multi_ip name listen_ip =
      send env node (Command.delete_service (build_multi_ip_service_names name listen_ip))

  unfoldable pub add_remote_service : Text → ℕ → Text → Text → Text → Text → Action Text
  add_remote_service name out_port remote_addr protocol strategy interface_name = send env node (
      Command.add_service
        (build_remote_service name out_port remote_addr protocol strategy interface_name ∷ []))

  unfoldable pub update_remote_service : Text → ℕ → Text → Text → Text → Text → Action Text
  update_remote_service name out_port remote_addr protocol strategy interface_name = send env node (
      Command.update_service
        (build_remote_service name out_port remote_addr protocol strategy interface_name ∷ []))

  unfoldable pub delete_remote_service : Text → Action Text
  delete_remote_service name = send env node (Command.delete_service ((name ++ codes "_tls") ∷ []))

  unfoldable pub pause_service : Text → Action Text
  pause_service name = send env node (Command.pause_service (pair_names name))

  unfoldable pub resume_service : Text → Action Text
  resume_service name = send env node (Command.resume_service (pair_names name))

  unfoldable pub pause_service_multi_ip : Text → Text → Action Text
  pause_service_multi_ip name listen_ip =
      send env node (Command.pause_service (build_multi_ip_service_names name listen_ip))

  unfoldable pub resume_service_multi_ip : Text → Text → Action Text
  resume_service_multi_ip name listen_ip =
      send env node (Command.resume_service (build_multi_ip_service_names name listen_ip))

  unfoldable pub pause_remote_service : Text → Action Text
  pause_remote_service name = send env node (Command.pause_service ((name ++ codes "_tls") ∷ []))

  unfoldable pub resume_remote_service : Text → Action Text
  resume_remote_service name = send env node (Command.resume_service ((name ++ codes "_tls") ∷ []))

  unfoldable pub add_chains : Text → Text → Text → Text → Action Text
  add_chains name remote_addr protocol interface_name =
      send env node (Command.add_chains (build_chain_data name remote_addr protocol interface_name))

  unfoldable pub update_chains : Text → Text → Text → Text → Action Text
  update_chains name remote_addr protocol interface_name = send env node (
      Command.update_chains (name ++ codes "_chains")
        (build_chain_data name remote_addr protocol interface_name))

  unfoldable pub delete_chains : Text → Action Text
  delete_chains name = send env node (Command.delete_chains (name ++ codes "_chains"))

  unfoldable pub get_service_names : Action Text
  get_service_names = send env node Command.get_service_names
