-- ===== src/Gost/Names.antt =====
-- The names of the services that a forward has on its entry node.
use flux_panel_v.Base.{
  ℕ, ◌+◌, ◌≡◌, refl, inl, inr, List, [], ◌∷◌, map, Text, length, leb, Bool-cases,
}
use flux_panel_v.Model.{Tunnel}
use flux_panel_v.Gost.{
  ServiceArgs, ServiceConfig, split_listen_ips, build_services, build_service_config,
  build_service_config_with_ip, services_per_ip, names_per_ip, build_multi_ip_service_names,
}

abbrev pub names_of : List ServiceConfig → List Text
names_of = map (λ s. s.name)

names-services_per_ip :
    (name : Text) (a : ServiceArgs) (i : ℕ) (ips : List Text)
    → names_of (services_per_ip name a i ips) ≡ names_per_ip name i ips
unfolding services_per_ip names_per_ip build_service_config_with_ip
names-services_per_ip name a i [] = refl
names-services_per_ip name a i (ip ∷ ips) = simp (names-services_per_ip name a (i + 1) ips)

-- The services that are built for a tunnel's listen address have exactly the names that pausing,
-- resuming and deleting compute from that address, in the same order.
pub names-build_services :
    (name : Text) (a : ServiceArgs) (t : Tunnel)
    → names_of (build_services name a t) ≡ build_multi_ip_service_names name t.tcp_listen_addr
unfolding build_services build_multi_ip_service_names build_service_config
names-build_services name a t =
    elim (Bool-cases (leb (length (split_listen_ips t.tcp_listen_addr)) 1)) [
      | inl single ↦ rw single refl
      | inr many ↦ rw many (names-services_per_ip name a 0 (split_listen_ips t.tcp_listen_addr))
    ]
