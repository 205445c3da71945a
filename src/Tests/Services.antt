-- ===== src/Tests/Services.antt =====
-- The messages to the nodes, at concrete inputs.
use flux_panel_v.Base.{◌≡◌, refl, ◌↔◌, some, arith, All, codes, split}
use flux_panel_v.Forward.Services.{create_gost_services}
use flux_panel_v.Forward.Services.Rollback.{Ended, entry_added, create_gost_services-Ended}
use flux_panel_v.Forward.Ssrf.{validate_remote_addr}
use flux_panel_v.Forward.Ssrf.Hosts.{IsAllowed, host_at, validate_remote_addr_iff}
use flux_panel_v.Store.{ok}
use flux_panel_v.Samples.{node, tunnel, forward, world, env, net}

create_gost_services-Ended_example :
    Ended env
      (entry_added forward tunnel (some 9) (node 1) (codes "5_7_4"))
      (node 1)
      (some (node 2))
      (codes "5_7_4")
      (create_gost_services env forward tunnel
        (some 9)
        (node 1)
        (some (node 2))
        (codes "5_7_4")
        world)
create_gost_services-Ended_example =
    create_gost_services-Ended env forward tunnel (some 9) (node 1) (codes "5_7_4") (some (node 2))
      world (λ e. (node 2, refl))

validate_remote_addr_iff_example :
    (validate_remote_addr net (codes "8.8.8.8:80,10.0.0.1:80") 1 ≡ ok tt)
    ↔ All (λ a. IsAllowed net (host_at net a)) (split b',' (codes "8.8.8.8:80,10.0.0.1:80"))
validate_remote_addr_iff_example =
    validate_remote_addr_iff net (codes "8.8.8.8:80,10.0.0.1:80") 1 (omega arith)
