-- ===== src/Tests/Reports.antt =====
-- Traffic reports at concrete inputs.
use flux_panel_v.Base.{
  show_nat, digits_onto, All, ◌≡◌, refl, inl, inr, ◌&&◌, some, [], ◌∷◌, arith, codes, split,
  eq_text, ◌==◌,
}
use flux_panel_v.Store.{World, ok}
use flux_panel_v.Forward.{first_forward, first_user, first_tunnel, build_service_name}
use flux_panel_v.Flow.{
  charged, account, read_parts, process_flow_data, pause_forward_services, first_user_tunnel,
}
use flux_panel_v.Flow.Pausing.{Leaves, with_paused, pause_forward_services_lem}
use flux_panel_v.Flow.Enforcement.{Quiet}
use flux_panel_v.Gost.{build_services}
use flux_panel_v.Gost.Names.{names_of}
use flux_panel_v.Flow.Names.{ReadsAs, keys_of, build_services-ReadsAs}
use flux_panel_v.Flow.Accounts.{Charges}
use flux_panel_v.Flow.Reports.{
  process_flow_data-accounts, process_flow_data-stops_user, process_flow_data-stops_user_tunnel,
}
use flux_panel_v.Samples.{
  user, user_tunnel, forward, db, world, env, report, floats, read_digit, keys, args, two_addresses,
}

parts_read : read_parts read_digit (split b'_' (codes "5_7_4")) ≡ some keys
unfolding read_parts split eq_text
parts_read = refl

forward_found : first_forward 5 db ≡ some forward
unfolding first_forward
forward_found = refl

pause_forward_services_lem_example :
    Leaves (with_paused (forward ∷ []) db) (pause_forward_services env (forward ∷ []) world)
pause_forward_services_lem_example = pause_forward_services_lem env (forward ∷ []) world

process_flow_data-accounts_example :
    ((process_flow_data env floats read_digit report world).0 ≡ ok tt)
    × Charges keys 6 10 db (process_flow_data env floats read_digit report world).1.db
unfolding charged first_tunnel
process_flow_data-accounts_example =
    process_flow_data-accounts env floats read_digit report keys forward world parts_read
      forward_found

-- The user is disabled, and his permission row has used its quota up.
abbrev over_world : World
over_world = record world {
  db = record db {
    users = record user { status = 0 } ∷ [];
    user_tunnels = record user_tunnel { in_flow = 10737418240 } ∷ [];
  };
}

over_user :
    first_user 7 (account keys 6 10 over_world.db)
    ≡ some (record user { status = 0; in_flow = 106; out_flow = 110 })
unfolding first_user account
over_user = refl

over_row :
    first_user_tunnel 4 (account keys 6 10 over_world.db)
    ≡ some (record user_tunnel { in_flow = 10737418246; out_flow = 110 })
unfolding first_user_tunnel account
over_row = refl

over_forward : first_forward 5 over_world.db ≡ some forward
unfolding first_forward
over_forward = refl

process_flow_data-stops_user_example :
    Quiet (λ g. g.user_id == 7) (process_flow_data env floats read_digit report over_world).1.db
unfolding charged first_tunnel
process_flow_data-stops_user_example =
    process_flow_data-stops_user env floats read_digit report keys forward over_world parts_read
      over_forward (record user { status = 0; in_flow = 106; out_flow = 110 }) refl over_user
      (omega arith, omega arith) (inr (inr (omega arith)))

process_flow_data-stops_user_tunnel_example :
    Quiet
      (λ g. g.tunnel_id == 3 && g.user_id == 7)
      (process_flow_data env floats read_digit report over_world).1.db
unfolding charged first_tunnel
process_flow_data-stops_user_tunnel_example =
    process_flow_data-stops_user_tunnel env floats read_digit report keys forward over_world
      parts_read over_forward (record user_tunnel { in_flow = 10737418246; out_flow = 110 }) refl
      over_row (omega arith, omega arith) (inl (omega arith, omega arith))

-- The services on two addresses, by single-digit keys.
build_services-ReadsAs_example :
    All
      (ReadsAs read_digit (keys_of 5 7 (some user_tunnel)))
      (names_of (build_services (build_service_name 5 7 (some user_tunnel)) args two_addresses))
unfolding show_nat digits_onto
build_services-ReadsAs_example =
    build_services-ReadsAs read_digit 5 7 (some user_tunnel) refl refl refl args two_addresses
