-- ===== src/Tests/Links.antt =====
-- References between the tables at concrete inputs.
use flux_panel_v.Base.{
  ℕ, ◌≤◌, ◌≡◌, refl, inr, ◌&&◌, some, [], ◌∷◌, arith, length, select, codes, split, eq_text, ◌==◌,
}
use flux_panel_v.Model.{UserTunnel}
use flux_panel_v.Store.{World, ◌>>=◌, modify_db}
use flux_panel_v.Forward.{first_forward, first_user, first_tunnel}
use flux_panel_v.Flow.{charged, account, read_parts, process_flow_data}
use flux_panel_v.Tunnels.{set_inx, update_tunnel_order}
use flux_panel_v.UserTunnels.{count_rows}
use flux_panel_v.Links.{IsLinked}
use flux_panel_v.Links.Panel.{
  here, next, serve, pauses_forward, deletes_tunnel, orders_tunnels, Reaches-IsLinked,
}
use flux_panel_v.Links.Enforced.{AllPaused, process_flow_data-AllPaused}
use flux_panel_v.Samples.{
  user, user_tunnel, forward, db, world, env, report, floats, read_digit, keys,
}

one_row :
    (u t : ℕ) (x : UserTunnel)
    → length (select (λ ut. ut.user_id == u && ut.tunnel_id == t) (x ∷ [])) ≤ 1
one_row u t x = ground arith

db-IsLinked : IsLinked db
unfolding count_rows
db-IsLinked = record {
  forwards = (refl, tt);
  user_tunnels = (refl, tt);
  single = λ u t. one_row u t user_tunnel;
}

-- The forward is paused, and its tunnel is not deleted.
Reaches-IsLinked_example :
    IsLinked (serve env (deletes_tunnel 3) (serve env (pauses_forward 5 7 1) world)).db
Reaches-IsLinked_example =
    Reaches-IsLinked world _ db-IsLinked
      (next (next here env (pauses_forward 5 7 1)) env (deletes_tunnel 3))

-- A disabled user, on a panel whose tunnels were ordered anew.
abbrev disabled : World
disabled = record world { db = record db { users = record user { status = 0 } ∷ [] } }

abbrev disabled-IsLinked : IsLinked disabled.db
unfolding count_rows
disabled-IsLinked = record {
  forwards = (refl, tt);
  user_tunnels = (refl, tt);
  single = λ u t. one_row u t user_tunnel;
}

abbrev ordered : World
ordered = serve env (orders_tunnels (record { id = 3; inx = 2 } ∷ [])) disabled

parts_read : read_parts read_digit (split b'_' (codes "5_7_4")) ≡ some keys
unfolding read_parts split eq_text
parts_read = refl

forward_there : first_forward 5 ordered.db ≡ some forward
unfolding first_forward serve update_tunnel_order ◌>>=◌ modify_db set_inx
forward_there = refl

user_there :
    first_user 7 (
      account keys
        (charged floats (first_tunnel 3 ordered.db) 3)
        (charged floats (first_tunnel 3 ordered.db) 5)
        ordered.db)
    ≡ some (record user { status = 0; in_flow = 106; out_flow = 110 })
unfolding first_user account serve update_tunnel_order ◌>>=◌ modify_db set_inx charged first_tunnel
user_there = refl

process_flow_data-AllPaused_example :
    AllPaused (λ g. g.user_id == 7) (process_flow_data env floats read_digit report ordered).1.db
process_flow_data-AllPaused_example =
    process_flow_data-AllPaused env floats read_digit report keys forward ordered parts_read
      forward_there disabled (record user { status = 0; in_flow = 106; out_flow = 110 })
      disabled-IsLinked (next here env (orders_tunnels (record { id = 3; inx = 2 } ∷ []))) refl
      user_there (omega arith, omega arith) (inr (inr (omega arith)))
