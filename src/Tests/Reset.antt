-- ===== src/Tests/Reset.antt =====
-- The daily task at concrete inputs.
use flux_panel_v.Base.{◌≡◌, refl, [], ◌∷◌, All}
use flux_panel_v.Store.{World}
use flux_panel_v.Reset.{Today, reset_flow, has_expired, users_due, is_monthly, is_weekly}
use flux_panel_v.Reset.Daily.{cleared_users, expired_users, IsCurrent, reset_flow-IsCurrent}
use flux_panel_v.Reset.Rows.{Resets, reset_flow-Resets}
use flux_panel_v.Samples.{user, db, world, env}

-- The last day of a short month, on a Sunday.
abbrev today : Today
today = record { day = 28; weekday = 0; days = 28 }

-- A user whose counters are due on the 31st, and one whose account expired.
abbrev month_end : World
month_end = record world {
  db = record db {
    users =
        record user { flow_reset_type = 1; flow_reset_day = 31 }
        ∷ (record user { id = 8; exp_time = 1000 } ∷ []);
  };
}

cleared_at_month_end :
    expired_users env (cleared_users env today month_end.db)
    ≡ record user { flow_reset_type = 1; flow_reset_day = 31; in_flow = 0; out_flow = 0 }
      ∷ (record user { id = 8; exp_time = 1000; status = 0 } ∷ [])
unfolding has_expired users_due is_monthly is_weekly
cleared_at_month_end = refl

reset_flow-Resets_example : Resets env today month_end (reset_flow env today month_end)
reset_flow-Resets_example = reset_flow-Resets env today month_end

reset_flow-IsCurrent_example : All (IsCurrent env) (reset_flow env today month_end).1.db.users
reset_flow-IsCurrent_example = reset_flow-IsCurrent env today month_end
