-- ===== src/Flow/Reports.antt =====
-- A whole report: `processFlowData` in go-backend/service/flow.go.
use flux_panel_v.Base.{
  ℕ, ◌+◌, ◌*◌, ◌≤◌, ◌<◌, ◌≡◌, ◌≢◌, refl, ◌⊎◌, true, false, ◌&&◌, some, arith, Text, split, ◌==◌,
}
use flux_panel_v.Model.{User, Forward, UserTunnel}
use flux_panel_v.Store.{Db, World, Env, ok, ◌>>=◌, modify_db}
use flux_panel_v.Forward.{first_tunnel, first_user, first_forward}
use flux_panel_v.Forward.Limits.{bytes_to_gb, is_expired, is_used_up}
use flux_panel_v.Forward.Limits.Permissions.{FitsInt64}
use flux_panel_v.Flow.{
  FlowDto, Floats, Keys, is_user_over, is_user_tunnel_over, check_user_limits, first_user_tunnel,
  check_user_tunnel_limits, charged, read_parts, account, enforce, charge, process_keys,
  process_flow_data,
}
use flux_panel_v.Flow.Enforcement.{Quiet}
use flux_panel_v.Flow.Accounts.{Charges, account-Charges}
use flux_panel_v.Flow.Runs.{
  SameButStatus, check_user_limits-Pauses, check_user_limits-Quiet, check_user_tunnel_limits-Pauses,
  check_user_tunnel_limits-Quiet, enforce-PausesTwice, enforce_ordinary, Quiet-after_both,
  Quiet-after_second, row_after, with_paused-SameButStatus,
}

-- A user over one of his limits: more traffic than his quota, an expiry that has passed, or a status
-- other than 1. And a permission row, which is over already when its quota is used up exactly.
abbrev pub IsOver : Env → ℕ → ℕ → Type 0
IsOver env exp status = ((exp ≢ 0) × (exp ≤ env.now)) ⊎ (status ≢ 1)

abbrev pub IsUserOver : Env → User → Type 0
IsUserOver env user =
    ((user.flow ≢ 0) × (user.flow * bytes_to_gb < user.in_flow + user.out_flow))
    ⊎ IsOver env user.exp_time user.status

abbrev pub IsUserTunnelOver : Env → UserTunnel → Type 0
IsUserTunnelOver env ut =
    ((ut.flow ≢ 0) × (ut.flow * bytes_to_gb ≤ ut.in_flow + ut.out_flow))
    ⊎ IsOver env ut.exp_time ut.status

is_user_over_of :
    (env : Env) (user : User)
    → FitsInt64 user.flow user.in_flow user.out_flow
    → IsUserOver env user
    → is_user_over env user ≡ true
unfolding is_user_over is_expired
is_user_over_of env user fits over = ground arith

is_user_tunnel_over_of :
    (env : Env) (ut : UserTunnel)
    → FitsInt64 ut.flow ut.in_flow ut.out_flow
    → IsUserTunnelOver env ut
    → is_user_tunnel_over env ut ≡ true
unfolding is_user_tunnel_over is_expired is_used_up
is_user_tunnel_over_of env ut fits over = ground arith

module _ (env : Env) (fl : Floats) (read_key : Text → ℕ) (flow : FlowDto) (k : Keys) (f : Forward)
    (w : World) (parts : read_parts read_key (split b'_' flow.n) ≡ some k)
    (known : first_forward k.forward w.db ≡ some f) where
  -- The bytes down and up that the report is charged for.
  abbrev pub down : ℕ
  down = charged fl (first_tunnel f.tunnel_id w.db) flow.d

  abbrev pub up : ℕ
  up = charged fl (first_tunnel f.tunnel_id w.db) flow.u

  abbrev charged_db : Db
  charged_db = account k down up w.db

  process-enforce :
      process_flow_data env fl read_key flow w ≡ enforce env k (record w { db = charged_db })
  unfolding process_flow_data process_keys charge ◌>>=◌ modify_db
  process-enforce = rw (parts, known)

  pub process-SameButStatus :
      ((process_flow_data env fl read_key flow w).0 ≡ ok tt)
      × SameButStatus (process_flow_data env fl read_key flow w).1.db (account k down up w.db)
  process-SameButStatus =
      let run = enforce-PausesTwice env k (record w { db = charged_db }) in
      rw (process-enforce, run.leaves.tables)
        (run.leaves.returned, with_paused-SameButStatus run.first run.second charged_db)

  -- A report on a forward that exists never fails. It adds the charged bytes down to the incoming and
  -- the charged bytes up to the outgoing counter of the forward, of the user and, unless the third
  -- part of the name is "0", of the permission row with the keys of its name, and beyond that it
  -- changes only statuses of forwards.
  pub process_flow_data-accounts :
      ((process_flow_data env fl read_key flow w).0 ≡ ok tt)
      × Charges k down up w.db (process_flow_data env fl read_key flow w).1.db
  process_flow_data-accounts = (
    process-SameButStatus.0,
    account-Charges k down up w.db (process_flow_data env fl read_key flow w).1.db
        process-SameButStatus.1,
  )

  -- After a report on an ordinary forward, a user who is over his limits by the charged counters has
  -- no running forward on any tunnel that exists, as long as his counters fit into int64.
  pub process_flow_data-stops_user :
      (user : User)
      → k.is_admin_forward ≡ false
      → first_user k.user charged_db ≡ some user
      → FitsInt64 user.flow user.in_flow user.out_flow
      → IsUserOver env user
      → Quiet (λ g. g.user_id == k.user) (process_flow_data env fl read_key flow w).1.db
  process_flow_data-stops_user user ordinary found fits over =
      rw (process-enforce, enforce_ordinary env k (record w { db = charged_db }) ordinary)
        (Quiet-after_both (λ g. g.user_id == k.user) (λ g. refl) (check_user_limits env k.user)
          (check_user_tunnel_limits env k.user_tunnel k.user) (record w { db = charged_db })
          (check_user_limits-Pauses env k.user (record w { db = charged_db }))
          (check_user_tunnel_limits-Pauses env k.user_tunnel k.user)
          (check_user_limits-Quiet env k.user (record w { db = charged_db }) user found
            (is_user_over_of env user fits over)))

  -- After a report on an ordinary forward, a user whose permission row is over its limits by the
  -- charged counters, its quota used up exactly included, has no running forward of his on the row's
  -- tunnel if that tunnel exists, as long as the row's counters fit into int64.
  pub process_flow_data-stops_user_tunnel :
      (ut : UserTunnel)
      → k.is_admin_forward ≡ false
      → first_user_tunnel k.user_tunnel charged_db ≡ some ut
      → FitsInt64 ut.flow ut.in_flow ut.out_flow
      → IsUserTunnelOver env ut
      → Quiet
          (λ g. g.tunnel_id == ut.tunnel_id && g.user_id == k.user)
          (process_flow_data env fl read_key flow w).1.db
  process_flow_data-stops_user_tunnel ut ordinary found fits over =
      let start : World = record w { db = charged_db } in
      let first = check_user_limits-Pauses env k.user start in
      rw (process-enforce, enforce_ordinary env k (record w { db = charged_db }) ordinary)
        (Quiet-after_second (λ g. g.tunnel_id == ut.tunnel_id && g.user_id == k.user)
          (check_user_limits env k.user) (check_user_tunnel_limits env k.user_tunnel k.user) start
          first
          (check_user_tunnel_limits-Quiet env k.user_tunnel k.user
            (check_user_limits env k.user start).1 ut
            (row_after k.user_tunnel charged_db (check_user_limits env k.user start) ut first found)
            (is_user_tunnel_over_of env ut fits over)))
