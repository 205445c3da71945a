-- ===== src/Forward/Limits.antt =====
-- Expiry, traffic and number limits of users and of their tunnels.
pub mod Permissions
use flux_panel_v.Base.{
  ℕ, ◌+◌, ◌*◌, ◌%◌, ◌^◌, ◌≤◌, ◌<◌, ◌≡◌, ◌≢◌, ◌⊎◌, inl, inr, ◌↔◌, Bool, true, false, not, ◌&&◌, ◌||◌,
  Option, none, some, List, arith, length, select, leb, signed, le_int64, ◌==◌, if◌then◌else◌,
}
use flux_panel_v.Model.{User, Forward, Tunnel, UserTunnel}
use flux_panel_v.Store.{
  Db, Env, Result, ok, err, Notice, Msg, notice, notice_num, bind_result, or_err,
}
use flux_panel_v.Forward.{first_user, get_user_tunnel, is_admin}
use flux_panel_v.Forward.Ports.{not_excluded}

abbrev pub bytes_to_gb : ℕ
bytes_to_gb = 1024 * 1024 * 1024

-- `exp != 0 && exp <= time.Now().UnixMilli()`
unfoldable pub is_expired : Env → ℕ → Bool
is_expired env exp = not (exp == 0) && leb exp env.now

-- `flow != 0 && flow*bytesToGB <= in+out`
unfoldable pub is_used_up : ℕ → ℕ → ℕ → Bool
is_used_up flow in_flow out_flow =
    not (flow == 0) && le_int64 (flow * bytes_to_gb) (in_flow + out_flow)

abbrev pub count_of_user : ℕ → Option ℕ → Db → ℕ
count_of_user user_id exclude db =
    length (select (λ f. f.user_id == user_id && not_excluded exclude f) db.forwards)

abbrev pub count_on_tunnel : ℕ → ℕ → Option ℕ → Db → ℕ
count_on_tunnel user_id tunnel_id exclude db = length (
    select (λ f. f.user_id == user_id && (f.tunnel_id == tunnel_id && not_excluded exclude f))
      db.forwards)

unfoldable pub check_forward_quota : ℕ → ℕ → UserTunnel → User → Option ℕ → Db → Result (Unit {0})
check_forward_quota user_id tunnel_id ut user exclude db =
    if not (user.num == 0) && leb user.num (count_of_user user_id exclude db)
    then err (notice_num Notice.user_forwards_full user.num)
    else if not (ut.num == 0) && leb ut.num (count_on_tunnel user_id tunnel_id exclude db)
    then err (notice_num Notice.tunnel_forwards_full ut.num)
    else ok tt

module _ (env : Env) where
  -- The checks on the two rows, in the code's order.
  unfoldable pub check_rows :
      ℕ → Tunnel → Option ℕ → User → Option UserTunnel → Db → Result (Option ℕ × Option UserTunnel)
  check_rows user_id t exclude user none db = err (notice Notice.no_tunnel_permission)
  check_rows user_id t exclude user (some ut) db =
      if not (ut.status == 1)
      then err (notice Notice.user_tunnel_disabled)
      else if is_expired env ut.exp_time
      then err (notice Notice.user_tunnel_expired)
      else if is_used_up user.flow user.in_flow user.out_flow
      then err (notice Notice.user_flow_used)
      else if is_used_up ut.flow ut.in_flow ut.out_flow
      then err (notice Notice.tunnel_flow_used)
      else bind_result (check_forward_quota user_id t.id ut user exclude db)
          λ _. ok (ut.speed_id, some ut)

  -- The limiter and the user's tunnel row, or the refusal.
  unfoldable pub check_user_permissions :
      ℕ → ℕ → Tunnel → Option ℕ → Db → Result (Option ℕ × Option UserTunnel)
  unfolding check_rows
  check_user_permissions user_id role_id t exclude db =
      if is_admin role_id
      then ok (none, none)
      else bind_result (or_err (first_user user_id db) Notice.user_missing) λ user.
        if is_expired env user.exp_time
        then err (notice Notice.account_expired)
        else check_rows user_id t exclude user (get_user_tunnel user_id t.id db) db

  -- The checks before a paused forward resumes.
  unfoldable pub check_user_flow_limits : ℕ → Tunnel → Db → Result (Unit {0})
  check_user_flow_limits user_id t db =
      bind_result (or_err (first_user user_id db) Notice.user_missing) λ user.
        if is_expired env user.exp_time
        then err (notice Notice.account_expired)
        else bind_result (or_err (get_user_tunnel user_id t.id db) Notice.no_tunnel_permission)
            λ ut.
              if is_expired env ut.exp_time
              then err (notice Notice.user_tunnel_expired)
              else if is_used_up user.flow user.in_flow user.out_flow
              then err (notice Notice.user_flow_used)
              else if is_used_up ut.flow ut.in_flow ut.out_flow
              then err (notice Notice.tunnel_flow_used)
              else ok tt
