-- ===== src/UserTunnels.antt =====
-- The permission rows of users on tunnels, and their assignment: go-backend/service/user_tunnel.go.
pub mod Removal
pub mod Speeds
pub mod Disabling
pub mod Change
use flux_panel_v.Base.{
  ℕ, Bool, true, false, not, ◌&&◌, Option, none, some, List, [], ◌∷◌, ◌++◌, Text, show_nat, length,
  select, find, update, ltb, ◌==◌, if◌then◌else◌,
}
use flux_panel_v.Model.{pos, eq_ℤ, Forward, Tunnel, UserTunnel, Node, SpeedLimit}
use flux_panel_v.Gost.{ServiceArgs}
use flux_panel_v.Store.{
  Db, World, Env, Result, ok, err, Notice, notice, Action, Act, pure, fail, gets, check, or_err,
  ◌>>=◌, ◌>>◌, modify_db, fail_if,
}
use flux_panel_v.Nodes.{
  add_limiters, update_service, pause_service, pause_service_multi_ip, pause_remote_service,
  delete_service, delete_service_multi_ip, delete_chains, delete_remote_service,
}
use flux_panel_v.Forward.{
  is_tunnel_forward, first_tunnel, first_user, get_node_by_id, build_service_name,
}
use flux_panel_v.Forward.Services.{is_multi_ip, override_listen, service_args}
use flux_panel_v.Forward.Create.{remove_forward, set_status}
use flux_panel_v.SpeedLimits.{first_speed_limit}

-- `dto.UserTunnelDto` and `dto.UserTunnelUpdateDto`
pub record UserTunnelDto : Type 0 where
  pub user_id : ℕ
  pub tunnel_id : ℕ
  pub num : ℕ
  pub flow : ℕ
  pub flow_reset_type : ℕ
  pub flow_reset_day : ℕ
  pub exp_time : ℕ
  pub speed_id : Option ℕ

pub record UserTunnelUpdateDto : Type 0 where
  pub id : ℕ
  pub num : Option ℕ
  pub flow : Option ℕ
  pub flow_reset_type : Option ℕ
  pub flow_reset_day : Option ℕ
  pub exp_time : Option ℕ
  pub speed_id : Option ℕ
  pub status : Option ℕ

unfoldable pub find_user_tunnel : ℕ → Db → Option UserTunnel
find_user_tunnel id db = find (λ ut. ut.id == id) db.user_tunnels

unfoldable pub count_rows : ℕ → ℕ → Db → ℕ
count_rows user_id tunnel_id db =
    length (select (λ ut. ut.user_id == user_id && ut.tunnel_id == tunnel_id) db.user_tunnels)

unfoldable pub new_user_tunnel : Env → UserTunnelDto → Db → UserTunnel
new_user_tunnel env d db = record {
  id = env.next_user_tunnel_id db.user_tunnels;
  user_id = d.user_id;
  tunnel_id = d.tunnel_id;
  speed_id = d.speed_id;
  num = d.num;
  flow = d.flow;
  in_flow = 0;
  out_flow = 0;
  flow_reset_time = 0;
  flow_reset_type = d.flow_reset_type;
  flow_reset_day = d.flow_reset_day;
  exp_time = d.exp_time;
  status = 1;
}

unfoldable pub with_user_tunnel : UserTunnel → Db → Db
with_user_tunnel ut db = record db { user_tunnels = db.user_tunnels ++ (ut ∷ []) }

unfoldable pub insert_user_tunnel : Env → UserTunnel → Action UserTunnel
insert_user_tunnel env ut w =
    if env.create_fails w.db
    then (err (notice Notice.create_refused), w)
    else (ok ut, record w { db = with_user_tunnel ut w.db })

-- The forwards of a permission row, and its running ones.
unfoldable pub forwards_of : UserTunnel → Db → List Forward
forwards_of ut db = select (λ f. f.user_id == ut.user_id && f.tunnel_id == ut.tunnel_id) db.forwards

unfoldable pub running_forwards_of : UserTunnel → Db → List Forward
running_forwards_of ut db =
    select (λ f. f.user_id == ut.user_id && (f.tunnel_id == ut.tunnel_id && eq_ℤ f.status (pos 1)))
      db.forwards

unfoldable pub remove_user_tunnel_row : ℕ → Db → Db
remove_user_tunnel_row id db = record db {
  user_tunnels = select (λ ut. not (ut.id == id)) db.user_tunnels;
}

-- A column that is written only if it is given.
abbrev pub or_old : Option ℕ → ℕ → ℕ
or_old none old = old
or_old (some x) old = x

abbrev pub or_old_speed : Option ℕ → Option ℕ → Option ℕ
or_old_speed none old = old
or_old_speed (some x) old = some x

unfoldable pub updated_user_tunnel : UserTunnelUpdateDto → UserTunnel → UserTunnel
updated_user_tunnel d ut = record ut {
  num = or_old d.num ut.num;
  flow = or_old d.flow ut.flow;
  flow_reset_type = or_old d.flow_reset_type ut.flow_reset_type;
  flow_reset_day = or_old d.flow_reset_day ut.flow_reset_day;
  exp_time = or_old d.exp_time ut.exp_time;
  status = or_old d.status ut.status;
  speed_id = or_old_speed d.speed_id ut.speed_id;
}

unfoldable pub save_user_tunnel : UserTunnelUpdateDto → Db → Db
save_user_tunnel d db = record db {
  user_tunnels = update (λ ut. ut.id == d.id) (updated_user_tunnel d) db.user_tunnels;
}

-- `oldSpeedId == nil || *oldSpeedId != *d.SpeedId`
abbrev pub is_other_speed : Option ℕ → ℕ → Bool
is_other_speed none s = true
is_other_speed (some old) s = not (old == s)

abbrev pub is_disabling : Option ℕ → Bool
is_disabling none = false
is_disabling (some s) = s == 0

-- The name is made of the row's key, which is there.
abbrev pub name_of : Forward → UserTunnel → Text
name_of f ut = build_service_name f.id f.user_id (some ut)

module _ (env : Env) where
  -- A limiter of the limit's speed on the node, if both are there.
  unfoldable pub add_limiter_of : Option Node → Option SpeedLimit → ℕ → Act
  add_limiter_of (some n) (some s) speed_id =
      add_limiters env n.id speed_id (show_nat s.speed) >> pure tt
  add_limiter_of none s speed_id = pure tt
  add_limiter_of (some n) none speed_id = pure tt

  unfoldable pub add_limiter_if : Option Node → ℕ → Act
  unfolding add_limiter_of
  add_limiter_if n speed_id = do
    s ← gets (first_speed_limit speed_id)
    if ltb 0 speed_id then add_limiter_of n s speed_id else pure tt

  unfoldable pub limit_assigned : Tunnel → Option ℕ → Act
  unfolding add_limiter_if
  limit_assigned t none = pure tt
  limit_assigned t (some speed_id) =
      gets (get_node_by_id t.in_node_id) >>= λ n. add_limiter_if n speed_id

  unfoldable pub assign_user_tunnel : UserTunnelDto → Action UserTunnel
  assign_user_tunnel d = do
    check (λ db. or_err (first_user d.user_id db) Notice.user_missing)
    t ← check (λ db. or_err (first_tunnel d.tunnel_id db) Notice.tunnel_missing)
    n ← gets (count_rows d.user_id d.tunnel_id)
    fail_if (ltb 0 n) (notice Notice.tunnel_permission_exists)
    limit_assigned t d.speed_id
    ut ← gets (new_user_tunnel env d)
    insert_user_tunnel env ut
