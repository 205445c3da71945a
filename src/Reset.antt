-- ===== src/Reset.antt =====
-- The daily task: go-backend/task/reset_flow.go. Counters are reset on their day, and what has expired
-- is paused and disabled.
pub mod Runs
pub mod Daily
pub mod Rows
use flux_panel_v.Base.{
  ℕ, Bool, true, false, not, ◌&&◌, ◌||◌, Option, none, some, List, [], ◌∷◌, ◌++◌, Text, select,
  update, ltb, leb, ◌==◌, if◌then◌else◌,
}
use flux_panel_v.Model.{pos, eq_ℤ, User, Forward, Tunnel, UserTunnel, Node}
use flux_panel_v.Store.{Db, World, Env, Action, Act, pure, gets, ◌>>=◌, ◌>>◌, modify_db}
use flux_panel_v.Nodes.{pause_service, pause_service_multi_ip, pause_remote_service}
use flux_panel_v.Forward.{
  is_tunnel_forward, first_tunnel, get_node_by_id, get_user_tunnel, build_service_name,
}
use flux_panel_v.Forward.Services.{is_multi_ip}
use flux_panel_v.Forward.Create.{set_status}

-- The day of the month, the day of the week from Sunday, and the number of days of the month.
pub record Today : Type 0 where
  pub day : ℕ
  pub weekday : ℕ
  pub days : ℕ

-- The two `WHERE` conditions, on the columns flow_reset_type, flow_reset_day and status. A day after
-- the month's last falls on the last.
unfoldable pub is_monthly : Today → ℕ → ℕ → ℕ → Bool
is_monthly now type day status =
    type == 1 && (status == 1 && (day == now.day || (ltb now.days day && now.day == now.days)))

unfoldable pub is_weekly : Today → ℕ → ℕ → ℕ → Bool
is_weekly now type day status = type == 2 && (status == 1 && day == now.weekday)

abbrev pub clear_user : User → User
clear_user u = record u { in_flow = 0; out_flow = 0; xray_in_flow = 0; xray_out_flow = 0 }

abbrev pub clear_user_tunnel : UserTunnel → UserTunnel
clear_user_tunnel ut = record ut { in_flow = 0; out_flow = 0 }

abbrev pub disable_user : User → User
disable_user u = record u { status = 0 }

abbrev pub disable_user_tunnel : UserTunnel → UserTunnel
disable_user_tunnel ut = record ut { status = 0 }

-- An update of the rows with a key.
unfoldable pub on_user : (User → User) → ℕ → Act
on_user g id = modify_db λ db. record db { users = update (λ u. u.id == id) g db.users }

unfoldable pub on_user_tunnel : (UserTunnel → UserTunnel) → ℕ → Act
on_user_tunnel g id =
    modify_db λ db. record db { user_tunnels = update (λ ut. ut.id == id) g db.user_tunnels }

unfoldable pub clear_users : List User → Act
clear_users [] = pure tt
clear_users (u ∷ us) = on_user clear_user u.id >> clear_users us

unfoldable pub clear_user_tunnels : List UserTunnel → Act
clear_user_tunnels [] = pure tt
clear_user_tunnels (ut ∷ uts) = on_user_tunnel clear_user_tunnel ut.id >> clear_user_tunnels uts

-- The monthly ones, then the weekly ones.
unfoldable pub users_due : Today → Db → List User
users_due now db =
    select (λ u. is_monthly now u.flow_reset_type u.flow_reset_day u.status) db.users
    ++ select (λ u. is_weekly now u.flow_reset_type u.flow_reset_day u.status) db.users

unfoldable pub user_tunnels_due : Today → Db → List UserTunnel
user_tunnels_due now db =
    select (λ ut. is_monthly now ut.flow_reset_type ut.flow_reset_day ut.status) db.user_tunnels
    ++ select (λ ut. is_weekly now ut.flow_reset_type ut.flow_reset_day ut.status) db.user_tunnels

module _ (env : Env) where
  -- `exp_time > 0 AND exp_time <= ? AND status = 1`
  unfoldable pub has_expired : ℕ → ℕ → Bool
  has_expired exp status = ltb 0 exp && (leb exp env.now && status == 1)

  unfoldable pub pause_entry_service : Node → Forward → Text → Action Text
  pause_entry_service n f name =
      if is_multi_ip f.listen_ip
      then pause_service_multi_ip env n.id name f.listen_ip
      else pause_service env n.id name

  unfoldable pub pause_exit_service : Tunnel → Option Node → Text → Action Text
  pause_exit_service t none name = pure []
  pause_exit_service t (some n) name =
      if is_tunnel_forward t then pause_remote_service env n.id name else pure []

  unfoldable pub pause_at : Forward → Tunnel → Option Node → Act
  pause_at f t none = pure tt
  pause_at f t (some n) = do
    ut ← gets (get_user_tunnel f.user_id t.id)
    let name = build_service_name f.id f.user_id ut
    pause_entry_service n f name
    out_node ← gets (get_node_by_id t.out_node_id)
    pause_exit_service t out_node name
    modify_db (set_status (pos 0) f.id)

  unfoldable pub pause_on : Forward → Option Tunnel → Act
  unfolding pause_at
  pause_on f none = pure tt
  pause_on f (some t) = gets (get_node_by_id t.in_node_id) >>= pause_at f t

  unfoldable pub pause_single_forward : Forward → Act
  pause_single_forward f = gets (first_tunnel f.tunnel_id) >>= pause_on f

  unfoldable pub pause_each : List Forward → Act
  pause_each [] = pure tt
  pause_each (f ∷ fs) = pause_single_forward f >> pause_each fs

  unfoldable pub pause_user_forwards : ℕ → Act
  pause_user_forwards user_id = do
    fs ← gets (λ db. select (λ f. f.user_id == user_id && eq_ℤ f.status (pos 1)) db.forwards)
    pause_each fs

  unfoldable pub pause_user_tunnel_forwards : ℕ → ℕ → Act
  pause_user_tunnel_forwards user_id tunnel_id = do
    fs ← gets (λ db.
        select (λ f. f.user_id == user_id && (f.tunnel_id == tunnel_id && eq_ℤ f.status (pos 1)))
          db.forwards)
    pause_each fs

  unfoldable pub expire_users : List User → Act
  expire_users [] = pure tt
  expire_users (u ∷ us) = pause_user_forwards u.id >> (on_user disable_user u.id >> expire_users us)

  unfoldable pub expire_user_tunnels : List UserTunnel → Act
  expire_user_tunnels [] = pure tt
  expire_user_tunnels (ut ∷ uts) =
      pause_user_tunnel_forwards ut.user_id ut.tunnel_id
      >> (on_user_tunnel disable_user_tunnel ut.id >> expire_user_tunnels uts)

  unfoldable pub reset_flow : Today → Act
  reset_flow now = do
    users ← gets (users_due now)
    clear_users users
    user_tunnels ← gets (user_tunnels_due now)
    clear_user_tunnels user_tunnels
    expired ← gets (λ db. select (λ u. has_expired u.exp_time u.status) db.users)
    expire_users expired
    rows ← gets (λ db. select (λ ut. has_expired ut.exp_time ut.status) db.user_tunnels)
    expire_user_tunnels rows
