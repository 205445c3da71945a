-- ===== src/Links/Daily.antt =====
-- References under the daily task.
use flux_panel_v.Base.{ℕ, refl, Option, none, some, List, [], ◌∷◌, Text, ◌==◌}
use flux_panel_v.Model.{User, Forward, Tunnel, UserTunnel, Node}
use flux_panel_v.Store.{Db, Env}
use flux_panel_v.Store.Preserves.{Preserves, Preserves-bind, Preserves-modify, preserving}
use flux_panel_v.Nodes.{pause_service, pause_service_multi_ip, pause_remote_service}
use flux_panel_v.Reset.{
  Today, on_user, on_user_tunnel, clear_users, clear_user_tunnels, pause_entry_service,
  pause_exit_service, pause_at, pause_on, pause_single_forward, pause_each, pause_user_forwards,
  pause_user_tunnel_forwards, expire_users, expire_user_tunnels, reset_flow, clear_user,
  clear_user_tunnel, disable_user, disable_user_tunnel,
}
use flux_panel_v.Links.{IsLinked}
use flux_panel_v.Links.Tables.{update_rows-IsLinked, with_users-IsLinked}
use flux_panel_v.Links.Rows.{set_status-IsLinked}

on_user-IsLinked : (g : User → User) (id : ℕ) → Preserves IsLinked (on_user g id)
unfolding on_user
on_user-IsLinked g id = Preserves-modify _ (λ db h. with_users-IsLinked db _ h)

clear_users-IsLinked : (us : List User) → Preserves IsLinked (clear_users us)
unfolding clear_users
clear_users-IsLinked [] = search preserving
clear_users-IsLinked (u ∷ us) =
    Preserves-bind _ _ (on_user-IsLinked clear_user u.id) (λ a. clear_users-IsLinked us)

clear_row-IsLinked : (id : ℕ) → Preserves IsLinked (on_user_tunnel clear_user_tunnel id)
unfolding on_user_tunnel
clear_row-IsLinked id = Preserves-modify _ (λ db h.
    update_rows-IsLinked db (λ ut. ut.id == id) clear_user_tunnel (λ x. refl) (λ x. refl) h)

clear_rows-IsLinked : (uts : List UserTunnel) → Preserves IsLinked (clear_user_tunnels uts)
unfolding clear_user_tunnels
clear_rows-IsLinked [] = search preserving
clear_rows-IsLinked (ut ∷ uts) =
    Preserves-bind _ _ (clear_row-IsLinked ut.id) (λ a. clear_rows-IsLinked uts)

disable_row-IsLinked : (id : ℕ) → Preserves IsLinked (on_user_tunnel disable_user_tunnel id)
unfolding on_user_tunnel
disable_row-IsLinked id = Preserves-modify _ (λ db h.
    update_rows-IsLinked db (λ ut. ut.id == id) disable_user_tunnel (λ x. refl) (λ x. refl) h)

module _ (env : Env) where
  pause_exit-Preserves :
      {P : Db → Type 0} (t : Tunnel) (n : Option Node) (name : Text)
      → Preserves P (pause_exit_service env t n name)
  unfolding pause_exit_service pause_remote_service
  pause_exit-Preserves t none name = search preserving
  pause_exit-Preserves t (some n) name = search preserving

  pause_at-IsLinked :
      (f : Forward) (t : Tunnel) (n : Option Node) → Preserves IsLinked (pause_at env f t n)
  unfolding pause_at pause_entry_service pause_service pause_service_multi_ip
  pause_at-IsLinked f t none = search preserving
  pause_at-IsLinked f t (some n) =
      search (preserving, pause_exit-Preserves, set_status-IsLinked) depth 20

  pause_on-IsLinked : (f : Forward) (t : Option Tunnel) → Preserves IsLinked (pause_on env f t)
  unfolding pause_on
  pause_on-IsLinked f none = search preserving
  pause_on-IsLinked f (some t) = search (preserving, pause_at-IsLinked) depth 20

  pause_each-IsLinked : (fs : List Forward) → Preserves IsLinked (pause_each env fs)
  unfolding pause_each pause_single_forward
  pause_each-IsLinked [] = search preserving
  pause_each-IsLinked (f ∷ fs) =
      Preserves-bind _ _ (search (preserving, pause_on-IsLinked) depth 20)
        (λ a. pause_each-IsLinked fs)

  expire_users-IsLinked : (us : List User) → Preserves IsLinked (expire_users env us)
  unfolding expire_users pause_user_forwards
  expire_users-IsLinked [] = search preserving
  expire_users-IsLinked (u ∷ us) =
      Preserves-bind _ _ (search (preserving, pause_each-IsLinked) depth 20) (λ a.
        Preserves-bind _ _ (on_user-IsLinked disable_user u.id) (λ b. expire_users-IsLinked us))

  expire_rows-IsLinked : (uts : List UserTunnel) → Preserves IsLinked (expire_user_tunnels env uts)
  unfolding expire_user_tunnels pause_user_tunnel_forwards
  expire_rows-IsLinked [] = search preserving
  expire_rows-IsLinked (ut ∷ uts) =
      Preserves-bind _ _ (search (preserving, pause_each-IsLinked) depth 20)
        (λ a. Preserves-bind _ _ (disable_row-IsLinked ut.id) (λ b. expire_rows-IsLinked uts))

  pub reset_flow-IsLinked : (now : Today) → Preserves IsLinked (reset_flow env now)
  unfolding reset_flow
  reset_flow-IsLinked now =
      search
        (
          preserving, clear_users-IsLinked, clear_rows-IsLinked, expire_users-IsLinked,
          expire_rows-IsLinked,
        )
        depth 20
