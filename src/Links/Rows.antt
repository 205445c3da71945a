-- ===== src/Links/Rows.antt =====
-- References under the removal and the update of permission rows.
use flux_panel_v.Base.{ℕ, refl, inl, not, Option, none, some, List, [], ◌∷◌, Text, ◌==◌}
use flux_panel_v.Model.{ℤ, Forward, Tunnel, UserTunnel, Node}
use flux_panel_v.Store.{Db, Env, modify_db}
use flux_panel_v.Store.Preserves.{Preserves, Preserves-modify, Preserves-bind, preserving}
use flux_panel_v.Nodes.{
  update_service, pause_service, pause_service_multi_ip, pause_remote_service, delete_service,
  delete_service_multi_ip, delete_chains, delete_remote_service,
}
use flux_panel_v.Forward.Create.{remove_forward, set_status}
use flux_panel_v.UserTunnels.{
  UserTunnelUpdateDto, remove_user_tunnel_row, updated_user_tunnel, save_user_tunnel,
}
use flux_panel_v.UserTunnels.Removal.{
  delete_exit, delete_services_at, delete_services_of, remove_forwards, remove_user_tunnel,
}
use flux_panel_v.UserTunnels.Speeds.{
  update_with_speed, update_forward_with_new_speed, refresh_speeds, change_speed_at,
  change_speed_on, change_speed_if,
}
use flux_panel_v.UserTunnels.Disabling.{
  pause_exit_of, pause_for_disable_at, pause_forward_for_disable, pause_all_for_disable,
  pause_disabled_on, pause_disabled,
}
use flux_panel_v.UserTunnels.Change.{update_user_tunnel}
use flux_panel_v.Links.Tunnels.{add_limiter-Preserves}
use flux_panel_v.Links.{IsLinked}
use flux_panel_v.Links.Tables.{
  update_forwards-IsLinked, select_forwards-IsLinked, update_rows-IsLinked, select_rows-IsLinked,
}

-- The services of a forward are removed without a write to the tables.
module _ {P : Db → Type 0} (env : Env) where
  delete_exit-Preserves : (n : Option Node) (name : Text) → Preserves P (delete_exit env n name)
  unfolding delete_exit delete_remote_service
  delete_exit-Preserves none name = search preserving
  delete_exit-Preserves (some n) name = search preserving

  delete_at-Preserves :
      (f : Forward) (t : Tunnel) (n : Option Node) (name : Text)
      → Preserves P (delete_services_at env f t n name)
  unfolding delete_services_at delete_service delete_service_multi_ip delete_chains
  delete_at-Preserves f t none name = search preserving
  delete_at-Preserves f t (some n) name = search (preserving, delete_exit-Preserves) depth 20

  delete_of-Preserves :
      (f : Forward) (t : Option Tunnel) (name : Text)
      → Preserves P (delete_services_of env f t name)
  unfolding delete_services_of
  delete_of-Preserves f none name = search preserving
  delete_of-Preserves f (some t) name = search (preserving, delete_at-Preserves) depth 20

pub remove_one-IsLinked : (id : ℕ) → Preserves IsLinked (modify_db (remove_forward id))
unfolding remove_forward
remove_one-IsLinked id =
    Preserves-modify _ (λ db h. select_forwards-IsLinked db (λ f. not (f.id == id)) h)

remove_row-IsLinked : (id : ℕ) → Preserves IsLinked (modify_db (remove_user_tunnel_row id))
unfolding remove_user_tunnel_row
remove_row-IsLinked id =
    Preserves-modify _ (λ db h. select_rows-IsLinked db (λ ut. not (ut.id == id)) h)

remove_forwards-IsLinked :
    (env : Env) (ut : UserTunnel) (t : Option Tunnel) (fs : List Forward)
    → Preserves IsLinked (remove_forwards env ut t fs)
unfolding remove_forwards
remove_forwards-IsLinked env ut t [] = search preserving
remove_forwards-IsLinked env ut t (f ∷ fs) =
    Preserves-bind _ _ (delete_of-Preserves env f t _) (λ a.
      Preserves-bind _ _ (remove_one-IsLinked f.id) (λ b. remove_forwards-IsLinked env ut t fs))

pub remove_user_tunnel-IsLinked :
    (env : Env) (id : ℕ) → Preserves IsLinked (remove_user_tunnel env id)
unfolding remove_user_tunnel
remove_user_tunnel-IsLinked env id =
    search (preserving, remove_forwards-IsLinked, remove_row-IsLinked) depth 30

-- A new speed sends messages only.
module _ {P : Db → Type 0} (env : Env) where
  speed_at-Preserves :
      (f : Forward) (t : Tunnel) (ut : UserTunnel) (n : Option Node)
      → Preserves P (update_with_speed env f t ut n)
  unfolding update_with_speed update_service
  speed_at-Preserves f t ut none = search preserving
  speed_at-Preserves f t ut (some n) = search preserving depth 20

  refresh_speeds-Preserves :
      (t : Tunnel) (ut : UserTunnel) (fs : List Forward) → Preserves P (refresh_speeds env t ut fs)
  unfolding refresh_speeds update_forward_with_new_speed
  refresh_speeds-Preserves t ut [] = search preserving
  refresh_speeds-Preserves t ut (f ∷ fs) =
      Preserves-bind _ _ (search (preserving, speed_at-Preserves) depth 20)
        (λ a. refresh_speeds-Preserves t ut fs)

  change_at-Preserves :
      (t : Tunnel) (ut : UserTunnel) (s : ℕ) (n : Option Node)
      → Preserves P (change_speed_at env t ut s n)
  unfolding change_speed_at
  change_at-Preserves t ut s none = search preserving
  change_at-Preserves t ut s (some n) =
      search (preserving, add_limiter-Preserves, refresh_speeds-Preserves) depth 20

  change_on-Preserves :
      (t : Option Tunnel) (ut : UserTunnel) (s : ℕ) → Preserves P (change_speed_on env t ut s)
  unfolding change_speed_on
  change_on-Preserves none ut s = search preserving
  change_on-Preserves (some t) ut s = search (preserving, change_at-Preserves) depth 20

  change_if-Preserves : (ut : UserTunnel) (s : Option ℕ) → Preserves P (change_speed_if env ut s)
  unfolding change_speed_if
  change_if-Preserves ut none = search preserving
  change_if-Preserves ut (some s) = search (preserving, change_on-Preserves) depth 20

pub set_status-IsLinked : (s : ℤ) (id : ℕ) → Preserves IsLinked (modify_db (set_status s id))
unfolding set_status
set_status-IsLinked s id = Preserves-modify _ (λ db h.
    update_forwards-IsLinked db (λ f. f.id == id) (λ f. record f { status = s }) (λ f. inl refl) h)

module _ (env : Env) where
  pause_exit-Preserves :
      {P : Db → Type 0} (t : Tunnel) (n : Option Node) (name : Text)
      → Preserves P (pause_exit_of env t n name)
  unfolding pause_exit_of pause_remote_service
  pause_exit-Preserves t none name = search preserving
  pause_exit-Preserves t (some n) name = search preserving

  pause_at-IsLinked :
      (f : Forward) (t : Tunnel) (ut : UserTunnel) (n : Option Node)
      → Preserves IsLinked (pause_for_disable_at env f t ut n)
  unfolding pause_for_disable_at pause_service pause_service_multi_ip
  pause_at-IsLinked f t ut none = search preserving
  pause_at-IsLinked f t ut (some n) =
      search (preserving, pause_exit-Preserves, set_status-IsLinked) depth 20

  pause_all-IsLinked :
      (t : Tunnel) (ut : UserTunnel) (fs : List Forward)
      → Preserves IsLinked (pause_all_for_disable env t ut fs)
  unfolding pause_all_for_disable pause_forward_for_disable
  pause_all-IsLinked t ut [] = search preserving
  pause_all-IsLinked t ut (f ∷ fs) =
      Preserves-bind _ _ (search (preserving, pause_at-IsLinked) depth 20)
        (λ a. pause_all-IsLinked t ut fs)

  pause_on-IsLinked :
      (t : Option Tunnel) (ut : UserTunnel) (fs : List Forward)
      → Preserves IsLinked (pause_disabled_on env t ut fs)
  unfolding pause_disabled_on
  pause_on-IsLinked none ut fs = search preserving
  pause_on-IsLinked (some t) ut fs = pause_all-IsLinked t ut fs

  save_row-IsLinked :
      (d : UserTunnelUpdateDto) → Preserves IsLinked (modify_db (save_user_tunnel d))
  unfolding save_user_tunnel updated_user_tunnel
  save_row-IsLinked d = Preserves-modify _ (λ db h.
      update_rows-IsLinked db (λ ut. ut.id == d.id) (updated_user_tunnel d) (λ x. refl) (λ x. refl)
        h)

  pub update_user_tunnel-IsLinked :
      (d : UserTunnelUpdateDto) → Preserves IsLinked (update_user_tunnel env d)
  unfolding update_user_tunnel pause_disabled
  update_user_tunnel-IsLinked d =
      search (preserving, change_if-Preserves, pause_on-IsLinked, save_row-IsLinked) depth 30
