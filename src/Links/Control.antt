-- ===== src/Links/Control.antt =====
-- References under pausing, resuming, deleting and ordering forwards, and under `UpdateForwardA`.
use flux_panel_v.Base.{List, [], ◌∷◌, ℕ, refl, inl, not, Option, none, some, Text, ◌==◌}
use flux_panel_v.Model.{ℤ, Forward, Tunnel, UserTunnel, Node}
use flux_panel_v.Store.{Db, Env, Result, ok, err, panic, modify_db}
use flux_panel_v.Store.Preserves.{
  Preserves-bind, Preserves, Preserves-refusal, Preserves-modify, preserving,
}
use flux_panel_v.Nodes.{
  pause_service, pause_service_multi_ip, pause_remote_service, resume_service,
  resume_service_multi_ip, resume_remote_service, delete_service, delete_service_multi_ip,
  delete_chains, delete_remote_service,
}
use flux_panel_v.Forward.Create.{remove_forward}
use flux_panel_v.Forward.Services.{delete_gost_services_with_ip}
use flux_panel_v.Forward.Services.Preserves.{sync-Preserves, delete_old-Preserves}
use flux_panel_v.Forward.Control.{
  touch_status, pause_entry, resume_entry, pause_exit, resume_exit, pause_forward, resume_forward,
  delete_row, clean_services, delete_forward, clean_old, force_delete_forward,
}
use flux_panel_v.Forward.Order.{
  ForwardOrderItem, Items, set_forward_inx, set_all_inx, update_forward_order,
}
use flux_panel_v.Forward.Replace.{
  update_forward_status_to_error, update_gost_services, refresh_on, refresh_through,
  update_forward_a,
}
use flux_panel_v.Links.{IsLinked}
use flux_panel_v.Links.Tables.{update_forwards-IsLinked, select_forwards-IsLinked}
use flux_panel_v.Links.Rows.{set_status-IsLinked}

touch-IsLinked : (s : ℤ) (now id : ℕ) → Preserves IsLinked (modify_db (touch_status s now id))
unfolding touch_status
touch-IsLinked s now id = Preserves-modify _ (λ db h.
    update_forwards-IsLinked db (λ f. f.id == id) (λ f. record f { status = s; updated_time = now })
      (λ f. inl refl) h)

delete_row-IsLinked : (env : Env) (id : ℕ) → Preserves IsLinked (delete_row env id)
unfolding delete_row remove_forward
delete_row-IsLinked env id =
    Preserves-refusal env.delete_fails _ _
      (λ w h. select_forwards-IsLinked w.db (λ f. not (f.id == id)) h)

module _ {P : Db → Type 0} (env : Env) where
  pause_exit-Preserves :
      (t : Tunnel) (n : Option Node) (name : Text) → Preserves P (pause_exit env t n name)
  unfolding pause_exit pause_remote_service
  pause_exit-Preserves t none name = search preserving
  pause_exit-Preserves t (some n) name = search preserving

  resume_exit-Preserves :
      (t : Tunnel) (n : Option Node) (name : Text) → Preserves P (resume_exit env t n name)
  unfolding resume_exit resume_remote_service
  resume_exit-Preserves t none name = search preserving
  resume_exit-Preserves t (some n) name = search preserving

  delete_with-Preserves :
      (t : Tunnel) (n : Node) (o : Option Node) (name ip : Text)
      → Preserves P (delete_gost_services_with_ip env t n o name ip)
  unfolding delete_gost_services_with_ip delete_service delete_service_multi_ip delete_chains
      delete_remote_service
  delete_with-Preserves t n none name ip = search preserving depth 12
  delete_with-Preserves t n (some o) name ip = search preserving depth 12

  clean-Preserves :
      (f : Forward) (t : Tunnel) (ut : Option UserTunnel) (r : Result (Node × Option Node))
      → Preserves P (clean_services env f t ut r)
  unfolding clean_services
  clean-Preserves f t ut (ok (n, o)) = search (preserving, delete_with-Preserves) depth 12
  clean-Preserves f t ut (err m) = search preserving
  clean-Preserves f t ut panic = search preserving

  clean_old-Preserves : (f : Forward) (t : Option Tunnel) → Preserves P (clean_old env f t)
  clean_old-Preserves f none = search preserving
  clean_old-Preserves f (some t) = delete_old-Preserves env f t

pub pause_forward-IsLinked :
    (env : Env) (id user_id role_id : ℕ) → Preserves IsLinked (pause_forward env id user_id role_id)
unfolding pause_forward pause_entry pause_service pause_service_multi_ip
pause_forward-IsLinked env id user_id role_id =
    search (preserving, pause_exit-Preserves, touch-IsLinked) depth 40

pub resume_forward-IsLinked :
    (env : Env) (id user_id role_id : ℕ)
    → Preserves IsLinked (resume_forward env id user_id role_id)
unfolding resume_forward resume_entry resume_service resume_service_multi_ip
resume_forward-IsLinked env id user_id role_id =
    search (preserving, resume_exit-Preserves, touch-IsLinked) depth 40

pub delete_forward-IsLinked :
    (env : Env) (id user_id role_id : ℕ)
    → Preserves IsLinked (delete_forward env id user_id role_id)
unfolding delete_forward
delete_forward-IsLinked env id user_id role_id =
    search (preserving, clean-Preserves, delete_row-IsLinked) depth 40

pub force_delete_forward-IsLinked :
    (env : Env) (id : ℕ) → Preserves IsLinked (force_delete_forward env id)
unfolding force_delete_forward
force_delete_forward-IsLinked env id =
    search (preserving, clean_old-Preserves, delete_row-IsLinked) depth 40

module _ (env : Env) where
  update_gost-IsLinked :
      (f : Forward) (t : Tunnel) (l : Option ℕ) (i : Node) (o : Option Node) (name : Text)
      → Preserves IsLinked (update_gost_services env f t l i o name)
  unfolding update_gost_services update_forward_status_to_error
  update_gost-IsLinked f t l i o name =
      search (preserving, sync-Preserves, set_status-IsLinked) depth 20

  refresh_on-IsLinked :
      (f : Forward) (t : Tunnel) (ut : Option UserTunnel) (r : Result (Node × Option Node))
      → Preserves IsLinked (refresh_on env f t ut r)
  refresh_on-IsLinked f t ut (ok (n, o)) = search (preserving, update_gost-IsLinked) depth 12
  refresh_on-IsLinked f t ut (err m) = search preserving
  refresh_on-IsLinked f t ut panic = search preserving

  refresh_through-IsLinked :
      (f : Forward) (t : Option Tunnel) → Preserves IsLinked (refresh_through env f t)
  refresh_through-IsLinked f none = search preserving
  refresh_through-IsLinked f (some t) = search (preserving, refresh_on-IsLinked) depth 12

  pub update_forward_a-IsLinked : (f : Forward) → Preserves IsLinked (update_forward_a env f)
  unfolding update_forward_a
  update_forward_a-IsLinked f = search (preserving, refresh_through-IsLinked) depth 12

set_all_inx-IsLinked : (is : List ForwardOrderItem) → Preserves IsLinked (set_all_inx is)
unfolding set_all_inx set_forward_inx
set_all_inx-IsLinked [] = search preserving
set_all_inx-IsLinked (i ∷ is) =
    Preserves-bind _ _
      (Preserves-modify _ (λ db h.
        update_forwards-IsLinked db (λ f. f.id == i.id) (λ f. record f { inx = i.inx })
          (λ f. inl refl) h))
      (λ a. set_all_inx-IsLinked is)

pub update_forward_order-IsLinked :
    (asked : Items) (user_id role_id : ℕ)
    → Preserves IsLinked (update_forward_order asked user_id role_id)
unfolding update_forward_order
update_forward_order-IsLinked asked user_id role_id =
    search (preserving, set_all_inx-IsLinked) depth 12
