-- ===== src/Links/Forwards.antt =====
-- References under the operations on forwards.
use flux_panel_v.Base.{
  is_some, ℕ, ◌≡◌, refl, sym, ap, subst, inl, inr, not, Option, arith, Text, ◌==◌,
}
use flux_panel_v.Model.{ℤ, negsuc, Forward, Tunnel, UserTunnel, Node}
use flux_panel_v.Store.{Db, World, Env, Result, ok, err, panic, continue, gets, ◌>>=◌, modify_db}
use flux_panel_v.Store.Preserves.{
  Preserves, Preserves-refusal, Preserves-modify, Preserves-bind_of, preserving,
}
use flux_panel_v.Store.Atomic.{check-ok, lift-ok, or_err-ok}
use flux_panel_v.Forward.{first_tunnel, get_required_nodes}
use flux_panel_v.Forward.Services.Preserves.{create-Preserves}
use flux_panel_v.Forward.Ssrf.{Net}
use flux_panel_v.Forward.Create.{
  ForwardDto, new_forward, insert_forward, remove_forward, set_status, start_services,
  finish_create, Admitted, admit, place, create_forward,
}
use flux_panel_v.Forward.Replace.{save_target}
use flux_panel_v.Forward.Update.{
  ForwardUpdateDto, Planned, plan_update, save_forward, carry_out, update_forward,
}
use flux_panel_v.Forward.Update.Plan.{plan_update-IsPlanned}
use flux_panel_v.Forward.Update.Preserves.{Writes, carry_out-Preserves, plan_update-Preserves}
use flux_panel_v.Links.{HasTunnel, IsLinked}
use flux_panel_v.Links.Tables.{
  update_forwards-IsLinked, select_forwards-IsLinked, add_forward-IsLinked,
}

-- A property that stays with the references: the tunnel of a forward to come exists.
abbrev pub LinkedTo : ℕ → Db → Type 0
LinkedTo id db = IsLinked db × HasTunnel db id

set_status-LinkedTo :
    (t : ℕ) (s : ℤ) (id : ℕ) → Preserves (LinkedTo t) (modify_db (set_status s id))
unfolding set_status
set_status-LinkedTo t s id = Preserves-modify _ (λ db h. (
  update_forwards-IsLinked db (λ f. f.id == id) (λ f. record f { status = s }) (λ f. inl refl) h.0,
  h.1,
))

remove-LinkedTo : (t : ℕ) (id : ℕ) → Preserves (LinkedTo t) (modify_db (remove_forward id))
unfolding remove_forward
remove-LinkedTo t id =
    Preserves-modify _ (λ db h. (select_forwards-IsLinked db (λ f. not (f.id == id)) h.0, h.1))

insert-LinkedTo :
    (env : Env) (f : Forward) → Preserves (LinkedTo f.tunnel_id) (insert_forward env f)
unfolding insert_forward
insert-LinkedTo env f =
    Preserves-refusal env.create_fails _ _ (λ w h. (add_forward-IsLinked w.db f h.1 h.0, h.1))

module _ (env : Env) (t : ℕ) where
  finish-LinkedTo :
      (f : Forward) (x : Tunnel) (l : Option ℕ) (ut : Option UserTunnel)
      (ns : Result (Node × Option Node))
      → Preserves (LinkedTo t) (finish_create env f x l ut ns)
  unfolding finish_create start_services
  finish-LinkedTo f x l ut (ok (i, o)) =
      search (preserving, create-Preserves, set_status-LinkedTo) depth 20
  finish-LinkedTo f x l ut (err m) = search (preserving, remove-LinkedTo) depth 20
  finish-LinkedTo f x l ut panic = search preserving

placed-LinkedTo :
    (env : Env) (a : Admitted) (f : Forward)
    → Preserves (LinkedTo f.tunnel_id) (
        insert_forward env f >>= λ _.
        gets (get_required_nodes a.tunnel) >>= finish_create env f a.tunnel a.limiter a.user_tunnel)
placed-LinkedTo env a f = search (preserving, finish-LinkedTo, insert-LinkedTo) depth 20

own_tunnel :
    (env : Env) (d : ForwardDto) (user_id : ℕ) (user_name : Text) (ports : ℕ × ℕ) (w : World)
    (f : Forward)
    → (gets (new_forward env d user_id user_name ports) w).0 ≡ ok f
    → f.tunnel_id ≡ d.tunnel_id
unfolding ◌>>=◌ new_forward
own_tunnel env d user_id user_name (a, b) w f e = ground arith

place-LinkedTo :
    (env : Env) (d : ForwardDto) (user_id : ℕ) (user_name : Text) (a : Admitted)
    → Preserves (LinkedTo d.tunnel_id) (place env d user_id user_name a)
unfolding place
place-LinkedTo env d user_id user_name a = Preserves-bind_of _ _ (search preserving) (λ w f h e.
    subst
      (λ t. Preserves (LinkedTo t) (
        insert_forward env f >>= λ _.
        gets (get_required_nodes a.tunnel)
        >>= finish_create env f a.tunnel a.limiter a.user_tunnel))
      (own_tunnel env d user_id user_name a.ports w f e) (placed-LinkedTo env a f))

admit-Preserves :
    {P : Db → Type 0} (env : Env) (net : Net) (d : ForwardDto) (user_id role_id : ℕ)
    → Preserves P (admit env net d user_id role_id)
unfolding admit
admit-Preserves env net d user_id role_id = search preserving depth 30

admitted_tunnel :
    (env : Env) (net : Net) (d : ForwardDto) (user_id role_id : ℕ) (w v : World) (a : Admitted)
    → admit env net d user_id role_id w ≡ (ok a, v)
    → HasTunnel w.db d.tunnel_id
unfolding admit first_tunnel
admitted_tunnel env net d user_id role_id w v a e =
    let c1 = lift-ok _ _ w e in
    let c2 = check-ok _ _ w c1.rest in ap is_some (or_err-ok _ _ c2.returned)

-- The tables at the start of a step that keeps them while it decides, and then acts.
create-IsLinked_at :
    (env : Env) (net : Net) (d : ForwardDto) (user_id role_id : ℕ) (user_name : Text) (w : World)
    (r : Result Admitted) (v : World)
    → admit env net d user_id role_id w ≡ (r, v)
    → IsLinked w.db
    → IsLinked (continue r (place env d user_id user_name) v).1.db
create-IsLinked_at env net d user_id role_id user_name w (ok a) v e h =
    let k = admitted_tunnel env net d user_id role_id w v a e in
    let kept =
      (admit-Preserves {P = LinkedTo d.tunnel_id} env net d user_id role_id).after w (h, k) in
    ((place-LinkedTo env d user_id user_name a).after v
      (subst (λ r. LinkedTo d.tunnel_id r.1.db) e kept)).0
create-IsLinked_at env net d user_id role_id user_name w (err m) v e h =
    subst (λ r. IsLinked r.1.db) e
      ((admit-Preserves {P = IsLinked} env net d user_id role_id).after w h)
create-IsLinked_at env net d user_id role_id user_name w panic v e h =
    subst (λ r. IsLinked r.1.db) e
      ((admit-Preserves {P = IsLinked} env net d user_id role_id).after w h)

pub create_forward-IsLinked :
    (env : Env) (net : Net) (d : ForwardDto) (user_id role_id : ℕ) (user_name : Text)
    → Preserves IsLinked (create_forward env net d user_id role_id user_name)
unfolding create_forward ◌>>=◌
create_forward-IsLinked env net d user_id role_id user_name = record {
  after = λ w h.
      create-IsLinked_at env net d user_id role_id user_name w (admit env net d user_id role_id w).0
        (admit env net d user_id role_id w).1 refl h;
}

-- The rows that an update writes name a tunnel that exists.
update-Writes : (env : Env) (f : Forward) → Writes (LinkedTo f.tunnel_id) env f
unfolding set_status save_target save_forward
update-Writes env f = record {
  on_error = λ db h. (
    update_forwards-IsLinked db (λ g. g.id == f.id) (λ g. record g { status = negsuc 0 })
        (λ g. inl refl) h.0,
    h.1,
  );
  on_target = λ db h. (update_forwards-IsLinked db (λ g. g.id == f.id) _ (λ g. inr h.1) h.0, h.1);
  on_save = λ db h. (update_forwards-IsLinked db (λ g. g.id == f.id) _ (λ g. inr h.1) h.0, h.1);
}

update-IsLinked_at :
    (env : Env) (net : Net) (d : ForwardUpdateDto) (user_id role_id : ℕ) (w : World)
    (r : Result Planned) (v : World)
    → plan_update env net d user_id role_id w ≡ (r, v)
    → IsLinked w.db
    → IsLinked (continue r (carry_out env) v).1.db
unfolding first_tunnel
update-IsLinked_at env net d user_id role_id w (ok p) v e h =
    let planned = plan_update-IsPlanned net env d user_id role_id w v p e in
    let k : HasTunnel w.db p.new.tunnel_id =
      subst (HasTunnel w.db) (sym planned.tunnel_stays) (ap is_some planned.tunnel_exists) in
    let kept =
      (plan_update-Preserves {P = LinkedTo p.new.tunnel_id} env net d user_id role_id).after w
        (h, k) in
    ((carry_out-Preserves env p (update-Writes env p.new)).after v
      (subst (λ r. LinkedTo p.new.tunnel_id r.1.db) e kept)).0
update-IsLinked_at env net d user_id role_id w (err m) v e h =
    subst (λ r. IsLinked r.1.db) e
      ((plan_update-Preserves {P = IsLinked} env net d user_id role_id).after w h)
update-IsLinked_at env net d user_id role_id w panic v e h =
    subst (λ r. IsLinked r.1.db) e
      ((plan_update-Preserves {P = IsLinked} env net d user_id role_id).after w h)

pub update_forward-IsLinked :
    (env : Env) (net : Net) (d : ForwardUpdateDto) (user_id role_id : ℕ)
    → Preserves IsLinked (update_forward env net d user_id role_id)
unfolding update_forward ◌>>=◌
update_forward-IsLinked env net d user_id role_id = record {
  after = λ w h.
      update-IsLinked_at env net d user_id role_id w (plan_update env net d user_id role_id w).0
        (plan_update env net d user_id role_id w).1 refl h;
}
