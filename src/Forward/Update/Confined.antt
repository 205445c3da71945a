-- ===== src/Forward/Update/Confined.antt =====
-- Which rows `UpdateForward` reaches.
use flux_panel_v.Base.{ℕ, ◌≡◌, refl, subst}
use flux_panel_v.Model.{Forward}
use flux_panel_v.Store.{Db, World, Env, ok}
use flux_panel_v.Store.Preserves.{Preserves-bind_of}
use flux_panel_v.Store.Elsewhere.{SameElsewhere, same, then_same, with_forwards}
use flux_panel_v.Forward.Create.{set_status}
use flux_panel_v.Forward.Replace.{save_target}
use flux_panel_v.Forward.Ssrf.{Net}
use flux_panel_v.Forward.Update.Plan.{plan_update-IsPlanned}
use flux_panel_v.Forward.Update.{
  ForwardUpdateDto, Planned, plan_update, save_forward, carry_out, update_forward,
}
use flux_panel_v.Forward.Update.Preserves.{Writes, carry_out-Preserves, plan_update-Preserves}

elsewhere-Writes :
    (env : Env) (start : Db) (id : ℕ) (f : Forward)
    → f.id ≡ id
    → Writes (λ db. SameElsewhere id start db) env f
unfolding set_status save_target save_forward
elsewhere-Writes env start id f e =
    subst (λ k. Writes (λ db. SameElsewhere k start db) env f) e
      (record {
        on_error = λ db h. then_same h (with_forwards f.id db _ (λ g. refl));
        on_target = λ db h. then_same h (with_forwards f.id db _ (λ g. refl));
        on_save = λ db h. then_same h (with_forwards f.id db _ (λ g. refl));
      })

planned_key :
    (env : Env) (net : Net) (d : ForwardUpdateDto) (user_id role_id : ℕ) (w : World) (p : Planned)
    → (plan_update env net d user_id role_id w).0 ≡ ok p
    → p.new.id ≡ d.id
planned_key env net d user_id role_id w p e =
    (plan_update-IsPlanned net env d user_id role_id w (plan_update env net d user_id role_id w).1 p
      (cc)).key_stays

-- Whatever an update returns, it changes no table but the forwards, and of the forwards none but
-- those with its key.
pub update_forward-SameElsewhere :
    (env : Env) (net : Net) (d : ForwardUpdateDto) (user_id role_id : ℕ) (w : World)
    → SameElsewhere d.id w.db (update_forward env net d user_id role_id w).1.db
unfolding update_forward
update_forward-SameElsewhere env net d user_id role_id w =
    let P : Db → Type 0 = λ db. SameElsewhere d.id w.db db in
    (Preserves-bind_of {P = P} (plan_update env net d user_id role_id) (carry_out env)
        (plan_update-Preserves env net d user_id role_id)
        (λ v p h e. carry_out-Preserves env p (
          elsewhere-Writes env w.db d.id p.new
            (planned_key env net d user_id role_id v p e)))).after
      w (same d.id w.db)
