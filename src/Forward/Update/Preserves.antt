-- ===== src/Forward/Update/Preserves.antt =====
-- What `UpdateForward` does to a property of the tables.
use flux_panel_v.Base.{ℕ, Option, none, some, Text}
use flux_panel_v.Model.{negsuc, Forward, Tunnel, Node}
use flux_panel_v.Store.{Db, Env, modify_db}
use flux_panel_v.Store.Preserves.{Preserves, Preserves-refusal, Preserves-modify, preserving}
use flux_panel_v.Nodes.{update_forwarder, update_remote_forwarder}
use flux_panel_v.Forward.Create.{set_status}
use flux_panel_v.Forward.Services.Preserves.{create-Preserves, sync-Preserves, delete_old-Preserves}
use flux_panel_v.Forward.Replace.{
  update_forward_status_to_error, update_gost_services, save_target, create_anew, rebuild, refresh,
  hot_update, hot_or_refresh, light_update, rebuild_from, update_services,
}
use flux_panel_v.Forward.Ssrf.{Net}
use flux_panel_v.Forward.Update.{
  ForwardUpdateDto, Planned, plan_update, save_forward, save_row, carry_out,
}

-- The three writes of an update.
pub record Writes (P : Db → Type 0) (env : Env) (f : Forward) : Type 0 where
  pub on_error : (db : Db) → P db → P (set_status (negsuc 0) f.id db)
  pub on_target : (db : Db) → P db → P (save_target env f db)
  pub on_save : (db : Db) → P db → P (save_forward env f db)

module _ {P : Db → Type 0} (env : Env) (f : Forward) (t : Tunnel) (l : Option ℕ) (i : Node)
    (o : Option Node) (name : Text) (writes : Writes P env f) where
  error-Preserves : Preserves P (update_forward_status_to_error f.id)
  unfolding update_forward_status_to_error
  error-Preserves = Preserves-modify _ writes.on_error

  save_target-Preserves : Preserves P (modify_db (save_target env f))
  save_target-Preserves = Preserves-modify _ writes.on_target

  save_row-Preserves : Preserves P (save_row env f)
  unfolding save_row
  save_row-Preserves = Preserves-refusal env.update_fails _ _ (λ w h. writes.on_save w.db h)

  ruleset replacing = (
    preserving, error-Preserves, save_target-Preserves, save_row-Preserves, create-Preserves,
    sync-Preserves, delete_old-Preserves,
  )

  update_gost-Preserves : Preserves P (update_gost_services env f t l i o name)
  unfolding update_gost_services
  update_gost-Preserves = search replacing depth 20

  refresh-Preserves : Preserves P (refresh env f t l i o name)
  unfolding refresh
  refresh-Preserves = search (replacing, update_gost-Preserves) depth 20

  hot-Preserves : (o : Option Node) → Preserves P (hot_update env f t i o name)
  unfolding hot_update update_forwarder update_remote_forwarder
  hot-Preserves none = search replacing depth 20
  hot-Preserves (some n) = search replacing depth 20

  hot_or_refresh-Preserves : Preserves P (hot_or_refresh env f t l i o name)
  unfolding hot_or_refresh
  hot_or_refresh-Preserves = search (replacing, hot-Preserves, refresh-Preserves) depth 20

  light-Preserves : (old : Forward) → Preserves P (light_update env old f t l i o name)
  unfolding light_update
  light-Preserves old = search (replacing, hot_or_refresh-Preserves, refresh-Preserves) depth 20

  create_anew-Preserves : Preserves P (create_anew env f t l i o name)
  unfolding create_anew
  create_anew-Preserves = search replacing depth 20

  rebuild-Preserves :
      (old : Forward) (old_t : Tunnel) → Preserves P (rebuild env old f old_t t l i o name)
  unfolding rebuild
  rebuild-Preserves old old_t = search (replacing, create_anew-Preserves) depth 20

  rebuild_from-Preserves : (old : Forward) → Preserves P (rebuild_from env old f t l i o name)
  unfolding rebuild_from
  rebuild_from-Preserves old = search (replacing, rebuild-Preserves) depth 20

  update_services-Preserves : (old : Forward) → Preserves P (update_services env old f t l i o name)
  unfolding update_services
  update_services-Preserves old =
      search (replacing, rebuild_from-Preserves, light-Preserves) depth 20

pub carry_out-Preserves :
    {P : Db → Type 0} (env : Env) (p : Planned) → Writes P env p.new → Preserves P (carry_out env p)
unfolding carry_out
carry_out-Preserves env p writes =
    search (preserving, save_row-Preserves, update_services-Preserves) depth 20

pub plan_update-Preserves :
    {P : Db → Type 0} (env : Env) (net : Net) (d : ForwardUpdateDto) (user_id role_id : ℕ)
    → Preserves P (plan_update env net d user_id role_id)
unfolding plan_update
plan_update-Preserves env net d user_id role_id = search preserving depth 40
