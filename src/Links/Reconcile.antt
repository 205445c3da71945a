-- ===== src/Links/Reconcile.antt =====
-- References under the synchronisation of a node.
use flux_panel_v.Base.{ℕ, refl, inl, Bool, Option, List, [], ◌∷◌, All, Text, ◌==◌}
use flux_panel_v.Model.{ℤ, pos, Forward}
use flux_panel_v.Store.{Env, Sent, modify_db}
use flux_panel_v.Store.Preserves.{Preserves, Preserves-modify}
use flux_panel_v.Reconcile.Forwards.{recover}
use flux_panel_v.Reconcile.Runs.{reconcile_gost_services}
use flux_panel_v.Reconcile.Preserves.{reconcile-Preserves}
use flux_panel_v.Links.{IsLinked}
use flux_panel_v.Links.Tables.{update_forwards-IsLinked}

recover-IsLinked : (id : ℕ) → Preserves IsLinked (modify_db (recover id))
unfolding recover
recover-IsLinked id = Preserves-modify _ (λ db h.
    update_forwards-IsLinked db (λ f. f.id == id) (λ f. record f { status = pos 1 }) (λ f. inl refl)
      h)

All-any : (fs : List Forward) → All (λ (f : Forward). Unit {0}) fs
All-any [] = tt
All-any (f ∷ fs) = (tt, All-any fs)

pub reconcile_gost_services-IsLinked :
    (env : Env) (parse_int : Text → Option ℤ) (data_of : List Sent → Option (List Text)) (node : ℕ)
    (is_locked : Bool)
    → Preserves IsLinked (reconcile_gost_services env parse_int data_of node is_locked)
reconcile_gost_services-IsLinked env parse_int data_of node is_locked =
    reconcile-Preserves (λ f. Unit) (λ f u m. recover-IsLinked f.id) (λ db h. All-any db.forwards)
      env node parse_int data_of is_locked
