-- ===== src/Reconcile/Runs.antt =====
-- The GOST part of `ReconcileNode`: its lock, its phases 1 and 2 and, of phase 5, the call of
-- cleanupOrphanServices. The phases 3 and 4 and the clean-up of inbounds, which concern Xray, are not
-- here.
use flux_panel_v.Base.{ℕ, Bool, Option, List, Text, if◌then◌else◌}
use flux_panel_v.Model.{ℤ}
use flux_panel_v.Store.{Sent, Env, Action, pure, gets, ◌>>=◌}
use flux_panel_v.Reconcile.{already_running, ReconcileResult, no_result, add_problem, has_forwards}
use flux_panel_v.Reconcile.Limiters.{reconcile_limiters}
use flux_panel_v.Reconcile.Forwards.{reconcile_forwards}
use flux_panel_v.Reconcile.Orphans.{cleanup_orphan_services}

module _ (env : Env) (parse_int : Text → Option ℤ) (data_of : List Sent → Option (List Text))
    (node : ℕ) where
  -- The limiters and the forwards, where the node has any.
  unfoldable pub reconcile_gost : ReconcileResult → Action ReconcileResult
  reconcile_gost r = gets (has_forwards node) >>= λ some_there.
      if some_there
      then (reconcile_limiters env node r >>= λ v. reconcile_forwards env node v)
      else pure r

  -- `is_locked`: another run for the node has its lock.
  unfoldable pub reconcile_gost_services : Bool → Action ReconcileResult
  reconcile_gost_services is_locked =
      if is_locked
      then pure (add_problem already_running no_result)
      else (reconcile_gost no_result >>= λ r. cleanup_orphan_services env parse_int data_of node r)
