-- ===== src/Reconcile/Limiters.antt =====
-- `reconcileLimiters`.
use flux_panel_v.Base.{
  ℕ, ◌+◌, Bool, Option, none, some, List, [], ◌∷◌, Text, codes, any, eq_text, find, select,
  show_nat, ◌==◌, if◌then◌else◌,
}
use flux_panel_v.Model.{Tunnel, UserTunnel, SpeedLimit}
use flux_panel_v.Store.{Db, Env, Action, pure, gets, ◌>>=◌}
use flux_panel_v.Nodes.{add_limiters}
use flux_panel_v.Reconcile.{limiter_problem, ReconcileResult, add_problem, speed_key}

-- The speed limits that were seen, with the result so far.
abbrev pub Seen : Type 0
Seen = List ℕ × ReconcileResult

abbrev pub is_seen : ℕ → List ℕ → Bool
is_seen k seen = any (λ j. j == k) seen

abbrev pub first_speed_limit : ℕ → Db → Option SpeedLimit
first_speed_limit k db = find (λ s. s.id == k) db.speed_limits

abbrev pub count_limiter : ℕ → Text → Seen → Seen
count_limiter k msg (seen, r) = (
  seen,
  record (if eq_text msg (codes "OK") then r else add_problem (limiter_problem k msg) r) {
    limiters = r.limiters + 1;
  },
)

module _ (env : Env) (node : ℕ) where
  unfoldable pub push_limiter : ℕ → Option SpeedLimit → Seen → Action Seen
  push_limiter k none s = pure s
  push_limiter k (some limit) s = do
    msg ← add_limiters env node k (show_nat limit.speed)
    pure (count_limiter k msg s)

  unfoldable pub reconcile_limiter : Option ℕ → Seen → Action Seen
  unfolding push_limiter
  reconcile_limiter none s = pure s
  reconcile_limiter (some k) (seen, r) =
      if is_seen k seen
      then pure (seen, r)
      else (gets (first_speed_limit k) >>= λ limit. push_limiter k limit (k ∷ seen, r))

  unfoldable pub reconcile_rows : List UserTunnel → Seen → Action Seen
  unfolding reconcile_limiter
  reconcile_rows [] s = pure s
  reconcile_rows (ut ∷ uts) s =
      reconcile_limiter (speed_key ut.speed_id) s >>= λ v. reconcile_rows uts v

  unfoldable pub reconcile_tunnel_rows : List Tunnel → Seen → Action Seen
  unfolding reconcile_rows
  reconcile_tunnel_rows [] s = pure s
  reconcile_tunnel_rows (t ∷ ts) s =
      gets (λ db. select (λ ut. ut.tunnel_id == t.id) db.user_tunnels) >>= λ uts.
      reconcile_rows uts s >>= λ v. reconcile_tunnel_rows ts v

  unfoldable pub reconcile_limiters : ReconcileResult → Action ReconcileResult
  unfolding reconcile_tunnel_rows
  reconcile_limiters r = gets (λ db. select (λ t. t.in_node_id == node) db.tunnels) >>= λ ts.
      reconcile_tunnel_rows ts ([], r) >>= λ s. pure s.1
