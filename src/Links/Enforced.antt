-- ===== src/Links/Enforced.antt =====
-- Enforcement of limits on a panel whose references hold.
use flux_panel_v.Base.{
  ℕ, ◌≡◌, Bool, true, false, is_some, some, List, [], ◌∷◌, Text, All, split, ◌==◌,
}
use flux_panel_v.Model.{pos, User, Forward}
use flux_panel_v.Store.{Db, World, Env}
use flux_panel_v.Forward.{first_tunnel, first_forward, first_user}
use flux_panel_v.Forward.Limits.Permissions.{FitsInt64}
use flux_panel_v.Flow.{FlowDto, Floats, Keys, read_parts, charged, account, process_flow_data}
use flux_panel_v.Flow.Reports.{IsUserOver, process_flow_data-stops_user}
use flux_panel_v.Links.{HasTunnel, IsLinked}
use flux_panel_v.Links.Tasks.{process_flow_data-IsLinked}
use flux_panel_v.Links.Panel.{Reaches, Reaches-IsLinked}

-- Every forward that the test picks is paused.
abbrev pub AllPaused : (Forward → Bool) → Db → Type 0
AllPaused p db = All (λ g. p g ≡ true → g.status ≡ pos 0) db.forwards

both-paused :
    (p : Forward → Bool) (db : Db) (xs : List Forward)
    → All (λ g. p g ≡ true → is_some (first_tunnel g.tunnel_id db) ≡ true → g.status ≡ pos 0) xs
    → All (λ g. HasTunnel db g.tunnel_id) xs
    → All (λ g. p g ≡ true → g.status ≡ pos 0) xs
both-paused p db [] q h = tt
both-paused p db (x ∷ xs) q h =
    (λ hp. q.0 hp (unfold first_tunnel in h.0), both-paused p db xs q.1 h.1)

module _ (env : Env) (fl : Floats) (read_key : Text → ℕ) (flow : FlowDto) (k : Keys) (f : Forward)
    (w : World) (parts : read_parts read_key (split b'_' flow.n) ≡ some k)
    (known : first_forward k.forward w.db ≡ some f) where
  -- On a panel that requests led to from tables whose references hold, a report on an ordinary
  -- forward leaves a user who is over his limits by the charged counters without a single running
  -- forward, as long as his counters fit into int64.
  pub process_flow_data-AllPaused :
      (v : World) (user : User)
      → IsLinked v.db
      → Reaches v w
      → k.is_admin_forward ≡ false
      → first_user k.user (
          account k
            (charged fl (first_tunnel f.tunnel_id w.db) flow.d)
            (charged fl (first_tunnel f.tunnel_id w.db) flow.u)
            w.db)
        ≡ some user
      → FitsInt64 user.flow user.in_flow user.out_flow
      → IsUserOver env user
      → AllPaused (λ g. g.user_id == k.user) (process_flow_data env fl read_key flow w).1.db
  process_flow_data-AllPaused v user start run ordinary found fits over =
      let after = (process_flow_data env fl read_key flow w).1.db in
      let linked : IsLinked after =
        (process_flow_data-IsLinked env fl read_key flow).after w
          (Reaches-IsLinked v w start run) in
      both-paused (λ g. g.user_id == k.user) after after.forwards
        (process_flow_data-stops_user env fl read_key flow k f w parts known user ordinary found
          fits over)
        linked.forwards
