-- ===== src/Links/Limits.antt =====
-- References under the operations on speed limits.
use flux_panel_v.Base.{ℕ, Option, none, some, List}
use flux_panel_v.Model.{SpeedLimit, Node}
use flux_panel_v.Store.{Db, Env, modify_db}
use flux_panel_v.Store.Preserves.{Preserves, Preserves-refusal, Preserves-modify, preserving}
use flux_panel_v.Nodes.{add_limiters, update_limiters, delete_limiters}
use flux_panel_v.UserTunnels.{count_rows}
use flux_panel_v.SpeedLimits.{
  SpeedLimitDto, SpeedLimitUpdateDto, insert_speed_limit, save_speed_limit, remove_speed_limit,
  limiter_to, create_speed_limit, update_limiter_on, update_speed_limit, remove_limiter_on,
  delete_speed_limit,
}
use flux_panel_v.Links.{IsLinked}

with_limits-IsLinked :
    (db : Db) (sls : List SpeedLimit) → IsLinked db → IsLinked (record db { speed_limits = sls })
unfolding count_rows
with_limits-IsLinked db sls h = record {
  forwards = h.forwards;
  user_tunnels = h.user_tunnels;
  single = h.single;
}

module _ (env : Env) where
  insert-IsLinked : (s : SpeedLimit) → Preserves IsLinked (insert_speed_limit env s)
  unfolding insert_speed_limit
  insert-IsLinked s = Preserves-refusal env.create_fails _ _ (λ w h. with_limits-IsLinked w.db _ h)

  limiter_to-Preserves :
      {P : Db → Type 0} (n : Option Node) (s : SpeedLimit) → Preserves P (limiter_to env n s)
  unfolding limiter_to add_limiters
  limiter_to-Preserves none s = search preserving
  limiter_to-Preserves (some n) s = search preserving

  update_on-Preserves :
      {P : Db → Type 0} (n : Option Node) (s : SpeedLimit) → Preserves P (update_limiter_on env n s)
  unfolding update_limiter_on update_limiters
  update_on-Preserves none s = search preserving
  update_on-Preserves (some n) s = search preserving

  remove_on-Preserves :
      {P : Db → Type 0} (n : Option Node) (s : SpeedLimit) → Preserves P (remove_limiter_on env n s)
  unfolding remove_limiter_on delete_limiters
  remove_on-Preserves none s = search preserving
  remove_on-Preserves (some n) s = search preserving

  save-IsLinked : (s : SpeedLimit) → Preserves IsLinked (modify_db (save_speed_limit s))
  unfolding save_speed_limit
  save-IsLinked s = Preserves-modify _ (λ db h. with_limits-IsLinked db _ h)

  remove-IsLinked : (id : ℕ) → Preserves IsLinked (modify_db (remove_speed_limit id))
  unfolding remove_speed_limit
  remove-IsLinked id = Preserves-modify _ (λ db h. with_limits-IsLinked db _ h)

  pub create_speed_limit-IsLinked :
      (d : SpeedLimitDto) → Preserves IsLinked (create_speed_limit env d)
  unfolding create_speed_limit
  create_speed_limit-IsLinked d =
      search (preserving, insert-IsLinked, limiter_to-Preserves) depth 20

  pub update_speed_limit-IsLinked :
      (d : SpeedLimitUpdateDto) → Preserves IsLinked (update_speed_limit env d)
  unfolding update_speed_limit
  update_speed_limit-IsLinked d = search (preserving, save-IsLinked, update_on-Preserves) depth 20

  pub delete_speed_limit-IsLinked : (id : ℕ) → Preserves IsLinked (delete_speed_limit env id)
  unfolding delete_speed_limit
  delete_speed_limit-IsLinked id =
      search (preserving, remove_on-Preserves, remove-IsLinked) depth 30
