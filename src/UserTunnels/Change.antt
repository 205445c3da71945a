-- ===== src/UserTunnels/Change.antt =====
-- The change of a permission row: `UpdateUserTunnel`.
use flux_panel_v.Base.{if◌then◌else◌}
use flux_panel_v.Store.{Env, Notice, Act, pure, check, or_err, ◌>>=◌, ◌>>◌, modify_db}
use flux_panel_v.UserTunnels.{UserTunnelUpdateDto, find_user_tunnel, is_disabling, save_user_tunnel}
use flux_panel_v.UserTunnels.Speeds.{change_speed_if}
use flux_panel_v.UserTunnels.Disabling.{pause_disabled}

module _ (env : Env) where
  unfoldable pub update_user_tunnel : UserTunnelUpdateDto → Act
  unfolding change_speed_if
  update_user_tunnel d = do
    ut ← check (λ db. or_err (find_user_tunnel d.id db) Notice.tunnel_permission_missing)
    change_speed_if env ut d.speed_id
    if is_disabling d.status then pause_disabled env ut else pure tt
    modify_db (save_user_tunnel d)
