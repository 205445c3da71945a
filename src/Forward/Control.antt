-- ===== src/Forward/Control.antt =====
-- `PauseForward`, `ResumeForward`, `DeleteForward` and `ForceDeleteForward`.
pub mod Atomic
pub mod Access
use flux_panel_v.Base.{
  ℕ, Bool, true, false, not, ◌&&◌, Option, none, some, List, [], ◌∷◌, Text, is_empty, update, ◌==◌,
  if◌then◌else◌,
}
use flux_panel_v.Model.{pos, ℤ, User, Forward, Tunnel, UserTunnel, Node}
use flux_panel_v.Store.{
  Db, World, Env, Result, ok, err, panic, Notice, Msg, notice, notice_text, relayed, Action, Act,
  pure, fail, lift, gets, check, or_err, bind_result, ◌>>=◌, ◌>>◌, modify_db, fail_if,
}
use flux_panel_v.Nodes.{
  pause_service, pause_service_multi_ip, pause_remote_service, resume_service,
  resume_service_multi_ip, resume_remote_service,
}
use flux_panel_v.Forward.{
  is_admin, is_tunnel_forward, is_gost_success, first_user, first_forward, first_tunnel,
  get_user_tunnel, validate_forward_exists, get_required_nodes, build_service_name,
}
use flux_panel_v.Forward.Limits.{check_user_flow_limits}
use flux_panel_v.Forward.Services.{
  is_multi_ip, delete_gost_services_with_ip, delete_old_gost_services,
}
use flux_panel_v.Forward.Create.{remove_forward}

-- An ordinary user must exist and be enabled.
unfoldable pub check_user_enabled : ℕ → ℕ → Db → Result (Unit {0})
check_user_enabled user_id role_id db =
    if is_admin role_id
    then ok tt
    else bind_result (or_err (first_user user_id db) Notice.user_missing)
        λ user. if user.status == 0 then err (notice Notice.user_disabled) else ok tt

-- The row whose key names the services: the caller's, who must have one, or for the administrator
-- the owner's.
unfoldable pub acting_user_tunnel : ℕ → ℕ → Forward → Tunnel → Db → Result (Option UserTunnel)
acting_user_tunnel user_id role_id f t db =
    if is_admin role_id
    then ok (get_user_tunnel f.user_id t.id db)
    else bind_result (or_err (get_user_tunnel user_id t.id db) Notice.no_tunnel_permission)
        λ ut. ok (some ut)

-- `status` and `updated_time` of one forward.
unfoldable pub touch_status : ℤ → ℕ → ℕ → Db → Db
touch_status status now id db = record db {
  forwards =
      update (λ f. f.id == id) (λ f. record f { status = status; updated_time = now }) db.forwards;
}

module _ (env : Env) where
  unfoldable pub pause_entry : Node → Text → Text → Action Text
  pause_entry in_node name listen_ip =
      if is_multi_ip listen_ip
      then pause_service_multi_ip env in_node.id name listen_ip
      else pause_service env in_node.id name

  unfoldable pub resume_entry : Node → Text → Text → Action Text
  resume_entry in_node name listen_ip =
      if is_multi_ip listen_ip
      then resume_service_multi_ip env in_node.id name listen_ip
      else resume_service env in_node.id name

  -- The exit node's service of a tunnel forward; an answer other than "OK" ends the handler.
  unfoldable pub pause_exit : Tunnel → Option Node → Text → Act
  pause_exit t none name = pure tt
  pause_exit t (some n) name =
      if is_tunnel_forward t
      then (pause_remote_service env n.id name >>= λ msg.
          fail_if (not (is_gost_success msg)) (notice_text Notice.pause_remote_failed msg))
      else pure tt

  unfoldable pub resume_exit : Tunnel → Option Node → Text → Act
  resume_exit t none name = pure tt
  resume_exit t (some n) name =
      if is_tunnel_forward t
      then (resume_remote_service env n.id name >>= λ msg.
          fail_if (not (is_gost_success msg)) (notice_text Notice.resume_remote_failed msg))
      else pure tt

  unfoldable pub pause_forward : ℕ → ℕ → ℕ → Act
  pause_forward id user_id role_id = do
    check (check_user_enabled user_id role_id)
    f ← check (λ db. or_err (validate_forward_exists id user_id role_id db) Notice.forward_missing)
    t ← check (λ db. or_err (first_tunnel f.tunnel_id db) Notice.tunnel_missing)
    ut ← check (acting_user_tunnel user_id role_id f t)
    (in_node, out_node) ← check (get_required_nodes t)
    let name = build_service_name f.id f.user_id ut
    msg ← pause_entry in_node name f.listen_ip
    fail_if (not (is_gost_success msg)) (notice_text Notice.pause_failed msg)
    pause_exit t out_node name
    modify_db (touch_status (pos 0) env.now id)

  -- The limits of an ordinary user, and his row, which must be enabled.
  unfoldable pub resuming_user_tunnel : ℕ → ℕ → Forward → Tunnel → Db → Result (Option UserTunnel)
  resuming_user_tunnel user_id role_id f t db =
      if is_admin role_id
      then ok (get_user_tunnel f.user_id t.id db)
      else bind_result (check_user_flow_limits env user_id t db) λ _.
        bind_result (or_err (get_user_tunnel user_id t.id db) Notice.no_tunnel_permission) λ ut.
          if not (ut.status == 1) then err (notice Notice.user_tunnel_disabled) else ok (some ut)

  unfoldable pub resume_forward : ℕ → ℕ → ℕ → Act
  resume_forward id user_id role_id = do
    check (check_user_enabled user_id role_id)
    f ← check (λ db. or_err (validate_forward_exists id user_id role_id db) Notice.forward_missing)
    t ← check (λ db. or_err (first_tunnel f.tunnel_id db) Notice.tunnel_missing)
    fail_if (not (t.status == 1)) (notice Notice.tunnel_disabled)
    ut ← check (resuming_user_tunnel user_id role_id f t)
    (in_node, out_node) ← check (get_required_nodes t)
    let name = build_service_name f.id f.user_id ut
    msg ← resume_entry in_node name f.listen_ip
    fail_if (not (is_gost_success msg)) (notice_text Notice.resume_failed msg)
    resume_exit t out_node name
    modify_db (touch_status (pos 1) env.now id)

  -- `DB.Delete`, which the database may refuse.
  unfoldable pub delete_row : ℕ → Act
  delete_row id w =
      if env.delete_fails w.db
      then (err (notice Notice.delete_refused), w)
      else (ok tt, record w { db = remove_forward id w.db })

  abbrev pub is_out_online : Option Node → Bool
  is_out_online none = true
  is_out_online (some n) = env.is_node_online n.id

  -- Services are removed only where both nodes exist and are online.
  unfoldable pub clean_services :
      Forward → Tunnel → Option UserTunnel → Result (Node × Option Node) → Act
  clean_services f t ut (ok (in_node, out_node)) =
      if env.is_node_online in_node.id && is_out_online out_node
      then (delete_gost_services_with_ip env t in_node out_node
            (build_service_name f.id f.user_id ut) f.listen_ip
          >>= λ msg. fail_if (not (is_empty msg)) (relayed msg))
      else pure tt
  clean_services f t ut _ = pure tt

  unfoldable pub delete_forward : ℕ → ℕ → ℕ → Act
  delete_forward id user_id role_id = do
    f ← check (λ db. or_err (validate_forward_exists id user_id role_id db) Notice.forward_missing)
    t ← check (λ db. or_err (first_tunnel f.tunnel_id db) Notice.tunnel_missing)
    ut ← check (acting_user_tunnel user_id role_id f t)
    nodes ← gets (get_required_nodes t)
    clean_services f t ut nodes
    delete_row id

  abbrev pub clean_old : Forward → Option Tunnel → Action Text
  clean_old f none = pure []
  clean_old f (some t) = delete_old_gost_services env f t

  unfoldable pub force_delete_forward : ℕ → Act
  force_delete_forward id = do
    f ← check (λ db. or_err (first_forward id db) Notice.forward_missing)
    t ← gets (first_tunnel f.tunnel_id)
    clean_old f t
    delete_row id
