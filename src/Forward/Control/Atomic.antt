-- ===== src/Forward/Control/Atomic.antt =====
-- How `PauseForward`, `ResumeForward` and `DeleteForward` leave the tables.
use flux_panel_v.Base.{ℕ, ◌≢◌, refl, ap, inl, inr, Option, none, some, Text, arith, Bool-cases}
use flux_panel_v.Model.{pos, Forward, Tunnel, UserTunnel, Node}
use flux_panel_v.Store.{Db, World, Env, Result, ok, err, panic}
use flux_panel_v.Store.Atomic.{EndsWith, Commits, unchanged, commit_rules}
use flux_panel_v.Nodes.{
  pause_service, pause_service_multi_ip, pause_remote_service, resume_service,
  resume_service_multi_ip, resume_remote_service, delete_service, delete_service_multi_ip,
  delete_chains, delete_remote_service,
}
use flux_panel_v.Forward.{get_required_nodes}
use flux_panel_v.Forward.Limits.{check_user_flow_limits}
use flux_panel_v.Forward.Services.{delete_gost_services_with_ip}
use flux_panel_v.Forward.Create.{remove_forward}
use flux_panel_v.Forward.Control.{
  check_user_enabled, acting_user_tunnel, touch_status, pause_entry, resume_entry, pause_exit,
  resume_exit, pause_forward, resuming_user_tunnel, resume_forward, delete_forward, delete_row,
  clean_services,
}

pub get_required_nodes-ne-panic : (t : Tunnel) (db : Db) → get_required_nodes t db ≢ panic
unfolding get_required_nodes
get_required_nodes-ne-panic t db = ground arith

check_user_enabled-ne-panic : (u r : ℕ) (db : Db) → check_user_enabled u r db ≢ panic
unfolding check_user_enabled
check_user_enabled-ne-panic u r db = ground arith

acting_user_tunnel-ne-panic :
    (u r : ℕ) (f : Forward) (t : Tunnel) (db : Db) → acting_user_tunnel u r f t db ≢ panic
unfolding acting_user_tunnel
acting_user_tunnel-ne-panic u r f t db = ground arith

ruleset checks = (
  commit_rules, get_required_nodes-ne-panic, check_user_enabled-ne-panic,
  acting_user_tunnel-ne-panic,
)

pause_entry-Commits :
    {db : Db} (env : Env) (n : Node) (name ip : Text)
    → Commits db unchanged (pause_entry env n name ip)
unfolding pause_entry pause_service pause_service_multi_ip
pause_entry-Commits env n name ip = search commit_rules

pause_exit-Commits :
    {db : Db} (env : Env) (t : Tunnel) (n : Option Node) (name : Text)
    → Commits db unchanged (pause_exit env t n name)
unfolding pause_exit pause_remote_service
pause_exit-Commits env t none name = search commit_rules
pause_exit-Commits env t (some n) name = search commit_rules

-- Pausing marks the forward as paused, or refuses and leaves the tables as they were; no row that is
-- missing makes it panic.
pub pause_forward-EndsWith :
    (env : Env) (id user_id role_id : ℕ) (w : World)
    → EndsWith (touch_status (pos 0) env.now id) w.db (pause_forward env id user_id role_id w)
unfolding pause_forward
pause_forward-EndsWith env id user_id role_id w =
    let c : Commits w.db (touch_status (pos 0) env.now id) (pause_forward env id user_id role_id) =
      search (checks, pause_entry-Commits, pause_exit-Commits) depth 20 in
    c.at w refl

check_user_flow_limits-ne-panic :
    (env : Env) (u : ℕ) (t : Tunnel) (db : Db) → check_user_flow_limits env u t db ≢ panic
unfolding check_user_flow_limits
check_user_flow_limits-ne-panic env u t db = ground arith

resuming_user_tunnel-ne-panic :
    (env : Env) (u r : ℕ) (f : Forward) (t : Tunnel) (db : Db)
    → resuming_user_tunnel env u r f t db ≢ panic
unfolding resuming_user_tunnel
resuming_user_tunnel-ne-panic env u r f t db =
    ground (arith, check_user_flow_limits-ne-panic env u t db)

resume_entry-Commits :
    {db : Db} (env : Env) (n : Node) (name ip : Text)
    → Commits db unchanged (resume_entry env n name ip)
unfolding resume_entry resume_service resume_service_multi_ip
resume_entry-Commits env n name ip = search commit_rules

resume_exit-Commits :
    {db : Db} (env : Env) (t : Tunnel) (n : Option Node) (name : Text)
    → Commits db unchanged (resume_exit env t n name)
unfolding resume_exit resume_remote_service
resume_exit-Commits env t none name = search commit_rules
resume_exit-Commits env t (some n) name = search commit_rules

-- Resuming marks the forward as active, or refuses and leaves the tables as they were; no row that
-- is missing makes it panic.
pub resume_forward-EndsWith :
    (env : Env) (id user_id role_id : ℕ) (w : World)
    → EndsWith (touch_status (pos 1) env.now id) w.db (resume_forward env id user_id role_id w)
unfolding resume_forward
resume_forward-EndsWith env id user_id role_id w =
    let c : Commits w.db (touch_status (pos 1) env.now id) (resume_forward env id user_id role_id) =
      search (checks, resuming_user_tunnel-ne-panic, resume_entry-Commits, resume_exit-Commits)
        depth 20 in
    c.at w refl

delete_row-Commits :
    {db : Db} (env : Env) (id : ℕ) → Commits db (remove_forward id) (delete_row env id)
unfolding delete_row
delete_row-Commits env id = record {
  at = λ w h. elim (Bool-cases (env.delete_fails w.db)) [
    | inl refused ↦ rw refused h
    | inr done ↦ rw done (ap (remove_forward id) h)
  ];
}

delete_gost_services-Commits :
    {db : Db} (env : Env) (t : Tunnel) (n : Node) (o : Option Node) (name ip : Text)
    → Commits db unchanged (delete_gost_services_with_ip env t n o name ip)
unfolding delete_gost_services_with_ip delete_service delete_service_multi_ip delete_chains
    delete_remote_service
delete_gost_services-Commits env t n none name ip = search commit_rules depth 12
delete_gost_services-Commits env t n (some o) name ip = search commit_rules depth 12

clean_services-Commits :
    {db : Db} (env : Env) (f : Forward) (t : Tunnel) (ut : Option UserTunnel)
    (r : Result (Node × Option Node))
    → Commits db unchanged (clean_services env f t ut r)
unfolding clean_services
clean_services-Commits env f t ut (ok (n, o)) = search (commit_rules, delete_gost_services-Commits)
clean_services-Commits env f t ut (err m) = search commit_rules
clean_services-Commits env f t ut panic = search commit_rules

-- Deleting removes the row, or refuses and leaves the tables as they were, whatever the nodes
-- answer; nodes that are missing or offline do not make it panic.
pub delete_forward-EndsWith :
    (env : Env) (id user_id role_id : ℕ) (w : World)
    → EndsWith (remove_forward id) w.db (delete_forward env id user_id role_id w)
unfolding delete_forward
delete_forward-EndsWith env id user_id role_id w =
    let c : Commits w.db (remove_forward id) (delete_forward env id user_id role_id) =
      search (checks, clean_services-Commits, delete_row-Commits) depth 20 in
    c.at w refl
