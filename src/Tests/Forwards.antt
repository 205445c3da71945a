-- ===== src/Tests/Forwards.antt =====
-- The forward service at concrete inputs.
use flux_panel_v.Base.{
  ◌≡◌, refl, ◌↔◌, none, some, [], arith, codes, eq_text, has_byte, has_prefix, last_index, split,
  take, trim_space,
}
use flux_panel_v.Model.{pos}
use flux_panel_v.Store.{ok, ◌>>=◌, fail_if, modify_db, send}
use flux_panel_v.Store.Atomic.{EndsWith}
use flux_panel_v.Store.Elsewhere.{SameElsewhere}
use flux_panel_v.Forward.{
  get_node_by_id, first_forward, first_tunnel, first_user, get_required_nodes, get_user_tunnel,
  is_gost_success, validate_forward_exists,
}
use flux_panel_v.Forward.Ports.{
  first_free, is_port_used, allocate_ports, allocate_port_for_node, is_in_port_available,
}
use flux_panel_v.Forward.Ports.Allocation.{IsAllocated, allocate_ports-IsAllocated}
use flux_panel_v.Forward.Limits.{
  check_user_permissions, check_user_flow_limits, is_expired, is_used_up,
}
use flux_panel_v.Forward.Limits.Permissions.{RowsFit, MayUse, check_user_permissions_iff}
use flux_panel_v.Forward.Create.{create_forward, remove_forward}
use flux_panel_v.Forward.Create.Admission.{CreateEnds, create_forward-Ends}
use flux_panel_v.Forward.Control.{
  touch_status, pause_forward, resume_forward, delete_forward, check_user_enabled, resume_entry,
  resume_exit, resuming_user_tunnel,
}
use flux_panel_v.Forward.Control.Atomic.{
  pause_forward-EndsWith, resume_forward-EndsWith, delete_forward-EndsWith,
}
use flux_panel_v.Forward.Control.Access.{MayResume, resume_forward-MayResume}
use flux_panel_v.Forward.Update.{
  Planned, plan_update, update_forward, check_move, choose_ports, naming_user_tunnel,
  updated_forward,
}
use flux_panel_v.Forward.Update.Plan.{IsPlanned, plan_update-IsPlanned}
use flux_panel_v.Forward.Update.Confined.{update_forward-SameElsewhere}
use flux_panel_v.Forward.Address.{extract_ip_from_address}
use flux_panel_v.Forward.Services.{is_multi_ip, override_listen}
use flux_panel_v.Forward.Ssrf.{check_host, in_private_range, validate_remote_addr}
use flux_panel_v.Nodes.{resume_remote_service, resume_service}
use flux_panel_v.Samples.{
  user_tunnel, tunnel, node, forward, db, world, env, net, new_dto, update_dto,
}

db-RowsFit : RowsFit db
db-RowsFit = (((omega arith, omega arith), tt), ((omega arith, omega arith), tt))

create_forward-Ends_example :
    CreateEnds env net new_dto 7 1
      (codes "ann")
      db
      (create_forward env net new_dto 7 1 (codes "ann") world)
create_forward-Ends_example =
    create_forward-Ends env net new_dto 7 1 (codes "ann") world ((omega arith, tt)) db-RowsFit

check_user_permissions_iff_example :
    (check_user_permissions env 7 1 tunnel none db ≡ ok (some 9, some user_tunnel))
    ↔ MayUse env 7 tunnel none db user_tunnel
check_user_permissions_iff_example =
    check_user_permissions_iff env 7 1 tunnel none db user_tunnel (omega arith) db-RowsFit

two_free : allocate_ports tunnel none none db ≡ ok (10001, 10001)
unfolding allocate_ports allocate_port_for_node get_node_by_id first_free is_port_used
two_free = refl

allocate_ports-IsAllocated_example : IsAllocated tunnel none none db (10001, 10001)
allocate_ports-IsAllocated_example =
    allocate_ports-IsAllocated tunnel none none db 10001 10001 two_free

pause_forward-EndsWith_example :
    EndsWith (touch_status (pos 0) 1000 5) db (pause_forward env 5 7 1 world)
pause_forward-EndsWith_example = pause_forward-EndsWith env 5 7 1 world

resume_forward-EndsWith_example :
    EndsWith (touch_status (pos 1) 1000 5) db (resume_forward env 5 7 1 world)
resume_forward-EndsWith_example = resume_forward-EndsWith env 5 7 1 world

delete_forward-EndsWith_example : EndsWith (remove_forward 5) db (delete_forward env 5 7 1 world)
delete_forward-EndsWith_example = delete_forward-EndsWith env 5 7 1 world

resumes : resume_forward env 5 7 1 world ≡ (ok tt, (resume_forward env 5 7 1 world).1)
unfolding resume_forward ◌>>=◌ check_user_enabled first_user validate_forward_exists first_forward
    first_tunnel fail_if get_user_tunnel get_required_nodes get_node_by_id is_multi_ip send
    is_gost_success eq_text has_byte modify_db resuming_user_tunnel check_user_flow_limits
    is_expired is_used_up resume_entry resume_exit resume_service resume_remote_service
resumes = refl

resume_forward-MayResume_example : MayResume env 5 7 db
resume_forward-MayResume_example =
    resume_forward-MayResume env 5 7 1 world (resume_forward env 5 7 1 world).1 (omega arith)
      db-RowsFit resumes

update_forward-SameElsewhere_example :
    SameElsewhere 5 db (update_forward env net update_dto 7 1 world).1.db
update_forward-SameElsewhere_example = update_forward-SameElsewhere env net update_dto 7 1 world

abbrev planned : Planned
planned = record {
  old = forward;
  new = record forward {
    user_name = [];
    name = codes "moved";
    in_port = 10002;
    remote_addr = codes "8.8.8.8:443";
    created_time = 0;
    updated_time = 1000;
    status = pos 0;
    inx = 0;
  };
  tunnel = tunnel;
  limiter = none;
  user_tunnel = some user_tunnel;
  in_node = node 1;
  out_node = some (node 2);
}

plans : plan_update env net update_dto 7 1 world ≡ (ok planned, world)
unfolding plan_update ◌>>=◌ check_user_enabled first_user validate_forward_exists first_forward
    first_tunnel fail_if get_user_tunnel get_required_nodes get_node_by_id is_multi_ip send
    is_gost_success eq_text has_byte modify_db validate_remote_addr check_move naming_user_tunnel
    choose_ports updated_forward allocate_ports is_in_port_available allocate_port_for_node
    first_free is_port_used split check_host extract_ip_from_address trim_space has_prefix
    last_index take in_private_range override_listen
plans = refl

plan_update-IsPlanned_example : IsPlanned net env update_dto 7 1 db planned
plan_update-IsPlanned_example =
    plan_update-IsPlanned net env update_dto 7 1 world world planned plans
