-- ===== src/Forward/Create.antt =====
-- `CreateForward`.
pub mod Outcome
pub mod Admission
use flux_panel_v.Base.{
  ℕ, suc, ◌+◌, Bool, true, false, not, ◌&&◌, Option, none, some, List, [], ◌∷◌, ◌++◌, Text,
  is_empty, select, update, leb, ◌==◌, if◌then◌else◌,
}
use flux_panel_v.Model.{pos, negsuc, ℤ, Forward, Tunnel, UserTunnel, Node}
use flux_panel_v.Store.{
  Db, World, Env, Result, ok, err, panic, Notice, Msg, notice, relayed, Action, Act, pure, fail,
  lift, gets, check, or_err, ◌>>=◌, ◌>>◌, modify_db, fail_if,
}
use flux_panel_v.Forward.{
  is_admin, is_tunnel_forward, first_tunnel, get_node_by_id, user_has_gost_node_access,
  get_required_nodes, build_service_name,
}
use flux_panel_v.Forward.Ports.{allocate_ports}
use flux_panel_v.Forward.Limits.{check_user_permissions}
use flux_panel_v.Forward.Services.{override_listen, create_gost_services}
use flux_panel_v.Forward.Ssrf.{Net, validate_remote_addr}

-- `dto.ForwardDto`
pub record ForwardDto : Type 0 where
  pub name : Text
  pub tunnel_id : ℕ
  pub remote_addr : Text
  pub strategy : Text
  pub in_port : Option ℕ
  pub listen_ip : Text
  pub interface_name : Text

-- A node that exists must admit the user; a node that does not is not refused here.
abbrev pub is_barred : ℕ → Option Node → Db → Bool
is_barred user_id none db = false
is_barred user_id (some n) db = not (user_has_gost_node_access user_id n.id db)

unfoldable pub check_node_access : ℕ → ℕ → Tunnel → Db → Result (Unit {0})
check_node_access user_id role_id t db =
    if is_admin role_id
    then ok tt
    else if is_barred user_id (get_node_by_id t.in_node_id db) db
    then err (notice Notice.no_in_node_access)
    else if is_tunnel_forward t && is_barred user_id (get_node_by_id t.out_node_id db) db
    then err (notice Notice.no_out_node_access)
    else ok tt

-- `SELECT COALESCE(MAX(inx), 0)`
unfoldable pub max_inx : List Forward → ℕ
max_inx [] = 0
max_inx (f ∷ fs) = if leb f.inx (max_inx fs) then max_inx fs else f.inx

-- The row that is inserted, with the key that the database gives it.
unfoldable pub new_forward : Env → ForwardDto → ℕ → Text → ℕ × ℕ → Db → Forward
new_forward env d user_id user_name (in_port, out_port) db = record {
  id = env.next_id db.forwards;
  user_id = user_id;
  user_name = user_name;
  name = d.name;
  tunnel_id = d.tunnel_id;
  in_port = in_port;
  out_port = out_port;
  remote_addr = d.remote_addr;
  strategy = d.strategy;
  listen_ip = d.listen_ip;
  interface_name = d.interface_name;
  in_flow = 0;
  out_flow = 0;
  created_time = env.now;
  updated_time = env.now;
  status = pos 1;
  inx = max_inx db.forwards + 1;
}

-- `DB.Create(&forward)`: the row goes to the end of the table, unless the database refuses it.
unfoldable pub insert_forward : Env → Forward → Act
insert_forward env f w =
    if env.create_fails w.db
    then (err (notice Notice.create_refused), w)
    else (ok tt, record w { db = record w.db { forwards = w.db.forwards ++ (f ∷ []) } })

-- `DB.Delete` of a forward by its key.
unfoldable pub remove_forward : ℕ → Db → Db
remove_forward id db = record db { forwards = select (λ f. not (f.id == id)) db.forwards }

unfoldable pub set_status : ℤ → ℕ → Db → Db
set_status status id db = record db {
  forwards = update (λ f. f.id == id) (λ f. record f { status = status }) db.forwards;
}

-- The services of the new row; a refusal leaves the row in the error state.
unfoldable pub start_services :
    Env → Forward → Tunnel → Option ℕ → Option UserTunnel → Node → Option Node → Act
start_services env f t limiter ut in_node out_node = do
  msg ←
      create_gost_services env f (override_listen f.listen_ip t) limiter in_node out_node
        (build_service_name f.id f.user_id ut)
  if is_empty msg then pure tt else (modify_db (set_status (negsuc 0) f.id) >> fail (relayed msg))

-- A missing node takes the row back.
unfoldable pub finish_create :
    Env → Forward → Tunnel → Option ℕ → Option UserTunnel → Result (Node × Option Node) → Act
finish_create env f t limiter ut (ok (in_node, out_node)) =
    start_services env f t limiter ut in_node out_node
finish_create env f t limiter ut (err m) = modify_db (remove_forward f.id) >> fail m
finish_create env f t limiter ut panic = lift panic

-- Everything before the insertion: the tunnel, the limiter, the user's tunnel row and the ports.
pub record Admitted : Type 0 where
  pub tunnel : Tunnel
  pub limiter : Option ℕ
  pub user_tunnel : Option UserTunnel
  pub ports : ℕ × ℕ

unfoldable pub admit : Env → Net → ForwardDto → ℕ → ℕ → Action Admitted
admit env net d user_id role_id = do
  lift (validate_remote_addr net d.remote_addr role_id)
  t ← check (λ db. or_err (first_tunnel d.tunnel_id db) Notice.tunnel_missing)
  fail_if (not (t.status == 1)) (notice Notice.tunnel_disabled)
  check (check_node_access user_id role_id t)
  (limiter, ut) ← check (check_user_permissions env user_id role_id t none)
  ports ← check (allocate_ports t d.in_port none)
  pure (record { tunnel = t; limiter = limiter; user_tunnel = ut; ports = ports })

-- From the insertion on.
unfoldable pub place : Env → ForwardDto → ℕ → Text → Admitted → Act
place env d user_id user_name a = do
  f ← gets (new_forward env d user_id user_name a.ports)
  insert_forward env f
  nodes ← gets (get_required_nodes a.tunnel)
  finish_create env f a.tunnel a.limiter a.user_tunnel nodes

unfoldable pub create_forward : Env → Net → ForwardDto → ℕ → ℕ → Text → Act
create_forward env net d user_id role_id user_name =
    admit env net d user_id role_id >>= place env d user_id user_name
