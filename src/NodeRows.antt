-- ===== src/NodeRows.antt =====
-- The nodes as rows: go-backend/service/node.go. Removal is left out, since it clears tables of Xray.
pub mod Addresses
pub mod Creation
use flux_panel_v.Base.{
  ℕ, Bool, not, ◌&&◌, Option, none, some, List, [], ◌∷◌, ◌++◌, Text, eq_text, is_empty, update, leb,
  ◌==◌, if◌then◌else◌,
}
use flux_panel_v.Model.{Tunnel, Node}
use flux_panel_v.Store.{
  Db, World, Env, Command, Result, ok, err, Notice, notice, Action, Act, pure, fail, gets, check,
  or_err, ◌>>=◌, ◌>>◌, modify_db, fail_if, send,
}
use flux_panel_v.Forward.{get_node_by_id, is_gost_success}
use flux_panel_v.SpeedLimits.{new_name, new_speed}
use flux_panel_v.Tunnels.{OrderItem}

-- `dto.NodeDto`, `dto.NodeUpdateDto` and `dto.NodeSetProtocolDto`
pub record NodeDto : Type 0 where
  pub name : Text
  pub ip : Text
  pub entry_ips : Text
  pub server_ip : Text
  pub port_sta : ℕ
  pub port_end : ℕ
  pub group_name : Text

pub record NodeUpdateDto : Type 0 where
  pub id : ℕ
  pub name : Text
  pub ip : Text
  pub entry_ips : Text
  pub server_ip : Text
  pub port_sta : Option ℕ
  pub port_end : Option ℕ
  pub group_name : Option Text

pub record NodeSetProtocolDto : Type 0 where
  pub id : ℕ
  pub http : ℕ
  pub tls : ℕ
  pub socks : ℕ

-- What is drawn at random for a new node.
pub record Drawn : Type 0 where
  pub secret : Text
  pub disguise_name : Text
  pub xray_disguise_name : Text

unfoldable pub new_node : Env → Drawn → NodeDto → Db → Node
new_node env drawn d db = record {
  id = env.next_node_id db.nodes;
  name = d.name;
  secret = drawn.secret;
  ip = d.ip;
  entry_ips = d.entry_ips;
  server_ip = d.server_ip;
  port_sta = d.port_sta;
  port_end = d.port_end;
  version = [];
  http = 0;
  tls = 0;
  socks = 0;
  xray_enabled = 0;
  xray_version = [];
  xray_status = 0;
  created_time = env.now;
  updated_time = env.now;
  status = 0;
  inx = 0;
  group_name = d.group_name;
  disguise_name = drawn.disguise_name;
  xray_disguise_name = drawn.xray_disguise_name;
}

unfoldable pub insert_node : Env → Node → Action Node
insert_node env n w =
    if env.create_fails w.db
    then (err (notice Notice.create_refused), w)
    else (ok n, record w { db = record w.db { nodes = w.db.nodes ++ (n ∷ []) } })

unfoldable pub create_node : Env → Drawn → NodeDto → Action Node
create_node env drawn d = do
  fail_if (leb d.port_end d.port_sta) (notice Notice.port_range_empty)
  n ← gets (new_node env drawn d)
  insert_node env n

abbrev pub new_group : Option Text → Text → Text
new_group none old = old
new_group (some g) old = g

unfoldable pub updated_node : Env → NodeUpdateDto → Node → Node
updated_node env d n = record n {
  name = new_name d.name n.name;
  ip = new_name d.ip n.ip;
  entry_ips = d.entry_ips;
  server_ip = new_name d.server_ip n.server_ip;
  port_sta = new_speed d.port_sta n.port_sta;
  port_end = new_speed d.port_end n.port_end;
  group_name = new_group d.group_name n.group_name;
  updated_time = env.now;
}

-- The tunnels that enter or leave by the node take over its new address.
unfoldable pub move_in : ℕ → Text → Tunnel → Tunnel
move_in id server_ip t = if t.in_node_id == id then record t { in_ip = server_ip } else t

unfoldable pub move_out : ℕ → Text → Tunnel → Tunnel
move_out id server_ip t = if t.out_node_id == id then record t { out_ip = server_ip } else t

unfoldable pub move_tunnels : ℕ → Text → List Tunnel → List Tunnel
move_tunnels id server_ip [] = []
move_tunnels id server_ip (t ∷ ts) =
    move_out id server_ip (move_in id server_ip t) ∷ move_tunnels id server_ip ts

unfoldable pub with_address : NodeUpdateDto → Node → Db → Db
with_address d n db =
    if not (is_empty d.server_ip) && not (eq_text n.server_ip d.server_ip)
    then record db { tunnels = move_tunnels d.id d.server_ip db.tunnels }
    else db

unfoldable pub save_node : Env → NodeUpdateDto → Db → Db
save_node env d db = record db { nodes = update (λ n. n.id == d.id) (updated_node env d) db.nodes }

unfoldable pub write_node : Env → (Db → Db) → Act
write_node env g w =
    if env.update_fails w.db
    then (err (notice Notice.update_refused), w)
    else (ok tt, record w { db = g w.db })

unfoldable pub update_node : Env → NodeUpdateDto → Act
update_node env d = do
  n ← check (λ db. or_err (get_node_by_id d.id db) Notice.node_missing)
  modify_db (with_address d n)
  write_node env (save_node env d)

abbrev pub with_protocol : Env → NodeSetProtocolDto → Node → Node
with_protocol env d n = record n {
  http = d.http;
  tls = d.tls;
  socks = d.socks;
  updated_time = env.now;
}

unfoldable pub save_protocol : Env → NodeSetProtocolDto → Db → Db
save_protocol env d db = record db {
  nodes = update (λ n. n.id == d.id) (with_protocol env d) db.nodes;
}

-- What the node answers, unless it is offline or did as it was told.
unfoldable pub push_protocol : Env → NodeSetProtocolDto → Action (Option Text)
push_protocol env d =
    if env.is_node_online d.id
    then (send env d.id (Command.set_protocol d.http d.tls d.socks) >>= λ msg.
        pure (if is_gost_success msg then none else some msg))
    else pure none

unfoldable pub set_node_protocol : Env → NodeSetProtocolDto → Action (Option Text)
set_node_protocol env d = do
  check (λ db. or_err (get_node_by_id d.id db) Notice.node_missing)
  write_node env (save_protocol env d)
  push_protocol env d

unfoldable pub set_node_inx : OrderItem → Db → Db
set_node_inx item db = record db {
  nodes = update (λ n. n.id == item.id) (λ n. record n { inx = item.inx }) db.nodes;
}

unfoldable pub update_node_order : List OrderItem → Act
update_node_order [] = pure tt
update_node_order (item ∷ items) = modify_db (set_node_inx item) >> update_node_order items
