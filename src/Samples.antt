-- ===== src/Samples.antt =====
-- A small panel for the tests: one user with a permission on one tunnel between two nodes, and one
-- forward of his.
use flux_panel_v.Base.{
  ℕ, true, false, Option, none, some, [], ◌∷◌, ◌*◌, ◌-◌, ◌==◌, if◌then◌else◌, eq_text, ltb, Text,
  codes,
}
use flux_panel_v.Model.{
  one_float, pos, User, Forward, Tunnel, UserTunnel, Node, UserNode, SpeedLimit,
}
use flux_panel_v.Gost.{ServiceArgs}
use flux_panel_v.Store.{Db, World, Env}
use flux_panel_v.Forward.Ssrf.{Ip, v4, Net}
use flux_panel_v.Forward.Create.{ForwardDto}
use flux_panel_v.Forward.Update.{ForwardUpdateDto}
use flux_panel_v.Flow.{FlowDto, Floats, Keys}

abbrev pub user : User
user = record {
  id = 7;
  user = codes "ann";
  pwd = [];
  role_id = 1;
  exp_time = 2000;
  flow = 10;
  in_flow = 100;
  out_flow = 100;
  xray_flow = 0;
  xray_in_flow = 0;
  xray_out_flow = 0;
  flow_reset_time = 0;
  flow_reset_type = 0;
  flow_reset_day = 0;
  num = 5;
  gost_enabled = 1;
  xray_enabled = 0;
  sub_token = [];
  created_time = 0;
  updated_time = 0;
  status = 1;
}

abbrev pub node : ℕ → Node
node n = record {
  id = n;
  name = [];
  secret = [];
  ip = [];
  entry_ips = [];
  server_ip = [];
  port_sta = 10000;
  port_end = 10002;
  version = [];
  http = 0;
  tls = 0;
  socks = 0;
  xray_enabled = 0;
  xray_version = [];
  xray_status = 0;
  created_time = 0;
  updated_time = 0;
  status = 1;
  inx = 0;
  group_name = [];
  disguise_name = [];
  xray_disguise_name = [];
}

abbrev pub tunnel : Tunnel
tunnel = record {
  id = 3;
  name = [];
  traffic_ratio = 0;
  in_node_id = 1;
  in_ip = [];
  out_node_id = 2;
  out_ip = codes "9.9.9.9";
  type = 2;
  protocol = codes "tls";
  flow = 2;
  tcp_listen_addr = codes "0.0.0.0";
  udp_listen_addr = codes "0.0.0.0";
  interface_name = [];
  created_time = 0;
  updated_time = 0;
  status = 1;
  inx = 0;
}

abbrev pub user_tunnel : UserTunnel
user_tunnel = record {
  id = 4;
  user_id = 7;
  tunnel_id = 3;
  speed_id = some 9;
  num = 5;
  flow = 10;
  in_flow = 100;
  out_flow = 100;
  flow_reset_time = 0;
  flow_reset_type = 0;
  flow_reset_day = 0;
  exp_time = 0;
  status = 1;
}

abbrev pub forward : Forward
forward = record {
  id = 5;
  user_id = 7;
  user_name = codes "ann";
  name = [];
  tunnel_id = 3;
  in_port = 10000;
  out_port = 10000;
  remote_addr = codes "8.8.8.8:80";
  strategy = codes "fifo";
  listen_ip = [];
  interface_name = [];
  in_flow = 0;
  out_flow = 0;
  created_time = 0;
  updated_time = 0;
  status = pos 1;
  inx = 1;
}

abbrev pub access : ℕ → UserNode
access n = record { id = n; user_id = 7; node_id = n; xray_enabled = 0; gost_enabled = 1 }

abbrev pub speed_limit : SpeedLimit
speed_limit = record {
  id = 9;
  name = [];
  speed = 100;
  tunnel_id = 3;
  tunnel_name = [];
  created_time = 0;
  updated_time = 0;
  status = 1;
}

abbrev pub db : Db
db = record {
  users = user ∷ [];
  forwards = forward ∷ [];
  tunnels = tunnel ∷ [];
  user_tunnels = user_tunnel ∷ [];
  nodes = node 1 ∷ (node 2 ∷ []);
  user_nodes = access 1 ∷ (access 2 ∷ []);
  speed_limits = speed_limit ∷ [];
}

abbrev pub world : World
world = record { db = db; sent = [] }

-- Every node answers "OK", and the database refuses nothing.
abbrev pub env : Env
env = record {
  now = 1000;
  reply = λ sent. codes "OK";
  is_node_online = λ n. true;
  next_id = λ fs. 6;
  next_tunnel_id = λ ts. 4;
  next_node_id = λ ns. 3;
  next_user_tunnel_id = λ uts. 5;
  next_speed_limit_id = λ sls. 10;
  create_fails = λ d. false;
  update_fails = λ d. false;
  delete_fails = λ d. false;
}

-- A parser that knows two addresses, and a resolver that knows no name.
abbrev pub parse : Text → Option Ip
parse s =
    if eq_text s (codes "8.8.8.8")
    then some (v4 8 8 8 8)
    else if eq_text s (codes "10.0.0.1")
    then some (v4 10 0 0 1)
    else none

abbrev pub net : Net
net = record { parse_ip = parse; show_ip = λ ip. codes "8.8.8.8"; lookup_ip = λ s. none }

abbrev pub new_dto : ForwardDto
new_dto = record {
  name = codes "new";
  tunnel_id = 3;
  remote_addr = codes "8.8.8.8:443";
  strategy = codes "fifo";
  in_port = none;
  listen_ip = [];
  interface_name = [];
}

abbrev pub update_dto : ForwardUpdateDto
update_dto = record {
  id = 5;
  name = codes "moved";
  tunnel_id = 3;
  remote_addr = codes "8.8.8.8:443";
  strategy = codes "fifo";
  in_port = some 10002;
  listen_ip = [];
  interface_name = [];
}

abbrev pub args : ServiceArgs
args = record {
  in_port = 10000;
  limiter = some 9;
  remote_addr = codes "8.8.8.8:80";
  fwd_type = 2;
  strategy = codes "fifo";
  interface_name = [];
}

-- A tunnel that listens on two addresses.
abbrev pub two_addresses : Tunnel
two_addresses = record tunnel { tcp_listen_addr = codes "1.1.1.1,2.2.2.2" }

-- A report of 5 bytes up and 3 bytes down, and a stand-in for floats: whole numbers, and 1.0.
abbrev pub report : FlowDto
report = record { n = codes "5_7_4"; u = 5; d = 3 }

abbrev pub floats : Floats
floats = record {
  of_int = λ n. n;
  mul = λ a b. if b == one_float then a else a * b;
  is_positive = λ x. ltb 0 x;
  floor_int = λ x. x;
}

abbrev pub read_digit : Text → ℕ
read_digit [] = 0
read_digit (c ∷ s) = c - 48

abbrev pub keys : Keys
keys = record { forward = 5; user = 7; user_tunnel = 4; is_admin_forward = false }
