-- ===== src/Model.antt =====
-- The rows of the panel's tables: go-backend/model. Identifiers, counters, limits, ports and times
-- are the natural numbers that the panel writes; a forward's status is an integer, since it may be
-- -1; a `float64` is kept as its 64-bit pattern; strings are byte lists; `*int64` is an `Option`.
use flux_panel_v.Base.{ℕ, Bool, Option, Text, ◌==◌, false}

-- A Go `int` that may be negative; `negsuc n` is -(n + 1).
pub data ℤ : Type 0 where
  pos : ℕ → ℤ
  negsuc : ℕ → ℤ

abbrev pub eq_ℤ : ℤ → ℤ → Bool
eq_ℤ (pos a) (pos b) = a == b
eq_ℤ (pos a) (negsuc b) = false
eq_ℤ (negsuc a) (pos b) = false
eq_ℤ (negsuc a) (negsuc b) = a == b

-- 1.0
abbrev pub one_float : ℕ
one_float = 0x3ff0000000000000

pub record User : Type 0 where
  pub id : ℕ
  pub user : Text
  pub pwd : Text
  pub role_id : ℕ
  pub exp_time : ℕ
  pub flow : ℕ
  pub in_flow : ℕ
  pub out_flow : ℕ
  pub xray_flow : ℕ
  pub xray_in_flow : ℕ
  pub xray_out_flow : ℕ
  pub flow_reset_time : ℕ
  pub flow_reset_type : ℕ
  pub flow_reset_day : ℕ
  pub num : ℕ
  pub gost_enabled : ℕ
  pub xray_enabled : ℕ
  pub sub_token : Text
  pub created_time : ℕ
  pub updated_time : ℕ
  pub status : ℕ

pub record Forward : Type 0 where
  pub id : ℕ
  pub user_id : ℕ
  pub user_name : Text
  pub name : Text
  pub tunnel_id : ℕ
  pub in_port : ℕ
  pub out_port : ℕ
  pub remote_addr : Text
  pub strategy : Text
  pub listen_ip : Text
  pub interface_name : Text
  pub in_flow : ℕ
  pub out_flow : ℕ
  pub created_time : ℕ
  pub updated_time : ℕ
  pub status : ℤ
  pub inx : ℕ

pub record Tunnel : Type 0 where
  pub id : ℕ
  pub name : Text
  pub traffic_ratio : ℕ
  pub in_node_id : ℕ
  pub in_ip : Text
  pub out_node_id : ℕ
  pub out_ip : Text
  pub type : ℕ
  pub protocol : Text
  pub flow : ℕ
  pub tcp_listen_addr : Text
  pub udp_listen_addr : Text
  pub interface_name : Text
  pub created_time : ℕ
  pub updated_time : ℕ
  pub status : ℕ
  pub inx : ℕ

pub record UserTunnel : Type 0 where
  pub id : ℕ
  pub user_id : ℕ
  pub tunnel_id : ℕ
  pub speed_id : Option ℕ
  pub num : ℕ
  pub flow : ℕ
  pub in_flow : ℕ
  pub out_flow : ℕ
  pub flow_reset_time : ℕ
  pub flow_reset_type : ℕ
  pub flow_reset_day : ℕ
  pub exp_time : ℕ
  pub status : ℕ

pub record Node : Type 0 where
  pub id : ℕ
  pub name : Text
  pub secret : Text
  pub ip : Text
  pub entry_ips : Text
  pub server_ip : Text
  pub port_sta : ℕ
  pub port_end : ℕ
  pub version : Text
  pub http : ℕ
  pub tls : ℕ
  pub socks : ℕ
  pub xray_enabled : ℕ
  pub xray_version : Text
  pub xray_status : ℕ
  pub created_time : ℕ
  pub updated_time : ℕ
  pub status : ℕ
  pub inx : ℕ
  pub group_name : Text
  pub disguise_name : Text
  pub xray_disguise_name : Text

pub record UserNode : Type 0 where
  pub id : ℕ
  pub user_id : ℕ
  pub node_id : ℕ
  pub xray_enabled : ℕ
  pub gost_enabled : ℕ

pub record SpeedLimit : Type 0 where
  pub id : ℕ
  pub name : Text
  pub speed : ℕ
  pub tunnel_id : ℕ
  pub tunnel_name : Text
  pub created_time : ℕ
  pub updated_time : ℕ
  pub status : ℕ
