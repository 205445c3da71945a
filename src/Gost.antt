-- ===== src/Gost.antt =====
-- The GOST configurations that the panel sends to its nodes: the builders of go-backend/pkg/gost.go.
-- A JSON object with a fixed set of keys is a record; a key that is set on a condition is an `Option`.

pub mod Names
pub mod Chains
use flux_panel_v.Base.{
  ℕ, ◌+◌, Bool, true, false, ◌&&◌, ◌||◌, not, Option, none, some, List, [], ◌∷◌, ◌++◌, Text, codes,
  is_empty, eq_text, has_byte, split, trim_space, last_index, take, drop, show_nat, length, leb,
  ltb, ◌==◌, if◌then◌else◌, any,
}
use flux_panel_v.Model.{Tunnel}

pub record TargetNode : Type 0 where
  pub name : Text
  pub addr : Text

-- `selector` has the constants "maxFails": 1 and "failTimeout": "600s" beside the strategy.
pub record Forwarder : Type 0 where
  pub nodes : List TargetNode
  pub strategy : Text
  pub max_fails : ℕ
  pub fail_timeout : Text

-- `handler` and `listener` are inlined; `keep_alive` is the listener's metadata of a UDP service.
pub record ServiceConfig : Type 0 where
  pub name : Text
  pub addr : Text
  pub interface : Option Text
  pub limiter : Option Text
  pub handler_type : Text
  pub handler_chain : Option Text
  pub listener_type : Text
  pub keep_alive : Bool
  pub forwarder : Option Forwarder

-- A chain with its one hop and that hop's one node.
pub record ChainData : Type 0 where
  pub name : Text
  pub hop : Text
  pub node : Text
  pub addr : Text
  pub connector_type : Text
  pub dialer_type : Text
  pub quic_metadata : Option (Bool × Text)
  pub interface : Option Text

pub record LimiterData : Type 0 where
  pub name : Text
  pub limits : List Text

pub data Proto : Type 0 where
  tcp udp : Proto

abbrev pub proto_text : Proto → Text
proto_text tcp = codes "tcp"
proto_text udp = codes "udp"

abbrev pub is_udp : Proto → Bool
is_udp tcp = false
is_udp udp = true

-- `if s != "" { set }`
abbrev pub unless_empty : Text → Option Text
unless_empty [] = none
unless_empty (c ∷ s) = some (c ∷ s)

abbrev pub show_limiter : Option ℕ → Option Text
show_limiter none = none
show_limiter (some n) = some (show_nat n)

unfoldable pub create_limiter_data : ℕ → Text → LimiterData
create_limiter_data name speed = record {
  name = show_nat name;
  limits = (codes "$ " ++ (speed ++ (codes "MB " ++ (speed ++ codes "MB")))) ∷ [];
}

-- `formatListenAddr`, and `formatRemoteAddr` of go-backend/service/forward.go, which reads the same.
unfoldable pub format_listen_addr : Text → ℕ → Text
format_listen_addr ip port =
    if has_byte b':' ip
    then b'[' ∷ (ip ++ (codes "]:" ++ show_nat port))
    else ip ++ (b':' ∷ show_nat port)

-- The trimmed parts that are not empty.
abbrev pub listen_parts : List Text → List Text
listen_parts [] = []
listen_parts (p ∷ ps) =
    if is_empty (trim_space p) then listen_parts ps else trim_space p ∷ listen_parts ps

unfoldable pub split_listen_ips : Text → List Text
split_listen_ips addr =
    if not (has_byte b',' addr)
    then addr ∷ []
    else if is_empty (listen_parts (split b',' addr))
    then addr ∷ []
    else listen_parts (split b',' addr)

abbrev pub target_nodes : ℕ → List Text → List TargetNode
target_nodes i [] = []
target_nodes i (a ∷ as') =
    record { name = codes "node_" ++ show_nat (i + 1); addr = trim_space a }
    ∷ target_nodes (i + 1) as'

unfoldable pub build_forwarder : Text → Text → Forwarder
build_forwarder remote_addr strategy = record {
  nodes = target_nodes 0 (split b',' remote_addr);
  strategy = if is_empty strategy then codes "fifo" else strategy;
  max_fails = 1;
  fail_timeout = codes "600s";
}

-- The arguments that `buildServices` hands to both builders.
pub record ServiceArgs : Type 0 where
  pub in_port : ℕ
  pub limiter : Option ℕ
  pub remote_addr : Text
  pub fwd_type : ℕ
  pub strategy : Text
  pub interface_name : Text

-- `name + "_chains"` unless the forward is direct.
unfoldable pub build_service_config : Text → ServiceArgs → Proto → Tunnel → ServiceConfig
build_service_config name a proto tunnel = record {
  name = name ++ (b'_' ∷ proto_text proto);
  addr = elim proto [
    | tcp ↦ format_listen_addr tunnel.tcp_listen_addr a.in_port
    | udp ↦ format_listen_addr tunnel.udp_listen_addr a.in_port
  ];
  interface = unless_empty a.interface_name;
  limiter = show_limiter a.limiter;
  handler_type = proto_text proto;
  handler_chain = if a.fwd_type == 1 then none else some (name ++ codes "_chains");
  listener_type = proto_text proto;
  keep_alive = is_udp proto;
  forwarder = if a.fwd_type == 1 then some (build_forwarder a.remote_addr a.strategy) else none;
}

abbrev pub not_digit : ℕ → Bool
not_digit c = ltb c b'0' || ltb b'9' c

-- The chain's name: the service's, with a numeric suffix after the last `_` cut off. Of `name[idx+1:]`
-- an empty suffix counts as a number too.
unfoldable pub chain_base : Text → Text
chain_base name = elim (last_index b'_' name) [
  | none ↦ name
  | some idx ↦
      if ltb 0 idx && not (any not_digit (drop (idx + 1) name)) then take idx name else name
]

unfoldable pub build_service_config_with_ip : Text → ServiceArgs → Proto → Text → ServiceConfig
build_service_config_with_ip name a proto listen_ip = record {
  name = name ++ (b'_' ∷ proto_text proto);
  addr = format_listen_addr listen_ip a.in_port;
  interface = unless_empty a.interface_name;
  limiter = show_limiter a.limiter;
  handler_type = proto_text proto;
  handler_chain = if a.fwd_type == 1 then none else some (chain_base name ++ codes "_chains");
  listener_type = proto_text proto;
  keep_alive = is_udp proto;
  forwarder = if a.fwd_type == 1 then some (build_forwarder a.remote_addr a.strategy) else none;
}

-- `fmt.Sprintf("%s_%d", name, i)`
abbrev pub suffixed : Text → ℕ → Text
suffixed name i = name ++ (b'_' ∷ show_nat i)

-- The loop over the listen addresses, from index `i`.
unfoldable pub services_per_ip : Text → ServiceArgs → ℕ → List Text → List ServiceConfig
services_per_ip name a i [] = []
services_per_ip name a i (ip ∷ ips) =
    build_service_config_with_ip (suffixed name i) a tcp (trim_space ip)
    ∷ build_service_config_with_ip (suffixed name i) a udp (trim_space ip)
    ∷ services_per_ip name a (i + 1) ips

unfoldable pub build_services : Text → ServiceArgs → Tunnel → List ServiceConfig
build_services name a tunnel =
    if leb (length (split_listen_ips tunnel.tcp_listen_addr)) 1
    then build_service_config name a tcp tunnel ∷ build_service_config name a udp tunnel ∷ []
    else services_per_ip name a 0 (split_listen_ips tunnel.tcp_listen_addr)

-- `[]string{name + "_tcp", name + "_udp"}`
abbrev pub pair_names : Text → List Text
pair_names name = (name ++ codes "_tcp") ∷ (name ++ codes "_udp") ∷ []

unfoldable pub names_per_ip : Text → ℕ → List Text → List Text
names_per_ip name i [] = []
names_per_ip name i (ip ∷ ips) =
    (suffixed name i ++ codes "_tcp")
    ∷ (suffixed name i ++ codes "_udp")
    ∷ names_per_ip name (i + 1) ips

unfoldable pub build_multi_ip_service_names : Text → Text → List Text
build_multi_ip_service_names name listen_ip =
    if leb (length (split_listen_ips listen_ip)) 1
    then pair_names name
    else names_per_ip name 0 (split_listen_ips listen_ip)

unfoldable pub build_remote_service : Text → ℕ → Text → Text → Text → Text → ServiceConfig
build_remote_service name out_port remote_addr protocol strategy interface_name = record {
  name = name ++ codes "_tls";
  addr = b':' ∷ show_nat out_port;
  interface = unless_empty interface_name;
  limiter = none;
  handler_type = codes "relay";
  handler_chain = none;
  listener_type = protocol;
  keep_alive = false;
  forwarder = some (build_forwarder remote_addr strategy);
}

unfoldable pub build_chain_data : Text → Text → Text → Text → ChainData
build_chain_data name remote_addr protocol interface_name = record {
  name = name ++ codes "_chains";
  hop = codes "hop-" ++ name;
  node = codes "node-" ++ name;
  addr = remote_addr;
  connector_type = codes "relay";
  dialer_type = protocol;
  quic_metadata = if eq_text protocol (codes "quic") then some (true, codes "10s") else none;
  interface = unless_empty interface_name;
}
