-- ===== src/Tests/NodeRows.antt =====
-- The addresses of nodes at concrete inputs.
use flux_panel_v.Base.{◌≡◌, refl, none, some, [], ◌∷◌, arith, codes, eq_text}
use flux_panel_v.Store.{World, ◌>>=◌, modify_db}
use flux_panel_v.Forward.{get_node_by_id}
use flux_panel_v.NodeRows.{
  NodeUpdateDto, move_in, move_out, move_tunnels, with_address, save_node, write_node, update_node,
}
use flux_panel_v.NodeRows.Addresses.{HasAddresses, update_node-HasAddresses}
use flux_panel_v.Tunnels.{TunnelDto, create_tunnel}
use flux_panel_v.NodeRows.Creation.{create_tunnel-HasAddresses}
use flux_panel_v.Samples.{tunnel, db, world, env}

-- The second node gets an address, and the tunnel leaves by it.
abbrev readdressed : NodeUpdateDto
readdressed = record {
  id = 2;
  name = [];
  ip = [];
  entry_ips = [];
  server_ip = codes "9.9.9.9";
  port_sta = none;
  port_end = none;
  group_name = none;
}

abbrev unaddressed : World
unaddressed = record world { db = record db { tunnels = record tunnel { out_ip = [] } ∷ [] } }

address_taken : (update_node env readdressed unaddressed).1.db.tunnels ≡ tunnel ∷ []
unfolding update_node get_node_by_id ◌>>=◌ modify_db write_node with_address save_node move_tunnels
    move_in move_out eq_text
address_taken = refl

unaddressed-HasAddresses : HasAddresses unaddressed.db.nodes unaddressed.db.tunnels
unaddressed-HasAddresses = ((λ a e. ground arith, λ a e. ground arith), tt)

update_node-HasAddresses_example :
    HasAddresses
      (update_node env readdressed unaddressed).1.db.nodes
      (update_node env readdressed unaddressed).1.db.tunnels
update_node-HasAddresses_example =
    update_node-HasAddresses env readdressed unaddressed (λ d. refl) unaddressed-HasAddresses

-- A tunnel from the first node to the second.
abbrev asked : TunnelDto
asked = record {
  name = codes "new";
  in_node_id = 1;
  out_node_id = some 2;
  type = 2;
  flow = 1;
  traffic_ratio = none;
  interface_name = [];
  protocol = [];
  tcp_listen_addr = [];
  udp_listen_addr = [];
}

create_tunnel-HasAddresses_example :
    HasAddresses
      (create_tunnel env asked unaddressed).1.db.nodes
      (create_tunnel env asked unaddressed).1.db.tunnels
create_tunnel-HasAddresses_example =
    create_tunnel-HasAddresses env asked unaddressed unaddressed-HasAddresses
