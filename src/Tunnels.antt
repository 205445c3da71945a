-- ===== src/Tunnels.antt =====
-- The tunnel service: go-backend/service/tunnel.go.
pub mod Listing
use flux_panel_v.Base.{
  ℕ, Bool, not, ◌&&◌, ◌||◌, Option, none, some, List, [], ◌∷◌, ◌++◌, Text, codes, eq_text, length,
  select, update, ltb, ◌==◌, if◌then◌else◌,
}
use flux_panel_v.Model.{one_float, Tunnel, UserTunnel, Node}
use flux_panel_v.Store.{
  Db, Env, Result, ok, err, Notice, notice, Action, Act, pure, gets, check, or_err, bind_result,
  ◌>>=◌, ◌>>◌, modify_db, fail_if,
}
use flux_panel_v.Forward.{is_tunnel_forward, first_tunnel, get_node_by_id}

-- `dto.TunnelDto` and `dto.TunnelUpdateDto`
pub record TunnelDto : Type 0 where
  pub name : Text
  pub in_node_id : ℕ
  pub out_node_id : Option ℕ
  pub type : ℕ
  pub flow : ℕ
  pub traffic_ratio : Option ℕ
  pub interface_name : Text
  pub protocol : Text
  pub tcp_listen_addr : Text
  pub udp_listen_addr : Text

pub record TunnelUpdateDto : Type 0 where
  pub id : ℕ
  pub name : Text
  pub flow : ℕ
  pub traffic_ratio : Option ℕ
  pub protocol : Text
  pub tcp_listen_addr : Text
  pub udp_listen_addr : Text
  pub interface_name : Text

-- `dto.OrderItem`
pub record OrderItem : Type 0 where
  pub id : ℕ
  pub inx : ℕ

-- `if s != "" { v = s }` over a default.
abbrev pub or_default : Text → Text → Text
or_default [] v = v
or_default (c ∷ s) v = c ∷ s

abbrev pub or_ratio : Option ℕ → ℕ → ℕ
or_ratio none v = v
or_ratio (some x) v = x

unfoldable pub is_name_taken : Text → Db → Bool
is_name_taken name db = ltb 0 (length (select (λ t. eq_text t.name name) db.tunnels))

-- The key and the address of the exit node that is asked for.
unfoldable pub exit_node : TunnelDto → Option ℕ → Db → Result (ℕ × Text)
exit_node d none db = err (notice Notice.exit_node_required)
exit_node d (some id) db =
    if id == d.in_node_id
    then err (notice Notice.same_nodes)
    else bind_result (or_err (get_node_by_id id db) Notice.out_node_missing)
        λ n. ok (id, n.server_ip)

unfoldable pub exit_of : TunnelDto → Node → Db → Result (ℕ × Text)
unfolding exit_node
exit_of d in_node db =
    if d.type == 2 then exit_node d d.out_node_id db else ok (d.in_node_id, in_node.server_ip)

unfoldable pub new_tunnel : Env → TunnelDto → Node → ℕ × Text → Db → Tunnel
new_tunnel env d in_node (out_node_id, out_ip) db = record {
  id = env.next_tunnel_id db.tunnels;
  name = d.name;
  traffic_ratio = or_ratio d.traffic_ratio one_float;
  in_node_id = d.in_node_id;
  in_ip = in_node.server_ip;
  out_node_id = out_node_id;
  out_ip = out_ip;
  type = d.type;
  protocol = or_default d.protocol (codes "tls");
  flow = d.flow;
  tcp_listen_addr = or_default d.tcp_listen_addr (codes "::");
  udp_listen_addr = or_default d.udp_listen_addr (codes "::");
  interface_name = d.interface_name;
  created_time = env.now;
  updated_time = env.now;
  status = 1;
  inx = 0;
}

unfoldable pub with_tunnel : Tunnel → Db → Db
with_tunnel t db = record db { tunnels = db.tunnels ++ (t ∷ []) }

unfoldable pub insert_tunnel : Env → Tunnel → Action Tunnel
insert_tunnel env t w =
    if env.create_fails w.db
    then (err (notice Notice.create_refused), w)
    else (ok t, record w { db = with_tunnel t w.db })

unfoldable pub create_tunnel : Env → TunnelDto → Action Tunnel
create_tunnel env d = do
  taken ← gets (is_name_taken d.name)
  fail_if taken (notice Notice.tunnel_name_taken)
  in_node ← check (λ db. or_err (get_node_by_id d.in_node_id db) Notice.in_node_missing)
  exit ← check (exit_of d in_node)
  t ← gets (new_tunnel env d in_node exit)
  insert_tunnel env t

-- The columns that an update writes; the ratio only if it is given.
unfoldable pub updated_tunnel : Env → TunnelUpdateDto → Tunnel → Tunnel
updated_tunnel env d t = record t {
  name = d.name;
  flow = d.flow;
  protocol = d.protocol;
  tcp_listen_addr = d.tcp_listen_addr;
  udp_listen_addr = d.udp_listen_addr;
  interface_name = d.interface_name;
  updated_time = env.now;
  traffic_ratio = or_ratio d.traffic_ratio t.traffic_ratio;
}

unfoldable pub save_tunnel : Env → TunnelUpdateDto → Db → Db
save_tunnel env d db = record db {
  tunnels = update (λ t. t.id == d.id) (updated_tunnel env d) db.tunnels;
}

unfoldable pub is_name_taken_by_other : Text → ℕ → Db → Bool
is_name_taken_by_other name id db =
    ltb 0 (length (select (λ t. eq_text t.name name && not (t.id == id)) db.tunnels))

unfoldable pub write_tunnel : Env → TunnelUpdateDto → Act
write_tunnel env d w =
    if env.update_fails w.db
    then (err (notice Notice.update_refused), w)
    else (ok tt, record w { db = save_tunnel env d w.db })

unfoldable pub update_tunnel : Env → TunnelUpdateDto → Act
update_tunnel env d = do
  check (λ db. or_err (first_tunnel d.id db) Notice.tunnel_missing)
  taken ← gets (is_name_taken_by_other d.name d.id)
  fail_if taken (notice Notice.tunnel_name_taken)
  write_tunnel env d

-- `UPDATE tunnel SET inx` of each item.
unfoldable pub set_inx : OrderItem → Db → Db
set_inx item db = record db {
  tunnels = update (λ t. t.id == item.id) (λ t. record t { inx = item.inx }) db.tunnels;
}

unfoldable pub update_tunnel_order : List OrderItem → Act
update_tunnel_order [] = pure tt
update_tunnel_order (item ∷ items) = modify_db (set_inx item) >> update_tunnel_order items

unfoldable pub count_forwards_on : ℕ → Db → ℕ
count_forwards_on id db = length (select (λ f. f.tunnel_id == id) db.forwards)

-- The permission rows of a tunnel go with it.
unfoldable pub remove_tunnel : ℕ → Db → Db
remove_tunnel id db = record db {
  user_tunnels = select (λ ut. not (ut.tunnel_id == id)) db.user_tunnels;
  tunnels = select (λ t. not (t.id == id)) db.tunnels;
}

unfoldable pub delete_tunnel : ℕ → Act
delete_tunnel id = do
  check (λ db. or_err (first_tunnel id db) Notice.tunnel_missing)
  n ← gets (count_forwards_on id)
  fail_if (ltb 0 n) (notice Notice.tunnel_has_forwards)
  modify_db (remove_tunnel id)

-- The tunnels that `GetUserAccessibleTunnels` lists for an ordinary user, each with the key of the
-- row that permits it: the rows joined with their tunnels.
abbrev pub node_rows : ℕ → Db → ℕ
node_rows user_id db = length (select (λ r. r.user_id == user_id) db.user_nodes)

abbrev pub is_gost_node : ℕ → Db → ℕ → Bool
is_gost_node user_id db node = ltb 0 (
    length (
      select (λ r. r.user_id == user_id && (r.gost_enabled == 1 && r.node_id == node))
        db.user_nodes))

unfoldable pub is_listed : ℕ → Db → Tunnel → UserTunnel → Bool
is_listed user_id db t ut =
    t.id == ut.tunnel_id
    && (ut.user_id == user_id
        && (ut.status == 1
            && (not (ltb 0 (node_rows user_id db))
                || (is_gost_node user_id db t.in_node_id
                    && (not (is_tunnel_forward t) || is_gost_node user_id db t.out_node_id)))))

abbrev pub rows_of : ℕ → Db → Tunnel → List UserTunnel → List (Tunnel × ℕ)
rows_of user_id db t [] = []
rows_of user_id db t (ut ∷ uts) =
    if is_listed user_id db t ut
    then (t, ut.id) ∷ rows_of user_id db t uts
    else rows_of user_id db t uts

abbrev pub joined : ℕ → Db → List Tunnel → List (Tunnel × ℕ)
joined user_id db [] = []
joined user_id db (t ∷ ts) = rows_of user_id db t db.user_tunnels ++ joined user_id db ts

unfoldable pub get_user_accessible_tunnels : ℕ → Db → List (Tunnel × ℕ)
get_user_accessible_tunnels user_id db = joined user_id db db.tunnels
