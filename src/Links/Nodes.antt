-- ===== src/Links/Nodes.antt =====
-- References under the operations on nodes.
use flux_panel_v.Base.{
  ℕ, ◌≡◌, refl, ◌∙◌, inl, inr, List, [], ◌∷◌, Text, arith, is_some, find, is_empty, eq_text, not,
  ◌&&◌, Bool-cases, ◌==◌,
}
use flux_panel_v.Model.{Tunnel, Node}
use flux_panel_v.Store.{Db, Env, modify_db}
use flux_panel_v.Store.Preserves.{
  Preserves, Preserves-bind, Preserves-refusal, Preserves-modify, preserving,
}
use flux_panel_v.Tunnels.{OrderItem}
use flux_panel_v.UserTunnels.{count_rows}
use flux_panel_v.NodeRows.{
  NodeDto, NodeUpdateDto, NodeSetProtocolDto, Drawn, insert_node, create_node, move_in, move_out,
  move_tunnels, with_address, save_node, write_node, update_node, save_protocol, push_protocol,
  set_node_protocol, set_node_inx, update_node_order,
}
use flux_panel_v.Links.{IsLinked}
use flux_panel_v.Links.Tables.{with_tunnels-IsLinked}

with_nodes-IsLinked : (db : Db) (ns : List Node) → IsLinked db → IsLinked (record db { nodes = ns })
unfolding count_rows
with_nodes-IsLinked db ns h = record {
  forwards = h.forwards;
  user_tunnels = h.user_tunnels;
  single = h.single;
}

found-move_tunnels :
    (id k : ℕ) (s : Text) (ts : List Tunnel)
    → is_some (find (λ t. t.id == id) (move_tunnels k s ts)) ≡ is_some (find (λ t. t.id == id) ts)
unfolding move_tunnels move_in move_out
found-move_tunnels id k s [] = refl
found-move_tunnels id k s (t ∷ ts) = ground (arith, found-move_tunnels id k s ts)

with_address-IsLinked :
    (d : NodeUpdateDto) (n : Node) → Preserves IsLinked (modify_db (with_address d n))
unfolding with_address
with_address-IsLinked d n = Preserves-modify _ (λ db h.
    elim (Bool-cases (not (is_empty d.server_ip) && not (eq_text n.server_ip d.server_ip))) [
      | inl moved ↦ rw moved (
          with_tunnels-IsLinked db _ (λ id e. found-move_tunnels id d.id d.server_ip db.tunnels ∙ e)
            h)
      | inr same ↦ rw same h
    ])

write_node-IsLinked :
    (env : Env) (g : List Node → List Node)
    → Preserves IsLinked (write_node env (λ db. record db { nodes = g db.nodes }))
unfolding write_node
write_node-IsLinked env g =
    Preserves-refusal env.update_fails _ _ (λ w h. with_nodes-IsLinked w.db _ h)

module _ (env : Env) where
  insert_node-IsLinked : (n : Node) → Preserves IsLinked (insert_node env n)
  unfolding insert_node
  insert_node-IsLinked n =
      Preserves-refusal env.create_fails _ _ (λ w h. with_nodes-IsLinked w.db _ h)

  save_node-IsLinked : (d : NodeUpdateDto) → Preserves IsLinked (write_node env (save_node env d))
  unfolding save_node
  save_node-IsLinked d = write_node-IsLinked env _

  save_protocol-IsLinked :
      (d : NodeSetProtocolDto) → Preserves IsLinked (write_node env (save_protocol env d))
  unfolding save_protocol
  save_protocol-IsLinked d = write_node-IsLinked env _

  pub create_node-IsLinked :
      (drawn : Drawn) (d : NodeDto) → Preserves IsLinked (create_node env drawn d)
  unfolding create_node
  create_node-IsLinked drawn d = search (preserving, insert_node-IsLinked) depth 20

  pub update_node-IsLinked : (d : NodeUpdateDto) → Preserves IsLinked (update_node env d)
  unfolding update_node
  update_node-IsLinked d = search (preserving, with_address-IsLinked, save_node-IsLinked) depth 20

  pub set_node_protocol-IsLinked :
      (d : NodeSetProtocolDto) → Preserves IsLinked (set_node_protocol env d)
  unfolding set_node_protocol push_protocol
  set_node_protocol-IsLinked d = search (preserving, save_protocol-IsLinked) depth 20

pub update_node_order-IsLinked : (is : List OrderItem) → Preserves IsLinked (update_node_order is)
unfolding update_node_order set_node_inx
update_node_order-IsLinked [] = search preserving
update_node_order-IsLinked (i ∷ is) =
    Preserves-bind _ _ (Preserves-modify _ (λ db h. with_nodes-IsLinked db _ h))
      (λ a. update_node_order-IsLinked is)
