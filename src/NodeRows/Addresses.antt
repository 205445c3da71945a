-- ===== src/NodeRows/Addresses.antt =====
-- The addresses of the nodes that the tunnels carry.
use flux_panel_v.Base.{
  ==_iff, ◌≡◌, refl, sym, ap, subst, ◌∙◌, inl, inr, ℕ, false, not, ◌&&◌, Option, none, some, List,
  [], ◌∷◌, Text, arith, All, eq_text, eq_text→eq, is_empty, update, find, Bool-cases, Option-cases,
  ◌==◌, if◌then◌else◌,
}
use flux_panel_v.Model.{Tunnel, Node}
use flux_panel_v.Store.{Db, World, Env, ◌>>=◌, modify_db}
use flux_panel_v.Forward.{get_node_by_id}
use flux_panel_v.SpeedLimits.{new_name}
use flux_panel_v.NodeRows.{
  NodeUpdateDto, updated_node, move_in, move_out, move_tunnels, with_address, save_node, write_node,
  update_node,
}

-- The address of the node with a key.
abbrev pub address_of : ℕ → List Node → Option Text
address_of id [] = none
address_of id (n ∷ ns) = if n.id == id then some n.server_ip else address_of id ns

-- The address at one end of a tunnel is that of its node, if the node is there.
abbrev pub IsAddressOf : List Node → ℕ → Text → Type 0
IsAddressOf nodes id ip = (a : Text) → address_of id nodes ≡ some a → ip ≡ a

-- Every tunnel carries the addresses that its nodes have.
abbrev pub HasAddresses : List Node → List Tunnel → Type 0
HasAddresses nodes ts =
    All (λ t. IsAddressOf nodes t.in_node_id t.in_ip × IsAddressOf nodes t.out_node_id t.out_ip) ts

abbrev renamed : Text → Option Text → Option Text
renamed server_ip none = none
renamed server_ip (some a) = some (new_name server_ip a)

pub found-address :
    (id : ℕ) (nodes : List Node) (n : Node)
    → find (λ m. m.id == id) nodes ≡ some n
    → address_of id nodes ≡ some n.server_ip
found-address id [] n h = cc
found-address id (m ∷ ms) n h = ground (arith, found-address id ms n)

pub some_text : (a b : Text) → some a ≡ some b → a ≡ b
some_text a b e = cc

module _ (env : Env) (d : NodeUpdateDto) where
  abbrev saved : List Node → List Node
  saved = update (λ n. n.id == d.id) (updated_node env d)

  address_of-other :
      (id : ℕ) (nodes : List Node)
      → id == d.id ≡ false
      → address_of id (saved nodes) ≡ address_of id nodes
  unfolding updated_node
  address_of-other id [] h = refl
  address_of-other id (n ∷ ns) h = ground (arith, address_of-other id ns)

  address_of-own :
      (nodes : List Node)
      → address_of d.id (saved nodes) ≡ renamed d.server_ip (address_of d.id nodes)
  unfolding updated_node
  address_of-own [] = refl
  address_of-own (n ∷ ns) = elim (Bool-cases (n.id == d.id)) [
    | inl own ↦ rw (own, own) refl
    | inr other ↦ rw (other, other) (address_of-own ns)
  ]

  -- One end of a tunnel, by where its node stands.
  other_end :
      (id : ℕ) (ip : Text) (nodes : List Node)
      → id == d.id ≡ false
      → IsAddressOf nodes id ip
      → IsAddressOf (saved nodes) id ip
  other_end id ip nodes other h a e = h a (sym (address_of-other id nodes other) ∙ e)

  renamed-filled :
      (s : Text) (o : Option Text) (a : Text) → is_empty s ≡ false → renamed s o ≡ some a → s ≡ a
  renamed-filled s none a h e = cc
  renamed-filled [] (some b) a h e = cc
  renamed-filled (c ∷ s) (some b) a h e = some_text (c ∷ s) a e

  moved_end :
      (nodes : List Node)
      → is_empty d.server_ip ≡ false
      → IsAddressOf (saved nodes) d.id d.server_ip
  moved_end nodes filled a e =
      renamed-filled d.server_ip (address_of d.id nodes) a filled (sym (address_of-own nodes) ∙ e)

  kept_end :
      (id : ℕ) (ip old : Text) (nodes : List Node)
      → address_of d.id nodes ≡ some old
      → new_name d.server_ip old ≡ old
      → IsAddressOf nodes id ip
      → IsAddressOf (saved nodes) id ip
  kept_end id ip old nodes there same h a e = elim (Bool-cases (id == d.id)) [
    | inl own ↦
        let own_id : id ≡ d.id = (==_iff id d.id).0 own in
        let at_d : address_of d.id (saved nodes) ≡ some a =
          subst (λ k. address_of k (saved nodes) ≡ some a) own_id e in
        let new : some (new_name d.server_ip old) ≡ some a =
          ap (renamed d.server_ip) (sym there) ∙ (sym (address_of-own nodes) ∙ at_d) in
        let a_is : old ≡ a = sym same ∙ some_text _ a new in
        h a (ap (λ k. address_of k nodes) own_id ∙ (there ∙ ap some a_is))
    | inr other ↦ other_end id ip nodes other h a e
  ]

  new_end :
      (id : ℕ) (ip : Text) (nodes : List Node)
      → is_empty d.server_ip ≡ false
      → IsAddressOf nodes id ip
      → IsAddressOf (saved nodes) id (if id == d.id then d.server_ip else ip)
  new_end id ip nodes filled h = elim (Bool-cases (id == d.id)) [
    | inl own ↦ rw own (
        subst (λ k. IsAddressOf (saved nodes) k d.server_ip) (sym ((==_iff id d.id).0 own))
          (moved_end nodes filled))
    | inr other ↦ rw other (other_end id ip nodes other h)
  ]

  moved_in_id :
      (s : Text) (t : Tunnel) → (move_out d.id s (move_in d.id s t)).in_node_id ≡ t.in_node_id
  unfolding move_in move_out
  moved_in_id s t = ground arith

  moved_out_id :
      (s : Text) (t : Tunnel) → (move_out d.id s (move_in d.id s t)).out_node_id ≡ t.out_node_id
  unfolding move_in move_out
  moved_out_id s t = ground arith

  moved_in_ip :
      (s : Text) (t : Tunnel)
      → (move_out d.id s (move_in d.id s t)).in_ip ≡ (if t.in_node_id == d.id then s else t.in_ip)
  unfolding move_in move_out
  moved_in_ip s t = ground arith

  moved_out_ip :
      (s : Text) (t : Tunnel)
      → (move_out d.id s (move_in d.id s t)).out_ip
        ≡ (if t.out_node_id == d.id then s else t.out_ip)
  unfolding move_in move_out
  moved_out_ip s t = ground arith

  moved_tunnels :
      (nodes : List Node) (ts : List Tunnel)
      → is_empty d.server_ip ≡ false
      → HasAddresses nodes ts
      → HasAddresses (saved nodes) (move_tunnels d.id d.server_ip ts)
  unfolding move_tunnels
  moved_tunnels nodes [] filled h = tt
  moved_tunnels nodes (t ∷ ts) filled h = (
    (
      rw (moved_in_id d.server_ip t, moved_in_ip d.server_ip t)
          (new_end t.in_node_id t.in_ip nodes filled h.0.0),
      rw (moved_out_id d.server_ip t, moved_out_ip d.server_ip t)
          (new_end t.out_node_id t.out_ip nodes filled h.0.1),
    ),
    moved_tunnels nodes ts filled h.1,
  )

  kept_tunnels :
      (old : Text) (nodes : List Node) (ts : List Tunnel)
      → address_of d.id nodes ≡ some old
      → new_name d.server_ip old ≡ old
      → HasAddresses nodes ts
      → HasAddresses (saved nodes) ts
  kept_tunnels old nodes [] there same h = tt
  kept_tunnels old nodes (t ∷ ts) there same h = (
    (
      kept_end t.in_node_id t.in_ip old nodes there same h.0.0,
      kept_end t.out_node_id t.out_ip old nodes there same h.0.1,
    ),
    kept_tunnels old nodes ts there same h.1,
  )

  unchanged_name :
      (s old : Text) → (not (is_empty s) && not (eq_text old s)) ≡ false → new_name s old ≡ old
  unchanged_name [] old h = refl
  unchanged_name (c ∷ s) old h = sym (eq_text→eq old (c ∷ s) (ground arith))

  -- An update of a node that the database carries out leaves every tunnel with the addresses of its
  -- nodes, when they had them before: a new address goes to the tunnels on both of their ends.
  pub update_node-HasAddresses :
      (w : World)
      → ((db : Db) → env.update_fails db ≡ false)
      → HasAddresses w.db.nodes w.db.tunnels
      → let after = (update_node env d w).1.db in HasAddresses after.nodes after.tunnels
  unfolding update_node get_node_by_id ◌>>=◌ modify_db write_node with_address save_node
  update_node-HasAddresses w writes h = elim (Option-cases (find (λ n. n.id == d.id) w.db.nodes)) [
    | inl missing ↦ rw missing h
    | inr (n, found) ↦
        let there = found-address d.id w.db.nodes n found in
        elim (Bool-cases (not (is_empty d.server_ip) && not (eq_text n.server_ip d.server_ip))) [
          | inl moved ↦
              rw (found, moved)
                (rw (writes _) (moved_tunnels w.db.nodes w.db.tunnels (ground arith) h))
          | inr same ↦
              rw (found, same)
                (rw (writes _) (
                  kept_tunnels n.server_ip w.db.nodes w.db.tunnels there
                    (unchanged_name d.server_ip n.server_ip same) h))
        ]
  ]
