-- ===== src/NodeRows/Creation.antt =====
-- The addresses that a new tunnel carries: `CreateTunnel` in go-backend/service/tunnel.go.
use flux_panel_v.Base.{
  ◌≡◌, refl, sym, ap, ◌∙◌, inl, inr, ℕ, Option, none, some, List, [], ◌∷◌, Text, Bool-cases,
  Option-cases, ◌==◌,
}
use flux_panel_v.Model.{Tunnel, Node}
use flux_panel_v.Store.{Db, World, Env, Msg, Result, ok, err, panic, continue, gets, ◌>>=◌, fail_if}
use flux_panel_v.Forward.{get_node_by_id}
use flux_panel_v.Tunnels.{
  TunnelDto, is_name_taken, exit_node, exit_of, new_tunnel, with_tunnel, insert_tunnel,
  create_tunnel,
}
use flux_panel_v.Tunnels.Listing.{All-append}
use flux_panel_v.NodeRows.Addresses.{
  address_of, IsAddressOf, HasAddresses, found-address, some_text,
}

known-address :
    (id : ℕ) (ip : Text) (nodes : List Node)
    → address_of id nodes ≡ some ip
    → IsAddressOf nodes id ip
known-address id ip nodes h a e = some_text ip a (sym h ∙ e)

ok_inj : (a b : ℕ × Text) → ok a ≡ ok b → a ≡ b
ok_inj a b e = cc

err_ok : {m : Msg} {a : ℕ × Text} → err m ≡ ok a → ⊥
err_ok e = cc

module _ (d : TunnelDto) (db : Db) where
  exit_node-address :
      (o : Option ℕ) (id : ℕ) (ip : Text)
      → exit_node d o db ≡ ok (id, ip)
      → address_of id db.nodes ≡ some ip
  unfolding exit_node get_node_by_id
  exit_node-address none id ip h = cc
  exit_node-address (some k) id ip h = elim (Bool-cases (k == d.in_node_id)) [
    | inl same ↦ absurd (err_ok (rw same at h))
    | inr two ↦ elim (Option-cases (get_node_by_id k db)) [
      | inl missing ↦ absurd (err_ok (rw (two, missing) at h))
      | inr (n, found) ↦
          let same : (k, n.server_ip) ≡ (id, ip) = ok_inj _ _ (rw (two, found) at h) in
          ap (λ (p : ℕ × Text). address_of p.0 db.nodes) (sym same)
          ∙ (found-address k db.nodes n found ∙ ap (λ (p : ℕ × Text). some p.1) same)
    ]
  ]

  exit_of-address :
      (n : Node) (id : ℕ) (ip : Text)
      → get_node_by_id d.in_node_id db ≡ some n
      → exit_of d n db ≡ ok (id, ip)
      → address_of id db.nodes ≡ some ip
  unfolding exit_of get_node_by_id
  exit_of-address n id ip found h = elim (Bool-cases (d.type == 2)) [
    | inl two ↦ exit_node-address d.out_node_id id ip (rw two at h)
    | inr one ↦
        let same : (d.in_node_id, n.server_ip) ≡ (id, ip) = ok_inj _ _ (rw one at h) in
        ap (λ (p : ℕ × Text). address_of p.0 db.nodes) (sym same)
        ∙ (found-address d.in_node_id db.nodes n found ∙ ap (λ (p : ℕ × Text). some p.1) same)
  ]

module _ (env : Env) (d : TunnelDto) where
  inserted-HasAddresses :
      (t : Tunnel) (w : World)
      → IsAddressOf w.db.nodes t.in_node_id t.in_ip
      → IsAddressOf w.db.nodes t.out_node_id t.out_ip
      → HasAddresses w.db.nodes w.db.tunnels
      → let after = (insert_tunnel env t w).1.db in HasAddresses after.nodes after.tunnels
  unfolding insert_tunnel with_tunnel
  inserted-HasAddresses t w h_in h_out h = elim (Bool-cases (env.create_fails w.db)) [
    | inl refused ↦ rw refused h
    | inr done ↦ rw done (All-append _ w.db.tunnels (t ∷ []) h ((h_in, h_out), tt))
  ]

  finished-HasAddresses :
      (n : Node) (r : Result (ℕ × Text)) (w : World)
      → get_node_by_id d.in_node_id w.db ≡ some n
      → exit_of d n w.db ≡ r
      → HasAddresses w.db.nodes w.db.tunnels
      → let after =
          (continue r (λ exit. gets (new_tunnel env d n exit) >>= insert_tunnel env) w).1.db in
        HasAddresses after.nodes after.tunnels
  unfolding new_tunnel get_node_by_id ◌>>=◌
  finished-HasAddresses n (ok (id, ip)) w found exit h =
      inserted-HasAddresses _ w
        (known-address d.in_node_id n.server_ip w.db.nodes
          (found-address d.in_node_id w.db.nodes n found))
        (known-address id ip w.db.nodes (exit_of-address d w.db n id ip found exit)) h
  finished-HasAddresses n (err m) w found exit h = h
  finished-HasAddresses n panic w found exit h = h

  -- Whatever `CreateTunnel` returns, every tunnel carries the addresses of its nodes afterwards, when
  -- they all did before.
  pub create_tunnel-HasAddresses :
      (w : World)
      → HasAddresses w.db.nodes w.db.tunnels
      → let after = (create_tunnel env d w).1.db in HasAddresses after.nodes after.tunnels
  unfolding create_tunnel ◌>>=◌ fail_if
  create_tunnel-HasAddresses w h = elim (Bool-cases (is_name_taken d.name w.db)) [
    | inl taken ↦ rw taken h
    | inr free ↦ elim (Option-cases (get_node_by_id d.in_node_id w.db)) [
      | inl missing ↦ rw (free, missing) h
      | inr (n, found) ↦ rw (free, found) (finished-HasAddresses n _ w found refl h)
    ]
  ]
