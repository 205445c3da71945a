-- ===== src/Forward/Update/Plan.antt =====
-- The checks of `UpdateForward`.
use flux_panel_v.Base.{
  ℕ, ◌≡◌, ◌≢◌, ◌⊎◌, refl, inl, inr, Option, none, some, arith, Bool-cases, subst, ◌==◌,
}
use flux_panel_v.Model.{Forward, Tunnel, UserTunnel}
use flux_panel_v.Store.{Db, World, Env, ok}
use flux_panel_v.Store.Atomic.{check-ok, lift-ok, fail_if-ok, or_err-ok, pure-ok}
use flux_panel_v.Forward.{first_tunnel, get_required_nodes}
use flux_panel_v.Forward.Ports.Allocation.{IsAllocated, allocate_ports-IsAllocated}
use flux_panel_v.Forward.Limits.{check_user_permissions}
use flux_panel_v.Forward.Ssrf.{Net, validate_remote_addr}
use flux_panel_v.Forward.Control.Access.{IsOwn, validate-IsOwn}
use flux_panel_v.Forward.Update.{
  ForwardUpdateDto, Planned, plan_update, choose_ports, check_move, updated_forward, is_other_port,
}

-- The ports stay, because neither the tunnel nor the entry port changes, or they are allocated.
abbrev pub HasPorts : ForwardUpdateDto → Forward → Tunnel → Db → ℕ × ℕ → Type 0
HasPorts d old t db ports =
    ((old.tunnel_id ≡ d.tunnel_id) × (ports ≡ (old.in_port, old.out_port)))
    ⊎ IsAllocated t d.in_port (some d.id) db ports

choose_ports-HasPorts :
    (env : Env) (d : ForwardUpdateDto) (old : Forward) (t : Tunnel) (db : Db) (ports : ℕ × ℕ)
    → choose_ports env d old t db ≡ ok ports
    → HasPorts d old t db ports
unfolding choose_ports
choose_ports-HasPorts env d old t db (a, b) e = elim (Bool-cases (old.tunnel_id == d.tunnel_id)) [
  | inl same ↦ elim (Bool-cases (is_other_port env d.in_port old.in_port)) [
    | inl other ↦ inr (allocate_ports-IsAllocated t d.in_port (some d.id) db a b (ground arith))
    | inr kept ↦ inl (ground arith, ground arith)
  ]
  | inr moved ↦ inr (allocate_ports-IsAllocated t d.in_port (some d.id) db a b (ground arith))
]

-- A plan that the checks let through.
pub record IsPlanned (net : Net) (env : Env) (d : ForwardUpdateDto) (user_id role_id : ℕ) (db : Db)
    (p : Planned) : Type 0 where
  pub own : IsOwn d.id user_id role_id db p.old
  pub owner_stays : p.new.user_id ≡ p.old.user_id
  pub key_stays : p.new.id ≡ d.id
  pub tunnel_stays : p.new.tunnel_id ≡ d.tunnel_id
  pub target : validate_remote_addr net d.remote_addr role_id ≡ ok tt
  pub tunnel : Tunnel
  pub tunnel_exists : first_tunnel d.tunnel_id db ≡ some tunnel
  pub tunnel_active : tunnel.status ≡ 1
  pub nodes : get_required_nodes tunnel db ≡ ok (p.in_node, p.out_node)
  pub ports : HasPorts d p.old tunnel db (p.new.in_port, p.new.out_port)
  -- a forward that stays on its tunnel is planned without a speed limiter, whoever calls
  pub unlimited_stay : p.old.tunnel_id ≡ d.tunnel_id → p.limiter ≡ none
  -- a move by an ordinary user passes the limits that a creation passes
  pub permitted_move :
      p.old.tunnel_id ≢ d.tunnel_id
      → role_id ≢ 0
      → (ut : Option UserTunnel) × (check_user_permissions env user_id role_id tunnel (some d.id) db
          ≡ ok (p.limiter, ut))

module _ (env : Env) (d : ForwardUpdateDto) (user_id role_id : ℕ) (old : Forward) (t : Tunnel)
    (db : Db) (l : Option ℕ) (ut : Option UserTunnel)
    (e : check_move env d user_id role_id old t db ≡ ok (l, ut)) where
  stay-unlimited : old.tunnel_id ≡ d.tunnel_id → l ≡ none
  unfolding check_move
  stay-unlimited same = ground arith

  move-permitted :
      old.tunnel_id ≢ d.tunnel_id
      → role_id ≢ 0
      → (ut : Option UserTunnel) × (check_user_permissions env user_id role_id t (some d.id) db
          ≡ ok (l, ut))
  unfolding check_move
  move-permitted moved ordinary = (ut, ground arith)

-- An update goes through its checks only for a forward that is there and is the caller's own unless
-- he is the administrator, with a target that the address check lets through, on a tunnel that is
-- active and whose nodes exist; the owner and the key stay; the ports stay or are allocated on the
-- nodes, the forward's own ports not counted; an ordinary user's move to another tunnel passes
-- the limits that a creation there passes; and a forward that stays on its tunnel gets no speed
-- limiter, whatever its owner's permission row says.
pub plan_update-IsPlanned :
    (net : Net) (env : Env) (d : ForwardUpdateDto) (user_id role_id : ℕ) (w v : World) (p : Planned)
    → plan_update env net d user_id role_id w ≡ (ok p, v)
    → IsPlanned net env d user_id role_id w.db p
unfolding plan_update updated_forward
plan_update-IsPlanned net env d user_id role_id w v p e =
    let c1 = check-ok _ _ w e in
    let c2 = lift-ok _ _ w c1.rest in
    let c3 = check-ok _ _ w c2.rest in
    let c4 = check-ok _ _ w c3.rest in
    let c5 = fail_if-ok _ _ _ w c4.rest in
    let c6 = check-ok _ _ w c5.1 in
    let c7 = check-ok _ _ w c6.rest in
    let c8 = check-ok _ _ w c7.rest in
    let c9 = check-ok _ _ w c8.rest in
    let c10 = pure-ok _ w c9.rest in
    subst (IsPlanned net env d user_id role_id w.db) c10.0 (record {
      own = validate-IsOwn d.id user_id role_id w.db c3.value (or_err-ok _ _ c3.returned);
      owner_stays = refl;
      key_stays = refl;
      tunnel_stays = refl;
      target = c2.returned;
      tunnel = c4.value;
      tunnel_exists = or_err-ok _ _ c4.returned;
      tunnel_active = ground arith;
      nodes = c9.returned;
      ports = choose_ports-HasPorts env d c3.value c4.value w.db c8.value c8.returned;
      unlimited_stay =
          stay-unlimited env d user_id role_id c3.value c4.value w.db c6.value.0 c6.value.1
            c6.returned;
      permitted_move =
          move-permitted env d user_id role_id c3.value c4.value w.db c6.value.0 c6.value.1
            c6.returned;
    })
