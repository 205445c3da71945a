-- ===== src/Forward/Create/Admission.antt =====
-- The checks of `CreateForward`, and the whole handler.
use flux_panel_v.Base.{
  ℕ, ◌≡◌, ◌≢◌, refl, sym, subst, ◌∙◌, ◌⊎◌, inl, inr, Option, none, some, arith, Text, Bool-cases,
}
use flux_panel_v.Model.{Tunnel, UserTunnel}
use native.Mathlib.Decide.{ℕ_discrete}
use flux_panel_v.Store.{Db, World, Env, Result, ok, err, panic, Msg, continue, ◌>>=◌}
use flux_panel_v.Store.Atomic.{
  Commits, unchanged, commit_rules, EndsWith, check-ok, lift-ok, fail_if-ok, or_err-ok, pure-ok,
}
use flux_panel_v.Forward.{first_tunnel}
use flux_panel_v.Forward.Ports.{allocate_ports}
use flux_panel_v.Forward.Ports.Allocation.{IsAllocated, allocate_ports-IsAllocated}
use flux_panel_v.Forward.Limits.{check_user_permissions, check_forward_quota}
use flux_panel_v.Forward.Limits.Permissions.{RowsFit, MayUse, check_user_permissions_iff}
use flux_panel_v.Forward.Ssrf.{Net, validate_remote_addr}
use flux_panel_v.Forward.Ssrf.Hosts.{validate-ne-panic}
use flux_panel_v.Forward.Create.{
  ForwardDto, check_node_access, new_forward, insert_forward, Admitted, admit, place,
  create_forward,
}
use flux_panel_v.Forward.Create.Outcome.{IsFresh, FinishEnds, finish-Ends}

-- The administrator, or an ordinary user who may use the tunnel by the row that was found.
abbrev pub IsPermitted : Env → ℕ → ℕ → Db → Admitted → Type 0
IsPermitted env user_id role_id db a =
    (role_id ≡ 0)
    ⊎ ((row : UserTunnel) × (a.limiter ≡ row.speed_id)
        × (a.user_tunnel ≡ some row)
        × MayUse env user_id a.tunnel none db row)

pub record IsAdmitted (env : Env) (net : Net) (d : ForwardDto) (user_id role_id : ℕ) (db : Db)
    (a : Admitted) : Type 0 where
  pub addresses : validate_remote_addr net d.remote_addr role_id ≡ ok tt
  pub tunnel_exists : first_tunnel d.tunnel_id db ≡ some a.tunnel
  pub tunnel_active : a.tunnel.status ≡ 1
  pub access : check_node_access user_id role_id a.tunnel db ≡ ok tt
  pub permitted : IsPermitted env user_id role_id db a
  pub ports : IsAllocated a.tunnel d.in_port none db a.ports

module _ (env : Env) (user_id role_id : ℕ) (t : Tunnel) (db : Db) where
  permission_row :
      (limiter : Option ℕ) (ut : Option UserTunnel)
      → role_id ≢ 0
      → check_user_permissions env user_id role_id t none db ≡ ok (limiter, ut)
      → (row : UserTunnel) × (limiter ≡ row.speed_id) × (ut ≡ some row)
  unfolding check_user_permissions
  permission_row limiter none h e = absurd (ground arith)
  permission_row limiter (some row) h e = (row, ground arith, refl)

  IsPermitted-of :
      (limiter : Option ℕ) (ut : Option UserTunnel) (ports : ℕ × ℕ)
      → RowsFit db
      → check_user_permissions env user_id role_id t none db ≡ ok (limiter, ut)
      → IsPermitted env user_id role_id db
          (record { tunnel = t; limiter = limiter; user_tunnel = ut; ports = ports })
  IsPermitted-of limiter ut ports fits e = elim (ℕ_discrete role_id 0) [
    | yes admin ↦ inl admin
    | no ordinary ↦
        let (row, l, u) = permission_row limiter ut ordinary e in
        let e' : check_user_permissions env user_id role_id t none db
            ≡ ok (row.speed_id, some row) =
          e ∙ cc in
        inr (
          row,
          l,
          u,
          (check_user_permissions_iff env user_id role_id t none db row ordinary fits).0 e',
        )
  ]

admit-IsAdmitted :
    (env : Env) (net : Net) (d : ForwardDto) (user_id role_id : ℕ) (w v : World) (a : Admitted)
    → RowsFit w.db
    → admit env net d user_id role_id w ≡ (ok a, v)
    → IsAdmitted env net d user_id role_id w.db a
unfolding admit
admit-IsAdmitted env net d user_id role_id w v a fits e =
    let c1 = lift-ok _ _ w e in
    let c2 = check-ok _ _ w c1.rest in
    let c3 = fail_if-ok _ _ _ w c2.rest in
    let c4 = check-ok _ _ w c3.1 in
    let c5 = check-ok _ _ w c4.rest in
    let c6 = check-ok _ _ w c5.rest in
    let c7 = pure-ok _ w c6.rest in
    subst (IsAdmitted env net d user_id role_id w.db) c7.0 (record {
      addresses = ground arith;
      tunnel_exists = or_err-ok _ _ c2.returned;
      tunnel_active = ground arith;
      access = ground arith;
      permitted =
          IsPermitted-of env user_id role_id c2.value w.db c5.value.0 c5.value.1 c6.value fits
            c5.returned;
      ports =
          allocate_ports-IsAllocated c2.value d.in_port none w.db c6.value.0 c6.value.1 c6.returned;
    })

-- How `CreateForward` ends: a refusal that changes no table, or, after everything was checked, one
-- of the ends of `FinishEnds` for the new row.
pub data CreateEnds (env : Env) (net : Net) (d : ForwardDto) (user_id role_id : ℕ)
    (user_name : Text) (db : Db) : Result (Unit {0}) × World → Type 0 where
  turned_away :
      {r : Result (Unit {0}) × World} {m : Msg}
      → r.0 ≡ err m
      → r.1.db ≡ db
      → CreateEnds env net d user_id role_id user_name db r
  admitted :
      {r : Result (Unit {0}) × World} (a : Admitted)
      → IsAdmitted env net d user_id role_id db a
      → FinishEnds (new_forward env d user_id user_name a.ports db) db r
      → CreateEnds env net d user_id role_id user_name db r

check_node_access-ne-panic :
    (user_id role_id : ℕ) (t : Tunnel) (db : Db) → check_node_access user_id role_id t db ≢ panic
unfolding check_node_access
check_node_access-ne-panic user_id role_id t db = ground arith

check_user_permissions-ne-panic :
    (env : Env) (user_id role_id : ℕ) (t : Tunnel) (exclude : Option ℕ) (db : Db)
    → check_user_permissions env user_id role_id t exclude db ≢ panic
unfolding check_user_permissions check_forward_quota
check_user_permissions-ne-panic env user_id role_id t exclude db = ground arith

allocate_ports-ne-panic :
    (t : Tunnel) (specified exclude : Option ℕ) (db : Db)
    → allocate_ports t specified exclude db ≢ panic
unfolding allocate_ports
allocate_ports-ne-panic t none exclude db = ground arith
allocate_ports-ne-panic t (some p) exclude db = ground arith

admit-EndsWith :
    (env : Env) (net : Net) (d : ForwardDto) (user_id role_id : ℕ) (w : World)
    → EndsWith unchanged w.db (admit env net d user_id role_id w)
unfolding admit
admit-EndsWith env net d user_id role_id w =
    let c : Commits w.db unchanged (admit env net d user_id role_id) =
      search
        (
          commit_rules, validate-ne-panic, check_node_access-ne-panic,
          check_user_permissions-ne-panic, allocate_ports-ne-panic,
        )
        depth 20 in
    c.at w refl

module _ (env : Env) (net : Net) (d : ForwardDto) (user_id role_id : ℕ) (user_name : Text) where
  place-Ends :
      (a : Admitted) (v : World)
      → IsAdmitted env net d user_id role_id v.db a
      → IsFresh (env.next_id v.db.forwards) v.db.forwards
      → CreateEnds env net d user_id role_id user_name v.db (place env d user_id user_name a v)
  unfolding place insert_forward ◌>>=◌ new_forward
  place-Ends a v adm fresh = elim (Bool-cases (env.create_fails v.db)) [
    | inl refused ↦ rw refused (turned_away refl refl)
    | inr done ↦ rw done (
        admitted a adm (
          finish-Ends env (new_forward env d user_id user_name a.ports v.db) a.tunnel a.limiter
            a.user_tunnel _ v.db _ refl fresh refl))
  ]

  Ends_of_run :
      (db : Db) (r : Result Admitted) (v : World)
      → EndsWith unchanged db (r, v)
      → ((a : Admitted) → r ≡ ok a → IsAdmitted env net d user_id role_id db a)
      → IsFresh (env.next_id db.forwards) db.forwards
      → CreateEnds env net d user_id role_id user_name db
          (continue r (place env d user_id user_name) v)
  Ends_of_run db (ok a) v e adm fresh =
      subst
        (λ b. CreateEnds env net d user_id role_id user_name b (place env d user_id user_name a v))
        e
        (place-Ends a v (subst (λ b. IsAdmitted env net d user_id role_id b a) (sym e) (adm a refl))
          (subst (λ (b : Db). IsFresh (env.next_id b.forwards) b.forwards) (sym e) fresh))
  Ends_of_run db (err m) v e adm fresh = turned_away refl e
  Ends_of_run db panic v e adm fresh = absurd e

  -- Where the database gives new keys and limits and counters fit into int64, `CreateForward` never
  -- panics. A refusal before the insertion, or of the insertion, changes no table. Otherwise the
  -- addresses, the tunnel, the node access, the permissions and the ports were all in order, and the
  -- tables get exactly the new row, active, on success, or in the error state where a node's answer is
  -- passed on, or nothing, where a node is missing.
  pub create_forward-Ends :
      (w : World)
      → IsFresh (env.next_id w.db.forwards) w.db.forwards
      → RowsFit w.db
      → CreateEnds env net d user_id role_id user_name w.db
          (create_forward env net d user_id role_id user_name w)
  unfolding create_forward ◌>>=◌
  create_forward-Ends w fresh fits =
      let run = admit env net d user_id role_id w in
      Ends_of_run w.db run.0 run.1 (admit-EndsWith env net d user_id role_id w)
        (λ a e. admit-IsAdmitted env net d user_id role_id w run.1 a fits (cc)) fresh
