-- ===== src/Links/Tunnels.antt =====
-- References under the operations on tunnels, permission rows and speed limits.
use flux_panel_v.Base.{
  is_some, ℕ, ◌≡◌, ◌≢◌, refl, ap, ◌∙◌, inl, inr, true, not, Option, none, some, List, [], ◌∷◌,
  arith, length, select, find, ltb, All, Bool-cases, Option-cases, ◌==◌,
}
use flux_panel_v.Model.{Forward, Tunnel, UserTunnel, Node, SpeedLimit}
use flux_panel_v.Store.{Db, World, Env, gets, ◌>>=◌, modify_db, fail_if}
use flux_panel_v.Store.Preserves.{
  Preserves, Preserves-pure, Preserves-refusal, Preserves-modify, Preserves-bind, preserving,
  bind-leads,
}
use flux_panel_v.Nodes.{add_limiters}
use flux_panel_v.Forward.{first_tunnel, first_user}
use flux_panel_v.Tunnels.{
  TunnelDto, TunnelUpdateDto, OrderItem, insert_tunnel, with_tunnel, create_tunnel, updated_tunnel,
  save_tunnel, write_tunnel, update_tunnel, set_inx, update_tunnel_order, count_forwards_on,
  remove_tunnel, delete_tunnel,
}
use flux_panel_v.UserTunnels.{
  UserTunnelDto, count_rows, new_user_tunnel, with_user_tunnel, insert_user_tunnel, limit_assigned,
  add_limiter_if, add_limiter_of, assign_user_tunnel,
}
use flux_panel_v.Links.{HasTunnel, IsLinked}
use flux_panel_v.Links.Tables.{
  select_rows-IsLinked, add_row-IsLinked, found-select, add_tunnel-IsLinked,
  update_tunnels-IsLinked,
}

pub create_tunnel-IsLinked : (env : Env) (d : TunnelDto) → Preserves IsLinked (create_tunnel env d)
unfolding create_tunnel insert_tunnel with_tunnel
create_tunnel-IsLinked env d =
    let last : (t : Tunnel) → Preserves IsLinked (insert_tunnel env t) =
      λ t. Preserves-refusal env.create_fails _ _ (λ w h. add_tunnel-IsLinked w.db t h) in
    search (preserving, last) depth 20

write_tunnel-IsLinked : (env : Env) (d : TunnelUpdateDto) → Preserves IsLinked (write_tunnel env d)
unfolding write_tunnel save_tunnel updated_tunnel
write_tunnel-IsLinked env d =
    Preserves-refusal env.update_fails _ _
      (λ w h. update_tunnels-IsLinked w.db (λ t. t.id == d.id) (updated_tunnel env d) (λ t. refl) h)

pub update_tunnel-IsLinked :
    (env : Env) (d : TunnelUpdateDto) → Preserves IsLinked (update_tunnel env d)
unfolding update_tunnel
update_tunnel-IsLinked env d = search (preserving, write_tunnel-IsLinked) depth 20

pub update_tunnel_order-IsLinked :
    (items : List OrderItem) → Preserves IsLinked (update_tunnel_order items)
unfolding update_tunnel_order set_inx
update_tunnel_order-IsLinked [] = Preserves-pure tt
update_tunnel_order-IsLinked (item ∷ items) =
    Preserves-bind _ _ (Preserves-modify _ (λ db h. update_tunnels-IsLinked db _ _ (λ t. refl) h))
      (λ a. update_tunnel_order-IsLinked items)

none_on :
    (id : ℕ) (fs : List Forward)
    → length (select (λ f. f.tunnel_id == id) fs) ≡ 0
    → All (λ f. f.tunnel_id ≢ id) fs
none_on id [] h = tt
none_on id (f ∷ fs) h = (ground arith, none_on id fs (ground arith))

elsewhere :
    (id : ℕ) (db : Db) (fs : List Forward)
    → All (λ f. HasTunnel db f.tunnel_id) fs
    → All (λ f. f.tunnel_id ≢ id) fs
    → All
        (λ f.
          is_some (find (λ t. t.id == f.tunnel_id) (select (λ t. not (t.id == id)) db.tunnels))
          ≡ true)
        fs
elsewhere id db [] h k = tt
elsewhere id db (f ∷ fs) h k =
    (found-select f.tunnel_id id db.tunnels k.0 ∙ h.0, elsewhere id db fs h.1 k.1)

elsewhere_rows :
    (id : ℕ) (db : Db) (uts : List UserTunnel)
    → All (λ ut. HasTunnel db ut.tunnel_id) uts
    → All
        (λ ut.
          is_some (find (λ t. t.id == ut.tunnel_id) (select (λ t. not (t.id == id)) db.tunnels))
          ≡ true)
        (select (λ ut. not (ut.tunnel_id == id)) uts)
elsewhere_rows id db [] h = tt
elsewhere_rows id db (ut ∷ uts) h = elim (Bool-cases (ut.tunnel_id == id)) [
  | inl own ↦ rw own (elsewhere_rows id db uts h.1)
  | inr other ↦
      rw other
        (found-select ut.tunnel_id id db.tunnels (ground arith) ∙ h.0, elsewhere_rows id db uts h.1)
]

remove_tunnel-IsLinked :
    (id : ℕ) (db : Db) → count_forwards_on id db ≡ 0 → IsLinked db → IsLinked (remove_tunnel id db)
unfolding remove_tunnel count_forwards_on count_rows
remove_tunnel-IsLinked id db e h =
    let rest = select_rows-IsLinked db (λ ut. not (ut.tunnel_id == id)) h in
    record {
      forwards = elsewhere id db db.forwards h.forwards (none_on id db.forwards e);
      user_tunnels = elsewhere_rows id db db.user_tunnels h.user_tunnels;
      single = rest.single;
    }

pub delete_tunnel-IsLinked : (id : ℕ) → Preserves IsLinked (delete_tunnel id)
unfolding delete_tunnel ◌>>=◌ fail_if modify_db
delete_tunnel-IsLinked id = record {
  after = λ w h. elim (Option-cases (first_tunnel id w.db)) [
    | inl missing ↦ rw missing h
    | inr (t, found) ↦ rw found (elim (Bool-cases (ltb 0 (count_forwards_on id w.db))) [
      | inl used ↦ rw used h
      | inr unused ↦ rw unused (remove_tunnel-IsLinked id w.db (ground arith) h)
    ])
  ];
}

-- The tables in which a permission row can be added.
abbrev IsReady : ℕ → ℕ → Db → Type 0
IsReady user_id tunnel_id db =
    IsLinked db × HasTunnel db tunnel_id × (count_rows user_id tunnel_id db ≡ 0)

module _ {P : Db → Type 0} (env : Env) where
  pub add_limiter-Preserves : (n : Option Node) (s : ℕ) → Preserves P (add_limiter_if env n s)
  unfolding add_limiter_if add_limiter_of add_limiters
  add_limiter-Preserves n s =
      let each : (n : Option Node) (x : Option SpeedLimit) (s : ℕ)
          → Preserves P (add_limiter_of env n x s) =
        λ n x s. limiter_of n x s in
      search (preserving, each) depth 20
    where
      limiter_of :
          (n : Option Node) (x : Option SpeedLimit) (s : ℕ) → Preserves P (add_limiter_of env n x s)
      limiter_of (some n) (some x) s = search preserving depth 20
      limiter_of (some n) none s = search preserving
      limiter_of none x s = search preserving

  limit_assigned-Preserves : (t : Tunnel) (s : Option ℕ) → Preserves P (limit_assigned env t s)
  unfolding limit_assigned
  limit_assigned-Preserves t none = search preserving
  limit_assigned-Preserves t (some s) = search (preserving, add_limiter-Preserves) depth 20

inserted-IsLinked :
    (env : Env) (d : UserTunnelDto) (v : World)
    → IsReady d.user_id d.tunnel_id v.db
    → IsLinked ((gets (new_user_tunnel env d) >>= insert_user_tunnel env) v).1.db
unfolding insert_user_tunnel with_user_tunnel new_user_tunnel ◌>>=◌
inserted-IsLinked env d v r = elim (Bool-cases (env.create_fails v.db)) [
  | inl refused ↦ rw refused r.0
  | inr done ↦ rw done (add_row-IsLinked v.db (new_user_tunnel env d v.db) r.1 r.2 r.0)
]

assigned-IsLinked :
    (env : Env) (d : UserTunnelDto) (t : Tunnel) (w : World)
    → IsReady d.user_id d.tunnel_id w.db
    → IsLinked
        ((limit_assigned env t d.speed_id >>= λ _.
            gets (new_user_tunnel env d) >>= insert_user_tunnel env)
          w).1.db
assigned-IsLinked env d t w h =
    bind-leads {P = IsReady d.user_id d.tunnel_id} IsLinked (limit_assigned env t d.speed_id)
      (λ _. gets (new_user_tunnel env d) >>= insert_user_tunnel env)
      (limit_assigned-Preserves env t d.speed_id) (λ db r. r.0)
      (λ a v r. inserted-IsLinked env d v r) w h

pub assign_user_tunnel-IsLinked :
    (env : Env) (d : UserTunnelDto) → Preserves IsLinked (assign_user_tunnel env d)
unfolding assign_user_tunnel first_tunnel
assign_user_tunnel-IsLinked env d = record {
  after = λ w h.
      unfold ◌>>=◌ fail_if in
      elim (Option-cases (first_user d.user_id w.db)) [
        | inl no_user ↦ rw no_user h
        | inr (u, user) ↦
            rw user (elim (Option-cases (find (λ t. t.id == d.tunnel_id) w.db.tunnels)) [
              | inl missing ↦ rw missing h
              | inr (t, found) ↦
                  rw found (elim (Bool-cases (ltb 0 (count_rows d.user_id d.tunnel_id w.db))) [
                    | inl again ↦ rw again h
                    | inr fresh ↦
                        rw fresh (assigned-IsLinked env d t w (h, ap is_some found, ground arith))
                  ])
            ])
      ];
}
