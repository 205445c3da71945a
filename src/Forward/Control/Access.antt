-- ===== src/Forward/Control/Access.antt =====
-- Who may resume, pause and delete a forward, and when a user's forward comes back.
use flux_panel_v.Base.{
  ℕ, ◌≡◌, ◌≢◌, ◌⊎◌, inl, inr, Option, some, arith, find-holds, Option-cases, ==_iff, ◌==◌,
}
use flux_panel_v.Model.{User, Forward, Tunnel, UserTunnel}
use flux_panel_v.Store.{Db, World, Env, ok}
use flux_panel_v.Store.Atomic.{check-ok, fail_if-ok, or_err-ok}
use flux_panel_v.Forward.{
  first_user, first_forward, first_tunnel, get_user_tunnel, validate_forward_exists,
}
use flux_panel_v.Forward.Limits.{check_user_flow_limits}
use flux_panel_v.Forward.Limits.Permissions.{
  IsLive, HasTraffic, RowsFit, is_expired_iff, is_used_up_iff, first_user_fits,
  get_user_tunnel_fits,
}
use flux_panel_v.Forward.Control.{
  check_user_enabled, resuming_user_tunnel, resume_forward, pause_forward, delete_forward,
}

-- A forward that is there, and that is the caller's unless he is the administrator.
pub record IsOwn (id user_id role_id : ℕ) (db : Db) (f : Forward) : Type 0 where
  pub exists : first_forward id db ≡ some f
  pub key : f.id ≡ id
  pub owner : (role_id ≡ 0) ⊎ (f.user_id ≡ user_id)

key_of_first : (id : ℕ) (db : Db) (f : Forward) → first_forward id db ≡ some f → f.id ≡ id
unfolding first_forward
key_of_first id db f e =
    (==_iff f.id id).0 (find-holds (λ (g : Forward). g.id == id) db.forwards {a = f} e)

pub validate-IsOwn :
    (id user_id role_id : ℕ) (db : Db) (f : Forward)
    → validate_forward_exists id user_id role_id db ≡ some f
    → IsOwn id user_id role_id db f
validate-IsOwn id user_id role_id db f e =
    let found : first_forward id db ≡ some f = unfold validate_forward_exists in ground arith in
    record {
      exists = found;
      key = key_of_first id db f found;
      owner = unfold validate_forward_exists in ground arith;
    }

-- What an ordinary user needs to bring a paused forward back.
pub record MayResume (env : Env) (id user_id : ℕ) (db : Db) : Type 0 where
  pub forward : Forward
  pub own : IsOwn id user_id 1 db forward
  pub tunnel : Tunnel
  pub tunnel_exists : first_tunnel forward.tunnel_id db ≡ some tunnel
  pub tunnel_active : tunnel.status ≡ 1
  pub user : User
  pub user_exists : first_user user_id db ≡ some user
  pub user_enabled : user.status ≢ 0
  pub user_live : IsLive env user.exp_time
  pub user_traffic : HasTraffic user.flow user.in_flow user.out_flow
  pub row : UserTunnel
  pub row_exists : get_user_tunnel user_id tunnel.id db ≡ some row
  pub row_enabled : row.status ≡ 1
  pub row_live : IsLive env row.exp_time
  pub row_traffic : HasTraffic row.flow row.in_flow row.out_flow

module _ (env : Env) (id user_id role_id : ℕ) (db : Db) (ordinary : role_id ≢ 0)
    (fits : RowsFit db) where
  resume_of_checks :
      (f : Forward) (t : Tunnel) (ut : Option UserTunnel)
      → IsOwn id user_id role_id db f
      → first_tunnel f.tunnel_id db ≡ some t
      → t.status ≡ 1
      → check_user_enabled user_id role_id db ≡ ok tt
      → resuming_user_tunnel env user_id role_id f t db ≡ ok ut
      → MayResume env id user_id db
  resume_of_checks f t ut own tunnel active enabled resuming =
      elim (Option-cases (first_user user_id db)) [
        | inl missing ↦ unfold check_user_enabled in ground arith
        | inr (user, eu) ↦ elim (Option-cases (get_user_tunnel user_id t.id db)) [
          | inl missing ↦ unfold resuming_user_tunnel in ground arith
          | inr (row, er) ↦
              let limits : check_user_flow_limits env user_id t db ≡ ok tt =
                unfold resuming_user_tunnel in ground arith in
              record {
                forward = f;
                own = record { exists = own.exists; key = own.key; owner = ground arith };
                tunnel = t;
                tunnel_exists = tunnel;
                tunnel_active = active;
                user = user;
                user_exists = eu;
                user_enabled = unfold check_user_enabled in ground arith;
                user_live =
                    (is_expired_iff env user.exp_time).0
                      (unfold check_user_flow_limits in ground arith);
                user_traffic =
                    (is_used_up_iff user.flow user.in_flow user.out_flow
                        (first_user_fits user_id db fits eu)).0
                      (unfold check_user_flow_limits in ground arith);
                row = row;
                row_exists = er;
                row_enabled = unfold resuming_user_tunnel in ground arith;
                row_live =
                    (is_expired_iff env row.exp_time).0
                      (unfold check_user_flow_limits in ground arith);
                row_traffic =
                    (is_used_up_iff row.flow row.in_flow row.out_flow
                        (get_user_tunnel_fits user_id t.id db fits er)).0
                      (unfold check_user_flow_limits in ground arith);
              }
        ]
      ]

-- A resumption by an ordinary user that succeeds was due to him: the forward is his, its tunnel is
-- active, his account and his permission row are enabled, live and have traffic left, as long as
-- limits and counters fit into int64.
pub resume_forward-MayResume :
    (env : Env) (id user_id role_id : ℕ) (w v : World)
    → role_id ≢ 0
    → RowsFit w.db
    → resume_forward env id user_id role_id w ≡ (ok tt, v)
    → MayResume env id user_id w.db
unfolding resume_forward
resume_forward-MayResume env id user_id role_id w v ordinary fits e =
    let c1 = check-ok _ _ w e in
    let c2 = check-ok _ _ w c1.rest in
    let c3 = check-ok _ _ w c2.rest in
    let c4 = fail_if-ok _ _ _ w c3.rest in
    let c5 = check-ok _ _ w c4.1 in
    resume_of_checks env id user_id role_id w.db ordinary fits c2.value c3.value c5.value
      (validate-IsOwn id user_id role_id w.db c2.value (or_err-ok _ _ c2.returned))
      (or_err-ok _ _ c3.returned) (ground arith) c1.returned c5.returned

-- A pause that succeeds was of a forward that is there, and of the caller's own unless he is the
-- administrator.
pub pause_forward-IsOwn :
    (env : Env) (id user_id role_id : ℕ) (w v : World)
    → pause_forward env id user_id role_id w ≡ (ok tt, v)
    → (f : Forward) × IsOwn id user_id role_id w.db f
unfolding pause_forward
pause_forward-IsOwn env id user_id role_id w v e =
    let c1 = check-ok _ _ w e in
    let c2 = check-ok _ _ w c1.rest in
    (c2.value, validate-IsOwn id user_id role_id w.db c2.value (or_err-ok _ _ c2.returned))

-- A deletion that succeeds was of a forward that is there, and of the caller's own unless he is the
-- administrator.
pub delete_forward-IsOwn :
    (env : Env) (id user_id role_id : ℕ) (w v : World)
    → delete_forward env id user_id role_id w ≡ (ok tt, v)
    → (f : Forward) × IsOwn id user_id role_id w.db f
unfolding delete_forward
delete_forward-IsOwn env id user_id role_id w v e =
    let c1 = check-ok _ _ w e in
    (c1.value, validate-IsOwn id user_id role_id w.db c1.value (or_err-ok _ _ c1.returned))
