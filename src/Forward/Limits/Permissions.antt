-- ===== src/Forward/Limits/Permissions.antt =====
-- Who may use a tunnel: the checks against what they are to mean.
use flux_panel_v.Base.{
  ℕ, ◌+◌, ◌*◌, ◌<◌, ◌≡◌, ◌≢◌, ◌⊎◌, inl, inr, ◌↔◌, false, Option, some, arith, All, All-find,
  Option-cases,
}
use flux_panel_v.Model.{User, Tunnel, UserTunnel}
use flux_panel_v.Store.{Db, Env, ok}
use flux_panel_v.Forward.{first_user, get_user_tunnel}
use flux_panel_v.Forward.Limits.{
  bytes_to_gb, is_expired, is_used_up, count_of_user, count_on_tunnel, check_forward_quota,
  check_user_permissions,
}

-- An expiry of 0 is none.
abbrev pub IsLive : Env → ℕ → Type 0
IsLive env exp = (exp ≡ 0) ⊎ (env.now < exp)

-- A limit of 0 GB is none.
abbrev pub HasTraffic : ℕ → ℕ → ℕ → Type 0
HasTraffic flow in_flow out_flow = (flow ≡ 0) ⊎ (in_flow + out_flow < flow * bytes_to_gb)

-- A limit of 0 forwards is none.
abbrev pub HasRoom : ℕ → ℕ → Type 0
HasRoom num count = (num ≡ 0) ⊎ (count < num)

-- The limit in bytes and the sum of the counters fit into an int64.
abbrev pub FitsInt64 : ℕ → ℕ → ℕ → Type 0
FitsInt64 flow in_flow out_flow =
    (flow * bytes_to_gb < 9223372036854775808) × (in_flow + out_flow < 9223372036854775808)

abbrev pub RowsFit : Db → Type 0
RowsFit db =
    All (λ u. FitsInt64 u.flow u.in_flow u.out_flow) db.users
    × All (λ ut. FitsInt64 ut.flow ut.in_flow ut.out_flow) db.user_tunnels

pub is_expired_iff : (env : Env) (exp : ℕ) → (is_expired env exp ≡ false) ↔ IsLive env exp
unfolding is_expired
is_expired_iff env exp = (λ h. ground arith, λ h. ground arith)

pub is_used_up_iff :
    (flow in_flow out_flow : ℕ)
    → FitsInt64 flow in_flow out_flow
    → (is_used_up flow in_flow out_flow ≡ false) ↔ HasTraffic flow in_flow out_flow
unfolding is_used_up
is_used_up_iff flow in_flow out_flow fits = (λ h. ground arith, λ h. ground arith)

pub check_forward_quota_iff :
    (user_id tunnel_id : ℕ) (ut : UserTunnel) (user : User) (exclude : Option ℕ) (db : Db)
    → (check_forward_quota user_id tunnel_id ut user exclude db ≡ ok tt) ↔ (
        HasRoom user.num (count_of_user user_id exclude db)
        × HasRoom ut.num (count_on_tunnel user_id tunnel_id exclude db))
unfolding check_forward_quota
check_forward_quota_iff user_id tunnel_id ut user exclude db =
    (λ h. (ground arith, ground arith), λ h. ground arith)

pub first_user_fits :
    (user_id : ℕ) (db : Db) {user : User}
    → RowsFit db
    → first_user user_id db ≡ some user
    → FitsInt64 user.flow user.in_flow user.out_flow
unfolding first_user
first_user_fits user_id db {user} fits e = All-find _ _ db.users {a = user} fits.0 e

pub get_user_tunnel_fits :
    (user_id tunnel_id : ℕ) (db : Db) {ut : UserTunnel}
    → RowsFit db
    → get_user_tunnel user_id tunnel_id db ≡ some ut
    → FitsInt64 ut.flow ut.in_flow ut.out_flow
unfolding get_user_tunnel
get_user_tunnel_fits user_id tunnel_id db {ut} fits e =
    All-find _ _ db.user_tunnels {a = ut} fits.1 e

-- A user who may put a forward on a tunnel, by the row of his permission: the account and the row
-- are live, the row is enabled, neither has used up its traffic, and neither has all its forwards.
pub record MayUse (env : Env) (user_id : ℕ) (t : Tunnel) (exclude : Option ℕ) (db : Db)
    (row : UserTunnel) : Type 0 where
  pub user : User
  pub user_exists : first_user user_id db ≡ some user
  pub row_exists : get_user_tunnel user_id t.id db ≡ some row
  pub user_live : IsLive env user.exp_time
  pub row_enabled : row.status ≡ 1
  pub row_live : IsLive env row.exp_time
  pub user_traffic : HasTraffic user.flow user.in_flow user.out_flow
  pub row_traffic : HasTraffic row.flow row.in_flow row.out_flow
  pub user_room : HasRoom user.num (count_of_user user_id exclude db)
  pub row_room : HasRoom row.num (count_on_tunnel user_id t.id exclude db)

-- What the checks tested, in the code's own terms.
record Passed (env : Env) (user_id : ℕ) (t : Tunnel) (exclude : Option ℕ) (db : Db)
    (row : UserTunnel) : Type 0 where
  user : User
  user_exists : first_user user_id db ≡ some user
  row_exists : get_user_tunnel user_id t.id db ≡ some row
  user_live : is_expired env user.exp_time ≡ false
  row_enabled : row.status ≡ 1
  row_live : is_expired env row.exp_time ≡ false
  user_traffic : is_used_up user.flow user.in_flow user.out_flow ≡ false
  row_traffic : is_used_up row.flow row.in_flow row.out_flow ≡ false
  quota : check_forward_quota user_id t.id row user exclude db ≡ ok tt

module _ (env : Env) (user_id role_id : ℕ) (t : Tunnel) (exclude : Option ℕ) (db : Db)
    (row : UserTunnel) (ordinary : role_id ≢ 0) where
  Passed-of_ok :
      (user : User)
      → first_user user_id db ≡ some user
      → check_user_permissions env user_id role_id t exclude db ≡ ok (row.speed_id, some row)
      → Passed env user_id t exclude db row
  Passed-of_ok user e h = record {
    user = user;
    user_exists = e;
    row_exists = unfold check_user_permissions in ground arith;
    user_live = unfold check_user_permissions in ground arith;
    row_enabled = unfold check_user_permissions in ground arith;
    row_live = unfold check_user_permissions in ground arith;
    user_traffic = unfold check_user_permissions in ground arith;
    row_traffic = unfold check_user_permissions in ground arith;
    quota = unfold check_user_permissions in ground arith;
  }

  ok_of_Passed :
      Passed env user_id t exclude db row
      → check_user_permissions env user_id role_id t exclude db ≡ ok (row.speed_id, some row)
  unfolding check_user_permissions
  ok_of_Passed p = ground arith

  -- `checkUserPermissions` of an ordinary user succeeds with a permission row and its limiter exactly
  -- when the user may use the tunnel by that row, as long as limits and counters fit into int64.
  pub check_user_permissions_iff :
      RowsFit db
      → (check_user_permissions env user_id role_id t exclude db ≡ ok (row.speed_id, some row))
        ↔ MayUse env user_id t exclude db row
  check_user_permissions_iff fits = (sound, complete)
    where
      use_of : Passed env user_id t exclude db row → MayUse env user_id t exclude db row
      use_of p =
          let quota = (check_forward_quota_iff user_id t.id row p.user exclude db).0 p.quota in
          record {
            user = p.user;
            user_exists = p.user_exists;
            row_exists = p.row_exists;
            user_live = (is_expired_iff env _).0 p.user_live;
            row_enabled = p.row_enabled;
            row_live = (is_expired_iff env _).0 p.row_live;
            user_traffic =
                (is_used_up_iff _ _ _ (first_user_fits user_id db fits p.user_exists)).0
                  p.user_traffic;
            row_traffic =
                (is_used_up_iff _ _ _ (get_user_tunnel_fits user_id t.id db fits p.row_exists)).0
                  p.row_traffic;
            user_room = quota.0;
            row_room = quota.1;
          }

      sound :
          check_user_permissions env user_id role_id t exclude db ≡ ok (row.speed_id, some row)
          → MayUse env user_id t exclude db row
      sound h = elim (Option-cases (first_user user_id db)) [
        | inl missing ↦ unfold check_user_permissions in ground arith
        | inr (user, e) ↦ use_of (Passed-of_ok user e h)
      ]

      complete :
          MayUse env user_id t exclude db row
          → check_user_permissions env user_id role_id t exclude db ≡ ok (row.speed_id, some row)
      complete m = ok_of_Passed (record {
        user = m.user;
        user_exists = m.user_exists;
        row_exists = m.row_exists;
        user_live = (is_expired_iff env _).1 m.user_live;
        row_enabled = m.row_enabled;
        row_live = (is_expired_iff env _).1 m.row_live;
        user_traffic =
            (is_used_up_iff _ _ _ (first_user_fits user_id db fits m.user_exists)).1 m.user_traffic;
        row_traffic =
            (is_used_up_iff _ _ _ (get_user_tunnel_fits user_id t.id db fits m.row_exists)).1
              m.row_traffic;
        quota =
            (check_forward_quota_iff user_id t.id row m.user exclude db).1
              (m.user_room, m.row_room);
      })
