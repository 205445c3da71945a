-- ===== src/SpeedLimits.antt =====
-- The speed limits: go-backend/service/speed_limit.go.
use flux_panel_v.Base.{
  ℕ, Bool, false, not, Option, none, some, [], ◌∷◌, ◌++◌, Text, show_nat, length, select, find,
  update, ltb, ◌==◌, if◌then◌else◌,
}
use flux_panel_v.Model.{SpeedLimit, Tunnel, Node}
use flux_panel_v.Store.{
  Db, Env, ok, err, Notice, notice, Action, Act, pure, gets, check, or_err, ◌>>=◌, ◌>>◌, modify_db,
  fail_if,
}
use flux_panel_v.Nodes.{add_limiters, update_limiters, delete_limiters}
use flux_panel_v.Forward.{first_tunnel, get_node_by_id}

-- `dto.SpeedLimitDto` and `dto.SpeedLimitUpdateDto`
pub record SpeedLimitDto : Type 0 where
  pub name : Text
  pub speed : ℕ
  pub tunnel_id : ℕ

pub record SpeedLimitUpdateDto : Type 0 where
  pub id : ℕ
  pub name : Text
  pub speed : Option ℕ

unfoldable pub first_speed_limit : ℕ → Db → Option SpeedLimit
first_speed_limit id db = find (λ s. s.id == id) db.speed_limits

unfoldable pub new_speed_limit : Env → SpeedLimitDto → Tunnel → Db → SpeedLimit
new_speed_limit env d t db = record {
  id = env.next_speed_limit_id db.speed_limits;
  name = d.name;
  speed = d.speed;
  tunnel_id = d.tunnel_id;
  tunnel_name = t.name;
  created_time = env.now;
  updated_time = env.now;
  status = 1;
}

unfoldable pub insert_speed_limit : Env → SpeedLimit → Act
insert_speed_limit env s w =
    if env.create_fails w.db
    then (err (notice Notice.create_refused), w)
    else (ok tt, record w { db = record w.db { speed_limits = w.db.speed_limits ++ (s ∷ []) } })

-- `speed_id = ?`, which NULL never meets.
abbrev pub is_limit : ℕ → Option ℕ → Bool
is_limit id none = false
is_limit id (some s) = s == id

abbrev pub new_name : Text → Text → Text
new_name [] old = old
new_name (c ∷ s) old = c ∷ s

abbrev pub new_speed : Option ℕ → ℕ → ℕ
new_speed none old = old
new_speed (some x) old = x

-- `DB.Save` of a row that is there.
unfoldable pub save_speed_limit : SpeedLimit → Db → Db
save_speed_limit s db = record db {
  speed_limits = update (λ x. x.id == s.id) (λ x. s) db.speed_limits;
}

-- The entry node of the limit's tunnel, if both are there.
abbrev pub node_of_tunnel : Db → Option Tunnel → Option Node
node_of_tunnel db none = none
node_of_tunnel db (some t) = get_node_by_id t.in_node_id db

unfoldable pub limit_node : SpeedLimit → Db → Option Node
limit_node s db = node_of_tunnel db (first_tunnel s.tunnel_id db)

unfoldable pub count_uses : ℕ → Db → ℕ
count_uses id db = length (select (λ ut. is_limit id ut.speed_id) db.user_tunnels)

unfoldable pub remove_speed_limit : ℕ → Db → Db
remove_speed_limit id db = record db {
  speed_limits = select (λ s. not (s.id == id)) db.speed_limits;
}

module _ (env : Env) where
  unfoldable pub limiter_to : Option Node → SpeedLimit → Action Text
  limiter_to none s = pure []
  limiter_to (some n) s = add_limiters env n.id s.id (show_nat s.speed)

  unfoldable pub create_speed_limit : SpeedLimitDto → Action SpeedLimit
  create_speed_limit d = do
    t ← check (λ db. or_err (first_tunnel d.tunnel_id db) Notice.tunnel_missing)
    s ← gets (new_speed_limit env d t)
    insert_speed_limit env s
    n ← gets (get_node_by_id t.in_node_id)
    limiter_to n s
    pure s

  unfoldable pub updated_speed_limit : SpeedLimitUpdateDto → SpeedLimit → SpeedLimit
  updated_speed_limit d s = record s {
    name = new_name d.name s.name;
    speed = new_speed d.speed s.speed;
    updated_time = env.now;
  }

  unfoldable pub update_limiter_on : Option Node → SpeedLimit → Action Text
  update_limiter_on none s = pure []
  update_limiter_on (some n) s = update_limiters env n.id s.id (show_nat s.speed)

  unfoldable pub update_speed_limit : SpeedLimitUpdateDto → Act
  unfolding updated_speed_limit
  update_speed_limit d = do
    old ← check (λ db. or_err (first_speed_limit d.id db) Notice.speed_limit_missing)
    let s = updated_speed_limit d old
    modify_db (save_speed_limit s)
    n ← gets (limit_node s)
    update_limiter_on n s
    pure tt

  unfoldable pub remove_limiter_on : Option Node → SpeedLimit → Action Text
  remove_limiter_on none s = pure []
  remove_limiter_on (some n) s = delete_limiters env n.id s.id

  unfoldable pub delete_speed_limit : ℕ → Act
  delete_speed_limit id = do
    s ← check (λ db. or_err (first_speed_limit id db) Notice.speed_limit_missing)
    uses ← gets (count_uses id)
    fail_if (ltb 0 uses) (notice Notice.speed_limit_in_use)
    n ← gets (limit_node s)
    remove_limiter_on n s
    modify_db (remove_speed_limit id)
