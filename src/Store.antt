-- ===== src/Store.antt =====
-- The panel's state and the way its handlers run: the tables, the commands sent to the nodes, and
-- results with early returns. A query is a function of the rows in primary-key order: `First` takes
-- the first row that fits, `Find` all of them, `Count` their number, `Update` changes those that fit.
pub mod Atomic
pub mod Preserves
pub mod Elsewhere
use flux_panel_v.Base.{
  ℕ, Bool, true, false, not, Option, none, some, List, [], ◌∷◌, ◌++◌, Text, ◌==◌, if◌then◌else◌,
}
use flux_panel_v.Model.{User, Forward, Tunnel, UserTunnel, Node, UserNode, SpeedLimit}
use flux_panel_v.Gost.{ServiceConfig, ChainData, LimiterData, Forwarder}

pub record Db : Type 0 where
  pub users : List User
  pub forwards : List Forward
  pub tunnels : List Tunnel
  pub user_tunnels : List UserTunnel
  pub nodes : List Node
  pub user_nodes : List UserNode
  pub speed_limits : List SpeedLimit

-- A message to a node: its `type` with its `data`.
pub data Command : Type 0 where
  add_limiters : LimiterData → Command
  update_limiters : Text → LimiterData → Command
  delete_limiters : Text → Command
  add_service update_service : List ServiceConfig → Command
  update_forwarder : List (Text × Forwarder) → Command
  delete_service pause_service resume_service : List Text → Command
  add_chains : ChainData → Command
  update_chains : Text → ChainData → Command
  delete_chains : Text → Command
  set_protocol : ℕ → ℕ → ℕ → Command
  get_service_names : Command

pub record Sent : Type 0 where
  pub node : ℕ
  pub command : Command

-- `sent` has the newest message first.
pub record World : Type 0 where
  pub db : Db
  pub sent : List Sent

-- What the handlers do not decide. `reply` is the `Msg` of the answer to the newest message, an
-- answer that may depend on all messages before it ("节点不在线" of a node with no session, and the
-- timeout's text, are such answers); `create_fails` and the like say that the database refuses a
-- write, and `next_id` and the like are the keys that it
-- gives to a new forward, tunnel, node, permission row and speed limit.
pub record Env : Type 0 where
  pub now : ℕ
  pub reply : List Sent → Text
  pub is_node_online : ℕ → Bool
  pub next_id : List Forward → ℕ
  pub next_tunnel_id : List Tunnel → ℕ
  pub next_node_id : List Node → ℕ
  pub next_user_tunnel_id : List UserTunnel → ℕ
  pub next_speed_limit_id : List SpeedLimit → ℕ
  pub create_fails : Db → Bool
  pub update_fails : Db → Bool
  pub delete_fails : Db → Bool

-- The texts of `dto.Err`, named by what they say.
pub data Notice : Type 0 where
  user_missing user_disabled account_expired : Notice
  tunnel_missing tunnel_disabled old_tunnel_missing : Notice
  no_tunnel_permission user_tunnel_disabled user_tunnel_expired owner_permission_missing : Notice
  user_flow_used tunnel_flow_used user_forwards_full tunnel_forwards_full : Notice
  in_node_missing out_node_missing no_in_node_access no_out_node_access : Notice
  in_port_unavailable in_ports_full out_ports_full : Notice
  forward_missing private_address : Notice
  create_refused update_refused delete_refused : Notice
  tunnel_name_taken exit_node_required same_nodes tunnel_has_forwards : Notice
  tunnel_permission_exists tunnel_permission_missing : Notice
  speed_limit_missing speed_limit_in_use : Notice
  port_range_empty node_missing : Notice
  forwards_parameter_missing forwards_malformed forwards_empty not_own_order : Notice
  pause_failed pause_remote_failed resume_failed resume_remote_failed new_config_failed : Notice

pub data Msg : Type 0 where
  -- a fixed text, one with a number in it, one with a text in it, and a node's answer passed on
  notice : Notice → Msg
  notice_num : Notice → ℕ → Msg
  notice_text : Notice → Text → Msg
  relayed : Text → Msg

-- `panic` is a nil dereference.
pub data Result (A : Type 0) : Type 0 where
  ok : A → Result A
  err : Msg → Result A
  panic : Result A

abbrev pub Action : Type 0 → Type 0
Action A = World → Result A × World

module _ {A : Type 0} where
  pub pure : A → Action A
  pure a w = (ok a, w)

  pub fail : Msg → Action A
  fail m w = (err m, w)

  pub lift : Result A → Action A
  lift r w = (r, w)

  pub gets : (Db → A) → Action A
  gets f w = (ok (f w.db), w)

  -- A check that reads the tables and may end the handler.
  pub check : (Db → Result A) → Action A
  check f w = (f w.db, w)

abbrev pub or_err : {A : Type 0} → Option A → Notice → Result A
or_err none n = err (notice n)
or_err (some a) n = ok a

module _ {A B : Type 0} where
  abbrev pub continue : Result A → (A → Action B) → Action B
  continue (ok a) f w = f a w
  continue (err m) f w = (err m, w)
  continue panic f w = (panic, w)

  infixl 10 ◌>>=◌ ◌>>◌
  -- Opening this opens `pure`, `fail`, `lift`, `gets` and `check` too.
  unfoldable pub ◌>>=◌ : Action A → (A → Action B) → Action B
  unfolding pure fail lift gets check
  ◌>>=◌ m f w = let (r, v) = m w in continue r f v

  abbrev pub ◌>>◌ : Action A → Action B → Action B
  m >> n = m >>= λ _. n

-- A chain of checks outside the monad.
abbrev pub bind_result : {A B : Type 0} → Result A → (A → Result B) → Result B
bind_result (ok a) f = f a
bind_result (err m) f = err m
bind_result panic f = panic

abbrev pub Act : Type 0
Act = Action (Unit {0})

-- A write to the tables.
unfoldable pub modify_db : (Db → Db) → Act
modify_db f w = (ok tt, record w { db = f w.db })

-- `if b { return dto.Err(m) }`
unfoldable pub fail_if : Bool → Msg → Act
fail_if b m w = (if b then err m else ok tt, w)

-- `WS.SendMsg`: the message goes out, and the answer's `Msg` comes back.
unfoldable pub send : Env → ℕ → Command → Action Text
send env node command w =
    let sent = record { node = node; command = command } ∷ w.sent in
    (ok (env.reply sent), record w { sent = sent })
