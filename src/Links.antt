-- ===== src/Links.antt =====
-- References between the tables: forwards and permission rows name tunnels, and a user has one
-- permission row on a tunnel.
pub mod Tables
pub mod Forwards
pub mod Tunnels
pub mod Rows
pub mod Control
pub mod Tasks
pub mod Daily
pub mod Limits
pub mod Nodes
pub mod Reconcile
pub mod Panel
pub mod Enforced
use flux_panel_v.Base.{
  is_some, ℕ, ◌≡◌, ◌≤◌, Bool, true, false, Option, none, some, List, find, All, ◌==◌,
}
use flux_panel_v.Model.{Forward, UserTunnel}
use flux_panel_v.Store.{Db}
use flux_panel_v.UserTunnels.{count_rows}

abbrev pub HasTunnel : Db → ℕ → Type 0
HasTunnel db id = is_some (find (λ t. t.id == id) db.tunnels) ≡ true

-- Every forward and every permission row is on a tunnel that exists, and no user has two rows on one
-- tunnel.
pub record IsLinked (db : Db) : Type 0 where
  pub forwards : All (λ f. HasTunnel db f.tunnel_id) db.forwards
  pub user_tunnels : All (λ ut. HasTunnel db ut.tunnel_id) db.user_tunnels
  pub single : (user_id tunnel_id : ℕ) → count_rows user_id tunnel_id db ≤ 1
