-- ===== src/Flow.antt =====
-- Traffic reports: the accounting and the enforcement of limits in go-backend/service/flow.go.

pub mod Pausing
pub mod Enforcement
pub mod Runs
pub mod Accounts
pub mod Reports
pub mod Names
pub mod Charges
use flux_panel_v.Base.{
  signed, ℕ, ◌+◌, ◌*◌, Bool, true, false, not, ◌&&◌, ◌||◌, Option, none, some, List, [], ◌∷◌, Text,
  codes, split, eq_text, select, find, update, ltb, leb, ◌==◌, if◌then◌else◌,
}
use flux_panel_v.Model.{one_float, pos, eq_ℤ, User, Forward, Tunnel, UserTunnel}
use flux_panel_v.Store.{Db, World, Env, Action, Act, pure, gets, ◌>>=◌, ◌>>◌, modify_db}
use flux_panel_v.Nodes.{pause_service, pause_service_multi_ip, pause_remote_service}
use flux_panel_v.Forward.{
  is_tunnel_forward, first_forward, first_tunnel, first_user, get_user_tunnel, build_service_name,
}
use flux_panel_v.Forward.Limits.{bytes_to_gb, is_expired, is_used_up}
use flux_panel_v.Forward.Services.{is_multi_ip}
use flux_panel_v.Forward.Create.{set_status}

-- `dto.FlowDto`: a service's name, and the bytes up and down that its node counted, which are not
-- negative.
pub record FlowDto : Type 0 where
  pub n : Text
  pub u : ℕ
  pub d : ℕ

-- Go's float64 on bit patterns, as far as the accounting uses it: conversion, product, the sign test
-- and `int64(math.Floor(x))`.
pub record Floats : Type 0 where
  pub of_int : ℕ → ℕ
  pub mul : ℕ → ℕ → ℕ
  pub is_positive : ℕ → Bool
  pub floor_int : ℕ → ℕ

unfoldable pub first_user_tunnel : ℕ → Db → Option UserTunnel
first_user_tunnel id db = find (λ ut. ut.id == id) db.user_tunnels

-- `pauseForwardServices`, for one forward of the list.
abbrev pub is_paused : Forward → Bool
is_paused f = eq_ℤ f.status (pos 0)

module _ (env : Env) where
  unfoldable pub pause_on_entry : Forward → Tunnel → Text → Action Text
  pause_on_entry f t name =
      if is_multi_ip f.listen_ip
      then pause_service_multi_ip env t.in_node_id name f.listen_ip
      else pause_service env t.in_node_id name

  unfoldable pub pause_on_exit : Tunnel → Text → Action Text
  pause_on_exit t name =
      if is_tunnel_forward t then pause_remote_service env t.out_node_id name else pure []

  unfoldable pub pause_through : Forward → Option Tunnel → Act
  pause_through f none = pure tt
  pause_through f (some t) = do
    ut ← gets (get_user_tunnel f.user_id f.tunnel_id)
    let name = build_service_name f.id f.user_id ut
    pause_on_entry f t name
    pause_on_exit t name
    modify_db (set_status (pos 0) f.id)

  unfoldable pub pause_one : Forward → Act
  unfolding pause_through
  pause_one f = do
    t ← gets (first_tunnel f.tunnel_id)
    if is_paused f then pure tt else pause_through f t

  unfoldable pub pause_forward_services : List Forward → Act
  pause_forward_services [] = pure tt
  pause_forward_services (f ∷ fs) = pause_one f >> pause_forward_services fs

  unfoldable pub pause_all_user_services : ℕ → Act
  pause_all_user_services user_id = do
    fs ← gets (λ db. select (λ f. f.user_id == user_id) db.forwards)
    pause_forward_services fs

  unfoldable pub pause_specific_forward : ℕ → ℕ → Act
  pause_specific_forward tunnel_id user_id = do
    fs ← gets (λ db. select (λ f. f.tunnel_id == tunnel_id && f.user_id == user_id) db.forwards)
    pause_forward_services fs

  -- `flow != 0 && flow*bytesToGB < in+out`, expiry, or a status other than 1. Here the limit itself
  -- may still be used.
  unfoldable pub is_user_over : User → Bool
  is_user_over user =
      (not (user.flow == 0)
        && ltb (signed (user.flow * bytes_to_gb)) (signed (user.in_flow + user.out_flow)))
      || (is_expired env user.exp_time || not (user.status == 1))

  unfoldable pub is_user_tunnel_over : UserTunnel → Bool
  is_user_tunnel_over ut =
      is_used_up ut.flow ut.in_flow ut.out_flow
      || (is_expired env ut.exp_time || not (ut.status == 1))

  unfoldable pub enforce_user : ℕ → Option User → Act
  enforce_user user_id none = pure tt
  enforce_user user_id (some user) =
      if is_user_over user then pause_all_user_services user_id else pure tt

  unfoldable pub check_user_limits : ℕ → Act
  check_user_limits user_id = gets (first_user user_id) >>= enforce_user user_id

  unfoldable pub enforce_user_tunnel : ℕ → Option UserTunnel → Act
  enforce_user_tunnel user_id none = pure tt
  enforce_user_tunnel user_id (some ut) =
      if is_user_tunnel_over ut then pause_specific_forward ut.tunnel_id user_id else pure tt

  unfoldable pub check_user_tunnel_limits : ℕ → ℕ → Act
  check_user_tunnel_limits user_tunnel_id user_id =
      gets (first_user_tunnel user_tunnel_id) >>= enforce_user_tunnel user_id

-- `in_flow + d` and `out_flow + u` in each of the three tables.
unfoldable pub add_forward_flow : ℕ → ℕ → ℕ → Db → Db
add_forward_flow id d u db = record db {
  forwards =
      update (λ f. f.id == id)
        (λ f. record f { in_flow = f.in_flow + d; out_flow = f.out_flow + u }) db.forwards;
}

unfoldable pub add_user_flow : ℕ → ℕ → ℕ → Db → Db
add_user_flow id d u db = record db {
  users =
      update (λ f. f.id == id)
        (λ f. record f { in_flow = f.in_flow + d; out_flow = f.out_flow + u }) db.users;
}

unfoldable pub add_user_tunnel_flow : ℕ → ℕ → ℕ → Db → Db
add_user_tunnel_flow id d u db = record db {
  user_tunnels =
      update (λ f. f.id == id)
        (λ f. record f { in_flow = f.in_flow + d; out_flow = f.out_flow + u }) db.user_tunnels;
}

module _ (fl : Floats) where
  -- The tunnel's flow type and ratio, where they are set.
  abbrev pub flow_type : Option Tunnel → ℕ
  flow_type none = 1
  flow_type (some t) = if ltb 0 t.flow then t.flow else 1

  abbrev pub ratio_of : Option Tunnel → ℕ
  ratio_of none = one_float
  ratio_of (some t) = if fl.is_positive t.traffic_ratio then t.traffic_ratio else one_float

  unfoldable pub charged : Option Tunnel → ℕ → ℕ
  charged t bytes =
      fl.floor_int (fl.mul (fl.mul (fl.of_int bytes) (ratio_of t)) (fl.of_int (flow_type t)))

-- The three keys in a service's name, whose parts are decimal numbers. What the database makes of
-- another text in place of a key, a condition or none at all, is outside of the model. The third part
-- is also compared as a text.
pub record Keys : Type 0 where
  pub forward : ℕ
  pub user : ℕ
  pub user_tunnel : ℕ
  pub is_admin_forward : Bool

unfoldable pub read_parts : (Text → ℕ) → List Text → Option Keys
read_parts read_key (a ∷ b ∷ c ∷ rest) = some (record {
  forward = read_key a;
  user = read_key b;
  user_tunnel = read_key c;
  is_admin_forward = eq_text c (codes "0");
})
read_parts read_key _ = none

unfoldable pub account : Keys → ℕ → ℕ → Db → Db
unfolding add_forward_flow add_user_flow add_user_tunnel_flow
account k d u db =
    let both = add_user_flow k.user d u (add_forward_flow k.forward d u db) in
    if k.is_admin_forward then both else add_user_tunnel_flow k.user_tunnel d u both

module _ (env : Env) where
  unfoldable pub enforce : Keys → Act
  enforce k =
      if k.is_admin_forward
      then pure tt
      else (check_user_limits env k.user >> check_user_tunnel_limits env k.user_tunnel k.user)

module _ (env : Env) (fl : Floats) where
  unfoldable pub charge : Keys → FlowDto → Option Forward → Act
  charge k flow none = pure tt
  charge k flow (some f) = do
    t ← gets (first_tunnel f.tunnel_id)
    modify_db (account k (charged fl t flow.d) (charged fl t flow.u))
    enforce env k

  unfoldable pub process_keys : FlowDto → Option Keys → Act
  process_keys flow none = pure tt
  process_keys flow (some k) = gets (first_forward k.forward) >>= charge k flow

  unfoldable pub process_flow_data : (Text → ℕ) → FlowDto → Act
  process_flow_data read_key flow = process_keys flow (read_parts read_key (split b'_' flow.n))
