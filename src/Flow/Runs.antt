-- ===== src/Flow/Runs.antt =====
-- Runs of `checkUserLimits` and `checkUserTunnelLimits` in go-backend/service/flow.go.
use flux_panel_v.Base.{
  ℕ, ◌≡◌, refl, sym, ap, ◌∙◌, inl, inr, Bool, true, false, ◌&&◌, some, List, [], ◌∷◌, map, select,
  Bool-cases, Option-cases, ◌==◌,
}
use flux_panel_v.Model.{User, Forward, UserTunnel}
use flux_panel_v.Store.{Db, World, Env, Result, ok, Act, ◌>>=◌}
use flux_panel_v.Forward.{first_user}
use flux_panel_v.Flow.{
  Keys, pause_all_user_services, pause_specific_forward, is_user_over, is_user_tunnel_over,
  enforce_user, check_user_limits, enforce_user_tunnel, first_user_tunnel, check_user_tunnel_limits,
  enforce,
}
use flux_panel_v.Flow.Pausing.{
  Leaves, is_due, is_hit, pause_row, paused_by, paused_by-nil, with_paused,
  pause_forward_services_lem,
}
use flux_panel_v.Flow.Enforcement.{Quiet, Quiet-paused, Quiet-with_paused}

-- A run that succeeds and pauses the rows of some forwards.
pub record Pauses (db : Db) (r : Result (Unit {0}) × World) : Type 0 where
  pub forwards : List Forward
  pub leaves : Leaves (with_paused forwards db) r

pub with_paused-nil : (db : Db) → with_paused [] db ≡ db
with_paused-nil db =
    ap (λ (xs : List Forward). record db { forwards = xs }) (paused_by-nil (is_due db) db.forwards)

Pauses-pure : (w : World) → Pauses w.db (ok tt, w)
Pauses-pure w = record {
  forwards = [];
  leaves = record { returned = refl; tables = sym (with_paused-nil w.db) };
}

module _ (env : Env) where
  pub pause_all-Leaves :
      (user_id : ℕ) (w : World)
      → Leaves
          (with_paused (select (λ f. f.user_id == user_id) w.db.forwards) w.db)
          (pause_all_user_services env user_id w)
  unfolding pause_all_user_services ◌>>=◌
  pause_all-Leaves user_id w = pause_forward_services_lem env _ w

  pub pause_specific-Leaves :
      (tunnel_id user_id : ℕ) (w : World)
      → Leaves
          (with_paused
            (select (λ f. f.tunnel_id == tunnel_id && f.user_id == user_id) w.db.forwards)
            w.db)
          (pause_specific_forward env tunnel_id user_id w)
  unfolding pause_specific_forward ◌>>=◌
  pause_specific-Leaves tunnel_id user_id w = pause_forward_services_lem env _ w

  pub check_user_limits-Pauses :
      (user_id : ℕ) (w : World) → Pauses w.db (check_user_limits env user_id w)
  unfolding check_user_limits enforce_user ◌>>=◌
  check_user_limits-Pauses user_id w = elim (Option-cases (first_user user_id w.db)) [
    | inl missing ↦ rw missing (Pauses-pure w)
    | inr (user, found) ↦ rw found (elim (Bool-cases (is_user_over env user)) [
      | inl over ↦ rw over (record { forwards = _; leaves = pause_all-Leaves user_id w })
      | inr fine ↦ rw fine (Pauses-pure w)
    ])
  ]

  pub check_user_tunnel_limits-Pauses :
      (id user_id : ℕ) (w : World) → Pauses w.db (check_user_tunnel_limits env id user_id w)
  unfolding check_user_tunnel_limits enforce_user_tunnel ◌>>=◌
  check_user_tunnel_limits-Pauses id user_id w = elim (Option-cases (first_user_tunnel id w.db)) [
    | inl missing ↦ rw missing (Pauses-pure w)
    | inr (ut, found) ↦ rw found (elim (Bool-cases (is_user_tunnel_over env ut)) [
      | inl over ↦
          rw over (record { forwards = _; leaves = pause_specific-Leaves ut.tunnel_id user_id w })
      | inr fine ↦ rw fine (Pauses-pure w)
    ])
  ]

  pub check_user_limits-Quiet :
      (user_id : ℕ) (w : World) (user : User)
      → first_user user_id w.db ≡ some user
      → is_user_over env user ≡ true
      → Quiet (λ f. f.user_id == user_id) (check_user_limits env user_id w).1.db
  unfolding check_user_limits enforce_user ◌>>=◌
  check_user_limits-Quiet user_id w user found over =
      rw (found, over, (pause_all-Leaves user_id w).tables)
        (Quiet-paused (λ f. f.user_id == user_id) (λ g. refl) w.db)

  pub check_user_tunnel_limits-Quiet :
      (id user_id : ℕ) (w : World) (ut : UserTunnel)
      → first_user_tunnel id w.db ≡ some ut
      → is_user_tunnel_over env ut ≡ true
      → Quiet
          (λ f. f.tunnel_id == ut.tunnel_id && f.user_id == user_id)
          (check_user_tunnel_limits env id user_id w).1.db
  unfolding check_user_tunnel_limits enforce_user_tunnel ◌>>=◌
  check_user_tunnel_limits-Quiet id user_id w ut found over =
      rw (found, over, (pause_specific-Leaves ut.tunnel_id user_id w).tables)
        (Quiet-paused (λ f. f.tunnel_id == ut.tunnel_id && f.user_id == user_id) (λ g. refl) w.db)

-- Two states of the tables that differ at most in the statuses of forwards.
pub record SameButStatus (a b : Db) : Type 0 where
  pub users : a.users ≡ b.users
  pub tunnels : a.tunnels ≡ b.tunnels
  pub user_tunnels : a.user_tunnels ≡ b.user_tunnels
  pub nodes : a.nodes ≡ b.nodes
  pub user_nodes : a.user_nodes ≡ b.user_nodes
  pub speed_limits : a.speed_limits ≡ b.speed_limits
  pub forwards : map pause_row a.forwards ≡ map pause_row b.forwards

pub map-paused_by :
    (due : Forward → Bool) (fs xs : List Forward)
    → map pause_row (paused_by due fs xs) ≡ map pause_row xs
map-paused_by due fs [] = refl
map-paused_by due fs (x ∷ xs) = elim (Bool-cases (is_hit due fs x)) [
  | inl hit ↦ rw hit (ap (◌∷◌ (pause_row x)) (map-paused_by due fs xs))
  | inr missed ↦ rw missed (ap (◌∷◌ (pause_row x)) (map-paused_by due fs xs))
]

pub with_paused-SameButStatus :
    (fs gs : List Forward) (db : Db) → SameButStatus (with_paused gs (with_paused fs db)) db
with_paused-SameButStatus fs gs db = record {
  users = refl;
  tunnels = refl;
  user_tunnels = refl;
  nodes = refl;
  user_nodes = refl;
  speed_limits = refl;
  forwards =
      map-paused_by (is_due (with_paused fs db)) gs (paused_by (is_due db) fs db.forwards)
      ∙ map-paused_by (is_due db) fs db.forwards;
}

-- Two rounds of pauses, the user's and his tunnel's.
pub record PausesTwice (db : Db) (r : Result (Unit {0}) × World) : Type 0 where
  pub first : List Forward
  pub second : List Forward
  pub leaves : Leaves (with_paused second (with_paused first db)) r

pub in_turn :
    (m n : Act) (w : World)
    → Pauses w.db (m w)
    → ((v : World) → Pauses v.db (n v))
    → PausesTwice w.db ((m >>= λ _. n) w)
unfolding ◌>>=◌
in_turn m n w p q =
    let after = q (m w).1 in
    rw p.leaves.returned (record {
      first = p.forwards;
      second = after.forwards;
      leaves = record {
        returned = after.leaves.returned;
        tables = after.leaves.tables ∙ ap (with_paused after.forwards) p.leaves.tables;
      };
    })

pub enforce-PausesTwice : (env : Env) (k : Keys) (w : World) → PausesTwice w.db (enforce env k w)
unfolding enforce ◌>>=◌
enforce-PausesTwice env k w = elim (Bool-cases k.is_admin_forward) [
  | inl admin ↦ rw admin (record {
    first = [];
    second = [];
    leaves = record {
      returned = refl;
      tables = sym (with_paused-nil (with_paused [] w.db) ∙ with_paused-nil w.db);
    };
  })
  | inr ordinary ↦ rw ordinary (
      in_turn (check_user_limits env k.user) (check_user_tunnel_limits env k.user_tunnel k.user) w
        (check_user_limits-Pauses env k.user w)
        (check_user_tunnel_limits-Pauses env k.user_tunnel k.user))
]

pub enforce_ordinary :
    (env : Env) (k : Keys) (w : World)
    → k.is_admin_forward ≡ false
    → enforce env k w
      ≡ (check_user_limits env k.user >>= λ _. check_user_tunnel_limits env k.user_tunnel k.user) w
unfolding enforce
enforce_ordinary env k w ordinary = rw ordinary refl

pub Quiet-after_both :
    (p : Forward → Bool) (blind : (g : Forward) → p (pause_row g) ≡ p g) (m n : Act) (w : World)
    → Pauses w.db (m w)
    → ((v : World) → Pauses v.db (n v))
    → Quiet p (m w).1.db
    → Quiet p ((m >>= λ _. n) w).1.db
unfolding ◌>>=◌
Quiet-after_both p blind m n w first second quiet =
    let after = second (m w).1 in
    rw (first.leaves.returned, after.leaves.tables)
      (Quiet-with_paused p blind (m w).1.db after.forwards quiet)

pub Quiet-after_second :
    (p : Forward → Bool) (m n : Act) (w : World)
    → Pauses w.db (m w)
    → Quiet p (n (m w).1).1.db
    → Quiet p ((m >>= λ _. n) w).1.db
unfolding ◌>>=◌
Quiet-after_second p m n w first quiet = rw first.leaves.returned quiet

pub row_after :
    (id : ℕ) (db : Db) (r : Result (Unit {0}) × World) (ut : UserTunnel)
    → Pauses db r
    → first_user_tunnel id db ≡ some ut
    → first_user_tunnel id r.1.db ≡ some ut
unfolding first_user_tunnel
row_after id db r ut p found = rw p.leaves.tables found
