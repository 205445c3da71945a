-- ===== src/Reset/Rows.antt =====
-- What the daily task makes of each user and of each permission row: go-backend/task/reset_flow.go.
use flux_panel_v.Base.{
  ℕ, ◌≡◌, refl, sym, ◌∙◌, ◌⊎◌, inl, inr, ◌↔◌, Bool, true, false, ◌&&◌, ◌||◌, List, [], ◌∷◌, ◌++◌,
  arith, select, update, any, Any, Bool-cases, true-false, ◌==◌, ◌<◌, ◌≤◌, if◌then◌else◌,
}
use flux_panel_v.Model.{User, UserTunnel}
use flux_panel_v.Store.{World, Env, Result, ok}
use flux_panel_v.Forward.Ports.Usage.{any_iff, any-select}
use flux_panel_v.Reset.{
  Today, is_monthly, is_weekly, clear_user, clear_user_tunnel, disable_user, disable_user_tunnel,
  users_due, user_tunnels_due, has_expired, reset_flow,
}
use flux_panel_v.Reset.Runs.{with_key_of, user_key, row_key}
use flux_panel_v.Reset.Daily.{reset_flow-LeavesRows}

-- An enabled row is due on the day of the month that it names, or on the month's last day if the month
-- has no such day, or on the day of the week that it names.
abbrev pub IsDue : Today → ℕ → ℕ → ℕ → Type 0
IsDue now type day status =
    (status ≡ 1)
    × (((type ≡ 1) × ((day ≡ now.day) ⊎ ((now.days < day) × (now.day ≡ now.days))))
        ⊎ ((type ≡ 2) × (day ≡ now.weekday)))

-- An enabled row has expired if it has an expiry and that is not in the future.
abbrev pub IsExpired : Env → ℕ → ℕ → Type 0
IsExpired env exp status = (0 < exp) × (exp ≤ env.now) × (status ≡ 1)

-- The second row is the first one changed, if the condition holds, and the first one if it does not.
abbrev pub Changed {ℓ} : {T : Type ℓ} → Type 0 → (T → T) → T → T → Type ℓ
Changed P g x y = (P × (y ≡ g x)) ⊎ ((¬ P) × (y ≡ x))

-- The rows of two tables, in their order.
abbrev pub Pairs : {T : Type 0} → (T → T → Type 0) → List T → List T → Type 0
Pairs R [] [] = Unit
Pairs R (x ∷ xs) (y ∷ ys) = R x y × Pairs R xs ys
Pairs R _ _ = ⊥

module _ {T : Type 0} (key : T → ℕ) where
  -- Some row with this row's key satisfies the condition.
  abbrev pub SomeWith : (T → Type 0) → List T → T → Type 0
  SomeWith P us x = Any (λ u. P u × (key x ≡ key u)) us

  with_key-select :
      (p : T → Bool) (P : T → Type 0) (us : List T) (x : T)
      → ((u : T) → (p u ≡ true) ↔ P u)
      → (any (λ u. p u && key x == key u) us ≡ true) ↔ SomeWith P us x
  with_key-select p P us x h = any_iff _ _ us (λ u.
      let k = h u in
      (λ e. (k.0 (ground arith), ground arith), λ e. let b = k.1 e.0 in ground arith))

  any-append : (q : T → Bool) (us vs : List T) → any q (us ++ vs) ≡ any q us || any q vs
  any-append q [] vs = refl
  any-append q (u ∷ us) vs = ground (arith, any-append q us vs)

  any-either : (a b : T → Bool) (us : List T) → any a us || any b us ≡ any (λ u. a u || b u) us
  any-either a b [] = refl
  any-either a b (u ∷ us) = ground (arith, any-either a b us)

  any-same : (a b : T → Bool) (us : List T) → ((u : T) → a u ≡ b u) → any a us ≡ any b us
  any-same a b [] h = refl
  any-same a b (u ∷ us) h = ground (arith, any-same a b us h, h u)

  any-update :
      (a w : T → Bool) (g : T → T) (us : List T)
      → ((u : T) → a (g u) ≡ a u)
      → any a (update w g us) ≡ any a us
  any-update a w g [] h = refl
  any-update a w g (u ∷ us) h = elim (Bool-cases (w u)) [
    | inl hit ↦ rw (hit, h u, any-update a w g us h) refl
    | inr missed ↦ rw (missed, any-update a w g us h) refl
  ]

  -- The two selections of the rows that are due, as one test.
  due_either :
      (a b : T → Bool) (us : List T) (x : T)
      → with_key_of key (select a us ++ select b us) x
        ≡ any (λ u. (a u || b u) && key x == key u) us
  due_either a b us x =
      any-append (λ u. key x == key u) (select a us) (select b us)
      ∙ ((rw (any-select (λ u. key x == key u) a us, any-select (λ u. key x == key u) b us) refl)
          ∙ (any-either (λ u. a u && key x == key u) (λ u. b u && key x == key u) us
              ∙ any-same _ _ us (λ u. ground arith)))

changed :
    {T : Type 0} (g : T → T) (P : Type 0) (b : Bool) (x : T)
    → (b ≡ true) ↔ P
    → Changed P g x (if b then g x else x)
changed g P true x h = inl (h.0 refl, refl)
changed g P false x h = inr (λ p. true-false (sym (h.1 p)), refl)

module _ {T : Type 0} (g h : T → T) (w v : T → Bool) (D E : T → Type 0)
    (w_iff : (x : T) → (w x ≡ true) ↔ D x) (v_iff : (x : T) → (v x ≡ true) ↔ E x)
    (same : (x : T) → v (g x) ≡ v x) where
  same_test : (b : Bool) (x : T) → v (if b then g x else x) ≡ v x
  same_test true x = same x
  same_test false x = refl

  pairs :
      (xs : List T)
      → Pairs
          (λ x y. (c : T) × Changed (D x) g x c × Changed (E x) h c y)
          xs
          (update v h (update w g xs))
  pairs [] = tt
  pairs (x ∷ xs) = (
    (
      (if w x then g x else x),
      changed g (D x) (w x) x (w_iff x),
      changed h (E x) (v (if w x then g x else x)) (if w x then g x else x)
          (rw (same_test (w x) x) (v_iff x)),
    ),
    pairs xs,
  )

-- The table after it was cleared by one key test and disabled by another, that of the rows of the
-- cleared table that have expired.
module _ {T : Type 0} (key : T → ℕ) (g h : T → T) (a b e : T → Bool) (D E : T → Type 0)
    (due_iff : (x : T) → (a x || b x ≡ true) ↔ D x) (over_iff : (x : T) → (e x ≡ true) ↔ E x)
    (key_kept : (x : T) → key (g x) ≡ key x) (over_kept : (x : T) → e (g x) ≡ e x) where
  abbrev clears : List T → T → Bool
  clears us = with_key_of key (select a us ++ select b us)

  abbrev disables : List T → T → Bool
  disables ys = with_key_of key (select e ys)

  disables-update :
      (w : T → Bool) (us : List T) (x : T)
      → disables (update w g us) x ≡ any (λ u. e u && key x == key u) us
  disables-update w us x =
      any-select (λ u. key x == key u) e (update w g us)
      ∙ any-update key (λ u. e u && key x == key u) w g us (λ u. rw (over_kept u, key_kept u) refl)

  resets :
      (us : List T)
      → Pairs
          (λ x y.
            (c : T) × Changed (SomeWith key D us x) g x c × Changed (SomeWith key E us x) h c y)
          us
          (update (disables (update (clears us) g us)) h (update (clears us) g us))
  resets us =
      pairs g h (clears us) (disables (update (clears us) g us)) (SomeWith key D us)
        (SomeWith key E us)
        (λ x. rw (due_either key a b us x) (with_key-select key (λ u. a u || b u) D us x due_iff))
        (λ x. rw (disables-update (clears us) us x) (with_key-select key e E us x over_iff))
        (λ x.
          disables-update (clears us) us (g x)
          ∙ ((rw (key_kept x) refl) ∙ sym (disables-update (clears us) us x)))
        us

IsDue-iff :
    (now : Today) (type day status : ℕ)
    → (is_monthly now type day status || is_weekly now type day status ≡ true)
      ↔ IsDue now type day status
unfolding is_monthly is_weekly
IsDue-iff now type day status = (λ e. ground arith, λ h. ground arith)

IsExpired-iff :
    (env : Env) (exp status : ℕ) → (has_expired env exp status ≡ true) ↔ IsExpired env exp status
unfolding has_expired
IsExpired-iff env exp status = (λ e. ground arith, λ h. ground arith)

-- A user, and a permission row, before and after the task.
abbrev pub UserAfter : Env → Today → List User → User → User → Type 0
UserAfter env now us x y =
    (c : User) × Changed
      (SomeWith user_key (λ u. IsDue now u.flow_reset_type u.flow_reset_day u.status) us x)
      (λ u. record u { in_flow = 0; out_flow = 0; xray_in_flow = 0; xray_out_flow = 0 }) x c
    × Changed (SomeWith user_key (λ u. IsExpired env u.exp_time u.status) us x)
        (λ u. record u { status = 0 }) c y

abbrev pub RowAfter : Env → Today → List UserTunnel → UserTunnel → UserTunnel → Type 0
RowAfter env now us x y =
    (c : UserTunnel) × Changed
      (SomeWith row_key (λ u. IsDue now u.flow_reset_type u.flow_reset_day u.status) us x)
      (λ u. record u { in_flow = 0; out_flow = 0 }) x c
    × Changed (SomeWith row_key (λ u. IsExpired env u.exp_time u.status) us x)
        (λ u. record u { status = 0 }) c y

pub record Resets (env : Env) (now : Today) (w : World) (r : Result (Unit {0}) × World)
    : Type 0 where
  pub returned : r.0 ≡ ok tt
  pub users : Pairs (UserAfter env now w.db.users) w.db.users r.1.db.users
  pub user_tunnels :
      Pairs (RowAfter env now w.db.user_tunnels) w.db.user_tunnels r.1.db.user_tunnels

-- The daily task never fails. Every user and every permission row is in its place as it was, but that
-- its counters are 0 if a row with its key is due, enabled and of this day of the month, of a later
-- day than the month has and this its last, or of this day of the week, and that its status is 0 if
-- an enabled row with its key has an expiry that is not in the future.
pub reset_flow-Resets :
    (env : Env) (now : Today) (w : World) → Resets env now w (reset_flow env now w)
unfolding users_due user_tunnels_due
reset_flow-Resets env now w =
    let run = reset_flow-LeavesRows env now w in
    record {
      returned = run.returned;
      users = rw run.users (
          resets user_key clear_user disable_user
            (λ u. is_monthly now u.flow_reset_type u.flow_reset_day u.status)
            (λ u. is_weekly now u.flow_reset_type u.flow_reset_day u.status)
            (λ u. has_expired env u.exp_time u.status)
            (λ u. IsDue now u.flow_reset_type u.flow_reset_day u.status)
            (λ u. IsExpired env u.exp_time u.status)
            (λ u. IsDue-iff now u.flow_reset_type u.flow_reset_day u.status)
            (λ u. IsExpired-iff env u.exp_time u.status) (λ u. refl) (λ u. refl) w.db.users);
      user_tunnels = rw run.user_tunnels (
          resets row_key clear_user_tunnel disable_user_tunnel
            (λ u. is_monthly now u.flow_reset_type u.flow_reset_day u.status)
            (λ u. is_weekly now u.flow_reset_type u.flow_reset_day u.status)
            (λ u. has_expired env u.exp_time u.status)
            (λ u. IsDue now u.flow_reset_type u.flow_reset_day u.status)
            (λ u. IsExpired env u.exp_time u.status)
            (λ u. IsDue-iff now u.flow_reset_type u.flow_reset_day u.status)
            (λ u. IsExpired-iff env u.exp_time u.status) (λ u. refl) (λ u. refl) w.db.user_tunnels);
    }
