-- ===== src/Reset/Daily.antt =====
-- What the daily task leaves in the tables of users and permission rows.
use flux_panel_v.Base.{
  ℕ, ◌≡◌, refl, ap, ◌∙◌, inl, inr, Bool, true, false, List, [], ◌∷◌, arith, select, update, All,
  All-map_of, Bool-cases, ◌==◌,
}
use flux_panel_v.Model.{User, UserTunnel}
use flux_panel_v.Store.{Db, World, Env, Result, ok, gets, ◌>>=◌}
use flux_panel_v.Reset.{
  Today, clear_user, clear_user_tunnel, disable_user, disable_user_tunnel, clear_users,
  clear_user_tunnels, users_due, user_tunnels_due, has_expired, pause_user_forwards,
  pause_user_tunnel_forwards, expire_users, expire_user_tunnels, reset_flow,
}
use flux_panel_v.Forward.Limits.Permissions.{IsLive}
use flux_panel_v.Reset.Runs.{
  with_key_of, Maps, kept, user_key, row_key, update-none, update-one, Maps-pure, Maps-then,
  Maps-on_user, Maps-on_user_tunnel, same_users, clear_users-Maps, clear_rows-Maps, Maps-gets,
  pause_each-Maps,
}

module _ (env : Env) where
  expire_users-Maps :
      (us : List User)
      → Maps (update (with_key_of user_key us) disable_user) kept (expire_users env us)
  unfolding expire_users pause_user_forwards
  expire_users-Maps [] =
      same_users _ Maps-pure (update-none user_key disable_user (λ x. refl) (λ x. refl))
        (λ xs. refl)
  expire_users-Maps (u ∷ us) =
      same_users _
        (Maps-then _ _ (Maps-gets env _ _ (pause_each-Maps env))
          (Maps-then _ _ (Maps-on_user disable_user u.id) (expire_users-Maps us)))
        (update-one user_key disable_user (λ x. refl) (λ x. refl) u us) (λ xs. refl)

  expire_rows-Maps :
      (uts : List UserTunnel)
      → Maps kept
          (update (with_key_of row_key uts) disable_user_tunnel)
          (expire_user_tunnels env uts)
  unfolding expire_user_tunnels pause_user_tunnel_forwards
  expire_rows-Maps [] =
      same_users _ Maps-pure (λ xs. refl)
        (update-none row_key disable_user_tunnel (λ x. refl) (λ x. refl))
  expire_rows-Maps (ut ∷ uts) =
      same_users _
        (Maps-then _ _ (Maps-gets env _ _ (pause_each-Maps env))
          (Maps-then _ _ (Maps-on_user_tunnel disable_user_tunnel ut.id) (expire_rows-Maps uts)))
        (λ xs. refl) (update-one row_key disable_user_tunnel (λ x. refl) (λ x. refl) ut uts)

  -- The users, and the permission rows, after the task: cleared where due, then disabled where
  -- expired.
  abbrev pub cleared_users : Today → Db → List User
  cleared_users now db = update (with_key_of user_key (users_due now db)) clear_user db.users

  abbrev pub cleared_rows : Today → Db → List UserTunnel
  cleared_rows now db =
      update (with_key_of row_key (user_tunnels_due now db)) clear_user_tunnel db.user_tunnels

  abbrev pub expired_users : List User → List User
  expired_users us =
      update (with_key_of user_key (select (λ u. has_expired env u.exp_time u.status) us))
        disable_user us

  abbrev pub expired_rows : List UserTunnel → List UserTunnel
  expired_rows uts =
      update (with_key_of row_key (select (λ ut. has_expired env ut.exp_time ut.status) uts))
        disable_user_tunnel uts

  -- A run that succeeds and leaves these users and these permission rows.
  pub record LeavesRows (us : List User) (uts : List UserTunnel) (r : Result (Unit {0}) × World)
      : Type 0 where
    pub returned : r.0 ≡ ok tt
    pub users : r.1.db.users ≡ us
    pub user_tunnels : r.1.db.user_tunnels ≡ uts

  -- The last step, and the two of them that disable.
  rows_end :
      (w : World)
      → LeavesRows w.db.users (expired_rows w.db.user_tunnels) (
          (gets (λ db. select (λ ut. has_expired env ut.exp_time ut.status) db.user_tunnels)
              >>= expire_user_tunnels env)
            w)
  unfolding ◌>>=◌
  rows_end w =
      let p =
        expire_rows-Maps (select (λ ut. has_expired env ut.exp_time ut.status) w.db.user_tunnels) in
      record { returned = p.returned w; users = p.users w; user_tunnels = p.user_tunnels w }

  expire_end :
      (us : List User) (w : World)
      → LeavesRows
          (update (with_key_of user_key us) disable_user w.db.users)
          (expired_rows w.db.user_tunnels)
          ((expire_users env us >>= λ _.
              gets (λ db. select (λ ut. has_expired env ut.exp_time ut.status) db.user_tunnels)
              >>= expire_user_tunnels env)
            w)
  unfolding ◌>>=◌
  expire_end us w =
      let p = expire_users-Maps us in
      let q = rows_end (expire_users env us w).1 in
      rw (p.returned w) (record {
        returned = q.returned;
        users = q.users ∙ p.users w;
        user_tunnels = q.user_tunnels ∙ ap expired_rows (p.user_tunnels w);
      })

  due_rows :
      (now : Today) (a b : Db)
      → a.user_tunnels ≡ b.user_tunnels
      → user_tunnels_due now a ≡ user_tunnels_due now b
  unfolding user_tunnels_due
  due_rows now a b e = rw e refl

  -- The daily task never fails. It sets the counters of the users and of the permission rows that are
  -- due by their own day to 0, then the status of the users and of the rows that have expired to 0,
  -- and changes nothing else in the two tables.
  pub reset_flow-LeavesRows :
      (now : Today) (w : World)
      → LeavesRows
          (expired_users (cleared_users now w.db))
          (expired_rows (cleared_rows now w.db))
          (reset_flow env now w)
  unfolding reset_flow ◌>>=◌
  reset_flow-LeavesRows now w =
      let us = users_due now w.db in
      let p = clear_users-Maps us in
      let w1 = (clear_users us w).1 in
      let uts = user_tunnels_due now w1.db in
      let q = clear_rows-Maps uts in
      let w2 = (clear_user_tunnels uts w1).1 in
      let kept_users = q.users w1 ∙ p.users w in
      let kept_rows =
        q.user_tunnels w1
        ∙ (ap (λ us. update (with_key_of row_key us) clear_user_tunnel w1.db.user_tunnels)
              (due_rows now w1.db w.db (p.user_tunnels w))
            ∙ ap (update (with_key_of row_key (user_tunnels_due now w.db)) clear_user_tunnel)
                (p.user_tunnels w)) in
      let e = expire_end (select (λ u. has_expired env u.exp_time u.status) w2.db.users) w2 in
      rw (p.returned w, q.returned w1)
        (record {
          returned = e.returned;
          users = e.users ∙ ap expired_users kept_users;
          user_tunnels = e.user_tunnels ∙ ap expired_rows kept_rows;
        })

module _ {T : Type 0} (key : T → ℕ) (p : T → Bool) where
  same_key : (n : ℕ) → n == n ≡ true
  same_key n = ground arith

  select_keyed : (xs : List T) → All (λ x. p x ≡ true → with_key_of key (select p xs) x ≡ true) xs
  select_keyed [] = tt
  select_keyed (x ∷ xs) = (
    λ h. ground (arith, same_key (key x)),
    All-map_of _ _ xs
        (λ y keyed h. elim (Bool-cases (p x)) [
          | inl picked ↦ ground (arith, keyed h)
          | inr passed ↦ ground (arith, keyed h)
        ])
        (select_keyed xs),
  )

module _ (env : Env) where
  -- An account that is enabled is live.
  abbrev pub IsCurrent : User → Type 0
  IsCurrent u = u.status ≡ 1 → IsLive env u.exp_time

  abbrev pub is_over : User → Bool
  is_over u = has_expired env u.exp_time u.status

  IsCurrent-user : (u : User) → is_over u ≡ false → IsCurrent u
  unfolding has_expired
  IsCurrent-user u e enabled = ground arith

  IsCurrent-after :
      (us xs : List User)
      → All (λ x. is_over x ≡ true → with_key_of user_key us x ≡ true) xs
      → All IsCurrent (update (with_key_of user_key us) disable_user xs)
  IsCurrent-after us [] h = tt
  IsCurrent-after us (x ∷ xs) h = elim (Bool-cases (with_key_of user_key us x)) [
    | inl hit ↦ rw hit (λ e. absurd (ground arith), IsCurrent-after us xs h.1)
    | inr missed ↦ rw missed (
      elim (Bool-cases (is_over x)) [
        | inl over ↦ absurd (ground (arith, h.0 over))
        | inr fine ↦ IsCurrent-user x fine
      ],
      IsCurrent-after us xs h.1,
    )
  ]

  -- After the daily task, every user whose account is enabled has no expiry or one in the future.
  pub reset_flow-IsCurrent :
      (now : Today) (w : World) → All IsCurrent (reset_flow env now w).1.db.users
  reset_flow-IsCurrent now w = rw (reset_flow-LeavesRows env now w).users (
      IsCurrent-after _ (cleared_users env now w.db)
        (select_keyed user_key is_over (cleared_users env now w.db)))
