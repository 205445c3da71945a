-- ===== src/Reset/Runs.antt =====
-- Runs of the daily task as maps of the tables of users and permission rows.
use flux_panel_v.Base.{
  ℕ, ◌≡◌, refl, ap, ◌∙◌, inl, inr, Bool, Option, none, some, List, [], ◌∷◌, arith, update, any,
  Bool-cases, Option-cases, ◌==◌,
}
use flux_panel_v.Model.{User, Forward, Tunnel, UserTunnel, Node}
use flux_panel_v.Store.{Db, World, Env, ok, Act, pure, gets, ◌>>=◌, modify_db, send}
use flux_panel_v.Nodes.{pause_service, pause_service_multi_ip, pause_remote_service}
use flux_panel_v.Forward.{get_node_by_id}
use flux_panel_v.Forward.Create.{set_status}
use flux_panel_v.Reset.{
  clear_user, clear_user_tunnel, on_user, on_user_tunnel, clear_users, clear_user_tunnels,
  pause_entry_service, pause_exit_service, pause_at, pause_on, pause_single_forward, pause_each,
}

-- The rows with the key of a row of the list.
abbrev pub with_key_of {ℓ} : {T : Type ℓ} → (T → ℕ) → List T → T → Bool
with_key_of key us x = any (λ u. key x == key u) us

module _ {T : Type 0} (key : T → ℕ) (g : T → T) (keeps : (x : T) → key (g x) ≡ key x)
    (once : (x : T) → g (g x) ≡ g x) where
  pub update-none : (xs : List T) → xs ≡ update (with_key_of key []) g xs
  update-none [] = refl
  update-none (x ∷ xs) = ap (◌∷◌ x) (update-none xs)

  pub update-one :
      (u : T) (us xs : List T)
      → update (with_key_of key us) g (update (λ x. key x == key u) g xs)
        ≡ update (with_key_of key (u ∷ us)) g xs
  update-one u us [] = refl
  update-one u us (x ∷ xs) = elim (Bool-cases (key x == key u)) [
    | inl hit ↦ elim (Bool-cases (with_key_of key us x)) [
      | inl again ↦ rw (hit, keeps x, again, once x) (ap (◌∷◌ (g x)) (update-one u us xs))
      | inr last ↦ rw (hit, keeps x, last) (ap (◌∷◌ (g x)) (update-one u us xs))
    ]
    | inr missed ↦ elim (Bool-cases (with_key_of key us x)) [
      | inl later ↦ rw (missed, later) (ap (◌∷◌ (g x)) (update-one u us xs))
      | inr never ↦ rw (missed, never) (ap (◌∷◌ x) (update-one u us xs))
    ]
  ]

-- A run that succeeds and maps the two tables.
pub record Maps (f : List User → List User) (h : List UserTunnel → List UserTunnel) (m : Act)
    : Type 0 where
  pub returned : (w : World) → (m w).0 ≡ ok tt
  pub users : (w : World) → (m w).1.db.users ≡ f w.db.users
  pub user_tunnels : (w : World) → (m w).1.db.user_tunnels ≡ h w.db.user_tunnels

abbrev pub kept {ℓ} : {A : Type ℓ} → A → A
kept a = a

pub Maps-pure : Maps kept kept (pure tt)
unfolding ◌>>=◌
Maps-pure = record { returned = λ w. refl; users = λ w. refl; user_tunnels = λ w. refl }

module _ {f f' : List User → List User} {h h' : List UserTunnel → List UserTunnel} where
  pub Maps-then :
      (m n : Act)
      → Maps f h m
      → Maps f' h' n
      → Maps (λ xs. f' (f xs)) (λ xs. h' (h xs)) (m >>= λ _. n)
  unfolding ◌>>=◌
  Maps-then m n p q = record {
    returned = λ w. rw (p.returned w) (q.returned (m w).1);
    users = λ w. rw (p.returned w) (q.users (m w).1 ∙ ap f' (p.users w));
    user_tunnels = λ w. rw (p.returned w) (q.user_tunnels (m w).1 ∙ ap h' (p.user_tunnels w));
  }

pub Maps-on_user :
    (g : User → User) (id : ℕ) → Maps (update (λ u. u.id == id) g) kept (on_user g id)
unfolding on_user modify_db
Maps-on_user g id = record { returned = λ w. refl; users = λ w. refl; user_tunnels = λ w. refl }

pub Maps-on_user_tunnel :
    (g : UserTunnel → UserTunnel) (id : ℕ)
    → Maps kept (update (λ u. u.id == id) g) (on_user_tunnel g id)
unfolding on_user_tunnel modify_db
Maps-on_user_tunnel g id = record {
  returned = λ w. refl;
  users = λ w. refl;
  user_tunnels = λ w. refl;
}

pub same_users :
    {f f' : List User → List User} {h h' : List UserTunnel → List UserTunnel} (m : Act)
    → Maps f h m
    → ((xs : List User) → f xs ≡ f' xs)
    → ((xs : List UserTunnel) → h xs ≡ h' xs)
    → Maps f' h' m
same_users m p e e' = record {
  returned = p.returned;
  users = λ w. p.users w ∙ e w.db.users;
  user_tunnels = λ w. p.user_tunnels w ∙ e' w.db.user_tunnels;
}

abbrev pub user_key : User → ℕ
user_key u = u.id

abbrev pub row_key : UserTunnel → ℕ
row_key ut = ut.id

pub clear_users-Maps :
    (us : List User) → Maps (update (with_key_of user_key us) clear_user) kept (clear_users us)
unfolding clear_users
clear_users-Maps [] =
    same_users _ Maps-pure (update-none user_key clear_user (λ x. refl) (λ x. refl)) (λ xs. refl)
clear_users-Maps (u ∷ us) =
    same_users _ (Maps-then _ _ (Maps-on_user clear_user u.id) (clear_users-Maps us))
      (update-one user_key clear_user (λ x. refl) (λ x. refl) u us) (λ xs. refl)

pub clear_rows-Maps :
    (uts : List UserTunnel)
    → Maps kept (update (with_key_of row_key uts) clear_user_tunnel) (clear_user_tunnels uts)
unfolding clear_user_tunnels
clear_rows-Maps [] =
    same_users _ Maps-pure (λ xs. refl)
      (update-none row_key clear_user_tunnel (λ x. refl) (λ x. refl))
clear_rows-Maps (ut ∷ uts) =
    same_users _ (Maps-then _ _ (Maps-on_user_tunnel clear_user_tunnel ut.id) (clear_rows-Maps uts))
      (λ xs. refl) (update-one row_key clear_user_tunnel (λ x. refl) (λ x. refl) ut uts)

module _ (env : Env) where
  pause_at-Maps : (f : Forward) (t : Tunnel) (n : Node) → Maps kept kept (pause_at env f t (some n))
  unfolding pause_at ◌>>=◌ modify_db pause_entry_service pause_exit_service pause_service
      pause_service_multi_ip pause_remote_service send set_status
  pause_at-Maps f t n = record {
    returned = λ w. elim (Option-cases (get_node_by_id t.out_node_id w.db)) [
      | inl missing ↦ ground (arith, missing)
      | inr (o, found) ↦ ground (arith, found)
    ];
    users = λ w. elim (Option-cases (get_node_by_id t.out_node_id w.db)) [
      | inl missing ↦ ground (arith, missing)
      | inr (o, found) ↦ ground (arith, found)
    ];
    user_tunnels = λ w. elim (Option-cases (get_node_by_id t.out_node_id w.db)) [
      | inl missing ↦ ground (arith, missing)
      | inr (o, found) ↦ ground (arith, found)
    ];
  }

  pub Maps-gets :
      {A : Type 0} (q : Db → A) (k : A → Act)
      → ((a : A) → Maps kept kept (k a))
      → Maps kept kept (gets q >>= k)
  unfolding ◌>>=◌
  Maps-gets q k p = record {
    returned = λ w. (p (q w.db)).returned w;
    users = λ w. (p (q w.db)).users w;
    user_tunnels = λ w. (p (q w.db)).user_tunnels w;
  }

  pause_at_any-Maps :
      (f : Forward) (t : Tunnel) (n : Option Node) → Maps kept kept (pause_at env f t n)
  unfolding pause_at
  pause_at_any-Maps f t none = Maps-pure
  pause_at_any-Maps f t (some n) = pause_at-Maps f t n

  pause_on-Maps : (f : Forward) (t : Option Tunnel) → Maps kept kept (pause_on env f t)
  unfolding pause_on
  pause_on-Maps f none = Maps-pure
  pause_on-Maps f (some t) = Maps-gets _ _ (pause_at_any-Maps f t)

  pub pause_each-Maps : (fs : List Forward) → Maps kept kept (pause_each env fs)
  unfolding pause_each pause_single_forward
  pause_each-Maps [] = Maps-pure
  pause_each-Maps (f ∷ fs) =
      same_users _ (Maps-then _ _ (Maps-gets _ _ (pause_on-Maps f)) (pause_each-Maps fs))
        (λ xs. refl) (λ xs. refl)
