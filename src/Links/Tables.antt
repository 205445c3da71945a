-- ===== src/Links/Tables.antt =====
-- Writes to single tables that keep the references.
use flux_panel_v.Base.{
  is_some, ℕ, ◌+◌, ◌≤◌, ◌≡◌, ◌≢◌, refl, sym, subst, ◌∙◌, ◌⊎◌, inl, inr, Bool, true, not, ◌&&◌, List,
  [], ◌∷◌, ◌++◌, arith, length, select, find, update, All, All-map_of, Bool-cases, if◌then◌else◌,
  ◌==◌,
}
use flux_panel_v.Model.{User, Forward, Tunnel, UserTunnel}
use flux_panel_v.Store.{Db}
use flux_panel_v.UserTunnels.{count_rows}
use flux_panel_v.Links.{HasTunnel, IsLinked}

module _ {A : Type 0} (P : A → Type 0) where
  pub All-update :
      (p : A → Bool) (g : A → A) (xs : List A)
      → ((x : A) → P x → P (g x))
      → All P xs
      → All P (update p g xs)
  All-update p g [] k h = tt
  All-update p g (x ∷ xs) k h = elim (Bool-cases (p x)) [
    | inl hit ↦ rw hit (k x h.0, All-update p g xs k h.1)
    | inr missed ↦ rw missed (h.0, All-update p g xs k h.1)
  ]

  pub All-select : (p : A → Bool) (xs : List A) → All P xs → All P (select p xs)
  All-select p [] h = tt
  All-select p (x ∷ xs) h = elim (Bool-cases (p x)) [
    | inl hit ↦ rw hit (h.0, All-select p xs h.1)
    | inr missed ↦ rw missed (All-select p xs h.1)
  ]

  pub All-snoc : (xs : List A) (a : A) → All P xs → P a → All P (xs ++ (a ∷ []))
  All-snoc [] a h ha = (ha, tt)
  All-snoc (x ∷ xs) a h ha = (h.0, All-snoc xs a h.1 ha)

pub with_forwards-IsLinked :
    (db : Db) (fs : List Forward)
    → IsLinked db
    → All (λ f. HasTunnel db f.tunnel_id) fs
    → IsLinked (record db { forwards = fs })
unfolding count_rows
with_forwards-IsLinked db fs h k = record {
  forwards = k;
  user_tunnels = h.user_tunnels;
  single = h.single;
}

pub with_users-IsLinked :
    (db : Db) (us : List User) → IsLinked db → IsLinked (record db { users = us })
unfolding count_rows
with_users-IsLinked db us h = record {
  forwards = h.forwards;
  user_tunnels = h.user_tunnels;
  single = h.single;
}

-- An update of forwards that leaves them on their tunnels, or moves them to one that exists.
pub update_forwards-IsLinked :
    (db : Db) (p : Forward → Bool) (g : Forward → Forward)
    → ((f : Forward) → ((g f).tunnel_id ≡ f.tunnel_id) ⊎ HasTunnel db (g f).tunnel_id)
    → IsLinked db
    → IsLinked (record db { forwards = update p g db.forwards })
update_forwards-IsLinked db p g k h = with_forwards-IsLinked db _ h (
    All-update (λ f. HasTunnel db f.tunnel_id) p g db.forwards
      (λ f hf. elim (k f) [ inl same ↦ subst (HasTunnel db) (sym same) hf | inr moved ↦ moved ])
      h.forwards)

pub select_forwards-IsLinked :
    (db : Db) (p : Forward → Bool)
    → IsLinked db
    → IsLinked (record db { forwards = select p db.forwards })
select_forwards-IsLinked db p h =
    with_forwards-IsLinked db _ h
      (All-select (λ f. HasTunnel db f.tunnel_id) p db.forwards h.forwards)

pub add_forward-IsLinked :
    (db : Db) (f : Forward)
    → HasTunnel db f.tunnel_id
    → IsLinked db
    → IsLinked (record db { forwards = db.forwards ++ (f ∷ []) })
add_forward-IsLinked db f k h =
    with_forwards-IsLinked db _ h
      (All-snoc (λ f. HasTunnel db f.tunnel_id) db.forwards f h.forwards k)

-- Permission rows.
abbrev is_row : ℕ → ℕ → UserTunnel → Bool
is_row u t ut = ut.user_id == u && ut.tunnel_id == t

length-select-update :
    (p q : UserTunnel → Bool) (g : UserTunnel → UserTunnel)
    → ((x : UserTunnel) → q (g x) ≡ q x)
    → (xs : List UserTunnel) → length (select q (update p g xs)) ≡ length (select q xs)
length-select-update p q g k [] = refl
length-select-update p q g k (x ∷ xs) = ground (arith, k x, length-select-update p q g k xs)

length-select-select :
    (p q : UserTunnel → Bool) (xs : List UserTunnel)
    → length (select q (select p xs)) ≤ length (select q xs)
length-select-select p q [] = omega arith
length-select-select p q (x ∷ xs) = ground (arith, length-select-select p q xs)

length-select_snoc :
    (q : UserTunnel → Bool) (xs : List UserTunnel) (a : UserTunnel)
    → length (select q (xs ++ (a ∷ []))) ≡ length (select q xs) + (if q a then 1 else 0)
length-select_snoc q [] a = ground arith
length-select_snoc q (x ∷ xs) a = ground (arith, length-select_snoc q xs a)

pub update_rows-IsLinked :
    (db : Db) (p : UserTunnel → Bool) (g : UserTunnel → UserTunnel)
    → ((x : UserTunnel) → (g x).user_id ≡ x.user_id)
    → ((x : UserTunnel) → (g x).tunnel_id ≡ x.tunnel_id)
    → IsLinked db
    → IsLinked (record db { user_tunnels = update p g db.user_tunnels })
unfolding count_rows
update_rows-IsLinked db p g ku kt h = record {
  forwards = h.forwards;
  user_tunnels =
      All-update (λ ut. HasTunnel db ut.tunnel_id) p g db.user_tunnels
        (λ x hx. subst (HasTunnel db) (sym (kt x)) hx) h.user_tunnels;
  single = λ u t.
      rw (length-select-update p (is_row u t) g (λ x. ground (arith, ku x, kt x)) db.user_tunnels)
        (h.single u t);
}

pub select_rows-IsLinked :
    (db : Db) (p : UserTunnel → Bool)
    → IsLinked db
    → IsLinked (record db { user_tunnels = select p db.user_tunnels })
unfolding count_rows
select_rows-IsLinked db p h = record {
  forwards = h.forwards;
  user_tunnels = All-select (λ ut. HasTunnel db ut.tunnel_id) p db.user_tunnels h.user_tunnels;
  single = λ u t. omega (arith, length-select-select p (is_row u t) db.user_tunnels, h.single u t);
}

pub add_row-IsLinked :
    (db : Db) (a : UserTunnel)
    → HasTunnel db a.tunnel_id
    → count_rows a.user_id a.tunnel_id db ≡ 0
    → IsLinked db
    → IsLinked (record db { user_tunnels = db.user_tunnels ++ (a ∷ []) })
unfolding count_rows
add_row-IsLinked db a k none_yet h = record {
  forwards = h.forwards;
  user_tunnels = All-snoc (λ ut. HasTunnel db ut.tunnel_id) db.user_tunnels a h.user_tunnels k;
  single = λ u t.
      rw (length-select_snoc (is_row u t) db.user_tunnels a) (elim (Bool-cases (is_row u t a)) [
        | inl own ↦
            let eu : u ≡ a.user_id = ground arith in
            let et : t ≡ a.tunnel_id = ground arith in rw (own, eu, et, none_yet) (omega arith)
        | inr other ↦ rw other (omega (arith, h.single u t))
      ]);
}

-- Tunnels.
pub with_tunnels-IsLinked :
    (db : Db) (ts : List Tunnel)
    → ((id : ℕ) → HasTunnel db id → is_some (find (λ t. t.id == id) ts) ≡ true)
    → IsLinked db
    → IsLinked (record db { tunnels = ts })
unfolding count_rows
with_tunnels-IsLinked db ts k h = record {
  forwards =
      All-map_of (λ f. HasTunnel db f.tunnel_id) _ db.forwards (λ f. k f.tunnel_id) h.forwards;
  user_tunnels =
      All-map_of (λ f. HasTunnel db f.tunnel_id) _ db.user_tunnels (λ ut. k ut.tunnel_id)
        h.user_tunnels;
  single = h.single;
}

found-snoc :
    (id : ℕ) (ts : List Tunnel) (a : Tunnel)
    → is_some (find (λ t. t.id == id) ts) ≡ true
    → is_some (find (λ t. t.id == id) (ts ++ (a ∷ []))) ≡ true
found-snoc id [] a h = cc
found-snoc id (t ∷ ts) a h = ground (arith, found-snoc id ts a)

found-update :
    (id : ℕ) (p : Tunnel → Bool) (g : Tunnel → Tunnel) (k : (t : Tunnel) → (g t).id ≡ t.id)
    (ts : List Tunnel)
    → is_some (find (λ t. t.id == id) (update p g ts)) ≡ is_some (find (λ t. t.id == id) ts)
found-update id p g k [] = refl
found-update id p g k (t ∷ ts) = ground (arith, k t, found-update id p g k ts)

pub found-select :
    (id gone : ℕ) (ts : List Tunnel)
    → id ≢ gone
    → is_some (find (λ t. t.id == id) (select (λ t. not (t.id == gone)) ts))
      ≡ is_some (find (λ t. t.id == id) ts)
found-select id gone [] ne = refl
found-select id gone (t ∷ ts) ne = ground (arith, found-select id gone ts ne)

pub add_tunnel-IsLinked :
    (db : Db) (a : Tunnel) → IsLinked db → IsLinked (record db { tunnels = db.tunnels ++ (a ∷ []) })
add_tunnel-IsLinked db a h = with_tunnels-IsLinked db _ (λ id. found-snoc id db.tunnels a) h

pub update_tunnels-IsLinked :
    (db : Db) (p : Tunnel → Bool) (g : Tunnel → Tunnel)
    → ((t : Tunnel) → (g t).id ≡ t.id)
    → IsLinked db
    → IsLinked (record db { tunnels = update p g db.tunnels })
update_tunnels-IsLinked db p g k h =
    with_tunnels-IsLinked db _ (λ id e. found-update id p g k db.tunnels ∙ e) h
