-- ===== src/Tunnels/Listing.antt =====
-- The tunnels that a user is offered, and the check that `CreateForward` makes of them.
use flux_panel_v.Base.{
  ==_iff, ◌||◌, ℕ, ◌≡◌, refl, inl, inr, true, false, not, ◌&&◌, Option, none, some, List, [], ◌∷◌,
  ◌++◌, arith, All, All-map_of, Any, length, select, find, find-holds, ltb, Bool-cases, ◌==◌,
}
use flux_panel_v.Model.{Tunnel, UserTunnel, UserNode, Node}
use flux_panel_v.Store.{Db, ok}
use flux_panel_v.Forward.{is_tunnel_forward, get_node_by_id, user_has_gost_node_access}
use flux_panel_v.Forward.Create.{is_barred, check_node_access}
use flux_panel_v.Tunnels.{
  node_rows, is_gost_node, is_listed, rows_of, joined, get_user_accessible_tunnels,
}

pub All-append :
    {A : Type 0} (P : A → Type 0) (front back : List A)
    → All P front
    → All P back
    → All P (front ++ back)
All-append P [] back h k = k
All-append P (a ∷ front) back (ha, h) k = (ha, All-append P front back h k)

module _ (user_id : ℕ) (db : Db) where
  -- An enabled row of the user's on the tunnel, with this key.
  abbrev pub Permits : Tunnel → ℕ → UserTunnel → Type 0
  Permits t row ut =
      (ut.id ≡ row) × ((ut.user_id ≡ user_id) × ((ut.tunnel_id ≡ t.id) × (ut.status ≡ 1)))

  -- The pair's key is that of such a row, and the check of the nodes lets its user pass.
  abbrev pub IsOffered : List UserTunnel → Tunnel × ℕ → Type 0
  IsOffered uts (t, row) =
      Any (Permits t row) uts × ((role_id : ℕ) → check_node_access user_id role_id t db ≡ ok tt)

  same_rows :
      (n : ℕ) (rs : List UserNode)
      → length (select (λ r. r.user_id == user_id && (r.gost_enabled == 1 && r.node_id == n)) rs)
        ≡ length (select (λ r. r.user_id == user_id && (r.node_id == n && r.gost_enabled == 1)) rs)
  same_rows n [] = refl
  same_rows n (r ∷ rs) = ground (arith, same_rows n rs)

  has_access :
      (n : ℕ)
      → (not (ltb 0 (node_rows user_id db)) || is_gost_node user_id db n) ≡ true
      → user_has_gost_node_access user_id n db ≡ true
  unfolding user_has_gost_node_access
  has_access n h = ground (arith, same_rows n db.user_nodes)

  lets_in :
      (n : ℕ) (o : Option Node)
      → find (λ m. m.id == n) db.nodes ≡ o
      → (not (ltb 0 (node_rows user_id db)) || is_gost_node user_id db n) ≡ true
      → is_barred user_id o db ≡ false
  lets_in n none found h = refl
  lets_in n (some m) found h =
      let same : m.id ≡ n = (==_iff m.id n).0 (find-holds (λ m. m.id == n) db.nodes found) in
      rw (same, has_access n h) refl

  listed-access :
      (role_id : ℕ) (t : Tunnel) (ut : UserTunnel)
      → is_listed user_id db t ut ≡ true
      → check_node_access user_id role_id t db ≡ ok tt
  unfolding is_listed check_node_access get_node_by_id
  listed-access role_id t ut h =
      let in_free = lets_in t.in_node_id _ refl (ground arith) in
      elim (Bool-cases (is_tunnel_forward t)) [
        | inl two ↦
            let out_free = lets_in t.out_node_id _ refl (ground arith) in
            rw (in_free, out_free, two) (ground arith)
        | inr one ↦ rw (in_free, one) (ground arith)
      ]

  listed-Permits :
      (t : Tunnel) (ut : UserTunnel) → is_listed user_id db t ut ≡ true → Permits t ut.id ut
  unfolding is_listed
  listed-Permits t ut h = ground arith

  rows_of-IsOffered :
      (t : Tunnel) (uts : List UserTunnel) → All (IsOffered uts) (rows_of user_id db t uts)
  rows_of-IsOffered t [] = tt
  rows_of-IsOffered t (ut ∷ uts) =
      let later : All (IsOffered (ut ∷ uts)) (rows_of user_id db t uts) =
        All-map_of (IsOffered uts) (IsOffered (ut ∷ uts)) (rows_of user_id db t uts)
          (λ x h. (inr h.0, h.1)) (rows_of-IsOffered t uts) in
      elim (Bool-cases (is_listed user_id db t ut)) [
        | inl hit ↦
            rw hit
              ((inl (listed-Permits t ut hit), λ role_id. listed-access role_id t ut hit), later)
        | inr missed ↦ rw missed later
      ]

  joined-IsOffered : (ts : List Tunnel) → All (IsOffered db.user_tunnels) (joined user_id db ts)
  joined-IsOffered [] = tt
  joined-IsOffered (t ∷ ts) =
      All-append (IsOffered db.user_tunnels) (rows_of user_id db t db.user_tunnels) _
        (rows_of-IsOffered t db.user_tunnels) (joined-IsOffered ts)

-- Every tunnel that an ordinary user is offered comes with the key of an enabled row of his on it,
-- and `CreateForward`'s check of the tunnel's nodes lets him pass: no tunnel is offered that he is
-- then refused for its nodes.
pub get_user_accessible_tunnels-IsOffered :
    (user_id : ℕ) (db : Db)
    → All (IsOffered user_id db db.user_tunnels) (get_user_accessible_tunnels user_id db)
unfolding get_user_accessible_tunnels
get_user_accessible_tunnels-IsOffered user_id db = joined-IsOffered user_id db db.tunnels
