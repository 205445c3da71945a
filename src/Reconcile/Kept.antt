-- ===== src/Reconcile/Kept.antt =====
-- The clean-up of a node and the services of its own forwards.
use mathlib.Core.List.{append_assoc}
use flux_panel_v.Base.{
  ℕ, ◌+◌, ◌≡◌, refl, sym, ap, subst, ◌∙◌, inl, inr, Bool, true, false, not, ◌&&◌, Option, none,
  some, List, [], ◌∷◌, ◌++◌, All, Any, All-map_of, Text, codes, any, length, leb, select, show_nat,
  split, Bool-cases, ◌==◌,
}
use flux_panel_v.Model.{ℤ, pos, eq_ℤ, Tunnel, UserTunnel}
use flux_panel_v.Gost.{
  ServiceArgs, split_listen_ips, build_services, names_per_ip, build_multi_ip_service_names,
}
use flux_panel_v.Gost.Names.{names_of, names-build_services}
use flux_panel_v.Store.{Db}
use flux_panel_v.Forward.{build_service_name, tunnel_key}
use flux_panel_v.Flow.Names.{split-suffixed}
use flux_panel_v.Reconcile.{is_on_node}
use flux_panel_v.Reconcile.Orphans.{keep_key, keyed, read_names, orphans}

-- A name whose parts are three or more, the first of them a forward's key.
BelongsTo : ℕ → Text → Type 0
BelongsTo id name =
    (b : Text) × (c : Text) × (rest : List Text) × (split b'_' name
      ≡ show_nat id ∷ (b ∷ (c ∷ rest)))

module _ (id user_id : ℕ) (ut : Option UserTunnel) where
  suffix-BelongsTo :
      (rest : Text) → BelongsTo id (build_service_name id user_id ut ++ (b'_' ∷ rest))
  unfolding BelongsTo
  suffix-BelongsTo rest = (
    show_nat user_id,
    show_nat (tunnel_key ut),
    split b'_' rest,
    split-suffixed id user_id ut rest,
  )

  names_per_ip-BelongsTo :
      (i : ℕ) (ips : List Text)
      → All (BelongsTo id) (names_per_ip (build_service_name id user_id ut) i ips)
  unfolding names_per_ip
  names_per_ip-BelongsTo i [] = tt
  names_per_ip-BelongsTo i (ip ∷ ips) =
      let name = build_service_name id user_id ut in
      (
        rw (append_assoc name (b'_' ∷ show_nat i) (codes "_tcp")) (suffix-BelongsTo _),
        (
          rw (append_assoc name (b'_' ∷ show_nat i) (codes "_udp")) (suffix-BelongsTo _),
          names_per_ip-BelongsTo (i + 1) ips,
        ),
      )

  services-BelongsTo :
      (a : ServiceArgs) (t : Tunnel)
      → All (BelongsTo id) (names_of (build_services (build_service_name id user_id ut) a t))
  unfolding build_multi_ip_service_names
  services-BelongsTo a t =
      let name = build_service_name id user_id ut in
      rw (names-build_services name a t)
        (elim (Bool-cases (leb (length (split_listen_ips t.tcp_listen_addr)) 1)) [
          | inl single ↦
              rw single (suffix-BelongsTo (codes "tcp"), (suffix-BelongsTo (codes "udp"), tt))
          | inr many ↦ rw many (names_per_ip-BelongsTo 0 (split_listen_ips t.tcp_listen_addr))
        ])

-- Each name on the list has the key that it was read with.
module _ (parse_int : Text → Option ℤ) (id : ℕ)
    (reads : parse_int (show_nat id) ≡ some (pos id)) where
  HasKey : ℤ × Text → Type 0
  HasKey p = BelongsTo id p.1 → p.0 ≡ pos id

  own_key :
      (name a b c : Text) (ps : List Text) (k : ℤ)
      → split b'_' name ≡ a ∷ (b ∷ (c ∷ ps))
      → parse_int a ≡ some k
      → HasKey (k, name)
  unfolding HasKey BelongsTo
  own_key name a b c ps k e p (d, f, rest, g) =
      let same : a ≡ show_nat id = heads (sym e ∙ g) in somes (sym p ∙ ap parse_int same ∙ reads)
    where
      heads : {x y : Text} {xs ys : List Text} → x ∷ xs ≡ y ∷ ys → x ≡ y
      heads q = cc

      somes : {x y : ℤ} → some x ≡ some y → x ≡ y
      somes q = cc

  keyed-HasKey :
      (name : Text) (parts : List Text) (rest : List (ℤ × Text))
      → split b'_' name ≡ parts
      → All HasKey rest
      → All HasKey (keyed parse_int name parts rest)
  keyed-HasKey name [] rest e h = h
  keyed-HasKey name (a ∷ []) rest e h = h
  keyed-HasKey name (a ∷ (b ∷ [])) rest e h = h
  keyed-HasKey name (a ∷ (b ∷ (c ∷ ps))) rest e h = kept (parse_int a) refl
    where
      kept : (o : Option ℤ) → parse_int a ≡ o → All HasKey (keep_key parse_int name o rest)
      kept none p = h
      kept (some k) p = (own_key name a b c ps k e p, h)

  read_names-HasKey : (names : List Text) → All HasKey (read_names parse_int names)
  unfolding read_names
  read_names-HasKey [] = tt
  read_names-HasKey (name ∷ names) =
      keyed-HasKey name (split b'_' name) _ refl (read_names-HasKey names)

  All-select_test :
      (p : ℤ × Text → Bool) (xs : List (ℤ × Text))
      → All HasKey xs
      → All (λ x. HasKey x × (p x ≡ true)) (select p xs)
  All-select_test p [] h = tt
  All-select_test p (x ∷ xs) h = elim (Bool-cases (p x)) [
    | inl hit ↦ rw hit ((h.0, hit), All-select_test p xs h.1)
    | inr missed ↦ rw missed (All-select_test p xs h.1)
  ]

  -- A forward with a tunnel on the node keeps its names off the list.
  orphans-spare :
      (node : ℕ) (names : List Text) (db : Db)
      → any (λ f. f.id == id && is_on_node node db f) db.forwards ≡ true
      → All (λ p. BelongsTo id p.1 → ⊥) (orphans parse_int node names db)
  unfolding orphans HasKey
  orphans-spare node names db there =
      All-map_of _ _ _
        (λ p h b.
          contradiction (any (λ f. eq_ℤ (pos f.id) p.0 && is_on_node node db f) db.forwards)
            (ap (λ k. any (λ f. eq_ℤ (pos f.id) k && is_on_node node db f) db.forwards) (h.0 b)
              ∙ there)
            h.1)
        (All-select_test
          (λ p. not (any (λ f. eq_ℤ (pos f.id) p.0 && is_on_node node db f) db.forwards))
          (read_names parse_int names) (read_names-HasKey names))
    where
      contradiction : (b : Bool) → b ≡ true → not b ≡ true → ⊥
      contradiction true e f = cc
      contradiction false e f = cc

not_listed :
    (id : ℕ) (name : Text) (ps : List (ℤ × Text))
    → BelongsTo id name
    → All (λ p. BelongsTo id p.1 → ⊥) ps
    → Any (λ p. p.1 ≡ name) ps
    → ⊥
not_listed id name [] b h k = k
not_listed id name (p ∷ ps) b h (inl same) = h.0 (subst (BelongsTo id) (sym same) b)
not_listed id name (p ∷ ps) b h (inr later) = not_listed id name ps b h.1 later

-- A forward that has a tunnel on the node keeps the services that it was given there: whatever names
-- the node answers, and whatever user, permission row, tunnel and addresses the services were built
-- for, the clean-up deletes none that is built for its entry, and not the one at its exit. The reading of an integer has to read the forward's
-- key back from its decimal digits.
pub orphans-spare_services :
    (parse_int : Text → Option ℤ) (node : ℕ) (names : List Text) (db : Db) (id user_id : ℕ)
    (ut : Option UserTunnel) (a : ServiceArgs) (t : Tunnel)
    → parse_int (show_nat id) ≡ some (pos id)
    → any (λ f. f.id == id && is_on_node node db f) db.forwards ≡ true
    → All
        (λ name. Any (λ p. p.1 ≡ name) (orphans parse_int node names db) → ⊥)
        ((build_service_name id user_id ut ++ codes "_tls")
          ∷ names_of (build_services (build_service_name id user_id ut) a t))
orphans-spare_services parse_int node names db id user_id ut a t reads there =
    let spared = orphans-spare parse_int id reads node names db there in
    (
      λ listed. not_listed id _ _ (suffix-BelongsTo id user_id ut (codes "tls")) spared listed,
      All-map_of _ _ _ (λ name b listed. not_listed id name _ b spared listed)
          (services-BelongsTo id user_id ut a t),
    )
