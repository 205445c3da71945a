-- ===== src/Reconcile/Recovery.antt =====
-- What a synchronisation writes: forwards that were in error may be active again.
use flux_panel_v.Base.{
  ℕ, ◌≡◌, refl, sym, ap, subst, ◌∙◌, ◌⊎◌, inl, inr, Bool, true, false, ◌&&◌, ◌||◌, Option, List, [],
  ◌∷◌, All, All-map_of, Text, any, update, ==_iff, ◌==◌, if◌then◌else◌,
}
use flux_panel_v.Model.{ℤ, pos, Forward}
use flux_panel_v.Store.{Db, World, Env, Sent, modify_db}
use flux_panel_v.Store.Preserves.{Preserves, Preserves-modify}
use flux_panel_v.Reconcile.Forwards.{is_error, recover}
use flux_panel_v.Reconcile.Runs.{reconcile_gost_services}
use flux_panel_v.Reconcile.Preserves.{reconcile-Preserves}

-- Some forward with this key was in error.
abbrev pub HadError : Db → ℕ → Type 0
HadError db k = any (λ f. f.id == k && is_error f) db.forwards ≡ true

-- The rows in their order, each as it was, or active where its key had an error.
abbrev pub Rows : (ℕ → Type 0) → List Forward → List Forward → Type 0
Rows E [] [] = Unit
Rows E (f ∷ fs) (g ∷ gs) = ((g ≡ f) ⊎ (E f.id × (g ≡ record f { status = pos 1 }))) × Rows E fs gs
Rows E _ _ = ⊥

-- Nothing else is written.
pub record Recovers (before after : Db) : Type 0 where
  pub users : after.users ≡ before.users
  pub forwards : Rows (HadError before) before.forwards after.forwards
  pub tunnels : after.tunnels ≡ before.tunnels
  pub user_tunnels : after.user_tunnels ≡ before.user_tunnels
  pub nodes : after.nodes ≡ before.nodes
  pub user_nodes : after.user_nodes ≡ before.user_nodes
  pub speed_limits : after.speed_limits ≡ before.speed_limits

Rows-refl : (E : ℕ → Type 0) (fs : List Forward) → Rows E fs fs
Rows-refl E [] = tt
Rows-refl E (f ∷ fs) = (inl refl, Rows-refl E fs)

Rows-recover :
    (E : ℕ → Type 0) (id : ℕ) (fs gs : List Forward)
    → E id
    → Rows E fs gs
    → Rows E fs (update (λ f. f.id == id) (λ f. record f { status = pos 1 }) gs)
Rows-recover E id [] [] e h = tt
Rows-recover E id [] (g ∷ gs) e h = absurd h
Rows-recover E id (f ∷ fs) [] e h = absurd h
Rows-recover E id (f ∷ fs) (g ∷ gs) e h = (row (g.id == id) refl h.0, Rows-recover E id fs gs e h.1)
  where
    row :
        (b : Bool)
        → (g.id == id) ≡ b
        → (g ≡ f) ⊎ (E f.id × (g ≡ record f { status = pos 1 }))
        → ((if b then record g { status = pos 1 } else g) ≡ f)
          ⊎ (E f.id
              × ((if b then record g { status = pos 1 } else g) ≡ record f { status = pos 1 }))
    row false m o = o
    row true m (inl same) = inr (
      subst E (sym ((==_iff g.id id).0 m) ∙ ap (λ (x : Forward). x.id) same) e,
      ap (λ (x : Forward). record x { status = pos 1 }) same,
    )
    row true m (inr (k, done)) = inr (k, ap (λ (x : Forward). record x { status = pos 1 }) done)

-- A forward that is read as in error had an error.
abbrev FromError : (ℕ → Type 0) → Forward → Type 0
FromError E f = is_error f ≡ true → E f.id

Rows-FromError :
    (E : ℕ → Type 0) (fs gs : List Forward)
    → Rows E fs gs
    → All (FromError E) fs
    → All (FromError E) gs
Rows-FromError E [] [] h k = tt
Rows-FromError E [] (g ∷ gs) h k = absurd h
Rows-FromError E (f ∷ fs) [] h k = absurd h
Rows-FromError E (f ∷ fs) (g ∷ gs) h k = (row h.0, Rows-FromError E fs gs h.1 k.1)
  where
    row : (g ≡ f) ⊎ (E f.id × (g ≡ record f { status = pos 1 })) → FromError E g
    row (inl same) = subst (FromError E) (sym same) k.0
    row (inr (e, done)) = subst (FromError E) (sym done) (λ m. e)

own-FromError :
    (fs : List Forward) → All (FromError (λ k. any (λ f. f.id == k && is_error f) fs ≡ true)) fs
own-FromError [] = tt
own-FromError (f ∷ fs) = (
  λ m. rw ((==_iff f.id f.id).1 refl, m) refl,
  All-map_of _ _ fs (λ g k m. later (f.id == g.id && is_error f) _ (k m)) (own-FromError fs),
)
  where
    later : (b c : Bool) → c ≡ true → b || c ≡ true
    later true c e = refl
    later false c e = e

read-FromError :
    (before after : Db) → Recovers before after → All (FromError (HadError before)) after.forwards
read-FromError before after h =
    Rows-FromError (HadError before) before.forwards after.forwards h.forwards
      (own-FromError before.forwards)

recover-Recovers :
    (before : Db) (id : ℕ)
    → HadError before id
    → Preserves (Recovers before) (modify_db (recover id))
unfolding recover
recover-Recovers before id e = Preserves-modify _ (λ db h. record {
  users = h.users;
  forwards = Rows-recover (HadError before) id before.forwards db.forwards e h.forwards;
  tunnels = h.tunnels;
  user_tunnels = h.user_tunnels;
  nodes = h.nodes;
  user_nodes = h.user_nodes;
  speed_limits = h.speed_limits;
})

-- The GOST part of a synchronisation, its limiters, forwards and orphaned services, changes none of
-- the users, tunnels, permission rows, nodes, shares of nodes and speed limits, and no forward but so:
-- each stays as it is, in its place, or gets the status 1, and that only where a forward with its key
-- had the status -1.
pub reconcile_gost_services-Recovers :
    (env : Env) (parse_int : Text → Option ℤ) (data_of : List Sent → Option (List Text)) (node : ℕ)
    (is_locked : Bool) (w : World)
    → Recovers w.db (reconcile_gost_services env parse_int data_of node is_locked w).1.db
reconcile_gost_services-Recovers env parse_int data_of node is_locked w =
    (reconcile-Preserves {P = Recovers w.db} (FromError (HadError w.db))
        (λ f broken m. recover-Recovers w.db f.id (broken m)) (read-FromError w.db) env node
        parse_int data_of is_locked).after
      w
      (record {
        users = refl;
        forwards = Rows-refl (HadError w.db) w.db.forwards;
        tunnels = refl;
        user_tunnels = refl;
        nodes = refl;
        user_nodes = refl;
        speed_limits = refl;
      })
