-- ===== src/Reconcile/Preserves.antt =====
-- What a synchronisation keeps of the tables, if recovering a forward that was read in error keeps it.
use flux_panel_v.Base.{
  ℕ, ◌≡◌, subst, inl, inr, Bool, true, Option, none, some, List, [], ◌∷◌, All, Text, select,
  Bool-cases, ◌==◌,
}
use flux_panel_v.Model.{ℤ, Forward, Tunnel, UserTunnel, Node, SpeedLimit}
use flux_panel_v.Store.{Db, World, Env, Sent, Result, ok, err, panic, gets, ◌>>=◌, modify_db}
use flux_panel_v.Store.Preserves.{
  Preserves, Preserves-bind, Preserves-bind_of, Preserves-gets, preserving,
}
use flux_panel_v.Links.Tables.{All-select}
use flux_panel_v.Nodes.{
  get_service_names, add_limiters, add_service, add_remote_service, add_chains, update_forwarder,
  update_remote_forwarder, pause_remote_service, pause_service, pause_service_multi_ip,
}
use flux_panel_v.Reconcile.{ReconcileResult, speed_key}
use flux_panel_v.Reconcile.Limiters.{
  push_limiter, reconcile_limiter, reconcile_rows, reconcile_tunnel_rows, reconcile_limiters, Seen,
}
use flux_panel_v.Reconcile.Forwards.{
  is_error, recover, sync_entry, sync_exit, gentle_sync_gost_services, note_sync, pause_entry_here,
  pause_exit_here, keep_paused, reconcile_forward, reconcile_each, reconcile_on, reconcile_tunnels,
  reconcile_forwards,
}
use flux_panel_v.Reconcile.Orphans.{
  delete_orphans, clean_listed, answer_data, cleanup_orphan_services,
}
use flux_panel_v.Reconcile.Runs.{reconcile_gost, reconcile_gost_services}

module _ {P : Db → Type 0} (env : Env) (node : ℕ) where
  push-Preserves :
      (k : ℕ) (limit : Option SpeedLimit) (s : Seen) → Preserves P (push_limiter env node k limit s)
  unfolding push_limiter add_limiters
  push-Preserves k none s = search preserving
  push-Preserves k (some limit) s = search preserving

  limiter-Preserves : (k : Option ℕ) (s : Seen) → Preserves P (reconcile_limiter env node k s)
  unfolding reconcile_limiter
  limiter-Preserves none s = search preserving
  limiter-Preserves (some k) s = search (preserving, push-Preserves)

  rows-Preserves : (uts : List UserTunnel) (s : Seen) → Preserves P (reconcile_rows env node uts s)
  unfolding reconcile_rows
  rows-Preserves [] s = search preserving
  rows-Preserves (ut ∷ uts) s =
      Preserves-bind _ _ (limiter-Preserves (speed_key ut.speed_id) s) (λ v. rows-Preserves uts v)

  tunnel_rows-Preserves :
      (ts : List Tunnel) (s : Seen) → Preserves P (reconcile_tunnel_rows env node ts s)
  unfolding reconcile_tunnel_rows
  tunnel_rows-Preserves [] s = search preserving
  tunnel_rows-Preserves (t ∷ ts) s =
      Preserves-bind _ _ (Preserves-gets _)
        (λ uts. Preserves-bind _ _ (rows-Preserves uts s) (λ v. tunnel_rows-Preserves ts v))

  limiters-Preserves : (r : ReconcileResult) → Preserves P (reconcile_limiters env node r)
  unfolding reconcile_limiters
  limiters-Preserves r = search (preserving, tunnel_rows-Preserves)

  entry-Preserves :
      (f : Forward) (t : Tunnel) (limiter : Option ℕ) (n : Node) (name : Text)
      → Preserves P (sync_entry env f t limiter n name)
  unfolding sync_entry add_service update_forwarder
  entry-Preserves f t limiter n name = search preserving depth 20

  exit-Preserves :
      (f : Forward) (t : Tunnel) (limiter : Option ℕ) (n : Node) (o : Option Node) (name : Text)
      → Preserves P (sync_exit env f t limiter n o name)
  unfolding sync_exit add_remote_service update_remote_forwarder
  exit-Preserves f t limiter n none name = search preserving
  exit-Preserves f t limiter n (some o) name = search (preserving, entry-Preserves) depth 20

  gentle-Preserves :
      (f : Forward) (t : Tunnel) (limiter : Option ℕ) (n : Node) (o : Option Node) (name : Text)
      → Preserves P (gentle_sync_gost_services env f t limiter n o name)
  unfolding gentle_sync_gost_services add_chains
  gentle-Preserves f t limiter n o name =
      search (preserving, entry-Preserves, exit-Preserves) depth 20

  pause_exit-Preserves :
      (t : Tunnel) (o : Option Node) (name : Text) → Preserves P (pause_exit_here env node t o name)
  unfolding pause_exit_here pause_remote_service
  pause_exit-Preserves t none name = search preserving
  pause_exit-Preserves t (some o) name = search preserving

  keep_paused-Preserves :
      (f : Forward) (t : Tunnel) (o : Option Node) (name : Text)
      → Preserves P (keep_paused env node f t o name)
  unfolding keep_paused pause_entry_here pause_service pause_service_multi_ip
  keep_paused-Preserves f t o name = search (preserving, pause_exit-Preserves) depth 20

  module _ (parse_int : Text → Option ℤ) (data_of : List Sent → Option (List Text)) where
    delete-Preserves :
        (ps : List (ℤ × Text)) (r : ReconcileResult)
        → Preserves P (delete_orphans env parse_int data_of node ps r)
    unfolding delete_orphans
    delete-Preserves [] r = search preserving
    delete-Preserves (p ∷ ps) r = search preserving

    listed-Preserves :
        (names : Option (List Text)) (r : ReconcileResult)
        → Preserves P (clean_listed env parse_int data_of node names r)
    unfolding clean_listed
    listed-Preserves none r = search preserving
    listed-Preserves (some names) r = search (preserving, delete-Preserves)

    answer-Preserves : Preserves P (answer_data env parse_int data_of node)
    unfolding answer_data
    answer-Preserves = record { after = λ w h. h }

    cleanup-Preserves :
        (r : ReconcileResult) → Preserves P (cleanup_orphan_services env parse_int data_of node r)
    unfolding cleanup_orphan_services get_service_names
    cleanup-Preserves r = search (preserving, answer-Preserves, listed-Preserves) depth 20

ok_inj : (a b : List Forward) → ok a ≡ ok b → a ≡ b
ok_inj a b e = cc

module _ {P : Db → Type 0} (Q : Forward → Type 0)
    (keeps : (f : Forward) → Q f → is_error f ≡ true → Preserves P (modify_db (recover f.id)))
    (reads : (db : Db) → P db → All Q db.forwards) (env : Env) (node : ℕ) where
  note-Preserves :
      (f : Forward) (msg : Text) (r : ReconcileResult)
      → Q f
      → Preserves P (note_sync env node f msg r)
  unfolding note_sync
  note-Preserves f [] r q = elim (Bool-cases (is_error f)) [
    | inl broken ↦ rw broken (Preserves-bind _ _ (keeps f q broken) (λ u. search preserving))
    | inr fine ↦ rw fine (search preserving)
  ]
  note-Preserves f (c ∷ s) r q = search preserving

  forward-Preserves :
      (t : Tunnel) (n : Node) (o : Option Node) (f : Forward) (r : ReconcileResult)
      → Q f
      → Preserves P (reconcile_forward env node t n o f r)
  unfolding reconcile_forward
  forward-Preserves t n o f r q =
      let noted = λ (msg : Text) (v : ReconcileResult). note-Preserves f msg v q in
      search (preserving, gentle-Preserves, noted, keep_paused-Preserves) depth 30

  each-Preserves :
      (t : Tunnel) (n : Node) (o : Option Node) (fs : List Forward) (r : ReconcileResult)
      → All Q fs
      → Preserves P (reconcile_each env node t n o fs r)
  unfolding reconcile_each
  each-Preserves t n o [] r q = search preserving
  each-Preserves t n o (f ∷ fs) r q =
      Preserves-bind _ _ (forward-Preserves t n o f r q.0) (λ v. each-Preserves t n o fs v q.1)

  on-Preserves :
      (t : Tunnel) (fs : List Forward) (nodes : Result (Node × Option Node)) (r : ReconcileResult)
      → All Q fs
      → Preserves P (reconcile_on env node t fs nodes r)
  unfolding reconcile_on
  on-Preserves t fs (ok (n, o)) r q = each-Preserves t n o fs r q
  on-Preserves t fs (err m) r q = search preserving
  on-Preserves t fs panic r q = search preserving

  read_on :
      (t : Tunnel) (w : World) (fs : List Forward)
      → P w.db
      → (gets (λ db. select (λ f. f.tunnel_id == t.id) db.forwards) w).0 ≡ ok fs
      → All Q fs
  unfolding ◌>>=◌
  read_on t w fs h e =
      subst (All Q) (ok_inj _ fs e)
        (All-select Q (λ f. f.tunnel_id == t.id) w.db.forwards (reads w.db h))

  tunnels-Preserves :
      (ts : List Tunnel) (r : ReconcileResult) → Preserves P (reconcile_tunnels env node ts r)
  unfolding reconcile_tunnels
  tunnels-Preserves [] r = search preserving
  tunnels-Preserves (t ∷ ts) r = Preserves-bind_of _ _ (Preserves-gets _) (λ w fs h e.
      Preserves-bind _ _ (Preserves-gets _) (λ nodes.
        Preserves-bind _ _ (on-Preserves t fs nodes r (read_on t w fs h e))
          (λ v. tunnels-Preserves ts v)))

  forwards-Preserves : (r : ReconcileResult) → Preserves P (reconcile_forwards env node r)
  unfolding reconcile_forwards
  forwards-Preserves r = search (preserving, tunnels-Preserves)

  gost-Preserves :
      (parse_int : Text → Option ℤ) (data_of : List Sent → Option (List Text)) (r : ReconcileResult)
      → Preserves P (reconcile_gost env parse_int data_of node r)
  unfolding reconcile_gost
  gost-Preserves parse_int data_of r =
      search (preserving, limiters-Preserves, forwards-Preserves) depth 20

  pub reconcile-Preserves :
      (parse_int : Text → Option ℤ) (data_of : List Sent → Option (List Text)) (is_locked : Bool)
      → Preserves P (reconcile_gost_services env parse_int data_of node is_locked)
  unfolding reconcile_gost_services
  reconcile-Preserves parse_int data_of is_locked =
      search (preserving, gost-Preserves, cleanup-Preserves) depth 20
