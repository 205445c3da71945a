-- ===== src/Forward/Create/Outcome.antt =====
-- `CreateForward` from the insertion on.
use flux_panel_v.Base.{
  ℕ, ◌≡◌, ◌≢◌, refl, sym, ap, ◌∙◌, inl, inr, true, not, Option, none, some, List, [], ◌∷◌, ◌++◌,
  arith, All, select, update, Text, is_empty, Bool-cases, ◌==◌, if◌then◌else◌,
}
use flux_panel_v.Model.{negsuc, ℤ, Forward, Tunnel, UserTunnel, Node}
use flux_panel_v.Store.{
  Db, World, Env, Result, ok, err, panic, Msg, relayed, pure, fail, modify_db, continue, ◌>>=◌,
}
use flux_panel_v.Store.Atomic.{Commits, unchanged, commit_rules, EndsWith}
use flux_panel_v.Nodes.{
  add_service, add_remote_service, delete_remote_service, add_chains, delete_chains,
}
use flux_panel_v.Forward.{is_tunnel_forward, get_required_nodes, build_service_name}
use flux_panel_v.Forward.Services.{
  override_listen, create_gost_services, create_main_service, create_remote_service, create_chain,
  delete_remote_if,
}
use flux_panel_v.Forward.Services.Rollback.{create_direct, create_gost_services-Ended, Ended-ok}
use flux_panel_v.Forward.Control.Atomic.{get_required_nodes-ne-panic}
use flux_panel_v.Forward.Create.{remove_forward, set_status, start_services, finish_create}

-- The key that the database gives to the next forward is new.
abbrev pub IsFresh : ℕ → List Forward → Type 0
IsFresh id = All (λ f. f.id ≢ id)

abbrev pub with_row : Forward → Db → Db
with_row f db = record db { forwards = db.forwards ++ (f ∷ []) }

select_fresh :
    (f : Forward) (xs : List Forward)
    → IsFresh f.id xs
    → select (λ g. not (g.id == f.id)) (xs ++ (f ∷ [])) ≡ xs
select_fresh f [] h = ground arith
select_fresh f (x ∷ xs) h = ground (arith, select_fresh f xs h.1)

update_fresh :
    (s : ℤ) (f : Forward) (xs : List Forward)
    → IsFresh f.id xs
    → update (λ g. g.id == f.id) (λ g. record g { status = s }) (xs ++ (f ∷ []))
      ≡ xs ++ (record f { status = s } ∷ [])
update_fresh s f [] h = ground arith
update_fresh s f (x ∷ xs) h = ground (arith, update_fresh s f xs h.1)

remove-with_row :
    (f : Forward) (db : Db) → IsFresh f.id db.forwards → remove_forward f.id (with_row f db) ≡ db
unfolding remove_forward
remove-with_row f db h =
    ap (λ (xs : List Forward). record db { forwards = xs }) (select_fresh f db.forwards h)

set_status-with_row :
    (s : ℤ) (f : Forward) (db : Db)
    → IsFresh f.id db.forwards
    → set_status s f.id (with_row f db) ≡ with_row (record f { status = s }) db
unfolding set_status
set_status-with_row s f db h =
    ap (λ (xs : List Forward). record db { forwards = xs }) (update_fresh s f db.forwards h)

-- How the handler ends once the row is in the table.
pub data FinishEnds (f : Forward) (db : Db) : Result (Unit {0}) × World → Type 0 where
  started :
      {r : Result (Unit {0}) × World} → r.0 ≡ ok tt → r.1.db ≡ with_row f db → FinishEnds f db r
  undone : {r : Result (Unit {0}) × World} {m : Msg} → r.0 ≡ err m → r.1.db ≡ db → FinishEnds f db r
  broken :
      {r : Result (Unit {0}) × World} {m : Text}
      → r.0 ≡ err (relayed m)
      → m ≢ []
      → r.1.db ≡ with_row (record f { status = negsuc 0 }) db
      → FinishEnds f db r

module _ (env : Env) (f : Forward) (t : Tunnel) (limiter : Option ℕ) where
  create-Commits :
      {db : Db} (in_node : Node) (out_node : Option Node) (name : Text)
      → (is_tunnel_forward t ≡ true → (n : Node) × (out_node ≡ some n))
      → Commits db unchanged (create_gost_services env f t limiter in_node out_node name)
  unfolding create_gost_services create_main_service create_remote_service create_chain add_service
      add_remote_service add_chains delete_chains delete_remote_service delete_remote_if
  create-Commits in_node none name exit = elim (Bool-cases (is_tunnel_forward t)) [
    | inl tunnel ↦ let (n, e) = exit tunnel in cc
    | inr direct ↦
        rw (create_direct env f t limiter in_node name none direct) (search commit_rules depth 12)
  ]
  create-Commits in_node (some n) name exit = search commit_rules depth 20

override-type :
    (listen_ip : Text) (t : Tunnel)
    → is_tunnel_forward (override_listen listen_ip t) ≡ is_tunnel_forward t
unfolding override_listen
override-type [] t = refl
override-type (c ∷ s) t = refl

-- The rest of the handler after the services' answer.
after_services : Forward → Result Text × World → Result (Unit {0}) × World
after_services f (ok msg, v) =
    (if is_empty msg
        then pure tt
        else (modify_db (set_status (negsuc 0) f.id) >>= λ _. fail (relayed msg)))
      v
after_services f (err m, v) = (err m, v)
after_services f (panic, v) = (panic, v)

after-Ends :
    (f : Forward) (db : Db) (r : Result Text × World)
    → IsFresh f.id db.forwards
    → (msg : Text) → r.0 ≡ ok msg
    → EndsWith unchanged (with_row f db) r
    → FinishEnds f db (after_services f r)
unfolding after_services ◌>>=◌ modify_db
after-Ends f db (ok [], v) fresh msg e h = started refl h
after-Ends f db (ok (c ∷ s), v) fresh msg e h =
    broken {m = c ∷ s} refl (λ p. cc)
      (ap (set_status (negsuc 0) f.id) h ∙ set_status-with_row (negsuc 0) f db fresh)
after-Ends f db (err m, v) fresh msg e h = cc
after-Ends f db (panic, v) fresh msg e h = cc

continue-after :
    (f : Forward) (r : Result Text) (v : World)
    → continue r
        (λ msg.
          if is_empty msg
          then pure tt
          else (modify_db (set_status (negsuc 0) f.id) >>= λ _. fail (relayed msg)))
        v
      ≡ after_services f (r, v)
unfolding after_services
continue-after f (ok msg) v = refl
continue-after f (err m) v = refl
continue-after f panic v = refl

module _ (env : Env) (f : Forward) (t : Tunnel) (limiter : Option ℕ) (ut : Option UserTunnel) where
  start-Ends :
      (in_node : Node) (out_node : Option Node) (db : Db) (w : World)
      → (is_tunnel_forward t ≡ true → (n : Node) × (out_node ≡ some n))
      → IsFresh f.id db.forwards
      → w.db ≡ with_row f db
      → FinishEnds f db (start_services env f t limiter ut in_node out_node w)
  unfolding start_services ◌>>=◌
  start-Ends in_node out_node db w exit fresh e =
      let t' = override_listen f.listen_ip t in
      let name = build_service_name f.id f.user_id ut in
      let exit' : is_tunnel_forward t' ≡ true → (n : Node) × (out_node ≡ some n) =
        λ h. exit (sym (override-type f.listen_ip t) ∙ h) in
      let (msg, returned) =
        Ended-ok (create_gost_services-Ended env f t' limiter in_node name out_node w exit') in
      let run = create_gost_services env f t' limiter in_node out_node name w in
      rw (continue-after f run.0 run.1) (
        after-Ends f db run fresh msg returned
          ((create-Commits env f t' limiter in_node out_node name exit').at w e))

  exit_found :
      (db : Db) (in_node : Node) (out_node : Option Node)
      → get_required_nodes t db ≡ ok (in_node, out_node)
      → is_tunnel_forward t ≡ true
      → (n : Node) × (out_node ≡ some n)
  unfolding get_required_nodes
  exit_found db in_node none e h = absurd (ground arith)
  exit_found db in_node (some n) e h = (n, refl)

  pub finish-Ends :
      (nodes : Result (Node × Option Node)) (db : Db) (w : World)
      → nodes ≡ get_required_nodes t w.db
      → IsFresh f.id db.forwards
      → w.db ≡ with_row f db
      → FinishEnds f db (finish_create env f t limiter ut nodes w)
  unfolding finish_create ◌>>=◌ modify_db
  finish-Ends (ok (in_node, out_node)) db w n fresh e =
      start-Ends in_node out_node db w (exit_found w.db in_node out_node (sym n)) fresh e
  finish-Ends (err m) db w n fresh e =
      undone refl (ap (remove_forward f.id) e ∙ remove-with_row f db fresh)
  finish-Ends panic db w n fresh e = absurd (get_required_nodes-ne-panic t w.db (sym n))
