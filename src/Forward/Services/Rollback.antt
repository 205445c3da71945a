-- ===== src/Forward/Services/Rollback.antt =====
-- What `createGostServices` has sent by the time it returns.
use flux_panel_v.Base.{
  ℕ, ◌≡◌, ◌≢◌, refl, ap, inl, inr, true, false, Option, none, some, List, [], ◌∷◌, ◌++◌, Text,
  codes, Bool-cases, eq_text, eq_text→eq,
}
use flux_panel_v.Model.{Forward, Tunnel, Node}
use flux_panel_v.Gost.{
  ChainData, build_services, build_remote_service, build_chain_data, format_listen_addr,
}
use flux_panel_v.Store.{World, Env, Sent, Command, Result, ok, ◌>>=◌, send}
use flux_panel_v.Nodes.{
  add_service, add_remote_service, delete_remote_service, add_chains, delete_chains,
}
use flux_panel_v.Forward.{is_tunnel_forward, is_gost_success}
use flux_panel_v.Forward.Services.{
  service_args, delete_remote_if, create_main_service, create_remote_service, create_chain,
  create_gost_services,
}

abbrev pub chain_deleted : Node → Text → Sent
chain_deleted n name = record {
  node = n.id;
  command = Command.delete_chains (name ++ codes "_chains");
}

abbrev pub remote_deleted : Node → Text → Sent
remote_deleted n name = record {
  node = n.id;
  command = Command.delete_service ((name ++ codes "_tls") ∷ []);
}

abbrev pub entry_added : Forward → Tunnel → Option ℕ → Node → Text → Sent
entry_added f t limiter n name = record {
  node = n.id;
  command = Command.add_service (build_services name (service_args f t limiter) t);
}

-- What follows the refused addition, whose history is `before`: the chain is deleted, and nothing
-- else, if the chain is what was refused or there is no exit node; in every other case the exit
-- node's service is deleted too.
pub data TakenBack (in_node : Node) (out_node : Option Node) (name : Text)
    (before after : List Sent) : Type 0 where
  refused_chain :
      {data' : ChainData} {earlier : List Sent}
      → before ≡ record { node = in_node.id; command = Command.add_chains data' } ∷ earlier
      → after ≡ chain_deleted in_node name ∷ before
      → TakenBack in_node out_node name before after
  without_exit :
      out_node ≡ none
      → after ≡ chain_deleted in_node name ∷ before
      → TakenBack in_node out_node name before after
  with_exit :
      {n : Node}
      → out_node ≡ some n
      → after ≡ remote_deleted n name ∷ (chain_deleted in_node name ∷ before)
      → TakenBack in_node out_node name before after

-- How a creation ends: the entry service was accepted and nothing came after it, or some addition was
-- answered by the text that is returned, not "OK", and the messages after it take the parts back.
pub data Ended (env : Env) (added : Sent) (in_node : Node) (out_node : Option Node) (name : Text)
    : Result Text × World → Type 0 where
  created :
      {r : Result Text × World} {rest : List Sent}
      → r.0 ≡ ok []
      → r.1.sent ≡ added ∷ rest
      → env.reply r.1.sent ≡ codes "OK"
      → Ended env added in_node out_node name r
  refused :
      {r : Result Text × World} {before : List Sent}
      → r.0 ≡ ok (env.reply before)
      → env.reply before ≢ codes "OK"
      → TakenBack in_node out_node name before r.1.sent
      → Ended env added in_node out_node name r

success-eq : (msg : Text) → is_gost_success msg ≡ true → msg ≡ codes "OK"
unfolding is_gost_success
success-eq msg h = eq_text→eq msg (codes "OK") h

failure-ne : (msg : Text) → is_gost_success msg ≡ false → msg ≢ codes "OK"
unfolding is_gost_success eq_text
failure-ne msg h e = let e' = ap (λ (m : Text). eq_text m (codes "OK")) e in cc

module _ (env : Env) (f : Forward) (t : Tunnel) (limiter : Option ℕ) (in_node : Node)
    (name : Text) where
  abbrev main_sent : World → List Sent
  main_sent w = entry_added f t limiter in_node name ∷ w.sent

  main-Ended :
      (out_node : Option Node) (w : World)
      → Ended env
          (entry_added f t limiter in_node name)
          in_node
          out_node
          name
          (create_main_service env f t limiter in_node out_node name w)
  unfolding create_main_service add_service delete_chains delete_remote_if delete_remote_service
      send ◌>>=◌
  main-Ended none w = elim (Bool-cases (is_gost_success (env.reply (main_sent w)))) [
    | inl good ↦ rw good (created refl refl (success-eq _ good))
    | inr bad ↦ rw bad (refused refl (failure-ne _ bad) (without_exit refl refl))
  ]
  main-Ended (some n) w = elim (Bool-cases (is_gost_success (env.reply (main_sent w)))) [
    | inl good ↦ rw good (created refl refl (success-eq _ good))
    | inr bad ↦ rw bad (refused refl (failure-ne _ bad) (with_exit refl refl))
  ]

  abbrev remote_sent : Node → World → List Sent
  remote_sent n w =
      record {
        node = n.id;
        command = Command.add_service (
            build_remote_service name f.out_port f.remote_addr t.protocol f.strategy
              f.interface_name
            ∷ []);
      }
      ∷ w.sent

  remote-Ended :
      (n : Node) (w : World)
      → Ended env
          (entry_added f t limiter in_node name)
          in_node
          (some n)
          name
          (create_remote_service env f t limiter in_node (some n) name w)
  unfolding create_remote_service add_remote_service delete_chains delete_remote_service send ◌>>=◌
  remote-Ended n w = elim (Bool-cases (is_gost_success (env.reply (remote_sent n w)))) [
    | inl good ↦ rw good (main-Ended (some n) (record w { sent = remote_sent n w }))
    | inr bad ↦ rw bad (refused refl (failure-ne _ bad) (with_exit refl refl))
  ]

  abbrev chain_sent : World → List Sent
  chain_sent w =
      record {
        node = in_node.id;
        command = Command.add_chains (
            build_chain_data name (format_listen_addr t.out_ip f.out_port) t.protocol
              t.interface_name);
      }
      ∷ w.sent

  chain-Ended :
      (n : Node) (w : World)
      → Ended env
          (entry_added f t limiter in_node name)
          in_node
          (some n)
          name
          (create_chain env f t limiter in_node (some n) name w)
  unfolding create_chain add_chains delete_chains send ◌>>=◌
  chain-Ended n w = elim (Bool-cases (is_gost_success (env.reply (chain_sent w)))) [
    | inl good ↦ rw good (remote-Ended n (record w { sent = chain_sent w }))
    | inr bad ↦ rw bad (refused refl (failure-ne _ bad) (refused_chain refl refl))
  ]

  pub create_direct :
      (o : Option Node)
      → is_tunnel_forward t ≡ false
      → create_gost_services env f t limiter in_node o name
        ≡ create_main_service env f t limiter in_node o name
  unfolding create_gost_services
  create_direct o direct = rw direct

  create_tunnel :
      (o : Option Node)
      → is_tunnel_forward t ≡ true
      → create_gost_services env f t limiter in_node o name
        ≡ create_chain env f t limiter in_node o name
  unfolding create_gost_services
  create_tunnel o tunnel = rw tunnel

  -- With an exit node where the tunnel needs one, `createGostServices` never panics: the entry service
  -- was accepted last and "" is returned, or the answer to a refused addition is returned and the
  -- messages sent after it delete the chain and, if there is an exit node and it was not the chain
  -- that was refused, the exit node's service.
  pub create_gost_services-Ended :
      (out_node : Option Node) (w : World)
      → (is_tunnel_forward t ≡ true → (n : Node) × (out_node ≡ some n))
      → Ended env
          (entry_added f t limiter in_node name)
          in_node
          out_node
          name
          (create_gost_services env f t limiter in_node out_node name w)
  create_gost_services-Ended none w exit = elim (Bool-cases (is_tunnel_forward t)) [
    | inl tunnel ↦ let (n, e) = exit tunnel in cc
    | inr direct ↦ rw (create_direct none direct) (main-Ended none w)
  ]
  create_gost_services-Ended (some n) w exit = elim (Bool-cases (is_tunnel_forward t)) [
    | inl tunnel ↦ rw (create_tunnel (some n) tunnel) (chain-Ended n w)
    | inr direct ↦ rw (create_direct (some n) direct) (main-Ended (some n) w)
  ]

pub Ended-ok :
    {env : Env} {added : Sent} {in_node : Node} {out_node : Option Node} {name : Text}
    {r : Result Text × World}
    → Ended env added in_node out_node name r
    → (msg : Text) × (r.0 ≡ ok msg)
Ended-ok (created e sent reply) = ([], e)
Ended-ok {env} (refused {before = before} e ne back) = (env.reply before, e)
