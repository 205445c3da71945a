-- ===== src/NodeServices/Updated.antt =====
-- What updateServices makes of a node in step, with a parser that takes every configuration.
use flux_panel_v.Base.{
  ℕ, ◌≡◌, refl, sym, ap, subst, ◌∙◌, Bool, true, false, Option, none, some, List, [], ◌∷◌, map,
  Text, is_some, trim_space, if◌then◌else◌, true-false, some-none,
}
use flux_panel_v.NodeServices.{
  ServiceConfig, Stage, serving, Node, Refusal, no_services, Outcome, refused, Parser,
  is_registered, with_services,
}
use flux_panel_v.NodeServices.Stops.{is_one_of, unregister_each}
use flux_panel_v.NodeServices.Updates.{
  check_old, make_each, replace_each, replace_made, make_taken, update_checked, update_services,
}
use flux_panel_v.NodeServices.AtName.{
  flags, set_first, unregister_each-registry, unregister_each-services,
}
use flux_panel_v.NodeServices.InStep.{
  Agrees, IsInStep, IsLike, Ends, all_there, may_stop, all_there-registered,
}
use flux_panel_v.NodeServices.Registering.{config_names}
use flux_panel_v.NodeServices.Creating.{distinct}
use flux_panel_v.NodeServices.Created.{asked_names, IsUnmarked}
use flux_panel_v.NodeServices.Creation.{with_served}
use flux_panel_v.NodeServices.Updating.{
  IsTrimmed, check_old-there, check_old-missing, take_each-all, flags-replace_each, IsMade,
  make_each-IsMade,
}

trimmed-config_names : (cs : List ServiceConfig) → map trim_space (config_names cs) ≡ asked_names cs
trimmed-config_names [] = refl
trimmed-config_names (c ∷ cs) = ap (λ ss. trim_space c.name ∷ ss) (trimmed-config_names cs)

trimmed_names : (cs : List ServiceConfig) → IsTrimmed cs → asked_names cs ≡ config_names cs
unfolding IsTrimmed
trimmed_names [] t = refl
trimmed_names (c ∷ cs) t =
    ap (λ s. s ∷ asked_names cs) t.0 ∙ ap (λ ss. c.name ∷ ss) (trimmed_names cs t.1)

-- A name that is updated has a service that is started and a configuration that is not marked.
updated-Agrees :
    (among : Bool) (o : Option Stage) (bs : List Bool)
    → Agrees o bs
    → (among ≡ true → is_some o ≡ true)
    → Agrees (if among then some serving else o) (if among then set_first false bs else bs)
updated-Agrees false o bs h there = h
updated-Agrees true none bs h there = absurd (true-false (sym (there refl)))
updated-Agrees true (some s) [] h there = absurd h
updated-Agrees true (some s) (b ∷ []) h there = refl
updated-Agrees true (some s) (b ∷ (c ∷ bs)) h there = absurd h

replaced-IsLike :
    (asked : List ServiceConfig) (n v : Node)
    → IsInStep n
    → IsUnmarked asked
    → IsTrimmed asked
    → ((x : Text) → is_one_of x (asked_names asked) ≡ true → is_registered x n ≡ true)
    → v.services ≡ n.services
    → ((x : Text)
        → v.registry x ≡ (
            if is_one_of x (asked_names asked)
            then some serving
            else if is_one_of x (asked_names asked)
            then none
            else n.registry x))
    → IsLike
        (with_served (asked_names asked) n.registry)
        (with_services (replace_each asked v.services) v)
unfolding IsLike with_served
replaced-IsLike asked n v h u t there same stages x =
    let among = is_one_of x (asked_names asked) in
    let marks : flags x (replace_each asked v.services)
        ≡ (if among then set_first false (flags x n.services) else flags x n.services) =
      ap (λ cs. flags x (replace_each asked cs)) same
      ∙ flags-replace_each asked n.services x u
      ∙ ap
          (λ ss.
            if is_one_of x ss then set_first false (flags x n.services) else flags x n.services)
          (sym (trimmed_names asked t)) in
    (
      stages x ∙ once among (n.registry x),
      subst (λ bs. Agrees (if among then some serving else n.registry x) bs) (sym marks)
          (updated-Agrees among (n.registry x) (flags x n.services) (h x) (there x)),
    )
  where
    once :
        (b : Bool) (o : Option Stage)
        → (if b then some serving else if b then none else o) ≡ (if b then some serving else o)
    once true o = refl
    once false o = refl

module _ (parse : Parser) (accepts : (k : ℕ) (c : ServiceConfig) → parse k c ≡ none) where
  made-Ends :
      (asked : List ServiceConfig) (n : Node) (r : Option Refusal × Node)
      → IsInStep n
      → IsUnmarked asked
      → IsTrimmed asked
      → ((x : Text) → is_one_of x (asked_names asked) ≡ true → is_registered x n ≡ true)
      → IsMade parse accepts (asked_names asked) (unregister_each (asked_names asked) n) r
      → Ends true (with_served (asked_names asked) n.registry) n (replace_made asked r)
  unfolding Ends
  made-Ends asked n (some q, v) h u t there m = absurd (some-none q m.answer)
  made-Ends asked n (none, v) h u t there m = (
    refl,
    replaced-IsLike asked n v h u t there
        (m.same_services ∙ unregister_each-services (asked_names asked) n)
        (λ x.
          m.stages x
          ∙ ap (λ o. if is_one_of x (asked_names asked) then some serving else o)
              (unregister_each-registry (asked_names asked) n x)),
  )

  -- On a node in step, and with a parser that takes every configuration, updateServices serves what
  -- it is asked for anew when each is there, and otherwise refuses and changes nothing. The names have
  -- to be given without space around them, none twice, and no configuration marked as paused.
  pub update_services-Ends :
      (asked : List ServiceConfig) (n : Node)
      → IsInStep n
      → IsUnmarked asked
      → IsTrimmed asked
      → distinct (asked_names asked) ≡ true
      → Ends
          (may_stop (config_names asked) n)
          (with_served (asked_names asked) n.registry)
          n
          (update_services parse asked n)
  unfolding update_services Ends
  update_services-Ends [] n h u t d = ((no_services, refl), refl)
  update_services-Ends (c ∷ cs) n h u t d = by_tests (all_there (config_names (c ∷ cs)) n) refl
    where
      known :
          all_there (config_names (c ∷ cs)) n ≡ true
          → (x : Text) → is_one_of x (asked_names (c ∷ cs)) ≡ true
          → is_registered x n ≡ true
      known there x among =
          all_there-registered (config_names (c ∷ cs)) n x there
            (ap (is_one_of x) (trimmed-config_names (c ∷ cs)) ∙ among)

      by_tests :
          (b : Bool)
          → all_there (config_names (c ∷ cs)) n ≡ b
          → Ends b
              (with_served (asked_names (c ∷ cs)) n.registry)
              n
              (update_checked parse (c ∷ cs) (check_old (c ∷ cs) n) n)
      by_tests true there =
          let goes : update_checked parse (c ∷ cs) (check_old (c ∷ cs) n) n
              ≡ replace_made (c ∷ cs)
                  (make_each parse (c ∷ cs) (unregister_each (asked_names (c ∷ cs)) n)) =
            ap (λ o. update_checked parse (c ∷ cs) o n) (check_old-there (c ∷ cs) n there)
            ∙ ap (make_taken parse (c ∷ cs)) (take_each-all (c ∷ cs) n (known there) d) in
          subst (λ r. Ends true (with_served (asked_names (c ∷ cs)) n.registry) n r) (sym goes)
            (made-Ends (c ∷ cs) n _ h u t (known there)
              (make_each-IsMade parse accepts (c ∷ cs) (unregister_each (asked_names (c ∷ cs)) n)))
      by_tests false missing =
          let (q, e) = check_old-missing (c ∷ cs) n missing in
          let stops : update_checked parse (c ∷ cs) (check_old (c ∷ cs) n) n ≡ (refused q, n) =
            ap (λ o. update_checked parse (c ∷ cs) o n) e in
          ((q, ap (λ (p : Outcome × Node). p.0) stops), ap (λ (p : Outcome × Node). p.1) stops)
