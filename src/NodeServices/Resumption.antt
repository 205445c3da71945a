-- ===== src/NodeServices/Resumption.antt =====
-- resumeServices on a node in step: what is asked for is served, or nothing is changed, or the parser
-- took a service not back.
use flux_panel_v.Base.{
  suc, ◌≡◌, refl, sym, ap, subst, ◌∙◌, inl, inr, Bool, true, false, not, ◌&&◌, ◌||◌, Option, none,
  some, List, [], ◌∷◌, ◌++◌, map, Text, is_some, eq_text, eq_text_refl, trim_space, Bool-cases,
  if◌then◌else◌, true-false, some-none,
}
use flux_panel_v.NodeServices.{
  ServiceConfig, Stage, ready, serving, Node, Refusal, Parser, set_stage, unregister, start_service,
  count_parse,
}
use flux_panel_v.NodeServices.Stops.{is_one_of, unmark_each}
use flux_panel_v.NodeServices.Starts.{
  resume_each, resume_parsed, names_of, unmark_resumed, resume_checked, resume_services,
}
use flux_panel_v.NodeServices.AtName.{flags, set_first, flags-unmark_each}
use flux_panel_v.NodeServices.InStep.{
  Agrees, IsInStep, IsLike, Ends, all_there, may_stop, all_there-registered,
}
use flux_panel_v.NodeServices.Creation.{with_served}
use flux_panel_v.NodeServices.Resuming.{
  to_resume, takes_each, head_flag, to_resume-names, check_paused-there,
}

-- A node after one service was parsed, registered and started again.
abbrev pub revived : Text → Node → Node
revived s n = start_service s (set_stage s (some ready) (count_parse (unregister s n)))

revived-registry :
    (s : Text) (n : Node) (x : Text)
    → (revived s n).registry x ≡ (if eq_text s x then some serving else n.registry x)
unfolding set_stage
revived-registry s n x = elim (Bool-cases (eq_text s x)) [
  | inl own ↦ rw (own, eq_text_refl s) refl
  | inr other ↦ rw other refl
]

pub revived-rest :
    (s : Text) (n : Node)
    → ((revived s n).services ≡ n.services) × ((revived s n).parses ≡ suc n.parses)
unfolding set_stage
revived-rest s n = (refl, refl)

pub accepted_parse :
    (o : Option Text) (b : Bool) → not (is_some o) && b ≡ true → (o ≡ none) × (b ≡ true)
accepted_parse none b e = (refl, e)
accepted_parse (some t) b e = absurd (true-false (sym e))

-- All services are back.
record IsRevived (names : List Text) (n : Node) (r : Option Refusal × Node) : Type 0 where
  answer : r.0 ≡ none
  same_services : r.1.services ≡ n.services
  stages : (x : Text) → r.1.registry x ≡ (if is_one_of x names then some serving else n.registry x)

resume_each-IsRevived :
    (parse : Parser) (ps : List (Text × ServiceConfig)) (resumed : List Text) (n : Node)
    → takes_each parse n.parses ps ≡ true
    → IsRevived (names_of ps) n (resume_each parse ps resumed n)
unfolding resume_each
resume_each-IsRevived parse [] resumed n h = record {
  answer = refl;
  same_services = refl;
  stages = λ x. refl;
}
resume_each-IsRevived parse (p ∷ ps) resumed n h =
    next (parse n.parses p.1) (accepted_parse (parse n.parses p.1) _ h).0 (
      resume_each-IsRevived parse ps (resumed ++ (p.0 ∷ [])) (revived p.0 n) (
        ap (λ k. takes_each parse k ps) (revived-rest p.0 n).1
        ∙ (accepted_parse (parse n.parses p.1) _ h).1))
  where
    step :
        (same again : Bool) (o : Option Stage)
        → (if again then some serving else (if same then some serving else o))
          ≡ (if same || again then some serving else o)
    step true true o = refl
    step true false o = refl
    step false again o = refl

    next :
        (o : Option Text)
        → o ≡ none
        → IsRevived
            (names_of ps)
            (revived p.0 n)
            (resume_each parse ps (resumed ++ (p.0 ∷ [])) (revived p.0 n))
        → IsRevived (names_of (p ∷ ps)) n (
            resume_parsed o p.0 resumed
              (resume_each parse ps (resumed ++ (p.0 ∷ [])) (revived p.0 n))
              (count_parse (unregister p.0 n)))
    next (some t) e later = absurd (true-false (ap is_some e))
    next none e later = record {
      answer = later.answer;
      same_services = later.same_services ∙ (revived-rest p.0 n).0;
      stages = λ x.
          later.stages x
          ∙ (rw (revived-registry p.0 n x)
              (step (eq_text p.0 x) (is_one_of x (names_of ps)) (n.registry x)));
    }

resumed-stage :
    (asked : Bool) (o : Option Stage) (bs : List Bool)
    → Agrees o bs
    → (asked ≡ true → is_some o ≡ true)
    → (if asked && head_flag bs then some serving else o) ≡ (if asked then some serving else o)
resumed-stage false o bs h there = refl
resumed-stage true none bs h there = absurd (true-false (sym (there refl)))
resumed-stage true (some s) [] h there = absurd h
resumed-stage true (some s) (true ∷ bs) h there = refl
resumed-stage true (some s) (false ∷ []) h there = ap some h
resumed-stage true (some s) (false ∷ (b ∷ bs)) h there = absurd h

resumed-Agrees :
    (asked : Bool) (o : Option Stage) (bs : List Bool)
    → Agrees o bs
    → (asked ≡ true → is_some o ≡ true)
    → Agrees
        (if asked then some serving else o)
        (if asked && head_flag bs then set_first false bs else bs)
resumed-Agrees false o bs h there = h
resumed-Agrees true none bs h there = absurd (true-false (sym (there refl)))
resumed-Agrees true (some s) [] h there = absurd h
resumed-Agrees true (some s) (true ∷ []) h there = refl
resumed-Agrees true (some s) (false ∷ []) h there = refl
resumed-Agrees true (some s) (true ∷ (b ∷ bs)) h there = absurd h
resumed-Agrees true (some s) (false ∷ (b ∷ bs)) h there = absurd h

unmarked-IsLike :
    (asked : List Text) (n : Node) (r : Option Refusal × Node)
    → IsInStep n
    → all_there asked n ≡ true
    → IsRevived (names_of (to_resume asked n)) n r
    → Ends true
        (with_served (map trim_space asked) n.registry)
        n
        (unmark_resumed (names_of (to_resume asked n)) r)
unfolding Ends IsLike with_served
unmarked-IsLike asked n (some q, v) h there c = absurd (some-none q c.answer)
unmarked-IsLike asked n (none, v) h there c = (
  refl,
  λ x.
      let among = is_one_of x (map trim_space asked) in
      let known = all_there-registered asked n x there in
      let names = to_resume-names asked n x in
      let marks : flags x (unmark_each (names_of (to_resume asked n)) v.services) ≡ (
          if among && head_flag (flags x n.services)
          then set_first false (flags x n.services)
          else flags x n.services) =
        ap (λ cs. flags x (unmark_each (names_of (to_resume asked n)) cs)) c.same_services
        ∙ flags-unmark_each (names_of (to_resume asked n)) n.services x
        ∙ ap (λ b. if b then set_first false (flags x n.services) else flags x n.services) names in
      (
        c.stages x
            ∙ ap (λ b. if b then some serving else n.registry x) names
            ∙ resumed-stage among (n.registry x) (flags x n.services) (h x) known,
        subst (λ bs. Agrees (if among then some serving else n.registry x) bs) (sym marks)
            (resumed-Agrees among (n.registry x) (flags x n.services) (h x) known),
      ),
)

-- On a node in step, resumeServices serves and unmarks all the services it is asked for, when each is
-- there and the parser takes those that are marked.
pub resume_services-Ends :
    (parse : Parser) (asked : List Text) (n : Node)
    → IsInStep n
    → may_stop asked n ≡ true
    → takes_each parse n.parses (to_resume asked n) ≡ true
    → Ends true (with_served (map trim_space asked) n.registry) n (resume_services parse asked n)
unfolding resume_services
resume_services-Ends parse [] n h may taken = absurd (true-false (sym may))
resume_services-Ends parse (s ∷ ss) n h may taken =
    subst
      (λ c.
        Ends true (with_served (map trim_space (s ∷ ss)) n.registry) n (resume_checked parse c n))
      (sym (check_paused-there (s ∷ ss) n h may))
      (unmarked-IsLike (s ∷ ss) n _ h may
        (resume_each-IsRevived parse (to_resume (s ∷ ss) n) [] n taken))
