-- ===== src/NodeServices/Lost.antt =====
-- What resumeServices leaves when the parser does not take a service back.
use flux_panel_v.Base.{
  suc, ◌≡◌, refl, ap, subst, ◌∙◌, Bool, true, false, not, ◌&&◌, Option, none, some, List, [], ◌∷◌,
  ◌++◌, map, All, All-map_of, Text, is_some, eq_text, eq_text→eq, eq_text_refl, trim_space,
  if◌then◌else◌, true-false,
}
use flux_panel_v.NodeServices.Marks.{is_paused}
use flux_panel_v.NodeServices.{
  ServiceConfig, Stage, Node, Refusal, resume_failed, Parser, unregister, close_service,
  count_parse, named, first, close_stage,
}
use flux_panel_v.NodeServices.Starts.{rollback_resumed, resume_each, resume_parsed}
use flux_panel_v.NodeServices.AtName.{
  flags, set_first, set_stage-registry, set_stage-services, flags-mark,
}
use flux_panel_v.NodeServices.InStep.{Agrees, IsInStep}
use flux_panel_v.NodeServices.Pausing.{flags-named}
use flux_panel_v.NodeServices.Resuming.{pick, to_resume, takes_each}
use flux_panel_v.NodeServices.Resumption.{revived, revived-rest}

-- A name that is configured and marked, and has no service in the registry.
unfoldable pub IsLost : Text → Node → Type 0
IsLost x n = (n.registry x ≡ none) × (flags x n.services ≡ true ∷ [])

-- A service that is lost is not got back by the roll-back of those before it.
rollback_resumed-IsLost :
    (x : Text) (names : List Text) (n : Node) → IsLost x n → IsLost x (rollback_resumed names n)
unfolding rollback_resumed IsLost
rollback_resumed-IsLost x [] n h = h
rollback_resumed-IsLost x (s ∷ ss) n h = rollback_resumed-IsLost x ss _ (
  set_stage-registry s _ n x
      ∙ stays_none (eq_text s x) (n.registry s) (n.registry x)
          (λ own. ap n.registry (eq_text→eq s x own)) h.0,
  flags-mark s x (close_service s n).services
      ∙ stays_marked (eq_text s x) _ (ap (λ cs. flags x cs) (set_stage-services s _ n) ∙ h.1),
)
  where
    stays_none :
        (own : Bool) (here o : Option Stage)
        → (own ≡ true → here ≡ o)
        → o ≡ none
        → (if own then close_stage here else o) ≡ none
    stays_none true here o e h = rw (e refl, h) refl
    stays_none false here o e h = h

    stays_marked :
        (own : Bool) (bs : List Bool)
        → bs ≡ true ∷ []
        → (if own then set_first true bs else bs) ≡ true ∷ []
    stays_marked true bs h = rw h refl
    stays_marked false bs h = h

-- The services that are resumed are marked, each in one configuration.
unfoldable pub IsMarked : Node → Text × ServiceConfig → Type 0
IsMarked n p = flags p.0 n.services ≡ true ∷ []

unregistered-IsLost :
    (s : Text) (n : Node) → flags s n.services ≡ true ∷ [] → IsLost s (count_parse (unregister s n))
unfolding IsLost
unregistered-IsLost s n h = (
  set_stage-registry s none n s ∙ (rw (eq_text_refl s) refl),
  ap (λ cs. flags s cs) (set_stage-services s none n) ∙ h,
)

-- What the second phase returns when the parser does not take a service.
unfoldable pub Loses : Option Refusal × Node → Type 0
Loses r = ((q : Refusal) × (r.0 ≡ some q)) × ((x : Text) × IsLost x r.1)

pub resume_each-Loses :
    (parse : Parser) (ps : List (Text × ServiceConfig)) (resumed : List Text) (n : Node)
    → All (IsMarked n) ps
    → takes_each parse n.parses ps ≡ false
    → Loses (resume_each parse ps resumed n)
unfolding resume_each Loses IsMarked
resume_each-Loses parse [] resumed n marked h = absurd (true-false h)
resume_each-Loses parse (p ∷ ps) resumed n marked h = next (parse n.parses p.1) h (λ fails.
    resume_each-Loses parse ps (resumed ++ (p.0 ∷ [])) (revived p.0 n)
      (All-map_of (IsMarked n) (IsMarked (revived p.0 n)) ps
        (λ y m. ap (λ cs. flags y.0 cs) (revived-rest p.0 n).0 ∙ m) marked.1)
      (ap (λ k. takes_each parse k ps) (revived-rest p.0 n).1 ∙ fails))
  where
    next :
        (o : Option Text)
        → not (is_some o) && takes_each parse (suc n.parses) ps ≡ false
        → (takes_each parse (suc n.parses) ps ≡ false
            → Loses (resume_each parse ps (resumed ++ (p.0 ∷ [])) (revived p.0 n)))
        → Loses (
            resume_parsed o p.0 resumed
              (resume_each parse ps (resumed ++ (p.0 ∷ [])) (revived p.0 n))
              (count_parse (unregister p.0 n)))
    next (some e) f later = (
      (resume_failed p.0 e, refl),
      (p.0, rollback_resumed-IsLost p.0 resumed _ (unregistered-IsLost p.0 n marked.0)),
    )
    next none f later = later f

-- In a node in step, what is to be resumed is marked.
one_mark :
    (o : Option Stage) (cs : List ServiceConfig) (name : Text)
    → Agrees o (map (λ c. is_paused c.metadata) cs)
    → (rest : List (Text × ServiceConfig)) → (P : Text × ServiceConfig → Type 0)
    → ((c : ServiceConfig) → map (λ d. is_paused d.metadata) cs ≡ true ∷ [] → P (name, c))
    → All P rest
    → All P (pick name (first cs) rest)
one_mark o [] name h rest P f all = all
one_mark o (c ∷ cs) name h rest P f all = by_mark (is_paused c.metadata) refl o cs h (f c)
  where
    by_mark :
        (b : Bool)
        → is_paused c.metadata ≡ b
        → (o : Option Stage) (ds : List ServiceConfig)
        → Agrees o (is_paused c.metadata ∷ map (λ d. is_paused d.metadata) ds)
        → (is_paused c.metadata ∷ map (λ d. is_paused d.metadata) ds ≡ true ∷ [] → P (name, c))
        → All P (if b then (name, c) ∷ rest else rest)
    by_mark true e none ds g f = absurd g
    by_mark true e (some s) [] g f = (f (ap (λ b. b ∷ []) e), all)
    by_mark true e (some s) (d ∷ ds) g f = absurd g
    by_mark false e o ds g f = all

pub to_resume-IsMarked :
    (asked : List Text) (n : Node) → IsInStep n → All (IsMarked n) (to_resume asked n)
unfolding IsMarked
to_resume-IsMarked [] n h = tt
to_resume-IsMarked (s ∷ ss) n h =
    one_mark (n.registry (trim_space s)) (named (trim_space s) n.services) (trim_space s)
      (subst (λ bs. Agrees (n.registry (trim_space s)) bs) (flags-named (trim_space s) n.services)
        (h (trim_space s)))
      (to_resume ss n) (IsMarked n) (λ c e. flags-named (trim_space s) n.services ∙ e)
      (to_resume-IsMarked ss n h)
