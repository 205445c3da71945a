-- ===== src/NodeServices/Pausing.antt =====
-- What a pause makes of a node in step.
use flux_panel_v.Base.{
  ◌≡◌, refl, sym, ap, subst, ◌∙◌, inl, inr, Bool, true, false, ◌||◌, Option, none, some, List, [],
  ◌∷◌, ◌++◌, map, Text, is_some, eq_text, eq_text→eq, eq_text_refl, trim_space, Bool-cases,
  if◌then◌else◌, true-false, some-none,
}
use flux_panel_v.NodeServices.Marks.{is_paused}
use flux_panel_v.NodeServices.{
  ServiceConfig, Stage, Node, Refusal, Parser, close_stage, close_service, named, last,
}
use flux_panel_v.NodeServices.Stops.{
  is_one_of, mark_each, close_each, close_or_roll_back, mark_closed, pause_checked, pause_services,
}
use flux_panel_v.NodeServices.AtName.{
  flags, set_first, set_stage-registry, set_stage-services, flags-mark_each,
}
use flux_panel_v.NodeServices.InStep.{
  Agrees, IsInStep, Picture, IsLike, Ends, may_stop, checked-Ends, all_there-registered,
}

-- In a node in step, a name that is registered has a configuration.
pub flags-named :
    (x : Text) (cs : List ServiceConfig) → flags x cs ≡ map (λ c. is_paused c.metadata) (named x cs)
unfolding flags
flags-named x [] = refl
flags-named x (c ∷ cs) = elim (Bool-cases (eq_text c.name x)) [
  | inl own ↦ rw own (ap (λ bs. is_paused c.metadata ∷ bs) (flags-named x cs))
  | inr other ↦ rw other (flags-named x cs)
]

last_config :
    (o : Option Stage) (cs : List ServiceConfig)
    → Agrees o (map (λ c. is_paused c.metadata) cs)
    → is_some o ≡ true
    → is_some (last cs) ≡ true
last_config none cs h r = absurd (true-false (sym r))
last_config (some s) [] h r = absurd h
last_config (some s) (c ∷ []) h r = refl
last_config (some s) (c ∷ (d ∷ cs)) h r = absurd h

-- The services that are closed, and the rest as it was.
record IsClosed (names : List Text) (n : Node) (r : Option Refusal × Node) : Type 0 where
  answer : r.0 ≡ none
  same_services : r.1.services ≡ n.services
  stages :
      (x : Text)
      → r.1.registry x ≡ (if is_one_of x names then close_stage (n.registry x) else n.registry x)

close_stage_twice : (o : Option Stage) → close_stage (close_stage o) ≡ close_stage o
close_stage_twice none = refl
close_stage_twice (some s) = refl

close_step :
    (same again : Bool) (here o : Option Stage)
    → (same ≡ true → here ≡ o)
    → (if again
        then close_stage (if same then close_stage here else o)
        else (if same then close_stage here else o))
      ≡ (if same || again then close_stage o else o)
close_step true true here o e = rw (e refl) (close_stage_twice o)
close_step true false here o e = rw (e refl) refl
close_step false true here o e = refl
close_step false false here o e = refl

-- The second phase closes each service, if all have a configuration.
close_each-IsClosed :
    (parse : Parser) (names : List Text) (ps : List (Text × ServiceConfig)) (n : Node)
    → ((x : Text) → is_one_of x names ≡ true → is_some (last (named x n.services)) ≡ true)
    → IsClosed names n (close_each parse names ps n)
unfolding close_each
close_each-IsClosed parse [] ps n h = record {
  answer = refl;
  same_services = refl;
  stages = λ x. refl;
}
close_each-IsClosed parse (s ∷ ss) ps n h =
    next (last (named s n.services)) (h s (rw (eq_text_refl s) refl)) (λ qs.
      close_each-IsClosed parse ss qs (close_service s n) (λ x among.
        subst (λ cs. is_some (last (named x cs)) ≡ true) (sym (set_stage-services s _ n))
          (h x (or_right (eq_text s x) (is_one_of x ss) among))))
  where
    or_right : (b c : Bool) → c ≡ true → b || c ≡ true
    or_right true c e = refl
    or_right false c e = e

    next :
        (o : Option ServiceConfig)
        → is_some o ≡ true
        → ((qs : List (Text × ServiceConfig))
            → IsClosed ss (close_service s n) (close_each parse ss qs (close_service s n)))
        → IsClosed (s ∷ ss) n (close_or_roll_back parse o s ps n (λ qs v. close_each parse ss qs v))
    next none e rest = absurd (true-false (sym e))
    next (some c) e rest =
        let later = rest (ps ++ ((s, c) ∷ [])) in
        record {
          answer = later.answer;
          same_services = later.same_services ∙ set_stage-services s _ n;
          stages = λ x.
              later.stages x
              ∙ (rw (set_stage-registry s (close_stage (n.registry s)) n x) (
                  close_step (eq_text s x) (is_one_of x ss) (n.registry s) (n.registry x)
                    (λ own. ap n.registry (eq_text→eq s x own))));
        }

-- What a pause makes of the picture.
unfoldable pub paused : List Text → Picture → Picture
paused names f x = if is_one_of x names then close_stage (f x) else f x

paused-Agrees :
    (among : Bool) (o : Option Stage) (bs : List Bool)
    → Agrees o bs
    → Agrees (if among then close_stage o else o) (if among then set_first true bs else bs)
paused-Agrees false o bs h = h
paused-Agrees true none [] h = tt
paused-Agrees true none (b ∷ bs) h = absurd h
paused-Agrees true (some s) [] h = absurd h
paused-Agrees true (some s) (b ∷ []) h = refl
paused-Agrees true (some s) (b ∷ (c ∷ bs)) h = absurd h

marked-IsLike :
    (names : List Text) (n : Node) (r : Option Refusal × Node)
    → IsInStep n
    → IsClosed names n r
    → Ends true (paused names n.registry) n (mark_closed names r)
unfolding Ends IsLike paused
marked-IsLike names n (some q, v) h c = absurd (some-none q c.answer)
marked-IsLike names n (none, v) h c = (
  refl,
  λ x.
      let marks : flags x (mark_each names v.services) ≡ (
          if is_one_of x names then set_first true (flags x n.services) else flags x n.services) =
        ap (λ cs. flags x (mark_each names cs)) c.same_services
        ∙ flags-mark_each names n.services x in
      (
        c.stages x,
        subst
            (λ bs.
              Agrees (if is_one_of x names then close_stage (n.registry x) else n.registry x) bs)
            (sym marks)
            (paused-Agrees (is_one_of x names) (n.registry x) (flags x n.services) (h x)),
      ),
)

-- On a node in step, pauseServices closes and marks all the services it is asked for when each is
-- there, and otherwise refuses and changes nothing.
pub pause_services-Ends :
    (parse : Parser) (asked : List Text) (n : Node)
    → IsInStep n
    → Ends
        (may_stop asked n)
        (paused (map trim_space asked) n.registry)
        n
        (pause_services parse asked n)
unfolding pause_services
pause_services-Ends parse asked n h =
    checked-Ends (pause_checked parse) (λ names. paused names n.registry) asked n (λ r. refl)
      (λ there. marked-IsLike (map trim_space asked) n _ h (
        close_each-IsClosed parse (map trim_space asked) [] n (λ x among.
          last_config (n.registry x) (named x n.services)
            (subst (λ bs. Agrees (n.registry x) bs) (flags-named x n.services) (h x))
            (all_there-registered asked n x there among))))
