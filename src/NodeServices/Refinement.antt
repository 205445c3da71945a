-- ===== src/NodeServices/Refinement.antt =====
-- A node answers any sequence of requests as the map from names to stages does.
use flux_panel_v.Base.{
  ℕ, suc, ◌≡◌, refl, sym, ap, subst, ◌∙◌, Bool, true, false, not, ◌&&◌, Option, none, some, List,
  [], ◌∷◌, map, All, Text, is_some, is_empty, trim_space, if◌then◌else◌, true-false,
}
use flux_panel_v.NodeServices.{
  ServiceConfig, Stage, serving, Node, Outcome, done, Parser, close_stage, count_parse,
}
use flux_panel_v.NodeServices.Stops.{is_one_of, pause_services}
use flux_panel_v.NodeServices.Starts.{trimmed, resume_services}
use flux_panel_v.NodeServices.AtName.{flags}
use flux_panel_v.NodeServices.InStep.{
  Agrees, IsInStep, Picture, IsLike, Ends, all_there, may_stop, without, delete_services-Ends,
}
use flux_panel_v.NodeServices.Pausing.{paused, pause_services-Ends}
use flux_panel_v.NodeServices.Registering.{IsUntouched}
use flux_panel_v.NodeServices.Creating.{distinct}
use flux_panel_v.NodeServices.Created.{takes_all, asked_names}
use flux_panel_v.NodeServices.Creation.{Creates, with_served, create_services-Creates}
use flux_panel_v.NodeServices.Resuming.{to_resume, takes_each}
use flux_panel_v.NodeServices.Resumed.{Resumes, resume_services-Resumes}
use flux_panel_v.NodeServices.Registering.{config_names}
use flux_panel_v.NodeServices.Updated.{update_services-Ends}
use flux_panel_v.NodeServices.Requests.{
  Request, creates, updates, deletes, pauses, resumes, handle, handle_all, is_known, all_known,
  all_unknown, may, redraw, replay, Answers, AllAnswer, IsPlain,
}

pub IsLike-IsInStep : (f : Picture) (n : Node) → IsLike f n → IsInStep n
unfolding IsLike
IsLike-IsInStep f n h x = subst (λ o. Agrees o (flags x n.services)) (sym (h x).0) (h x).1

IsInStep-IsLike : (n : Node) → IsInStep n → IsLike n.registry n
unfolding IsLike
IsInStep-IsLike n h x = (refl, h x)

IsLike-same : (f g : Picture) (n : Node) → ((x : Text) → f x ≡ g x) → IsLike f n → IsLike g n
unfolding IsLike
IsLike-same f g n same h x =
    ((h x).0 ∙ same x, subst (λ o. Agrees o (flags x n.services)) (same x) (h x).1)

IsLike-untouched : (f : Picture) (n v : Node) → IsUntouched n v → IsLike f n → IsLike f v
unfolding IsLike
IsLike-untouched f n v u h x = (
  u.same_registry x ∙ (h x).0,
  subst (λ cs. Agrees (f x) (flags x cs)) (sym u.same_services) (h x).1,
)

stage_of : (f : Picture) (n : Node) → IsLike f n → (x : Text) → n.registry x ≡ f x
unfolding IsLike
stage_of f n h x = (h x).0

all_there-known :
    (asked : List Text) (f : Picture) (n : Node)
    → ((x : Text) → n.registry x ≡ f x)
    → all_there asked n ≡ all_known asked f
unfolding all_known is_known
all_there-known [] f n same = refl
all_there-known (s ∷ ss) f n same = rw (same (trim_space s), all_there-known ss f n same) refl

takes_all-unknown :
    (parse : Parser)
    → ((k : ℕ) (c : ServiceConfig) → parse k c ≡ none)
    → (cs : List ServiceConfig) (f : Picture) (n : Node) → ((x : Text) → n.registry x ≡ f x)
    → takes_all parse cs n ≡ all_unknown (asked_names cs) f
unfolding all_unknown
takes_all-unknown parse accepts [] f n same = refl
takes_all-unknown parse accepts (c ∷ cs) f n same =
    rw
      (
        accepts n.parses (trimmed c),
        same (trim_space c.name),
        takes_all-unknown parse accepts cs f (count_parse n) same,
      )
      (ap (λ b. b && all_unknown (asked_names cs) f) (and_true _))
  where
    and_true : (b : Bool) → b && true ≡ b
    and_true true = refl
    and_true false = refl

takes_each-true :
    (parse : Parser)
    → ((k : ℕ) (c : ServiceConfig) → parse k c ≡ none)
    → (k : ℕ) (ps : List (Text × ServiceConfig)) → takes_each parse k ps ≡ true
takes_each-true parse accepts k [] = refl
takes_each-true parse accepts k (p ∷ ps) =
    rw (accepts k p.1) (takes_each-true parse accepts (suc k) ps)

without-same :
    (ss : List Text) (f g : Picture)
    → ((x : Text) → f x ≡ g x)
    → (x : Text) → without ss f x ≡ without ss g x
unfolding without
without-same ss f g same x = ap (λ o. if is_one_of x ss then none else o) (same x)

paused-same :
    (ss : List Text) (f g : Picture)
    → ((x : Text) → f x ≡ g x)
    → (x : Text) → paused ss f x ≡ paused ss g x
unfolding paused
paused-same ss f g same x = ap (λ o. if is_one_of x ss then close_stage o else o) (same x)

served_same :
    (ss : List Text) (f g : Picture)
    → ((x : Text) → f x ≡ g x)
    → (x : Text) → with_served ss f x ≡ with_served ss g x
unfolding with_served
served_same ss f g same x = ap (λ o. if is_one_of x ss then some serving else o) (same x)

-- What a request does, if it ends as the map says.
abbrev Does : Bool → Picture → Picture → Outcome × Node → Type 0
Does b f g r = Answers b r.0 × IsLike (if b then g else f) r.1

Ends-Does :
    (b c : Bool) (f g h : Picture) (n : Node) (r : Outcome × Node)
    → b ≡ c
    → ((x : Text) → h x ≡ g x)
    → IsLike f n
    → Ends b h n r
    → Does c f g r
unfolding Ends
Ends-Does true false f g h n r e same like ends = absurd (true-false e)
Ends-Does true true f g h n r e same like ends = (ends.0, IsLike-same h g r.1 same ends.1)
Ends-Does false true f g h n r e same like ends = absurd (true-false (sym e))
Ends-Does false false f g h n r e same like ends =
    (ends.0, subst (λ v. IsLike f v) (sym ends.1) like)

Creates-Does :
    (b c : Bool) (f g h : Picture) (n : Node) (r : Outcome × Node)
    → b ≡ c
    → ((x : Text) → h x ≡ g x)
    → IsLike f n
    → Creates b h n r
    → Does c f g r
unfolding Creates
Creates-Does true false f g h n r e same like ends = absurd (true-false e)
Creates-Does true true f g h n r e same like ends = (ends.0, IsLike-same h g r.1 same ends.1)
Creates-Does false true f g h n r e same like ends = absurd (true-false (sym e))
Creates-Does false false f g h n r e same like ends = (ends.0, IsLike-untouched f n r.1 ends.1 like)

Resumes-Ends :
    (b : Bool) (f : Picture) (n : Node) (r : Outcome × Node) → Resumes b true f n r → Ends b f n r
unfolding Resumes Ends
Resumes-Ends true f n r h = h
Resumes-Ends false f n r h = h

Does-true :
    (b : Bool) (f g : Picture) (r : Outcome × Node)
    → b ≡ true
    → Does b f g r
    → (r.0 ≡ done) × IsLike g r.1
Does-true true f g r e h = h
Does-true false f g r e h = absurd (true-false (sym e))

paused-some :
    (names : List Text) (f : Picture) (x : Text) → is_some (paused names f x) ≡ is_some (f x)
unfolding paused
paused-some names f x = closed_some (is_one_of x names) (f x)
  where
    closed_some :
        (b : Bool) (o : Option Stage) → is_some (if b then close_stage o else o) ≡ is_some o
    closed_some true none = refl
    closed_some true (some s) = refl
    closed_some false o = refl

all_known-paused :
    (ss names : List Text) (f : Picture) → all_known ss (paused names f) ≡ all_known ss f
unfolding all_known is_known
all_known-paused [] names f = refl
all_known-paused (s ∷ ss) names f =
    rw (paused-some names f (trim_space s), all_known-paused ss names f) refl

served-paused :
    (names : List Text) (f : Picture)
    → ((x : Text) → is_one_of x names ≡ true → f x ≡ some serving)
    → (x : Text) → with_served names (paused names f) x ≡ f x
unfolding with_served paused
served-paused names f serves x = by_tests (is_one_of x names) (f x) (serves x)
  where
    by_tests :
        (b : Bool) (o : Option Stage)
        → (b ≡ true → o ≡ some serving)
        → (if b then some serving else (if b then close_stage o else o)) ≡ o
    by_tests true o e = sym (e refl)
    by_tests false o e = refl

module _ (parse : Parser) (accepts : (k : ℕ) (c : ServiceConfig) → parse k c ≡ none) where
  handle-Does :
      (r : Request) (f : Picture) (n : Node)
      → IsLike f n
      → IsPlain r
      → Does (may r f) f (redraw r f) (handle parse r n)
  unfolding handle may redraw IsPlain
  handle-Does (creates cs) f n like plain =
      let same = stage_of f n like in
      Creates-Does _ _ f _ _ n _
        (ap (λ b. not (is_empty cs) && (b && distinct (asked_names cs)))
          (takes_all-unknown parse accepts cs f n same))
        (served_same (asked_names cs) n.registry f same) like
        (create_services-Creates parse cs n (IsLike-IsInStep f n like) plain)
  handle-Does (updates cs) f n like plain =
      let same = stage_of f n like in
      Ends-Does _ _ f _ _ n _
        (ap (λ b. not (is_empty (config_names cs)) && b)
          (all_there-known (config_names cs) f n same))
        (served_same (asked_names cs) n.registry f same) like
        (update_services-Ends parse accepts cs n (IsLike-IsInStep f n like) plain.0 plain.1 plain.2)
  handle-Does (deletes ss) f n like plain =
      let same = stage_of f n like in
      Ends-Does _ _ f _ _ n _ (ap (λ b. not (is_empty ss) && b) (all_there-known ss f n same))
        (without-same (map trim_space ss) n.registry f same) like
        (delete_services-Ends ss n (IsLike-IsInStep f n like))
  handle-Does (pauses ss) f n like plain =
      let same = stage_of f n like in
      Ends-Does _ _ f _ _ n _ (ap (λ b. not (is_empty ss) && b) (all_there-known ss f n same))
        (paused-same (map trim_space ss) n.registry f same) like
        (pause_services-Ends parse ss n (IsLike-IsInStep f n like))
  handle-Does (resumes ss) f n like plain =
      let same = stage_of f n like in
      Ends-Does _ _ f _ _ n _ (ap (λ b. not (is_empty ss) && b) (all_there-known ss f n same))
        (served_same (map trim_space ss) n.registry f same) like
        (Resumes-Ends (may_stop ss n) _ n _ (
          subst
            (λ b.
              Resumes (may_stop ss n) b (with_served (map trim_space ss) n.registry) n
                (resume_services parse ss n))
            (takes_each-true parse accepts n.parses (to_resume ss n))
            (resume_services-Resumes parse ss n (IsLike-IsInStep f n like))))

  pauses_Does :
      (ss : List Text) (f : Picture) (n : Node)
      → IsLike f n
      → Does
          (not (is_empty ss) && all_known ss f)
          f
          (paused (map trim_space ss) f)
          (pause_services parse ss n)
  pauses_Does ss f n like = unfold handle may redraw IsPlain in handle-Does (pauses ss) f n like tt

  resumes_Does :
      (ss : List Text) (f : Picture) (n : Node)
      → IsLike f n
      → Does
          (not (is_empty ss) && all_known ss f)
          f
          (with_served (map trim_space ss) f)
          (resume_services parse ss n)
  resumes_Does ss f n like =
      unfold handle may redraw IsPlain in handle-Does (resumes ss) f n like tt

  All-Does :
      (rs : List Request) (f : Picture) (n : Node)
      → IsLike f n
      → All IsPlain rs
      → AllAnswer (replay rs f).0 (handle_all parse rs n).0
        × IsLike (replay rs f).1 (handle_all parse rs n).1
  unfolding replay handle_all AllAnswer
  All-Does [] f n like plain = (tt, like)
  All-Does (r ∷ rs) f n like plain =
      let first = handle-Does r f n like plain.0 in
      let rest =
        All-Does rs (if may r f then redraw r f else f) (handle parse r n).1 first.1 plain.1 in
      ((first.0, rest.0), rest.1)

  -- From a node in step, and with a parser that takes every configuration, any sequence of requests is
  -- answered as the map from names to stages answers it, and leaves the node in step with that map,
  -- when no request brings a configuration that is marked as paused, and updates bring each name
  -- without space around it and none twice.
  pub handle_all-IsLike :
      (rs : List Request) (n : Node)
      → IsInStep n
      → All IsPlain rs
      → AllAnswer (replay rs n.registry).0 (handle_all parse rs n).0
        × IsLike (replay rs n.registry).1 (handle_all parse rs n).1
  handle_all-IsLike rs n h plain = All-Does rs n.registry n (IsInStep-IsLike n h) plain

  -- On a node in step, with a parser that takes every configuration: services that accept connections
  -- are paused and resumed without a refusal, and every name has the stage that it had.
  pub resume-pause :
      (ss : List Text) (n : Node)
      → IsInStep n
      → may_stop ss n ≡ true
      → ((x : Text) → is_one_of x (map trim_space ss) ≡ true → n.registry x ≡ some serving)
      → ((pause_services parse ss n).0 ≡ done)
        × ((resume_services parse ss (pause_services parse ss n).1).0 ≡ done)
        × IsLike n.registry (resume_services parse ss (pause_services parse ss n).1).1
  resume-pause ss n h there serves =
      let f = n.registry in
      let first_may : not (is_empty ss) && all_known ss f ≡ true =
        sym (ap (λ b. not (is_empty ss) && b) (all_there-known ss f n (λ x. refl))) ∙ there in
      let once = Does-true _ f _ _ first_may (pauses_Does ss f n (IsInStep-IsLike n h)) in
      let twice =
        Does-true _ _ _ _
          (ap (λ b. not (is_empty ss) && b) (all_known-paused ss (map trim_space ss) f) ∙ first_may)
          (resumes_Does ss (paused (map trim_space ss) f) (pause_services parse ss n).1 once.1) in
      (once.0, twice.0, IsLike-same _ f _ (served-paused (map trim_space ss) f serves) twice.1)
