-- ===== src/NodeServices/Creation.antt =====
-- createServices on a node in step: all services are served and configured, or nothing is changed.
use flux_panel_v.Base.{
  ◌≡◌, refl, sym, ap, subst, ◌∙◌, Bool, true, false, ◌&&◌, Option, none, some, List, [], ◌∷◌, ◌++◌,
  map, Text, is_some, if◌then◌else◌, some-none,
}
use flux_panel_v.NodeServices.{
  ServiceConfig, Stage, ready, serving, Node, Refusal, no_services, Outcome, done, refused, Parser,
  with_services, start_stage,
}
use flux_panel_v.NodeServices.Stops.{Checked, passed, stopped, is_one_of}
use flux_panel_v.NodeServices.Starts.{
  trimmed, parse_each, register_each, start_each, start_registered, create_parsed, create_services,
}
use flux_panel_v.NodeServices.AtName.{flags, flags_++}
use flux_panel_v.NodeServices.InStep.{Agrees, IsInStep, Picture, IsLike}
use flux_panel_v.NodeServices.Registering.{
  IsUntouched, Registers, config_names, register_each-Registers,
}
use flux_panel_v.NodeServices.Creating.{distinct, all_free-distinct}
use flux_panel_v.NodeServices.Created.{
  may_create, asked_names, takes_all, takes_all-new, Parses, parse_each-Parses, IsUnmarked,
  none_named, one_named, start_each-registry, start_each-services, passed_eq, stopped_passed,
}

-- The names of services that are started.
unfoldable pub with_served : List Text → Picture → Picture
with_served names f x = if is_one_of x names then some serving else f x

-- Done, and the node has the new picture; or refused, and its services are what they were.
unfoldable pub Creates : Bool → Picture → Node → Outcome × Node → Type 0
Creates true f n r = (r.0 ≡ done) × IsLike f r.1
Creates false f n r = ((q : Refusal) × (r.0 ≡ refused q)) × IsUntouched n r.1

append_nil : (bs : List Bool) → bs ++ [] ≡ bs
append_nil [] = refl
append_nil (b ∷ bs) = ap (λ cs. b ∷ cs) (append_nil bs)

-- A name that is new gets a service that is started and a configuration that is not marked.
served-Agrees :
    (among : Bool) (o : Option Stage) (bs ds : List Bool)
    → Agrees o bs
    → (among ≡ true → o ≡ none)
    → ds ≡ (if among then false ∷ [] else [])
    → Agrees (if among then some serving else o) (bs ++ ds)
served-Agrees true none [] ds h new e = rw e refl
served-Agrees true none (b ∷ bs) ds h new e = absurd h
served-Agrees true (some s) bs ds h new e = absurd (some-none s (new refl))
served-Agrees false o bs ds h new e =
    subst (λ cs. Agrees o cs) (sym (ap (λ xs. bs ++ xs) e ∙ append_nil bs)) h

-- All new services are registered: the node has the new picture.
started-IsLike :
    (n v : Node) (cs : List ServiceConfig)
    → IsInStep n
    → IsUnmarked cs
    → distinct (config_names cs) ≡ true
    → ((x : Text) → is_one_of x (config_names cs) ≡ true → n.registry x ≡ none)
    → v.services ≡ n.services
    → ((x : Text)
        → v.registry x ≡ (if is_one_of x (config_names cs) then some ready else n.registry x))
    → IsLike
        (with_served (config_names cs) n.registry)
        (with_services ((start_each cs v).services ++ cs) (start_each cs v))
unfolding IsLike with_served
started-IsLike n v cs h u d new same stages x = (
  start_each-registry cs v x
      ∙ (rw (stages x) (served (is_one_of x (config_names cs)) (n.registry x))),
  subst (λ bs. Agrees (if is_one_of x (config_names cs) then some serving else n.registry x) bs)
      (sym (flags_++ x (start_each cs v).services cs))
      (served-Agrees (is_one_of x (config_names cs)) (n.registry x)
        (flags x (start_each cs v).services) (flags x cs)
        (subst (λ ds. Agrees (n.registry x) (flags x ds)) (sym (start_each-services cs v ∙ same))
          (h x))
        (new x) (marks (is_one_of x (config_names cs)) refl)),
)
  where
    served :
        (among : Bool) (o : Option Stage)
        → (if among
            then start_stage (if among then some ready else o)
            else (if among then some ready else o))
          ≡ (if among then some serving else o)
    served true o = refl
    served false o = refl

    marks :
        (among : Bool)
        → is_one_of x (config_names cs) ≡ among
        → flags x cs ≡ (if among then false ∷ [] else [])
    marks true e = one_named x cs u d e
    marks false e = none_named x cs e

trimmed-IsUnmarked :
    (asked : List ServiceConfig) → IsUnmarked asked → IsUnmarked (map trimmed asked)
unfolding IsUnmarked
trimmed-IsUnmarked [] u = tt
trimmed-IsUnmarked (c ∷ cs) u = (u.0, trimmed-IsUnmarked cs u.1)

-- What the second phase and those after it make of the configurations that were parsed.
registered-Creates :
    (n v : Node) (cs : List ServiceConfig) (b : Bool) (r : Option Refusal × Node)
    → IsInStep n
    → IsUnmarked cs
    → distinct (config_names cs) ≡ b
    → ((x : Text) → is_one_of x (config_names cs) ≡ true → n.registry x ≡ none)
    → IsUntouched n v
    → Registers b n cs v r
    → Creates b (with_served (config_names cs) n.registry) n (start_registered cs r)
unfolding Creates
registered-Creates n v cs true (some q, w) h u d new t g = absurd (some-none q g.0)
registered-Creates n v cs true (none, w) h u d new t g = (
  refl,
  started-IsLike n w cs h u d new (g.1 ∙ t.same_services) (λ x.
      g.2 x
      ∙ ap (λ o. if is_one_of x (config_names cs) then some ready else o) (t.same_registry x)),
)
registered-Creates n v cs false (none, w) h u d new t g = absurd (some-none g.0.0 (sym g.0.1))
registered-Creates n v cs false (some q, w) h u d new t g = ((q, refl), g.1)

parsed-Creates :
    (parse : Parser) (asked : List ServiceConfig) (n : Node) (b : Bool)
    (r : Checked (List ServiceConfig) × Node)
    → IsInStep n
    → IsUnmarked asked
    → takes_all parse asked n ≡ b
    → Parses b asked n r
    → Creates
        (b && distinct (asked_names asked))
        (with_served (asked_names asked) n.registry)
        n
        (create_parsed r)
unfolding Creates
parsed-Creates parse asked n false (passed cs, v) h u t g =
    absurd (stopped_passed g.0.0 cs (sym g.0.1))
parsed-Creates parse asked n false (stopped q, v) h u t g = ((q, refl), g.1)
parsed-Creates parse asked n true (stopped q, v) h u t g = absurd (stopped_passed q _ g.0)
parsed-Creates parse asked n true (passed cs, v) h u t g =
    let new = takes_all-new parse asked n in
    subst
      (λ ds.
        Creates (distinct (asked_names asked)) (with_served (asked_names asked) n.registry) n
          (start_registered ds (register_each ds [] v)))
      (sym (passed_eq cs _ g.0))
      (registered-Creates n v (map trimmed asked) (distinct (asked_names asked)) _ h
        (trimmed-IsUnmarked asked u) refl (λ x. new x t) g.1
        (subst (λ c. Registers c n (map trimmed asked) v (register_each (map trimmed asked) [] v))
          (all_free-distinct (map trimmed asked) v
            (λ x among. ap is_some (g.1.same_registry x ∙ new x t among)))
          (register_each-Registers n (map trimmed asked) [] v
            (g.1.same_registry, g.1.same_services))))

-- On a node in step, createServices serves and configures all the services it is asked for, when
-- none is marked as paused, each has a new name, no name stands twice and the parser takes each;
-- and otherwise it refuses, and the registry and the configuration are what they were.
pub create_services-Creates :
    (parse : Parser) (asked : List ServiceConfig) (n : Node)
    → IsInStep n
    → IsUnmarked asked
    → Creates
        (may_create parse asked n)
        (with_served (asked_names asked) n.registry)
        n
        (create_services parse asked n)
unfolding create_services Creates
create_services-Creates parse [] n h u =
    ((no_services, refl), record { same_registry = λ x. refl; same_services = refl })
create_services-Creates parse (c ∷ cs) n h u =
    parsed-Creates parse (c ∷ cs) n (takes_all parse (c ∷ cs) n) (parse_each parse (c ∷ cs) n) h u
      refl (parse_each-Parses parse (c ∷ cs) n)
