-- ===== src/NodeServices/Created.antt =====
-- The phases of createServices: what is parsed, registered, started and configured.
use flux_panel_v.Base.{
  ◌≡◌, refl, sym, ap, subst, ◌∙◌, inl, inr, Bool, true, false, not, ◌&&◌, ◌||◌, Option, none, some,
  List, [], ◌∷◌, map, All, Text, is_some, is_empty, eq_text, eq_text→eq, trim_space, Bool-cases,
  if◌then◌else◌, true-false,
}
use flux_panel_v.NodeServices.Marks.{is_paused}
use flux_panel_v.NodeServices.{
  ServiceConfig, Stage, ready, serving, closed, Node, Refusal, name_required, already_exists,
  Parser, is_registered, start_stage, start_service, count_parse,
}
use flux_panel_v.NodeServices.Stops.{Checked, passed, stopped, is_one_of}
use flux_panel_v.NodeServices.Starts.{trimmed, keep_parsed, parse_if, parse_each, start_each}
use flux_panel_v.NodeServices.AtName.{flags, set_stage-registry, set_stage-services}
use flux_panel_v.NodeServices.Registering.{IsUntouched, config_names}
use flux_panel_v.NodeServices.Creating.{distinct}

-- A configuration that the first phase takes, at the call of the parser that its turn is.
abbrev takes : Parser → ServiceConfig → Node → Bool
takes parse c n =
    (not (is_empty (trim_space c.name)) && not (is_registered (trim_space c.name) n))
    && not (is_some (parse n.parses (trimmed c)))

abbrev pub takes_all : Parser → List ServiceConfig → Node → Bool
takes_all parse [] n = true
takes_all parse (c ∷ cs) n = takes parse c n && takes_all parse cs (count_parse n)

abbrev pub asked_names : List ServiceConfig → List Text
asked_names asked = config_names (map trimmed asked)

-- At least one service, each with a name that is not registered and with a configuration that is
-- parsed, and no name twice.
abbrev pub may_create : Parser → List ServiceConfig → Node → Bool
may_create parse asked n =
    not (is_empty asked) && (takes_all parse asked n && distinct (asked_names asked))

IsUntouched-parse : (n : Node) → IsUntouched n (count_parse n)
IsUntouched-parse n = record { same_registry = λ x. refl; same_services = refl }

pub passed_eq : (a b : List ServiceConfig) → passed a ≡ passed b → a ≡ b
passed_eq a b e = cc

pub stopped_passed : (q : Refusal) (b : List ServiceConfig) → stopped q ≡ passed b → ⊥
stopped_passed q b e = cc

-- What the first phase returns.
abbrev pub Parses : Bool → List ServiceConfig → Node → Checked (List ServiceConfig) × Node → Type 0
Parses true asked n r = (r.0 ≡ passed (map trimmed asked)) × IsUntouched n r.1
Parses false asked n r = ((q : Refusal) × (r.0 ≡ stopped q)) × IsUntouched n r.1

pub parse_each-Parses :
    (parse : Parser) (asked : List ServiceConfig) (n : Node)
    → Parses (takes_all parse asked n) asked n (parse_each parse asked n)
unfolding parse_each
parse_each-Parses parse [] n = (refl, record { same_registry = λ x. refl; same_services = refl })
parse_each-Parses parse (c ∷ cs) n =
    step (is_empty (trim_space c.name)) (is_registered (trim_space c.name) n)
      (parse n.parses (trimmed c)) (takes_all parse cs (count_parse n))
      (parse_each parse cs (count_parse n)) (parse_each-Parses parse cs (count_parse n))
  where
    untouched : (v : Node) → IsUntouched (count_parse n) v → IsUntouched n v
    untouched v h = record { same_registry = h.same_registry; same_services = h.same_services }

    kept :
        (b : Bool) (r : Checked (List ServiceConfig) × Node)
        → Parses b cs (count_parse n) r
        → Parses b (c ∷ cs) n (keep_parsed (trim_space c.name) none (trimmed c) r (count_parse n))
    kept true (passed ds, v) h =
        (ap (λ es. passed (trimmed c ∷ es)) (passed_eq ds _ h.0), untouched v h.1)
    kept true (stopped q, v) h = absurd (stopped_passed q _ h.0)
    kept false (passed ds, v) h = absurd (stopped_passed h.0.0 ds (sym h.0.1))
    kept false (stopped q, v) h = ((q, refl), untouched v h.1)

    step :
        (e t : Bool) (o : Option Text) (b : Bool) (r : Checked (List ServiceConfig) × Node)
        → Parses b cs (count_parse n) r
        → Parses (((not e && not t) && not (is_some o)) && b) (c ∷ cs) n (
            parse_if
              (if e
                then some name_required
                else if t
                then some (already_exists (trim_space c.name))
                else none)
              (keep_parsed (trim_space c.name) o (trimmed c) r (count_parse n))
              n)
    step true t o b r h = ((_, refl), record { same_registry = λ x. refl; same_services = refl })
    step false true o b r h =
        ((_, refl), record { same_registry = λ x. refl; same_services = refl })
    step false false (some q) b r h = ((_, refl), IsUntouched-parse n)
    step false false none b r h = kept b r h

pub start_each-registry :
    (cs : List ServiceConfig) (n : Node) (x : Text)
    → (start_each cs n).registry x
      ≡ (if is_one_of x (config_names cs) then start_stage (n.registry x) else n.registry x)
unfolding start_each
start_each-registry [] n x = refl
start_each-registry (c ∷ cs) n x =
    start_each-registry cs (start_service c.name n) x
    ∙ (rw (set_stage-registry c.name (start_stage (n.registry c.name)) n x) (
        step (eq_text c.name x) (is_one_of x (config_names cs)) (n.registry c.name) (n.registry x)
          (λ own. ap n.registry (eq_text→eq c.name x own))))
  where
    twice : (o : Option Stage) → start_stage (start_stage o) ≡ start_stage o
    twice none = refl
    twice (some ready) = refl
    twice (some serving) = refl
    twice (some closed) = refl

    step :
        (same again : Bool) (here o : Option Stage)
        → (same ≡ true → here ≡ o)
        → (if again
            then start_stage (if same then start_stage here else o)
            else (if same then start_stage here else o))
          ≡ (if same || again then start_stage o else o)
    step true true here o e = rw (e refl) (twice o)
    step true false here o e = rw (e refl) refl
    step false true here o e = refl
    step false false here o e = refl

pub start_each-services :
    (cs : List ServiceConfig) (n : Node) → (start_each cs n).services ≡ n.services
unfolding start_each
start_each-services [] n = refl
start_each-services (c ∷ cs) n =
    start_each-services cs (start_service c.name n) ∙ set_stage-services c.name _ n

-- The names that the first phase takes are new.
pub takes_all-new :
    (parse : Parser) (asked : List ServiceConfig) (n : Node) (x : Text)
    → takes_all parse asked n ≡ true
    → is_one_of x (asked_names asked) ≡ true
    → n.registry x ≡ none
takes_all-new parse [] n x h among = absurd (true-false (sym among))
takes_all-new parse (c ∷ cs) n x h among = elim (Bool-cases (eq_text (trim_space c.name) x)) [
  | inl own ↦
      subst (λ y. n.registry y ≡ none) (eq_text→eq (trim_space c.name) x own)
        (gone (is_empty (trim_space c.name)) (n.registry (trim_space c.name))
          (is_some (parse n.parses (trimmed c))) (takes_all parse cs (count_parse n)) h)
  | inr other ↦
      takes_all-new parse cs (count_parse n) x
        (rest (takes parse c n) (takes_all parse cs (count_parse n)) h) (rw other at among)
]
  where
    gone :
        (e : Bool) (o : Option Stage) (p b : Bool)
        → ((not e && not (is_some o)) && not p) && b ≡ true
        → o ≡ none
    gone e none p b h = refl
    gone true (some s) p b h = absurd (true-false (sym h))
    gone false (some s) p b h = absurd (true-false (sym h))

    rest : (a b : Bool) → a && b ≡ true → b ≡ true
    rest true b e = e
    rest false b e = absurd (true-false (sym e))

-- The marks of new configurations, which are not marked and have names of their own.
pub none_named :
    (x : Text) (cs : List ServiceConfig) → is_one_of x (config_names cs) ≡ false → flags x cs ≡ []
unfolding flags
none_named x [] h = refl
none_named x (c ∷ cs) h = elim (Bool-cases (eq_text c.name x)) [
  | inl own ↦ absurd (true-false (rw own at h))
  | inr other ↦ rw other (none_named x cs (rw other at h))
]

-- None of the configurations is marked.
unfoldable pub IsUnmarked : List ServiceConfig → Type 0
IsUnmarked asked = All (λ (c : ServiceConfig). is_paused c.metadata ≡ false) asked

pub one_named :
    (x : Text) (cs : List ServiceConfig)
    → IsUnmarked cs
    → distinct (config_names cs) ≡ true
    → is_one_of x (config_names cs) ≡ true
    → flags x cs ≡ false ∷ []
unfolding flags IsUnmarked
one_named x [] u d among = absurd (true-false (sym among))
one_named x (c ∷ cs) u d among = elim (Bool-cases (eq_text c.name x)) [
  | inl own ↦
      rw (own, u.0)
        (ap (λ bs. false ∷ bs)
          (none_named x cs (
            subst (λ y. is_one_of y (config_names cs) ≡ false) (eq_text→eq c.name x own)
              (first_only (is_one_of c.name (config_names cs)) (distinct (config_names cs)) d).0)))
  | inr other ↦ rw other (
      one_named x cs u.1
        (first_only (is_one_of c.name (config_names cs)) (distinct (config_names cs)) d).1
        (rw other at among))
]
  where
    first_only : (a b : Bool) → not a && b ≡ true → (a ≡ false) × (b ≡ true)
    first_only true b e = absurd (true-false (sym e))
    first_only false b e = (refl, e)
