-- ===== src/NodeServices/Registering.antt =====
-- The second phase of createServices: all services are registered, or none is.
use flux_panel_v.Base.{
  ◌≡◌, refl, sym, ap, ◌∙◌, inl, inr, Bool, true, false, not, ◌&&◌, ◌||◌, Option, none, some, List,
  [], ◌∷◌, ◌++◌, map, Text, is_some, eq_text, eq_text→eq, Bool-cases, if◌then◌else◌, true-false,
}
use flux_panel_v.NodeServices.{
  ServiceConfig, Stage, ready, Node, Refusal, already_exists, set_stage, is_registered, unregister,
}
use flux_panel_v.NodeServices.Stops.{is_one_of}
use flux_panel_v.NodeServices.Starts.{roll_back, register_each}
use flux_panel_v.NodeServices.AtName.{set_stage-registry, set_stage-services}

-- The registry by name and the list of services are those of another node.
pub record IsUntouched (n v : Node) : Type 0 where
  pub same_registry : (x : Text) → v.registry x ≡ n.registry x
  pub same_services : v.services ≡ n.services

abbrev pub config_names : List ServiceConfig → List Text
config_names cs = map (λ c. c.name) cs

take_off-services :
    (b : Bool) (s : Text) (n : Node) → (if b then unregister s n else n).services ≡ n.services
take_off-services true s n = set_stage-services s none n
take_off-services false s n = refl

roll_back-services : (made : List Text) (n : Node) → (roll_back made n).services ≡ n.services
unfolding roll_back
roll_back-services [] n = refl
roll_back-services (s ∷ ss) n =
    roll_back-services ss (if is_registered s n then unregister s n else n)
    ∙ take_off-services (is_registered s n) s n

none_when_gone : (o : Option Stage) → is_some o ≡ false → o ≡ none
none_when_gone none e = refl
none_when_gone (some s) e = absurd (true-false e)

take_off-registry :
    (s : Text) (n : Node) (x : Text)
    → (if is_registered s n then unregister s n else n).registry x
      ≡ (if eq_text s x then none else n.registry x)
take_off-registry s n x = elim (Bool-cases (is_registered s n)) [
  | inl there ↦ rw there (set_stage-registry s none n x)
  | inr gone ↦ rw gone (
      absent (eq_text s x) (n.registry x)
        (λ own. ap n.registry (sym (eq_text→eq s x own)) ∙ none_when_gone (n.registry s) gone))
]
  where
    absent : (b : Bool) (o : Option Stage) → (b ≡ true → o ≡ none) → o ≡ (if b then none else o)
    absent true o e = e refl
    absent false o e = refl

pub roll_back-registry :
    (made : List Text) (n : Node) (x : Text)
    → (roll_back made n).registry x ≡ (if is_one_of x made then none else n.registry x)
unfolding roll_back
roll_back-registry [] n x = refl
roll_back-registry (s ∷ ss) n x =
    roll_back-registry ss (if is_registered s n then unregister s n else n) x
    ∙ (rw (take_off-registry s n x) (none_step (eq_text s x) (is_one_of x ss) (n.registry x)))
  where
    none_step :
        (same again : Bool) (o : Option Stage)
        → (if again then none else (if same then none else o)) ≡ (if same || again then none else o)
    none_step true true o = refl
    none_step true false o = refl
    none_step false again o = refl

is_one_of_++ :
    (x : Text) (made names : List Text)
    → is_one_of x (made ++ names) ≡ is_one_of x made || is_one_of x names
is_one_of_++ x [] names = refl
is_one_of_++ x (s ∷ ss) names =
    ap (λ b. eq_text s x || b) (is_one_of_++ x ss names)
    ∙ assoc (eq_text s x) (is_one_of x ss) (is_one_of x names)
  where
    assoc : (a b c : Bool) → a || (b || c) ≡ (a || b) || c
    assoc true b c = refl
    assoc false b c = refl

-- What the loop would restore, at each of its steps.
abbrev Restores : Node → List Text → Node → Type 0
Restores n made v =
    ((x : Text) → (if is_one_of x made then none else v.registry x) ≡ n.registry x)
    × (v.services ≡ n.services)

roll_back-IsUntouched :
    (n : Node) (made : List Text) (v : Node) → Restores n made v → IsUntouched n (roll_back made v)
roll_back-IsUntouched n made v h = record {
  same_registry = λ x. roll_back-registry made v x ∙ h.0 x;
  same_services = roll_back-services made v ∙ h.1;
}

Restores-register :
    (n : Node) (made : List Text) (v : Node) (s : Text)
    → is_registered s v ≡ false
    → Restores n made v
    → Restores n (made ++ (s ∷ [])) (set_stage s (some ready) v)
Restores-register n made v s free h = (
  λ x.
      rw (is_one_of_++ x made (s ∷ []), set_stage-registry s (some ready) v x)
        (keep (is_one_of x made) (eq_text s x) (v.registry x)
            (λ own. ap v.registry (sym (eq_text→eq s x own)) ∙ none_when_gone (v.registry s) free)
          ∙ h.0 x),
  set_stage-services s (some ready) v ∙ h.1,
)
  where
    keep :
        (b own : Bool) (o : Option Stage)
        → (own ≡ true → o ≡ none)
        → (if b || (own || false) then none else (if own then some ready else o))
          ≡ (if b then none else o)
    keep true own o e = refl
    keep false true o e = sym (e refl)
    keep false false o e = refl

-- Each name is free when its turn comes.
abbrev pub all_free : List ServiceConfig → Node → Bool
all_free [] n = true
all_free (c ∷ cs) n = not (is_registered c.name n) && all_free cs (set_stage c.name (some ready) n)

-- All are registered, or the node is as it was before the loop.
abbrev pub Registers : Bool → Node → List ServiceConfig → Node → Option Refusal × Node → Type 0
Registers true n cs v r =
    (r.0 ≡ none)
    × (r.1.services ≡ v.services)
    × ((x : Text)
        → r.1.registry x ≡ (if is_one_of x (config_names cs) then some ready else v.registry x))
Registers false n cs v r = ((q : Refusal) × (r.0 ≡ some q)) × IsUntouched n r.1

Registers-step :
    (b : Bool) (n : Node) (c : ServiceConfig) (cs : List ServiceConfig) (v : Node)
    (r : Option Refusal × Node)
    → Registers b n cs (set_stage c.name (some ready) v) r
    → Registers b n (c ∷ cs) v r
Registers-step false n c cs v r h = h
Registers-step true n c cs v r h = (
  h.0,
  h.1 ∙ set_stage-services c.name (some ready) v,
  λ x.
      h.2 x
      ∙ (rw (set_stage-registry c.name (some ready) v x)
          (step (eq_text c.name x) (is_one_of x (config_names cs)) (v.registry x))),
)
  where
    step :
        (same again : Bool) (o : Option Stage)
        → (if again then some ready else (if same then some ready else o))
          ≡ (if same || again then some ready else o)
    step true true o = refl
    step true false o = refl
    step false again o = refl

pub register_each-Registers :
    (n : Node) (cs : List ServiceConfig) (made : List Text) (v : Node)
    → Restores n made v
    → Registers (all_free cs v) n cs v (register_each cs made v)
unfolding register_each
register_each-Registers n [] made v h = (refl, refl, λ x. refl)
register_each-Registers n (c ∷ cs) made v h = elim (Bool-cases (is_registered c.name v)) [
  | inl taken ↦ rw taken ((already_exists c.name, refl), roll_back-IsUntouched n made v h)
  | inr free ↦ rw free (
      Registers-step (all_free cs (set_stage c.name (some ready) v)) n c cs v _ (
        register_each-Registers n cs (made ++ (c.name ∷ [])) (set_stage c.name (some ready) v)
          (Restores-register n made v c.name free h)))
]
