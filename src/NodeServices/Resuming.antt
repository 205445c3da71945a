-- ===== src/NodeServices/Resuming.antt =====
-- What resumeServices makes of a node in step.
use flux_panel_v.Base.{
  ℕ, suc, ◌≡◌, refl, sym, ap, subst, ◌∙◌, Bool, true, false, not, ◌&&◌, ◌||◌, Option, none, some,
  List, [], ◌∷◌, map, Text, is_some, eq_text, eq_text→eq, arith, trim_space, if◌then◌else◌,
  true-false,
}
use flux_panel_v.NodeServices.Marks.{is_paused}
use flux_panel_v.NodeServices.{ServiceConfig, Stage, Node, Parser, is_registered, named, first}
use flux_panel_v.NodeServices.Stops.{passed, is_one_of}
use flux_panel_v.NodeServices.Starts.{
  running, resumable, find_paused, found_config, add_found, check_paused, names_of,
}
use flux_panel_v.NodeServices.AtName.{flags}
use flux_panel_v.NodeServices.InStep.{Agrees, IsInStep, is_there, all_there}
use flux_panel_v.NodeServices.Pausing.{flags-named}

-- The services that are asked for and marked, each with its configuration.
abbrev pub pick :
    Text → Option ServiceConfig → List (Text × ServiceConfig) → List (Text × ServiceConfig)
pick name none rest = rest
pick name (some c) rest = if is_paused c.metadata then (name, c) ∷ rest else rest

abbrev pub to_resume : List Text → Node → List (Text × ServiceConfig)
to_resume [] n = []
to_resume (s ∷ ss) n =
    pick (trim_space s) (first (named (trim_space s) n.services)) (to_resume ss n)

-- The parser takes each, from a call on.
abbrev pub takes_each : Parser → ℕ → List (Text × ServiceConfig) → Bool
takes_each parse k [] = true
takes_each parse k (p ∷ ps) = not (is_some (parse k p.1)) && takes_each parse (suc k) ps

first_config :
    (o : Option Stage) (cs : List ServiceConfig)
    → Agrees o (map (λ c. is_paused c.metadata) cs)
    → is_some o ≡ true
    → (c : ServiceConfig) × (first cs ≡ some c)
first_config none cs h r = absurd (true-false (sym r))
first_config (some s) [] h r = absurd h
first_config (some s) (c ∷ cs) h r = (c, refl)

-- The first phase, on names that are all there.
find_paused-there :
    (s : Text) (n : Node)
    → is_there s n ≡ true
    → find_paused s n ≡ found_config s (first (named s n.services))
find_paused-there s n h = ground arith

is_registered-there : (s : Text) (n : Node) → is_there s n ≡ true → is_registered s n ≡ true
is_registered-there s n h = ground arith

pub check_paused-there :
    (asked : List Text) (n : Node)
    → IsInStep n
    → all_there asked n ≡ true
    → check_paused asked n ≡ passed (to_resume asked n)
unfolding check_paused
check_paused-there [] n h there = refl
check_paused-there (s ∷ ss) n h there =
    let (here, later) = both (is_there (trim_space s) n) (all_there ss n) there in
    let (c, found) =
      first_config (n.registry (trim_space s)) (named (trim_space s) n.services)
        (subst (λ bs. Agrees (n.registry (trim_space s)) bs) (flags-named (trim_space s) n.services)
          (h (trim_space s)))
        (is_registered-there (trim_space s) n here) in
    ap (λ f. add_found f (trim_space s) (check_paused ss n))
      (find_paused-there (trim_space s) n here)
    ∙ ap
        (λ r.
          add_found (found_config (trim_space s) (first (named (trim_space s) n.services)))
            (trim_space s) r)
        (check_paused-there ss n h later)
    ∙ with_config (first (named (trim_space s) n.services)) c found
  where
    added :
        (c : ServiceConfig) (b : Bool)
        → add_found (if b then resumable c else running) (trim_space s) (passed (to_resume ss n))
          ≡ passed (if b then (trim_space s, c) ∷ to_resume ss n else to_resume ss n)
    added c true = refl
    added c false = refl

    with_config :
        (o : Option ServiceConfig) (c : ServiceConfig)
        → o ≡ some c
        → add_found (found_config (trim_space s) o) (trim_space s) (passed (to_resume ss n))
          ≡ passed (pick (trim_space s) o (to_resume ss n))
    with_config none c e = cc
    with_config (some d) c e = added d (is_paused d.metadata)

    both : (a b : Bool) → a && b ≡ true → (a ≡ true) × (b ≡ true)
    both a b e = ground arith

-- A name is resumed exactly when it is asked for and marked.
abbrev pub head_flag : List Bool → Bool
head_flag [] = false
head_flag (b ∷ bs) = b

picked :
    (x s : Text) (cs : List ServiceConfig) (rest : List (Text × ServiceConfig))
    → is_one_of x (names_of (pick s (first cs) rest))
      ≡ (eq_text s x && head_flag (map (λ c. is_paused c.metadata) cs))
        || is_one_of x (names_of rest)
picked x s [] rest = none_picked (eq_text s x) (is_one_of x (names_of rest))
  where
    none_picked : (a b : Bool) → b ≡ (a && false) || b
    none_picked true b = refl
    none_picked false b = refl
picked x s (c ∷ cs) rest =
    by_mark (is_paused c.metadata)
    ∙ or_mark (eq_text s x) (is_paused c.metadata) (is_one_of x (names_of rest))
  where
    by_mark :
        (b : Bool)
        → is_one_of x (names_of (if b then (s, c) ∷ rest else rest))
          ≡ (if b then eq_text s x || is_one_of x (names_of rest) else is_one_of x (names_of rest))
    by_mark true = refl
    by_mark false = refl

    or_mark : (own b r : Bool) → (if b then own || r else r) ≡ (own && b) || r
    or_mark own b r = ground arith

pub to_resume-names :
    (asked : List Text) (n : Node) (x : Text)
    → is_one_of x (names_of (to_resume asked n))
      ≡ is_one_of x (map trim_space asked) && head_flag (flags x n.services)
to_resume-names [] n x = refl
to_resume-names (s ∷ ss) n x =
    picked x (trim_space s) (named (trim_space s) n.services) (to_resume ss n)
    ∙ step (eq_text (trim_space s) x) (is_one_of x (map trim_space ss))
        (head_flag (map (λ c. is_paused c.metadata) (named (trim_space s) n.services)))
        (head_flag (flags x n.services)) _
        (λ own.
          ap head_flag (sym (flags-named (trim_space s) n.services))
          ∙ ap (λ y. head_flag (flags y n.services)) (eq_text→eq (trim_space s) x own))
        (to_resume-names ss n x)
  where
    step :
        (own again p q r : Bool)
        → (own ≡ true → p ≡ q)
        → r ≡ again && q
        → (own && p) || r ≡ (own || again) && q
    step true true p q r e h = rw (e refl, h) (same q)
      where
        same : (b : Bool) → b || b ≡ b
        same true = refl
        same false = refl
    step true false p q r e h = rw (e refl, h) (same q)
      where
        same : (b : Bool) → b || false ≡ b
        same true = refl
        same false = refl
    step false again p q r e h = h
