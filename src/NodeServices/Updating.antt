-- ===== src/NodeServices/Updating.antt =====
-- The phases of updateServices.
use flux_panel_v.Base.{
  ℕ, ◌≡◌, refl, sym, ap, subst, ◌∙◌, inl, inr, Bool, true, false, not, ◌&&◌, ◌||◌, Option, none,
  some, List, [], ◌∷◌, All, Text, is_some, eq_text, eq_text→eq, eq_text_refl, trim_space,
  Bool-cases, if◌then◌else◌, true-false,
}
use flux_panel_v.NodeServices.{
  ServiceConfig, Stage, ready, serving, Node, Refusal, Parser, set_stage, unregister, is_registered,
  start_service, count_parse, change_first,
}
use flux_panel_v.NodeServices.Stops.{is_one_of, unregister_each}
use flux_panel_v.NodeServices.Starts.{trimmed}
use flux_panel_v.NodeServices.Updates.{
  check_old, take_each, parse_again, register_parsed, make_each, replace_each,
}
use flux_panel_v.NodeServices.AtName.{
  flags, set_first, set_first_step, set_stage-registry, set_stage-services, flags-change_first,
}
use flux_panel_v.NodeServices.InStep.{is_there, all_there, check_name-there, check_name-missing}
use flux_panel_v.NodeServices.Registering.{config_names}
use flux_panel_v.NodeServices.Creating.{distinct}
use flux_panel_v.NodeServices.Created.{asked_names, IsUnmarked}

-- The names that a request brings have no space around them.
unfoldable pub IsTrimmed : List ServiceConfig → Type 0
IsTrimmed cs = All (λ (c : ServiceConfig). trim_space c.name ≡ c.name) cs

-- The first phase.
pub check_old-there :
    (cs : List ServiceConfig) (n : Node)
    → all_there (config_names cs) n ≡ true
    → check_old cs n ≡ none
unfolding check_old
check_old-there [] n h = refl
check_old-there (c ∷ cs) n h = elim (Bool-cases (is_there (trim_space c.name) n)) [
  | inl here ↦
      rw (check_name-there (trim_space c.name) n here) (check_old-there cs n (rw here at h))
  | inr missing ↦ absurd (true-false (sym (rw missing at h)))
]

pub check_old-missing :
    (cs : List ServiceConfig) (n : Node)
    → all_there (config_names cs) n ≡ false
    → (q : Refusal) × (check_old cs n ≡ some q)
unfolding check_old
check_old-missing [] n h = absurd (true-false h)
check_old-missing (c ∷ cs) n h = elim (Bool-cases (is_there (trim_space c.name) n)) [
  | inl here ↦
      let (q, e) = check_old-missing cs n (rw here at h) in
      (q, rw (check_name-there (trim_space c.name) n here) e)
  | inr missing ↦ let (q, e) = check_name-missing (trim_space c.name) n missing in (q, rw e refl)
]

-- The second phase takes each off, if no name stands twice.
pub take_each-all :
    (cs : List ServiceConfig) (n : Node)
    → ((x : Text) → is_one_of x (asked_names cs) ≡ true → is_registered x n ≡ true)
    → distinct (asked_names cs) ≡ true
    → take_each cs n ≡ (true, unregister_each (asked_names cs) n)
unfolding take_each unregister_each
take_each-all [] n there d = refl
take_each-all (c ∷ cs) n there d =
    let parts =
      both (is_one_of (trim_space c.name) (asked_names cs)) (distinct (asked_names cs)) d in
    rw (there (trim_space c.name) (rw (eq_text_refl (trim_space c.name)) refl)) (
      take_each-all cs (unregister (trim_space c.name) n)
        (λ x among.
          let other = differs x among parts.0 in
          ap is_some (set_stage-registry (trim_space c.name) none n x ∙ (rw other refl))
          ∙ there x (rw (among, other) refl))
        parts.1)
  where
    both : (a b : Bool) → not a && b ≡ true → (a ≡ false) × (b ≡ true)
    both true b e = absurd (true-false (sym e))
    both false b e = (refl, e)

    differs :
        (x : Text)
        → is_one_of x (asked_names cs) ≡ true
        → is_one_of (trim_space c.name) (asked_names cs) ≡ false
        → eq_text (trim_space c.name) x ≡ false
    differs x among out = elim (Bool-cases (eq_text (trim_space c.name) x)) [
      | inl same ↦ absurd (
          true-false (
            sym among
            ∙ ap (λ z. is_one_of z (asked_names cs)) (sym (eq_text→eq (trim_space c.name) x same))
            ∙ out))
      | inr other ↦ other
    ]

-- The third phase, with a parser that takes every configuration.
module _ (parse : Parser) (accepts : (k : ℕ) (c : ServiceConfig) → parse k c ≡ none) where
  pub record IsMade (names : List Text) (n : Node) (r : Option Refusal × Node) : Type 0 where
    pub answer : r.0 ≡ none
    pub same_services : r.1.services ≡ n.services
    pub stages :
        (x : Text) → r.1.registry x ≡ (if is_one_of x names then some serving else n.registry x)

  parse_again-once :
      (c : ServiceConfig) (n : Node) → parse_again parse 3 c none n ≡ (none, count_parse n)
  unfolding parse_again
  parse_again-once c n = rw (accepts n.parses c) refl

  made_one :
      (s : Text) (n : Node) (x : Text)
      → (start_service s (set_stage s (some ready) n)).registry x
        ≡ (if eq_text s x then some serving else n.registry x)
  unfolding set_stage
  made_one s n x = elim (Bool-cases (eq_text s x)) [
    | inl own ↦ rw (own, eq_text_refl s) refl
    | inr other ↦ rw other refl
  ]

  pub make_each-IsMade :
      (cs : List ServiceConfig) (n : Node) → IsMade (asked_names cs) n (make_each parse cs n)
  unfolding make_each
  make_each-IsMade [] n = record { answer = refl; same_services = refl; stages = λ x. refl }
  make_each-IsMade (c ∷ cs) n =
      let s = trim_space c.name in
      let v : Node = start_service s (set_stage s (some ready) (count_parse n)) in
      let rest = make_each-IsMade cs v in
      let made : make_each parse (c ∷ cs) n ≡ make_each parse cs v =
        ap (λ r. register_parsed r s (λ u. make_each parse cs u))
          (parse_again-once (trimmed c) n) in
      subst (λ r. IsMade (asked_names (c ∷ cs)) n r) (sym made)
        (record {
          answer = rest.answer;
          same_services =
              rest.same_services
              ∙ set_stage-services s _ (set_stage s (some ready) (count_parse n))
              ∙ set_stage-services s (some ready) (count_parse n);
          stages = λ x.
              rest.stages x
              ∙ (rw (made_one s (count_parse n) x)
                  (step (eq_text s x) (is_one_of x (asked_names cs)) (n.registry x)));
        })
    where
      step :
          (same again : Bool) (o : Option Stage)
          → (if again then some serving else (if same then some serving else o))
            ≡ (if same || again then some serving else o)
      step true true o = refl
      step true false o = refl
      step false again o = refl

-- The fourth phase leaves no mark at the names.
pub flags-replace_each :
    (ds cs : List ServiceConfig) (x : Text)
    → IsUnmarked ds
    → flags x (replace_each ds cs)
      ≡ (if is_one_of x (config_names ds) then set_first false (flags x cs) else flags x cs)
unfolding replace_each IsUnmarked
flags-replace_each [] cs x u = refl
flags-replace_each (d ∷ ds) cs x u =
    flags-replace_each ds (change_first d.name (λ c. d) cs) x u.1
    ∙ (rw (flags-change_first (λ c. d) false d.name (λ c e. refl) (λ c. u.0) x cs)
        (set_first_step false (eq_text d.name x) (is_one_of x (config_names ds)) (flags x cs)))
