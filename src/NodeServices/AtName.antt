-- ===== src/NodeServices/AtName.antt =====
-- What the phases make of one name: its stage in the registry, and the marks of its configurations.
use flux_panel_v.Base.{
  ◌≡◌, refl, sym, ap, ◌∙◌, inl, inr, Bool, true, false, not, ◌||◌, Option, none, List, [], ◌∷◌,
  ◌++◌, Text, eq_text, eq_text→eq, eq_text_refl, select, Bool-cases, if◌then◌else◌, true-false,
}
use flux_panel_v.NodeServices.Marks.{is_paused, is_paused-mark, is_paused-unmark}
use flux_panel_v.NodeServices.{ServiceConfig, Stage, Node, set_stage, unregister, change_first}
use flux_panel_v.NodeServices.Stops.{
  is_one_of, unregister_each, mark, unmark, mark_each, unmark_each,
}

-- The marks of the configurations with a name.
unfoldable pub flags : Text → List ServiceConfig → List Bool
flags x [] = []
flags x (c ∷ cs) = if eq_text c.name x then is_paused c.metadata ∷ flags x cs else flags x cs

abbrev pub set_first : Bool → List Bool → List Bool
set_first b [] = []
set_first b (c ∷ bs) = b ∷ bs

pub set_stage-registry :
    (y : Text) (s : Option Stage) (n : Node) (x : Text)
    → (set_stage y s n).registry x ≡ (if eq_text y x then s else n.registry x)
unfolding set_stage
set_stage-registry y s n x = refl

pub set_stage-services :
    (y : Text) (s : Option Stage) (n : Node) → (set_stage y s n).services ≡ n.services
unfolding set_stage
set_stage-services y s n = refl

pub unregister_each-registry :
    (names : List Text) (n : Node) (x : Text)
    → (unregister_each names n).registry x ≡ (if is_one_of x names then none else n.registry x)
unfolding unregister_each
unregister_each-registry [] n x = refl
unregister_each-registry (s ∷ ss) n x =
    unregister_each-registry ss (unregister s n) x ∙ elim (Bool-cases (eq_text s x)) [
      | inl same ↦ elim (Bool-cases (is_one_of x ss)) [
        | inl again ↦ rw (same, again) refl
        | inr once ↦ rw (once, set_stage-registry s none n x, same) refl
      ]
      | inr other ↦ rw (set_stage-registry s none n x, other) refl
    ]

pub unregister_each-services :
    (names : List Text) (n : Node) → (unregister_each names n).services ≡ n.services
unfolding unregister_each
unregister_each-services [] n = refl
unregister_each-services (s ∷ ss) n =
    unregister_each-services ss (unregister s n) ∙ set_stage-services s none n

own_step :
    (b at_x u v p q : Bool) (bs : List Bool)
    → u ≡ at_x
    → v ≡ at_x
    → p ≡ b
    → (if u then p ∷ bs else bs)
      ≡ (if at_x then set_first b (if v then q ∷ bs else bs) else (if v then q ∷ bs else bs))
own_step b true u v p q bs e d h = rw (e, d, h) refl
own_step b false u v p q bs e d h = rw (e, d) refl

-- A change of the first configuration with a name, as its marks see it.
module _ (f : ServiceConfig → ServiceConfig) (b : Bool) (y : Text)
    (keeps_name : (c : ServiceConfig) → c.name ≡ y → (f c).name ≡ y)
    (sets : (c : ServiceConfig) → is_paused (f c).metadata ≡ b) where
  flags-change_at_own :
      (x : Text) (c : ServiceConfig) (cs : List ServiceConfig)
      → eq_text c.name y ≡ true
      → flags x (f c ∷ cs)
        ≡ (if eq_text y x then set_first b (flags x (c ∷ cs)) else flags x (c ∷ cs))
  unfolding flags
  flags-change_at_own x c cs own =
      let e = eq_text→eq c.name y own in
      own_step b (eq_text y x) (eq_text (f c).name x) (eq_text c.name x) (is_paused (f c).metadata)
        (is_paused c.metadata) (flags x cs) (ap (λ z. eq_text z x) (keeps_name c e))
        (ap (λ z. eq_text z x) e) (sets c)

  flags-change_at_other :
      (x : Text) (c : ServiceConfig) (cs rest : List ServiceConfig)
      → eq_text c.name y ≡ false
      → flags x rest ≡ (if eq_text y x then set_first b (flags x cs) else flags x cs)
      → flags x (c ∷ rest)
        ≡ (if eq_text y x then set_first b (flags x (c ∷ cs)) else flags x (c ∷ cs))
  unfolding flags
  flags-change_at_other x c cs rest other ih = elim (Bool-cases (eq_text c.name x)) [
    | inl at_x ↦
        let elsewhere : eq_text y x ≡ false = differs (eq_text→eq c.name x at_x) in
        rw (at_x, elsewhere) (ap (λ bs. is_paused c.metadata ∷ bs) (rw elsewhere at ih))
    | inr not_x ↦ rw (not_x, ih) refl
  ]
    where
      differs : c.name ≡ x → eq_text y x ≡ false
      differs e = elim (Bool-cases (eq_text y x)) [
        | inl same ↦ absurd (
            true-false (
              sym (ap (λ z. eq_text z y) (e ∙ sym (eq_text→eq y x same)) ∙ eq_text_refl y) ∙ other))
        | inr elsewhere ↦ elsewhere
      ]

  pub flags-change_first :
      (x : Text) (cs : List ServiceConfig)
      → flags x (change_first y f cs)
        ≡ (if eq_text y x then set_first b (flags x cs) else flags x cs)
  unfolding change_first flags
  flags-change_first x [] = elim (Bool-cases (eq_text y x)) [
    | inl at_x ↦ rw at_x refl
    | inr elsewhere ↦ rw elsewhere refl
  ]
  flags-change_first x (c ∷ cs) = elim (Bool-cases (eq_text c.name y)) [
    | inl own ↦ rw own (flags-change_at_own x c cs own)
    | inr other ↦
        rw other
          (flags-change_at_other x c cs (change_first y f cs) other (flags-change_first x cs))
  ]

pub flags-mark :
    (y x : Text) (cs : List ServiceConfig)
    → flags x (change_first y mark cs)
      ≡ (if eq_text y x then set_first true (flags x cs) else flags x cs)
flags-mark y = flags-change_first mark true y (λ c e. e) (λ c. is_paused-mark c.metadata)

pub flags-unmark :
    (y x : Text) (cs : List ServiceConfig)
    → flags x (change_first y unmark cs)
      ≡ (if eq_text y x then set_first false (flags x cs) else flags x cs)
flags-unmark y = flags-change_first unmark false y (λ c e. e) (λ c. is_paused-unmark c.metadata)

set_first_twice : (b : Bool) (bs : List Bool) → set_first b (set_first b bs) ≡ set_first b bs
set_first_twice b [] = refl
set_first_twice b (c ∷ bs) = refl

-- One step of a loop over names, for what it makes of the marks at a name.
pub set_first_step :
    (b same again : Bool) (bs : List Bool)
    → (if again
        then set_first b (if same then set_first b bs else bs)
        else (if same then set_first b bs else bs))
      ≡ (if same || again then set_first b bs else bs)
set_first_step b true true bs = set_first_twice b bs
set_first_step b true false bs = refl
set_first_step b false true bs = refl
set_first_step b false false bs = refl

pub flags-mark_each :
    (names : List Text) (cs : List ServiceConfig) (x : Text)
    → flags x (mark_each names cs)
      ≡ (if is_one_of x names then set_first true (flags x cs) else flags x cs)
unfolding mark_each
flags-mark_each [] cs x = refl
flags-mark_each (s ∷ ss) cs x =
    flags-mark_each ss (change_first s mark cs) x
    ∙ (rw (flags-mark s x cs) (set_first_step true (eq_text s x) (is_one_of x ss) (flags x cs)))

pub flags-unmark_each :
    (names : List Text) (cs : List ServiceConfig) (x : Text)
    → flags x (unmark_each names cs)
      ≡ (if is_one_of x names then set_first false (flags x cs) else flags x cs)
unfolding unmark_each
flags-unmark_each [] cs x = refl
flags-unmark_each (s ∷ ss) cs x =
    flags-unmark_each ss (change_first s unmark cs) x
    ∙ (rw (flags-unmark s x cs) (set_first_step false (eq_text s x) (is_one_of x ss) (flags x cs)))

pub flags_++ :
    (x : Text) (cs ds : List ServiceConfig) → flags x (cs ++ ds) ≡ flags x cs ++ flags x ds
unfolding flags
flags_++ x [] ds = refl
flags_++ x (c ∷ cs) ds = elim (Bool-cases (eq_text c.name x)) [
  | inl own ↦ rw own (ap (λ bs. is_paused c.metadata ∷ bs) (flags_++ x cs ds))
  | inr other ↦ rw other (flags_++ x cs ds)
]

select_step :
    (kept own among p : Bool) (left cs : List Bool)
    → (own ≡ true → kept ≡ not among)
    → left ≡ (if among then [] else cs)
    → (if kept then (if own then p ∷ left else left) else left)
      ≡ (if among then [] else (if own then p ∷ cs else cs))
select_step true true true p left cs agree e = absurd (true-false (agree refl))
select_step false true false p left cs agree e = absurd (true-false (sym (agree refl)))
select_step true true false p left cs agree e = ap (λ bs. p ∷ bs) e
select_step false true true p left cs agree e = e
select_step true false true p left cs agree e = e
select_step true false false p left cs agree e = e
select_step false false true p left cs agree e = e
select_step false false false p left cs agree e = e

flags-if :
    (kept : Bool) (x : Text) (c : ServiceConfig) (cs : List ServiceConfig)
    → flags x (if kept then c ∷ cs else cs) ≡ (
        if kept
        then (if eq_text c.name x then is_paused c.metadata ∷ flags x cs else flags x cs)
        else flags x cs)
unfolding flags
flags-if true x c cs = refl
flags-if false x c cs = refl

-- The configurations that a deletion leaves.
pub flags-select :
    (names : List Text) (cs : List ServiceConfig) (x : Text)
    → flags x (select (λ c. not (is_one_of c.name names)) cs)
      ≡ (if is_one_of x names then [] else flags x cs)
unfolding flags
flags-select names [] x = elim (Bool-cases (is_one_of x names)) [
  | inl among ↦ rw among refl
  | inr not_among ↦ rw not_among refl
]
flags-select names (c ∷ cs) x =
    flags-if (not (is_one_of c.name names)) x c (select (λ d. not (is_one_of d.name names)) cs)
    ∙ select_step (not (is_one_of c.name names)) (eq_text c.name x) (is_one_of x names)
        (is_paused c.metadata) _ (flags x cs)
        (λ own. ap (λ z. not (is_one_of z names)) (eq_text→eq c.name x own))
        (flags-select names cs x)
