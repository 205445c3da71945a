-- ===== src/NodeServices/Creating.antt =====
-- What createServices makes of a node in step.
use flux_panel_v.Base.{
  ◌≡◌, refl, sym, ap, ◌∙◌, inl, inr, Bool, true, false, not, ◌&&◌, some, List, [], ◌∷◌, Text,
  eq_text, eq_text→eq, eq_text_refl, Bool-cases, true-false,
}
use flux_panel_v.NodeServices.{ServiceConfig, ready, Node, set_stage, is_registered}
use flux_panel_v.NodeServices.Stops.{is_one_of}
use flux_panel_v.NodeServices.AtName.{set_stage-registry}
use flux_panel_v.NodeServices.Registering.{all_free, config_names}

-- No name stands twice.
abbrev pub distinct : List Text → Bool
distinct [] = true
distinct (s ∷ ss) = not (is_one_of s ss) && distinct ss

all_free-taken :
    (y : Text) (cs : List ServiceConfig) (n : Node)
    → is_registered y n ≡ true
    → is_one_of y (config_names cs) ≡ true
    → all_free cs n ≡ false
all_free-taken y [] n h among = absurd (true-false (sym among))
all_free-taken y (c ∷ cs) n h among = elim (Bool-cases (eq_text c.name y)) [
  | inl own ↦ rw (ap (λ z. is_registered z n) (eq_text→eq c.name y own) ∙ h) refl
  | inr other ↦
      rw
        (all_free-taken y cs (set_stage c.name (some ready) n)
          (rw (set_stage-registry c.name (some ready) n y, other) h) (rw other at among))
        (absorb (is_registered c.name n))
]
  where
    absorb : (b : Bool) → not b && false ≡ false
    absorb true = refl
    absorb false = refl

differs :
    (y x : Text) (names : List Text)
    → is_one_of y names ≡ false
    → is_one_of x names ≡ true
    → eq_text y x ≡ false
differs y x names out among = elim (Bool-cases (eq_text y x)) [
  | inl same ↦
      absurd
        (true-false (sym among ∙ ap (λ z. is_one_of z names) (sym (eq_text→eq y x same)) ∙ out))
  | inr other ↦ other
]

-- Names that are not registered are free in their turn exactly when none stands twice.
pub all_free-distinct :
    (cs : List ServiceConfig) (n : Node)
    → ((x : Text) → is_one_of x (config_names cs) ≡ true → is_registered x n ≡ false)
    → all_free cs n ≡ distinct (config_names cs)
all_free-distinct [] n h = refl
all_free-distinct (c ∷ cs) n h =
    let free = h c.name (rw (eq_text_refl c.name) refl) in
    elim (Bool-cases (is_one_of c.name (config_names cs))) [
      | inl again ↦
          rw
            (
              free,
              again,
              all_free-taken c.name cs (set_stage c.name (some ready) n)
                  (rw (set_stage-registry c.name (some ready) n c.name, eq_text_refl c.name) refl)
                  again,
            )
            refl
      | inr once ↦
          rw (free, once)
            (all_free-distinct cs (set_stage c.name (some ready) n) (λ x among.
              let other = differs c.name x (config_names cs) once among in
              rw (set_stage-registry c.name (some ready) n x, other)
                (h x (rw (among, other) refl))))
    ]
