-- ===== src/NodeServices/InStep.antt =====
-- A node's registry and configuration in step, and what a deletion and a pause make of them.
use flux_panel_v.Base.{
  ◌≡◌, refl, sym, ap, subst, ◌∙◌, inl, inr, Bool, true, false, not, ◌&&◌, ◌||◌, Option, none, some,
  List, [], ◌∷◌, map, Text, is_empty, eq_text, eq_text→eq, trim_space, select, arith, Bool-cases,
  if◌then◌else◌, true-false,
}
use flux_panel_v.NodeServices.{
  Stage, serving, closed, Node, Refusal, no_services, name_required, not_found, Outcome, done,
  refused, is_registered,
}
use flux_panel_v.NodeServices.Stops.{
  Checked, passed, stopped, check_name, check_names, is_one_of, unregister_each, delete_checked,
  delete_services,
}
use flux_panel_v.NodeServices.AtName.{
  flags, unregister_each-registry, unregister_each-services, flags-select,
}

-- A name is registered exactly when one configuration has it, and its service accepts connections
-- exactly when that configuration is not marked.
abbrev pub Agrees : Option Stage → List Bool → Type 0
Agrees none [] = Unit
Agrees (some s) (b ∷ []) = s ≡ (if b then closed else serving)
Agrees _ _ = ⊥

abbrev pub IsInStep : Node → Type 0
IsInStep n = (x : Text) → Agrees (n.registry x) (flags x n.services)

-- The picture of the node that the panel has: the stage of each name.
abbrev pub Picture : Type 0
Picture = Text → Option Stage

-- The node has a picture, and is in step.
unfoldable pub IsLike : Picture → Node → Type 0
IsLike f n = (x : Text) → (n.registry x ≡ f x) × Agrees (f x) (flags x n.services)

-- A name that the first phase takes, trimmed.
abbrev pub is_there : Text → Node → Bool
is_there s n = not (is_empty s) && is_registered s n

-- What a deletion and a pause ask for: at least one name, and a service of each.
abbrev pub all_there : List Text → Node → Bool
all_there [] n = true
all_there (s ∷ ss) n = is_there (trim_space s) n && all_there ss n

abbrev pub may_stop : List Text → Node → Bool
may_stop asked n = not (is_empty asked) && all_there asked n

-- Done, and the node has the new picture; or refused, and it is what it was.
unfoldable pub Ends : Bool → Picture → Node → Outcome × Node → Type 0
Ends true f n r = (r.0 ≡ done) × IsLike f r.1
Ends false f n r = ((q : Refusal) × (r.0 ≡ refused q)) × (r.1 ≡ n)

pub check_name-there : (s : Text) (n : Node) → is_there s n ≡ true → check_name s n ≡ none
check_name-there s n h = ground arith

pub check_name-missing :
    (s : Text) (n : Node) → is_there s n ≡ false → (r : Refusal) × (check_name s n ≡ some r)
check_name-missing s n = by_tests (is_empty s) (is_registered s n)
  where
    by_tests :
        (b c : Bool)
        → not b && c ≡ false
        → (r : Refusal) × ((if b
              then some name_required
              else if c
              then none
              else some (not_found s))
            ≡ some r)
    by_tests true c h = (name_required, refl)
    by_tests false true h = absurd (true-false h)
    by_tests false false h = (not_found s, refl)

-- The first phase passes what is there, trimmed, and stops at what is not.
check_names-there :
    (asked : List Text) (n : Node)
    → all_there asked n ≡ true
    → check_names asked n ≡ passed (map trim_space asked)
unfolding check_names
check_names-there [] n h = refl
check_names-there (s ∷ ss) n h = elim (Bool-cases (is_there (trim_space s) n)) [
  | inl here ↦
      rw (check_name-there (trim_space s) n here, check_names-there ss n (rw here at h)) refl
  | inr missing ↦ absurd (true-false (sym (rw missing at h)))
]

check_names-missing :
    (asked : List Text) (n : Node)
    → all_there asked n ≡ false
    → (r : Refusal) × (check_names asked n ≡ stopped r)
unfolding check_names
check_names-missing [] n h = absurd (true-false h)
check_names-missing (s ∷ ss) n h = elim (Bool-cases (is_there (trim_space s) n)) [
  | inl here ↦
      let (r, e) = check_names-missing ss n (rw here at h) in
      (r, rw (check_name-there (trim_space s) n here, e) refl)
  | inr missing ↦ let (r, e) = check_name-missing (trim_space s) n missing in (r, rw e refl)
]

-- A handler that goes on with the names that passed.
module _ (go_on : Checked (List Text) → Node → Outcome × Node) (f : List Text → Picture) where
  pub checked-Ends :
      (asked : List Text) (n : Node)
      → ((r : Refusal) → go_on (stopped r) n ≡ (refused r, n))
      → (all_there asked n ≡ true
          → Ends true (f (map trim_space asked)) n (go_on (passed (map trim_space asked)) n))
      → Ends
          (may_stop asked n)
          (f (map trim_space asked))
          n
          (if is_empty asked then (refused no_services, n) else go_on (check_names asked n) n)
  unfolding Ends
  checked-Ends [] n stops passes = ((no_services, refl), refl)
  checked-Ends (s ∷ ss) n stops passes = by_tests (all_there (s ∷ ss) n) refl
    where
      by_tests :
          (b : Bool)
          → all_there (s ∷ ss) n ≡ b
          → Ends b (f (map trim_space (s ∷ ss))) n (go_on (check_names (s ∷ ss) n) n)
      by_tests true h =
          subst (λ c. Ends true (f (map trim_space (s ∷ ss))) n (go_on c n))
            (sym (check_names-there (s ∷ ss) n h)) (passes h)
      by_tests false h =
          let (r, e) = check_names-missing (s ∷ ss) n h in
          let stopped_at : go_on (check_names (s ∷ ss) n) n ≡ (refused r, n) =
            ap (λ c. go_on c n) e ∙ stops r in
          (
            (r, ap (λ (p : Outcome × Node). p.0) stopped_at),
            ap (λ (p : Outcome × Node). p.1) stopped_at,
          )

or_step : (b c : Bool) {P : Type 0} → (b ≡ true → P) → (c ≡ true → P) → b || c ≡ true → P
or_step true c f g e = f refl
or_step false c f g e = g e

-- Each name that was asked for is registered.
pub all_there-registered :
    (asked : List Text) (n : Node) (x : Text)
    → all_there asked n ≡ true
    → is_one_of x (map trim_space asked) ≡ true
    → is_registered x n ≡ true
all_there-registered [] n x h = λ among. absurd (true-false (sym among))
all_there-registered (s ∷ ss) n x h =
    or_step (eq_text (trim_space s) x) (is_one_of x (map trim_space ss))
      (λ own.
        subst (λ y. is_registered y n ≡ true) (eq_text→eq (trim_space s) x own)
          (both (not (is_empty (trim_space s))) (is_registered (trim_space s) n) (all_there ss n)
            h).0)
      (λ later.
        all_there-registered ss n x
          (both (not (is_empty (trim_space s))) (is_registered (trim_space s) n) (all_there ss n)
            h).1
          later)
  where
    both : (b c d : Bool) → (b && c) && d ≡ true → (c ≡ true) × (d ≡ true)
    both b c d e = ground arith

-- What a deletion makes of the picture.
unfoldable pub without : List Text → Picture → Picture
without names f x = if is_one_of x names then none else f x

without-Agrees :
    (among : Bool) (o : Option Stage) (bs : List Bool)
    → Agrees o bs
    → Agrees (if among then none else o) (if among then [] else bs)
without-Agrees true o bs h = tt
without-Agrees false o bs h = h

deleted-IsLike :
    (names : List Text) (n : Node)
    → IsInStep n
    → IsLike (without names n.registry) (delete_checked (passed names) n).1
unfolding IsLike without
deleted-IsLike names n h x =
    let v = unregister_each names n in
    let marks : flags x (select (λ c. not (is_one_of c.name names)) v.services)
        ≡ (if is_one_of x names then [] else flags x n.services) =
      ap (λ cs. flags x (select (λ c. not (is_one_of c.name names)) cs))
        (unregister_each-services names n)
      ∙ flags-select names n.services x in
    (
      unregister_each-registry names n x,
      subst (λ bs. Agrees (if is_one_of x names then none else n.registry x) bs) (sym marks)
          (without-Agrees (is_one_of x names) (n.registry x) (flags x n.services) (h x)),
    )

-- On a node in step, deleteServices takes off all the services it is asked for when each is there,
-- and otherwise refuses and changes nothing.
pub delete_services-Ends :
    (asked : List Text) (n : Node)
    → IsInStep n
    → Ends
        (may_stop asked n)
        (without (map trim_space asked) n.registry)
        n
        (delete_services asked n)
unfolding delete_services Ends
delete_services-Ends asked n h =
    checked-Ends delete_checked (λ names. without names n.registry) asked n (λ r. refl)
      (λ there. (refl, deleted-IsLike (map trim_space asked) n h))
