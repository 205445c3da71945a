-- ===== src/NodeServices/Resumed.antt =====
-- resumeServices on a node in step, on every branch.
use flux_panel_v.Base.{
  ◌≡◌, refl, sym, ap, subst, inl, inr, ◌⊎◌, Bool, true, false, not, ◌&&◌, Option, none, some, List,
  [], ◌∷◌, map, Text, is_some, is_empty, trim_space, if◌then◌else◌, true-false,
}
use flux_panel_v.NodeServices.{
  ServiceConfig, Node, Refusal, name_required, not_found, no_services, Outcome, refused, Parser,
  is_registered, named, first,
}
use flux_panel_v.NodeServices.Stops.{Checked, stopped}
use flux_panel_v.NodeServices.Starts.{
  complaint, running, resumable, Found, find_paused, found_config, add_found, check_paused,
  names_of, unmark_resumed, resume_checked, resume_services,
}
use flux_panel_v.NodeServices.InStep.{IsInStep, Picture, Ends, is_there, all_there, may_stop}
use flux_panel_v.NodeServices.Creation.{with_served}
use flux_panel_v.NodeServices.Resuming.{to_resume, takes_each, check_paused-there}
use flux_panel_v.NodeServices.Resumption.{resume_services-Ends}
use flux_panel_v.NodeServices.Lost.{IsLost, Loses, resume_each-Loses, to_resume-IsMarked}

-- All are served; or refused, and one is lost; or refused, and nothing is changed.
unfoldable pub Resumes : Bool → Bool → Picture → Node → Outcome × Node → Type 0
Resumes true true f n r = Ends true f n r
Resumes true false f n r = ((q : Refusal) × (r.0 ≡ refused q)) × ((x : Text) × IsLost x r.1)
Resumes false taken f n r = ((q : Refusal) × (r.0 ≡ refused q)) × (r.1 ≡ n)

-- The first phase stops at a name that is not there.
add_found-stopped :
    (f : Found) (name : Text) (rest : Checked (List (Text × ServiceConfig)))
    → ((q : Refusal) × (f ≡ complaint q)) ⊎ ((q : Refusal) × (rest ≡ stopped q))
    → (q : Refusal) × (add_found f name rest ≡ stopped q)
add_found-stopped f name rest (inl (q, e)) = (q, ap (λ g. add_found g name rest) e)
add_found-stopped (complaint q) name rest (inr (r, e)) = (q, refl)
add_found-stopped running name rest (inr (r, e)) = (r, e)
add_found-stopped (resumable c) name rest (inr (r, e)) =
    (r, ap (λ g. add_found (resumable c) name g) e)

find_paused-missing :
    (s : Text) (n : Node) → is_there s n ≡ false → (q : Refusal) × (find_paused s n ≡ complaint q)
find_paused-missing s n =
    by_tests (is_empty s) (is_registered s n) (found_config s (first (named s n.services)))
  where
    by_tests :
        (b c : Bool) (f : Found)
        → not b && c ≡ false
        → (q : Refusal) × ((if b
              then complaint name_required
              else if c
              then f
              else complaint (not_found s))
            ≡ complaint q)
    by_tests true c f h = (name_required, refl)
    by_tests false true f h = absurd (true-false h)
    by_tests false false f h = (not_found s, refl)

check_paused-missing :
    (asked : List Text) (n : Node)
    → all_there asked n ≡ false
    → (q : Refusal) × (check_paused asked n ≡ stopped q)
unfolding check_paused
check_paused-missing [] n h = absurd (true-false h)
check_paused-missing (s ∷ ss) n h =
    add_found-stopped (find_paused (trim_space s) n) (trim_space s) (check_paused ss n)
      (by_tests (is_there (trim_space s) n) refl h (check_paused-missing ss n))
  where
    by_tests :
        (b : Bool)
        → is_there (trim_space s) n ≡ b
        → b && all_there ss n ≡ false
        → (all_there ss n ≡ false → (q : Refusal) × (check_paused ss n ≡ stopped q))
        → ((q : Refusal) × (find_paused (trim_space s) n ≡ complaint q))
          ⊎ ((q : Refusal) × (check_paused ss n ≡ stopped q))
    by_tests true e h later = inr (later h)
    by_tests false e h later = inl (find_paused-missing (trim_space s) n e)

lost-Resumes :
    (asked : List Text) (n : Node) (f : Picture) (r : Option Refusal × Node)
    → Loses r
    → Resumes true false f n (unmark_resumed (names_of (to_resume asked n)) r)
unfolding Resumes Loses
lost-Resumes asked n f (none, v) h = absurd (true-false (sym (ap is_some h.0.1)))
lost-Resumes asked n f (some q, v) h = ((q, refl), h.1)

-- On a node in step, resumeServices serves all the services it is asked for, when each is there and
-- the parser takes those that are marked. When one is not there, it refuses and changes nothing. When
-- the parser does not take one, it refuses, and a service that is configured is not registered
-- any more.
pub resume_services-Resumes :
    (parse : Parser) (asked : List Text) (n : Node)
    → IsInStep n
    → Resumes
        (may_stop asked n)
        (takes_each parse n.parses (to_resume asked n))
        (with_served (map trim_space asked) n.registry)
        n
        (resume_services parse asked n)
unfolding resume_services Resumes
resume_services-Resumes parse [] n h = ((no_services, refl), refl)
resume_services-Resumes parse (s ∷ ss) n h =
    by_tests (all_there (s ∷ ss) n) refl (takes_each parse n.parses (to_resume (s ∷ ss) n)) refl
  where
    f : Picture
    f = with_served (map trim_space (s ∷ ss)) n.registry

    by_tests :
        (b : Bool)
        → all_there (s ∷ ss) n ≡ b
        → (c : Bool) → takes_each parse n.parses (to_resume (s ∷ ss) n) ≡ c
        → Resumes b c f n (resume_checked parse (check_paused (s ∷ ss) n) n)
    by_tests true may true taken = resume_services-Ends parse (s ∷ ss) n h may taken
    by_tests true may false fails =
        subst (λ c. Resumes true false f n (resume_checked parse c n))
          (sym (check_paused-there (s ∷ ss) n h may))
          (lost-Resumes (s ∷ ss) n f _ (
            resume_each-Loses parse (to_resume (s ∷ ss) n) [] n (to_resume-IsMarked (s ∷ ss) n h)
              fails))
    by_tests false missing c taken =
        let (q, e) = check_paused-missing (s ∷ ss) n missing in
        let stops : resume_checked parse (check_paused (s ∷ ss) n) n ≡ (refused q, n) =
          ap (λ r. resume_checked parse r n) e in
        ((q, ap (λ (p : Outcome × Node). p.0) stops), ap (λ (p : Outcome × Node). p.1) stops)
