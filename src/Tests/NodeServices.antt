-- ===== src/Tests/NodeServices.antt =====
-- Services of a node at concrete inputs.
use flux_panel_v.Base.{
  Option, not, is_empty, ◌&&◌, subst, eq_text→eq, ◌==◌, ◌≡◌, refl, List, [], ◌∷◌, none, some, All,
  Text, codes, eq_text, map, trim_space, trim_left, trim_right, if◌then◌else◌, Bool, true, false,
  ◌||◌,
}
use flux_panel_v.NodeServices.{ServiceConfig, serving, Node, done, Parser, set_stage}
use flux_panel_v.NodeServices.Stops.{is_one_of, pause_services}
use flux_panel_v.NodeServices.Starts.{
  create_services, resume_services, parse_each, register_each, start_each,
}
use flux_panel_v.NodeServices.AtName.{flags}
use flux_panel_v.NodeServices.Targets.{
  Handler, with_forward, without_forward, Target, hand_each, update_forwarder,
}
use flux_panel_v.NodeServices.Retargeted.{Retargets, all_taken, update_forwarder-Retargets}
use flux_panel_v.NodeServices.InStep.{IsInStep, IsLike, Ends, may_stop}
use flux_panel_v.NodeServices.Pausing.{paused, pause_services-Ends}
use flux_panel_v.NodeServices.Created.{asked_names, may_create, IsUnmarked}
use flux_panel_v.NodeServices.Creation.{Creates, with_served, create_services-Creates}
use flux_panel_v.NodeServices.Resuming.{to_resume, takes_each}
use flux_panel_v.NodeServices.Resumed.{Resumes, resume_services-Resumes}
use flux_panel_v.NodeServices.Updating.{IsTrimmed}
use flux_panel_v.NodeServices.Requests.{
  Request, creates, updates, deletes, pauses, resumes, handle_all, replay, AllAnswer, IsPlain,
}
use flux_panel_v.NodeServices.Refinement.{IsLike-IsInStep, handle_all-IsLike, resume-pause}

abbrev service : Text → ServiceConfig
service name = record {
  name = name;
  addr = codes ":8080";
  forwarder = none;
  metadata = none;
  rest = [];
}

-- A parser that takes every configuration, and one whose third call finds the port in use.
abbrev takes_any : Parser
takes_any k c = none

abbrev third_fails : Parser
third_fails k c = if k == 2 then some (codes "address already in use") else none

abbrev new_node : Node
new_node = record { registry = λ x. none; services = []; parses = 0 }

new_node-IsInStep : IsInStep new_node
unfolding flags
new_node-IsInStep x = tt

abbrev two_services : List ServiceConfig
two_services = service (codes " a") ∷ (service (codes "b") ∷ [])

two-IsUnmarked : IsUnmarked two_services
unfolding IsUnmarked
two-IsUnmarked = (refl, (refl, tt))

abbrev two : Node
two = (create_services third_fails two_services new_node).1

create_services-Creates_example :
    Creates
      (may_create third_fails two_services new_node)
      (with_served (asked_names two_services) new_node.registry)
      new_node
      (create_services third_fails two_services new_node)
create_services-Creates_example =
    create_services-Creates third_fails two_services new_node new_node-IsInStep two-IsUnmarked

two_may : may_create third_fails two_services new_node ≡ true
unfolding trim_space trim_left trim_right eq_text
two_may = refl

two-IsInStep : IsInStep two
unfolding Creates
two-IsInStep =
    IsLike-IsInStep (with_served (asked_names two_services) new_node.registry) two
      (subst
        (λ b.
          Creates b (with_served (asked_names two_services) new_node.registry) new_node
            (create_services third_fails two_services new_node))
        two_may create_services-Creates_example).1

-- "b" is paused, and its port is in use when it is resumed.
abbrev only_b : List Text
only_b = codes "b" ∷ []

abbrev paused_b : Node
paused_b = (pause_services third_fails only_b two).1

paused_b_may : may_stop only_b two ≡ true
unfolding create_services parse_each register_each start_each set_stage trim_space trim_left
    trim_right eq_text
paused_b_may = refl

paused_b-IsInStep : IsInStep paused_b
unfolding Ends
paused_b-IsInStep =
    IsLike-IsInStep (paused (map trim_space only_b) two.registry) paused_b
      (subst
        (λ b.
          Ends b (paused (map trim_space only_b) two.registry) two
            (pause_services third_fails only_b two))
        paused_b_may (pause_services-Ends third_fails only_b two two-IsInStep)).1

resume_services-Resumes_example :
    Resumes
      (may_stop only_b paused_b)
      (takes_each third_fails paused_b.parses (to_resume only_b paused_b))
      (with_served (map trim_space only_b) paused_b.registry)
      paused_b
      (resume_services third_fails only_b paused_b)
resume_services-Resumes_example =
    resume_services-Resumes third_fails only_b paused_b paused_b-IsInStep

or_false : (b : Bool) → b || false ≡ true → b ≡ true
or_false true e = refl
or_false false e = e

a_serves : two.registry (trim_space (codes "a")) ≡ some serving
unfolding create_services parse_each register_each start_each set_stage trim_space trim_left
    trim_right eq_text
a_serves = refl

serves_a :
    (x : Text)
    → is_one_of x (map trim_space (codes "a" ∷ [])) ≡ true
    → two.registry x ≡ some serving
serves_a x h =
    subst (λ y. two.registry y ≡ some serving)
      (eq_text→eq (trim_space (codes "a")) x (or_false (eq_text (trim_space (codes "a")) x) h))
      a_serves

may_a : may_stop (codes "a" ∷ []) two ≡ true
unfolding create_services parse_each register_each start_each set_stage trim_space trim_left
    trim_right eq_text
may_a = refl

resume-pause_example :
    ((pause_services takes_any (codes "a" ∷ []) two).0 ≡ done)
    × ((resume_services takes_any
          (codes "a" ∷ [])
          (pause_services takes_any (codes "a" ∷ []) two).1).0
        ≡ done)
    × IsLike two.registry
        (resume_services takes_any
          (codes "a" ∷ [])
          (pause_services takes_any (codes "a" ∷ []) two).1).1
resume-pause_example =
    resume-pause takes_any (λ k c. refl) (codes "a" ∷ []) two two-IsInStep may_a serves_a

abbrev renewed : List ServiceConfig
renewed = service (codes "a") ∷ []

renewed-IsPlain : IsPlain (updates renewed)
unfolding IsPlain IsUnmarked IsTrimmed trim_space trim_left trim_right eq_text
renewed-IsPlain = ((refl, tt), (refl, tt), refl)

-- Two services are created, the second is paused; the deletion of a third, which is not there, is
-- asked for in vain; the first is updated, and the second is resumed.
abbrev in_a_row : List Request
in_a_row =
    creates two_services
    ∷ (pauses (codes "b" ∷ [])
        ∷ (deletes (codes "c" ∷ [])
            ∷ (updates renewed ∷ (resumes (codes "b" ∷ (codes "a" ∷ [])) ∷ []))))

in_a_row-IsPlain : All IsPlain in_a_row
unfolding IsPlain
in_a_row-IsPlain = (two-IsUnmarked, (tt, (tt, (renewed-IsPlain, (tt, tt)))))

handle_all-IsLike_example :
    AllAnswer (replay in_a_row new_node.registry).0 (handle_all takes_any in_a_row new_node).0
    × IsLike (replay in_a_row new_node.registry).1 (handle_all takes_any in_a_row new_node).1
handle_all-IsLike_example =
    handle_all-IsLike takes_any (λ k c. refl) in_a_row new_node new_node-IsInStep in_a_row-IsPlain

-- The handler of "b" takes no hops, and "a" has its new one already.
abbrev handler_of : Text → Handler
handler_of name = if eq_text name (codes "a") then with_forward else without_forward

abbrev no_error : Text → Option Text
no_error hop = none

abbrev new_targets : List Target
new_targets =
    record { name = codes "a"; forwarder = some (codes "9.9.9.9:80") }
    ∷ (record { name = codes "b"; forwarder = some (codes "9.9.9.9:81") } ∷ [])

half_done :
    (update_forwarder handler_of no_error new_targets two).1.0
    ≡ (codes "a", codes "9.9.9.9:80") ∷ []
unfolding update_forwarder hand_each create_services parse_each register_each start_each set_stage
    trim_space trim_left trim_right eq_text
half_done = refl

update_forwarder-Retargets_example :
    Retargets handler_of no_error
      (not (is_empty new_targets) && all_taken handler_of no_error new_targets two)
      new_targets
      two
      (update_forwarder handler_of no_error new_targets two)
update_forwarder-Retargets_example =
    update_forwarder-Retargets handler_of no_error new_targets two two-IsInStep
