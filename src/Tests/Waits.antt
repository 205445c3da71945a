-- ===== src/Tests/Waits.antt =====
-- Sessions and waiting requests at concrete inputs.
use flux_panel_v.Base.{
  arith, ◌+◌, ◌≤◌, ◌≡◌, ◌⊎◌, refl, List, [], ◌∷◌, Option, none, some, Text, Any, codes, eq_text,
  has_prefix, contains, true, false, is_some, is_empty,
}
use flux_panel_v.Connections.{
  Answer, answered, waiting, returned, Manager, new_manager, Event, connects, ends, sends, reads,
  writes, takes_off, set_leaving, take_off, hands_over, receives, times_out, forgets, set_session,
  end_session, is_node_online, set_request, read_node_message, step, run,
}
use flux_panel_v.Connections.Held.{Holds, run-Holds}
use flux_panel_v.Connections.Waiting.{run-hands_over}
use flux_panel_v.Connections.Callers.{rank, own_actions, run-rank}
use flux_panel_v.Connections.Answers.{Replies, run-Replies}

-- Every message of the node answers request "r".
abbrev parse : Text → Option (Text × Text)
parse s = some (codes "r", s)

abbrev answer : Text
answer = codes "requestId"

-- Node 1 connects again, and its first session ends late: its reader looks for it in vain.
abbrev reconnects : List Event
reconnects = connects 1 10 ∷ (connects 1 11 ∷ (ends 1 10 ∷ []))

-- The panel after a run.
abbrev reached : Option Manager → Manager
reached none = new_manager
reached (some m) = m

abbrev reconnected : Manager
reconnected = reached (run parse reconnects new_manager)

-- The answer comes after the timer fired, and its reader is about to hand it over.
abbrev late : List Event
late =
    connects 1 10
    ∷ (sends 1 (codes "r") ∷ (writes (codes "r") ∷ (times_out (codes "r") ∷ (reads answer ∷ []))))

abbrev late_panel : Manager
late_panel = reached (run parse late new_manager)

late_runs : run parse late new_manager ≡ some late_panel
unfolding run step set_session set_request read_node_message contains has_prefix eq_text
late_runs = refl

late_taken : is_empty (late_panel.requests (codes "r")).carried ≡ false
unfolding run step set_session set_request read_node_message contains has_prefix eq_text
late_taken = refl

run-hands_over_example : is_some (step parse (hands_over (codes "r")) late_panel) ≡ true
run-hands_over_example = run-hands_over parse (codes "r") late late_panel late_runs late_taken

-- The same answer in time.
abbrev in_time : List Event
in_time = reads answer ∷ (hands_over (codes "r") ∷ (receives (codes "r") ∷ []))

abbrev sent : Manager
sent =
    reached
      (run parse (connects 1 10 ∷ (sends 1 (codes "r") ∷ (writes (codes "r") ∷ []))) new_manager)

abbrev done : Manager
done = reached (run parse in_time sent)

sent_waiting : (sent.requests (codes "r")).caller ≡ waiting
unfolding run step set_session set_request eq_text
sent_waiting = refl

done_runs : run parse in_time sent ≡ some done
unfolding run step set_session set_request read_node_message contains has_prefix eq_text
done_runs = refl

run-rank_example :
    (rank (done.requests (codes "r")).caller + own_actions (codes "r") in_time ≤ 2)
    × (((a : Answer) × ((done.requests (codes "r")).caller ≡ returned a))
        ⊎ ((is_some (step parse (times_out (codes "r")) done) ≡ true)
            ⊎ (is_some (step parse (forgets (codes "r")) done) ≡ true)))
run-rank_example = run-rank parse (codes "r") in_time sent done done_runs sent_waiting

abbrev whole : List Event
whole = connects 1 10 ∷ (sends 1 (codes "r") ∷ (writes (codes "r") ∷ in_time))

abbrev answered_panel : Manager
answered_panel = reached (run parse whole new_manager)

whole_runs : run parse whole new_manager ≡ some answered_panel
unfolding run step set_session set_request read_node_message contains has_prefix eq_text
whole_runs = refl

whole_answered : (answered_panel.requests (codes "r")).caller ≡ returned (answered answer)
unfolding run step set_session set_request read_node_message contains has_prefix eq_text
whole_answered = refl

run-Replies_example : Any (Replies parse (codes "r") answer) whole × (is_empty answer ≡ false)
run-Replies_example =
    run-Replies parse (codes "r") answer whole answered_panel whole_runs whole_answered

-- Node 1 is connected with its second session when the reader of its first one ends.
abbrev second : Manager
second = reached (run parse (connects 1 10 ∷ (connects 1 11 ∷ [])) new_manager)

second-Holds : Holds 1 11 second
unfolding run step set_session
second-Holds = record { session = refl; none_leaving = λ t. refl }

run-Holds_example : Holds 1 11 (reached (run parse (ends 1 10 ∷ []) second))
run-Holds_example =
    run-Holds parse 1 11 (ends 1 10 ∷ []) second (reached (run parse (ends 1 10 ∷ []) second))
      (unfold run step set_session set_leaving end_session in refl) ((λ e. ground arith), tt)
      second-Holds

-- The node connects between the two actions of the old session's reader, which then takes the new
-- session off.
abbrev raced : List Event
raced = connects 1 10 ∷ (ends 1 10 ∷ (connects 1 11 ∷ (takes_off 1 10 ∷ [])))

raced_off : is_node_online 1 (reached (run parse raced new_manager)) ≡ false
unfolding run step set_session set_leaving end_session take_off is_node_online
raced_off = refl
