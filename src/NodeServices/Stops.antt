-- ===== src/NodeServices/Stops.antt =====
-- deleteServices and pauseServices.
use flux_panel_v.Base.{
  Bool, not, Option, none, some, List, [], ◌∷◌, ◌++◌, any, Text, is_empty, eq_text, trim_space,
  select, if◌then◌else◌,
}
use flux_panel_v.NodeServices.Marks.{mark_paused, unmark_paused}
use flux_panel_v.NodeServices.{
  ServiceConfig, ready, Node, Refusal, no_services, name_required, not_found, no_configuration,
  Outcome, done, refused, Parser, set_stage, unregister, is_registered, close_service,
  start_service, count_parse, with_services, named, change_first, last,
}

-- A list of names after its checks, trimmed; or the first complaint.
pub data Checked (A : Type 0) : Type 0 where
  passed : A → Checked A
  stopped : Refusal → Checked A

abbrev pub check_then : Option Refusal → Text → Checked (List Text) → Checked (List Text)
check_then (some r) name rest = stopped r
check_then none name (stopped r) = stopped r
check_then none name (passed names) = passed (name ∷ names)

abbrev pub check_name : Text → Node → Option Refusal
check_name name n =
    if is_empty name
    then some name_required
    else if is_registered name n
    then none
    else some (not_found name)

-- The first phase: every service is there.
unfoldable pub check_names : List Text → Node → Checked (List Text)
check_names [] n = passed []
check_names (s ∷ ss) n = check_then (check_name (trim_space s) n) (trim_space s) (check_names ss n)

abbrev pub is_one_of : Text → List Text → Bool
is_one_of x names = any (λ s. eq_text s x) names

unfoldable pub unregister_each : List Text → Node → Node
unregister_each [] n = n
unregister_each (s ∷ ss) n = unregister_each ss (unregister s n)

abbrev pub delete_checked : Checked (List Text) → Node → Outcome × Node
delete_checked (stopped r) n = (refused r, n)
delete_checked (passed names) n =
    let v = unregister_each names n in
    (done, with_services (select (λ c. not (is_one_of c.name names)) v.services) v)

unfoldable pub delete_services : List Text → Node → Outcome × Node
delete_services asked n =
    if is_empty asked then (refused no_services, n) else delete_checked (check_names asked n) n

abbrev pub mark : ServiceConfig → ServiceConfig
mark c = record c { metadata = mark_paused c.metadata }

abbrev pub unmark : ServiceConfig → ServiceConfig
unmark c = record c { metadata = unmark_paused c.metadata }

unfoldable pub mark_each : List Text → List ServiceConfig → List ServiceConfig
mark_each [] cs = cs
mark_each (s ∷ ss) cs = mark_each ss (change_first s mark cs)

unfoldable pub unmark_each : List Text → List ServiceConfig → List ServiceConfig
unmark_each [] cs = cs
unmark_each (s ∷ ss) cs = unmark_each ss (change_first s unmark cs)

-- A service of `rollbackPausedServices`: it is parsed, registered, started and unmarked.
abbrev pub restart_parsed : Option Text → ServiceConfig → Text → Node → Node
restart_parsed (some e) c name n = n
restart_parsed none c name n =
    if is_registered name n
    then n
    else let v = start_service name (set_stage name (some ready) n) in
      with_services (change_first name unmark v.services) v

unfoldable pub rollback_paused : Parser → List (Text × ServiceConfig) → Node → Node
rollback_paused parse [] n = n
rollback_paused parse (p ∷ ps) n =
    rollback_paused parse ps (restart_parsed (parse n.parses p.1) p.1 p.0 (count_parse n))

abbrev pub close_or_roll_back :
    Parser
    → Option ServiceConfig
    → Text
    → List (Text × ServiceConfig)
    → Node
    → (List (Text × ServiceConfig) → Node → Option Refusal × Node)
    → Option Refusal × Node
close_or_roll_back parse none name paused n rest =
    (some (no_configuration name), rollback_paused parse paused n)
close_or_roll_back parse (some c) name paused n rest =
    rest (paused ++ ((name, c) ∷ [])) (close_service name n)

-- The second phase of pauseServices. `serviceConfigs` has the last configuration of each name.
unfoldable pub close_each :
    Parser → List Text → List (Text × ServiceConfig) → Node → Option Refusal × Node
close_each parse [] paused n = (none, n)
close_each parse (s ∷ ss) paused n =
    close_or_roll_back parse (last (named s n.services)) s paused n
      (λ ps v. close_each parse ss ps v)

abbrev pub mark_closed : List Text → Option Refusal × Node → Outcome × Node
mark_closed names (some r, n) = (refused r, n)
mark_closed names (none, n) = (done, with_services (mark_each names n.services) n)

abbrev pub pause_checked : Parser → Checked (List Text) → Node → Outcome × Node
pause_checked parse (stopped r) n = (refused r, n)
pause_checked parse (passed names) n = mark_closed names (close_each parse names [] n)

unfoldable pub pause_services : Parser → List Text → Node → Outcome × Node
pause_services parse asked n =
    if is_empty asked then (refused no_services, n) else pause_checked parse (check_names asked n) n
