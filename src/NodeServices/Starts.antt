-- ===== src/NodeServices/Starts.antt =====
-- createServices, updateServices, resumeServices and updateForwarder.
use flux_panel_v.Base.{
  Option, none, some, List, [], ◌∷◌, ◌++◌, map, Text, is_empty, trim_space, if◌then◌else◌,
}
use flux_panel_v.NodeServices.Marks.{is_paused}
use flux_panel_v.NodeServices.{
  ServiceConfig, ready, Node, Refusal, no_services, name_required, already_exists, not_found,
  no_configuration, create_failed, resume_failed, Outcome, done, refused, Parser, set_stage,
  unregister, is_registered, close_service, start_service, count_parse, with_services, named,
  change_first, first,
}
use flux_panel_v.NodeServices.Stops.{Checked, passed, stopped, mark, unmark_each}

abbrev pub trimmed : ServiceConfig → ServiceConfig
trimmed c = record c { name = trim_space c.name }

abbrev pub check_new : Text → Node → Option Refusal
check_new name n =
    if is_empty name
    then some name_required
    else if is_registered name n
    then some (already_exists name)
    else none

abbrev pub keep_parsed :
    Text
    → Option Text
    → ServiceConfig
    → Checked (List ServiceConfig) × Node
    → Node
    → Checked (List ServiceConfig) × Node
keep_parsed name (some e) c rest n = (stopped (create_failed name e), n)
keep_parsed name none c (stopped r, v) n = (stopped r, v)
keep_parsed name none c (passed cs, v) n = (passed (c ∷ cs), v)

abbrev pub parse_if :
    Option Refusal
    → Checked (List ServiceConfig) × Node
    → Node
    → Checked (List ServiceConfig) × Node
parse_if (some r) made n = (stopped r, n)
parse_if none made n = made

-- The first phase of createServices: every configuration is parsed.
unfoldable pub parse_each : Parser → List ServiceConfig → Node → Checked (List ServiceConfig) × Node
parse_each parse [] n = (passed [], n)
parse_each parse (c ∷ cs) n =
    parse_if (check_new (trim_space c.name) n)
      (keep_parsed (trim_space c.name) (parse n.parses (trimmed c)) (trimmed c)
        (parse_each parse cs (count_parse n)) (count_parse n))
      n

-- The services that were registered are taken off again.
unfoldable pub roll_back : List Text → Node → Node
roll_back [] n = n
roll_back (s ∷ ss) n = roll_back ss (if is_registered s n then unregister s n else n)

-- The second phase: `Register` of each; `made` are those before it.
unfoldable pub register_each : List ServiceConfig → List Text → Node → Option Refusal × Node
register_each [] made n = (none, n)
register_each (c ∷ cs) made n =
    let rest = register_each cs (made ++ (c.name ∷ [])) (set_stage c.name (some ready) n) in
    if is_registered c.name n then (some (already_exists c.name), roll_back made n) else rest

unfoldable pub start_each : List ServiceConfig → Node → Node
start_each [] n = n
start_each (c ∷ cs) n = start_each cs (start_service c.name n)

abbrev pub start_registered : List ServiceConfig → Option Refusal × Node → Outcome × Node
start_registered cs (some r, n) = (refused r, n)
start_registered cs (none, n) =
    let v = start_each cs n in (done, with_services (v.services ++ cs) v)

abbrev pub create_parsed : Checked (List ServiceConfig) × Node → Outcome × Node
create_parsed (stopped r, n) = (refused r, n)
create_parsed (passed cs, n) = start_registered cs (register_each cs [] n)

unfoldable pub create_services : Parser → List ServiceConfig → Node → Outcome × Node
create_services parse asked n =
    if is_empty asked then (refused no_services, n) else create_parsed (parse_each parse asked n)

-- What resumeServices does with a name: a complaint, a service that runs already, or one to resume.
pub data Found : Type 0 where
  complaint : Refusal → Found
  running : Found
  resumable : ServiceConfig → Found

abbrev pub found_config : Text → Option ServiceConfig → Found
found_config name none = complaint (no_configuration name)
found_config name (some c) = if is_paused c.metadata then resumable c else running

abbrev pub find_paused : Text → Node → Found
find_paused name n =
    if is_empty name
    then complaint name_required
    else if is_registered name n
    then found_config name (first (named name n.services))
    else complaint (not_found name)

abbrev pub add_found :
    Found → Text → Checked (List (Text × ServiceConfig)) → Checked (List (Text × ServiceConfig))
add_found (complaint r) name rest = stopped r
add_found running name rest = rest
add_found (resumable c) name (stopped r) = stopped r
add_found (resumable c) name (passed ps) = passed ((name, c) ∷ ps)

unfoldable pub check_paused : List Text → Node → Checked (List (Text × ServiceConfig))
check_paused [] n = passed []
check_paused (s ∷ ss) n =
    add_found (find_paused (trim_space s) n) (trim_space s) (check_paused ss n)

-- `rollbackResumedServices`: each is closed and marked again.
unfoldable pub rollback_resumed : List Text → Node → Node
rollback_resumed [] n = n
rollback_resumed (s ∷ ss) n =
    let v = close_service s n in
    rollback_resumed ss (with_services (change_first s mark v.services) v)

abbrev pub resume_parsed :
    Option Text → Text → List Text → Option Refusal × Node → Node → Option Refusal × Node
resume_parsed (some e) name resumed rest n =
    (some (resume_failed name e), rollback_resumed resumed n)
resume_parsed none name resumed rest n = rest

-- The second phase of resumeServices. The name is free when it is registered again, since the old
-- service was taken off.
unfoldable pub resume_each :
    Parser → List (Text × ServiceConfig) → List Text → Node → Option Refusal × Node
resume_each parse [] resumed n = (none, n)
resume_each parse (p ∷ ps) resumed n =
    let v = count_parse (unregister p.0 n) in
    resume_parsed (parse n.parses p.1) p.0 resumed
      (resume_each parse ps (resumed ++ (p.0 ∷ []))
        (start_service p.0 (set_stage p.0 (some ready) v)))
      v

abbrev pub names_of : List (Text × ServiceConfig) → List Text
names_of ps = map (λ p. p.0) ps

abbrev pub unmark_resumed : List Text → Option Refusal × Node → Outcome × Node
unmark_resumed names (some r, n) = (refused r, n)
unmark_resumed names (none, n) = (done, with_services (unmark_each names n.services) n)

abbrev pub resume_checked : Parser → Checked (List (Text × ServiceConfig)) → Node → Outcome × Node
resume_checked parse (stopped r) n = (refused r, n)
resume_checked parse (passed ps) n = unmark_resumed (names_of ps) (resume_each parse ps [] n)

unfoldable pub resume_services : Parser → List Text → Node → Outcome × Node
resume_services parse asked n =
    if is_empty asked
    then (refused no_services, n)
    else resume_checked parse (check_paused asked n) n
