-- ===== src/NodeServices/Updates.antt =====
-- updateServices and updateForwarder.
use flux_panel_v.Base.{
  ℕ, zero, suc, Bool, true, false, Option, none, some, List, [], ◌∷◌, Text, codes, contains,
  is_empty, trim_space, if◌then◌else◌,
}
use flux_panel_v.NodeServices.{
  ServiceConfig, ready, Node, Refusal, no_services, create_failed, Outcome, done, refused, panicked,
  Parser, set_stage, unregister, is_registered, start_service, count_parse, with_services,
  change_first,
}
use flux_panel_v.NodeServices.Stops.{check_name}
use flux_panel_v.NodeServices.Starts.{trimmed}

abbrev pub check_or : Option Refusal → Option Refusal → Option Refusal
check_or (some r) rest = some r
check_or none rest = rest

-- The first phase: the first complaint about a name.
unfoldable pub check_old : List ServiceConfig → Node → Option Refusal
check_old [] n = none
check_old (c ∷ cs) n = check_or (check_name (trim_space c.name) n) (check_old cs n)

-- The second phase. A name that stands twice is nil the second time.
unfoldable pub take_each : List ServiceConfig → Node → Bool × Node
take_each [] n = (true, n)
take_each (c ∷ cs) n =
    let rest = take_each cs (unregister (trim_space c.name) n) in
    if is_registered (trim_space c.name) n then rest else (false, n)

-- The attempts to parse a service while its port is in use.
abbrev pub try_again : Option Text → Option Text × Node → Node → Option Text × Node
try_again none again n = (none, n)
try_again (some e) again n =
    if contains e (codes "address already in use") then again else (some e, n)

unfoldable pub parse_again : Parser → ℕ → ServiceConfig → Option Text → Node → Option Text × Node
parse_again parse zero c e n = (e, n)
parse_again parse (suc attempts) c e n =
    let again = parse_again parse attempts c (parse n.parses c) (count_parse n) in
    try_again (parse n.parses c) again (count_parse n)

abbrev pub register_parsed :
    Option Text × Node → Text → (Node → Option Refusal × Node) → Option Refusal × Node
register_parsed (some e, v) name rest = (some (create_failed name e), v)
register_parsed (none, v) name rest = rest (start_service name (set_stage name (some ready) v))

-- The third phase. Each name is free, since the second phase took it off.
unfoldable pub make_each : Parser → List ServiceConfig → Node → Option Refusal × Node
make_each parse [] n = (none, n)
make_each parse (c ∷ cs) n =
    register_parsed (parse_again parse 3 (trimmed c) none n) (trim_space c.name)
      (λ v. make_each parse cs v)

-- The fourth phase compares the name as it was asked for.
unfoldable pub replace_each : List ServiceConfig → List ServiceConfig → List ServiceConfig
replace_each [] cs = cs
replace_each (d ∷ ds) cs = replace_each ds (change_first d.name (λ c. d) cs)

abbrev pub replace_made : List ServiceConfig → Option Refusal × Node → Outcome × Node
replace_made asked (some r, n) = (refused r, n)
replace_made asked (none, n) = (done, with_services (replace_each asked n.services) n)

abbrev pub make_taken : Parser → List ServiceConfig → Bool × Node → Outcome × Node
make_taken parse asked (false, n) = (panicked, n)
make_taken parse asked (true, n) = replace_made asked (make_each parse asked n)

abbrev pub update_checked : Parser → List ServiceConfig → Option Refusal → Node → Outcome × Node
update_checked parse asked (some r) n = (refused r, n)
update_checked parse asked none n = make_taken parse asked (take_each asked n)

unfoldable pub update_services : Parser → List ServiceConfig → Node → Outcome × Node
update_services parse asked n =
    if is_empty asked
    then (refused no_services, n)
    else update_checked parse asked (check_old asked n) n
