-- ===== src/NodeServices/Targets.antt =====
-- updateForwarder: new targets for services that go on.
use flux_panel_v.Base.{Option, none, some, List, [], ◌∷◌, Text, is_empty, trim_space, if◌then◌else◌}
use flux_panel_v.NodeServices.{
  ServiceConfig, Node, Refusal, no_services, name_required, not_found, no_handler, no_forward,
  no_forwarder, bad_forwarder, Outcome, done, refused, is_registered, with_services, change_first,
}

-- What the type assertions say of a registered service: it has no handler, a handler that takes no
-- new hop, or one that does.
pub data Handler : Type 0 where
  without_handler without_forward with_forward : Handler

-- An entry of `updateForwarderRequest`, with its configuration as one value, which may be nil.
pub record Target : Type 0 where
  pub name : Text
  pub forwarder : Option Text

-- The hops that handlers were given, in order, by the names of their services.
abbrev pub Hops : Type 0
Hops = List (Text × Text)

abbrev pub with_hop : Text → Text → Option Refusal × Hops → Option Refusal × Hops
with_hop name hop (r, hops) = (r, (name, hop) ∷ hops)

abbrev pub hand_hop : Text → Text → Option Text → Option Refusal × Hops → Option Refusal × Hops
hand_hop name hop (some e) rest = (some (bad_forwarder name e), [])
hand_hop name hop none rest = with_hop name hop rest

-- `parse_forwarder` is `parser.ParseForwarder`: an error's text or none.
module _ (handler_of : Text → Handler) (parse_forwarder : Text → Option Text) where
  abbrev pub parse_target : Text → Option Text → Option Refusal × Hops → Option Refusal × Hops
  parse_target name none rest = (some (no_forwarder name), [])
  parse_target name (some hop) rest = hand_hop name hop (parse_forwarder hop) rest

  abbrev pub use_handler :
      Text → Handler → Option Text → Option Refusal × Hops → Option Refusal × Hops
  use_handler name without_handler target rest = (some (no_handler name), [])
  use_handler name without_forward target rest = (some (no_forward name), [])
  use_handler name with_forward target rest = parse_target name target rest

  unfoldable pub hand_each : List Target → Node → Option Refusal × Hops
  hand_each [] n = (none, [])
  hand_each (t ∷ ts) n =
      let name = trim_space t.name in
      let rest = hand_each ts n in
      if is_empty name
      then (some name_required, [])
      else if is_registered name n
      then use_handler name (handler_of name) t.forwarder rest
      else (some (not_found name), [])

  abbrev pub set_target : Option Text → ServiceConfig → ServiceConfig
  set_target target c = record c { forwarder = target }

  -- The names are compared as they were asked for.
  unfoldable pub save_each : List Target → List ServiceConfig → List ServiceConfig
  save_each [] cs = cs
  save_each (t ∷ ts) cs = save_each ts (change_first t.name (set_target t.forwarder) cs)

  abbrev pub save_handed : List Target → Option Refusal × Hops → Node → Outcome × (Hops × Node)
  save_handed ts (some r, hops) n = (refused r, (hops, n))
  save_handed ts (none, hops) n = (done, (hops, with_services (save_each ts n.services) n))

  unfoldable pub update_forwarder : List Target → Node → Outcome × (Hops × Node)
  update_forwarder ts n =
      if is_empty ts then (refused no_services, ([], n)) else save_handed ts (hand_each ts n) n
