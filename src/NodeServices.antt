-- ===== src/NodeServices.antt =====
-- The services of a node: go-node/x/socket/service.go. The registry and the configuration are GOST's;
-- what this code calls of them is written out here, and its parser of services is a parameter.
pub mod Marks
pub mod AtName
pub mod InStep
pub mod Pausing
pub mod Registering
pub mod Creating
pub mod Created
pub mod Creation
pub mod Resuming
pub mod Resumption
pub mod Lost
pub mod Resumed
pub mod Updating
pub mod Updated
pub mod Requests
pub mod Refinement
pub mod Stops
pub mod Starts
pub mod Updates
pub mod Targets
pub mod Retargeted
use flux_panel_v.Base.{
  ℕ, suc, Bool, true, false, Option, none, some, List, [], ◌∷◌, ◌++◌, map, Text, is_empty, is_some,
  eq_text, select, if◌then◌else◌,
}
use flux_panel_v.NodeServices.Marks.{Metadata}

-- `config.ServiceConfig`: the fields that this code reads or writes, and the rest of them as one value.
pub record ServiceConfig : Type 0 where
  pub name : Text
  pub addr : Text
  pub forwarder : Option Text
  pub metadata : Metadata
  pub rest : Text

-- A service in the registry: made, accepting connections, or closed.
pub data Stage : Type 0 where
  ready serving closed : Stage

-- The registry of services, `config.Global().Services`, and how often the parser was called.
pub record Node : Type 0 where
  pub registry : Text → Option Stage
  pub services : List ServiceConfig
  pub parses : ℕ

pub data Refusal : Type 0 where
  no_services name_required : Refusal
  already_exists not_found no_configuration : Text → Refusal
  create_failed resume_failed bad_forwarder : Text → Text → Refusal
  no_handler no_forward no_forwarder : Text → Refusal

-- `panicked`: a method of a service that is nil.
pub data Outcome : Type 0 where
  done : Outcome
  refused : Refusal → Outcome
  panicked : Outcome

-- What one call of `parser.ParseService` returns, of the how manieth call it is: an error's text or none.
abbrev pub Parser : Type 0
Parser = ℕ → ServiceConfig → Option Text

-- `ServiceRegistry()`. No caller registers an empty name.
unfoldable pub set_stage : Text → Option Stage → Node → Node
set_stage name s n = record n { registry = λ x. if eq_text name x then s else n.registry x }

abbrev pub unregister : Text → Node → Node
unregister name n = set_stage name none n

abbrev pub is_registered : Text → Node → Bool
is_registered name n = is_some (n.registry name)

-- `Close` of the service that is registered.
abbrev pub close_stage : Option Stage → Option Stage
close_stage none = none
close_stage (some s) = some closed

abbrev pub close_service : Text → Node → Node
close_service name n = set_stage name (close_stage (n.registry name)) n

-- `go svc.Serve()`: a service that was closed accepts nothing.
abbrev pub start_stage : Option Stage → Option Stage
start_stage none = none
start_stage (some ready) = some serving
start_stage (some s) = some s

abbrev pub start_service : Text → Node → Node
start_service name n = set_stage name (start_stage (n.registry name)) n

abbrev pub count_parse : Node → Node
count_parse n = record n { parses = suc n.parses }

-- `config.OnUpdate` of the list of services.
abbrev pub with_services : List ServiceConfig → Node → Node
with_services cs n = record n { services = cs }

-- The configurations with a name, in their order.
abbrev pub named : Text → List ServiceConfig → List ServiceConfig
named x cs = select (λ c. eq_text c.name x) cs

abbrev pub change_at :
    Bool
    → (ServiceConfig → ServiceConfig)
    → ServiceConfig
    → List ServiceConfig
    → List ServiceConfig
    → List ServiceConfig
change_at true f c cs rest = f c ∷ cs
change_at false f c cs rest = c ∷ rest

-- `for i := range c.Services`: the first with the name is changed, and the loop breaks.
unfoldable pub change_first :
    Text → (ServiceConfig → ServiceConfig) → List ServiceConfig → List ServiceConfig
change_first name f [] = []
change_first name f (c ∷ cs) = change_at (eq_text c.name name) f c cs (change_first name f cs)

-- The first configuration with a name, or the last one: `serviceConfigs[name]`, as it is filled.
abbrev pub first : List ServiceConfig → Option ServiceConfig
first [] = none
first (c ∷ cs) = some c

abbrev pub last : List ServiceConfig → Option ServiceConfig
last [] = none
last (c ∷ []) = some c
last (c ∷ (d ∷ cs)) = last (d ∷ cs)
