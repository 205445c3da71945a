-- ===== src/Lib.antt =====
-- The panel backend of the flux panel: the forwards that users run through the panel's nodes, the
-- limits that the panel puts on them, and the GOST services that it configures on the nodes for
-- them.
--
-- Model (go-backend/model/*.go) has the rows of the tables. Store has the seven tables as `Db`, the
-- messages sent to the nodes, and the way a handler runs: `World` is the tables with the messages,
-- newest first; an `Action` returns `ok`, `err` (dto.Err) or `panic` (a nil dereference) with the
-- world it leaves, so what a handler wrote before it failed stays. `Env` is what the handlers do
-- not decide: the time, the nodes' answers, which may depend on all messages so far, and which
-- writes the database refuses. A write whose error the code ignores succeeds.
--
-- Gost and Nodes (go-backend/pkg/gost.go): the builders of the services, chains and limiters, and
-- the commands that send them. Forward (go-backend/service/forward.go), with a module for each
-- group of its functions: Ports (allocatePorts and below), Limits (checkUserPermissions,
-- checkForwardQuota, checkUserFlowLimits), Services (createGostServices, syncGostServices,
-- deleteGostServicesWithIP, deleteOldGostServices), Address and Ssrf (validateRemoteAddr and its
-- helpers), Create (CreateForward), Control (PauseForward, ResumeForward, DeleteForward,
-- ForceDeleteForward), Replace and Update (UpdateForward, UpdateForwardA). Flow
-- (go-backend/service/flow.go): processFlowData, which charges a node's traffic report to forward,
-- user and permission row, and pauses what is over its limits. Its reports have counts that are not
-- negative, and names whose three parts are decimal numbers, as the panel names its services: what
-- the database makes of other texts in place of a key is outside of the model. Reset
-- (go-backend/task/reset_flow.go): the daily task. Tunnels, SpeedLimits and UserTunnels
-- (go-backend/service/tunnel.go, speed_limit.go, user_tunnel.go): the administration of tunnels,
-- of speed limits and of the rows that permit a user a tunnel. UserTunnels has child modules for the
-- removal of a row, a new speed, the pauses when a row is disabled, and UpdateUserTunnel. NodeRows
-- (go-backend/service/node.go): creation, update, protocols and order of the nodes. Forward.Order:
-- UpdateForwardOrder. The modules below each of these hold the proofs.
--
-- Links states how the tables refer to each other. Links.Panel puts the handlers together: a `Request`
-- is any of them with its arguments, and `Reaches` relates the panel's states by requests that are
-- served one after the other, each with an environment of its own.
--
-- RateLimit (go-backend/middleware/rate_limit.go): the limiter of logins and captchas. Connections
-- (go-backend/pkg/ws.go): the sessions of the nodes and the requests that wait for an answer. Its
-- events are the atomic actions of the goroutines, and a run is any interleaving of them: the lookup and
-- the deletion at a session's end are two, and so are the storing of a request and the return of its
-- write, which may be late or never. The handlers above see of all that the answer that SendMsg
-- returns.
--
-- Reconcile (go-backend/service/reconcile.go): the synchronisation of a node that has reconnected: its
-- limiters (Limiters), its forwards (Forwards), the clean-up of services that no forward has
-- (Orphans), and the part of ReconcileNode that runs these (Runs), without the phases for Xray. The list of names that a node answers and the
-- reading of an integer are parameters.
--
-- NodeServices (go-node/x/socket/service.go): the node's side of the messages for services. `Node` is
-- the registry with the stage of each service, the configured services and a count of the parser's calls.
-- Stops has deleteServices and pauseServices, Starts createServices and resumeServices, Updates
-- updateServices, Targets updateForwarder. The parser, which belongs to GOST, is a parameter that may answer each call in its own
-- way. Requests puts all but updateForwarder together and says what a map from names to stages makes of
-- them. A node is in step (InStep) when each registered name has one configuration, marked as paused
-- exactly when its service is closed; AtName and the modules after it follow one name through the
-- loops. The panel's handlers and the node meet only in the texts of the answers.
--
-- Samples and Tests run the theorems at concrete inputs.
--
-- Handlers read and write the same tables: Create, Control, Update, Flow, Reset and UserTunnels all
-- change the status of a forward, 1 when it runs, 0 when it is paused and -1 when its services could not be
-- set up. They meet the nodes only through the messages of Nodes, whose services they name by the
-- keys of the forward, the user and the permission row (build_service_name); Flow reads the keys
-- back from that name.
--
-- Numbers: keys, ports, times and counters are natural numbers; where limits are compared, bytes
-- are compared as int64 (`signed`), and theorems say where values must fit. Statuses of forwards
-- are integers. Texts are byte lists. Decimal numbers are written with fuel for 20 digits, enough
-- for 64 bits. The search for a free port has a round for every port of the node's range. Floats
-- are a parameter, by bit patterns; so are Go's address parser and resolver, and the reading of a
-- key out of a text.
--
-- Not modelled: request handling, routing, tokens and encryption; the
-- upload around a traffic report, with its decryption; of the websocket connections, the
-- system information, the sessions of administrators and the broadcasts to them; locks, since handlers
-- run one after the other; texts of messages to the user, of which their kind is left; users
-- as objects of administration, the removal of nodes, statistics, and everything of Xray; of the node program, which is built on a copy
-- of the GOST library, all but the handlers of services, and of these the defaults that the parser writes into a
-- configuration, and the listeners of services that are not in the registry; the web front end.
pub mod Base
pub mod Model
pub mod Gost
pub mod Store
pub mod Nodes
pub mod Forward
pub mod Tunnels
pub mod NodeRows
pub mod NodeServices
pub mod SpeedLimits
pub mod UserTunnels
pub mod Flow
pub mod Reset
pub mod RateLimit
pub mod Reconcile
pub mod Connections
pub mod Links
pub mod Samples
pub mod Tests
