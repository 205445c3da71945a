-- ===== src/Connections.antt =====
-- The sessions of the nodes and the requests that wait for their answers: go-backend/pkg/ws.go. The
-- goroutines' atomic actions are events, and a run is one interleaving of them.
pub mod Sessions
pub mod Held
pub mod Requests
pub mod Waiting
pub mod Callers
pub mod Answers
use flux_panel_v.Base.{
  ℕ, suc, Bool, true, false, ◌&&◌, Option, none, some, List, [], ◌∷◌, ◌++◌, Text, codes, contains,
  eq_text, is_empty, is_some, length, leb, ltb, ◌==◌, if◌then◌else◌,
}

-- `GostResponse`, by what its `Msg` says: a node without a session, a wait that took too long, or the
-- node's own text.
pub data Answer : Type 0 where
  node_offline timed_out : Answer
  answered : Text → Answer

-- Where `SendMsgWithTimeout` stands with a request: `writing` is inside `sendToNode`, which waits for
-- the session's lock and for the write as long as it takes, before there is a timer; `expired` is after
-- the timer fired and before it took the request out of the map.
pub data Caller : Type 0 where
  idle writing waiting expired : Caller
  returned : Answer → Caller

-- A request: its caller, whether `pendingRequests` has it, the answers that readers took it out for
-- and did not yet hand over, and what its channel holds.
pub record Request : Type 0 where
  pub caller : Caller
  pub is_pending : Bool
  pub carried : List Text
  pub channel : List Text

abbrev pub no_request : Request
no_request = record { caller = idle; is_pending = false; carried = []; channel = [] }

-- The sessions by node, the readers, by node and session, that found their session to be the node's own
-- and did not yet delete it, and the requests by the id that was drawn for them.
pub record Manager : Type 0 where
  pub node_sessions : ℕ → Option ℕ
  pub leaving : ℕ → ℕ → Bool
  pub requests : Text → Request

abbrev pub new_manager : Manager
new_manager = record {
  node_sessions = λ n. none;
  leaving = λ n s. false;
  requests = λ id. no_request;
}

-- What a node's decrypted message is. `WSResponse`, as it is read from JSON, has an id and a text.
pub data Inbound : Type 0 where
  metrics : Inbound
  reply : Text → Text → Inbound
  ignored broadcast : Inbound

abbrev pub reply_of : Option (Text × Text) → Inbound
reply_of none = ignored
reply_of (some (id, message)) =
    if is_empty id then ignored else reply id (if is_empty message then codes "OK" else message)

unfoldable pub read_node_message : (Text → Option (Text × Text)) → Text → Inbound
read_node_message parse s =
    if contains s (codes "memory_usage")
    then metrics
    else if contains s (codes "requestId")
    then reply_of (parse s)
    else broadcast

-- What happens: a node connects with a session, a session's reader ends and looks for its session, and
-- it takes the node off; a caller stores a request with a new id, its write returns, a reader reads a
-- message, it hands an answer over, and the caller receives it, is timed out, and takes the request
-- out of the map.
pub data Event : Type 0 where
  connects ends takes_off : ℕ → ℕ → Event
  sends : ℕ → Text → Event
  reads : Text → Event
  writes hands_over receives times_out forgets : Text → Event

unfoldable pub set_session : ℕ → Option ℕ → Manager → Manager
set_session n s m = record m { node_sessions = λ k. if k == n then s else m.node_sessions k }

abbrev pub is_session : ℕ → Option ℕ → Bool
is_session s none = false
is_session s (some t) = t == s

unfoldable pub set_leaving : ℕ → ℕ → Bool → Manager → Manager
set_leaving n s b m = record m { leaving = λ k t. if k == n && t == s then b else m.leaving k t }

-- The reader's deferred block: the `Load` and its comparison, and then, as an action of its own, the
-- `Delete`, which removes whatever session the node has by then.
unfoldable pub end_session : ℕ → ℕ → Manager → Manager
end_session n s m = if is_session s (m.node_sessions n) then set_leaving n s true m else m

unfoldable pub take_off : ℕ → ℕ → Manager → Option Manager
unfolding set_session set_leaving
take_off n s m = if m.leaving n s then some (set_session n none (set_leaving n s false m)) else none

unfoldable pub is_node_online : ℕ → Manager → Bool
is_node_online n m = is_some (m.node_sessions n)

-- The actions on one request. `none`: the action is not possible, or has to wait.
abbrev pub is_idle : Caller → Bool
is_idle idle = true
is_idle _ = false

abbrev pub send_request : Option ℕ → Request → Option Request
send_request session r =
    if is_idle r.caller
    then some (
        if is_some session
        then record r { caller = writing; is_pending = true }
        else record r { caller = returned node_offline })
    else none

-- `sendToNode` returns, whether its write failed or not.
abbrev pub write_by : Caller → Request → Option Request
write_by writing r = some (record r { caller = waiting })
write_by _ r = none

abbrev pub write : Request → Option Request
write r = write_by r.caller r

-- `LoadAndDelete`
abbrev pub take_reply : Text → Request → Request
take_reply t r =
    if r.is_pending then record r { is_pending = false; carried = t ∷ r.carried } else r

-- `ch <- result`: the channel has room for one.
abbrev pub put_answer : List Text → Request → Option Request
put_answer [] r = none
put_answer (t ∷ ts) r =
    if is_empty r.channel then some (record r { carried = ts; channel = t ∷ [] }) else none

abbrev pub hand_over : Request → Option Request
hand_over r = put_answer r.carried r

abbrev pub get_answer : Caller → List Text → Request → Option Request
get_answer waiting (t ∷ ts) r = some (record r { caller = returned (answered t); channel = ts })
get_answer _ _ r = none

abbrev pub receive : Request → Option Request
receive r = get_answer r.caller r.channel r

abbrev pub expire_by : Caller → Request → Option Request
expire_by waiting r = some (record r { caller = expired })
expire_by _ r = none

abbrev pub expire : Request → Option Request
expire r = expire_by r.caller r

abbrev pub forget_by : Caller → Request → Option Request
forget_by expired r = some (record r { caller = returned timed_out; is_pending = false })
forget_by _ r = none

abbrev pub forget : Request → Option Request
forget r = forget_by r.caller r

unfoldable pub set_request : Text → Request → Manager → Manager
set_request id r m = record m { requests = λ x. if eq_text x id then r else m.requests x }

abbrev pub with_request : Text → Option Request → Manager → Option Manager
with_request id none m = none
with_request id (some r) m = some (set_request id r m)

abbrev pub dispatch : Inbound → Manager → Manager
dispatch (reply id t) m = set_request id (take_reply t (m.requests id)) m
dispatch _ m = m

module _ (parse : Text → Option (Text × Text)) where
  unfoldable pub step : Event → Manager → Option Manager
  step (connects n s) m = some (set_session n (some s) m)
  step (ends n s) m = some (end_session n s m)
  step (takes_off n s) m = take_off n s m
  step (sends n id) m = with_request id (send_request (m.node_sessions n) (m.requests id)) m
  step (writes id) m = with_request id (write (m.requests id)) m
  step (reads s) m = some (dispatch (read_node_message parse s) m)
  step (hands_over id) m = with_request id (hand_over (m.requests id)) m
  step (receives id) m = with_request id (receive (m.requests id)) m
  step (times_out id) m = with_request id (expire (m.requests id)) m
  step (forgets id) m = with_request id (forget (m.requests id)) m

  abbrev pub then_run : Option Manager → (Manager → Option Manager) → Option Manager
  then_run none f = none
  then_run (some m) f = f m

  unfoldable pub run : List Event → Manager → Option Manager
  run [] m = some m
  run (e ∷ es) m = then_run (step e m) (λ v. run es v)
