-- ===== src/Connection.antt =====
-- electron/main/providers/connectionMachine.ts: the connection state machine of one project.
-- A promise is the number of its creation; `finally` running on one is the event `settled`.
-- A handler is a number too; what an operation sends to the handlers is part of its result.
-- The logger is left out.
pub mod Edges
pub mod Runs
pub mod Coalesce
mod Tests
use agent_cockpit.Base.{ℕ, Bool, true, false, Option, none, some, List, [], ◌∷◌, ◌++◌, map}
use agent_cockpit.Base.{Text, codes, text_eq, ◌==◌, if◌then◌else◌, keep, any, not}

pub data ConnectionState : Type 0 where
  disconnected connecting connected reconnecting failed : ConnectionState

-- The string that the source writes for a state.
abbrev state_name : ConnectionState → Text
state_name disconnected = codes "disconnected"
state_name connecting = codes "connecting"
state_name connected = codes "connected"
state_name reconnecting = codes "reconnecting"
state_name failed = codes "failed"

pub record ConnectionStatus : Type 0 where
  pub state : ConnectionState
  pub detail : Option Text
  pub since : ℕ

-- A status sent to a handler.
pub record Notice : Type 0 where
  pub handler : ℕ
  pub status : ConnectionStatus

pub record ConnectionMachine : Type 0 where
  pub state : ConnectionState
  pub detail : Option Text
  pub handlers : List ℕ
  pub in_flight : Option ℕ

abbrev pub edge_key : ConnectionState → ConnectionState → Text
edge_key from to = state_name from ++ (codes "->" ++ state_name to)

abbrev pub legal : List Text
legal =
    codes "disconnected->connecting"
    ∷ codes "connecting->connected"
    ∷ codes "connecting->failed"
    ∷ codes "connecting->disconnected"
    ∷ codes "connected->disconnected"
    ∷ codes "connected->reconnecting"
    ∷ codes "reconnecting->connected"
    ∷ codes "reconnecting->failed"
    ∷ codes "failed->connecting"
    ∷ []

unfoldable pub is_legal : ConnectionState → ConnectionState → Bool
is_legal from to = any (λ key. text_eq (edge_key from to) key) legal

pub create : ConnectionState → ConnectionMachine
create initial = record { state = initial; detail = none; handlers = []; in_flight = none }

pub current : ℕ → ConnectionMachine → ConnectionStatus
current now m = record { state = m.state; detail = m.detail; since = now }

-- `Set.add` and `Set.delete`.
pub subscribe : ℕ → ConnectionMachine → ConnectionMachine
subscribe h m = record m {
  handlers = if any (λ g. g == h) m.handlers then m.handlers else m.handlers ++ h ∷ [];
}

pub unsubscribe : ℕ → ConnectionMachine → ConnectionMachine
unsubscribe h m = record m { handlers = keep (λ g. not (g == h)) m.handlers }

abbrev pub notify : ConnectionStatus → List ℕ → List Notice
notify status = map (λ h. record { handler = h; status = status })

unfoldable pub apply :
    ℕ → ConnectionState → Option Text → ConnectionMachine → ConnectionMachine × List Notice
apply now to detail m =
    if is_legal m.state to
    then (
      record m { state = to; detail = detail },
      notify (record { state = to; detail = detail; since = now }) m.handlers,
    )
    else (m, [])

abbrev is_state : ConnectionState → ConnectionState → Bool
is_state a b = text_eq (state_name a) (state_name b)

unfoldable pub to_connecting : ℕ → Option Text → ConnectionMachine → ConnectionMachine × List Notice
to_connecting now detail m =
    if is_state m.state connecting then (m, []) else apply now connecting detail m

unfoldable pub to_connected : ℕ → Option Text → ConnectionMachine → ConnectionMachine × List Notice
to_connected now detail m = apply now connected detail m

unfoldable pub to_failed : ℕ → Option Text → ConnectionMachine → ConnectionMachine × List Notice
to_failed now detail m = apply now failed detail m

unfoldable pub to_disconnected :
    ℕ → Option Text → ConnectionMachine → ConnectionMachine × List Notice
to_disconnected now detail m = apply now disconnected detail m

unfoldable pub to_reconnecting :
    ℕ → Option Text → ConnectionMachine → ConnectionMachine × List Notice
to_reconnecting now detail m =
    if is_state m.state reconnecting then (m, []) else apply now reconnecting detail m

unfoldable pub short_circuit_connected : ℕ → ConnectionMachine → ConnectionMachine × List Notice
short_circuit_connected now m = (
  record m { state = connected; detail = none },
  notify (record { state = connected; detail = none; since = now }) m.handlers,
)

-- What `coalesce` answers: the machine, the promise returned, and whether `fn` was called.
pub record Coalesced : Type 0 where
  pub machine : ConnectionMachine
  pub promise : ℕ
  pub called : Bool

-- `fresh` is the promise that calling `fn` would create.
pub coalesce : ℕ → ConnectionMachine → Coalesced
coalesce fresh m = elim m.in_flight [
  | none ↦ record { machine = record m { in_flight = some fresh }; promise = fresh; called = true }
  | some p ↦ record { machine = m; promise = p; called = false }
]

-- The `finally` callback of the promise `p`.
pub settled : ℕ → ConnectionMachine → ConnectionMachine
settled p m = elim m.in_flight [
  | none ↦ m
  | some q ↦ if q == p then record m { in_flight = none } else m
]

pub is_in_flight : ConnectionMachine → Bool
is_in_flight m = elim m.in_flight [ none ↦ false | some _ ↦ true ]
