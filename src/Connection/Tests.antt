-- ===== src/Connection/Tests.antt =====
-- Runs of the connection machine, and its theorems at concrete inputs.
use agent_cockpit.Base.{◌≡◌, refl, none, some, List, [], ◌∷◌, codes, ◌≤◌}
use agent_cockpit.Base.{length}
use agent_cockpit.Connection.{ConnectionMachine, create, is_legal, subscribe}
use agent_cockpit.Connection.{disconnected, connecting, connected, reconnecting}
use agent_cockpit.Connection.{short_circuit_connected}
use agent_cockpit.Connection.Runs.{Request, request, requests}
use agent_cockpit.Connection.Coalesce.{ask, settle, World, history, history-IsTracked, IsTracked}

abbrev idle : ConnectionMachine
idle = record { state = disconnected; detail = none; handlers = 7 ∷ []; in_flight = none }

idle_created : subscribe 7 (create disconnected) ≡ idle
unfolding subscribe create
idle_created = refl

abbrev start : List Request
start =
    record { now = 1; target = connecting; detail = none }
    ∷ record { now = 2; target = reconnecting; detail = none }
    ∷ record { now = 3; target = connected; detail = some (codes "up") }
    ∷ []

start_run : (requests start idle).0.state ≡ connected
unfolding requests request is_legal
start_run = refl

local_run : (short_circuit_connected 4 idle).0.state ≡ connected
unfolding short_circuit_connected
local_run = refl

abbrev first : Request
first = record { now = 1; target = connecting; detail = none }

abbrev world : World
world = record { machine = idle; running = [] }

history-IsTracked_example :
    IsTracked (history (ask 1 ∷ ask 2 ∷ settle 1 ∷ ask 3 ∷ []) world)
    × (length (history (ask 1 ∷ ask 2 ∷ settle 1 ∷ ask 3 ∷ []) world).running ≤ 1)
history-IsTracked_example = history-IsTracked (ask 1 ∷ ask 2 ∷ settle 1 ∷ ask 3 ∷ []) world refl
