-- ===== src/Connection/Coalesce.antt =====
-- Coalescing of connection attempts: `coalesce` and the `finally` callbacks, in any order.
use agent_cockpit.Base.{ℕ, ◌≡◌, true, false, Option, none, some, List, [], ◌∷◌}
use agent_cockpit.Base.{arith, ◌==◌, not, keep, if◌then◌else◌, length, ◌≤◌}
use agent_cockpit.Connection.{ConnectionMachine, coalesce, settled, is_in_flight}

-- A caller asks for an attempt, for which `fn` would return the given promise; or a promise settles.
pub data Event : Type 0 where
  ask : ℕ → Event
  settle : ℕ → Event

-- The machine beside the attempts that have been started and have not settled.
pub record World : Type 0 where
  pub machine : ConnectionMachine
  pub running : List ℕ

pub happen : Event → World → World
happen (ask fresh) w =
    let c = coalesce fresh w.machine in
    record { machine = c.machine; running = if c.called then fresh ∷ w.running else w.running }
happen (settle p) w = record {
  machine = settled p w.machine;
  running = keep (λ q. not (q == p)) w.running;
}

pub history : List Event → World → World
history [] w = w
history (e ∷ es) w = history es (happen e w)

-- The machine remembers exactly the attempts that are running.
abbrev pub running_of : Option ℕ → List ℕ
running_of none = []
running_of (some p) = p ∷ []

abbrev pub IsTracked : World → Type 0
IsTracked w = w.running ≡ running_of w.machine.in_flight

length-running_of : (p : Option ℕ) → length (running_of p) ≤ 1
length-running_of none = omega arith
length-running_of (some p) = omega arith

happen-IsTracked : (e : Event) (w : World) → IsTracked w → IsTracked (happen e w)
unfolding happen coalesce settled
happen-IsTracked (ask fresh) w h = ground arith
happen-IsTracked (settle p) w h = ground arith

-- Whatever callers ask and whatever promises settle, in any order, a project whose machine starts
-- idle has the running attempt as the promise in flight, and so at most one attempt at a time.
pub history-IsTracked :
    (es : List Event) (w : World)
    → IsTracked w
    → IsTracked (history es w) × (length (history es w).running ≤ 1)
unfolding history
history-IsTracked [] w h = (h, rw h (length-running_of w.machine.in_flight))
history-IsTracked (e ∷ es) w h = history-IsTracked es (happen e w) (happen-IsTracked e w h)

-- While an attempt runs, every caller gets its promise and starts nothing; when none runs, the
-- caller's attempt is started; and an attempt that settles leaves the machine ready for the next.
pub coalesce-settled :
    (fresh next : ℕ) (m : ConnectionMachine)
    → let c = coalesce fresh m in
      (c.called ≡ not (is_in_flight m))
      × ((coalesce next c.machine).called ≡ false)
      × ((coalesce next c.machine).promise ≡ c.promise)
      × ((coalesce next (settled c.promise c.machine)).called ≡ true)
unfolding coalesce settled is_in_flight
coalesce-settled fresh next m = ground arith
