-- ===== src/Connection/Runs.antt =====
-- Requests to a connection machine, one after another.
use agent_cockpit.Base.{ℕ, ◌≡◌, refl, ◌⊎◌, inl, inr, true, false, Option, List, [], ◌∷◌, ◌++◌}
use agent_cockpit.Base.{Text, Bool-cases, ◌∙◌}
use agent_cockpit.Connection.{ConnectionState, ConnectionMachine, Notice, is_legal, apply, notify}
use agent_cockpit.Connection.{disconnected, connecting, connected, reconnecting, failed}
use agent_cockpit.Connection.{to_connecting, to_connected, to_failed, to_disconnected}
use agent_cockpit.Connection.{to_reconnecting}
use agent_cockpit.Connection.Edges.{
  Edge, is_legal_iff, activate, ready, launch_error, provision_drop, user_disconnect, channel_drop,
  reattached, gave_up, user_reconnect,
}

-- A call of one of the five `to…` methods: the time of the call, the target and the detail.
pub record Request : Type 0 where
  pub now : ℕ
  pub target : ConnectionState
  pub detail : Option Text

abbrev method :
    ConnectionState → ℕ → Option Text → ConnectionMachine → ConnectionMachine × List Notice
method disconnected = to_disconnected
method connecting = to_connecting
method connected = to_connected
method reconnecting = to_reconnecting
method failed = to_failed

unfoldable pub request : Request → ConnectionMachine → ConnectionMachine × List Notice
unfolding to_connecting to_connected to_failed to_disconnected to_reconnecting apply
request r m = method r.target r.now r.detail m

unfoldable pub requests : List Request → ConnectionMachine → ConnectionMachine × List Notice
requests [] m = (m, [])
requests (r ∷ rs) m =
    let (m', sent) = request r m in let (m'', later) = requests rs m' in (m'', sent ++ later)

-- The machine after an accepted request.
abbrev moved : Request → ConnectionMachine → ConnectionMachine
moved r m = record m { state = r.target; detail = r.detail }

-- The early return of `to_connecting` and `to_reconnecting` is what the guard would do.
method-apply :
    (to : ConnectionState) (now : ℕ) (detail : Option Text) (m : ConnectionMachine)
    → method to now detail m ≡ apply now to detail m
unfolding request is_legal
method-apply disconnected now detail m = refl
method-apply connecting now detail m = same m.state m.detail m.handlers m.in_flight
  where
    same :
        (s : ConnectionState) (d : Option Text) (hs : List ℕ) (p : Option ℕ)
        → let n : ConnectionMachine = record {
          state = s;
          detail = d;
          handlers = hs;
          in_flight = p;
        } in
          to_connecting now detail n ≡ apply now connecting detail n
    same connecting d hs p = refl
    same _ d hs p = refl
method-apply connected now detail m = refl
method-apply reconnecting now detail m = same m.state m.detail m.handlers m.in_flight
  where
    same :
        (s : ConnectionState) (d : Option Text) (hs : List ℕ) (p : Option ℕ)
        → let n : ConnectionMachine = record {
          state = s;
          detail = d;
          handlers = hs;
          in_flight = p;
        } in
          to_reconnecting now detail n ≡ apply now reconnecting detail n
    same reconnecting d hs p = refl
    same _ d hs p = refl
method-apply failed now detail m = refl

apply_legal :
    (r : Request) (m : ConnectionMachine)
    → is_legal m.state r.target ≡ true
    → apply r.now r.target r.detail m ≡ (
      moved r m,
      notify (record { state = r.target; detail = r.detail; since = r.now }) m.handlers,
    )
unfolding apply
apply_legal r m h = rw h

apply_illegal :
    (r : Request) (m : ConnectionMachine)
    → is_legal m.state r.target ≡ false
    → apply r.now r.target r.detail m ≡ (m, [])
unfolding apply
apply_illegal r m h = rw h

request-apply :
    (r : Request) (m : ConnectionMachine) → request r m ≡ apply r.now r.target r.detail m
unfolding request
request-apply r m = method-apply r.target r.now r.detail m

-- A request along an edge of the table moves the machine there, sends the new status to each
-- subscribed handler once, and leaves the subscriptions and the promise; any other request changes
-- nothing and sends nothing.
pub request_lem :
    (r : Request) (m : ConnectionMachine)
    → (Edge m.state r.target
        → request r m ≡ (
          moved r m,
          notify (record { state = r.target; detail = r.detail; since = r.now }) m.handlers,
        ))
      × (¬ Edge m.state r.target → request r m ≡ (m, []))
request_lem r m = (
  λ e. request-apply r m ∙ apply_legal r m ((is_legal_iff m.state r.target).1 e),
  λ no_edge. request-apply r m ∙ elim (Bool-cases (is_legal m.state r.target)) [
    | inl h ↦ absurd (no_edge ((is_legal_iff m.state r.target).0 h))
    | inr h ↦ apply_illegal r m h
  ],
)

-- The states in which a project has a live channel, or had one that is being restored.
abbrev pub IsAttached : ConnectionState → Type 0
IsAttached connected = Unit
IsAttached reconnecting = Unit
IsAttached _ = ⊥

Edge-into_attached :
    {from to : ConnectionState}
    → Edge from to
    → IsAttached to
    → ¬ IsAttached from
    → from ≡ connecting
Edge-into_attached ready a n = refl
Edge-into_attached channel_drop a n = absurd (n tt)
Edge-into_attached reattached a n = absurd (n tt)
Edge-into_attached activate a n = absurd a
Edge-into_attached launch_error a n = absurd a
Edge-into_attached provision_drop a n = absurd a
Edge-into_attached user_disconnect a n = absurd a
Edge-into_attached gave_up a n = absurd a
Edge-into_attached user_reconnect a n = absurd a

dec-IsAttached : (s : ConnectionState) → IsAttached s ⊎ (¬ IsAttached s)
dec-IsAttached connected = inl tt
dec-IsAttached reconnecting = inl tt
dec-IsAttached disconnected = inr (λ a. a)
dec-IsAttached connecting = inr (λ a. a)
dec-IsAttached failed = inr (λ a. a)

-- The machine is in the state `s` at the start of the run, or after one of its requests.
abbrev pub Visits : ConnectionState → List Request → ConnectionMachine → Type 0
Visits s [] m = m.state ≡ s
Visits s (r ∷ rs) m = (m.state ≡ s) ⊎ Visits s rs (request r m).0

attached_step :
    (r : Request) (m : ConnectionMachine)
    → ¬ IsAttached m.state
    → IsAttached (request r m).0.state
    → m.state ≡ connecting
attached_step r m n a = elim (Bool-cases (is_legal m.state r.target)) [
  | inl h ↦
      Edge-into_attached ((is_legal_iff m.state r.target).0 h)
        (rw (request-apply r m ∙ apply_legal r m h) at a) n
  | inr h ↦ absurd (n (rw (request-apply r m ∙ apply_illegal r m h) at a))
]

-- A machine that is neither connected nor reconnecting gets there, by whatever sequence of
-- requests, only through the state `connecting`.
pub requests-Visits_connecting :
    (rs : List Request) (m : ConnectionMachine)
    → ¬ IsAttached m.state
    → IsAttached (requests rs m).0.state
    → Visits connecting rs m
unfolding requests
requests-Visits_connecting [] m n a = absurd (n a)
requests-Visits_connecting (r ∷ rs) m n a = elim (dec-IsAttached (request r m).0.state) [
  | inl attached ↦ inl (attached_step r m n attached)
  | inr detached ↦ inr (requests-Visits_connecting rs (request r m).0 detached a)
]
