-- ===== src/Connection/Edges.antt =====
-- The transition table in the header of connectionMachine.ts, against the set that the code tests.
use agent_cockpit.Base.{◌≡◌, refl, ◌↔◌, true, false}
use agent_cockpit.Connection.{ConnectionState, is_legal}
use agent_cockpit.Connection.{disconnected, connecting, connected, reconnecting, failed}

-- The table, one constructor for each of its lines.
pub data Edge : ConnectionState → ConnectionState → Type 0 where
  activate : Edge disconnected connecting
  ready : Edge connecting connected
  launch_error : Edge connecting failed
  provision_drop : Edge connecting disconnected
  user_disconnect : Edge connected disconnected
  channel_drop : Edge connected reconnecting
  reattached : Edge reconnecting connected
  gave_up : Edge reconnecting failed
  user_reconnect : Edge failed connecting

is_legal_sound : (from to : ConnectionState) → is_legal from to ≡ true → Edge from to
unfolding is_legal
is_legal_sound disconnected connecting h = activate
is_legal_sound connecting connected h = ready
is_legal_sound connecting failed h = launch_error
is_legal_sound connecting disconnected h = provision_drop
is_legal_sound connected disconnected h = user_disconnect
is_legal_sound connected reconnecting h = channel_drop
is_legal_sound reconnecting connected h = reattached
is_legal_sound reconnecting failed h = gave_up
is_legal_sound failed connecting h = user_reconnect
is_legal_sound _ _ h = cc

is_legal_complete : {from to : ConnectionState} → Edge from to → is_legal from to ≡ true
unfolding is_legal
is_legal_complete activate = refl
is_legal_complete ready = refl
is_legal_complete launch_error = refl
is_legal_complete provision_drop = refl
is_legal_complete user_disconnect = refl
is_legal_complete channel_drop = refl
is_legal_complete reattached = refl
is_legal_complete gave_up = refl
is_legal_complete user_reconnect = refl

-- The guard of every transition accepts an edge exactly when the table lists it.
pub is_legal_iff : (from to : ConnectionState) → (is_legal from to ≡ true) ↔ Edge from to
is_legal_iff from to = (is_legal_sound from to, is_legal_complete)

-- No state has an edge to itself.
pub self_loop : (s : ConnectionState) → is_legal s s ≡ false
unfolding is_legal
self_loop disconnected = refl
self_loop connecting = refl
self_loop connected = refl
self_loop reconnecting = refl
self_loop failed = refl
