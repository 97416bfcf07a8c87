-- ===== src/Session/Tests.antt =====
-- A local project whose session is opened, dropped, closed and opened again.
use agent_cockpit.Base.{
  ℕ, ◌≡◌, refl, true, false, none, some, [], ◌∷◌, List, codes, arith, ◌≢◌, ◌⊎◌, ◌++◌,
}
use agent_cockpit.Connection.{connecting, connected, reconnecting}
use agent_cockpit.Reaper.{local}
use agent_cockpit.Session.{
  Provider, WatchSubscription, SessionManagerDeps, Session, starting_watch, starting_callback,
  switching, starting_worktree, strip_trailing_slash, is_external_path,
}
use agent_cockpit.Session.Methods.{
  start_watch, watch_started, stop_worktree_watch, stop_watch, stop_callback, track_callback_start,
  handle_status, notify_eviction, evict, connect_failed, set_active_worktree, normalized, establish,
  worktree_started, callback_settled, open_session, opened, close, touch, stay, disconnect,
  reconnect, set_status_listener,
}
use agent_cockpit.Session.Runs.{
  Answer, World, Event, opens, emits, closes, settles, happen, history, perform, resume, remove_at,
  react,
}
use agent_cockpit.Session.Ownership.{HoldsOwn, history-HoldsOwn}
use agent_cockpit.Session.Edges.{react-watch_sub, Released, Answers}
use agent_cockpit.Session.Races.{
  two_starts, connect_failed_late, set_active_worktree_taken_back, disconnects,
}

program : Unit {0}
unfolding start_watch watch_started stop_worktree_watch stop_watch stop_callback
    track_callback_start handle_status notify_eviction evict connect_failed set_active_worktree
    normalized establish worktree_started callback_settled open_session opened close touch
    disconnect reconnect set_status_listener happen history perform resume remove_at
    strip_trailing_slash is_external_path
program = tt

abbrev deps : SessionManagerDeps
deps = record { spec = some (record { kind = local; root = codes "/repo/" }); callback = true }

abbrev empty : Session
empty = record {
  provider = none;
  wired = none;
  activity = none;
  watch_sub = none;
  worktree_sub = none;
  worktree_seq = none;
  last_state = none;
  callback_start = none;
  active = false;
  next_promise = 0;
}

abbrev start : World
start = record { session = empty; calls = []; log = [] }

abbrev provider : ℕ → Provider
provider n = record { id = n; kind = local }

abbrev answer : ℕ → ℕ → Answer
answer token n = record {
  fulfilled = true;
  token = token;
  fresh = provider n;
  state = connecting;
  now = 5;
}

abbrev sub : ℕ → ℕ → WatchSubscription
sub n token = record { owner = n; token = token }

-- Opened, connected, its watch answered.
abbrev live : List Event
live = opens true (answer 0 1) ∷ emits 1 connected ∷ settles 1 (answer 8 0) ∷ []

held : (history deps live start).session.watch_sub ≡ some (sub 1 8)
unfolding program
held = refl

-- A second report of the same state starts nothing.
calm :
    (happen deps (emits 1 connected) (history deps live start)).calls
    ≡ (history deps live start).calls
unfolding program
calm = refl

closed : (happen deps (closes false) (history deps live start)).session.watch_sub ≡ none
unfolding program
closed = refl

-- The first attempt fails after a second provider was opened: its session is gone.
abbrev lost : List Event
lost =
    opens false (answer 0 1)
    ∷ closes false
    ∷ opens false (answer 0 2)
    ∷ settles 0
        (record { fulfilled = false; token = 0; fresh = provider 0; state = connecting; now = 0 })
    ∷ []

late : (history deps lost start).session.provider ≡ none
unfolding program
late = refl

history-HoldsOwn_example : HoldsOwn (history deps live start)
history-HoldsOwn_example = history-HoldsOwn deps live start (tt, tt)

abbrev opening_session : Session
opening_session = record empty {
  provider = some (provider 1);
  wired = some 1;
  last_state = some connecting;
}

abbrev watching : World
watching = record start { session = record opening_session { watch_sub = some (sub 1 8) } }

react-watch_sub_example :
    ((react deps (closes false) watching).1.0.watch_sub ≡ some (sub 1 8))
    ⊎ (Released (sub 1 8) (react deps (closes false) watching).1.1
        ⊎ Answers (closes false) watching)
react-watch_sub_example = react-watch_sub deps (sub 1 8) (closes false) watching refl

two_starts_example :
    let a = handle_status deps connected opening_session in
    let b = handle_status deps reconnecting a.0 in
    let c = handle_status deps connected b.0 in
    let d = watch_started (provider 1) (sub 1 8) c.0 in
    let e = watch_started (provider 1) (sub 1 9) d.0 in
    (a.2 ≡ starting_watch (provider 1) ∷ starting_callback 0 ∷ [])
    × (c.2 ≡ starting_watch (provider 1) ∷ starting_callback 1 ∷ [])
    × (e.0.watch_sub ≡ some (sub 1 9))
    × (sub 1 8 ≢ sub 1 9 → ¬ Released (sub 1 8) (a.1 ++ (b.1 ++ (c.1 ++ (d.1 ++ e.1)))))
two_starts_example = two_starts deps (provider 1) (sub 1 8) (sub 1 9) opening_session refl refl refl

connect_failed_late_example :
    let t = connect_failed deps (provider 0) opening_session in
    (t.0.provider ≡ none)
    × (t.0.wired ≡ none)
    × (disconnects (provider 1) t.1 ≡ false)
    × (disconnects (provider 0) t.1 ≡ true)
connect_failed_late_example =
    connect_failed_late deps (provider 0) (provider 1) opening_session refl (omega arith)

outside : normalized (some (codes "/wt/")) ≡ some (codes "/wt")
unfolding program
outside = refl

external : is_external_path (codes "/wt") (strip_trailing_slash (codes "/repo/")) ≡ true
unfolding program
external = refl

set_active_worktree_taken_back_example :
    let a = set_active_worktree (some (codes "/wt/")) opening_session in
    let b = establish deps (codes "/wt") 1 a.0 in
    let c = set_active_worktree none b.0 in
    let d = worktree_started (provider 1) (codes "/wt") 1 (sub 1 8) c.0 in
    (a.2 ≡ switching (codes "/wt") 1 ∷ [])
    × (b.2 ≡ starting_worktree (provider 1) (codes "/wt") 1 ∷ [])
    × (c ≡ stay b.0)
    × (d.0.worktree_sub ≡ some (record { path = codes "/wt"; sub = sub 1 8 }))
set_active_worktree_taken_back_example =
    set_active_worktree_taken_back deps (codes "/wt/") (codes "/wt") (provider 1) (sub 1 8)
      (record { kind = local; root = codes "/repo/" }) opening_session refl refl refl outside
      external
