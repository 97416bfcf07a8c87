-- ===== src/Session/Methods.antt =====
-- electron/main/providers/sessionManager.ts: the methods of SessionManager, for one project.
use agent_cockpit.Base.{ℕ, suc, Bool, true, false, not, ◌&&◌, Option, none, some, [], ◌∷◌, ◌++◌}
use agent_cockpit.Base.{Text, if◌then◌else◌}
use agent_cockpit.Connection.{
  ConnectionState, disconnected, connecting, connected, reconnecting, failed,
}
use agent_cockpit.Reaper.{is_connected}
use agent_cockpit.Session.{
  Provider, WatchSubscription, WorktreeWatch, ConnectionSpec, SessionManagerDeps, Session,
  sent_status, unsubscribed, started_callback, stopped_callback, evicted, persisted_active,
  disconnecting, starting_watch, stopping_watch, switching, starting_worktree, starting_callback,
  opening, awaiting_callback, closing_old, Step, ◌>>◌, strip_trailing_slash, is_external_path,
  is_local, is_current, same_number, same_path, or_zero,
}

abbrev pub stay : Session → Step
stay s = (s, [], [])

-- By the entry of `watchSubs` and the provider.
abbrev pub start_watch_from : Option WatchSubscription → Option Provider → Session → Step
start_watch_from (some old) p s = stay s
start_watch_from none none s = stay s
start_watch_from none (some p) s = (s, [], starting_watch p ∷ [])

unfoldable pub start_watch : Session → Step
start_watch s = start_watch_from s.watch_sub s.provider s

-- `subscribeWatch` has answered.
unfoldable pub watch_started : Provider → WatchSubscription → Session → Step
watch_started p sub s =
    if not (is_current s.provider p)
    then (s, unsubscribed sub ∷ [], [])
    else stay (record s { watch_sub = some sub })

abbrev pub stop_worktree_from : Option WorktreeWatch → Session → Step
stop_worktree_from none s = stay s
stop_worktree_from (some w) s = (record s { worktree_sub = none }, unsubscribed w.sub ∷ [], [])

unfoldable pub stop_worktree_watch : Session → Step
stop_worktree_watch s = stop_worktree_from s.worktree_sub s

-- With an entry, the worktree's watch is stopped only after the `await`.
abbrev pub stop_watch_from : Option WatchSubscription → Session → Step
stop_watch_from (some sub) s =
    (record s { watch_sub = none }, unsubscribed sub ∷ [], stopping_watch ∷ [])
stop_watch_from none s = stop_worktree_watch s

unfoldable pub stop_watch : Session → Step
stop_watch s = stop_watch_from s.watch_sub s

unfoldable pub callback_settled : ℕ → Session → Session
callback_settled promise s =
    if same_number s.callback_start promise then record s { callback_start = none } else s

-- The end of `open`, and of `activate`.
unfoldable pub opened : Bool → Session → Step
opened activating s =
    if activating then (record s { active = true }, persisted_active true ∷ [], []) else stay s

abbrev pub disconnect_from : Option Provider → Session → Step
disconnect_from none s = stay s
disconnect_from (some p) s = (s, disconnecting p ∷ [], [])

unfoldable pub disconnect : Session → Step
disconnect s = disconnect_from s.provider s

-- `setActiveWorktree` up to its first `await`; nothing is left to do there for `null`.
abbrev pub switch_to : Option Text → Session → Step
switch_to none s =
    stop_worktree_watch (record s { worktree_seq = some (suc (or_zero s.worktree_seq)) })
switch_to (some path) s =
    stop_worktree_watch (record s { worktree_seq = some (suc (or_zero s.worktree_seq)) }) >> λ t.
    (t, [], switching path (suc (or_zero s.worktree_seq)) ∷ [])

unfoldable pub normalized : Option Text → Option Text
normalized none = none
normalized (some []) = none
normalized (some (c ∷ cs)) = some (strip_trailing_slash (c ∷ cs))

unfoldable pub set_active_worktree : Option Text → Session → Step
set_active_worktree path s =
    if same_path s.worktree_sub (normalized path) then stay s else switch_to (normalized path) s

-- `subscribeWorktreeWatch` has answered.
unfoldable pub worktree_started : Provider → Text → ℕ → WatchSubscription → Session → Step
worktree_started p path seq sub s =
    if not (is_current s.provider p && same_number s.worktree_seq seq)
    then (s, unsubscribed sub ∷ [], [])
    else stay (record s { worktree_sub = some (record { path = path; sub = sub }) })

unfoldable pub touch : ℕ → Session → Session
touch now s = record s { activity = some now }

module _ (deps : SessionManagerDeps) where
  unfoldable pub stop_callback : Session → Step
  stop_callback s = (s, if deps.callback then stopped_callback ∷ [] else [], [])

  -- `startCallback` up to its `await`, and the entry for its promise.
  unfoldable pub track_callback_start : Session → Step
  track_callback_start s = (
    record s { callback_start = some s.next_promise; next_promise = suc s.next_promise },
    if deps.callback && is_local s.provider then started_callback ∷ [] else [],
    starting_callback s.next_promise ∷ [],
  )

  -- By the new state, and whether the state before was `connected`.
  abbrev pub status_step : ConnectionState → Bool → Session → Step
  status_step connected true s = stay s
  status_step connected false s = start_watch s >> track_callback_start
  status_step disconnected was s = stop_watch s >> stop_callback
  status_step failed was s = stop_watch s >> stop_callback
  status_step connecting was s = stay s
  status_step reconnecting was s = stay s

  unfoldable pub handle_status : ConnectionState → Session → Step
  handle_status st s =
      (record s { last_state = some st }, sent_status st ∷ [], [])
      >> status_step st (is_connected s.last_state)

  unfoldable pub notify_eviction : Session → Step
  notify_eviction s = stop_watch s >> stop_callback >> λ t.
      (record t { last_state = none; worktree_seq = none }, evicted ∷ [], [])

  -- The eviction, `sessions.delete` and `unwireStatus` that closing, reconnecting and a failed connect
  -- share.
  unfoldable pub evict : Session → Step
  evict s = notify_eviction s >> λ t. stay (record t { provider = none; wired = none })

  -- `open`, up to its first `await`, with the provider that `registry.create` makes, its state and the clock.
  abbrev pub open_from :
      Option Provider
      → Option ConnectionSpec
      → Provider
      → ConnectionState
      → ℕ
      → Bool
      → Session
      → Step
  open_from (some old) spec fresh st now activating s = (s, [], awaiting_callback activating ∷ [])
  open_from none none fresh st now activating s = stay s
  open_from none (some spec) fresh st now activating s =
      handle_status st
        (record s { provider = some fresh; activity = some now; wired = some fresh.id })
      >> λ t. (t, [], opening fresh activating ∷ [])

  unfoldable pub open_session : Provider → ConnectionState → ℕ → Bool → Session → Step
  open_session fresh st now activating s = open_from s.provider deps.spec fresh st now activating s

  abbrev pub listen_from : Option Provider → ConnectionState → Session → Step
  listen_from none st s = stay s
  listen_from (some p) st s = handle_status st (record s { wired = some p.id })

  -- With the provider's state.
  unfoldable pub set_status_listener : ConnectionState → Session → Step
  set_status_listener st s = listen_from s.provider st s

  unfoldable pub connect_failed : Provider → Session → Step
  connect_failed p s = evict s >> λ t. (t, disconnecting p ∷ [], [])

  abbrev pub reconnect_from : Option Provider → Provider → ConnectionState → ℕ → Session → Step
  reconnect_from none fresh st now s = open_session fresh st now true s
  reconnect_from (some p) fresh st now s =
      evict s >> λ t. (t, disconnecting p ∷ [], closing_old ∷ [])

  unfoldable pub reconnect : Provider → ConnectionState → ℕ → Session → Step
  reconnect fresh st now s = reconnect_from s.provider fresh st now s

  -- With a detail, the annotated status is sent first.
  abbrev pub close_from : Option Provider → Bool → Session → Step
  close_from none detailed s = stay s
  close_from (some p) detailed s =
      (s, if detailed then sent_status disconnected ∷ [] else [], []) >> evict >> λ t. (
        record t { activity = none; active = false },
        (if t.active then persisted_active false ∷ [] else []) ++ disconnecting p ∷ [],
        [],
      )

  unfoldable pub close : Bool → Session → Step
  close detailed s = close_from s.provider detailed s

  -- Between its two `await`s.
  abbrev pub establish_from : Option ConnectionSpec → Option Provider → Text → ℕ → Session → Step
  establish_from none p path seq s = stay s
  establish_from (some spec) none path seq s = stay s
  establish_from (some spec) (some p) path seq s =
      if not (is_external_path path (strip_trailing_slash spec.root))
      then stay s
      else (s, [], starting_worktree p path seq ∷ [])

  unfoldable pub establish : Text → ℕ → Session → Step
  establish path seq s = establish_from deps.spec s.provider path seq s
