-- ===== src/Session/Races.antt =====
-- Interleavings that leave a session in a state that it does not mean to reach.
use agent_cockpit.Base.{
  suc, ◌≡◌, ◌≢◌, refl, Bool, true, false, ◌||◌, ◌==◌, none, some, List, [], ◌∷◌, ◌++◌, arith, Text,
}
use agent_cockpit.Connection.{disconnected, connecting, connected, reconnecting}
use agent_cockpit.Session.{
  Provider, WatchSubscription, ConnectionSpec, SessionManagerDeps, Session, Effect, sent_status,
  unsubscribed, disconnecting, starting_watch, switching, starting_worktree, starting_callback,
  is_external_path, strip_trailing_slash, started_callback, stopped_callback, evicted,
  persisted_active, or_zero,
}
use agent_cockpit.Session.Methods.{
  stay, start_watch, watch_started, stop_worktree_watch, stop_watch, stop_callback,
  track_callback_start, handle_status, notify_eviction, evict, connect_failed, set_active_worktree,
  normalized, establish, worktree_started,
}
use agent_cockpit.Session.Edges.{Released}

normalized-none : normalized none ≡ none
unfolding normalized
normalized-none = refl

-- A call of the provider's `disconnect` is among the effects.
abbrev pub disconnects : Provider → List Effect → Bool
disconnects q [] = false
disconnects q (sent_status _ ∷ es) = disconnects q es
disconnects q (unsubscribed _ ∷ es) = disconnects q es
disconnects q (started_callback ∷ es) = disconnects q es
disconnects q (stopped_callback ∷ es) = disconnects q es
disconnects q (evicted ∷ es) = disconnects q es
disconnects q (persisted_active _ ∷ es) = disconnects q es
disconnects q (disconnecting p ∷ es) = q.id == p.id || disconnects q es

module _ (deps : SessionManagerDeps) where
  -- A connection that drops and comes back while the first watch is being started starts a second one. When both
  -- are answered, the session holds the second, and nothing has unsubscribed the first.
  pub two_starts :
      (p : Provider) (x y : WatchSubscription) (s : Session)
      → s.provider ≡ some p
      → s.watch_sub ≡ none
      → s.last_state ≡ some connecting
      → let a = handle_status deps connected s in
        let b = handle_status deps reconnecting a.0 in
        let c = handle_status deps connected b.0 in
        let d = watch_started p x c.0 in
        let e = watch_started p y d.0 in
        (a.2 ≡ starting_watch p ∷ starting_callback s.next_promise ∷ [])
        × (c.2 ≡ starting_watch p ∷ starting_callback (suc s.next_promise) ∷ [])
        × (e.0.watch_sub ≡ some y)
        × (x ≢ y → ¬ Released x (a.1 ++ (b.1 ++ (c.1 ++ (d.1 ++ e.1)))))
  unfolding handle_status start_watch track_callback_start watch_started
  two_starts p x y s hp hw hl = ground arith

  -- A session that is disconnected while its watch is being started holds the watch afterwards.
  pub watch_after_disconnected :
      (p : Provider) (x : WatchSubscription) (s : Session)
      → s.provider ≡ some p
      → let t = watch_started p x (handle_status deps disconnected s).0 in
        (t.0.last_state ≡ some disconnected) × (t.0.watch_sub ≡ some x)
  unfolding handle_status stop_watch stop_worktree_watch stop_callback watch_started
  watch_after_disconnected p x s hp = ground arith

  -- The failure of an attempt that belongs to an older provider takes the session from the present one, and
  -- disconnects only the older.
  pub connect_failed_late :
      (p q : Provider) (s : Session)
      → s.provider ≡ some q
      → q.id ≢ p.id
      → let t = connect_failed deps p s in
        (t.0.provider ≡ none)
        × (t.0.wired ≡ none)
        × (disconnects q t.1 ≡ false)
        × (disconnects p t.1 ≡ true)
  unfolding connect_failed evict notify_eviction stop_watch stop_worktree_watch stop_callback
  connect_failed_late p q s hp hq = ground arith

  -- A selection that is taken back while its watch is being started is not: the second call changes nothing, and
  -- the watch of the worktree that is no longer selected is held.
  pub set_active_worktree_taken_back :
      (path root : Text) (p : Provider) (x : WatchSubscription) (spec : ConnectionSpec)
      (s : Session)
      → deps.spec ≡ some spec
      → s.provider ≡ some p
      → s.worktree_sub ≡ none
      → normalized (some path) ≡ some root
      → is_external_path root (strip_trailing_slash spec.root) ≡ true
      → let a = set_active_worktree (some path) s in
        let seq = suc (or_zero s.worktree_seq) in
        let b = establish deps root seq a.0 in
        let c = set_active_worktree none b.0 in
        let d = worktree_started p root seq x c.0 in
        (a.2 ≡ switching root seq ∷ [])
        × (b.2 ≡ starting_worktree p root seq ∷ [])
        × (c ≡ stay b.0)
        × (d.0.worktree_sub ≡ some (record { path = root; sub = x }))
  unfolding set_active_worktree stop_worktree_watch establish worktree_started
  set_active_worktree_taken_back path root p x spec s hs hp hw hn he =
      ground (arith, normalized-none)
