-- ===== src/Session/Edges.antt =====
-- When a status starts a watch, and that a held watch is never lost in silence.
use agent_cockpit.Base.{
  ℕ, ◌≡◌, Bool, true, false, not, ◌&&◌, Option, none, some, List, [], ◌∷◌, arith, any, ◌⊎◌, inl,
  inr, get_elem?,
}
use agent_cockpit.Base.{is_some}
use agent_cockpit.Connection.{
  ConnectionState, disconnected, connecting, connected, reconnecting, failed,
}
use agent_cockpit.Reaper.{is_connected}
use agent_cockpit.Session.{
  Provider, WatchSubscription, SessionManagerDeps, Session, Effect, sent_status, unsubscribed,
  started_callback, stopped_callback, evicted, persisted_active, disconnecting, Call,
  starting_watch, stopping_watch, switching, starting_worktree, starting_callback, opening,
  awaiting_callback, closing_old, Step,
}
use agent_cockpit.Session.Methods.{
  start_watch, stop_worktree_watch, stop_watch, stop_callback, track_callback_start,
  callback_settled, handle_status, notify_eviction, evict, open_session, opened, connect_failed,
  disconnect, reconnect, close, set_active_worktree, establish, worktree_started, touch,
  set_status_listener,
}
use agent_cockpit.Session.Ownership.{owner_of}
use agent_cockpit.Session.Runs.{
  Answer, World, Event, resume, perform, react, settle_from, opens, emits, listens, closes,
  disconnects, reconnects, switches, touches, leaves, settles,
}

abbrev pub is_start : Call → Bool
is_start (starting_watch _) = true
is_start stopping_watch = false
is_start (switching _ _) = false
is_start (starting_worktree _ _ _) = false
is_start (starting_callback _) = false
is_start (opening _ _) = false
is_start (awaiting_callback _) = false
is_start closing_old = false

-- Among the effects.
abbrev pub Released : WatchSubscription → List Effect → Type 0
Released x [] = ⊥
Released x (sent_status _ ∷ es) = Released x es
Released x (unsubscribed y ∷ es) = (x ≡ y) ⊎ Released x es
Released x (started_callback ∷ es) = Released x es
Released x (stopped_callback ∷ es) = Released x es
Released x (evicted ∷ es) = Released x es
Released x (persisted_active _ ∷ es) = Released x es
Released x (disconnecting _ ∷ es) = Released x es

abbrev Guards : WatchSubscription → (Session → Step) → Type 0
Guards x f =
    (s : Session) → s.watch_sub ≡ some x → ((f s).0.watch_sub ≡ some x) ⊎ Released x (f s).1

-- A call that starts a watch of the root, answered with one.
abbrev pub IsStarted : Option Call → Answer → Type 0
IsStarted none a = ⊥
IsStarted (some (starting_watch p)) a = a.fulfilled ≡ true
IsStarted (some stopping_watch) a = ⊥
IsStarted (some (switching _ _)) a = ⊥
IsStarted (some (starting_worktree _ _ _)) a = ⊥
IsStarted (some (starting_callback _)) a = ⊥
IsStarted (some (opening _ _)) a = ⊥
IsStarted (some (awaiting_callback _)) a = ⊥
IsStarted (some closing_old) a = ⊥

-- The event answers the start of a watch of the root.
abbrev pub Answers : Event → World → Type 0
Answers (opens act a) w = ⊥
Answers (emits id st) w = ⊥
Answers (listens st) w = ⊥
Answers (closes detailed) w = ⊥
Answers disconnects w = ⊥
Answers (reconnects a) w = ⊥
Answers (switches path) w = ⊥
Answers (touches now) w = ⊥
Answers leaves w = ⊥
Answers (settles i a) w = IsStarted (get_elem? w.calls i) a

forget : {A B C : Type 0} → A ⊎ B → A ⊎ (B ⊎ C)
forget (inl a) = inl a
forget (inr b) = inr (inl b)

module _ (deps : SessionManagerDeps) where
  -- A reported state starts the watch of the root exactly on the edge into `connected`, when the session has a
  -- provider and no watch. So the same state again, right after, starts none.
  pub handle_status_edge :
      (st : ConnectionState) (s : Session)
      → (any is_start (handle_status deps st s).2 ≡ (
          is_connected (some st)
          && not (is_connected s.last_state)
          && (is_some s.provider && not (is_some s.watch_sub))))
        × (any is_start (handle_status deps st (handle_status deps st s).0).2 ≡ false)
  unfolding handle_status stop_callback stop_watch stop_worktree_watch start_watch
      track_callback_start
  handle_status_edge connecting s = ground arith
  handle_status_edge connected s = ground arith
  handle_status_edge reconnecting s = ground arith
  handle_status_edge disconnected s = ground arith
  handle_status_edge failed s = ground arith

  module _ (x : WatchSubscription) where
    handle_status-Guards : (st : ConnectionState) → Guards x (handle_status deps st)
    unfolding handle_status stop_callback stop_watch stop_worktree_watch start_watch
        track_callback_start
    handle_status-Guards connecting s h = ground arith
    handle_status-Guards connected s h = ground arith
    handle_status-Guards reconnecting s h = ground arith
    handle_status-Guards disconnected s h = ground arith
    handle_status-Guards failed s h = ground arith

    evict-Guards : Guards x (evict deps)
    unfolding evict notify_eviction stop_callback stop_watch stop_worktree_watch
    evict-Guards s h = ground arith

    open_session-Guards :
        (p : Provider) (st : ConnectionState) (now : ℕ) (act : Bool)
        → Guards x (open_session deps p st now act)
    unfolding open_session handle_status stop_callback stop_watch stop_worktree_watch start_watch
        track_callback_start
    open_session-Guards p connecting now act s h = ground arith
    open_session-Guards p connected now act s h = ground arith
    open_session-Guards p reconnecting now act s h = ground arith
    open_session-Guards p disconnected now act s h = ground arith
    open_session-Guards p failed now act s h = ground arith

    settle-Guards :
        (c : Option Call) (i : ℕ) (a : Answer) (s : Session)
        → s.watch_sub ≡ some x
        → ((settle_from deps c i a s).0.watch_sub ≡ some x)
          ⊎ (Released x (settle_from deps c i a s).1 ⊎ IsStarted c a)
    unfolding resume connect_failed evict notify_eviction stop_callback stop_watch
        stop_worktree_watch establish worktree_started opened callback_settled
    settle-Guards none i a s h = inl h
    settle-Guards (some (starting_watch p)) i a s h = ground arith
    settle-Guards (some stopping_watch) i a s h = ground arith
    settle-Guards (some (switching path seq)) i a s h = ground arith
    settle-Guards (some (starting_worktree p path seq)) i a s h = ground arith
    settle-Guards (some (starting_callback n)) i a s h = ground arith
    settle-Guards (some (opening p act)) i a s h = ground arith
    settle-Guards (some (awaiting_callback act)) i a s h = ground arith
    settle-Guards (some closing_old) i a s h =
        ground (arith, open_session-Guards a.fresh a.state a.now true s h)

    perform-Guards : (e : Event) → Guards x (perform deps e)
    unfolding perform set_status_listener close disconnect reconnect set_active_worktree touch evict
        notify_eviction stop_callback stop_watch stop_worktree_watch
    perform-Guards (opens act a) s h = open_session-Guards a.fresh a.state a.now act s h
    perform-Guards (emits id st) s h = ground (arith, handle_status-Guards st s h)
    perform-Guards (listens st) s h =
        ground (arith, handle_status-Guards st (record s { wired = owner_of s.provider }) h)
    perform-Guards (closes detailed) s h = ground arith
    perform-Guards disconnects s h = ground arith
    perform-Guards (reconnects a) s h =
        ground (arith, open_session-Guards a.fresh a.state a.now true s h)
    perform-Guards (switches path) s h = ground arith
    perform-Guards (touches now) s h = ground arith
    perform-Guards leaves s h = inl h
    perform-Guards (settles i a) s h = inl h

    -- A watch that is held stays so through every event, unless the event unsubscribes it, or it is the answer to
    -- another start of the same watch.
    pub react-watch_sub :
        (e : Event) (w : World)
        → w.session.watch_sub ≡ some x
        → ((react deps e w).1.0.watch_sub ≡ some x)
          ⊎ (Released x (react deps e w).1.1 ⊎ Answers e w)
    react-watch_sub (opens act a) w h = forget (perform-Guards (opens act a) w.session h)
    react-watch_sub (emits id st) w h = forget (perform-Guards (emits id st) w.session h)
    react-watch_sub (listens st) w h = forget (perform-Guards (listens st) w.session h)
    react-watch_sub (closes d) w h = forget (perform-Guards (closes d) w.session h)
    react-watch_sub disconnects w h = forget (perform-Guards disconnects w.session h)
    react-watch_sub (reconnects a) w h = forget (perform-Guards (reconnects a) w.session h)
    react-watch_sub (switches p) w h = forget (perform-Guards (switches p) w.session h)
    react-watch_sub (touches n) w h = forget (perform-Guards (touches n) w.session h)
    react-watch_sub leaves w h = forget (perform-Guards leaves w.session h)
    react-watch_sub (settles i a) w h = settle-Guards (get_elem? w.calls i) i a w.session h
