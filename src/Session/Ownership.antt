-- ===== src/Session/Ownership.antt =====
-- A session holds only subscriptions of its own provider.
use agent_cockpit.Base.{
  ℕ, zero, suc, ◌≡◌, refl, ap, Bool, true, false, ◌||◌, Option, none, some, List, [], ◌∷◌, ◌++◌,
  arith,
}
use agent_cockpit.Base.{Text, get_elem?, any, ◌⊎◌}
use agent_cockpit.Connection.{
  ConnectionState, disconnected, connecting, connected, reconnecting, failed,
}
use agent_cockpit.Session.{
  Provider, WatchSubscription, WorktreeWatch, SessionManagerDeps, Session, Call, starting_watch,
  stopping_watch, switching, starting_worktree, starting_callback, opening, awaiting_callback,
  closing_old, Step,
}
use agent_cockpit.Session.Methods.{
  start_watch, watch_started, stop_worktree_watch, stop_watch, stop_callback, track_callback_start,
  callback_settled, handle_status, notify_eviction, evict, open_session, opened, connect_failed,
  disconnect, reconnect, close, set_active_worktree, establish, worktree_started, touch,
  set_status_listener,
}
use agent_cockpit.Session.Runs.{
  Answer, World, Event, remove_at, resume, perform, settle_from, happen, history, opens, emits,
  listens, closes, disconnects, reconnects, switches, touches, leaves, settles,
}

abbrev pub owner_of : Option Provider → Option ℕ
owner_of none = none
owner_of (some p) = some p.id

abbrev pub WatchIsOwn : Option WatchSubscription → Option Provider → Type 0
WatchIsOwn none p = Unit {0}
WatchIsOwn (some x) p = owner_of p ≡ some x.owner

-- Or the stop of the watch is on its way.
abbrev pub WorktreeIsOwn : Option WorktreeWatch → Option Provider → Bool → Type 0
WorktreeIsOwn none p stops = Unit {0}
WorktreeIsOwn (some x) p stops = (owner_of p ≡ some x.sub.owner) ⊎ (stops ≡ true)

abbrev is_stopping : Call → Bool
is_stopping (starting_watch _) = false
is_stopping stopping_watch = true
is_stopping (switching _ _) = false
is_stopping (starting_worktree _ _ _) = false
is_stopping (starting_callback _) = false
is_stopping (opening _ _) = false
is_stopping (awaiting_callback _) = false
is_stopping closing_old = false

abbrev pub IsOwn : Session → Bool → Type 0
IsOwn s stops = WatchIsOwn s.watch_sub s.provider × WorktreeIsOwn s.worktree_sub s.provider stops

abbrev Keeps : (Session → Step) → Type 0
Keeps f = (s : Session) (b : Bool) → IsOwn s b → IsOwn (f s).0 (b || any is_stopping (f s).2)

start_watch-Keeps : Keeps start_watch
unfolding start_watch
start_watch-Keeps s b h = ground arith

watch_started-Keeps :
    (p : Provider) (t : ℕ) → Keeps (watch_started p (record { owner = p.id; token = t }))
unfolding watch_started
watch_started-Keeps p t s b h = ground arith

stop_worktree_watch-Keeps : Keeps stop_worktree_watch
unfolding stop_worktree_watch
stop_worktree_watch-Keeps s b h = ground arith

stop_watch-Keeps : Keeps stop_watch
unfolding stop_watch stop_worktree_watch
stop_watch-Keeps s b h = ground arith

module _ (deps : SessionManagerDeps) where
  evict-Keeps : Keeps (evict deps)
  unfolding evict notify_eviction stop_callback stop_watch stop_worktree_watch
  evict-Keeps s b h = ground arith

  handle_status-Keeps : (st : ConnectionState) → Keeps (handle_status deps st)
  unfolding handle_status stop_callback stop_watch stop_worktree_watch start_watch
      track_callback_start
  handle_status-Keeps connecting s b h = ground arith
  handle_status-Keeps connected s b h = ground arith
  handle_status-Keeps reconnecting s b h = ground arith
  handle_status-Keeps disconnected s b h = ground arith
  handle_status-Keeps failed s b h = ground arith

  open_session-Keeps :
      (p : Provider) (st : ConnectionState) (now : ℕ) (act : Bool)
      → Keeps (open_session deps p st now act)
  unfolding open_session handle_status stop_callback stop_watch stop_worktree_watch start_watch
      track_callback_start
  open_session-Keeps p connecting now act s b h = ground arith
  open_session-Keeps p connected now act s b h = ground arith
  open_session-Keeps p reconnecting now act s b h = ground arith
  open_session-Keeps p disconnected now act s b h = ground arith
  open_session-Keeps p failed now act s b h = ground arith

  close-Keeps : (detailed : Bool) → Keeps (close deps detailed)
  unfolding close evict notify_eviction stop_callback stop_watch stop_worktree_watch
  close-Keeps detailed s b h = ground arith

  reconnect-Keeps :
      (p : Provider) (st : ConnectionState) (now : ℕ) → Keeps (reconnect deps p st now)
  unfolding reconnect evict notify_eviction stop_callback stop_watch stop_worktree_watch
  reconnect-Keeps p st now s b h = ground (arith, open_session-Keeps p st now true s b)

  set_status_listener-Keeps : (st : ConnectionState) → Keeps (set_status_listener deps st)
  unfolding set_status_listener
  set_status_listener-Keeps st s b h =
      ground (arith, handle_status-Keeps st (record s { wired = owner_of s.provider }) b)

  connect_failed-Keeps : (p : Provider) → Keeps (connect_failed deps p)
  unfolding connect_failed evict notify_eviction stop_callback stop_watch stop_worktree_watch
  connect_failed-Keeps p s b h = ground arith

  establish-Keeps : (path : Text) (seq : ℕ) → Keeps (establish deps path seq)
  unfolding establish
  establish-Keeps path seq s b h = ground arith

set_active_worktree-Keeps : (path : Option Text) → Keeps (set_active_worktree path)
unfolding set_active_worktree stop_worktree_watch
set_active_worktree-Keeps path s b h = ground arith

worktree_started-Keeps :
    (p : Provider) (path : Text) (seq t : ℕ)
    → Keeps (worktree_started p path seq (record { owner = p.id; token = t }))
unfolding worktree_started
worktree_started-Keeps p path seq t s b h = ground arith

opened-Keeps : (act : Bool) → Keeps (opened act)
unfolding opened
opened-Keeps act s b h = ground arith

disconnect-Keeps : Keeps disconnect
unfolding disconnect
disconnect-Keeps s b h = ground arith

callback_settled-IsOwn :
    (n : ℕ) (s : Session) (b : Bool) → IsOwn s b → IsOwn (callback_settled n s) b
unfolding callback_settled
callback_settled-IsOwn n s b h = ground arith

stopping-IsOwn :
    (s : Session) (b : Bool)
    → IsOwn s true
    → IsOwn (stop_worktree_watch s).0 (b || any is_stopping (stop_worktree_watch s).2)
unfolding stop_worktree_watch
stopping-IsOwn s b h = ground arith

or_false : (b : Bool) → (b || false) ≡ b
or_false b = ground arith

any-append :
    (cs ds : List Call) → any is_stopping (cs ++ ds) ≡ (any is_stopping cs || any is_stopping ds)
any-append [] ds = refl
any-append (c ∷ cs) ds = ground (arith, any-append cs ds)

any-remove_at :
    (i : ℕ) (cs : List Call) (c : Call)
    → get_elem? cs i ≡ some c
    → any is_stopping cs ≡ (is_stopping c || any is_stopping (remove_at i cs))
unfolding remove_at
any-remove_at i [] c h = cc
any-remove_at zero (d ∷ cs) c h = ground arith
any-remove_at (suc i) (d ∷ cs) c h = ground (arith, any-remove_at i cs c h)

remove_at-none : (i : ℕ) (cs : List Call) → get_elem? cs i ≡ none → remove_at i cs ≡ cs
unfolding remove_at
remove_at-none i [] h = refl
remove_at-none zero (d ∷ cs) h = cc
remove_at-none (suc i) (d ∷ cs) h = ap (λ ds. d ∷ ds) (remove_at-none i cs h)

-- The subscriptions that a session holds are its provider's.
abbrev pub HoldsOwn : World → Type 0
HoldsOwn w = IsOwn w.session (any is_stopping w.calls)

module _ (deps : SessionManagerDeps) where
  resume-Keeps :
      (a : Answer) (c : Call) (s : Session) (b : Bool)
      → IsOwn s (is_stopping c || b)
      → IsOwn (resume deps a c s).0 (b || any is_stopping (resume deps a c s).2)
  unfolding resume
  resume-Keeps a (starting_watch p) s b h = ground (arith, watch_started-Keeps p a.token s b h)
  resume-Keeps a stopping_watch s b h = stopping-IsOwn s b h
  resume-Keeps a (switching path seq) s b h = establish-Keeps deps path seq s b h
  resume-Keeps a (starting_worktree p path seq) s b h =
      ground (arith, worktree_started-Keeps p path seq a.token s b h)
  resume-Keeps a (starting_callback n) s b h = rw or_false (callback_settled-IsOwn n s b h)
  resume-Keeps a (opening p act) s b h = ground (arith, connect_failed-Keeps deps p s b h)
  resume-Keeps a (awaiting_callback act) s b h = opened-Keeps act s b h
  resume-Keeps a closing_old s b h = open_session-Keeps deps a.fresh a.state a.now true s b h

  perform-Keeps : (e : Event) → Keeps (perform deps e)
  unfolding perform touch
  perform-Keeps (opens act a) s b h = open_session-Keeps deps a.fresh a.state a.now act s b h
  perform-Keeps (emits id st) s b h = ground (arith, handle_status-Keeps deps st s b h)
  perform-Keeps (listens st) s b h = set_status_listener-Keeps deps st s b h
  perform-Keeps (closes detailed) s b h = close-Keeps deps detailed s b h
  perform-Keeps disconnects s b h = disconnect-Keeps s b h
  perform-Keeps (reconnects a) s b h = reconnect-Keeps deps a.fresh a.state a.now s b h
  perform-Keeps (switches path) s b h = set_active_worktree-Keeps path s b h
  perform-Keeps (touches now) s b h = rw or_false h
  perform-Keeps leaves s b h = rw or_false h
  perform-Keeps (settles i a) s b h = rw or_false h

  settle-HoldsOwn :
      (c : Option Call) (i : ℕ) (a : Answer) (w : World)
      → get_elem? w.calls i ≡ c
      → HoldsOwn w
      → IsOwn (settle_from deps c i a w.session).0 (
          any is_stopping (remove_at i w.calls)
          || any is_stopping (settle_from deps c i a w.session).2)
  settle-HoldsOwn none i a w e h = rw (or_false, remove_at-none i w.calls e) h
  settle-HoldsOwn (some c) i a w e h =
      resume-Keeps a c w.session (any is_stopping (remove_at i w.calls))
        (rw (any-remove_at i w.calls c e) at h)

  happen-HoldsOwn : (e : Event) (w : World) → HoldsOwn w → HoldsOwn (happen deps e w)
  unfolding happen
  happen-HoldsOwn (opens act a) w h = rw any-append (perform-Keeps (opens act a) w.session _ h)
  happen-HoldsOwn (emits id st) w h = rw any-append (perform-Keeps (emits id st) w.session _ h)
  happen-HoldsOwn (listens st) w h = rw any-append (perform-Keeps (listens st) w.session _ h)
  happen-HoldsOwn (closes d) w h = rw any-append (perform-Keeps (closes d) w.session _ h)
  happen-HoldsOwn disconnects w h = rw any-append (perform-Keeps disconnects w.session _ h)
  happen-HoldsOwn (reconnects a) w h = rw any-append (perform-Keeps (reconnects a) w.session _ h)
  happen-HoldsOwn (switches p) w h = rw any-append (perform-Keeps (switches p) w.session _ h)
  happen-HoldsOwn (touches n) w h = rw any-append (perform-Keeps (touches n) w.session _ h)
  happen-HoldsOwn leaves w h = rw any-append (perform-Keeps leaves w.session _ h)
  happen-HoldsOwn (settles i a) w h =
      rw any-append (settle-HoldsOwn (get_elem? w.calls i) i a w refl h)

  -- Whatever is opened, reported, closed, switched and answered, in any order, a session without a provider holds
  -- no watch of its root, and one with a provider only one that this provider made; an extra watch of a
  -- worktree is the provider's too, or its stop is on the way.
  pub history-HoldsOwn : (es : List Event) (w : World) → HoldsOwn w → HoldsOwn (history deps es w)
  unfolding history
  history-HoldsOwn [] w h = h
  history-HoldsOwn (e ∷ es) w h = history-HoldsOwn es (happen deps e w) (happen-HoldsOwn e w h)
