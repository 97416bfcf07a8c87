-- ===== src/Session/Runs.antt =====
-- A session among its callers, its provider and its promises, in any order: what an event does to it.
use agent_cockpit.Base.{ℕ, zero, suc, Bool, true, false, Option, none, some, List, [], ◌∷◌, ◌++◌}
use agent_cockpit.Base.{Text, if◌then◌else◌, get_elem?}
use agent_cockpit.Connection.{ConnectionState}
use agent_cockpit.Session.{
  Provider, SessionManagerDeps, Session, Effect, Call, starting_watch, stopping_watch, switching,
  starting_worktree, starting_callback, opening, awaiting_callback, closing_old, Step, same_number,
}
use agent_cockpit.Session.Methods.{
  stay, watch_started, stop_worktree_watch, callback_settled, handle_status, open_session, opened,
  connect_failed, disconnect, reconnect, close, set_active_worktree, establish, worktree_started,
  touch, set_status_listener,
}

-- What the rest of the program answers: whether a promise is fulfilled, the token of a subscription, the provider
-- that `registry.create` makes, its state and the clock.
pub record Answer : Type 0 where
  pub fulfilled : Bool
  pub token : ℕ
  pub fresh : Provider
  pub state : ConnectionState
  pub now : ℕ

pub record World : Type 0 where
  pub session : Session
  pub calls : List Call
  pub log : List Effect

pub data Event : Type 0 where
  opens : Bool → Answer → Event
  -- A provider reports its state.
  emits : ℕ → ConnectionState → Event
  listens : ConnectionState → Event
  closes : Bool → Event
  disconnects : Event
  reconnects : Answer → Event
  switches : Option Text → Event
  touches : ℕ → Event
  -- Another project is activated.
  leaves : Event
  -- The call with this place among those in flight settles.
  settles : ℕ → Answer → Event

unfoldable pub remove_at : ℕ → List Call → List Call
remove_at i [] = []
remove_at zero (c ∷ cs) = cs
remove_at (suc i) (c ∷ cs) = c ∷ remove_at i cs

module _ (deps : SessionManagerDeps) where
  -- The code after the `await` of a call.
  unfoldable pub resume : Answer → Call → Session → Step
  resume a (starting_watch p) s =
      if a.fulfilled then watch_started p (record { owner = p.id; token = a.token }) s else stay s
  resume a stopping_watch s = stop_worktree_watch s
  resume a (switching path seq) s = establish deps path seq s
  resume a (starting_worktree p path seq) s =
      if a.fulfilled
      then worktree_started p path seq (record { owner = p.id; token = a.token }) s
      else stay s
  resume a (starting_callback promise) s = stay (callback_settled promise s)
  resume a (opening p activating) s =
      if a.fulfilled then (s, [], awaiting_callback activating ∷ []) else connect_failed deps p s
  resume a (awaiting_callback activating) s = opened activating s
  resume a closing_old s = open_session deps a.fresh a.state a.now true s

  unfoldable pub perform : Event → Session → Step
  perform (opens activating a) s = open_session deps a.fresh a.state a.now activating s
  perform (emits id st) s = if same_number s.wired id then handle_status deps st s else stay s
  perform (listens st) s = set_status_listener deps st s
  perform (closes detailed) s = close deps detailed s
  perform disconnects s = disconnect s
  perform (reconnects a) s = reconnect deps a.fresh a.state a.now s
  perform (switches path) s = set_active_worktree path s
  perform (touches now) s = stay (touch now s)
  perform leaves s = stay (record s { active = false })
  perform (settles i a) s = stay s

  abbrev pub settle_from : Option Call → ℕ → Answer → Session → Step
  settle_from none i a s = stay s
  settle_from (some c) i a s = resume a c s

  -- What is left of the calls, and the step.
  abbrev pub react : Event → World → List Call × Step
  react (settles i a) w = (remove_at i w.calls, settle_from (get_elem? w.calls i) i a w.session)
  react e w = (w.calls, perform e w.session)

  unfoldable pub happen : Event → World → World
  happen e w = record {
    session = (react e w).1.0;
    calls = (react e w).0 ++ (react e w).1.2;
    log = w.log ++ (react e w).1.1;
  }

  unfoldable pub history : List Event → World → World
  history [] w = w
  history (e ∷ es) w = history es (happen e w)
