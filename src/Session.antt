-- ===== src/Session.antt =====
-- electron/main/providers/sessionManager.ts: what the session manager keeps of one project, the entries of its
-- maps at the project's id, and its methods, cut at every `await`: a method gives the calls that it
-- starts, and `resume` is what stands after the `await` of one. A provider and a promise are numbers.
pub mod Methods
pub mod Runs
pub mod Ownership
pub mod Edges
pub mod Races
mod Tests
use agent_cockpit.Base.{
  ℕ, suc, Bool, true, false, not, ◌&&◌, ◌||◌, Option, none, some, List, [], ◌∷◌, ◌++◌,
}
use agent_cockpit.Base.{Text, codes, text_eq, starts_with, if◌then◌else◌, ltb, length, ◌==◌}
use agent_cockpit.Connection.{
  ConnectionState, disconnected, connecting, connected, reconnecting, failed,
}
use agent_cockpit.Reaper.{SessionKind, local, remote}

pub record Provider : Type 0 where
  pub id : ℕ
  pub kind : SessionKind

-- A subscription, with the provider that made it.
pub record WatchSubscription : Type 0 where
  pub owner : ℕ
  pub token : ℕ

pub record WorktreeWatch : Type 0 where
  pub path : Text
  pub sub : WatchSubscription

pub record ConnectionSpec : Type 0 where
  pub kind : SessionKind
  pub root : Text

-- What `loadSpec` gives for the project, and whether there is a callback lifecycle.
pub record SessionManagerDeps : Type 0 where
  pub spec : Option ConnectionSpec
  pub callback : Bool

-- The entries of `sessions`, `statusOff` (as the provider it listens to), `activityAt`, `watchSubs`,
-- `worktreeWatchSubs`, `worktreeWatchSeq`, `lastState` and `callbackStarts`, and whether the project is the
-- active one. The promises are numbered by `next_promise`.
pub record Session : Type 0 where
  pub provider : Option Provider
  pub wired : Option ℕ
  pub activity : Option ℕ
  pub watch_sub : Option WatchSubscription
  pub worktree_sub : Option WorktreeWatch
  pub worktree_seq : Option ℕ
  pub last_state : Option ConnectionState
  pub callback_start : Option ℕ
  pub active : Bool
  pub next_promise : ℕ

-- What a method does to others.
pub data Effect : Type 0 where
  sent_status : ConnectionState → Effect
  unsubscribed : WatchSubscription → Effect
  started_callback : Effect
  stopped_callback : Effect
  evicted : Effect
  persisted_active : Bool → Effect
  disconnecting : Provider → Effect

-- A promise that a method waits for, with what it needs afterwards.
pub data Call : Type 0 where
  starting_watch : Provider → Call
  stopping_watch : Call
  switching : Text → ℕ → Call
  starting_worktree : Provider → Text → ℕ → Call
  starting_callback : ℕ → Call
  -- `open` waits for the connection; with true it is `activate` that opens.
  opening : Provider → Bool → Call
  -- It waits for the callback socket.
  awaiting_callback : Bool → Call
  -- `reconnect` waits for the old provider to disconnect.
  closing_old : Call

abbrev pub Step : Type 0
Step = Session × List Effect × List Call

infixl 5 ◌>>◌
abbrev pub ◌>>◌ : Step → (Session → Step) → Step
step >> f = ((f step.0).0, step.1 ++ (f step.0).1, step.2 ++ (f step.0).2)

abbrev slash : ℕ
slash = 0x2f

strip_slashes : Text → Text
strip_slashes [] = []
strip_slashes (c ∷ cs) =
    let rest = strip_slashes cs in if length rest == 0 && c == slash then [] else c ∷ rest

unfoldable pub strip_trailing_slash : Text → Text
unfolding strip_slashes
strip_trailing_slash p = if ltb 1 (length p) then strip_slashes p else p

unfoldable pub is_external_path : Text → Text → Bool
is_external_path path base = not (text_eq path base) && not (starts_with (base ++ slash ∷ []) path)

abbrev pub is_local : Option Provider → Bool
is_local none = false
is_local (some p) = elim p.kind [ local ↦ true | remote ↦ false ]

-- `sessions.get(projectId) === provider`
abbrev pub is_current : Option Provider → Provider → Bool
is_current none p = false
is_current (some q) p = q.id == p.id

abbrev pub same_number : Option ℕ → ℕ → Bool
same_number none n = false
same_number (some m) n = m == n

abbrev pub same_path : Option WorktreeWatch → Option Text → Bool
same_path none none = true
same_path none (some path) = false
same_path (some w) none = false
same_path (some w) (some path) = text_eq w.path path

abbrev pub or_zero : Option ℕ → ℕ
or_zero none = 0
or_zero (some n) = n
