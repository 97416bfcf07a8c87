-- ===== src/Reaper.antt =====
-- electron/main/providers/sessionReaper.ts: the sweep that ages out idle sessions. What the reaper reads and
-- closes is the source's interface of the session manager, over any state `W`; `close` takes the state to the
-- one after the `await`, with whatever else happened meanwhile, also when it fails, which is only logged.
pub mod Sweep
mod Tests
use agent_cockpit.Base.{
  ℕ, ◌-◌, ◌*◌, Bool, true, false, not, ◌&&◌, Option, none, some, List, [], ◌∷◌, Text, codes,
  text_eq, ltb, leb, if◌then◌else◌,
}
use agent_cockpit.Connection.{
  ConnectionState, disconnected, connecting, connected, reconnecting, failed,
}

pub data SessionKind : Type 0 where
  local remote : SessionKind

pub record ReaperSessionManager (W : Type 0) : Type 0 where
  pub list_open : W → List Text
  pub active_project_id : W → Option Text
  pub kind_of : W → Text → Option SessionKind
  pub state_of : W → Text → Option ConnectionState
  pub activity_of : W → Text → Option ℕ
  pub close : Text → Text → W → W

abbrev pub aged_out_detail : Text
aged_out_detail = codes "idle — aged out (re-select to reconnect)"

abbrev pub same_id : Option Text → Text → Bool
same_id none id = false
same_id (some active) id = text_eq active id

abbrev pub is_remote : Option SessionKind → Bool
is_remote none = false
is_remote (some local) = false
is_remote (some remote) = true

abbrev pub is_connected : Option ConnectionState → Bool
is_connected none = false
is_connected (some disconnected) = false
is_connected (some connecting) = false
is_connected (some connected) = true
is_connected (some reconnecting) = false
is_connected (some failed) = false

abbrev pub last_activity : Option ℕ → ℕ
last_activity none = 0
last_activity (some n) = n

module _ {W : Type 0} (sm : ReaperSessionManager W) where
  -- Whether the body of the loop comes to the call of `close`.
  unfoldable pub is_reaped : ℕ → ℕ → Text → W → Bool
  is_reaped at threshold_ms id w =
      not (same_id (sm.active_project_id w) id)
      && (is_remote (sm.kind_of w id)
          && (is_connected (sm.state_of w id)
              && (not (leb (at - last_activity (sm.activity_of w id)) threshold_ms)
                  && not (same_id (sm.active_project_id w) id))))

  -- The loop, with the sessions it closed.
  unfoldable pub sweep_each : ℕ → ℕ → List Text → W → W × List Text
  sweep_each at threshold_ms [] w = (w, [])
  sweep_each at threshold_ms (id ∷ ids) w =
      let reaped = is_reaped at threshold_ms id w in
      let rest =
        sweep_each at threshold_ms ids (if reaped then sm.close id aged_out_detail w else w) in
      (rest.0, if reaped then id ∷ rest.1 else rest.1)

  -- With the setting in minutes and the reading of the clock.
  unfoldable pub sweep_idle_sessions : ℕ → ℕ → W → W × List Text
  sweep_idle_sessions timeout_min at w =
      if not (ltb 0 timeout_min)
      then (w, [])
      else sweep_each at (timeout_min * 60000) (sm.list_open w) w
