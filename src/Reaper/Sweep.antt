-- ===== src/Reaper/Sweep.antt =====
-- Which sessions a sweep ends.
use agent_cockpit.Base.{
  ℕ, ◌-◌, ◌*◌, ◌<◌, ◌≡◌, ◌≢◌, true, Option, none, some, List, [], ◌∷◌, Text, arith, text_eq_iff,
  ltb, Bool-cases, inl, inr, ◌↔◌,
}
use agent_cockpit.Connection.{
  ConnectionState, disconnected, connecting, connected, reconnecting, failed,
}
use agent_cockpit.Reaper.{
  SessionKind, local, remote, ReaperSessionManager, aged_out_detail, same_id, is_remote,
  is_connected, last_activity, is_reaped, sweep_each, sweep_idle_sessions,
}

same_id_iff : (o : Option Text) (id : Text) → (same_id o id ≡ true) ↔ (o ≡ some id)
same_id_iff none id = ground arith
same_id_iff (some a) id = ground (arith, text_eq_iff a id)

is_remote_iff : (o : Option SessionKind) → (is_remote o ≡ true) ↔ (o ≡ some remote)
is_remote_iff none = ground arith
is_remote_iff (some local) = ground arith
is_remote_iff (some remote) = ground arith

is_connected_iff : (o : Option ConnectionState) → (is_connected o ≡ true) ↔ (o ≡ some connected)
is_connected_iff none = ground arith
is_connected_iff (some disconnected) = ground arith
is_connected_iff (some connecting) = ground arith
is_connected_iff (some connected) = ground arith
is_connected_iff (some reconnecting) = ground arith
is_connected_iff (some failed) = ground arith

module _ {W : Type 0} (sm : ReaperSessionManager W) where
  -- A remote, connected session that is not the active one and was last used before the threshold.
  abbrev pub IsIdle : ℕ → ℕ → Text → W → Type 0
  IsIdle at threshold_ms id w =
      (sm.active_project_id w ≢ some id)
      × (sm.kind_of w id ≡ some remote)
      × (sm.state_of w id ≡ some connected)
      × (threshold_ms < at - last_activity (sm.activity_of w id))

  is_reaped_iff :
      (at t : ℕ) (id : Text) (w : W) → (is_reaped sm at t id w ≡ true) ↔ IsIdle at t id w
  unfolding is_reaped
  is_reaped_iff at t id w = ground (
    arith,
    same_id_iff (sm.active_project_id w) id,
    is_remote_iff (sm.kind_of w id),
    is_connected_iff (sm.state_of w id),
  )

  -- Sessions visited in order from a state: those closed, each idle in the state of its turn, and the last
  -- state.
  pub data Sweeps (at threshold_ms : ℕ) : List Text → W → List Text → W → Type 0 where
    done : (w : W) → Sweeps at threshold_ms [] w [] w
    closes :
        (id : Text) (ids closed : List Text) (w v : W)
        → IsIdle at threshold_ms id w
        → Sweeps at threshold_ms ids (sm.close id aged_out_detail w) closed v
        → Sweeps at threshold_ms (id ∷ ids) w (id ∷ closed) v
    skips :
        (id : Text) (ids closed : List Text) (w v : W)
        → ¬ IsIdle at threshold_ms id w
        → Sweeps at threshold_ms ids w closed v
        → Sweeps at threshold_ms (id ∷ ids) w closed v

  sweep_each-Sweeps :
      (at t : ℕ) (ids : List Text) (w : W)
      → Sweeps at t ids w (sweep_each sm at t ids w).1 (sweep_each sm at t ids w).0
  unfolding sweep_each
  sweep_each-Sweeps at t [] w = done w
  sweep_each-Sweeps at t (id ∷ ids) w = elim (Bool-cases (is_reaped sm at t id w)) [
    | inl reaped ↦ rw reaped (
        closes id ids _ w _ ((is_reaped_iff at t id w).0 reaped)
          (sweep_each-Sweeps at t ids (sm.close id aged_out_detail w)))
    | inr kept ↦ rw kept (
        skips id ids _ w _ (λ idle. ground (arith, (is_reaped_iff at t id w).1 idle))
          (sweep_each-Sweeps at t ids w))
  ]

  -- With a timeout, a sweep visits the sessions that were open when it began, in order. It closes exactly those
  -- that are idle in the state of their turn, whatever happened while earlier ones were closed.
  pub sweep_idle_sessions-Sweeps :
      (timeout_min at : ℕ) (w : W)
      → 0 < timeout_min
      → Sweeps at
          (timeout_min * 60000)
          (sm.list_open w)
          w
          (sweep_idle_sessions sm timeout_min at w).1
          (sweep_idle_sessions sm timeout_min at w).0
  unfolding sweep_idle_sessions
  sweep_idle_sessions-Sweeps timeout_min at w positive =
      let on : ltb 0 timeout_min ≡ true = ground arith in
      rw on (sweep_each-Sweeps at (timeout_min * 60000) (sm.list_open w) w)
