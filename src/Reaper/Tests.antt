-- ===== src/Reaper/Tests.antt =====
-- Three idle sessions, and a user who goes to the second while the first one closes.
use agent_cockpit.Base.{◌≡◌, refl, some, [], ◌∷◌, Text, codes, text_eq, if◌then◌else◌, arith, ◌*◌}
use agent_cockpit.Connection.{connected}
use agent_cockpit.Reaper.{ReaperSessionManager, remote, is_reaped, sweep_each, sweep_idle_sessions}
use agent_cockpit.Reaper.Sweep.{Sweeps, sweep_idle_sessions-Sweeps}

program : Unit {0}
unfolding is_reaped sweep_each sweep_idle_sessions
program = tt

-- The state is the active project; closing "a" activates "b".
abbrev manager : ReaperSessionManager Text
manager = record {
  list_open = λ w. codes "a" ∷ codes "b" ∷ codes "c" ∷ [];
  active_project_id = λ w. some w;
  kind_of = λ w id. some remote;
  state_of = λ w id. some connected;
  activity_of = λ w id. some 1000;
  close = λ id detail w. if text_eq id (codes "a") then codes "b" else w;
}

raced : sweep_idle_sessions manager 1 100000 (codes "z") ≡ (codes "b", codes "a" ∷ codes "c" ∷ [])
unfolding program
raced = refl

disabled : (sweep_idle_sessions manager 0 100000 (codes "z")).1 ≡ []
unfolding program
disabled = refl

sweep_idle_sessions-Sweeps_example :
    Sweeps manager 100000
      (1 * 60000)
      (codes "a" ∷ codes "b" ∷ codes "c" ∷ [])
      (codes "z")
      (sweep_idle_sessions manager 1 100000 (codes "z")).1
      (sweep_idle_sessions manager 1 100000 (codes "z")).0
sweep_idle_sessions-Sweeps_example =
    sweep_idle_sessions-Sweeps manager 1 100000 (codes "z") (omega arith)
