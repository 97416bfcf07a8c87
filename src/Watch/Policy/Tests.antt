-- ===== src/Watch/Policy/Tests.antt =====
-- Paths of the test suite.
use agent_cockpit.Base.{◌≡◌, refl, none, some, codes}
use agent_cockpit.Watch.Policy.{working_tree, git_state, beads, normalize_watch_path, split_slash}
use agent_cockpit.Watch.Policy.{classify_git, classify_segments, classify_watch_path}
use agent_cockpit.Watch.Policy.{is_hidden_from_changes, derive_watch_spec, watch_debounce_ms}

program : Unit {0}
unfolding normalize_watch_path split_slash classify_git classify_segments classify_watch_path
    is_hidden_from_changes derive_watch_spec
program = tt

paths :
    (classify_watch_path (codes "src/a.ts") ≡ some working_tree)
    × (classify_watch_path (codes ".git/refs/heads/main") ≡ some git_state)
    × (classify_watch_path (codes ".git/index") ≡ none)
    × (classify_watch_path (codes "./.beads/beads.db") ≡ some beads)
    × (classify_watch_path (codes ".beads/beads.db-wal") ≡ none)
    × (derive_watch_spec.debounce_ms ≡ watch_debounce_ms)
unfolding program
paths = (refl, refl, refl, refl, refl, refl)
