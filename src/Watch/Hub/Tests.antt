-- ===== src/Watch/Hub/Tests.antt =====
-- Two panels, of which one follows the git state.
use agent_cockpit.Base.{◌≡◌, refl, false, none, some, List, [], ◌∷◌, codes, map, keep}
use agent_cockpit.Watch.Policy.{working_tree, git_state, normalize_watch_path, split_slash}
use agent_cockpit.Watch.Policy.{classify_git, classify_segments, classify_watch_path}
use agent_cockpit.Watch.Hub.{
  RawEvent, Listener, Hub, default, classify_all, wants, deliver, handle_raw,
}
use agent_cockpit.Watch.Hub.Dispatch.{concerns, handle_raw-called}

program : Unit {0}
unfolding normalize_watch_path split_slash classify_git classify_segments classify_watch_path
    classify_all wants deliver handle_raw
program = tt

abbrev panels : List Listener
panels =
    record { id = 1; interest = git_state ∷ [] }
    ∷ record { id = 2; interest = git_state ∷ working_tree ∷ [] }
    ∷ []

abbrev edit : RawEvent
edit = record {
  project_id = some (codes "p");
  worktree_path = none;
  paths = some (codes "src/a.ts" ∷ codes ".git/index" ∷ []);
  at = none;
}

edit_run : map (λ d. d.0) (handle_raw edit panels) ≡ 2 ∷ []
unfolding program
edit_run = refl

handle_raw-called_example :
    map (λ d. d.0) (handle_raw edit panels)
    ≡ map (λ l. l.id) (keep (concerns (default [] edit.paths)) panels)
handle_raw-called_example = handle_raw-called edit panels

abbrev quiet : Hub
quiet = record { listeners = []; attached = false }
