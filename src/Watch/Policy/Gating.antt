-- ===== src/Watch/Policy/Gating.antt =====
-- Which paths raise which category.
use agent_cockpit.Base.{
  suc, ◌≤◌, ◌≡◌, ◌≢◌, refl, ap, ◌∙◌, Bool, true, false, not, Option, none, some,
}
use agent_cockpit.Base.{List, ◌∷◌, ◌++◌, arith, Text, codes, text_eq_iff, any, length}
use agent_cockpit.Base.{if◌then◌else◌, leb, ◌||◌, All-append}
use agent_cockpit.Watch.Policy.{WatchCategory, working_tree, git_state, beads, normalize_watch_path}
use agent_cockpit.Watch.Policy.{split_slash, classify_git, classify_segments, classify_watch_path}
use agent_cockpit.Watch.Policy.{is_hidden_from_changes, never_recurse, includes}
use agent_cockpit.Watch.Policy.{segment_is}
use agent_cockpit.Watch.Policy.Segments.{NoSlash, NoBackslash, to_slashes_lem, split_slash-NoSlash}
use agent_cockpit.Watch.Policy.Segments.{split_slash-append, split_slash_inner, length-split_slash}

-- `.git/worktrees/` and what follows.
abbrev pub worktree_path : Text → Text
worktree_path s = codes ".git/worktrees/" ++ s

worktree_normal :
    (s : Text) → NoBackslash s → normalize_watch_path (worktree_path s) ≡ worktree_path s
unfolding normalize_watch_path
worktree_normal s h = rw (to_slashes_lem s h)

worktree_split :
    (s : Text) → split_slash (worktree_path s) ≡ codes ".git" ∷ codes "worktrees" ∷ split_slash s
worktree_split s =
    split_slash-append (codes ".git") (codes "worktrees/" ++ s) (omega arith)
    ∙ ap (◌∷◌ (codes ".git")) (split_slash-append (codes "worktrees") s (omega arith))

-- The entry of a linked worktree is a change of the git state, whatever its name but "node_modules".
pub classify-worktree_entry :
    (name : Text)
    → NoSlash name
    → NoBackslash name
    → name ≢ codes "node_modules"
    → classify_watch_path (worktree_path name) ≡ some git_state
unfolding classify_watch_path classify_segments classify_git
classify-worktree_entry name plain clean other =
    rw (worktree_normal name clean, worktree_split name, split_slash-NoSlash name plain)
      (ground (arith, text_eq_iff name (codes "node_modules")))

metadata_segments :
    (skipped : Bool) (ws : List Text)
    → 1 ≤ length ws
    → (if skipped || any (includes never_recurse) ws
        then none
        else if leb (suc (suc (suc (length ws)))) 3
        then some git_state
        else none)
      ≡ none
metadata_segments skipped ws h = ground arith

-- Anything below the entry is noise.
pub classify-worktree_metadata :
    (name rest : Text)
    → NoSlash name
    → NoBackslash name
    → NoBackslash rest
    → classify_watch_path (worktree_path (name ++ b'/' ∷ rest)) ≡ none
unfolding classify_watch_path classify_segments classify_git
classify-worktree_metadata name rest plain clean clean' =
    let s : Text = name ++ b'/' ∷ rest in
    rw
      (
        worktree_normal s (All-append _ name (b'/' ∷ rest) clean (omega arith, clean')),
        worktree_split s,
        split_slash-append name rest plain,
      )
      (metadata_segments (includes never_recurse name) (split_slash rest) (length-split_slash rest))

-- A path with a directory "node_modules" inside raises nothing, at any depth.
pub classify-node_modules :
    (p a b : Text)
    → normalize_watch_path p ≡ a ++ b'/' ∷ (codes "node_modules" ++ b'/' ∷ b)
    → classify_watch_path p ≡ none
unfolding classify_watch_path classify_segments
classify-node_modules p a b h =
    let skipped : any (includes never_recurse) (split_slash (normalize_watch_path p)) ≡ true =
      rw h (
        split_slash_inner (includes never_recurse) (codes "node_modules") (omega arith) refl a b) in
    rw skipped (ground arith)

abbrev is_working_tree : WatchCategory → Bool
is_working_tree working_tree = true
is_working_tree git_state = false
is_working_tree beads = false

-- Of the paths that raise a category, the Changes list hides those that are not in the working tree.
classify_git-git_state :
    (rel : Text) (segments : List Text) (c : WatchCategory)
    → classify_git rel segments ≡ some c
    → c ≡ git_state
unfolding classify_git
classify_git-git_state rel segments c h = ground arith

hidden_choice :
    (skipped git beads_dir signal : Bool) (o : Option WatchCategory) (c : WatchCategory)
    → (o ≡ some c → c ≡ git_state)
    → (if skipped
        then none
        else if git
        then o
        else if beads_dir
        then (if signal then some beads else none)
        else some working_tree)
      ≡ some c
    → (git || (beads_dir || false)) ≡ not (is_working_tree c)
hidden_choice true git beads_dir signal o c g h = cc
hidden_choice false true beads_dir signal o c g h = rw (g h)
hidden_choice false false true true o c g h = ground arith
hidden_choice false false true false o c g h = cc
hidden_choice false false false signal o c g h = ground arith

some_of_skip :
    (t : Bool) (o : Option WatchCategory) {c : WatchCategory}
    → (if t then none else o) ≡ some c
    → o ≡ some c
some_of_skip true o h = cc
some_of_skip false o h = h

hidden_segments :
    (rel : Text) (segments : List Text) (c : WatchCategory)
    → classify_segments rel segments ≡ some c
    → (segment_is segments 0 (codes ".git") || (segment_is segments 0 (codes ".beads") || false))
      ≡ not (is_working_tree c)
unfolding classify_segments
hidden_segments rel segments c h =
    hidden_choice _ _ _ _ _ c (classify_git-git_state rel segments c) h

pub is_hidden-classify :
    (p : Text) (c : WatchCategory)
    → classify_watch_path p ≡ some c
    → is_hidden_from_changes p false ≡ not (is_working_tree c)
unfolding classify_watch_path is_hidden_from_changes
is_hidden-classify p c h =
    hidden_segments _ (split_slash (normalize_watch_path p)) c (some_of_skip _ _ h)
