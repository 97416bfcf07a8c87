-- ===== src/Watch/Policy.antt =====
-- src/shared/watch/policy.ts
pub mod Segments
pub mod Gating
mod Tests
use agent_cockpit.Base.{
  ℕ, ◌+◌, Bool, true, false, ◌&&◌, ◌||◌, Option, none, some, List, [], ◌∷◌, ◌++◌,
}
use agent_cockpit.Base.{Text, codes, text_eq, starts_with, ◌==◌, if◌then◌else◌, any, leb, length}
use agent_cockpit.Base.{map, get_elem?}

pub data WatchCategory : Type 0 where
  working_tree git_state beads : WatchCategory

pub record WatchSpec : Type 0 where
  pub never_recurse : List Text
  pub directory_granularity : List Text
  pub git_state_signals : List Text
  pub beads_signals : List Text
  pub debounce_ms : ℕ

abbrev pub watch_debounce_ms : ℕ
watch_debounce_ms = 200

abbrev pub never_recurse : List Text
never_recurse = codes "node_modules" ∷ []

abbrev pub directory_granularity : List Text
directory_granularity = codes ".git" ∷ codes ".beads" ∷ []

abbrev pub git_state_signals : List Text
git_state_signals =
    codes ".git/HEAD" ∷ codes ".git/packed-refs" ∷ codes ".git/refs" ∷ codes ".git/worktrees" ∷ []

abbrev pub beads_signals : List Text
beads_signals = codes ".beads/beads.db" ∷ codes ".beads/issues.jsonl" ∷ []

abbrev pub changes_hidden_prefixes : List Text
changes_hidden_prefixes = codes ".git" ∷ codes ".beads" ∷ []

abbrev pub includes : List Text → Text → Bool
includes list value = any (λ s. text_eq s value) list

-- `.replace(/\\/g, '/')`
abbrev pub to_slashes : Text → Text
to_slashes = map (λ c. if c == b'\\' then b'/' else c)

-- `.replace(/^\.\//, '')`
abbrev pub drop_dot_slash : Text → Text
drop_dot_slash [] = []
drop_dot_slash (c ∷ []) = c ∷ []
drop_dot_slash (c ∷ d ∷ s) = if c == b'.' && d == b'/' then s else c ∷ d ∷ s

-- `.replace(/^\/+/, '')`
abbrev pub drop_slashes : Text → Text
drop_slashes [] = []
drop_slashes (c ∷ s) = let rest = drop_slashes s in if c == b'/' then rest else c ∷ s

unfoldable pub normalize_watch_path : Text → Text
normalize_watch_path p = drop_slashes (drop_dot_slash (to_slashes p))

abbrev pub cons_first : ℕ → List Text → List Text
cons_first c [] = (c ∷ []) ∷ []
cons_first c (w ∷ ws) = (c ∷ w) ∷ ws

-- `.split('/')`
unfoldable pub split_slash : Text → List Text
split_slash [] = [] ∷ []
split_slash (c ∷ s) = let rest = split_slash s in if c == b'/' then [] ∷ rest else cons_first c rest

-- `segments[i]`, which is compared with strings only; no string stands for the missing one.
abbrev pub segment_is : List Text → ℕ → Text → Bool
segment_is segments i value = elim (get_elem? segments i) [
  | none ↦ false
  | some s ↦ text_eq s value
]

unfoldable pub classify_git : Text → List Text → Option WatchCategory
classify_git rel segments =
    if text_eq rel (codes ".git/HEAD")
      || text_eq rel (codes ".git/packed-refs")
      || starts_with (codes ".git/refs") rel
    then some git_state
    else if segment_is segments 1 (codes "worktrees") && leb (length segments) 3
    then some git_state
    else none

unfoldable pub classify_segments : Text → List Text → Option WatchCategory
classify_segments rel segments =
    if any (λ s. includes never_recurse s) segments
    then none
    else if segment_is segments 0 (codes ".git")
    then classify_git rel segments
    else if segment_is segments 0 (codes ".beads")
    then (if includes beads_signals rel then some beads else none)
    else some working_tree

unfoldable pub classify_watch_path : Text → Option WatchCategory
classify_watch_path rel_path =
    let rel = normalize_watch_path rel_path in
    if text_eq rel [] then none else classify_segments rel (split_slash rel)

unfoldable pub is_hidden_from_changes : Text → Bool → Bool
is_hidden_from_changes rel_path show_all =
    if show_all
    then false
    else any (λ s. segment_is (split_slash (normalize_watch_path rel_path)) 0 s)
        changes_hidden_prefixes

unfoldable pub derive_watch_spec : WatchSpec
derive_watch_spec = record {
  never_recurse = never_recurse;
  directory_granularity = directory_granularity;
  git_state_signals = git_state_signals;
  beads_signals = beads_signals;
  debounce_ms = watch_debounce_ms;
}
