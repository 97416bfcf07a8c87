-- ===== src/Callback/Classify.antt =====
-- electron/main/callback/classify.ts: from the absolute path of an `open` request to the selection that
-- is opened. `posix` of `node:path` is modelled; the calls of the provider are answers handed in.
pub mod Inside
pub mod Deepest
pub mod Targets
pub mod Order
use agent_cockpit.Base.{
  ℕ, Bool, true, false, ◌&&◌, Option, none, some, List, [], ◌∷◌, ◌++◌, length, drop,
}
use agent_cockpit.Base.{Text, codes, text_eq, starts_with, ltb, ◌==◌, if◌then◌else◌}

-- What stands before the first slash, and the pieces after it.
abbrev pub pieces : Text → Text × List Text
pieces [] = ([], [])
pieces (c ∷ s) = let (p, ps) = pieces s in if c == b'/' then ([], p ∷ ps) else (c ∷ p, ps)

-- `..` after the pieces so far, the last first: it takes one away, or it is kept in a relative path.
abbrev pub go_up : Bool → List Text → List Text
go_up is_absolute [] = if is_absolute then [] else codes ".." ∷ []
go_up is_absolute (p ∷ ps) = if text_eq p (codes "..") then codes ".." ∷ p ∷ ps else ps

abbrev pub add_piece : Bool → Text → List Text → List Text
add_piece is_absolute piece ps =
    if text_eq piece []
    then ps
    else if text_eq piece (codes ".")
    then ps
    else if text_eq piece (codes "..")
    then go_up is_absolute ps
    else piece ∷ ps

abbrev pub walk : Bool → List Text → List Text → List Text
walk is_absolute [] ps = ps
walk is_absolute (q ∷ qs) ps = walk is_absolute qs (add_piece is_absolute q ps)

-- Joined with slashes; the last piece comes first.
abbrev pub joined : List Text → Text → Text
joined [] after = after
joined (p ∷ []) after = p ++ after
joined (p ∷ q ∷ ps) after = joined (q ∷ ps) (b'/' ∷ p ++ after)

abbrev pub ends_with_slash : Text → Bool
ends_with_slash [] = false
ends_with_slash (c ∷ []) = c == b'/'
ends_with_slash (c ∷ d ∷ s) = ends_with_slash (d ∷ s)

abbrev pub finish_path : Bool → Bool → Text → Text
finish_path true trailing [] = codes "/"
finish_path false true [] = codes "./"
finish_path false false [] = codes "."
finish_path is_absolute trailing (c ∷ s) =
    (if is_absolute then codes "/" else []) ++ ((c ∷ s) ++ (if trailing then codes "/" else []))

-- `posix.normalize`
unfoldable pub normalize : Text → Text
normalize [] = codes "."
normalize (c ∷ s) =
    let (p, ps) = pieces (c ∷ s) in
    finish_path (c == b'/') (ends_with_slash (c ∷ s)) (joined (walk (c == b'/') (p ∷ ps) []) [])

-- `posix.join` of two paths
abbrev pub join : Text → Text → Text
join [] b = normalize b
join (c ∷ a) [] = normalize (c ∷ a)
join (c ∷ a) (d ∷ b) = normalize ((c ∷ a) ++ b'/' ∷ d ∷ b)

-- `.replace(/\/+$/, '')`
abbrev pub drop_end_slashes : Text → Text
drop_end_slashes [] = []
drop_end_slashes (c ∷ s) =
    let rest = drop_end_slashes s in if length rest == 0 && c == b'/' then [] else c ∷ rest

unfoldable pub clean : Text → Text
clean path =
    let normalized = normalize path in
    if ltb 1 (length normalized) then drop_end_slashes normalized else normalized

-- `base === '/' ? '/' : `${base}/``, of the cleaned root.
abbrev pub prefix_of : Text → Text
prefix_of root = if text_eq (clean root) (codes "/") then codes "/" else clean root ++ codes "/"

-- The rest of a text after a prefix, when it is not empty.
abbrev pub rest_after : Text → Text → Option Text
rest_after prefix subject =
    if ltb (length prefix) (length subject) && starts_with prefix subject
    then some (drop (length prefix) subject)
    else none

unfoldable pub relative_inside : Text → Text → Option Text
relative_inside root subject = rest_after (prefix_of root) subject

-- A worktree and the path in it.
pub record Hit : Type 0 where
  pub worktree : Text
  pub rel : Text

-- `best === null || clean(worktree).length > clean(best.worktree).length`
abbrev pub is_deeper : Text → Option Hit → Bool
is_deeper worktree none = true
is_deeper worktree (some best) = ltb (length (clean best.worktree)) (length (clean worktree))

abbrev pub better_hit : Text → Option Text → Option Hit → Option Hit
better_hit worktree none best = best
better_hit worktree (some rel) best =
    if is_deeper worktree best then some (record { worktree = worktree; rel = rel }) else best

unfoldable pub deepest_from : Text → List Text → Option Hit → Option Hit
deepest_from subject [] best = best
deepest_from subject (w ∷ ws) best =
    deepest_from subject ws (better_hit w (relative_inside w subject) best)

abbrev pub deepest_worktree : List Text → Text → Option Hit
deepest_worktree worktrees subject = deepest_from subject worktrees none

-- The configured root and its canonical form.
pub record RootAlias : Type 0 where
  pub configured : Text
  pub canonical : Text

pub record ClassifyInput : Type 0 where
  pub path : Text
  pub canonical_path : Option Text
  pub worktrees : List Text
  pub project_roots : List Text
  pub root_alias : Option RootAlias

abbrev pub rejoined : RootAlias → Option Text → List Text
rejoined alias none = []
rejoined alias (some rel) = clean (join alias.canonical rel) ∷ []

unfoldable pub via_root_alias : Text → Option RootAlias → List Text
via_root_alias logical none = []
via_root_alias logical (some alias) = rejoined alias (relative_inside alias.configured logical)

pub data OpenKind : Type 0 where
  file external_file : OpenKind

pub record CallbackOpenSelection : Type 0 where
  pub path : Text
  pub worktree_path : Text
  pub kind : OpenKind

-- The first of the subjects, and the others.
abbrev pub subjects_from : ClassifyInput → Option Text → Text × List Text
subjects_from i (some canonical) = (clean canonical, [])
subjects_from i none = (clean i.path, via_root_alias (clean i.path) i.root_alias)

abbrev pub subjects_of : ClassifyInput → Text × List Text
subjects_of i = subjects_from i i.canonical_path

abbrev pub first_hit : List Text → List Text → Option Hit
first_hit worktrees [] = none
first_hit worktrees (s ∷ ss) = elim (deepest_worktree worktrees s) [
  | some h ↦ some h
  | none ↦ first_hit worktrees ss
]

abbrev pub first_root : Text → List Text → Option Text
first_root subject [] = none
first_root subject (r ∷ rs) = elim (relative_inside r subject) [
  | some rel ↦ some rel
  | none ↦ first_root subject rs
]

abbrev pub selection_of : Text → Option Hit → Option Text → CallbackOpenSelection
selection_of logical (some h) _ = record { path = h.rel; worktree_path = h.worktree; kind = file }
selection_of logical none (some rel) = record { path = rel; worktree_path = []; kind = file }
selection_of logical none none = record { path = logical; worktree_path = []; kind = external_file }

unfoldable pub classify_open_target : ClassifyInput → CallbackOpenSelection
classify_open_target i =
    let (s, ss) = subjects_of i in
    selection_of (clean i.path) (first_hit i.worktrees (s ∷ ss)) (first_root s i.project_roots)

pub data ProviderKind : Type 0 where
  local remote : ProviderKind

-- The answers of one classification: nothing for a call that is rejected.
pub record Answers : Type 0 where
  pub listed : Option (List Text)
  pub real : Option Text

abbrev pub worktrees_from : Option (List Text) → List Text
worktrees_from none = []
worktrees_from (some ws) = ws

-- The roots, and the alias when the root is a symbolic link.
abbrev pub roots_from : ProviderKind → Text → Option Text → List Text × Option RootAlias
roots_from remote root _ = (root ∷ [], none)
roots_from local root none = (root ∷ [], none)
roots_from local root (some real) =
    if text_eq real root
    then (root ∷ [], none)
    else (root ∷ real ∷ [], some (record { configured = root; canonical = real }))

-- `args` is the path and the canonical path.
unfoldable pub resolve_open_selection :
    ProviderKind → Text → Answers → Text → Option Text → CallbackOpenSelection
resolve_open_selection kind root answers path canonical_path =
    let (roots, alias) = roots_from kind root answers.real in
    classify_open_target (record {
      path = path;
      canonical_path = canonical_path;
      worktrees = worktrees_from answers.listed;
      project_roots = roots;
      root_alias = alias;
    })
