-- ===== src/DiffCache.antt =====
-- electron/main/providers/diffCache.ts: the cache of diff bundles. A `Map` is an association list in
-- insertion order, and the cache is the list of the projects' maps. The bundles are of any type.
pub mod Keys
pub mod Bounds
pub mod Filed
pub mod Invalidate
mod Tests
use agent_cockpit.Base.{
  ℕ, ◌+◌, Bool, true, false, not, ◌&&◌, Option, none, some, List, [], ◌∷◌, ◌++◌,
}
use agent_cockpit.Base.{Text, text_eq, if◌then◌else◌, any, length, ltb, keep, ◌==◌}
use agent_cockpit.Base.Maps
use agent_cockpit.Watch.Policy.{WatchCategory, git_state, classify_watch_path}
use agent_cockpit.Watch.Ingest.{same_category}

abbrev pub max_entries_per_project : ℕ
max_entries_per_project = 64

-- The unit separator.
abbrev pub sep : ℕ
sep = 0x1f

pub record Entry {ℓ} (B : Type ℓ) : Type ℓ where
  pub path : Text
  pub worktree_path : Text
  pub bundle : B

abbrev pub Project {ℓ} : Type ℓ → Type ℓ
Project B = List (Text × Entry B)

abbrev pub Cache {ℓ} : Type ℓ → Type ℓ
Cache B = List (Text × Project B)

-- `classifyWatchPath(rel) === 'git-state'`
abbrev pub is_category : WatchCategory → Option WatchCategory → Bool
is_category c none = false
is_category c (some d) = same_category c d

unfoldable pub is_git_state_signal : Text → Bool
is_git_state_signal rel = is_category git_state (classify_watch_path rel)

-- `baseline ?? ''`
abbrev pub baseline_text : Option Text → Text
baseline_text none = []
baseline_text (some b) = b

unfoldable pub key : Text → Text → Option Text → Text
key worktree_path path baseline = worktree_path ++ (sep ∷ (path ++ (sep ∷ baseline_text baseline)))

module _ {ℓ} {B : Type ℓ} where
  abbrev pub entries : Text → Cache B → Project B
  entries project_id c = elim (Maps.get project_id c) [ none ↦ [] | some m ↦ m ]

  abbrev pub bundle_of : Option (Entry B) → Option B
  bundle_of none = none
  bundle_of (some e) = some e.bundle

  unfoldable pub get : Text → Text → Text → Option Text → Cache B → Option B
  get project_id worktree_path path baseline c =
      bundle_of (Maps.get (key worktree_path path baseline) (entries project_id c))

  -- The eviction loop: the oldest key goes while there are too many.
  unfoldable pub evict : Project B → Project B
  evict [] = []
  evict (e ∷ m) =
      let rest = evict m in if ltb max_entries_per_project (length (e ∷ m)) then rest else e ∷ m

  unfoldable pub put : Text → Entry B → Project B → Project B
  put k e m = evict (Maps.set k e (Maps.delete k m))

  unfoldable pub set : Text → Text → Text → Option Text → B → Cache B → Cache B
  set project_id worktree_path path baseline bundle c =
      Maps.set project_id
        (put (key worktree_path path baseline)
          (record { path = path; worktree_path = worktree_path; bundle = bundle })
          (entries project_id c))
        c

  -- Whether a batch drops an entry.
  unfoldable pub dropped : List Text → Option Text → Entry B → Bool
  dropped paths (some tag) e = text_eq e.worktree_path tag && any (text_eq e.path) paths
  dropped paths none e = any (text_eq e.path) paths

  unfoldable pub watched : List Text → Option Text → Project B → Project B
  watched paths (some tag) m = keep (λ e. not (dropped paths (some tag) e.1)) m
  watched paths none m =
      if any is_git_state_signal paths then [] else keep (λ e. not (dropped paths none e.1)) m

  unfoldable pub on_watch : Text → List Text → Option Text → Cache B → Cache B
  on_watch project_id paths worktree_path c = elim (Maps.get project_id c) [
    | none ↦ c
    | some m ↦
        if length paths == 0 then c else Maps.set project_id (watched paths worktree_path m) c
  ]

  unfoldable pub evict_project : Text → Cache B → Cache B
  evict_project project_id c = Maps.delete project_id c

  abbrev pub clear : Cache B → Cache B
  clear c = []
