-- ===== src/Watch/Ingest.antt =====
-- electron/main/watch/ingest.ts: raw paths become classified, coalesced batches. A pipeline is the
-- pending map and whether its timer is armed; `emit` is the batch that `flush` answers.
pub mod Batches
pub mod Delivery
mod Tests
use agent_cockpit.Base.{
  ℕ, Bool, true, false, ◌||◌, Option, none, some, List, [], ◌∷◌, ◌++◌, map, any,
}
use agent_cockpit.Base.{Text, if◌then◌else◌, length, ◌==◌}
use agent_cockpit.Base.Maps.{set}
use agent_cockpit.Watch.Policy.{WatchCategory, working_tree, git_state, beads, classify_watch_path}
use agent_cockpit.Watch.Policy.{normalize_watch_path}

pub record CanonicalWatchEvent : Type 0 where
  pub categories : List WatchCategory
  -- A `ClassifiedPath` is its `rel` and its `category`.
  pub paths : List (Text × WatchCategory)
  pub at : ℕ

pub record WatchIngest : Type 0 where
  pub pending : List (Text × WatchCategory)
  pub armed : Bool

abbrev pub create : WatchIngest
create = record { pending = []; armed = false }

abbrev pub same_category : WatchCategory → WatchCategory → Bool
same_category working_tree working_tree = true
same_category git_state git_state = true
same_category beads beads = true
same_category _ _ = false

-- `Set.add`
abbrev pub add_category : WatchCategory → List WatchCategory → List WatchCategory
add_category c cs = if any (same_category c) cs then cs else cs ++ c ∷ []

-- The loop of `flush` over the pending entries, from the categories seen so far.
unfoldable pub categories_from :
    List WatchCategory → List (Text × WatchCategory) → List WatchCategory
categories_from cs [] = cs
categories_from cs ((rel, c) ∷ m) = categories_from (add_category c cs) m

unfoldable pub flush : ℕ → WatchIngest → WatchIngest × Option CanonicalWatchEvent
flush clock w = if length w.pending == 0 then (record w { armed = false }, none) else (
  record { pending = []; armed = false },
  some (record { categories = categories_from [] w.pending; paths = w.pending; at = clock }),
)

-- The loop of `feed`: the pending map, and `added`.
unfoldable pub feed_from :
    List Text → List (Text × WatchCategory) → Bool → List (Text × WatchCategory) × Bool
feed_from [] m added = (m, added)
feed_from (raw ∷ paths) m added = elim (classify_watch_path raw) [
  | none ↦ feed_from paths m added
  | some c ↦ feed_from paths (set (normalize_watch_path raw) c m) true
]

-- Whether `feed` arms the timer is whether it was armed or a path was added.
unfoldable pub feed : List Text → WatchIngest → WatchIngest
feed paths w =
    let (m, added) = feed_from paths w.pending false in
    record { pending = m; armed = if added then true else w.armed }

unfoldable pub dispose : WatchIngest → WatchIngest
dispose w = record { pending = []; armed = false }
