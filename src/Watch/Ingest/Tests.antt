-- ===== src/Watch/Ingest/Tests.antt =====
-- Two feeds and a batch.
use agent_cockpit.Base.{◌≡◌, refl, some, List, [], ◌∷◌, codes, Text}
use agent_cockpit.Base.Maps.{get, set}
use agent_cockpit.Watch.Policy.{working_tree, git_state, normalize_watch_path, split_slash}
use agent_cockpit.Watch.Policy.{classify_git, classify_segments, classify_watch_path}
use agent_cockpit.Watch.Ingest.{CanonicalWatchEvent, create, flush, feed, dispose}
use agent_cockpit.Watch.Ingest.{categories_from, feed_from}
use agent_cockpit.Watch.Ingest.Batches.{feed_op, performs}
use agent_cockpit.Watch.Ingest.Delivery.{feeds, feeds-flush}

program : Unit {0}
unfolding normalize_watch_path split_slash classify_git classify_segments classify_watch_path set
    feed_from feed flush dispose categories_from performs
program = tt

abbrev first : List Text
first = codes "./src/a.ts" ∷ codes ".git/index" ∷ []

abbrev second : List Text
second = codes ".git/HEAD" ∷ codes "src/a.ts" ∷ []

abbrev batch : CanonicalWatchEvent
batch = record {
  categories = working_tree ∷ git_state ∷ [];
  paths = (codes "src/a.ts", working_tree) ∷ (codes ".git/HEAD", git_state) ∷ [];
  at = 9;
}

batch_run : (flush 9 (performs (feed_op first ∷ feed_op second ∷ []) create)).1 ≡ some batch
unfolding program
batch_run = refl

feeds-flush_example :
    (e : CanonicalWatchEvent) × ((flush 9 (feeds (second ∷ []) (feed first create))).1 ≡ some e)
    × (get (normalize_watch_path (codes "./src/a.ts")) e.paths ≡ some working_tree)
unfolding program
feeds-flush_example =
    feeds-flush (codes "./src/a.ts") working_tree first (second ∷ []) create 9 refl refl
