-- ===== src/Watch/Ingest/Delivery.antt =====
-- What the batches of a pipeline deliver.
use agent_cockpit.Base.{ℕ, ◌≡◌, refl, sym, ◌∙◌, Bool, true, false, ◌||◌, Option, none, some}
use agent_cockpit.Base.{List, [], ◌∷◌, ◌++◌, arith, Text, text_eq, any, length, inl, inr}
use agent_cockpit.Base.{if◌then◌else◌, ◌==◌, Bool-cases}
use agent_cockpit.Base.Maps.{get}
use agent_cockpit.Watch.Policy.{WatchCategory, working_tree, classify_watch_path}
use agent_cockpit.Watch.Policy.{normalize_watch_path}
use agent_cockpit.Watch.Ingest.{CanonicalWatchEvent, WatchIngest, create, flush, feed, dispose}
use agent_cockpit.Watch.Ingest.{categories_from, same_category, add_category}
use agent_cockpit.Watch.Ingest.Batches.{
  Op, feed_op, flush_op, dispose_op, perform, performs, IsSound,
}
use agent_cockpit.Watch.Ingest.Batches.{category_of, classify-category_of, feed_from-IsSound}
use agent_cockpit.Watch.Ingest.Batches.{feed_from-keeps, feed_from-finds}

pub feeds : List (List Text) → WatchIngest → WatchIngest
feeds [] w = w
feeds (paths ∷ later) w = feeds later (feed paths w)

feed-keeps :
    (k : Text) (c : WatchCategory) (paths : List Text) (w : WatchIngest)
    → category_of k ≡ some c
    → get k w.pending ≡ some c
    → get k (feed paths w).pending ≡ some c
unfolding feed
feed-keeps k c paths w e h = feed_from-keeps k c paths w.pending false e h

feeds-keeps :
    (k : Text) (c : WatchCategory) (later : List (List Text)) (w : WatchIngest)
    → category_of k ≡ some c
    → get k w.pending ≡ some c
    → get k (feeds later w).pending ≡ some c
unfolding feeds
feeds-keeps k c [] w e h = h
feeds-keeps k c (paths ∷ later) w e h =
    feeds-keeps k c later (feed paths w) e (feed-keeps k c paths w e h)

feed-finds :
    (raw : Text) (c : WatchCategory) (paths : List Text) (w : WatchIngest)
    → any (text_eq raw) paths ≡ true
    → classify_watch_path raw ≡ some c
    → get (normalize_watch_path raw) (feed paths w).pending ≡ some c
unfolding feed
feed-finds raw c paths w h e = feed_from-finds raw c paths w.pending false h e

flush-pending :
    (clock : ℕ) (w : WatchIngest) (k : Text) {c : WatchCategory}
    → get k w.pending ≡ some c
    → (e : CanonicalWatchEvent) × ((flush clock w).1 ≡ some e) × (e.paths ≡ w.pending)
unfolding flush get
flush-pending clock w k {c} h = go w.pending h
  where
    go :
        (m : List (Text × WatchCategory))
        → get k m ≡ some c
        → (e : CanonicalWatchEvent) × ((flush clock (record { pending = m; armed = w.armed })).1
            ≡ some e)
          × (e.paths ≡ m)
    go [] h = absurd (ground arith)
    go (x ∷ m) h = (
      record { categories = categories_from [] (x ∷ m); paths = x ∷ m; at = clock },
      ground arith,
      refl,
    )

-- A path that is fed and has a category is in the next batch, under its normalized form and with its
-- category, whatever else is fed before the batch is emitted.
pub feeds-flush :
    (raw : Text) (c : WatchCategory) (paths : List Text) (later : List (List Text))
    (w : WatchIngest) (clock : ℕ)
    → any (text_eq raw) paths ≡ true
    → classify_watch_path raw ≡ some c
    → (e : CanonicalWatchEvent) × ((flush clock (feeds later (feed paths w))).1 ≡ some e)
      × (get (normalize_watch_path raw) e.paths ≡ some c)
feeds-flush raw c paths later w clock h e =
    let found =
      feeds-keeps (normalize_watch_path raw) c later (feed paths w)
        (sym (classify-category_of raw) ∙ e) (feed-finds raw c paths w h e) in
    let (event, emitted, same) =
      flush-pending clock (feeds later (feed paths w)) (normalize_watch_path raw) found in
    (event, emitted, rw same found)

perform-IsSound : (o : Op) (w : WatchIngest) → IsSound w.pending → IsSound (perform o w).pending
unfolding feed flush dispose
perform-IsSound (feed_op paths) w h = feed_from-IsSound paths w.pending false h
perform-IsSound (flush_op clock) w h = go (length w.pending == 0)
  where
    go :
        (b : Bool)
        → let a : WatchIngest × Option CanonicalWatchEvent =
            if b then (record w { armed = false }, none) else (
              record { pending = []; armed = false },
              some (record {
                categories = categories_from [] w.pending;
                paths = w.pending;
                at = clock;
              }),
            ) in
          IsSound a.0.pending
    go true = h
    go false = tt
perform-IsSound dispose_op w h = tt

performs-IsSound :
    (os : List Op) (w : WatchIngest) → IsSound w.pending → IsSound (performs os w).pending
unfolding performs
performs-IsSound [] w h = h
performs-IsSound (o ∷ os) w h = performs-IsSound os (perform o w) (perform-IsSound o w h)

flush_event :
    (clock : ℕ) (w : WatchIngest) (e : CanonicalWatchEvent)
    → (flush clock w).1 ≡ some e
    → (e.paths ≡ w.pending) × (e.categories ≡ categories_from [] w.pending)
unfolding flush
flush_event clock w e h = elim (Bool-cases (length w.pending == 0)) [
  | inl nothing ↦ absurd (ground arith)
  | inr something ↦ ground arith
]

any-snoc :
    (p : WatchCategory → Bool) (cs : List WatchCategory) (d : WatchCategory)
    → any p (cs ++ d ∷ []) ≡ (any p cs || p d)
any-snoc p [] d = ground arith
any-snoc p (c ∷ cs) d = ground (arith, any-snoc p cs d)

add_category-any :
    (c d : WatchCategory) (cs : List WatchCategory)
    → any (same_category c) (add_category d cs) ≡ (any (same_category c) cs || same_category c d)
add_category-any working_tree working_tree cs =
    ground (arith, any-snoc (same_category working_tree) cs working_tree)
add_category-any c d cs = ground (arith, any-snoc (same_category c) cs d)

categories_from-any :
    (c : WatchCategory) (m : List (Text × WatchCategory)) (cs : List WatchCategory)
    → any (same_category c) (categories_from cs m)
      ≡ (any (same_category c) cs || any (λ x. same_category c x.1) m)
unfolding categories_from
categories_from-any c [] cs = ground arith
categories_from-any c ((rel, d) ∷ m) cs =
    ground (arith, categories_from-any c m (add_category d cs), add_category-any c d cs)

-- Whatever was fed, flushed and disposed of before, every path of a batch stands with the category
-- that the policy gives it, and the batch names exactly the categories of its paths.
pub flush_batch :
    (os : List Op) (clock : ℕ) (e : CanonicalWatchEvent)
    → (flush clock (performs os create)).1 ≡ some e
    → IsSound e.paths
      × ((c : WatchCategory)
          → any (same_category c) e.categories ≡ any (λ x. same_category c x.1) e.paths)
flush_batch os clock e h = go (flush_event clock (performs os create) e h)
  where
    go :
        (e.paths ≡ (performs os create).pending)
          × (e.categories ≡ categories_from [] (performs os create).pending)
        → IsSound e.paths
          × ((c : WatchCategory)
              → any (same_category c) e.categories ≡ any (λ x. same_category c x.1) e.paths)
    go (same, cats) = (
      rw same (performs-IsSound os create tt),
      λ c. rw (same, cats) (categories_from-any c (performs os create).pending []),
    )
