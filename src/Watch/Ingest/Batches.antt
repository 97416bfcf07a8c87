-- ===== src/Watch/Ingest/Batches.antt =====
-- What a batch holds, and when one is owed.
use agent_cockpit.Base.{ℕ, ◌<◌, ◌≡◌, refl, ap, sym, ◌∙◌, Bool, true, false, Option, none, some}
use agent_cockpit.Base.{List, [], ◌∷◌, arith, Text, text_eq, text_eq_iff, any, All, length}
use agent_cockpit.Base.{if◌then◌else◌, Bool-cases, Option-cases, inl, inr, ltb}
use agent_cockpit.Base.Maps.{get, set, get-set, get-set_self, length-set-pos}
use agent_cockpit.Watch.Policy.{WatchCategory, classify_watch_path, normalize_watch_path}
use agent_cockpit.Watch.Policy.{classify_segments, split_slash}
use agent_cockpit.Watch.Ingest.{WatchIngest, flush, feed_from, feed, dispose}

-- A timer runs exactly when something is pending.
abbrev pub IsArmed : WatchIngest → Type 0
IsArmed w = w.armed ≡ ltb 0 (length w.pending)

pub data Op : Type 0 where
  feed_op : List Text → Op
  flush_op : ℕ → Op
  dispose_op : Op

abbrev pub perform : Op → WatchIngest → WatchIngest
perform (feed_op paths) w = feed paths w
perform (flush_op clock) w = (flush clock w).0
perform dispose_op w = dispose w

unfoldable pub performs : List Op → WatchIngest → WatchIngest
performs [] w = w
performs (o ∷ os) w = performs os (perform o w)

-- The rounds of `feed`.
feed_from-nil : (m : List (Text × WatchCategory)) (added : Bool) → feed_from [] m added ≡ (m, added)
unfolding feed_from
feed_from-nil m added = refl

feed_from_skip :
    (raw : Text) (paths : List Text) (m : List (Text × WatchCategory)) (added : Bool)
    → classify_watch_path raw ≡ none
    → feed_from (raw ∷ paths) m added ≡ feed_from paths m added
unfolding feed_from
feed_from_skip raw paths m added h = rw (h, feed_from)

feed_from_put :
    (raw : Text) (paths : List Text) (m : List (Text × WatchCategory)) (added : Bool)
    {c : WatchCategory}
    → classify_watch_path raw ≡ some c
    → feed_from (raw ∷ paths) m added ≡ feed_from paths (set (normalize_watch_path raw) c m) true
unfolding feed_from
feed_from_put raw paths m added h = rw (h, feed_from)

feed_from-true :
    (paths : List Text) (m : List (Text × WatchCategory)) → (feed_from paths m true).1 ≡ true
feed_from-true [] m = rw (feed_from-nil m true)
feed_from-true (raw ∷ paths) m = elim (Option-cases (classify_watch_path raw)) [
  | inl dropped ↦ rw (feed_from_skip raw paths m true dropped) (feed_from-true paths m)
  | inr (c, kept) ↦
      rw (feed_from_put raw paths m true kept)
        (feed_from-true paths (set (normalize_watch_path raw) c m))
]

feed_from-added :
    (paths : List Text) (m : List (Text × WatchCategory)) (added : Bool)
    → (added ≡ true → 0 < length m)
    → ((feed_from paths m added).1 ≡ true → 0 < length (feed_from paths m added).0)
      × ((feed_from paths m added).1 ≡ false → (feed_from paths m added).0 ≡ m)
feed_from-added [] m added h = rw (feed_from-nil m added) (h, λ _. refl)
feed_from-added (raw ∷ paths) m added h = elim (Option-cases (classify_watch_path raw)) [
  | inl dropped ↦ rw (feed_from_skip raw paths m added dropped) (feed_from-added paths m added h)
  | inr (c, kept) ↦
      let m' = set (normalize_watch_path raw) c m in
      rw (feed_from_put raw paths m added kept) (
        (feed_from-added paths m' true (λ _. length-set-pos (normalize_watch_path raw) c m)).0,
        λ no_path. cc (no_path, feed_from-true paths m'),
      )
]

feed-IsArmed : (paths : List Text) (w : WatchIngest) → IsArmed w → IsArmed (feed paths w)
unfolding feed
feed-IsArmed paths w h = ground (arith, feed_from-added paths w.pending false)

perform-IsArmed : (o : Op) (w : WatchIngest) → IsArmed w → IsArmed (perform o w)
unfolding flush dispose
perform-IsArmed (feed_op paths) w h = feed-IsArmed paths w h
perform-IsArmed (flush_op clock) w h = ground arith
perform-IsArmed dispose_op w h = refl

-- After any sequence of feeds, flushes and disposals the timer is armed exactly when a path is
-- pending: no accepted path waits without a flush to come, and no timer fires for nothing.
pub performs-IsArmed : (os : List Op) (w : WatchIngest) → IsArmed w → IsArmed (performs os w)
unfolding performs
performs-IsArmed [] w h = h
performs-IsArmed (o ∷ os) w h = performs-IsArmed os (perform o w) (perform-IsArmed o w h)

-- The category of a normalized path.
abbrev pub category_of : Text → Option WatchCategory
category_of rel = if text_eq rel [] then none else classify_segments rel (split_slash rel)

pub classify-category_of : (p : Text) → classify_watch_path p ≡ category_of (normalize_watch_path p)
unfolding classify_watch_path
classify-category_of p = refl

-- Every path stands with its category.
abbrev pub IsSound : List (Text × WatchCategory) → Type 0
IsSound = All (λ e. category_of e.0 ≡ some e.1)

set-IsSound :
    (k : Text) (c : WatchCategory) (m : List (Text × WatchCategory))
    → category_of k ≡ some c
    → IsSound m
    → IsSound (set k c m)
unfolding set
set-IsSound k c [] e h = (e, tt)
set-IsSound k c ((j, d) ∷ m) e (here, later) = elim (Bool-cases (text_eq j k)) [
  | inl same ↦ rw same (rw ((text_eq_iff j k).0 same) e, later)
  | inr other ↦ rw other (here, set-IsSound k c m e later)
]

pub feed_from-IsSound :
    (paths : List Text) (m : List (Text × WatchCategory)) (added : Bool)
    → IsSound m
    → IsSound (feed_from paths m added).0
feed_from-IsSound [] m added h = rw (feed_from-nil m added) h
feed_from-IsSound (raw ∷ paths) m added h = elim (Option-cases (classify_watch_path raw)) [
  | inl dropped ↦ rw (feed_from_skip raw paths m added dropped) (feed_from-IsSound paths m added h)
  | inr (c, kept) ↦ rw (feed_from_put raw paths m added kept) (
      feed_from-IsSound paths (set (normalize_watch_path raw) c m) true
        (set-IsSound _ c m (sym (classify-category_of raw) ∙ kept) h))
]

category_unique :
    (k raw : Text) (c d : WatchCategory)
    → category_of k ≡ some c
    → classify_watch_path raw ≡ some d
    → text_eq (normalize_watch_path raw) k ≡ true
    → some d ≡ some c
category_unique k raw c d e kept same =
    sym kept
    ∙ classify-category_of raw
    ∙ ap category_of ((text_eq_iff (normalize_watch_path raw) k).0 same)
    ∙ e

-- A pending path keeps its category when more paths are fed.
pub feed_from-keeps :
    (k : Text) (c : WatchCategory) (paths : List Text) (m : List (Text × WatchCategory))
    (added : Bool)
    → category_of k ≡ some c
    → get k m ≡ some c
    → get k (feed_from paths m added).0 ≡ some c
feed_from-keeps k c [] m added e h = rw (feed_from-nil m added) h
feed_from-keeps k c (raw ∷ paths) m added e h = elim (Option-cases (classify_watch_path raw)) [
  | inl dropped ↦
      rw (feed_from_skip raw paths m added dropped) (feed_from-keeps k c paths m added e h)
  | inr (d, kept) ↦ rw (feed_from_put raw paths m added kept) (
      feed_from-keeps k c paths (set (normalize_watch_path raw) d m) true e (
        get-set (normalize_watch_path raw) k d m
        ∙ elim (Bool-cases (text_eq (normalize_watch_path raw) k)) [
          | inl same ↦ rw same (category_unique k raw c d e kept same)
          | inr other ↦ rw other h
        ]))
]

pub feed_from-finds :
    (raw : Text) (c : WatchCategory) (paths : List Text) (m : List (Text × WatchCategory))
    (added : Bool)
    → any (text_eq raw) paths ≡ true
    → classify_watch_path raw ≡ some c
    → get (normalize_watch_path raw) (feed_from paths m added).0 ≡ some c
feed_from-finds raw c [] m added h e = cc
feed_from-finds raw c (p ∷ paths) m added h e = elim (Bool-cases (text_eq raw p)) [
  | inl here ↦
      let same : raw ≡ p = (text_eq_iff raw p).0 here in
      let kept : classify_watch_path p ≡ some c = ap classify_watch_path (sym same) ∙ e in
      let m' = set (normalize_watch_path raw) c m in
      rw (feed_from_put p paths m added kept, ← same)
        (feed_from-keeps (normalize_watch_path raw) c paths m' true
          (sym (classify-category_of raw) ∙ e) (get-set_self (normalize_watch_path raw) c m))
  | inr there ↦
      let later : any (text_eq raw) paths ≡ true = rw there at h in
      elim (Option-cases (classify_watch_path p)) [
        | inl dropped ↦
            rw (feed_from_skip p paths m added dropped)
              (feed_from-finds raw c paths m added later e)
        | inr (d, kept) ↦
            rw (feed_from_put p paths m added kept)
              (feed_from-finds raw c paths (set (normalize_watch_path p) d m) true later e)
      ]
]
