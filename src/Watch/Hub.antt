-- ===== src/Watch/Hub.antt =====
-- src/renderer/watch/hub.ts: one provider subscription, fanned out by category. A listener is known
-- by the number of its registration; what is delivered is the list of the calls of `onEvent`.
pub mod Dispatch
mod Tests
use agent_cockpit.Base.{
  ℕ, Bool, true, false, ◌&&◌, not, Option, none, some, List, [], ◌∷◌, ◌++◌, any,
}
use agent_cockpit.Base.{Text, if◌then◌else◌, length, ◌==◌, keep}
use agent_cockpit.Watch.Policy.{WatchCategory, classify_watch_path}
use agent_cockpit.Watch.Ingest.{same_category, add_category}

pub record HubWatchEvent : Type 0 where
  pub project_id : Text
  pub worktree_path : Option Text
  pub categories : List WatchCategory
  pub paths : List Text
  pub at : Text

-- What arrives from the provider; a missing field is `none`.
pub record RawEvent : Type 0 where
  pub project_id : Option Text
  pub worktree_path : Option Text
  pub paths : Option (List Text)
  pub at : Option Text

pub record Listener : Type 0 where
  pub id : ℕ
  pub interest : List WatchCategory

-- `detach !== null` is `attached`.
pub record Hub : Type 0 where
  pub listeners : List Listener
  pub attached : Bool

abbrev pub default {ℓ} : {A : Type ℓ} → A → Option A → A
default a none = a
default a (some b) = b

-- The first loop of `handleRaw`: the classified paths and their categories.
unfoldable pub classify_all :
    List Text → List Text → List WatchCategory → List Text × List WatchCategory
classify_all [] paths categories = (paths, categories)
classify_all (p ∷ raw) paths categories = elim (classify_watch_path p) [
  | none ↦ classify_all raw paths categories
  | some c ↦ classify_all raw (paths ++ p ∷ []) (add_category c categories)
]

-- The inner loop, which breaks off after the call.
unfoldable pub wants : List WatchCategory → Listener → Bool
wants [] l = false
wants (c ∷ cs) l = if any (same_category c) l.interest then true else wants cs l

unfoldable pub deliver :
    List WatchCategory → HubWatchEvent → List Listener → List (ℕ × HubWatchEvent)
deliver categories event [] = []
deliver categories event (l ∷ ls) =
    let rest = deliver categories event ls in
    if wants categories l then (l.id, event) ∷ rest else rest

unfoldable pub handle_raw : RawEvent → List Listener → List (ℕ × HubWatchEvent)
handle_raw e ls =
    let (paths, categories) = classify_all (default [] e.paths) [] [] in
    if length categories == 0
    then []
    else deliver categories
        (record {
          project_id = default [] e.project_id;
          worktree_path = e.worktree_path;
          categories = categories;
          paths = paths;
          at = default [] e.at;
        })
        ls

unfoldable pub subscribe_watch : Listener → Hub → Hub
subscribe_watch l h = record { listeners = h.listeners ++ l ∷ []; attached = true }

-- The function that `subscribeWatch` returns.
unfoldable pub unsubscribe : ℕ → Hub → Hub
unsubscribe id h =
    let left = keep (λ l. not (l.id == id)) h.listeners in
    record { listeners = left; attached = if length left == 0 then false else h.attached }
