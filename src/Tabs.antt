-- ===== src/Tabs.antt =====
-- src/renderer/content/tabState.ts: the open tabs of a project's Content panel. `JSON.parse` is a
-- parameter of `Tabs.Stored`; here are the tabs in memory.
pub mod Slices
pub mod Runs
pub mod Neighbours
pub mod Stored
mod Tests
use agent_cockpit.Base.{
  ℕ, zero, suc, Bool, true, false, not, ◌||◌, Option, none, some, List, [], ◌∷◌, ◌++◌,
}
use agent_cockpit.Base.{Text, text_eq, if◌then◌else◌, any, keep, find, get_elem?}

pub data ContentKind : Type 0 where
  change : ContentKind
  file : ContentKind
  external_file : ContentKind

-- `oldPath` may be missing or null.
pub record ContentSelection : Type 0 where
  pub path : Text
  pub worktree_path : Text
  pub baseline : Option Text
  pub kind : ContentKind
  pub old_path : Option (Option Text)

pub record ContentTab : Type 0 where
  pub id : Text
  pub selection : ContentSelection

pub record ContentTabsSlice : Type 0 where
  pub tabs : List ContentTab
  pub active_id : Option Text

abbrev pub empty_tabs : ContentTabsSlice
empty_tabs = record { tabs = []; active_id = none }

-- `(t) => t.id === id`
abbrev pub has_id : Text → ContentTab → Bool
has_id id t = text_eq t.id id

abbrev pub find_index {ℓ} : {A : Type ℓ} → (A → Bool) → List A → Option ℕ
find_index p [] = none
find_index p (x ∷ xs) =
    if p x then some 0 else elim (find_index p xs) [ none ↦ none | some i ↦ some (suc i) ]

abbrev pub set_at {ℓ} : {A : Type ℓ} → ℕ → A → List A → List A
set_at i y [] = []
set_at zero y (x ∷ xs) = y ∷ xs
set_at (suc i) y (x ∷ xs) = x ∷ set_at i y xs

unfoldable pub open_tab : ContentTabsSlice → Text → ContentSelection → ContentTabsSlice
open_tab slice id selection = elim (find_index (has_id id) slice.tabs) [
  | none ↦ record {
    tabs = slice.tabs ++ record { id = id; selection = selection } ∷ [];
    active_id = some id;
  }
  | some existing ↦ record {
    tabs = set_at existing (record { id = id; selection = selection }) slice.tabs;
    active_id = some id;
  }
]

-- `tabs[index - 1]`, nothing at index 0.
abbrev pub elem_before {ℓ} : {A : Type ℓ} → List A → ℕ → Option A
elem_before xs zero = none
elem_before xs (suc i) = get_elem? xs i

-- `a ?? b`
abbrev pub or_else {ℓ} : {A : Type ℓ} → Option A → Option A → Option A
or_else (some x) o = some x
or_else none o = o

abbrev pub id_of : Option ContentTab → Option Text
id_of none = none
id_of (some t) = some t.id

-- `a === id` for an identifier that may be null.
abbrev pub is_id : Option Text → Text → Bool
is_id none id = false
is_id (some a) id = text_eq a id

-- The rest of `closeTab` once the tab is found.
abbrev pub close_at : ContentTabsSlice → Text → ℕ → ContentTabsSlice
close_at slice id index =
    let tabs = keep (λ t. not (has_id id t)) slice.tabs in
    if not (is_id slice.active_id id)
    then record { tabs = tabs; active_id = slice.active_id }
    else record {
      tabs = tabs;
      active_id = id_of (or_else (get_elem? tabs index) (elem_before tabs index));
    }

unfoldable pub close_tab : ContentTabsSlice → Text → ContentTabsSlice
close_tab slice id = elim (find_index (has_id id) slice.tabs) [
  | none ↦ slice
  | some index ↦ close_at slice id index
]

unfoldable pub activate_tab : ContentTabsSlice → Text → ContentTabsSlice
activate_tab slice id =
    if is_id slice.active_id id || not (any (has_id id) slice.tabs)
    then slice
    else record slice { active_id = some id }

abbrev pub selection_of : Option ContentTab → Option ContentSelection
selection_of none = none
selection_of (some t) = some t.selection

unfoldable pub active_selection : ContentTabsSlice → Option ContentSelection
active_selection slice = selection_of (find (λ t. is_id slice.active_id t.id) slice.tabs)
