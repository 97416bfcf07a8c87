-- ===== src/Tabs/Stored.antt =====
-- src/renderer/content/tabState.ts: the tabs of a project in `localStorage`, which is a map from keys to
-- texts and takes every write. `JSON.parse` and `JSON.stringify` are parameters.
pub mod RoundTrip
use agent_cockpit.Base.{
  ℕ, Bool, true, false, ◌||◌, Option, none, some, List, [], ◌∷◌, ◌++◌, any, length, ◌==◌,
}
use agent_cockpit.Base.{Text, codes, text_eq, if◌then◌else◌}
use agent_cockpit.Base.Maps.{get, set, delete}
use agent_cockpit.Tabs.{
  ContentKind, change, file, external_file, ContentSelection, ContentTab, ContentTabsSlice, id_of,
}

mutual
  pub data Json : Type 0 where
    null : Json
    boolean : Bool → Json
    number : ℕ → Json
    string : Text → Json
    array : Items → Json
    object : Members → Json

  pub data Items : Type 0 where
    nil : Items
    cons : Json → Items → Items

  pub data Members : Type 0 where
    end : Members
    member : Text → Json → Members → Members

-- A member of an object, nothing for `undefined`; of two with one name the later counts.
unfoldable pub field : Text → Members → Option Json
field k end = none
field k (member j v ms) = elim (field k ms) [
  | some w ↦ some w
  | none ↦ if text_eq j k then some v else none
]

-- A member of a value that may not be an object.
abbrev pub prop : Text → Json → Option Json
prop k (object ms) = field k ms
prop k null = none
prop k (boolean b) = none
prop k (number n) = none
prop k (string s) = none
prop k (array js) = none

-- `typeof value === 'string'`, with the string.
abbrev pub as_string : Option Json → Option Text
as_string (some (string s)) = some s
as_string _ = none

abbrev pub as_kind : Option Text → Option ContentKind
as_kind none = none
as_kind (some s) =
    if text_eq s (codes "change")
    then some change
    else if text_eq s (codes "file")
    then some file
    else if text_eq s (codes "external-file")
    then some external_file
    else none

-- `undefined`, a string, or something else.
abbrev pub as_baseline : Option Json → Option (Option Text)
as_baseline none = some none
as_baseline (some (string s)) = some (some s)
as_baseline (some _) = none

-- `undefined`, `null`, a string, or something else.
abbrev pub as_old_path : Option Json → Option (Option (Option Text))
as_old_path none = some none
as_old_path (some null) = some (some none)
as_old_path (some (string s)) = some (some (some s))
as_old_path (some _) = none

abbrev pub selection_from :
    Option Text
    → Option Text
    → Option ContentKind
    → Option (Option Text)
    → Option (Option (Option Text))
    → Option ContentSelection
selection_from (some p) (some w) (some k) (some b) (some o) =
    some (record { path = p; worktree_path = w; baseline = b; kind = k; old_path = o })
selection_from _ _ _ _ _ = none

-- `isSelection`, with the selection: on a value that is no object every member is missing.
unfoldable pub is_selection : Json → Option ContentSelection
is_selection value =
    selection_from (as_string (prop (codes "path") value))
      (as_string (prop (codes "worktreePath") value))
      (as_kind (as_string (prop (codes "kind") value)))
      (as_baseline (prop (codes "baseline") value)) (as_old_path (prop (codes "oldPath") value))

abbrev pub selection_at : Option Json → Option ContentSelection
selection_at none = none
selection_at (some v) = is_selection v

-- One round of the loop over the stored tabs, from the identifiers seen and the tabs so far.
abbrev pub push_tab :
    Option Text
    → Option ContentSelection
    → List Text × List ContentTab
    → List Text × List ContentTab
push_tab (some id) (some selection) (seen, tabs) =
    if any (text_eq id) seen
    then (seen, tabs)
    else (id ∷ seen, tabs ++ record { id = id; selection = selection } ∷ [])
push_tab none _ r = r
push_tab (some id) none r = r

unfoldable pub read_tabs : Items → List Text × List ContentTab → List Text × List ContentTab
read_tabs nil r = r
read_tabs (cons t js) r =
    read_tabs js
      (push_tab (as_string (prop (codes "id") t)) (selection_at (prop (codes "selection") t)) r)

abbrev pub first_id : List ContentTab → Option Text
first_id [] = none
first_id (t ∷ ts) = some t.id

abbrev pub active_from : Option Text → List Text × List ContentTab → Option Text
active_from none (seen, tabs) = first_id tabs
active_from (some id) (seen, tabs) = if any (text_eq id) seen then some id else first_id tabs

abbrev pub slice_from : Option Json → Option Text → Option ContentTabsSlice
slice_from (some (array js)) active =
    let r = read_tabs js ([], []) in some (record { tabs = r.1; active_id = active_from active r })
slice_from _ active = none

-- `parseTabs` after `JSON.parse`; on `null` the access to `tabs` throws, and on any other value that is
-- no object `tabs` is missing.
unfoldable pub parse_data : Json → Option ContentTabsSlice
parse_data value =
    slice_from (prop (codes "tabs") value) (as_string (prop (codes "activeId") value))

abbrev pub storage_prefix : Text
storage_prefix = codes "agent-cockpit:content-tabs:v1:"

abbrev pub storage_key : Text → Text
storage_key project_id = storage_prefix ++ project_id

abbrev pub Storage : Type 0
Storage = List (Text × Text)

-- `JSON.stringify` of a slice, up to the text: a missing member is left out.
abbrev pub kind_name : ContentKind → Text
kind_name change = codes "change"
kind_name file = codes "file"
kind_name external_file = codes "external-file"

abbrev pub baseline_member : Option Text → Members → Members
baseline_member none ms = ms
baseline_member (some b) ms = member (codes "baseline") (string b) ms

abbrev pub nullable : Option Text → Json
nullable none = null
nullable (some s) = string s

abbrev pub old_path_member : Option (Option Text) → Members → Members
old_path_member none ms = ms
old_path_member (some o) ms = member (codes "oldPath") (nullable o) ms

unfoldable pub selection_json : ContentSelection → Json
selection_json s = object (
    member (codes "path") (string s.path) (
      member (codes "worktreePath") (string s.worktree_path) (
        member (codes "kind") (string (kind_name s.kind))
          (baseline_member s.baseline (old_path_member s.old_path end)))))

abbrev pub tab_json : ContentTab → Json
tab_json t = object (
    member (codes "id") (string t.id) (member (codes "selection") (selection_json t.selection) end))

unfoldable pub tabs_json : List ContentTab → Items
tabs_json [] = nil
tabs_json (t ∷ ts) = cons (tab_json t) (tabs_json ts)

unfoldable pub slice_json : ContentTabsSlice → Json
slice_json s = object (
    member (codes "tabs") (array (tabs_json s.tabs))
      (member (codes "activeId") (nullable s.active_id) end))

module _ (parse : Text → Option Json) (stringify : Json → Text) where
  abbrev pub parse_text : Option Json → Option ContentTabsSlice
  parse_text none = none
  parse_text (some value) = parse_data value

  abbrev pub parse_tabs : Option Text → Option ContentTabsSlice
  parse_tabs none = none
  parse_tabs (some []) = none
  parse_tabs (some (c ∷ raw)) = parse_text (parse (c ∷ raw))

  unfoldable pub load_tabs : Text → Storage → Option ContentTabsSlice
  load_tabs project_id m = parse_tabs (get (storage_key project_id) m)

  unfoldable pub save_tabs : Text → ContentTabsSlice → Storage → Storage
  save_tabs project_id slice m =
      if length slice.tabs == 0
      then delete (storage_key project_id) m
      else set (storage_key project_id) (stringify (slice_json slice)) m
