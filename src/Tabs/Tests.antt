-- ===== src/Tabs/Tests.antt =====
-- Two tabs opened, one closed, and the panel stored.
use agent_cockpit.Base.{
  ◌≡◌, refl, Option, none, some, List, [], ◌∷◌, codes, Text, text_eq, if◌then◌else◌,
}
use agent_cockpit.Base.Maps.{get, set, delete}
use agent_cockpit.Tabs.{
  ContentSelection, file, ContentTab, ContentTabsSlice, empty_tabs, open_tab, close_tab,
  activate_tab, active_selection,
}
use agent_cockpit.Tabs.Slices.{IsSlice}
use agent_cockpit.Tabs.Runs.{Op, open_op, close_op, perform, performs, performs-IsSlice}
use agent_cockpit.Tabs.Stored.{
  Json, slice_json, selection_json, tabs_json, load_tabs, save_tabs, parse_data, read_tabs,
  is_selection, field,
}
use agent_cockpit.Tabs.Stored.RoundTrip.{load_tabs-save_tabs}

program : Unit {0}
unfolding open_tab close_tab activate_tab active_selection perform performs slice_json
    selection_json tabs_json load_tabs save_tabs parse_data read_tabs is_selection field get set
    delete
program = tt

abbrev at_path : Text → ContentSelection
at_path p = record { path = p; worktree_path = []; baseline = none; kind = file; old_path = none }

abbrev ops : List Op
ops =
    open_op (codes "/a") (at_path (codes "a"))
    ∷ open_op (codes "/b") (at_path (codes "b"))
    ∷ open_op (codes "/a") (at_path (codes "a"))
    ∷ []

abbrev tab : Text → ContentTab
tab p = record { id = p; selection = at_path p }

opened : (performs ops empty_tabs).active_id ≡ some (codes "/a")
unfolding program
opened = refl

closed :
    (performs (close_op (codes "/a") ∷ []) (performs ops empty_tabs)).active_id ≡ some (codes "/b")
unfolding program
closed = refl

performs-IsSlice_example : IsSlice (performs ops empty_tabs)
performs-IsSlice_example = performs-IsSlice ops empty_tabs (tt, refl)

abbrev one_tab : ContentTabsSlice
one_tab = record { tabs = tab (codes "/a") ∷ []; active_id = some (codes "/a") }

abbrev one_tab_text : Text
one_tab_text =
    codes
      "{'tabs':[{'id':'/a','selection':{'path':'/a','worktreePath':'','kind':'file'}}],'activeId':'/a'}"

-- A parser of that one text.
abbrev parse : Text → Option Json
parse t = if text_eq t one_tab_text then some (slice_json one_tab) else none

load_tabs-save_tabs_example :
    load_tabs parse
      (λ _. one_tab_text)
      (codes "p")
      (save_tabs parse (λ _. one_tab_text) (codes "p") one_tab [])
    ≡ some one_tab
load_tabs-save_tabs_example =
    load_tabs-save_tabs parse (λ _. one_tab_text) (codes "p") one_tab [] refl refl
      ((refl, tt), refl)
