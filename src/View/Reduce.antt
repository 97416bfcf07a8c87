-- ===== src/View/Reduce.antt =====
-- src/renderer/tmux/tmuxStore.ts: `reduce`, one function for each kind of notification.
use agent_cockpit.Base.{Bool, true, false, not, ◌&&◌, ◌||◌, Option, none, some, List, [], ◌∷◌, ◌++◌}
use agent_cockpit.Base.{is_some, Text, text_eq, if◌then◌else◌, length, keep, any, trim, ◌==◌}
use agent_cockpit.Base.Maps.{get, set, delete}
use agent_cockpit.Layout.{LayoutNode, WindowLayout}
use agent_cockpit.Control.{
  TmuxNotification, output, window_add, unlinked_window_add, window_close, window_renamed,
  window_pane_changed, layout_change, session_changed, session_renamed, sessions_changed,
  session_window_changed, client_session_changed, client_detached, pane_mode_changed, exit,
  continued, pause, subscription_changed, unknown, reply, attached,
}
use agent_cockpit.View.{
  PaneState, WindowState, TmuxViewState, empty_view, pane_ids_of, collect_pane_ids,
  ParsedSubscription, title, mouse, unrelated, parse_subscription_name, parse_mouse_flags_value,
  same_text, is_true, is_flag, fresh_window, fresh_pane, last, index_panes, drop_panes,
}

-- Each with the entry of the window or the pane that it is about.
abbrev pub add_window : Option WindowState → Text → TmuxViewState → TmuxViewState
add_window (some w) id v = v
add_window none id v = record v {
  window_order = v.window_order ++ id ∷ [];
  windows = set id (fresh_window id) v.windows;
}

abbrev pub close_window : Option WindowState → Text → TmuxViewState → TmuxViewState
close_window none id v = v
close_window (some w) id v =
    let order = keep (λ w. not (text_eq w id)) v.window_order in
    record v {
      windows = delete id v.windows;
      panes = drop_panes (pane_ids_of w.layout) v.panes;
      window_order = order;
      active_window_id = if same_text v.active_window_id id then last order else v.active_window_id;
    }

abbrev pub rename_window : Option WindowState → Text → Text → TmuxViewState → TmuxViewState
rename_window none id name v = v
rename_window (some w) id name v = record v {
  windows = set id (record w { name = name }) v.windows;
}

-- The flags hold a `Z`.
abbrev pub zoomed : Option Text → Bool
zoomed none = false
zoomed (some flags) = any (λ c. c == 0x5a) flags

abbrev pub root_of : Option WindowLayout → Option LayoutNode
root_of none = none
root_of (some layout) = some layout.root

abbrev pub name_of : Option WindowState → Text → Text
name_of none id = id
name_of (some w) id = w.name

abbrev pub order_with : Option WindowState → Text → List Text → List Text
order_with none id order = order ++ id ∷ []
order_with (some w) id order = order

abbrev pub change_layout :
    Option WindowState
    → Text
    → WindowLayout
    → Option WindowLayout
    → Option Text
    → TmuxViewState
    → TmuxViewState
change_layout existing id layout visible flags v = record v {
  window_order = order_with existing id v.window_order;
  windows =
      set id
        (record {
          window_id = id;
          name = name_of existing id;
          display_name = none;
          layout = some layout.root;
          is_zoomed = zoomed flags;
          visible_layout = root_of visible;
        })
        v.windows;
  panes = index_panes id (collect_pane_ids layout.root) v.panes;
}

abbrev pub change_pane : Option WindowState → Text → Text → TmuxViewState → TmuxViewState
change_pane none id pane v = v
change_pane (some w) id pane v = record v { active_window_id = some id; active_pane_id = some pane }

abbrev pub is_foreign : Option Text → Text → Bool
is_foreign none id = false
is_foreign (some own) id = not (text_eq own id)

abbrev pub change_window : Text → Text → TmuxViewState → TmuxViewState
change_window session id v =
    if is_foreign v.session_id session
    then v
    else record v { active_window_id = some id; active_pane_id = none }

abbrev pub set_paused : Option PaneState → Text → Bool → TmuxViewState → TmuxViewState
set_paused none id b v = record v {
  panes = set id (record (fresh_pane id) { paused = some b }) v.panes;
}
set_paused (some p) id b v =
    if is_flag (some (is_true p.paused)) b
    then v
    else record v { panes = set id (record p { paused = some b }) v.panes }

abbrev pub set_title : Option WindowState → Text → Text → TmuxViewState → TmuxViewState
set_title none id name v = v
set_title (some w) id name v =
    if length name == 0
    then v
    else if same_text w.display_name name
    then v
    else record v { windows = set id (record w { display_name = some name }) v.windows }

abbrev pub set_mouse : Option PaneState → Text → Bool → Bool → TmuxViewState → TmuxViewState
set_mouse none id a b v = record v {
  panes = set id (record (fresh_pane id) { mouse_any = some a; mouse_sgr = some b }) v.panes;
}
set_mouse (some p) id a b v =
    if is_flag p.mouse_any a && is_flag p.mouse_sgr b
    then v
    else record v { panes = set id (record p { mouse_any = some a; mouse_sgr = some b }) v.panes }

abbrev pub change_subscription : ParsedSubscription → Text → TmuxViewState → TmuxViewState
change_subscription unrelated value v = v
change_subscription (title id) value v = set_title (get id v.windows) id (trim value) v
change_subscription (mouse id) value v =
    set_mouse (get id v.panes) id (parse_mouse_flags_value value).0
      (parse_mouse_flags_value value).1 v

abbrev pub keeps_paused : Option PaneState → Bool → Bool
keeps_paused none b = false
keeps_paused (some p) b = is_flag (some (is_true p.paused)) b

abbrev pub keeps_title : Option WindowState → Text → Bool
keeps_title none name = true
keeps_title (some w) name = length name == 0 || same_text w.display_name name

abbrev pub keeps_mouse : Option PaneState → Bool → Bool → Bool
keeps_mouse none a b = false
keeps_mouse (some p) a b = is_flag p.mouse_any a && is_flag p.mouse_sgr b

abbrev pub keeps_subscription : ParsedSubscription → Text → TmuxViewState → Bool
keeps_subscription unrelated value v = true
keeps_subscription (title id) value v = keeps_title (get id v.windows) (trim value)
keeps_subscription (mouse id) value v =
    keeps_mouse (get id v.panes) (parse_mouse_flags_value value).0 (parse_mouse_flags_value value).1

module _ {N : Type 0} where
  unfoldable pub reduce : TmuxViewState → TmuxNotification N → TmuxViewState
  reduce v (unlinked_window_add id) = v
  reduce v (window_add id) = add_window (get id v.windows) id v
  reduce v (window_close id) = close_window (get id v.windows) id v
  reduce v (window_renamed id name) = rename_window (get id v.windows) id name v
  reduce v (layout_change id layout visible flags) =
      change_layout (get id v.windows) id layout visible flags v
  reduce v (window_pane_changed id pane) = change_pane (get id v.windows) id pane v
  reduce v (session_window_changed session id) = change_window session id v
  reduce v (session_changed id name) = record v { session_name = some name; session_id = some id }
  reduce v (exit reason) = empty_view
  reduce v (pause id) = set_paused (get id v.panes) id true v
  reduce v (continued id) = set_paused (get id v.panes) id false v
  reduce v (subscription_changed name value) =
      change_subscription (parse_subscription_name name) value v
  reduce v (output id bytes) = v
  reduce v (session_renamed name) = v
  reduce v sessions_changed = v
  reduce v (client_session_changed client session name) = v
  reduce v (client_detached client) = v
  reduce v (pane_mode_changed id) = v
  reduce v (reply n error lines) = v
  reduce v (attached epoch) = v
  reduce v (unknown line) = v

  -- Whether `reduce` returns the object that it was given, and no new one.
  unfoldable pub returns_state : TmuxViewState → TmuxNotification N → Bool
  returns_state v (unlinked_window_add id) = true
  returns_state v (window_add id) = is_some (get id v.windows)
  returns_state v (window_close id) = not (is_some (get id v.windows))
  returns_state v (window_renamed id name) = not (is_some (get id v.windows))
  returns_state v (layout_change id layout visible flags) = false
  returns_state v (window_pane_changed id pane) = not (is_some (get id v.windows))
  returns_state v (session_window_changed session id) = is_foreign v.session_id session
  returns_state v (session_changed id name) = false
  returns_state v (exit reason) = false
  returns_state v (pause id) = keeps_paused (get id v.panes) true
  returns_state v (continued id) = keeps_paused (get id v.panes) false
  returns_state v (subscription_changed name value) =
      keeps_subscription (parse_subscription_name name) value v
  returns_state v (output id bytes) = true
  returns_state v (session_renamed name) = true
  returns_state v sessions_changed = true
  returns_state v (client_session_changed client session name) = true
  returns_state v (client_detached client) = true
  returns_state v (pane_mode_changed id) = true
  returns_state v (reply n error lines) = true
  returns_state v (attached epoch) = true
  returns_state v (unknown line) = true
