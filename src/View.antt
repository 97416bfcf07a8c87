-- ===== src/View.antt =====
-- src/renderer/tmux/tmuxStore.ts: the view that the renderer keeps of a project's tmux session, folded from the
-- notifications of the control-mode parser, and src/shared/tmux/subscriptions.ts, the names of its format
-- subscriptions. The objects `windows` and `panes` are maps in insertion order.
pub mod Reduce
pub mod WellFormed
pub mod Invariant
pub mod Repeat
pub mod Foreign
pub mod Store
mod Tests
use agent_cockpit.Base.{
  ℕ, zero, suc, ◌+◌, ◌/◌, ◌%◌, Bool, true, false, not, ◌&&◌, ◌||◌, Option, none, some, List, [],
  ◌∷◌, ◌++◌,
}
use agent_cockpit.Base.{
  Text, codes, text_eq, starts_with, if◌then◌else◌, length, drop, keep, any, get_elem?, trim, ◌==◌,
  ltb,
}
use agent_cockpit.Base.Maps.{get, set, delete}
use agent_cockpit.Codec.Hex.{words}
use agent_cockpit.Layout.{LayoutNode, LayoutNodes, leaf, split, nil, cons, WindowLayout}
use agent_cockpit.Control.{
  TmuxNotification, output, window_add, unlinked_window_add, window_close, window_renamed,
  window_pane_changed, layout_change, session_changed, session_renamed, sessions_changed,
  session_window_changed, client_session_changed, client_detached, pane_mode_changed, exit,
  continued, pause, subscription_changed, unknown, reply, attached, or_empty,
}

pub record PaneState : Type 0 where
  pub pane_id : Text
  pub window_id : Option Text
  pub paused : Option Bool
  pub mouse_any : Option Bool
  pub mouse_sgr : Option Bool

pub record WindowState : Type 0 where
  pub window_id : Text
  pub name : Text
  pub display_name : Option Text
  pub layout : Option LayoutNode
  pub is_zoomed : Bool
  pub visible_layout : Option LayoutNode

pub record TmuxViewState : Type 0 where
  pub is_open : Bool
  pub open_error : Option Text
  pub session_name : Option Text
  pub session_id : Option Text
  pub window_order : List Text
  pub windows : List (Text × WindowState)
  pub panes : List (Text × PaneState)
  pub active_window_id : Option Text
  pub active_pane_id : Option Text

abbrev pub empty_view : TmuxViewState
empty_view = record {
  is_open = false;
  open_error = none;
  session_name = none;
  session_id = none;
  window_order = [];
  windows = [];
  panes = [];
  active_window_id = none;
  active_pane_id = none;
}

-- The decimal digits of a number below 10 ^ fuel, before a text.
digits_before : ℕ → ℕ → Text → Text
digits_before zero n s = s
digits_before (suc fuel) n s =
    let more = digits_before fuel (n / 10) ((0x30 + n % 10) ∷ s) in if n == 0 then s else more

unfoldable pub pane_name : Option ℕ → Text
unfolding digits_before
pane_name none = []
pane_name (some n) = 0x25 ∷ (if n == 0 then 0x30 ∷ [] else digits_before n n [])

unfoldable mutual
  pub collect_pane_ids : LayoutNode → List Text
  collect_pane_ids (leaf n w h x y) = pane_name n ∷ []
  collect_pane_ids (split d w h x y children) = collect_children children

  pub collect_children : LayoutNodes → List Text
  collect_children nil = []
  collect_children (cons node nodes) = collect_pane_ids node ++ collect_children nodes

abbrev pub pane_ids_of : Option LayoutNode → List Text
pane_ids_of none = []
pane_ids_of (some node) = collect_pane_ids node

pub data ParsedSubscription : Type 0 where
  title : Text → ParsedSubscription
  mouse : Text → ParsedSubscription
  unrelated : ParsedSubscription

abbrev pub title_sub_prefix : Text
title_sub_prefix = codes "cockpit-title-"

abbrev pub mouse_sub_prefix : Text
mouse_sub_prefix = codes "cockpit-mouse-"

unfoldable pub parse_subscription_name : Text → ParsedSubscription
parse_subscription_name name =
    if starts_with title_sub_prefix name
    then title (drop (length title_sub_prefix) name)
    else if starts_with mouse_sub_prefix name
    then mouse (drop (length mouse_sub_prefix) name)
    else unrelated

-- `any` and `sgr`
unfoldable pub parse_mouse_flags_value : Text → Bool × Bool
parse_mouse_flags_value value =
    let ws = words (trim value) in
    (
      text_eq (or_empty (get_elem? ws 0)) (codes "1"),
      text_eq (or_empty (get_elem? ws 1)) (codes "1"),
    )

-- `null` equals no text.
abbrev pub same_text : Option Text → Text → Bool
same_text none t = false
same_text (some s) t = text_eq s t

abbrev pub is_true : Option Bool → Bool
is_true none = false
is_true (some b) = b

abbrev pub same_bool : Bool → Bool → Bool
same_bool true b = b
same_bool false b = not b

abbrev pub is_flag : Option Bool → Bool → Bool
is_flag none b = false
is_flag (some a) b = same_bool a b

abbrev pub fresh_window : Text → WindowState
fresh_window id = record {
  window_id = id;
  name = id;
  display_name = none;
  layout = none;
  is_zoomed = false;
  visible_layout = none;
}

abbrev pub fresh_pane : Text → PaneState
fresh_pane id = record {
  pane_id = id;
  window_id = none;
  paused = none;
  mouse_any = none;
  mouse_sgr = none;
}

abbrev pub last : List Text → Option Text
last [] = none
last (x ∷ xs) = elim xs [ [] ↦ some x | _ ∷ _ ↦ last xs ]

abbrev pub or_fresh_pane : Option PaneState → Text → PaneState
or_fresh_pane none id = fresh_pane id
or_fresh_pane (some p) id = p

-- The loop of `layout-change` that indexes the panes.
unfoldable pub index_panes : Text → List Text → List (Text × PaneState) → List (Text × PaneState)
index_panes window [] m = m
index_panes window (id ∷ ids) m =
    index_panes window ids
      (set id (record (or_fresh_pane (get id m) id) { pane_id = id; window_id = some window }) m)

unfoldable pub drop_panes : List Text → List (Text × PaneState) → List (Text × PaneState)
drop_panes [] m = m
drop_panes (id ∷ ids) m = drop_panes ids (delete id m)
