-- ===== src/View/Tests.antt =====
-- A session with two windows, one of them split, among what another session of the server sends.
use agent_cockpit.Base.{
  ℕ, zero, suc, ◌≡◌, refl, false, none, some, [], ◌∷◌, ◌++◌, List, codes, arith, map,
}
use agent_cockpit.Base.Maps.{get, set, delete}
use agent_cockpit.Codec.Hex.{words_from}
use agent_cockpit.Layout.{WindowLayout, leaf, split, lr, nil, cons}
use agent_cockpit.Control.{
  TmuxNotification, window_add, window_close, layout_change, window_pane_changed, session_changed,
}
use agent_cockpit.View.{
  TmuxViewState, WindowState, empty_view, pane_name, collect_pane_ids, collect_children,
  parse_subscription_name, parse_mouse_flags_value, index_panes, drop_panes,
}
use agent_cockpit.View.Reduce.{reduce, returns_state}
use agent_cockpit.View.WellFormed.{IsView}
use agent_cockpit.View.Invariant.{reduces, reduces-IsView, empty_view-IsView}
use agent_cockpit.View.Repeat.{reduce_twice}
use agent_cockpit.View.Store.{
  TmuxStore, empty_store, bind_pane_sink, apply_notification, reset_project, unbind, bound_to,
  sink_key, add_sink, set_active_project,
}
use agent_cockpit.View.Store.Routing.{IsHeap, deliver, deliver-bind_pane_sink, with_bytes}
use agent_cockpit.View.Store.Apart.{activate, notify, performs, performs-get}

program : Unit {0}
unfolding words_from get set delete pane_name collect_pane_ids collect_children
    parse_subscription_name parse_mouse_flags_value index_panes drop_panes reduce returns_state
    reduces bind_pane_sink apply_notification reset_project unbind set_active_project
program = tt

abbrev Note : Type 0
Note = TmuxNotification ℕ

abbrev layout : WindowLayout
layout = record {
  checksum = codes "ab";
  root = split lr 9 4 0 0 (cons (leaf (some 1) 4 4 0 0) (cons (leaf (some 12) 4 4 5 0) nil));
}

abbrev sent : List Note
sent =
    session_changed (codes "$0") (codes "main")
    ∷ window_add (codes "@1")
    ∷ layout_change (codes "@1") layout none none
    ∷ window_add (codes "@2")
    ∷ window_pane_changed (codes "@1") (codes "%12")
    ∷ []

panes : map (λ e. e.0) (reduces empty_view sent).panes ≡ codes "%1" ∷ codes "%12" ∷ []
unfolding program
panes = refl

-- After the end of the active window the last tab is active.
ended :
    (reduces empty_view (sent ++ window_close (codes "@1") ∷ [])).active_window_id
    ≡ some (codes "@2")
unfolding program
ended = refl

reduces-IsView_example : IsView (reduces empty_view sent)
reduces-IsView_example = reduces-IsView sent empty_view empty_view-IsView

abbrev view : TmuxViewState
view = record empty_view { session_id = some (codes "$0") }

reduce_twice_example :
    reduce {N = ℕ} (reduce {N = ℕ} view (window_add (codes "@1"))) (window_add (codes "@1"))
    ≡ reduce {N = ℕ} view (window_add (codes "@1"))
reduce_twice_example = reduce_twice view (window_add (codes "@1"))

abbrev tab : WindowState
tab = record {
  window_id = codes "@1";
  name = codes "sh";
  display_name = none;
  layout = none;
  is_zoomed = false;
  visible_layout = none;
}

abbrev one_window : TmuxViewState
one_window = record view {
  window_order = codes "@1" ∷ [];
  windows = (codes "@1", tab) ∷ [];
  active_window_id = some (codes "@1");
}

open_window : get (codes "@1") one_window.windows ≡ some tab
unfolding get
open_window = refl

empty_store-IsHeap : IsHeap empty_store
unfolding get
empty_store-IsHeap = record { fresh = λ k r f. cc; apart = λ j k r f g. cc }

deliver-bind_pane_sink_example :
    deliver ℕ
      (codes "p")
      (codes "%1")
      (7 ∷ [])
      (bind_pane_sink (codes "p") (codes "%1") 3 empty_store).0
    ≡ map
        (with_bytes (7 ∷ []))
        (add_sink 3 (bound_to (sink_key (codes "p") (codes "%1")) empty_store))
deliver-bind_pane_sink_example =
    deliver-bind_pane_sink ℕ (codes "p") (codes "p") (codes "%1") (codes "%1") 3 (7 ∷ [])
      empty_store (omega arith, tt) (omega arith, tt) empty_store-IsHeap

-- Bound, reset, bound anew.
abbrev rebound : TmuxStore
rebound = record empty_store {
  sinks = (sink_key (codes "p") (codes "%1"), 1) ∷ [];
  sets = λ n. elim n [ zero ↦ 3 ∷ [] | suc m ↦ 4 ∷ [] ];
  next_set = 2;
}

performs-get_example :
    get
      (codes "q")
      (performs {N = ℕ}
        ((codes "p", activate) ∷ (codes "p", notify (window_add (codes "@1"))) ∷ [])
        empty_store).by_project
    ≡ get (codes "q") empty_store.by_project
performs-get_example =
    performs-get ((codes "p", activate) ∷ (codes "p", notify (window_add (codes "@1"))) ∷ [])
      (codes "q") empty_store (refl, (refl, tt))
