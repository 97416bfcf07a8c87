-- ===== src/View/Invariant.antt =====
-- The order of the tabs and the windows of the view agree.
use agent_cockpit.Base.{
  ◌≡◌, refl, ap, sym, ◌∙◌, Bool, true, false, not, Option, none, some, List, [], ◌∷◌,
}
use agent_cockpit.Base.{Text, text_eq, keep, All, Bool-cases, inl, inr, trim, length, ◌==◌, ◌&&◌}
use agent_cockpit.Base.Maps.{get, delete, keys-delete, All-keep, All-find}
use agent_cockpit.Base.Distinct.{Distinct-keep}
use agent_cockpit.Layout.{WindowLayout}
use agent_cockpit.Control.{
  TmuxNotification, output, window_add, unlinked_window_add, window_close, window_renamed,
  window_pane_changed, layout_change, session_changed, session_renamed, sessions_changed,
  session_window_changed, client_session_changed, client_detached, pane_mode_changed, exit,
  continued, pause, subscription_changed, unknown, reply, attached,
}
use agent_cockpit.View.{
  PaneState, WindowState, TmuxViewState, empty_view, pane_ids_of, collect_pane_ids,
  ParsedSubscription, title, mouse, unrelated, parse_subscription_name, fresh_window, is_flag,
  is_true, same_text,
}
use agent_cockpit.View.Reduce.{
  reduce, change_subscription, is_foreign, add_window, close_window, rename_window, change_layout,
  change_pane, change_window, set_paused, set_title, set_mouse,
}
use agent_cockpit.View.WellFormed.{
  IsView, drop_panes-All, index_panes-All, rewrite-IsView, append-IsView, panes-IsView, pane-IsView,
}

add_window-IsView :
    (o : Option WindowState) (id : Text) (v : TmuxViewState)
    → get id v.windows ≡ o
    → IsView v
    → IsView (add_window o id v)
add_window-IsView none id v e h = append-IsView id (fresh_window id) v e refl h
add_window-IsView (some w) id v e h = h

delete-IsView :
    (id : Text) (active : Option Text) (ps : List (Text × PaneState)) (v : TmuxViewState)
    → All (λ e. e.1.pane_id ≡ e.0) ps
    → IsView v
    → IsView (record v {
      windows = delete id v.windows;
      panes = ps;
      window_order = keep (λ w. not (text_eq w id)) v.window_order;
      active_window_id = active;
    })
unfolding delete
delete-IsView id active ps v a h = record {
  order =
      ap (keep (λ w. not (text_eq w id))) h.order ∙ sym (unfold delete in keys-delete id v.windows);
  distinct = Distinct-keep (λ w. not (text_eq w id)) v.window_order h.distinct;
  windows = All-keep (λ e. e.1.window_id ≡ e.0) (λ e. not (text_eq e.0 id)) v.windows h.windows;
  panes = a;
}

close_window-IsView :
    (o : Option WindowState) (id : Text) (v : TmuxViewState)
    → IsView v
    → IsView (close_window o id v)
close_window-IsView none id v h = h
close_window-IsView (some w) id v h =
    delete-IsView id _ _ v (drop_panes-All (pane_ids_of w.layout) v.panes h.panes) h

rename_window-IsView :
    (o : Option WindowState) (id name : Text) (v : TmuxViewState)
    → get id v.windows ≡ o
    → IsView v
    → IsView (rename_window o id name v)
rename_window-IsView none id name v e h = h
rename_window-IsView (some w) id name v e h =
    rewrite-IsView id w (record w { name = name }) v e
      (All-find (λ e. e.1.window_id ≡ e.0) id v.windows h.windows e) h

change_layout-IsView :
    (o : Option WindowState) (id : Text) (l : WindowLayout) (visible : Option WindowLayout)
    (flags : Option Text) (v : TmuxViewState)
    → get id v.windows ≡ o
    → IsView v
    → IsView (change_layout o id l visible flags v)
change_layout-IsView none id l visible flags v e h =
    panes-IsView _ _ (index_panes-All id (collect_pane_ids l.root) v.panes h.panes)
      (append-IsView id _ v e refl h)
change_layout-IsView (some w) id l visible flags v e h =
    panes-IsView _ _ (index_panes-All id (collect_pane_ids l.root) v.panes h.panes)
      (rewrite-IsView id w _ v e refl h)

set_paused-IsView :
    (o : Option PaneState) (id : Text) (b : Bool) (v : TmuxViewState)
    → get id v.panes ≡ o
    → IsView v
    → IsView (set_paused o id b v)
set_paused-IsView none id b v e h = pane-IsView id _ v refl h
set_paused-IsView (some p) id b v e h = elim (Bool-cases (is_flag (some (is_true p.paused)) b)) [
  | inl same ↦ rw same h
  | inr other ↦
      rw other (pane-IsView id _ v (All-find (λ e. e.1.pane_id ≡ e.0) id v.panes h.panes e) h)
]

set_title-IsView :
    (o : Option WindowState) (id name : Text) (v : TmuxViewState)
    → get id v.windows ≡ o
    → IsView v
    → IsView (set_title o id name v)
set_title-IsView none id name v e h = h
set_title-IsView (some w) id name v e h = elim (Bool-cases (length name == 0)) [
  | inl nothing ↦ rw nothing h
  | inr named ↦ elim (Bool-cases (same_text w.display_name name)) [
    | inl same ↦ rw (named, same) h
    | inr other ↦
        rw (named, other)
          (rewrite-IsView id w _ v e (All-find (λ e. e.1.window_id ≡ e.0) id v.windows h.windows e)
            h)
  ]
]

set_mouse-IsView :
    (o : Option PaneState) (id : Text) (a b : Bool) (v : TmuxViewState)
    → get id v.panes ≡ o
    → IsView v
    → IsView (set_mouse o id a b v)
set_mouse-IsView none id a b v e h = pane-IsView id _ v refl h
set_mouse-IsView (some p) id a b v e h =
    elim (Bool-cases (is_flag p.mouse_any a && is_flag p.mouse_sgr b)) [
      | inl same ↦ rw same h
      | inr other ↦
          rw other (pane-IsView id _ v (All-find (λ e. e.1.pane_id ≡ e.0) id v.panes h.panes e) h)
    ]

change_subscription-IsView :
    (s : ParsedSubscription) (value : Text) (v : TmuxViewState)
    → IsView v
    → IsView (change_subscription s value v)
change_subscription-IsView unrelated value v h = h
change_subscription-IsView (title id) value v h =
    set_title-IsView (get id v.windows) id (trim value) v refl h
change_subscription-IsView (mouse id) value v h = set_mouse-IsView (get id v.panes) id _ _ v refl h

-- A change of what is active only.
active-IsView :
    (o : Option WindowState) (id pane : Text) (v : TmuxViewState)
    → IsView v
    → IsView (change_pane o id pane v)
active-IsView none id pane v h = h
active-IsView (some w) id pane v h = record {
  order = h.order;
  distinct = h.distinct;
  windows = h.windows;
  panes = h.panes;
}

change_window-IsView :
    (session id : Text) (v : TmuxViewState) → IsView v → IsView (change_window session id v)
change_window-IsView session id v h = elim (Bool-cases (is_foreign v.session_id session)) [
  | inl foreign ↦ rw foreign h
  | inr own ↦
      rw own
        (record { order = h.order; distinct = h.distinct; windows = h.windows; panes = h.panes })
]

pub empty_view-IsView : IsView empty_view
empty_view-IsView = record { order = refl; distinct = tt; windows = tt; panes = tt }

module _ {N : Type 0} where
  reduce-IsView : (v : TmuxViewState) (n : TmuxNotification N) → IsView v → IsView (reduce v n)
  unfolding reduce
  reduce-IsView v (unlinked_window_add id) h = h
  reduce-IsView v (window_add id) h = add_window-IsView (get id v.windows) id v refl h
  reduce-IsView v (window_close id) h = close_window-IsView (get id v.windows) id v h
  reduce-IsView v (window_renamed id name) h =
      rename_window-IsView (get id v.windows) id name v refl h
  reduce-IsView v (layout_change id l visible flags) h =
      change_layout-IsView (get id v.windows) id l visible flags v refl h
  reduce-IsView v (window_pane_changed id pane) h = active-IsView (get id v.windows) id pane v h
  reduce-IsView v (session_window_changed session id) h = change_window-IsView session id v h
  reduce-IsView v (session_changed id name) h = record {
    order = h.order;
    distinct = h.distinct;
    windows = h.windows;
    panes = h.panes;
  }
  reduce-IsView v (exit reason) h = empty_view-IsView
  reduce-IsView v (pause id) h = set_paused-IsView (get id v.panes) id true v refl h
  reduce-IsView v (continued id) h = set_paused-IsView (get id v.panes) id false v refl h
  reduce-IsView v (subscription_changed name value) h =
      change_subscription-IsView (parse_subscription_name name) value v h
  reduce-IsView v (output id bytes) h = h
  reduce-IsView v (session_renamed name) h = h
  reduce-IsView v sessions_changed h = h
  reduce-IsView v (client_session_changed client session name) h = h
  reduce-IsView v (client_detached client) h = h
  reduce-IsView v (pane_mode_changed id) h = h
  reduce-IsView v (reply n error lines) h = h
  reduce-IsView v (attached epoch) h = h
  reduce-IsView v (unknown line) h = h

  unfoldable pub reduces : TmuxViewState → List (TmuxNotification N) → TmuxViewState
  reduces v [] = v
  reduces v (n ∷ ns) = reduces (reduce v n) ns

  -- Whatever tmux sends, the tabs are the windows of the view in order, each once, and every window and every pane
  -- stands under its own identifier.
  pub reduces-IsView :
      (ns : List (TmuxNotification N)) (v : TmuxViewState) → IsView v → IsView (reduces v ns)
  unfolding reduces
  reduces-IsView [] v h = h
  reduces-IsView (n ∷ ns) v h = reduces-IsView ns (reduce v n) (reduce-IsView v n h)
