-- ===== src/View/Repeat.antt =====
-- A notification that arrives twice, as after a reconnect, changes the view once.
use agent_cockpit.Base.{
  ◌≡◌, refl, ap, ◌∙◌, Bool, true, false, ◌&&◌, ◌==◌, Option, none, some, List, [], ◌∷◌, arith,
}
use agent_cockpit.Base.{
  Text, text_eq, text_eq_iff, text_eq_refl, All, Bool-cases, inl, inr, trim, length,
}
use agent_cockpit.Base.Maps.{get, set, get-set, get-set_self, get-delete, set-get, set-set}
use agent_cockpit.Layout.{WindowLayout}
use agent_cockpit.Control.{
  TmuxNotification, output, window_add, unlinked_window_add, window_close, window_renamed,
  window_pane_changed, layout_change, session_changed, session_renamed, sessions_changed,
  session_window_changed, client_session_changed, client_detached, pane_mode_changed, exit,
  continued, pause, subscription_changed, unknown, reply, attached,
}
use agent_cockpit.View.{
  PaneState, WindowState, TmuxViewState, collect_pane_ids, ParsedSubscription, title, mouse,
  unrelated, parse_subscription_name, fresh_window, fresh_pane, or_fresh_pane, is_flag, is_true,
  same_bool, same_text, index_panes,
}
use agent_cockpit.View.Reduce.{
  reduce, add_window, close_window, rename_window, change_layout, change_pane, change_window,
  set_paused, set_title, set_mouse, change_subscription, is_foreign, name_of, zoomed, root_of,
  order_with,
}

-- The pane stands in the map, in the window.
abbrev Placed : Text → List (Text × PaneState) → Text → Type 0
Placed window m id =
    (p : PaneState) × (get id m ≡ some p) × (p.pane_id ≡ id) × (p.window_id ≡ some window)

abbrev placed : Text → Text → List (Text × PaneState) → PaneState
placed window id m = record (or_fresh_pane (get id m) id) { pane_id = id; window_id = some window }

step-Placed :
    (window id j : Text) (m : List (Text × PaneState))
    → Placed window m id
    → Placed window (set j (placed window j m) m) id
step-Placed window id j m (p, found, named, inside) = elim (Bool-cases (text_eq j id)) [
  | inl same ↦ (
    placed window j m,
    rw (get-set j id (placed window j m) m, same) refl,
    (text_eq_iff j id).0 same,
    refl,
  )
  | inr other ↦ (p, rw (get-set j id (placed window j m) m, other) found, named, inside)
]

index_panes-Placed :
    (window id : Text) (ids : List Text) (m : List (Text × PaneState))
    → Placed window m id
    → Placed window (index_panes window ids m) id
unfolding index_panes
index_panes-Placed window id [] m h = h
index_panes-Placed window id (j ∷ ids) m h =
    index_panes-Placed window id ids _ (step-Placed window id j m h)

index_panes-All :
    (window : Text) (ids : List Text) (m : List (Text × PaneState))
    → All (Placed window (index_panes window ids m)) ids
unfolding index_panes
index_panes-All window [] m = tt
index_panes-All window (id ∷ ids) m = (
  index_panes-Placed window id ids _
      (placed window id m, get-set_self id (placed window id m) m, refl, refl),
  index_panes-All window ids _,
)

placed_again :
    (window id : Text) (m : List (Text × PaneState))
    → Placed window m id
    → set id (placed window id m) m ≡ m
placed_again window id m (p, found, named, inside) =
    set-get id (placed window id m) m (rw found (ground arith))

index_panes_again :
    (window : Text) (ids : List Text) (m : List (Text × PaneState))
    → All (Placed window m) ids
    → index_panes window ids m ≡ m
unfolding index_panes
index_panes_again window [] m a = refl
index_panes_again window (id ∷ ids) m (here, later) =
    rw (placed_again window id m here) (index_panes_again window ids m later)

add_window_twice :
    (o : Option WindowState) (id : Text) (v : TmuxViewState)
    → get id v.windows ≡ o
    → add_window (get id (add_window o id v).windows) id (add_window o id v) ≡ add_window o id v
add_window_twice none id v e = rw (get-set_self id (fresh_window id) v.windows) refl
add_window_twice (some w) id v e = rw e refl

close_window_twice :
    (o : Option WindowState) (id : Text) (v : TmuxViewState)
    → get id v.windows ≡ o
    → close_window (get id (close_window o id v).windows) id (close_window o id v)
      ≡ close_window o id v
close_window_twice none id v e = rw e refl
close_window_twice (some w) id v e = rw (get-delete id id v.windows, text_eq_refl id) refl

rename_window_twice :
    (o : Option WindowState) (id name : Text) (v : TmuxViewState)
    → get id v.windows ≡ o
    → rename_window (get id (rename_window o id name v).windows) id name (rename_window o id name v)
      ≡ rename_window o id name v
rename_window_twice none id name v e = rw e refl
rename_window_twice (some w) id name v e =
    rw (get-set_self id (record w { name = name }) v.windows) (
      ap (λ ws. record v { windows = ws })
        (set-set id (record w { name = name }) (record w { name = name }) v.windows))

-- The window that a layout is written to.
abbrev arranged :
    Option WindowState → Text → WindowLayout → Option WindowLayout → Option Text → WindowState
arranged existing id l visible flags = record {
  window_id = id;
  name = name_of existing id;
  display_name = none;
  layout = some l.root;
  is_zoomed = zoomed flags;
  visible_layout = root_of visible;
}

named_again :
    (o : Option WindowState) (id : Text) (l : WindowLayout) (visible : Option WindowLayout)
    (flags : Option Text)
    → arranged (some (arranged o id l visible flags)) id l visible flags
      ≡ arranged o id l visible flags
named_again none id l visible flags = refl
named_again (some w) id l visible flags = refl

change_layout_twice :
    (o : Option WindowState) (id : Text) (l : WindowLayout) (visible : Option WindowLayout)
    (flags : Option Text) (v : TmuxViewState)
    → let u = change_layout o id l visible flags v in
      change_layout (get id u.windows) id l visible flags u ≡ u
change_layout_twice o id l visible flags v =
    let w = arranged o id l visible flags in
    let ids = collect_pane_ids l.root in
    rw (get-set_self id w v.windows) (λ i. record v {
      window_order = order_with o id v.window_order;
      windows =
          (ap (λ x. set id x (set id w v.windows)) (named_again o id l visible flags)
              ∙ set-get id w (set id w v.windows) (get-set_self id w v.windows))
            i;
      panes =
          index_panes_again id ids (index_panes id ids v.panes) (index_panes-All id ids v.panes) i;
    })

same_bool_refl : (b : Bool) → same_bool b b ≡ true
same_bool_refl true = refl
same_bool_refl false = refl

set_paused_twice :
    (o : Option PaneState) (id : Text) (b : Bool) (v : TmuxViewState)
    → get id v.panes ≡ o
    → set_paused (get id (set_paused o id b v).panes) id b (set_paused o id b v)
      ≡ set_paused o id b v
set_paused_twice none id b v e =
    rw (get-set_self id (record (fresh_pane id) { paused = some b }) v.panes)
      (rw (same_bool_refl b) refl)
set_paused_twice (some p) id b v e = elim (Bool-cases (same_bool (is_true p.paused) b)) [
  | inl same ↦ rw (same, e, same) refl
  | inr other ↦
      rw other
        (rw (get-set_self id (record p { paused = some b }) v.panes) (rw (same_bool_refl b) refl))
]

set_title_twice :
    (o : Option WindowState) (id name : Text) (v : TmuxViewState)
    → get id v.windows ≡ o
    → set_title (get id (set_title o id name v).windows) id name (set_title o id name v)
      ≡ set_title o id name v
set_title_twice none id name v e = rw e refl
set_title_twice (some w) id name v e = elim (Bool-cases (length name == 0)) [
  | inl nothing ↦ rw (nothing, e, nothing) refl
  | inr named ↦ elim (Bool-cases (same_text w.display_name name)) [
    | inl same ↦ rw (named, same, e, named, same) refl
    | inr other ↦
        rw (named, other)
          (rw (get-set_self id (record w { display_name = some name }) v.windows)
            (rw (named, text_eq_refl name) refl))
  ]
]

set_mouse_twice :
    (o : Option PaneState) (id : Text) (a b : Bool) (v : TmuxViewState)
    → get id v.panes ≡ o
    → set_mouse (get id (set_mouse o id a b v).panes) id a b (set_mouse o id a b v)
      ≡ set_mouse o id a b v
set_mouse_twice none id a b v e =
    rw (get-set_self id (record (fresh_pane id) { mouse_any = some a; mouse_sgr = some b }) v.panes)
      (rw (same_bool_refl a, same_bool_refl b) refl)
set_mouse_twice (some p) id a b v e =
    elim (Bool-cases (is_flag p.mouse_any a && is_flag p.mouse_sgr b)) [
      | inl same ↦ rw (same, e, same) refl
      | inr other ↦ rw other (
          rw (get-set_self id (record p { mouse_any = some a; mouse_sgr = some b }) v.panes)
            (rw (same_bool_refl a, same_bool_refl b) refl))
    ]

change_subscription_twice :
    (s : ParsedSubscription) (value : Text) (v : TmuxViewState)
    → change_subscription s value (change_subscription s value v) ≡ change_subscription s value v
change_subscription_twice unrelated value v = refl
change_subscription_twice (title id) value v =
    set_title_twice (get id v.windows) id (trim value) v refl
change_subscription_twice (mouse id) value v = set_mouse_twice (get id v.panes) id _ _ v refl

change_pane_twice :
    (o : Option WindowState) (id pane : Text) (v : TmuxViewState)
    → get id v.windows ≡ o
    → change_pane (get id (change_pane o id pane v).windows) id pane (change_pane o id pane v)
      ≡ change_pane o id pane v
change_pane_twice none id pane v e = rw e refl
change_pane_twice (some w) id pane v e = rw e refl

change_window_twice :
    (session id : Text) (v : TmuxViewState)
    → change_window session id (change_window session id v) ≡ change_window session id v
change_window_twice session id v = elim (Bool-cases (is_foreign v.session_id session)) [
  | inl foreign ↦ rw (foreign, foreign) refl
  | inr own ↦ rw (own, own) refl
]

module _ {N : Type 0} where
  -- Every notification, of any kind and in any view, changes nothing when it is applied a second time.
  pub reduce_twice :
      (v : TmuxViewState) (n : TmuxNotification N) → reduce (reduce v n) n ≡ reduce v n
  unfolding reduce
  reduce_twice v (unlinked_window_add id) = refl
  reduce_twice v (window_add id) = add_window_twice (get id v.windows) id v refl
  reduce_twice v (window_close id) = close_window_twice (get id v.windows) id v refl
  reduce_twice v (window_renamed id name) = rename_window_twice (get id v.windows) id name v refl
  reduce_twice v (layout_change id l visible flags) =
      change_layout_twice (get id v.windows) id l visible flags v
  reduce_twice v (window_pane_changed id pane) = change_pane_twice (get id v.windows) id pane v refl
  reduce_twice v (session_window_changed session id) = change_window_twice session id v
  reduce_twice v (session_changed id name) = refl
  reduce_twice v (exit reason) = refl
  reduce_twice v (pause id) = set_paused_twice (get id v.panes) id true v refl
  reduce_twice v (continued id) = set_paused_twice (get id v.panes) id false v refl
  reduce_twice v (subscription_changed name value) =
      change_subscription_twice (parse_subscription_name name) value v
  reduce_twice v (output id bytes) = refl
  reduce_twice v (session_renamed name) = refl
  reduce_twice v sessions_changed = refl
  reduce_twice v (client_session_changed client session name) = refl
  reduce_twice v (client_detached client) = refl
  reduce_twice v (pane_mode_changed id) = refl
  reduce_twice v (reply n error lines) = refl
  reduce_twice v (attached epoch) = refl
  reduce_twice v (unknown line) = refl
