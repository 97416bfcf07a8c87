-- ===== src/View/WellFormed.antt =====
-- When a view is well formed, and the changes of its maps that keep it so.
use agent_cockpit.Base.{◌≡◌, refl, ap, sym, ◌∙◌, not, none, some, List, [], ◌∷◌, ◌++◌}
use agent_cockpit.Base.{Text, text_eq, All}
use agent_cockpit.Base.Maps.{
  get, set, delete, keys, keys-set_old, keys-set_new, any-keys-none, All-set_at, All-keep,
}
use agent_cockpit.Base.Distinct.{Distinct, Distinct-put}
use agent_cockpit.View.{PaneState, WindowState, TmuxViewState, index_panes, drop_panes}

-- The tabs are the windows, each once, and every window and pane stands under its own identifier.
pub record IsView (v : TmuxViewState) : Type 0 where
  pub order : v.window_order ≡ keys v.windows
  pub distinct : Distinct v.window_order
  pub windows : All (λ e. e.1.window_id ≡ e.0) v.windows
  pub panes : All (λ e. e.1.pane_id ≡ e.0) v.panes

delete-panes :
    (k : Text) (m : List (Text × PaneState))
    → All (λ e. e.1.pane_id ≡ e.0) m
    → All (λ e. e.1.pane_id ≡ e.0) (delete k m)
unfolding delete
delete-panes k m a = All-keep (λ e. e.1.pane_id ≡ e.0) (λ e. not (text_eq e.0 k)) m a

pub drop_panes-All :
    (ids : List Text) (m : List (Text × PaneState))
    → All (λ e. e.1.pane_id ≡ e.0) m
    → All (λ e. e.1.pane_id ≡ e.0) (drop_panes ids m)
unfolding drop_panes
drop_panes-All [] m a = a
drop_panes-All (id ∷ ids) m a = drop_panes-All ids (delete id m) (delete-panes id m a)

pub index_panes-All :
    (window : Text) (ids : List Text) (m : List (Text × PaneState))
    → All (λ e. e.1.pane_id ≡ e.0) m
    → All (λ e. e.1.pane_id ≡ e.0) (index_panes window ids m)
unfolding index_panes
index_panes-All window [] m a = a
index_panes-All window (id ∷ ids) m a =
    index_panes-All window ids _ (All-set_at (λ e. e.1.pane_id ≡ e.0) id _ m refl a)

-- A window that is there is written again.
pub rewrite-IsView :
    (id : Text) (w u : WindowState) (v : TmuxViewState)
    → get id v.windows ≡ some w
    → u.window_id ≡ id
    → IsView v
    → IsView (record v { windows = set id u v.windows })
rewrite-IsView id w u v found named h = record {
  order = h.order ∙ sym (keys-set_old id u w v.windows found);
  distinct = h.distinct;
  windows = All-set_at (λ e. e.1.window_id ≡ e.0) id u v.windows named h.windows;
  panes = h.panes;
}

-- A new one goes to the end.
pub append-IsView :
    (id : Text) (u : WindowState) (v : TmuxViewState)
    → get id v.windows ≡ none
    → u.window_id ≡ id
    → IsView v
    → IsView (record v { window_order = v.window_order ++ id ∷ []; windows = set id u v.windows })
append-IsView id u v absent named h = record {
  order = ap (λ ks. ks ++ id ∷ []) h.order ∙ sym (keys-set_new id u v.windows absent);
  distinct =
      Distinct-put v.window_order id (rw h.order (any-keys-none id v.windows absent)) h.distinct;
  windows = All-set_at (λ e. e.1.window_id ≡ e.0) id u v.windows named h.windows;
  panes = h.panes;
}

pub panes-IsView :
    (ps : List (Text × PaneState)) (v : TmuxViewState)
    → All (λ e. e.1.pane_id ≡ e.0) ps
    → IsView v
    → IsView (record v { panes = ps })
panes-IsView ps v a h = record {
  order = h.order;
  distinct = h.distinct;
  windows = h.windows;
  panes = a;
}

pub pane-IsView :
    (id : Text) (p : PaneState) (v : TmuxViewState)
    → p.pane_id ≡ id
    → IsView v
    → IsView (record v { panes = set id p v.panes })
pane-IsView id p v named h =
    panes-IsView (set id p v.panes) v
      (All-set_at (λ e. e.1.pane_id ≡ e.0) id p v.panes named h.panes) h
