-- ===== src/View/Foreign.antt =====
-- What other sessions of the same tmux server send, and the end of a window.
use agent_cockpit.Base.{◌≡◌, ◌≢◌, refl, false, not, none, some, List, [], ◌∷◌, arith}
use agent_cockpit.Base.{Text, text_eq, text_eq_iff, if◌then◌else◌, keep, any}
use agent_cockpit.Base.Maps.{get, get-delete}
use agent_cockpit.Control.{
  TmuxNotification, output, window_add, unlinked_window_add, window_close, window_renamed,
  window_pane_changed, layout_change, session_changed, session_renamed, sessions_changed,
  session_window_changed, client_session_changed, client_detached, pane_mode_changed, exit,
  continued, pause, subscription_changed, unknown, reply, attached,
}
use agent_cockpit.View.{WindowState, TmuxViewState, same_text, last}
use agent_cockpit.View.Reduce.{reduce}

module _ {N : Type 0} where
  -- The notification is about a window that the view does not hold, or about the active window of a session that is
  -- known to be another.
  abbrev pub IsForeign : TmuxViewState → TmuxNotification N → Type 0
  IsForeign v (unlinked_window_add id) = Unit {0}
  IsForeign v (window_close id) = get id v.windows ≡ none
  IsForeign v (window_renamed id name) = get id v.windows ≡ none
  IsForeign v (window_pane_changed id pane) = get id v.windows ≡ none
  IsForeign v (session_window_changed session id) =
      (own : Text) × (v.session_id ≡ some own) × (own ≢ session)
  IsForeign v (window_add id) = ⊥
  IsForeign v (layout_change id l visible flags) = ⊥
  IsForeign v (session_changed id name) = ⊥
  IsForeign v (exit reason) = ⊥
  IsForeign v (pause id) = ⊥
  IsForeign v (continued id) = ⊥
  IsForeign v (subscription_changed name value) = ⊥
  IsForeign v (output id bytes) = ⊥
  IsForeign v (session_renamed name) = ⊥
  IsForeign v sessions_changed = ⊥
  IsForeign v (client_session_changed client session name) = ⊥
  IsForeign v (client_detached client) = ⊥
  IsForeign v (pane_mode_changed id) = ⊥
  IsForeign v (reply n error lines) = ⊥
  IsForeign v (attached epoch) = ⊥
  IsForeign v (unknown line) = ⊥

  -- What tmux broadcasts about the windows of other sessions leaves the view as it is: an unlinked window, the end,
  -- the name and the pane of a window that is not held, and the active window of another session, once the
  -- own one is known.
  pub reduce-IsForeign :
      (v : TmuxViewState) (n : TmuxNotification N) → IsForeign v n → reduce v n ≡ v
  unfolding reduce
  reduce-IsForeign v (unlinked_window_add id) h = refl
  reduce-IsForeign v (window_close id) h = rw h refl
  reduce-IsForeign v (window_renamed id name) h = rw h refl
  reduce-IsForeign v (window_pane_changed id pane) h = rw h refl
  reduce-IsForeign v (session_window_changed session id) (own, known, distinct) =
      ground (arith, text_eq_iff own session)
  reduce-IsForeign v (window_add id) h = absurd h
  reduce-IsForeign v _ h = absurd h

any-keep_none :
    (id : Text) (ids : List Text)
    → any (λ w. text_eq w id) (keep (λ w. not (text_eq w id)) ids) ≡ false
any-keep_none id [] = refl
any-keep_none id (x ∷ xs) = ground (arith, any-keep_none id xs)

last-any :
    (id : Text) (ids : List Text)
    → any (λ w. text_eq w id) ids ≡ false
    → same_text (last ids) id ≡ false
last-any id [] h = refl
last-any id (x ∷ []) h = ground arith
last-any id (x ∷ y ∷ ys) h = last-any id (y ∷ ys) (ground arith)

module _ (N : Type 0) where
  -- The end of a window of the view takes it from the tabs, the windows and the active window; every other window
  -- stays as it is.
  pub reduce-window_close :
      (v : TmuxViewState) (id j : Text) {w : WindowState}
      → get id v.windows ≡ some w
      → let u = reduce {N = N} v (window_close id) in
        (get j u.windows ≡ (if text_eq id j then none else get j v.windows))
        × (any (λ w. text_eq w id) u.window_order ≡ false)
        × (same_text u.active_window_id id ≡ false)
  unfolding reduce
  reduce-window_close v id j {w} h = rw h (
    get-delete id j v.windows,
    any-keep_none id v.window_order,
    ground (
      arith,
      last-any id (keep (λ w. not (text_eq w id)) v.window_order) (any-keep_none id v.window_order),
    ),
  )
