-- ===== src/View/Store.antt =====
-- src/renderer/tmux/tmuxStore.ts: the store with the views of all projects and the sinks that the bytes of a pane
-- go to. The requests of the main process behind the actions are left out; `open` is cut at its `await`.
pub mod Routing
pub mod Apart
use agent_cockpit.Base.{
  ℕ, suc, Bool, true, false, not, ◌||◌, ◌==◌, Option, none, some, List, [], ◌∷◌, ◌++◌,
}
use agent_cockpit.Base.{Text, text_eq, starts_with, if◌then◌else◌, length, keep, any, map}
use agent_cockpit.Base.Maps.{get, set, delete}
use agent_cockpit.Control.{
  TmuxNotification, output, window_add, unlinked_window_add, window_close, window_renamed,
  window_pane_changed, layout_change, session_changed, session_renamed, sessions_changed,
  session_window_changed, client_session_changed, client_detached, pane_mode_changed, exit,
  continued, pause, subscription_changed, unknown, reply, attached,
}
use agent_cockpit.View.{PaneState, WindowState, TmuxViewState, empty_view, same_text, is_true}
use agent_cockpit.View.Reduce.{reduce, returns_state}

abbrev pub sep : ℕ
sep = 0x1f

abbrev pub sink_key : Text → Text → Text
sink_key project pane = project ++ sep ∷ pane

-- A sink is a number. The map `sinks` holds the addresses of its sets, which the functions that
-- `bindPaneSink` returns share; those from `next_set` on are not in use.
pub record TmuxStore : Type 0 where
  pub by_project : List (Text × TmuxViewState)
  pub active_project_id : Option Text
  pub sinks : List (Text × ℕ)
  pub sets : ℕ → List ℕ
  pub next_set : ℕ

abbrev pub empty_store : TmuxStore
empty_store = record {
  by_project = [];
  active_project_id = none;
  sinks = [];
  sets = λ _. [];
  next_set = 0;
}

abbrev pub view_or_empty : Option TmuxViewState → TmuxViewState
view_or_empty none = empty_view
view_or_empty (some v) = v

abbrev pub slice : Text → TmuxStore → TmuxViewState
slice p st = view_or_empty (get p st.by_project)

abbrev pub put_slice : Text → TmuxViewState → TmuxStore → TmuxStore
put_slice p v st = record st { by_project = set p v st.by_project }

abbrev pub select_from : Option Text → TmuxStore → TmuxViewState
select_from none st = empty_view
select_from (some p) st = slice p st

unfoldable pub select_active_view : TmuxStore → TmuxViewState
select_active_view st = select_from st.active_project_id st

abbrev pub activate_from : Option TmuxViewState → Text → TmuxStore → TmuxStore
activate_from none p st = record (put_slice p empty_view st) { active_project_id = some p }
activate_from (some v) p st = record st { active_project_id = some p }

unfoldable pub set_active_project : Text → TmuxStore → TmuxStore
set_active_project p st = activate_from (get p st.by_project) p st

abbrev pub write_set : ℕ → List ℕ → (ℕ → List ℕ) → ℕ → List ℕ
write_set r xs sets q = if q == r then xs else sets q

abbrev pub add_sink : ℕ → List ℕ → List ℕ
add_sink s bound = if any (λ t. t == s) bound then bound else bound ++ s ∷ []

-- The sinks that the bytes for a key go to.
abbrev pub bound_from : Option ℕ → TmuxStore → List ℕ
bound_from none st = []
bound_from (some r) st = st.sets r

abbrev pub bound_to : Text → TmuxStore → List ℕ
bound_to k st = bound_from (get k st.sinks) st

-- With the address that the returned function keeps.
abbrev pub bind_from : Option ℕ → Text → ℕ → TmuxStore → TmuxStore × ℕ
bind_from (some r) k s st = (record st { sets = write_set r (add_sink s (st.sets r)) st.sets }, r)
bind_from none k s st = (
  record st {
    sinks = set k st.next_set st.sinks;
    sets = write_set st.next_set (s ∷ []) st.sets;
    next_set = suc st.next_set;
  },
  st.next_set,
)

unfoldable pub bind_pane_sink : Text → Text → ℕ → TmuxStore → TmuxStore × ℕ
bind_pane_sink p pane s st = bind_from (get (sink_key p pane) st.sinks) (sink_key p pane) s st

-- The function that `bindPaneSink` returned, with the key, the address and the sink.
unfoldable pub unbind : Text → ℕ → ℕ → TmuxStore → TmuxStore
unbind k r s st =
    let rest = keep (λ t. not (t == s)) (st.sets r) in
    record st {
      sets = write_set r rest st.sets;
      sinks = if length rest == 0 then delete k st.sinks else st.sinks;
    }

abbrev pub same_error : Option Text → Option Text → Bool
same_error none none = true
same_error none (some e) = false
same_error (some e) none = false
same_error (some d) (some e) = text_eq d e

unfoldable pub set_open_error : Text → Option Text → TmuxStore → TmuxStore
set_open_error p error st =
    if same_error (slice p st).open_error error
    then st
    else put_slice p (record (slice p st) { open_error = error }) st

unfoldable pub open_started : Text → TmuxStore → TmuxStore
open_started p st = put_slice p (record (slice p st) { open_error = none }) st

unfoldable pub open_done : Text → Text → TmuxStore → TmuxStore
open_done p name st =
    put_slice p
      (record (slice p st) { is_open = true; open_error = none; session_name = some name }) st

abbrev pub display_from :
    Option TmuxViewState → Option WindowState → Text → Text → Text → TmuxStore → TmuxStore
display_from none w p id name st = st
display_from (some v) none p id name st = st
display_from (some v) (some w) p id name st =
    if same_text w.display_name name
    then st
    else put_slice p
        (record v { windows = set id (record w { display_name = some name }) v.windows }) st

unfoldable pub set_window_display_name : Text → Text → Text → TmuxStore → TmuxStore
set_window_display_name p id name st =
    display_from (get p st.by_project) (get id (slice p st).windows) p id name st

abbrev pub resume_from :
    Option TmuxViewState → Option PaneState → Text → Text → TmuxStore → TmuxStore
resume_from none pane p id st = st
resume_from (some v) none p id st = st
resume_from (some v) (some pane) p id st =
    if is_true pane.paused
    then put_slice p (record v { panes = set id (record pane { paused = some false }) v.panes }) st
    else st

unfoldable pub resume_pane : Text → Text → TmuxStore → TmuxStore
resume_pane p id st = resume_from (get p st.by_project) (get id (slice p st).panes) p id st

-- The state is left alone when the project has no view.
abbrev pub forget_view : Option TmuxViewState → Text → TmuxStore → TmuxStore
forget_view none p st = st
forget_view (some v) p st = record st {
  by_project = delete p st.by_project;
  active_project_id = if same_text st.active_project_id p then none else st.active_project_id;
}

unfoldable pub reset_project : Text → TmuxStore → TmuxStore
reset_project p st =
    forget_view (get p st.by_project) p
      (record st { sinks = keep (λ e. not (starts_with (p ++ sep ∷ []) e.0)) st.sinks })

unfoldable pub reset : TmuxStore → TmuxStore
reset st = record st { by_project = []; active_project_id = none; sinks = [] }

module _ {N : Type 0} where
  -- With the calls of the sinks: each with its bytes.
  unfoldable pub apply_notification :
      Text → TmuxNotification N → TmuxStore → TmuxStore × List (ℕ × List ℕ)
  apply_notification p (output pane bytes) st =
      (st, map (λ s. (s, bytes)) (bound_to (sink_key p pane) st))
  apply_notification p n st =
      (if returns_state (slice p st) n then st else put_slice p (reduce (slice p st) n) st, [])
