-- ===== src/View/Store/Apart.antt =====
-- What is done for one project leaves the views of the others alone.
use agent_cockpit.Base.{ℕ, ◌≡◌, refl, ◌∙◌, false, Option, none, some, List, [], ◌∷◌, arith}
use agent_cockpit.Base.{Text, text_eq}
use agent_cockpit.Base.Maps.{get, set, get-set, get-delete}
use agent_cockpit.Control.{TmuxNotification, output}
use agent_cockpit.View.{TmuxViewState, WindowState, PaneState, empty_view}
use agent_cockpit.View.Reduce.{reduce}
use agent_cockpit.View.Store.{
  TmuxStore, slice, put_slice, set_active_project, bind_pane_sink, set_open_error, open_started,
  open_done, set_window_display_name, resume_pane, forget_view, reset_project, apply_notification,
  display_from, resume_from,
}

pub data Op (N : Type 0) : Type 0 where
  activate : Op N
  notify : TmuxNotification N → Op N
  bind : Text → ℕ → Op N
  set_error : Option Text → Op N
  begin_open : Op N
  end_open : Text → Op N
  display : Text → Text → Op N
  resume : Text → Op N
  forget : Op N

put_slice-get :
    (p q : Text) (v : TmuxViewState) (st : TmuxStore)
    → text_eq p q ≡ false
    → get q (put_slice p v st).by_project ≡ get q st.by_project
put_slice-get p q v st h = rw (get-set p q v st.by_project, h) refl

display-get :
    (v : Option TmuxViewState) (w : Option WindowState) (p q id name : Text) (st : TmuxStore)
    → text_eq p q ≡ false
    → get q (display_from v w p id name st).by_project ≡ get q st.by_project
display-get none w p q id name st h = refl
display-get (some v) none p q id name st h = refl
display-get (some v) (some w) p q id name st h = ground (
  arith,
  put_slice-get p q
      (record v { windows = set id (record w { display_name = some name }) v.windows }) st h,
)

resume-get :
    (v : Option TmuxViewState) (w : Option PaneState) (p q id : Text) (st : TmuxStore)
    → text_eq p q ≡ false
    → get q (resume_from v w p id st).by_project ≡ get q st.by_project
resume-get none w p q id st h = refl
resume-get (some v) none p q id st h = refl
resume-get (some v) (some w) p q id st h = ground (
  arith,
  put_slice-get p q (record v { panes = set id (record w { paused = some false }) v.panes }) st h,
)

forget-get :
    (o : Option TmuxViewState) (p q : Text) (st : TmuxStore)
    → text_eq p q ≡ false
    → get q (forget_view o p st).by_project ≡ get q st.by_project
forget-get none p q st h = refl
forget-get (some v) p q st h = rw (get-delete p q st.by_project, h) refl

module _ {N : Type 0} where
  abbrev pub perform : Op N → Text → TmuxStore → TmuxStore
  perform activate p st = set_active_project p st
  perform (notify n) p st = (apply_notification p n st).0
  perform (bind pane s) p st = (bind_pane_sink p pane s st).0
  perform (set_error e) p st = set_open_error p e st
  perform begin_open p st = open_started p st
  perform (end_open name) p st = open_done p name st
  perform (display window name) p st = set_window_display_name p window name st
  perform (resume pane) p st = resume_pane p pane st
  perform forget p st = reset_project p st

  unfoldable pub performs : List (Text × Op N) → TmuxStore → TmuxStore
  performs [] st = st
  performs ((p, o) ∷ os) st = performs os (perform o p st)

  notify-get :
      (n : TmuxNotification N) (p q : Text) (st : TmuxStore)
      → text_eq p q ≡ false
      → get q (apply_notification p n st).0.by_project ≡ get q st.by_project
  unfolding apply_notification
  notify-get (output pane bytes) p q st h = refl
  notify-get n p q st h = ground (arith, get-set p q (reduce (slice p st) n) st.by_project)

  perform-get :
      (o : Op N) (p q : Text) (st : TmuxStore)
      → text_eq p q ≡ false
      → get q (perform o p st).by_project ≡ get q st.by_project
  unfolding set_active_project bind_pane_sink set_open_error open_started open_done
      set_window_display_name resume_pane reset_project
  perform-get activate p q st h = ground (arith, put_slice-get p q empty_view st h)
  perform-get (notify n) p q st h = notify-get n p q st h
  perform-get (bind pane s) p q st h = ground arith
  perform-get (set_error e) p q st h =
      ground (arith, put_slice-get p q (record (slice p st) { open_error = e }) st h)
  perform-get begin_open p q st h = put_slice-get p q _ st h
  perform-get (end_open name) p q st h = put_slice-get p q _ st h
  perform-get (display window name) p q st h =
      display-get (get p st.by_project) (get window (slice p st).windows) p q window name st h
  perform-get (resume pane) p q st h =
      resume-get (get p st.by_project) (get pane (slice p st).panes) p q pane st h
  perform-get forget p q st h = forget-get (get p st.by_project) p q _ h

  -- None of the operations is for the project.
  abbrev pub IsApart : Text → List (Text × Op N) → Type 0
  IsApart q [] = Unit {0}
  IsApart q ((p, o) ∷ os) = (text_eq p q ≡ false) × IsApart q os

  -- Whatever is activated, notified, bound, opened, resumed and reset for other projects, in any order, the view of a
  -- project stays as it was, and so does that it has none.
  pub performs-get :
      (os : List (Text × Op N)) (q : Text) (st : TmuxStore)
      → IsApart q os
      → get q (performs os st).by_project ≡ get q st.by_project
  unfolding performs
  performs-get [] q st h = refl
  performs-get ((p, o) ∷ os) q st (other, others) =
      performs-get os q (perform o p st) others ∙ perform-get o p q st other
