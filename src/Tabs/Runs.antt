-- ===== src/Tabs/Runs.antt =====
-- Every way a panel's tabs change keeps them well formed.
use agent_cockpit.Base.{ℕ, zero, suc, ◌≤◌, ◌≡◌, refl, false, not, ◌||◌, Option, none, some}
use agent_cockpit.Base.{
  List, [], ◌∷◌, ◌++◌, Text, text_eq_refl, arith, length, length-keep, get_elem?, Bool-cases, inl,
  inr,
}
use agent_cockpit.Tabs.{
  ContentTab, ContentSelection, ContentTabsSlice, has_id, find_index, set_at, open_tab, elem_before,
  or_else, id_of, is_id, close_at, close_tab, activate_tab,
}
use agent_cockpit.Tabs.Slices.{
  has, IsShowing, IsSlice, has-append, IsUnique-append_new, find_index-has-none, has-set_at_self,
}
use agent_cockpit.Tabs.Slices.{
  IsUnique-set_at, without, has-without, IsUnique-without, length-without, get_elem?-has,
  get_elem?-none,
}

open_tab-IsSlice :
    (s : ContentTabsSlice) (id : Text) (x : ContentSelection)
    → IsSlice s
    → IsSlice (open_tab s id x)
unfolding open_tab
open_tab-IsSlice s id x (u, _) = go (find_index (has_id id) s.tabs) refl
  where
    t : ContentTab
    t = record { id = id; selection = x }

    go :
        (o : Option ℕ)
        → find_index (has_id id) s.tabs ≡ o
        → IsSlice (elim o as (λ _. ContentTabsSlice) [
          | none ↦ record { tabs = s.tabs ++ t ∷ []; active_id = some id }
          | some existing ↦ record { tabs = set_at existing t s.tabs; active_id = some id }
        ])
    go none h = (
      IsUnique-append_new t s.tabs u (find_index-has-none id s.tabs h),
      ground (arith, has-append id s.tabs (t ∷ []), text_eq_refl id),
    )
    go (some i) h = (IsUnique-set_at id x s.tabs i h u, has-set_at_self id x s.tabs i h)

-- A neighbour of the tab that went is open, unless no tab is left.
neighbour-IsShowing :
    (ts : List ContentTab) (i : ℕ)
    → i ≤ length ts
    → IsShowing (id_of (or_else (get_elem? ts i) (elem_before ts i))) ts
neighbour-IsShowing ts i h = right (get_elem? ts i) refl
  where
    left :
        (j : ℕ)
        → length ts ≤ j
        → j ≤ length ts
        → (o : Option ContentTab) → elem_before ts j ≡ o
        → IsShowing (id_of o) ts
    left zero full fits none e = omega arith
    left zero full fits (some t) e = absurd (ground arith)
    left (suc j) full fits none e = absurd (ground (arith, get_elem?-none ts j))
    left (suc j) full fits (some t) e = get_elem?-has ts j t e

    right :
        (o : Option ContentTab)
        → get_elem? ts i ≡ o
        → IsShowing (id_of (or_else o (elem_before ts i))) ts
    right none e = left i (get_elem?-none ts i e) h (elem_before ts i) refl
    right (some t) e = get_elem?-has ts i t e

close_tab-IsSlice : (s : ContentTabsSlice) (id : Text) → IsSlice s → IsSlice (close_tab s id)
unfolding close_tab
close_tab-IsSlice s id (u, v) = go (find_index (has_id id) s.tabs) refl
  where
    stays :
        (a : Option Text)
        → is_id a id ≡ false
        → IsShowing a s.tabs
        → IsShowing a (without id s.tabs)
    stays none other showing = ground (arith, length-keep (λ t. not (has_id id t)) s.tabs)
    stays (some a) other showing = ground (arith, has-without id a s.tabs)

    go :
        (o : Option ℕ)
        → find_index (has_id id) s.tabs ≡ o
        → IsSlice
            (elim o as (λ _. ContentTabsSlice) [ none ↦ s | some index ↦ close_at s id index ])
    go none h = (u, v)
    go (some i) h = elim (Bool-cases (is_id s.active_id id)) [
      | inl same ↦ rw same (
        IsUnique-without id s.tabs u,
        neighbour-IsShowing (without id s.tabs) i (ground (arith, length-without id s.tabs i u h)),
      )
      | inr other ↦ rw other (IsUnique-without id s.tabs u, stays s.active_id other v)
    ]

activate_tab-IsSlice : (s : ContentTabsSlice) (id : Text) → IsSlice s → IsSlice (activate_tab s id)
unfolding activate_tab
activate_tab-IsSlice s id (u, v) = elim (Bool-cases (is_id s.active_id id || not (has id s.tabs))) [
  | inl kept ↦ rw kept (u, v)
  | inr moved ↦ rw moved (u, ground arith)
]

pub data Op : Type 0 where
  open_op : Text → ContentSelection → Op
  close_op : Text → Op
  activate_op : Text → Op

unfoldable pub perform : Op → ContentTabsSlice → ContentTabsSlice
perform (open_op id x) s = open_tab s id x
perform (close_op id) s = close_tab s id
perform (activate_op id) s = activate_tab s id

unfoldable pub performs : List Op → ContentTabsSlice → ContentTabsSlice
performs [] s = s
performs (o ∷ os) s = performs os (perform o s)

perform-IsSlice : (o : Op) (s : ContentTabsSlice) → IsSlice s → IsSlice (perform o s)
unfolding perform
perform-IsSlice (open_op id x) s v = open_tab-IsSlice s id x v
perform-IsSlice (close_op id) s v = close_tab-IsSlice s id v
perform-IsSlice (activate_op id) s v = activate_tab-IsSlice s id v

-- However tabs are opened, closed and activated, no two tabs have the same identifier, and the active
-- identifier is that of an open tab, or null when no tab is open.
pub performs-IsSlice : (os : List Op) (s : ContentTabsSlice) → IsSlice s → IsSlice (performs os s)
unfolding performs
performs-IsSlice [] s v = v
performs-IsSlice (o ∷ os) s v = performs-IsSlice os (perform o s) (perform-IsSlice o s v)
