-- ===== src/Tabs/Neighbours.antt =====
-- Which tab shows after a tab is closed or opened.
use agent_cockpit.Base.{
  ℕ, zero, suc, ◌≡◌, refl, ap, ◌∙◌, Bool, true, false, not, Option, none, some,
}
use agent_cockpit.Base.{
  List, [], ◌∷◌, ◌++◌, Text, text_eq, text_eq_iff, text_eq_refl, arith, if◌then◌else◌, find, length,
  get_elem?,
}
use agent_cockpit.Tabs.{
  ContentTab, ContentSelection, ContentTabsSlice, has_id, find_index, set_at, open_tab, elem_before,
  or_else, id_of, is_id, close_at, close_tab, active_selection, selection_of,
}
use agent_cockpit.Tabs.Slices.{has, IsUnique, without, without-absent, find_index-has-none, apart}

last_id : List ContentTab → Option Text
last_id [] = none
last_id (t ∷ []) = some t.id
last_id (t ∷ s ∷ ts) = last_id (s ∷ ts)

-- The tab to the right, else the one to the left, else none.
unfoldable pub neighbour_id : List ContentTab → List ContentTab → Option Text
unfolding last_id
neighbour_id left (t ∷ right) = some t.id
neighbour_id left [] = last_id left

abbrev slice_of : List ContentTab → Option Text → ContentTabsSlice
slice_of ts a = record { tabs = ts; active_id = a }

find_index-middle :
    (xs : List ContentTab) (t : ContentTab) (ys : List ContentTab)
    → has t.id xs ≡ false
    → find_index (has_id t.id) (xs ++ t ∷ ys) ≡ some (length xs)
find_index-middle [] t ys h = rw (text_eq_refl t.id) refl
find_index-middle (x ∷ xs) t ys h = ground (arith, find_index-middle xs t ys)

without-middle :
    (xs : List ContentTab) (t : ContentTab) (ys : List ContentTab)
    → has t.id xs ≡ false
    → has t.id ys ≡ false
    → without t.id (xs ++ t ∷ ys) ≡ xs ++ ys
without-middle [] t ys h k = rw (text_eq_refl t.id) (without-absent t.id ys k)
without-middle (x ∷ xs) t ys h k = ground (arith, without-middle xs t ys)

neighbour_id_lem :
    (xs ys : List ContentTab)
    → id_of (or_else (get_elem? (xs ++ ys) (length xs)) (elem_before (xs ++ ys) (length xs)))
      ≡ neighbour_id xs ys
unfolding last_id neighbour_id
neighbour_id_lem [] [] = refl
neighbour_id_lem [] (y ∷ ys) = refl
neighbour_id_lem (x ∷ []) [] = refl
neighbour_id_lem (x ∷ []) (y ∷ ys) = refl
neighbour_id_lem (x ∷ w ∷ xs) [] = neighbour_id_lem (w ∷ xs) []
neighbour_id_lem (x ∷ w ∷ xs) (y ∷ ys) = neighbour_id_lem (w ∷ xs) (y ∷ ys)

close_tab_middle :
    (xs : List ContentTab) (t : ContentTab) (ys : List ContentTab) (a : Option Text)
    → IsUnique (xs ++ t ∷ ys)
    → close_tab (record { tabs = xs ++ t ∷ ys; active_id = a }) t.id
      ≡ (if is_id a t.id then slice_of (xs ++ ys) (neighbour_id xs ys) else slice_of (xs ++ ys) a)
unfolding close_tab
close_tab_middle xs t ys a u =
    let (before, after) = apart xs t ys u in
    let s : ContentTabsSlice = record { tabs = xs ++ t ∷ ys; active_id = a } in
    ap (λ o. elim o as (λ _. ContentTabsSlice) [ none ↦ s | some i ↦ close_at s t.id i ])
      (find_index-middle xs t ys before)
    ∙ closed (is_id a t.id) (without-middle xs t ys before after)
  where
    closed :
        (same : Bool) {ts : List ContentTab}
        → ts ≡ xs ++ ys
        → (if not same
            then slice_of ts a
            else slice_of ts
                (id_of (or_else (get_elem? ts (length xs)) (elem_before ts (length xs)))))
          ≡ (if same then slice_of (xs ++ ys) (neighbour_id xs ys) else slice_of (xs ++ ys) a)
    closed true e = rw (e, neighbour_id_lem xs ys) refl
    closed false e = rw e refl

-- Closing the active tab takes it out, keeps the order of the others and activates its right neighbour,
-- else its left one, else nothing. No two tabs have the same identifier.
pub close_tab_active :
    (xs : List ContentTab) (t : ContentTab) (ys : List ContentTab)
    → IsUnique (xs ++ t ∷ ys)
    → close_tab (record { tabs = xs ++ t ∷ ys; active_id = some t.id }) t.id
      ≡ record { tabs = xs ++ ys; active_id = neighbour_id xs ys }
close_tab_active xs t ys u = close_tab_middle xs t ys (some t.id) u ∙ rw (text_eq_refl t.id) refl

-- Closing another tab takes it out and leaves the active one active.
pub close_tab_inactive :
    (xs : List ContentTab) (t : ContentTab) (ys : List ContentTab) (a : Text)
    → IsUnique (xs ++ t ∷ ys)
    → text_eq a t.id ≡ false
    → close_tab (record { tabs = xs ++ t ∷ ys; active_id = some a }) t.id
      ≡ record { tabs = xs ++ ys; active_id = some a }
close_tab_inactive xs t ys a u other = close_tab_middle xs t ys (some a) u ∙ rw other refl

find-append_new :
    (t : ContentTab) (ts : List ContentTab)
    → has t.id ts ≡ false
    → find (λ s. text_eq t.id s.id) (ts ++ t ∷ []) ≡ some t
find-append_new t [] h = rw (text_eq_refl t.id) refl
find-append_new t (s ∷ ts) h =
    ground (arith, find-append_new t ts, text_eq_iff t.id s.id, text_eq_iff s.id t.id)

find-set_at :
    (t : ContentTab) (ts : List ContentTab) (i : ℕ)
    → find_index (has_id t.id) ts ≡ some i
    → find (λ s. text_eq t.id s.id) (set_at i t ts) ≡ some t
find-set_at t [] i h = absurd (ground arith)
find-set_at t (s ∷ ts) zero h = rw (text_eq_refl t.id) refl
find-set_at t (s ∷ ts) (suc i) h =
    ground (arith, find-set_at t ts i, text_eq_iff t.id s.id, text_eq_iff s.id t.id)

-- What was opened last is shown, whether its tab is new or was open before.
pub active_selection-open_tab :
    (s : ContentTabsSlice) (id : Text) (x : ContentSelection)
    → active_selection (open_tab s id x) ≡ some x
unfolding active_selection open_tab
active_selection-open_tab s id x = go (find_index (has_id id) s.tabs) refl
  where
    t : ContentTab
    t = record { id = id; selection = x }

    go :
        (o : Option ℕ)
        → find_index (has_id id) s.tabs ≡ o
        → active_selection (elim o as (λ _. ContentTabsSlice) [
          | none ↦ record { tabs = s.tabs ++ t ∷ []; active_id = some id }
          | some existing ↦ record { tabs = set_at existing t s.tabs; active_id = some id }
        ])
          ≡ some x
    go none h = ap selection_of (find-append_new t s.tabs (find_index-has-none id s.tabs h))
    go (some i) h = ap selection_of (find-set_at t s.tabs i h)
