-- ===== src/Tabs/Stored/RoundTrip.antt =====
-- What is stored is read back, and whatever is read is well formed.
use agent_cockpit.Base.{◌≡◌, refl, ap, sym, ◌∙◌, Bool, true, false, Option, none, some}
use agent_cockpit.Base.{
  List, [], ◌∷◌, ◌++◌, Text, codes, text_eq, text_eq_iff, text_eq_refl, arith, if◌then◌else◌, any,
  length, ◌==◌, Bool-cases, inl, inr,
}
use mathlib.Core.List.{append-nil, append_assoc}
use mathlib.Core.Path.{subst}
use agent_cockpit.Base.Maps.{get-delete, get-set_self}
use agent_cockpit.Tabs.{
  ContentKind, change, file, external_file, ContentSelection, ContentTab, ContentTabsSlice,
}
use agent_cockpit.Tabs.Slices.{
  has, IsUnique, IsShowing, IsSlice, has-append, IsUnique-append_new, apart,
}
use agent_cockpit.Tabs.Stored.{
  Json, null, boolean, number, string, array, object, prop, as_string, Items, nil, cons, field,
  is_selection, selection_json, push_tab, read_tabs, active_from, first_id,
}
use agent_cockpit.Tabs.Stored.{
  parse_data, slice_json, tabs_json, tab_json, slice_from, load_tabs, save_tabs, storage_key,
  parse_tabs, parse_text, Storage,
}

is_selection_lem : (s : ContentSelection) → is_selection (selection_json s) ≡ some s
unfolding is_selection selection_json field
is_selection_lem s = go s.kind s.baseline s.old_path
  where
    go :
        (k : ContentKind) (b : Option Text) (o : Option (Option Text))
        → is_selection (selection_json (record s { kind = k; baseline = b; old_path = o }))
          ≡ some (record s { kind = k; baseline = b; old_path = o })
    go change none none = refl
    go change none (some none) = refl
    go change none (some (some x)) = refl
    go change (some b) none = refl
    go change (some b) (some none) = refl
    go change (some b) (some (some x)) = refl
    go file none none = refl
    go file none (some none) = refl
    go file none (some (some x)) = refl
    go file (some b) none = refl
    go file (some b) (some none) = refl
    go file (some b) (some (some x)) = refl
    go external_file none none = refl
    go external_file none (some none) = refl
    go external_file none (some (some x)) = refl
    go external_file (some b) none = refl
    go external_file (some b) (some none) = refl
    go external_file (some b) (some (some x)) = refl

tab_lem :
    (t : ContentTab) (js : Items) (r : List Text × List ContentTab)
    → read_tabs (cons (tab_json t) js) r ≡ read_tabs js (push_tab (some t.id) (some t.selection) r)
unfolding read_tabs field
tab_lem t js r = ap (λ x. read_tabs js (push_tab (some t.id) x r)) (is_selection_lem t.selection)

-- The identifiers seen are those of the tabs.
abbrev IsSeen : List Text × List ContentTab → Type 0
IsSeen r = (id : Text) → any (text_eq id) r.0 ≡ has id r.1

abbrev IsRead : List Text × List ContentTab → Type 0
IsRead r = IsUnique r.1 × IsSeen r

push_tab-IsRead :
    (id : Option Text) (x : Option ContentSelection) (r : List Text × List ContentTab)
    → IsRead r
    → IsRead (push_tab id x r)
push_tab-IsRead none x r v = v
push_tab-IsRead (some id) none r v = v
push_tab-IsRead (some id) (some x) (seen, tabs) (u, s) = elim (Bool-cases (any (text_eq id) seen)) [
  | inl old ↦ rw old (u, s)
  | inr new ↦ rw new (
    IsUnique-append_new (record { id = id; selection = x }) tabs u (sym (s id) ∙ new),
    λ j. ground (
      arith,
      s j,
      has-append j tabs (record { id = id; selection = x } ∷ []),
      text_eq_iff id j,
      text_eq_iff j id,
    ),
  )
]

read_tabs-IsRead :
    (js : Items) (r : List Text × List ContentTab) → IsRead r → IsRead (read_tabs js r)
unfolding read_tabs
read_tabs-IsRead nil r v = v
read_tabs-IsRead (cons t js) r v = read_tabs-IsRead js _ (push_tab-IsRead _ _ r v)

first_id-IsShowing : (ts : List ContentTab) → IsShowing (first_id ts) ts
first_id-IsShowing [] = refl
first_id-IsShowing (t ∷ ts) = ground (arith, text_eq_refl t.id)

-- Whatever value was stored, a slice that is read from it is well formed: no identifier twice, and the
-- active identifier is that of a tab, or null when there is none.
pub parse_data-IsSlice : (v : Json) (s : ContentTabsSlice) → parse_data v ≡ some s → IsSlice s
unfolding parse_data
parse_data-IsSlice v s h = go (prop (codes "tabs") v) h
  where
    showing :
        (o : Option Text) (r : List Text × List ContentTab)
        → IsRead r
        → IsShowing (active_from o r) r.1
    showing none r x = first_id-IsShowing r.1
    showing (some id) (seen, tabs) (u, same) = elim (Bool-cases (any (text_eq id) seen)) [
      | inl stored ↦ rw stored (sym (same id) ∙ stored)
      | inr gone ↦ rw gone (first_id-IsShowing tabs)
    ]

    go :
        (o : Option Json)
        → slice_from o (as_string (prop (codes "activeId") v)) ≡ some s
        → IsSlice s
    go none e = absurd (ground arith)
    go (some null) e = absurd (ground arith)
    go (some (boolean b)) e = absurd (ground arith)
    go (some (number n)) e = absurd (ground arith)
    go (some (string x)) e = absurd (ground arith)
    go (some (object ms)) e = absurd (ground arith)
    go (some (array js)) e =
        let read : IsRead (read_tabs js ([], [])) = read_tabs-IsRead js ([], []) (tt, λ id. refl) in
        subst IsSlice (cc) (read.0, showing (as_string (prop (codes "activeId") v)) _ read)

-- The tabs of a list are read back behind those read before.
read_tabs-tabs_json :
    (ts : List ContentTab) (r : List Text × List ContentTab)
    → IsRead r
    → IsUnique (r.1 ++ ts)
    → (read_tabs (tabs_json ts) r).1 ≡ r.1 ++ ts
unfolding read_tabs tabs_json
read_tabs-tabs_json [] r v u = sym (append-nil r.1)
read_tabs-tabs_json (t ∷ ts) (seen, tabs) (v, s) u =
    let new : any (text_eq t.id) seen ≡ false = s t.id ∙ (apart tabs t ts u).0 in
    let pushed : push_tab (some t.id) (some t.selection) (seen, tabs)
        ≡ (t.id ∷ seen, tabs ++ t ∷ []) =
      rw new refl in
    let step : List Text × List ContentTab = (t.id ∷ seen, tabs ++ t ∷ []) in
    let same : (tabs ++ t ∷ []) ++ ts ≡ tabs ++ t ∷ ts = append_assoc tabs (t ∷ []) ts in
    ap {B = List ContentTab} (λ r. r.1) (tab_lem t (tabs_json ts) (seen, tabs))
    ∙ ap {B = List ContentTab} (λ r. (read_tabs (tabs_json ts) r).1) pushed
    ∙ read_tabs-tabs_json ts step
        (subst IsRead pushed (push_tab-IsRead (some t.id) (some t.selection) (seen, tabs) (v, s)))
        (subst IsUnique (sym same) u)
    ∙ same

abbrev slice_of : List ContentTab → Option Text → ContentTabsSlice
slice_of ts a = record { tabs = ts; active_id = a }

-- The slice that is read from what was written for a slice.
parse_data-slice_json : (s : ContentTabsSlice) → IsSlice s → parse_data (slice_json s) ≡ some s
unfolding parse_data slice_json field
parse_data-slice_json s (u, v) = go s.active_id v
  where
    r : List Text × List ContentTab
    r = read_tabs (tabs_json s.tabs) ([], [])

    read : IsRead r
    read = read_tabs-IsRead (tabs_json s.tabs) ([], []) (tt, λ id. refl)

    same : r.1 ≡ s.tabs
    same = read_tabs-tabs_json s.tabs ([], []) (tt, λ id. refl) u

    stored :
        (a : Option Text)
        → active_from a r ≡ a
        → some (record { tabs = r.1; active_id = active_from a r }) ≡ some (slice_of s.tabs a)
    stored a e = rw (e, same) refl

    empty : (ts : List ContentTab) → length ts ≡ 0 → first_id ts ≡ none
    empty [] e = refl
    empty (t ∷ ts) e = absurd (omega arith)

    go :
        (a : Option Text)
        → IsShowing a s.tabs
        → parse_data (slice_json (record s { active_id = a })) ≡ some (record s { active_id = a })
    go none showing = stored none (ap first_id same ∙ empty s.tabs showing)
    go (some id) showing =
        stored (some id) (shown (any (text_eq id) r.0) (read.1 id ∙ ap (has id) same ∙ showing))
      where
        shown : (b : Bool) → b ≡ true → (if b then some id else first_id r.1) ≡ some id
        shown b e = rw e refl

-- The tabs that were saved for a project are loaded again, and none when there were none to save.
-- `JSON.parse` reads the text that `JSON.stringify` wrote for them, which is not empty.
pub load_tabs-save_tabs :
    (parse : Text → Option Json) (stringify : Json → Text) (id : Text) (s : ContentTabsSlice)
    (m : Storage)
    → parse (stringify (slice_json s)) ≡ some (slice_json s)
    → text_eq (stringify (slice_json s)) [] ≡ false
    → IsSlice s
    → load_tabs parse stringify id (save_tabs parse stringify id s m)
      ≡ (if length s.tabs == 0 then none else some s)
unfolding load_tabs save_tabs
load_tabs-save_tabs parse stringify id s m inverse written v =
    elim (Bool-cases (length s.tabs == 0)) [
      | inl empty ↦ rw empty (
          ap (parse_tabs parse stringify) (
            get-delete (storage_key id) (storage_key id) m
            ∙ only _ (text_eq_refl (storage_key id))))
      | inr full ↦ rw full (
          ap (parse_tabs parse stringify)
            (get-set_self (storage_key id) (stringify (slice_json s)) m)
          ∙ text (stringify (slice_json s)) written
          ∙ ap (parse_text parse stringify) inverse
          ∙ parse_data-slice_json s v)
    ]
  where
    only : {b : Bool} (o : Option Text) → b ≡ true → (if b then none else o) ≡ none
    only o e = rw e refl

    text :
        (t : Text)
        → text_eq t [] ≡ false
        → parse_tabs parse stringify (some t) ≡ parse_text parse stringify (parse t)
    text [] e = absurd (ground arith)
    text (c ∷ t) e = refl
