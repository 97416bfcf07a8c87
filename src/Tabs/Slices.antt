-- ===== src/Tabs/Slices.antt =====
-- The tabs of a panel stay well formed.
use agent_cockpit.Base.{
  ℕ, zero, suc, ◌≤◌, ◌<◌, ◌≡◌, refl, ap, sym, ◌∙◌, Bool, true, false, not, ◌||◌, Option, none, some,
}
use agent_cockpit.Base.{
  List, [], ◌∷◌, ◌++◌, Text, text_eq, text_eq_iff, text_eq_refl, arith, if◌then◌else◌, any, keep,
  length, get_elem?, Bool-cases, inl, inr,
}
use agent_cockpit.Tabs.{ContentTab, ContentSelection, ContentTabsSlice, has_id, find_index, set_at}

abbrev pub has : Text → List ContentTab → Bool
has id ts = any (has_id id) ts

-- No two tabs have the same identifier.
abbrev pub IsUnique : List ContentTab → Type 0
IsUnique [] = Unit
IsUnique (t ∷ ts) = (has t.id ts ≡ false) × IsUnique ts

-- Some tab is showing, unless there is none.
abbrev pub IsShowing : Option Text → List ContentTab → Type 0
IsShowing none ts = length ts ≡ 0
IsShowing (some id) ts = has id ts ≡ true

abbrev pub IsSlice : ContentTabsSlice → Type 0
IsSlice s = IsUnique s.tabs × IsShowing s.active_id s.tabs

pub has-append :
    (id : Text) (ts us : List ContentTab) → has id (ts ++ us) ≡ (has id ts || has id us)
has-append id [] us = refl
has-append id (t ∷ ts) us = ground (arith, has-append id ts us)

pub IsUnique-append_new :
    (t : ContentTab) (ts : List ContentTab)
    → IsUnique ts
    → has t.id ts ≡ false
    → IsUnique (ts ++ t ∷ [])
IsUnique-append_new t [] u h = (refl, tt)
IsUnique-append_new t (s ∷ ts) (new, u) h = (
  ground (arith, has-append s.id ts (t ∷ []), text_eq_iff s.id t.id, text_eq_iff t.id s.id),
  IsUnique-append_new t ts u (ground arith),
)

pub find_index-has-none :
    (id : Text) (ts : List ContentTab) → find_index (has_id id) ts ≡ none → has id ts ≡ false
find_index-has-none id [] h = refl
find_index-has-none id (t ∷ ts) h = ground (arith, find_index-has-none id ts)

-- The tab that is found may be put anew: the identifiers stay.
pub has-set_at :
    (id j : Text) (s : ContentSelection) (ts : List ContentTab) (i : ℕ)
    → find_index (has_id id) ts ≡ some i
    → has j (set_at i (record { id = id; selection = s }) ts) ≡ has j ts
has-set_at id j s [] i h = refl
has-set_at id j s (t ∷ ts) zero h = ground (arith, text_eq_iff t.id id)
has-set_at id j s (t ∷ ts) (suc i) h = ground (arith, has-set_at id j s ts i)

pub has-set_at_self :
    (id : Text) (s : ContentSelection) (ts : List ContentTab) (i : ℕ)
    → find_index (has_id id) ts ≡ some i
    → has id (set_at i (record { id = id; selection = s }) ts) ≡ true
has-set_at_self id s [] i h = absurd (ground arith)
has-set_at_self id s (t ∷ ts) zero h = ground (arith, text_eq_refl id)
has-set_at_self id s (t ∷ ts) (suc i) h = ground (arith, has-set_at_self id s ts i)

pub IsUnique-set_at :
    (id : Text) (s : ContentSelection) (ts : List ContentTab) (i : ℕ)
    → find_index (has_id id) ts ≡ some i
    → IsUnique ts
    → IsUnique (set_at i (record { id = id; selection = s }) ts)
IsUnique-set_at id s [] i h u = tt
IsUnique-set_at id s (t ∷ ts) zero h (new, u) = (ground (arith, text_eq_iff t.id id), u)
IsUnique-set_at id s (t ∷ ts) (suc i) h (new, u) =
    (has-set_at id t.id s ts i (ground arith) ∙ new, IsUnique-set_at id s ts i (ground arith) u)

abbrev pub without : Text → List ContentTab → List ContentTab
without id ts = keep (λ t. not (has_id id t)) ts

pub has-without :
    (id j : Text) (ts : List ContentTab)
    → has j (without id ts) ≡ (if text_eq j id then false else has j ts)
has-without id j [] = ground arith
has-without id j (t ∷ ts) =
    ground (arith, has-without id j ts, text_eq_iff t.id id, text_eq_iff t.id j, text_eq_iff j id)

pub IsUnique-without : (id : Text) (ts : List ContentTab) → IsUnique ts → IsUnique (without id ts)
IsUnique-without id [] u = tt
IsUnique-without id (t ∷ ts) (new, u) = elim (Bool-cases (has_id id t)) [
  | inl same ↦ rw same (IsUnique-without id ts u)
  | inr other ↦ rw other (ground (arith, has-without id t.id ts), IsUnique-without id ts u)
]

pub without-absent : (id : Text) (ts : List ContentTab) → has id ts ≡ false → without id ts ≡ ts
without-absent id [] h = refl
without-absent id (t ∷ ts) h = ground (arith, without-absent id ts)

-- Only the one tab goes.
pub length-without :
    (id : Text) (ts : List ContentTab) (i : ℕ)
    → IsUnique ts
    → find_index (has_id id) ts ≡ some i
    → (suc (length (without id ts)) ≡ length ts) × (i < length ts)
length-without id [] i u h = absurd (ground arith)
length-without id (t ∷ ts) zero (new, u) h =
    let same : t.id ≡ id = (text_eq_iff t.id id).0 (ground arith) in
    let rest : without id ts ≡ ts = without-absent id ts (ap (λ j. has j ts) (sym same) ∙ new) in
    (ground (arith, ap {B = ℕ} length rest), ground arith)
length-without id (t ∷ ts) (suc i) (new, u) h = ground (arith, length-without id ts i u)

pub get_elem?-has :
    (ts : List ContentTab) (i : ℕ) (t : ContentTab) → get_elem? ts i ≡ some t → has t.id ts ≡ true
get_elem?-has [] i t h = absurd (ground arith)
get_elem?-has (s ∷ ts) zero t h = ground (arith, text_eq_refl t.id)
get_elem?-has (s ∷ ts) (suc i) t h = ground (arith, get_elem?-has ts i t)

pub get_elem?-none : (ts : List ContentTab) (i : ℕ) → get_elem? ts i ≡ none → length ts ≤ i
get_elem?-none [] i h = omega arith
get_elem?-none (s ∷ ts) zero h = absurd (ground arith)
get_elem?-none (s ∷ ts) (suc i) h = ground (arith, get_elem?-none ts i)

-- A tab in the middle is found nowhere else.
pub apart :
    (xs : List ContentTab) (t : ContentTab) (ys : List ContentTab)
    → IsUnique (xs ++ t ∷ ys)
    → (has t.id xs ≡ false) × (has t.id ys ≡ false)
apart [] t ys (new, u) = (refl, new)
apart (x ∷ xs) t ys (new, u) =
    let (before, after) = apart xs t ys u in
    (
      ground (arith, has-append x.id xs (t ∷ ys), text_eq_iff t.id x.id, text_eq_iff x.id t.id),
      after,
    )
