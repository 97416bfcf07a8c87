-- ===== src/Beads/Anchor.antt =====
-- src/renderer/beads/graphSelectors.ts: the issue the graph view centres on.
use agent_cockpit.Base.{
  ◌≡◌, refl, ap, sym, ◌∙◌, Bool, true, false, Option, none, some, List, [], ◌∷◌,
}
use agent_cockpit.Base.{
  Text, text_eq, text_eq_refl, if◌then◌else◌, any, find, keep, length, ltb, ◌==◌, arith, Bool-cases,
  inl, inr,
}
use agent_cockpit.Beads.Sort.{Order, sort, count-sort}
use agent_cockpit.Beads.{
  BeadsIssue, BeadsTaskGraph, StatusGroup, in_progress_group, ready_group, status_group,
}
use agent_cockpit.Beads.Groups.{group_order, compare_issues}

abbrev pub first_with : StatusGroup → List BeadsIssue → Option BeadsIssue
first_with group sorted =
    find (λ i. group_order (status_group i.status) == group_order group) sorted

-- `a ?? b`
abbrev pub or_else : Option BeadsIssue → Option BeadsIssue → Option BeadsIssue
or_else (some i) o = some i
or_else none o = o

abbrev pub head : List BeadsIssue → Option BeadsIssue
head [] = none
head (i ∷ is) = some i

abbrev pub id_of : Option BeadsIssue → Option Text
id_of none = none
id_of (some i) = some i.id

abbrev pub is_selected : BeadsTaskGraph → Option Text → Bool
is_selected graph none = false
is_selected graph (some id) = any (λ i. text_eq i.id id) graph.issues

unfoldable pub resolve_anchor_id :
    (Text → Text → Order) → BeadsTaskGraph → Option Text → Option Text
resolve_anchor_id cmp graph selected_id =
    let sorted = sort (compare_issues cmp) graph.issues in
    if is_selected graph selected_id
    then selected_id
    else id_of (
        or_else (or_else (first_with in_progress_group sorted) (first_with ready_group sorted))
          (head sorted))

-- What is there to centre on: an issue of the list, or nothing when there is none.
abbrev pub IsAnchor : List BeadsIssue → Option Text → Type 0
IsAnchor is none = length is ≡ 0
IsAnchor is (some id) = any (λ i. text_eq i.id id) is ≡ true

find-listed :
    (p : BeadsIssue → Bool) (is : List BeadsIssue) (i : BeadsIssue)
    → find p is ≡ some i
    → any (λ j. text_eq j.id i.id) is ≡ true
find-listed p [] i h = absurd (ground arith)
find-listed p (j ∷ is) i h = elim (Bool-cases (p j)) [
  | inl here ↦
      let it : some j ≡ some i = sym (rw here refl) ∙ h in
      let same : j ≡ i = cc in
      rw (ap (λ (j : BeadsIssue). text_eq j.id i.id) same, text_eq_refl i.id) refl
  | inr later ↦ ground (arith, find-listed p is i)
]

any-count : (p : BeadsIssue → Bool) (is : List BeadsIssue) → any p is ≡ ltb 0 (length (keep p is))
any-count p [] = refl
any-count p (i ∷ is) = ground (arith, any-count p is)

count-all : (is : List BeadsIssue) → length (keep (λ _. true) is) ≡ length is
count-all [] = refl
count-all (i ∷ is) = ground (arith, count-all is)

-- The anchor is an issue of the graph, and there is none only when the graph has no issue; a selection that
-- is in the graph is the anchor.
pub resolve_anchor_id-IsAnchor :
    (cmp : Text → Text → Order) (graph : BeadsTaskGraph) (selected : Option Text)
    → IsAnchor graph.issues (resolve_anchor_id cmp graph selected)
      × (is_selected graph selected ≡ true → resolve_anchor_id cmp graph selected ≡ selected)
unfolding resolve_anchor_id
resolve_anchor_id-IsAnchor cmp graph selected = (
  elim (Bool-cases (is_selected graph selected)) [
    | inl there ↦ rw there (chosen selected there)
    | inr absent ↦ rw absent (back (fallback sorted))
  ],
  λ there. rw there refl,
)
  where
    sorted : List BeadsIssue
    sorted = sort (compare_issues cmp) graph.issues

    chosen : (s : Option Text) → is_selected graph s ≡ true → IsAnchor graph.issues s
    chosen none h = absurd (ground arith)
    chosen (some id) h = h

    pick : List BeadsIssue → Option BeadsIssue
    pick is =
        or_else (or_else (first_with in_progress_group is) (first_with ready_group is)) (head is)

    found :
        (is : List BeadsIssue) (o p q : Option BeadsIssue)
        → ((i : BeadsIssue) → o ≡ some i → any (λ j. text_eq j.id i.id) is ≡ true)
        → ((i : BeadsIssue) → p ≡ some i → any (λ j. text_eq j.id i.id) is ≡ true)
        → IsAnchor is (id_of q)
        → IsAnchor is (id_of (or_else (or_else o p) q))
    found is (some i) p q h k l = h i refl
    found is none (some i) q h k l = k i refl
    found is none none q h k l = l

    first : (is : List BeadsIssue) → IsAnchor is (id_of (head is))
    first [] = refl
    first (i ∷ is) = rw (text_eq_refl i.id) refl

    fallback : (is : List BeadsIssue) → IsAnchor is (id_of (pick is))
    fallback is =
        found is (first_with in_progress_group is) (first_with ready_group is) (head is)
          (find-listed _ is) (find-listed _ is) (first is)

    back_at : (o : Option Text) → IsAnchor sorted o → IsAnchor graph.issues o
    back_at none h =
        sym (count-all graph.issues)
        ∙ sym (count-sort (compare_issues cmp) (λ _. true) graph.issues)
        ∙ count-all sorted
        ∙ h
    back_at (some id) h =
        any-count (λ i. text_eq i.id id) graph.issues
        ∙ ap (ltb 0) (sym (count-sort (compare_issues cmp) (λ i. text_eq i.id id) graph.issues))
        ∙ sym (any-count (λ i. text_eq i.id id) sorted)
        ∙ h

    back : IsAnchor sorted (id_of (pick sorted)) → IsAnchor graph.issues (id_of (pick sorted))
    back = back_at (id_of (pick sorted))
