-- ===== src/Beads/Edges.antt =====
-- The edges of two issues agree on which blocks the other.
use agent_cockpit.Base.{◌≡◌, refl, ap, sym, ◌∙◌, Bool, ◌&&◌, ◌||◌, Option, none, some}
use agent_cockpit.Base.{
  List, [], ◌∷◌, Text, text_eq, text_eq_iff, arith, if◌then◌else◌, any, keep, Bool-cases, inl, inr,
}
use agent_cockpit.Base.Maps
use agent_cockpit.Beads.{
  BeadsIssue, BeadsDep, BeadsTaskGraph, is_blocks, is_parent, index_from, by_id, put_found, resolve,
}
use agent_cockpit.Beads.{edges_for, children_of}

-- What is found under an identifier has it.
abbrev IsIndex : List (Text × BeadsIssue) → Type 0
IsIndex m = (k : Text) (i : BeadsIssue) → Maps.get k m ≡ some i → i.id ≡ k

index_from-IsIndex :
    (issues : List BeadsIssue) (m : List (Text × BeadsIssue))
    → IsIndex m
    → IsIndex (index_from issues m)
unfolding index_from
index_from-IsIndex [] m v = v
index_from-IsIndex (i ∷ issues) m v =
    index_from-IsIndex issues (Maps.set i.id i m) (λ k j h. go k j (Maps.get-set i.id k i m) h)
  where
    go :
        (k : Text) (j : BeadsIssue)
        → Maps.get k (Maps.set i.id i m) ≡ (if text_eq i.id k then some i else Maps.get k m)
        → Maps.get k (Maps.set i.id i m) ≡ some j
        → j.id ≡ k
    go k j e h = elim (Bool-cases (text_eq i.id k)) [
      | inl same ↦
          let found : some i ≡ some j = sym (e ∙ rw same refl) ∙ h in
          let it : i ≡ j = cc in
          ap (λ (i : BeadsIssue). i.id) (sym it) ∙ (text_eq_iff i.id k).0 same
      | inr other ↦ v k j (sym (e ∙ rw other refl) ∙ h)
    ]

pub by_id-id :
    (graph : BeadsTaskGraph) (k : Text) (i : BeadsIssue) → by_id graph k ≡ some i → i.id ≡ k
unfolding Maps.get
by_id-id graph = index_from-IsIndex graph.issues [] (λ k i h. absurd (ground arith))

any-resolve :
    (graph : BeadsTaskGraph) (pick : BeadsDep → Text) (x : Text) (i : BeadsIssue)
    (deps : List BeadsDep)
    → by_id graph x ≡ some i
    → any (λ i. text_eq i.id x) (resolve graph deps pick) ≡ any (λ d. text_eq (pick d) x) deps
unfolding resolve
any-resolve graph pick x i [] present = refl
any-resolve graph pick x i (d ∷ deps) present =
    go (by_id graph (pick d)) refl
    ∙ ap (λ b. text_eq (pick d) x || b) (any-resolve graph pick x i deps present)
  where
    clash : {j : BeadsIssue} → none ≡ some j → ⊥
    clash e = ground arith

    go :
        (o : Option BeadsIssue)
        → by_id graph (pick d) ≡ o
        → any (λ i. text_eq i.id x) (put_found o (resolve graph deps pick))
          ≡ (text_eq (pick d) x || any (λ i. text_eq i.id x) (resolve graph deps pick))
    go (some j) h =
        ap (λ k. text_eq k x || any (λ i. text_eq i.id x) (resolve graph deps pick))
          (by_id-id graph (pick d) j h)
    go none h = elim (Bool-cases (text_eq (pick d) x)) [
      | inl same ↦
          absurd (clash (sym h ∙ ap (by_id graph) ((text_eq_iff (pick d) x).0 same) ∙ present))
      | inr other ↦ rw other refl
    ]

any-keep :
    (p q : BeadsDep → Bool) (deps : List BeadsDep)
    → any q (keep p deps) ≡ any (λ d. p d && q d) deps
any-keep p q [] = refl
any-keep p q (d ∷ deps) = ground (arith, any-keep p q deps)

any-swap :
    (a b c : BeadsDep → Bool) (deps : List BeadsDep)
    → any (λ d. (a d && b d) && c d) deps ≡ any (λ d. (a d && c d) && b d) deps
any-swap a b c [] = refl
any-swap a b c (d ∷ deps) = ground (arith, any-swap a b c deps)

abbrev pub listed : Text → List BeadsIssue → Bool
listed x is = any (λ i. text_eq i.id x) is

-- One issue is listed among those that block another exactly when the other is listed among those it
-- blocks, if both are in the graph.
pub edges_for-dual :
    (graph : BeadsTaskGraph) (x y : Text) (i j : BeadsIssue)
    → by_id graph x ≡ some i
    → by_id graph y ≡ some j
    → listed x (edges_for graph y).blocked_by ≡ listed y (edges_for graph x).blocks
unfolding edges_for
edges_for-dual graph x y i j hx hy =
    any-resolve graph (λ d. d.to) x i _ hx
    ∙ any-keep _ (λ d. text_eq d.to x) graph.deps
    ∙ any-swap is_blocks (λ d. text_eq d.from y) (λ d. text_eq d.to x) graph.deps
    ∙ sym (any-keep _ (λ d. text_eq d.from y) graph.deps)
    ∙ sym (any-resolve graph (λ d. d.from) y j _ hy)

-- One issue is listed among the children of another exactly when the other is listed among its parents,
-- if both are in the graph.
pub children_of-parents :
    (graph : BeadsTaskGraph) (x y : Text) (i j : BeadsIssue)
    → by_id graph x ≡ some i
    → by_id graph y ≡ some j
    → listed x (children_of graph y) ≡ listed y (edges_for graph x).parents
unfolding edges_for children_of
children_of-parents graph x y i j hx hy =
    any-resolve graph (λ d. d.from) x i _ hx
    ∙ any-keep _ (λ d. text_eq d.from x) graph.deps
    ∙ any-swap is_parent (λ d. text_eq d.to y) (λ d. text_eq d.from x) graph.deps
    ∙ sym (any-keep _ (λ d. text_eq d.to y) graph.deps)
    ∙ sym (any-resolve graph (λ d. d.to) y j _ hy)
