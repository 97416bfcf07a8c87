-- ===== src/Beads/Ancestors/Chain.antt =====
-- The loop up the parents ends, also on a cycle, and walks the parent edges.
use agent_cockpit.Base.{
  ℕ, zero, suc, ◌≤◌, ◌<◌, ◌≡◌, refl, ap, sym, ◌∙◌, Bool, true, false, not, ◌||◌, Option, none, some,
}
use agent_cockpit.Base.{
  List, [], ◌∷◌, ◌++◌, Text, text_eq, text_eq_iff, arith, if◌then◌else◌, keep, length, length-keep,
  ◌==◌, Bool-cases, inl, inr,
}
use mathlib.Core.Path.{subst}
use mathlib.Core.List.{append-nil, append_assoc}
use agent_cockpit.Base.Maps
use agent_cockpit.Beads.{BeadsIssue, BeadsDep, BeadsTaskGraph, member, by_id, is_parent}
use agent_cockpit.Beads.Edges.{by_id-id}
use agent_cockpit.Beads.Ancestors.{
  is_found, parents_from, push_issue, climb, reverse, reversed, ancestors_of, parent_of, fuel_of,
}

-- The parent edges of children not seen yet.
abbrev unseen : List Text → List (Text × Text) → ℕ
unseen seen parents = length (keep (λ e. not (member seen e.0)) parents)

unseen_less :
    (seen : List Text) (cur : Text) (parents : List (Text × Text))
    → unseen (cur ∷ seen) parents ≤ unseen seen parents
unseen_less seen cur [] = omega arith
unseen_less seen cur (e ∷ parents) = ground (arith, unseen_less seen cur parents)

-- A new child with a parent edge is one fewer.
unseen_step :
    (seen : List Text) (cur : Text) (parents : List (Text × Text)) (p : Text)
    → member seen cur ≡ false
    → Maps.get cur parents ≡ some p
    → unseen (cur ∷ seen) parents < unseen seen parents
unfolding Maps.get
unseen_step seen cur [] p new h = absurd (ground arith)
unseen_step seen cur ((c, q) ∷ parents) p new h = elim (Bool-cases (text_eq c cur)) [
  | inl same ↦
      let it : c ≡ cur = (text_eq_iff c cur).0 same in
      let fresh : member seen c ≡ false = ap (member seen) it ∙ new in
      ground (arith, unseen_less seen cur parents)
  | inr other ↦ ground (arith, unseen_step seen cur parents p)
]

-- Where a chain of parents stops: at a root, or at an identifier that is empty or was seen.
abbrev pub stops : List Text → Option Text → Bool
stops seen none = true
stops seen (some c) = (length c == 0) || member seen c

-- A chain that starts at an issue: every next one is the parent of the one before and was not seen, and it
-- goes on until it stops.
abbrev pub IsChain : List (Text × Text) → List Text → Option Text → List BeadsIssue → Type 0
IsChain parents seen cur [] = stops seen cur ≡ true
IsChain parents seen cur (i ∷ is) =
    (cur ≡ some i.id)
    × (stops seen cur ≡ false)
    × IsChain parents (i.id ∷ seen) (Maps.get i.id parents) is

-- Every parent is an issue of the graph.
abbrev AreIssues : BeadsTaskGraph → List (Text × Text) → Type 0
AreIssues graph parents =
    (k p : Text) → Maps.get k parents ≡ some p → (i : BeadsIssue) × (by_id graph p ≡ some i)

abbrev IsIssue : BeadsTaskGraph → Option Text → Type 0
IsIssue graph cur = (c : Text) → cur ≡ some c → (i : BeadsIssue) × (by_id graph c ≡ some i)

-- What a climb from a chain answers.
abbrev Climbs :
    BeadsTaskGraph → List (Text × Text) → ℕ → List Text → Option Text → List BeadsIssue → Type 0
Climbs graph parents fuel seen cur chain =
    (r : List BeadsIssue) × (climb graph parents fuel seen cur chain ≡ some (chain ++ r))
    × IsChain parents seen cur r

at_root :
    (graph : BeadsTaskGraph) (parents : List (Text × Text)) (fuel : ℕ) (seen : List Text)
    (chain : List BeadsIssue)
    → 0 < fuel
    → Climbs graph parents fuel seen none chain
unfolding climb
at_root graph parents zero seen chain h = absurd (omega arith)
at_root graph parents (suc fuel) seen chain h = ([], ap some (sym (append-nil chain)), refl)

-- The issue found is the next of the chain.
one_up :
    (graph : BeadsTaskGraph) (parents : List (Text × Text)) (fuel : ℕ) (seen : List Text)
    (cur : Text) (chain : List BeadsIssue) (i : BeadsIssue)
    → stops seen (some cur) ≡ false
    → by_id graph cur ≡ some i
    → Climbs graph parents fuel (cur ∷ seen) (Maps.get cur parents) (chain ++ i ∷ [])
    → Climbs graph parents (suc fuel) seen (some cur) chain
unfolding climb
one_up graph parents fuel seen cur chain i on found (r, e, c) =
    let it : i.id ≡ cur = by_id-id graph cur i found in
    (
      i ∷ r,
      rw on (
          ap
            (λ o. climb graph parents fuel (cur ∷ seen) (Maps.get cur parents) (push_issue o chain))
            found
          ∙ e
          ∙ ap some (append_assoc chain (i ∷ []) r)),
      (
        ap some (sym it),
        on,
        subst (λ k. IsChain parents (k ∷ seen) (Maps.get k parents) r) (sym it) c,
      ),
    )

-- Enough fuel: more than the children not seen yet, one more for the next.
climb-IsChain :
    (graph : BeadsTaskGraph) (parents : List (Text × Text)) (fuel : ℕ) (seen : List Text)
    (cur : Option Text) (chain : List BeadsIssue)
    → AreIssues graph parents
    → IsIssue graph cur
    → suc (unseen seen parents) < fuel
    → Climbs graph parents fuel seen cur chain
unfolding climb
climb-IsChain graph parents zero seen cur chain all here h = absurd (omega arith)
climb-IsChain graph parents (suc fuel) seen none chain all here h =
    at_root graph parents (suc fuel) seen chain (omega arith)
climb-IsChain graph parents (suc fuel) seen (some cur) chain all here h =
    elim (Bool-cases (stops seen (some cur))) [
      | inl stop ↦ ([], rw stop (ap some (sym (append-nil chain))), stop)
      | inr on ↦
          let (i, found) = here cur refl in
          one_up graph parents fuel seen cur chain i on found (
            next on (climb-IsChain graph parents fuel (cur ∷ seen)) (chain ++ i ∷ [])
              (Maps.get cur parents) refl)
    ]
  where
    new : (b c : Bool) → (b || c) ≡ false → c ≡ false
    new b c e = ground arith

    next :
        stops seen (some cur) ≡ false
        → ((o : Option Text) (chain : List BeadsIssue)
            → AreIssues graph parents
            → IsIssue graph o
            → suc (unseen (cur ∷ seen) parents) < fuel
            → Climbs graph parents fuel (cur ∷ seen) o chain)
        → (chain : List BeadsIssue) (o : Option Text) → Maps.get cur parents ≡ o
        → Climbs graph parents fuel (cur ∷ seen) o chain
    next on ih chain none e = at_root graph parents fuel (cur ∷ seen) chain (omega arith)
    next on ih chain (some p) e =
        let less : unseen (cur ∷ seen) parents < unseen seen parents =
          unseen_step seen cur parents p (new (length cur == 0) (member seen cur) on) e in
        ih (some p) chain all (λ c same. all cur c (e ∙ same)) (omega arith)

set-AreIssues :
    (graph : BeadsTaskGraph) (k p : Text) (m : List (Text × Text)) (i : BeadsIssue)
    → by_id graph p ≡ some i
    → AreIssues graph m
    → AreIssues graph (Maps.set k p m)
set-AreIssues graph k p m i found v j q h = elim (Bool-cases (text_eq k j)) [
  | inl same ↦
      let here : some p ≡ some q = sym (Maps.get-set k j p m ∙ rw same refl) ∙ h in
      let it : p ≡ q = cc in (i, ap (by_id graph) (sym it) ∙ found)
  | inr other ↦ v j q (sym (Maps.get-set k j p m ∙ rw other refl) ∙ h)
]

parents_from-AreIssues :
    (graph : BeadsTaskGraph) (deps : List BeadsDep) (m : List (Text × Text))
    → AreIssues graph m
    → AreIssues graph (parents_from graph deps m)
unfolding parents_from
parents_from-AreIssues graph [] m v = v
parents_from-AreIssues graph (d ∷ deps) m v = parents_from-AreIssues graph deps _ (
    go (not (is_parent d)) (not (is_found (by_id graph d.from)))
      (not (is_found (Maps.get d.from m))) (by_id graph d.to) refl)
  where
    go :
        (a b n : Bool) (o : Option BeadsIssue)
        → by_id graph d.to ≡ o
        → AreIssues graph (
            if a
            then m
            else if b || not (is_found o)
            then m
            else if n
            then Maps.set d.from d.to m
            else m)
    go true b n o e = v
    go false true n o e = v
    go false false n none e = v
    go false false true (some i) e = set-AreIssues graph d.from d.to m i e v
    go false false false (some i) e = v

parent_of-AreIssues : (graph : BeadsTaskGraph) → AreIssues graph (parent_of graph)
unfolding Maps.get
parent_of-AreIssues graph =
    parents_from-AreIssues graph graph.deps [] (λ k p h. absurd (ground arith))

-- The ancestors of an issue, from the nearest one, are a chain of parents that starts at the issue, never
-- repeats one, and stops only at a root or at an issue that was met before; it is found also when the
-- parent edges form a cycle.
pub ancestors_of-IsChain :
    (graph : BeadsTaskGraph) (id : Text)
    → (chain : List BeadsIssue) × (ancestors_of graph id ≡ reverse chain)
      × IsChain (parent_of graph) (id ∷ []) (Maps.get id (parent_of graph)) chain
unfolding ancestors_of
ancestors_of-IsChain graph id =
    let parents : List (Text × Text) = parent_of graph in
    let (r, e, c) =
      climb-IsChain graph parents (fuel_of parents) (id ∷ []) (Maps.get id parents) []
        (parent_of-AreIssues graph) (λ c h. parent_of-AreIssues graph id c h)
        (ground (arith, length-keep (λ (e : Text × Text). not (member (id ∷ []) e.0)) parents)) in
    (r, ap reversed e, c)
