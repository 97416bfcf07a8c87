-- ===== src/Beads/Ancestors.antt =====
-- src/renderer/beads/graphSelectors.ts: the chain of an issue's ancestors. The loop runs on fuel; the
-- number of parent edges, and one more round, is enough.
pub mod Chain
use agent_cockpit.Base.{
  ℕ, zero, suc, Bool, true, false, not, ◌||◌, Option, none, some, List, [], ◌∷◌, ◌++◌,
}
use agent_cockpit.Base.{Text, text_eq, if◌then◌else◌, any, length, ◌==◌}
use agent_cockpit.Base.Maps
use agent_cockpit.Beads.{BeadsIssue, BeadsDep, BeadsTaskGraph, is_parent, member, by_id}

-- `map.has(key)`
abbrev pub is_found {ℓ} : {A : Type ℓ} → Option A → Bool
is_found none = false
is_found (some x) = true

-- The loop that finds each child's parent: the edge declared first counts.
unfoldable pub parents_from :
    BeadsTaskGraph → List BeadsDep → List (Text × Text) → List (Text × Text)
parents_from graph [] m = m
parents_from graph (d ∷ deps) m = parents_from graph deps (
    if not (is_parent d)
    then m
    else if not (is_found (by_id graph d.from)) || not (is_found (by_id graph d.to))
    then m
    else if not (is_found (Maps.get d.from m))
    then Maps.set d.from d.to m
    else m)

abbrev pub parent_of : BeadsTaskGraph → List (Text × Text)
parent_of graph = parents_from graph graph.deps []

-- `if (issue) chain.push(issue)`
abbrev pub push_issue : Option BeadsIssue → List BeadsIssue → List BeadsIssue
push_issue none chain = chain
push_issue (some i) chain = chain ++ i ∷ []

-- The loop up the parents, from the identifiers seen, the current one and the chain so far; nothing when
-- the fuel runs out. An empty identifier ends it like a missing one.
unfoldable pub climb :
    BeadsTaskGraph
    → List (Text × Text)
    → ℕ
    → List Text
    → Option Text
    → List BeadsIssue
    → Option (List BeadsIssue)
climb graph parents zero seen cur chain = none
climb graph parents (suc fuel) seen none chain = some chain
climb graph parents (suc fuel) seen (some cur) chain =
    let rest =
      climb graph parents fuel (cur ∷ seen) (Maps.get cur parents)
        (push_issue (by_id graph cur) chain) in
    if (length cur == 0) || member seen cur then some chain else rest

abbrev pub reverse {ℓ} : {A : Type ℓ} → List A → List A
reverse [] = []
reverse (x ∷ xs) = reverse xs ++ x ∷ []

abbrev pub reversed : Option (List BeadsIssue) → List BeadsIssue
reversed none = []
reversed (some chain) = reverse chain

abbrev pub fuel_of : List (Text × Text) → ℕ
fuel_of parents = suc (suc (length parents))

unfoldable pub ancestors_of : BeadsTaskGraph → Text → List BeadsIssue
ancestors_of graph id = reversed (
    climb graph (parent_of graph) (fuel_of (parent_of graph)) (id ∷ [])
      (Maps.get id (parent_of graph)) [])
