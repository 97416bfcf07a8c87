-- ===== src/Beads/Tests.antt =====
-- Three issues: one blocks another, whose parent is the third; and a cycle of parents.
use agent_cockpit.Base.{◌≡◌, refl, List, [], ◌∷◌, codes, Text, length, keep, map}
use agent_cockpit.Base.Maps
use agent_cockpit.Beads.Sort.{Order, same, sort, insert}
use agent_cockpit.Beads.{
  BeadsIssue, BeadsDep, BeadsTaskGraph, is_terminal, is_blocks, is_parent, index_from,
  has_open_blockers, count_blockers,
}
use agent_cockpit.Beads.{
  resolve, edges_for, children_of, status_group, group_of, derive_state, dep_blocked, child_blocked,
  ready,
}
use agent_cockpit.Beads.Blocking.{is_open_issue}
use agent_cockpit.Beads.Groups.{fill, compare_issues, group_issues, group_by_state}
use agent_cockpit.Beads.Groups.Partition.{all_grouped, group_by_state_count}
use agent_cockpit.Beads.Ancestors.{parents_from, parent_of, climb, ancestors_of, reverse}
use agent_cockpit.Beads.Ancestors.Chain.{IsChain, ancestors_of-IsChain}
use agent_cockpit.Beads.Anchor.{resolve_anchor_id}

program : Unit {0}
unfolding Maps.get Maps.set sort insert is_terminal is_blocks is_parent index_from has_open_blockers
    count_blockers resolve edges_for children_of status_group group_of derive_state fill
    compare_issues group_issues group_by_state parents_from climb ancestors_of resolve_anchor_id
program = tt

abbrev issue : Text → Text → BeadsIssue
issue id status = record { id = id; status = status; priority = 2 }

abbrev edge : Text → Text → Text → BeadsDep
edge from to type = record { from = from; to = to; type = type }

abbrev graph : BeadsTaskGraph
graph = record {
  issues =
      issue (codes "a") (codes "open")
      ∷ issue (codes "b") (codes "open")
      ∷ issue (codes "c") (codes "open")
      ∷ [];
  deps =
      edge (codes "a") (codes "b") (codes "blocks")
      ∷ edge (codes "a") (codes "c") (codes "parent-child")
      ∷ [];
}

abbrev looped : BeadsTaskGraph
looped = record {
  issues = issue (codes "a") (codes "open") ∷ issue (codes "b") (codes "open") ∷ [];
  deps =
      edge (codes "a") (codes "b") (codes "parent")
      ∷ edge (codes "b") (codes "a") (codes "parent")
      ∷ [];
}

abbrev issue_a : BeadsIssue
issue_a = issue (codes "a") (codes "open")

abbrev issue_c : BeadsIssue
issue_c = issue (codes "c") (codes "open")

-- An order that tells no identifiers apart.
abbrev flat : Text → Text → Order
flat a b = same

states : map (derive_state graph) graph.issues ≡ dep_blocked ∷ ready ∷ child_blocked ∷ []
unfolding program
states = refl

loop_ends : ancestors_of looped (codes "a") ≡ issue (codes "b") (codes "open") ∷ []
unfolding program
loop_ends = refl

group_by_state_count_example :
    length (keep is_open_issue (all_grouped (group_by_state flat graph)))
    ≡ length (keep is_open_issue graph.issues)
group_by_state_count_example = group_by_state_count is_open_issue flat graph

ancestors_of-IsChain_example :
    (chain : List BeadsIssue) × (ancestors_of looped (codes "a") ≡ reverse chain)
    × IsChain (parent_of looped) (codes "a" ∷ []) (Maps.get (codes "a") (parent_of looped)) chain
ancestors_of-IsChain_example = ancestors_of-IsChain looped (codes "a")
