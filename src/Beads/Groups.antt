-- ===== src/Beads/Groups.antt =====
-- src/renderer/beads/graphSelectors.ts: the groups of the list views and their order. A bucket map is a
-- function from the group to its issues.
pub mod Partition
use agent_cockpit.Base.{ℕ, Bool, List, [], ◌∷◌, ◌++◌, map, Text, if◌then◌else◌, ◌==◌}
use agent_cockpit.Beads.Sort.{Order, order_of, or_order, sort}
use agent_cockpit.Beads.{
  BeadsIssue, BeadsTaskGraph, StatusGroup, blocked_group, in_progress_group, ready_group,
  closed_group,
}
use agent_cockpit.Beads.{
  WorkgraphState, blocked, in_progress, ready, dep_blocked, child_blocked, draft, deferred, unknown,
  done,
}
use agent_cockpit.Beads.{group_of, derive_state, state_order}

-- `WG_STATES`
abbrev pub wg_states : List WorkgraphState
wg_states =
    blocked ∷ in_progress ∷ ready ∷ dep_blocked ∷ child_blocked ∷ draft ∷ deferred ∷ unknown ∷ done
    ∷ []

-- `STATUS_GROUPS`
abbrev pub status_groups : List StatusGroup
status_groups = blocked_group ∷ in_progress_group ∷ ready_group ∷ closed_group ∷ []

abbrev pub group_order : StatusGroup → ℕ
group_order blocked_group = 0
group_order in_progress_group = 1
group_order ready_group = 2
group_order closed_group = 3

-- `buckets.get(c)!.push(issue)`
abbrev pub push_bucket {ℓ} :
    {K : Type ℓ} → (K → ℕ) → K → BeadsIssue → (K → List BeadsIssue) → K → List BeadsIssue
push_bucket order c issue buckets k =
    if order c == order k then buckets k ++ issue ∷ [] else buckets k

-- The loop over the issues.
unfoldable pub fill {ℓ} :
    {K : Type ℓ}
    → (K → ℕ)
    → (BeadsIssue → K)
    → List BeadsIssue
    → (K → List BeadsIssue)
    → K
    → List BeadsIssue
fill order classify [] buckets = buckets
fill order classify (i ∷ issues) buckets =
    fill order classify issues (push_bucket order (classify i) i buckets)

module _ (compare_bead_id : Text → Text → Order) where
  unfoldable pub compare_issues : BeadsIssue → BeadsIssue → Order
  compare_issues a b = or_order (order_of a.priority b.priority) (compare_bead_id a.id b.id)

  unfoldable pub compare_by_state : BeadsTaskGraph → BeadsIssue → BeadsIssue → Order
  compare_by_state graph a b =
      or_order (order_of (state_order (derive_state graph a)) (state_order (derive_state graph b)))
        (compare_issues a b)

  unfoldable pub group_issues : BeadsTaskGraph → List (StatusGroup × List BeadsIssue)
  group_issues graph =
      map
        (λ g. (g, sort compare_issues (fill group_order (group_of graph) graph.issues (λ _. []) g)))
        status_groups

  unfoldable pub group_by_state : BeadsTaskGraph → List (WorkgraphState × List BeadsIssue)
  group_by_state graph =
      map
        (λ s.
          (s, sort compare_issues (fill state_order (derive_state graph) graph.issues (λ _. []) s)))
        wg_states
