-- ===== src/Beads.antt =====
-- src/renderer/beads/graphSelectors.ts: what the workgraph views derive from the issues and their
-- dependencies. `compareBeadId`, a collation of the runtime's, is a parameter of the orders.
pub mod Sort
pub mod Blocking
pub mod Edges
pub mod Groups
pub mod Ancestors
pub mod Anchor
mod Tests
use agent_cockpit.Base.{
  ℕ, zero, suc, ◌+◌, Bool, true, false, not, ◌&&◌, ◌||◌, Option, none, some, List, [], ◌∷◌, ◌++◌,
}
use agent_cockpit.Base.{map, Text, codes, text_eq, if◌then◌else◌, any, keep, find, length, ltb}
use agent_cockpit.Base.Maps
use agent_cockpit.Beads.Sort.{Order, less, same, more, order_of, sort}

-- The members that the selectors here read.
pub record BeadsIssue : Type 0 where
  pub id : Text
  pub status : Text
  pub priority : ℕ

pub record BeadsDep : Type 0 where
  pub from : Text
  pub to : Text
  pub type : Text

pub record BeadsTaskGraph : Type 0 where
  pub issues : List BeadsIssue
  pub deps : List BeadsDep

-- `new Set(...).has`
abbrev pub member : List Text → Text → Bool
member ts t = any (text_eq t) ts

unfoldable pub is_terminal : Text → Bool
is_terminal status = member (codes "closed" ∷ codes "tombstone" ∷ codes "deleted" ∷ []) status

unfoldable pub is_blocks : BeadsDep → Bool
is_blocks d = text_eq d.type (codes "blocks")

unfoldable pub is_parent : BeadsDep → Bool
is_parent d = member (codes "parent" ∷ codes "parent-child" ∷ []) d.type

-- `new Map(graph.issues.map((i) => [i.id, i]))`: of two issues with one identifier the later counts.
unfoldable pub index_from : List BeadsIssue → List (Text × BeadsIssue) → List (Text × BeadsIssue)
index_from [] m = m
index_from (i ∷ issues) m = index_from issues (Maps.set i.id i m)

abbrev pub by_id : BeadsTaskGraph → Text → Option BeadsIssue
by_id graph id = Maps.get id (index_from graph.issues [])

-- `blocker != null && !isTerminal(blocker.status)`
abbrev pub is_open : Option BeadsIssue → Bool
is_open none = false
is_open (some i) = not (is_terminal i.status)

unfoldable pub has_open_blockers : BeadsTaskGraph → BeadsIssue → Bool
has_open_blockers graph issue =
    any
      (λ d.
        if not (is_blocks d) || not (text_eq d.from issue.id)
        then false
        else is_open (by_id graph d.to))
      graph.deps

-- The `reduce` of `openBlockerCount`, from a count.
unfoldable pub count_blockers : BeadsTaskGraph → BeadsIssue → List BeadsDep → ℕ → ℕ
count_blockers graph issue [] n = n
count_blockers graph issue (d ∷ deps) n = count_blockers graph issue deps (
    if not (is_blocks d) || not (text_eq d.from issue.id)
    then n
    else if is_open (by_id graph d.to)
    then suc n
    else n)

abbrev pub open_blocker_count : BeadsTaskGraph → BeadsIssue → ℕ
open_blocker_count graph issue = count_blockers graph issue graph.deps 0

-- `.map((d) => byId.get(pick(d))).filter((i) => i != null)`
abbrev pub put_found : Option BeadsIssue → List BeadsIssue → List BeadsIssue
put_found none is = is
put_found (some i) is = i ∷ is

unfoldable pub resolve : BeadsTaskGraph → List BeadsDep → (BeadsDep → Text) → List BeadsIssue
resolve graph [] pick = []
resolve graph (d ∷ deps) pick = put_found (by_id graph (pick d)) (resolve graph deps pick)

pub record IssueEdges : Type 0 where
  pub blocks : List BeadsIssue
  pub blocked_by : List BeadsIssue
  pub parents : List BeadsIssue

unfoldable pub edges_for : BeadsTaskGraph → Text → IssueEdges
edges_for graph issue_id = record {
  blocks =
      resolve graph (keep (λ d. is_blocks d && text_eq d.to issue_id) graph.deps) (λ d. d.from);
  blocked_by =
      resolve graph (keep (λ d. is_blocks d && text_eq d.from issue_id) graph.deps) (λ d. d.to);
  parents =
      resolve graph (keep (λ d. is_parent d && text_eq d.from issue_id) graph.deps) (λ d. d.to);
}

unfoldable pub children_of : BeadsTaskGraph → Text → List BeadsIssue
children_of graph id =
    resolve graph (keep (λ d. is_parent d && text_eq d.to id) graph.deps) (λ d. d.from)

abbrev pub open_child_count : BeadsTaskGraph → BeadsIssue → ℕ
open_child_count graph issue =
    length (keep (λ c. not (is_terminal c.status)) (children_of graph issue.id))

abbrev pub has_open_children : BeadsTaskGraph → BeadsIssue → Bool
has_open_children graph issue = ltb 0 (open_child_count graph issue)

pub data StatusGroup : Type 0 where
  blocked_group : StatusGroup
  in_progress_group : StatusGroup
  ready_group : StatusGroup
  closed_group : StatusGroup

unfoldable pub status_group : Text → StatusGroup
status_group status =
    if text_eq status (codes "blocked")
    then blocked_group
    else if text_eq status (codes "in_progress")
    then in_progress_group
    else if text_eq status (codes "closed")
    then closed_group
    else ready_group

unfoldable pub group_of : BeadsTaskGraph → BeadsIssue → StatusGroup
group_of graph issue =
    if not (is_terminal issue.status) && has_open_blockers graph issue
    then blocked_group
    else status_group issue.status

pub data WorkgraphState : Type 0 where
  blocked : WorkgraphState
  in_progress : WorkgraphState
  ready : WorkgraphState
  dep_blocked : WorkgraphState
  child_blocked : WorkgraphState
  draft : WorkgraphState
  deferred : WorkgraphState
  unknown : WorkgraphState
  done : WorkgraphState

unfoldable pub derive_state : BeadsTaskGraph → BeadsIssue → WorkgraphState
derive_state graph issue =
    if is_terminal issue.status
    then done
    else if text_eq issue.status (codes "blocked")
    then blocked
    else if text_eq issue.status (codes "deferred")
    then deferred
    else if text_eq issue.status (codes "draft")
    then draft
    else if text_eq issue.status (codes "in_progress")
    then in_progress
    else if text_eq issue.status (codes "open")
    then (if has_open_blockers graph issue
        then dep_blocked
        else if has_open_children graph issue
        then child_blocked
        else ready)
    else unknown

-- `WG_STATE_ORDER`
abbrev pub state_order : WorkgraphState → ℕ
state_order blocked = 0
state_order in_progress = 1
state_order ready = 2
state_order dep_blocked = 3
state_order child_blocked = 4
state_order draft = 5
state_order deferred = 6
state_order unknown = 7
state_order done = 8
