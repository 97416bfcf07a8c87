-- ===== src/Beads/Blocking.antt =====
-- What blocks an issue, by its flags, its counts and its edges.
use agent_cockpit.Base.{
  ℕ, suc, ◌+◌, ◌≡◌, ◌↔◌, refl, ap, sym, ◌∙◌, Bool, true, false, not, ◌&&◌, ◌||◌, Option, none, some,
}
use agent_cockpit.Base.{
  List, [], ◌∷◌, Text, codes, text_eq, text_eq_iff, arith, if◌then◌else◌, any, keep, length, ltb,
}
use agent_cockpit.Beads.{
  BeadsIssue, BeadsDep, BeadsTaskGraph, is_terminal, is_blocks, by_id, is_open, has_open_blockers,
}
use agent_cockpit.Beads.{count_blockers, open_blocker_count, put_found, resolve, edges_for}
use agent_cockpit.Beads.{
  group_of, ready_group, blocked_group, closed_group, in_progress_group, status_group, StatusGroup,
}

abbrev pub is_open_issue : BeadsIssue → Bool
is_open_issue i = not (is_terminal i.status)

abbrev Counts : BeadsTaskGraph → BeadsIssue → List BeadsDep → Type 0
Counts graph issue deps =
    (n : ℕ)
    → count_blockers graph issue deps n
      ≡ n
        + length (
            keep is_open_issue
              (resolve graph (keep (λ d. is_blocks d && text_eq d.from issue.id) deps) (λ d. d.to)))

count_blockers_lem :
    (graph : BeadsTaskGraph) (issue : BeadsIssue) (deps : List BeadsDep) → Counts graph issue deps
unfolding count_blockers resolve
count_blockers_lem graph issue [] n = omega arith
count_blockers_lem graph issue (d ∷ deps) n =
    go (count_blockers_lem graph issue deps) (is_blocks d) (text_eq d.from issue.id)
  where
    kept : List BeadsDep
    kept = keep (λ d. is_blocks d && text_eq d.from issue.id) deps

    rest : List BeadsIssue
    rest = resolve graph kept (λ d. d.to)

    open_case :
        Counts graph issue deps
        → (b : Bool) → (i : BeadsIssue) → is_open_issue i ≡ b
        → count_blockers graph issue deps (if b then suc n else n)
          ≡ n + length (keep is_open_issue (i ∷ rest))
    open_case ih true i e = rw e (ih (suc n) ∙ omega arith)
    open_case ih false i e = rw e (ih n)

    found :
        Counts graph issue deps
        → (o : Option BeadsIssue)
        → count_blockers graph issue deps (if is_open o then suc n else n)
          ≡ n + length (keep is_open_issue (put_found o rest))
    found ih none = ih n
    found ih (some i) = open_case ih (is_open_issue i) i refl

    go :
        Counts graph issue deps
        → (b f : Bool)
        → count_blockers graph issue deps
            (if not b || not f then n else if is_open (by_id graph d.to) then suc n else n)
          ≡ n
            + length
                (keep is_open_issue (resolve graph (if b && f then d ∷ kept else kept) (λ d. d.to)))
    go ih true true = found ih (by_id graph d.to)
    go ih true false = ih n
    go ih false f = ih n

-- The count of open blockers is the number of open issues among those that block it.
pub open_blocker_count-edges_for :
    (graph : BeadsTaskGraph) (issue : BeadsIssue)
    → open_blocker_count graph issue
      ≡ length (keep is_open_issue (edges_for graph issue.id).blocked_by)
unfolding edges_for
open_blocker_count-edges_for graph issue = count_blockers_lem graph issue graph.deps 0 ∙ omega arith

any-count :
    (graph : BeadsTaskGraph) (issue : BeadsIssue) (deps : List BeadsDep) (n : ℕ)
    → ltb 0 (count_blockers graph issue deps n) ≡ (
        ltb 0 n
        || any
            (λ d.
              if not (is_blocks d) || not (text_eq d.from issue.id)
              then false
              else is_open (by_id graph d.to))
            deps)
unfolding count_blockers
any-count graph issue [] n = ground arith
any-count graph issue (d ∷ deps) n =
    any-count graph issue deps _
    ∙ go (not (is_blocks d) || not (text_eq d.from issue.id)) (is_open (by_id graph d.to)) _
  where
    go :
        (skip open_one others : Bool)
        → (ltb 0 (if skip then n else if open_one then suc n else n) || others)
          ≡ (ltb 0 n || ((if skip then false else open_one) || others))
    go true o b = refl
    go false true b = ground arith
    go false false b = refl

-- An issue has open blockers exactly when their count is not zero.
pub has_open_blockers-count :
    (graph : BeadsTaskGraph) (issue : BeadsIssue)
    → has_open_blockers graph issue ≡ ltb 0 (open_blocker_count graph issue)
unfolding has_open_blockers
has_open_blockers-count graph issue = sym (any-count graph issue graph.deps 0)

flagged : (s : Text) → text_eq s (codes "blocked") ≡ true → is_terminal s ≡ false
unfolding is_terminal
flagged s h = ap is_terminal ((text_eq_iff s (codes "blocked")).0 h)

status_group-blocked :
    (s : Text) → (status_group s ≡ blocked_group) ↔ (text_eq s (codes "blocked") ≡ true)
unfolding status_group
status_group-blocked s =
    go (text_eq s (codes "blocked")) (text_eq s (codes "in_progress")) (text_eq s (codes "closed"))
  where
    go :
        (a b c : Bool)
        → ((if a
              then blocked_group
              else if b
              then in_progress_group
              else if c
              then closed_group
              else ready_group)
            ≡ blocked_group)
          ↔ (a ≡ true)
    go a b c = ground arith

-- An issue is in the bucket for blocked work exactly when it is not done and either its stored status
-- says so or one of its blockers is open.
pub group_of-blocked :
    (graph : BeadsTaskGraph) (issue : BeadsIssue)
    → (group_of graph issue ≡ blocked_group) ↔ (
        (is_terminal issue.status ≡ false)
        × ((text_eq issue.status (codes "blocked") || ltb 0 (open_blocker_count graph issue))
            ≡ true))
unfolding group_of
group_of-blocked graph issue =
    go (is_terminal issue.status) (has_open_blockers graph issue)
      (text_eq issue.status (codes "blocked")) (flagged issue.status)
      (has_open_blockers-count graph issue) (status_group-blocked issue.status)
  where
    go :
        (done_one open_one flag : Bool) {count : Bool} {g : StatusGroup}
        → (flag ≡ true → done_one ≡ false)
        → open_one ≡ count
        → (g ≡ blocked_group) ↔ (flag ≡ true)
        → ((if not done_one && open_one then blocked_group else g) ≡ blocked_group)
          ↔ ((done_one ≡ false) × ((flag || count) ≡ true))
    go d o f h e i = ground arith
