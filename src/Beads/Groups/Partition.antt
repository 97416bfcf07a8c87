-- ===== src/Beads/Groups/Partition.antt =====
-- The groups hold every issue once, in the group of its state, and sorted.
use agent_cockpit.Base.{ℕ, ◌+◌, ◌≡◌, refl, ap, sym, ◌∙◌, Bool, true, false, Option, some}
use agent_cockpit.Base.{
  List, [], ◌∷◌, ◌++◌, Text, arith, if◌then◌else◌, keep, length, get_elem?, All, map, Bool-cases,
  inl, inr, ◌==◌, ==_iff,
}
use mathlib.Core.Path.{fun_ext}
use mathlib.Core.List.{append-nil, append_assoc}
use agent_cockpit.Beads.Sort.{
  Order, order_of, or_order, is_more, sort, IsSorted, IsTotal, IsTransitive, count-sort, All-sort,
  sort-IsSorted,
}
use agent_cockpit.Beads.{BeadsIssue, BeadsTaskGraph}
use agent_cockpit.Beads.{
  WorkgraphState, blocked, in_progress, ready, dep_blocked, child_blocked, draft, deferred, unknown,
  done,
}
use agent_cockpit.Beads.{derive_state, state_order}
use agent_cockpit.Beads.Groups.{wg_states, push_bucket, fill, compare_issues, group_by_state}

module _ {ℓ} {K : Type ℓ} (order : K → ℕ) (classify : BeadsIssue → K) where
  -- The issues of one class, in their order.
  abbrev pub class : K → List BeadsIssue → List BeadsIssue
  class k issues = keep (λ i. order (classify i) == order k) issues

  fill_lem :
      (issues : List BeadsIssue) (buckets : K → List BeadsIssue) (k : K)
      → fill order classify issues buckets k ≡ buckets k ++ class k issues
  unfolding fill
  fill_lem [] buckets k = sym (append-nil (buckets k))
  fill_lem (i ∷ issues) buckets k =
      fill_lem issues (push_bucket order (classify i) i buckets) k
      ∙ go (order (classify i) == order k)
    where
      go :
          (b : Bool)
          → (if b then buckets k ++ i ∷ [] else buckets k) ++ class k issues
            ≡ buckets k ++ (if b then i ∷ class k issues else class k issues)
      go true = append_assoc (buckets k) (i ∷ []) (class k issues)
      go false = refl

  pub fill-class :
      (issues : List BeadsIssue) (k : K) → fill order classify issues (λ _. []) k ≡ class k issues
  fill-class issues k = fill_lem issues (λ _. []) k

  -- The issues of a class are of it, if the order tells the classes apart.
  class-All :
      (back : ℕ → Option K)
      → ((k : K) → back (order k) ≡ some k)
      → (k : K) (issues : List BeadsIssue) → All (λ i. classify i ≡ k) (class k issues)
  class-All back h k [] = tt
  class-All back h k (i ∷ issues) = elim (Bool-cases (order (classify i) == order k)) [
    | inl it ↦ rw it (apart it, class-All back h k issues)
    | inr other ↦ rw other (class-All back h k issues)
  ]
    where
      apart : (order (classify i) == order k) ≡ true → classify i ≡ k
      apart e =
          let found : some (classify i) ≡ some k =
            sym (h (classify i)) ∙ ap back ((==_iff (order (classify i)) (order k)).0 e) ∙ h k in
          cc

or_order-IsTotal :
    (a b : ℕ) (c d : Order)
    → (is_more c ≡ true → is_more d ≡ false)
    → is_more (or_order (order_of a b) c) ≡ true
    → is_more (or_order (order_of b a) d) ≡ false
or_order-IsTotal a b c d h e = ground arith

or_order-IsTransitive :
    (x y z : ℕ) (c d e : Order)
    → (is_more c ≡ false → is_more d ≡ false → is_more e ≡ false)
    → is_more (or_order (order_of x y) c) ≡ false
    → is_more (or_order (order_of y z) d) ≡ false
    → is_more (or_order (order_of x z) e) ≡ false
or_order-IsTransitive x y z c d e h p q = ground arith

compare_issues-IsTotal : (cmp : Text → Text → Order) → IsTotal cmp → IsTotal (compare_issues cmp)
unfolding compare_issues
compare_issues-IsTotal cmp t x y e =
    or_order-IsTotal x.priority y.priority (cmp x.id y.id) (cmp y.id x.id) (t x.id y.id) e

compare_issues-IsTransitive :
    (cmp : Text → Text → Order) → IsTransitive cmp → IsTransitive (compare_issues cmp)
unfolding compare_issues
compare_issues-IsTransitive cmp t x y z p q =
    or_order-IsTransitive x.priority y.priority z.priority (cmp x.id y.id) (cmp y.id z.id)
      (cmp x.id z.id) (t x.id y.id z.id) p q

abbrev state_at : ℕ → Option WorkgraphState
state_at n = get_elem? wg_states n

state_at-state_order : (s : WorkgraphState) → state_at (state_order s) ≡ some s
state_at-state_order blocked = refl
state_at-state_order in_progress = refl
state_at-state_order ready = refl
state_at-state_order dep_blocked = refl
state_at-state_order child_blocked = refl
state_at-state_order draft = refl
state_at-state_order deferred = refl
state_at-state_order unknown = refl
state_at-state_order done = refl

-- A group of the list view holds issues of its state only, by priority and then by identifier.
abbrev pub IsGroup :
    (Text → Text → Order) → BeadsTaskGraph → WorkgraphState × List BeadsIssue → Type 0
IsGroup cmp graph g = All (λ i. derive_state graph i ≡ g.0) g.1 × IsSorted (compare_issues cmp) g.1

-- Every group of the list view holds issues of its state only, sorted by priority and then by identifier,
-- if the comparison of identifiers is total and transitive.
pub group_by_state-IsGroup :
    (cmp : Text → Text → Order) (graph : BeadsTaskGraph)
    → IsTotal cmp
    → IsTransitive cmp
    → All (IsGroup cmp graph) (group_by_state cmp graph)
unfolding group_by_state
group_by_state-IsGroup cmp graph total t = (
  g blocked,
  (
    g in_progress,
    (
      g ready,
      (g dep_blocked, (g child_blocked, (g draft, (g deferred, (g unknown, (g done, tt)))))),
    ),
  ),
)
  where
    bucket : WorkgraphState → List BeadsIssue
    bucket = fill state_order (derive_state graph) graph.issues (λ _. [])

    g : (s : WorkgraphState) → IsGroup cmp graph (s, sort (compare_issues cmp) (bucket s))
    g s = (
      All-sort (compare_issues cmp) (λ i. derive_state graph i ≡ s) (bucket s)
          (rw (fill-class state_order (derive_state graph) graph.issues s) (
            class-All state_order (derive_state graph) state_at state_at-state_order s
              graph.issues)),
      sort-IsSorted (compare_issues cmp) (compare_issues-IsTotal cmp total)
          (compare_issues-IsTransitive cmp t) (bucket s),
    )

abbrev pub all_grouped {ℓ} : {K : Type ℓ} → List (K × List BeadsIssue) → List BeadsIssue
all_grouped [] = []
all_grouped (g ∷ gs) = g.1 ++ all_grouped gs

module _ (p : BeadsIssue → Bool) where
  abbrev count : List BeadsIssue → ℕ
  count is = length (keep p is)

  count-append : (xs ys : List BeadsIssue) → count (xs ++ ys) ≡ count xs + count ys
  count-append [] ys = omega arith
  count-append (x ∷ xs) ys = ground (arith, count-append xs ys)

  abbrev total : (WorkgraphState → ℕ) → ℕ
  total f =
      f blocked
      + (f in_progress
          + (f ready
              + (f dep_blocked
                  + (f child_blocked + (f draft + (f deferred + (f unknown + (f done + 0))))))))

  total_one :
      (c : WorkgraphState) (w : ℕ) (n : WorkgraphState → ℕ)
      → total (λ s. if state_order c == state_order s then w + n s else n s) ≡ w + total n
  total_one blocked w n = omega arith
  total_one in_progress w n = omega arith
  total_one ready w n = omega arith
  total_one dep_blocked w n = omega arith
  total_one child_blocked w n = omega arith
  total_one draft w n = omega arith
  total_one deferred w n = omega arith
  total_one unknown w n = omega arith
  total_one done w n = omega arith

  abbrev weight : BeadsIssue → ℕ
  weight i = if p i then 1 else 0

  count_one :
      (b : Bool) (i : BeadsIssue) (is : List BeadsIssue)
      → count (if b then i ∷ is else is) ≡ (if b then weight i + count is else count is)
  count_one b i is = ground arith

  count-classes :
      (classify : BeadsIssue → WorkgraphState) (issues : List BeadsIssue)
      → total (λ s. count (class state_order classify s issues)) ≡ count issues
  count-classes classify [] = omega arith
  count-classes classify (i ∷ issues) =
      ap total (
        fun_ext (λ s.
          count_one (state_order (classify i) == state_order s) i
            (class state_order classify s issues)))
      ∙ total_one (classify i) (weight i) (λ s. count (class state_order classify s issues))
      ∙ ap (λ n. weight i + n) (count-classes classify issues)
      ∙ sym (count_one true i issues)

  -- The groups of the list view hold every issue of the graph as often as the graph does, and no other.
  pub group_by_state_count :
      (cmp : Text → Text → Order) (graph : BeadsTaskGraph)
      → length (keep p (all_grouped (group_by_state cmp graph))) ≡ length (keep p graph.issues)
  unfolding group_by_state
  group_by_state_count cmp graph =
      flat wg_states ∙ ap total (fun_ext counted) ∙ count-classes (derive_state graph) graph.issues
    where
      group : WorkgraphState → List BeadsIssue
      group s =
          sort (compare_issues cmp) (fill state_order (derive_state graph) graph.issues (λ _. []) s)

      counted :
          (s : WorkgraphState)
          → count (group s) ≡ count (class state_order (derive_state graph) s graph.issues)
      counted s =
          count-sort (compare_issues cmp) p _
          ∙ ap count (fill-class state_order (derive_state graph) graph.issues s)

      sum : List WorkgraphState → ℕ
      sum [] = 0
      sum (s ∷ ss) = count (group s) + sum ss

      flat : (ss : List WorkgraphState) → count (all_grouped (map (λ s. (s, group s)) ss)) ≡ sum ss
      flat [] = refl
      flat (s ∷ ss) = count-append (group s) _ ∙ ap (λ n. count (group s) + n) (flat ss)
