-- ===== src/Callback/Classify/Deepest.antt =====
-- The worktree that a path is opened in is a deepest one that contains it.
use mathlib.Core.Path.{subst}
use agent_cockpit.Base.{
  ◌≤◌, ◌≡◌, refl, sym, true, false, Option, none, some, List, [], ◌∷◌, length, any, arith, ◌⊎◌, inl,
  inr,
}
use agent_cockpit.Base.{Text, text_eq, text_eq_refl, All, Bool-cases, ltb→lt}
use agent_cockpit.Base.{ltb-false→le}
use agent_cockpit.Callback.Classify.{
  Hit, clean, relative_inside, is_deeper, better_hit, deepest_from, deepest_worktree,
}
use agent_cockpit.Callback.Classify.Inside.{
  Inside, Outside, relative_inside-Inside, relative_inside-Outside,
}

-- If the path lies in the worktree, the worktree is not deeper than the hit.
abbrev pub Below : Text → Hit → Text → Type 0
Below subject h w =
    (rel : Text) → Inside w subject rel → length (clean w) ≤ length (clean h.worktree)

-- The hit is one of the worktrees, the path lies in it by its rest, and no other is deeper.
abbrev pub IsDeepest : List Text → Text → Hit → Type 0
IsDeepest worktrees subject h =
    (any (text_eq h.worktree) worktrees ≡ true)
    × Inside h.worktree subject h.rel
    × All (Below subject h) worktrees

abbrev AtMost : Option Hit → Hit → Type 0
AtMost none r = Unit
AtMost (some b) r = length (clean b.worktree) ≤ length (clean r.worktree)

abbrev Comes : List Text → Text → Option Hit → Hit → Type 0
Comes ws subject best r =
    (best ≡ some r) ⊎ ((any (text_eq r.worktree) ws ≡ true) × Inside r.worktree subject r.rel)

some_same : {a b : Hit} → some a ≡ some b → a ≡ b
some_same p = cc

better_hit-Comes :
    (w subject : Text) (ws : List Text) (best : Option Hit) (r : Hit) (o : Option Text)
    → relative_inside w subject ≡ o
    → better_hit w o best ≡ some r
    → Comes (w ∷ ws) subject best r
better_hit-Comes w subject ws best r none e h = inl h
better_hit-Comes w subject ws best r (some rel) e h = elim (Bool-cases (is_deeper w best)) [
  | inl d ↦ go (rw d at h)
  | inr d ↦ inl (rw d at h)
]
  where
    go : some (record { worktree = w; rel = rel }) ≡ some r → Comes (w ∷ ws) subject best r
    go p = inr (
        subst (λ x. (any (text_eq x.worktree) (w ∷ ws) ≡ true) × Inside x.worktree subject x.rel)
          (some_same p) (rw (text_eq_refl w) refl, relative_inside-Inside w subject rel e))

deepest_from-Comes :
    (subject : Text) (ws : List Text) (best : Option Hit) (r : Hit)
    → deepest_from subject ws best ≡ some r
    → Comes ws subject best r
unfolding deepest_from
deepest_from-Comes subject [] best r h = inl h
deepest_from-Comes subject (w ∷ ws) best r h =
    elim (deepest_from-Comes subject ws (better_hit w (relative_inside w subject) best) r h) [
      | inl e ↦ better_hit-Comes w subject ws best r (relative_inside w subject) refl e
      | inr (m, i) ↦ inr (ground (arith, m), i)
    ]

AtMost-better_hit :
    (w subject : Text) (best : Option Hit) (r : Hit) (o : Option Text)
    → relative_inside w subject ≡ o
    → AtMost (better_hit w o best) r
    → AtMost best r × Below subject r w
AtMost-better_hit w subject best r none e h =
    (h, λ rel i. absurd (relative_inside-Outside w subject e rel i))
AtMost-better_hit w subject none r (some rel) e h = (tt, λ q i. h)
AtMost-better_hit w subject (some b) r (some rel) e h = elim (Bool-cases (is_deeper w (some b))) [
  | inl d ↦ go d (rw d at h)
  | inr d ↦ stay d (rw d at h)
]
  where
    go :
        is_deeper w (some b) ≡ true
        → length (clean w) ≤ length (clean r.worktree)
        → AtMost (some b) r × Below subject r w
    go d k = (omega (arith, ltb→lt (length (clean b.worktree)) (length (clean w)) d), λ q i. k)

    stay :
        is_deeper w (some b) ≡ false
        → length (clean b.worktree) ≤ length (clean r.worktree)
        → AtMost (some b) r × Below subject r w
    stay d k =
        let n = ltb-false→le (length (clean b.worktree)) (length (clean w)) d in
        (k, λ q i. omega arith)

deepest_from-AtMost :
    (subject : Text) (ws : List Text) (best : Option Hit) (r : Hit)
    → deepest_from subject ws best ≡ some r
    → AtMost best r × All (Below subject r) ws
unfolding deepest_from
deepest_from-AtMost subject [] best r h = (subst (λ o. AtMost o r) (sym h) (omega arith), tt)
deepest_from-AtMost subject (w ∷ ws) best r h =
    let (a, rest) =
      deepest_from-AtMost subject ws (better_hit w (relative_inside w subject) best) r h in
    let (b, c) = AtMost-better_hit w subject best r (relative_inside w subject) refl a in
    (b, (c, rest))

pub deepest_from-Outside :
    (subject : Text) (ws : List Text) (best : Option Hit)
    → deepest_from subject ws best ≡ none
    → (best ≡ none) × All (Outside subject) ws
unfolding deepest_from
deepest_from-Outside subject [] best h = (h, tt)
deepest_from-Outside subject (w ∷ ws) best h =
    let (e, rest) =
      deepest_from-Outside subject ws (better_hit w (relative_inside w subject) best) h in
    let (b, o) = none_before w best (relative_inside w subject) e in
    (b, (relative_inside-Outside w subject o, rest))
  where
    none_before :
        (w : Text) (best : Option Hit) (o : Option Text)
        → better_hit w o best ≡ none
        → (best ≡ none) × (o ≡ none)
    none_before w best none e = (e, refl)
    none_before w none (some rel) e = cc
    none_before w (some b) (some rel) e = elim (Bool-cases (is_deeper w (some b))) [
      | inl d ↦ cc (rw d at e)
      | inr d ↦ cc (rw d at e)
    ]

pub deepest_worktree-IsDeepest :
    (worktrees : List Text) (subject : Text) (h : Hit)
    → deepest_worktree worktrees subject ≡ some h
    → IsDeepest worktrees subject h
deepest_worktree-IsDeepest worktrees subject h e =
    let (a, below) = deepest_from-AtMost subject worktrees none h e in
    elim (deepest_from-Comes subject worktrees none h e) [
      | inl n ↦ absurd cc
      | inr (m, i) ↦ (m, i, below)
    ]
