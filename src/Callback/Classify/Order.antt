-- ===== src/Callback/Classify/Order.antt =====
-- The order in which a provider lists its worktrees does not matter to an `open`.
use mathlib.Core.Path.{subst}
use mathlib.Core.List.{append_assoc}
use agent_cockpit.Base.{
  ◌≡◌, refl, sym, ◌∙◌, ap, true, Option, none, some, List, [], ◌∷◌, ◌++◌, length, any, take, drop,
  take-append, drop-append, arith, inl, inr,
}
use agent_cockpit.Base.{Text, codes, text_eq, text_eq_iff, All, Bool-cases, if◌then◌else◌}
use agent_cockpit.Callback.Classify.{
  Hit, clean, prefix_of, ClassifyInput, CallbackOpenSelection, selection_of, first_hit, first_root,
  subjects_of, classify_open_target,
}
use agent_cockpit.Callback.Classify.Inside.{Inside, Outside}
use agent_cockpit.Callback.Classify.Deepest.{Below, IsDeepest}
use agent_cockpit.Callback.Classify.Targets.{Finds, first_hit-Finds, all_subjects}

-- Every text of the one list is in the other.
abbrev pub Within : List Text → List Text → Type 0
Within ws vs = (w : Text) → any (text_eq w) ws ≡ true → any (text_eq w) vs ≡ true

All-member :
    (P : Text → Type 0) (w : Text) (vs : List Text) → any (text_eq w) vs ≡ true → All P vs → P w
All-member P w [] m a = absurd cc
All-member P w (v ∷ vs) m (here, later) = elim (Bool-cases (text_eq w v)) [
  | inl e ↦ subst P (sym ((text_eq_iff w v).0 e)) here
  | inr e ↦ All-member P w vs (rw e at m) later
]

begins : (a b s : Text) → s ≡ a ++ b → a ≡ take (length a) s
begins a b s e = sym (ap (take (length a)) e ∙ take-append a b)

ends : (a b s : Text) → s ≡ a ++ b → b ≡ drop (length a) s
ends a b s e = sym (ap (drop (length a)) e ∙ drop-append a b)

slashed : Text → Text
slashed c = if text_eq c (codes "/") then codes "/" else c ++ codes "/"

slashed-append : (c rel : Text) → (x : Text) × (slashed c ++ rel ≡ c ++ x)
unfolding slashed
slashed-append c rel = elim (Bool-cases (text_eq c (codes "/"))) [
  | inl q ↦ (rel, rw q (ap (λ z. z ++ rel) (sym ((text_eq_iff c (codes "/")).0 q))))
  | inr q ↦ (codes "/" ++ rel, rw q (append_assoc c (codes "/") rel))
]

-- The cleaned root is the beginning of every path in it.
clean-Inside :
    (root subject rel : Text)
    → Inside root subject rel
    → clean root ≡ take (length (clean root)) subject
unfolding slashed
clean-Inside root subject rel (e, n) =
    let (x, s) = slashed-append (clean root) rel in begins (clean root) x subject (e ∙ s)

-- Roots of one length that contain a path are one root, and so are the rests.
same_root :
    (u v subject r q : Text)
    → Inside u subject r
    → Inside v subject q
    → length (clean u) ≡ length (clean v)
    → (clean u ≡ clean v) × (r ≡ q)
unfolding slashed
same_root u v subject r q i j h =
    let c : clean u ≡ clean v =
      clean-Inside u subject r i
      ∙ (ap (λ n. take n subject) h ∙ sym (clean-Inside v subject q j)) in
    (
      c,
      ends (prefix_of u) r subject i.0
          ∙ (ap (λ z. drop (length (slashed z)) subject) c
              ∙ sym (ends (prefix_of v) q subject j.0)),
    )

abbrev SameHit : Option Hit → Option Hit → Type 0
SameHit none none = Unit
SameHit none (some k) = ⊥
SameHit (some h) none = ⊥
SameHit (some h) (some k) = (clean h.worktree ≡ clean k.worktree) × (h.rel ≡ k.rel)

deepest_same :
    (ws vs : List Text) (s : Text) (h k : Hit)
    → Within ws vs
    → Within vs ws
    → IsDeepest ws s h
    → IsDeepest vs s k
    → SameHit (some h) (some k)
deepest_same ws vs s h k to from (m, i, a) (n, j, b) =
    let le = All-member (Below s k) h.worktree vs (to h.worktree m) b h.rel i in
    let ge = All-member (Below s h) k.worktree ws (from k.worktree n) a k.rel j in
    same_root h.worktree k.worktree s h.rel k.rel i j (omega arith)

Finds-same :
    (ws vs subjects : List Text) (h k : Option Hit)
    → Within ws vs
    → Within vs ws
    → Finds ws subjects h
    → Finds vs subjects k
    → SameHit h k
Finds-same ws vs [] none none to from f g = tt
Finds-same ws vs [] none (some k) to from f g = g
Finds-same ws vs [] (some h) k to from f g = elim f [ ]
Finds-same ws vs (s ∷ ss) none none to from f g = tt
Finds-same ws vs (s ∷ ss) none (some k) to from (o, f) (inl (n, j, b)) =
    All-member (Outside s) k.worktree ws (from k.worktree n) o k.rel j
Finds-same ws vs (s ∷ ss) none (some k) to from (o, f) (inr (p, g)) =
    Finds-same ws vs ss none (some k) to from f g
Finds-same ws vs (s ∷ ss) (some h) none to from (inl (m, i, a)) (o, g) =
    All-member (Outside s) h.worktree vs (to h.worktree m) o h.rel i
Finds-same ws vs (s ∷ ss) (some h) none to from (inr (p, f)) (o, g) =
    Finds-same ws vs ss (some h) none to from f g
Finds-same ws vs (s ∷ ss) (some h) (some k) to from (inl d) (inl e) =
    deepest_same ws vs s h k to from d e
Finds-same ws vs (s ∷ ss) (some h) (some k) to from (inl (m, i, a)) (inr (o, g)) =
    absurd (All-member (Outside s) h.worktree vs (to h.worktree m) o h.rel i)
Finds-same ws vs (s ∷ ss) (some h) (some k) to from (inr (o, f)) (inl (n, j, b)) =
    absurd (All-member (Outside s) k.worktree ws (from k.worktree n) o k.rel j)
Finds-same ws vs (s ∷ ss) (some h) (some k) to from (inr (p, f)) (inr (o, g)) =
    Finds-same ws vs ss (some h) (some k) to from f g

-- The same file, in the same worktree but for the way its path is written.
abbrev pub SameSelection : CallbackOpenSelection → CallbackOpenSelection → Type 0
SameSelection a b =
    (a.path ≡ b.path) × (clean a.worktree_path ≡ clean b.worktree_path) × (a.kind ≡ b.kind)

selection_of_same :
    (logical : Text) (h k : Option Hit) (rel : Option Text)
    → SameHit h k
    → SameSelection (selection_of logical h rel) (selection_of logical k rel)
selection_of_same logical none none none s = (refl, refl, refl)
selection_of_same logical none none (some rel) s = (refl, refl, refl)
selection_of_same logical none (some k) rel s = elim s [ ]
selection_of_same logical (some h) none rel s = elim s [ ]
selection_of_same logical (some h) (some k) rel (c, r) = (r, c, refl)

-- An `open` selects the same file whatever the order in which the provider lists its worktrees, and
-- however often it lists one: of the worktree's path only what `clean` takes away may differ.
pub classify_open_target_reordered :
    (i : ClassifyInput) (vs : List Text)
    → Within i.worktrees vs
    → Within vs i.worktrees
    → SameSelection (classify_open_target i) (classify_open_target (record i { worktrees = vs }))
unfolding classify_open_target
classify_open_target_reordered i vs to from =
    selection_of_same (clean i.path) (first_hit i.worktrees (all_subjects i))
      (first_hit vs (all_subjects i)) (first_root (subjects_of i).0 i.project_roots)
      (Finds-same i.worktrees vs (all_subjects i) (first_hit i.worktrees (all_subjects i))
        (first_hit vs (all_subjects i)) to from (first_hit-Finds i.worktrees (all_subjects i))
        (first_hit-Finds vs (all_subjects i)))
