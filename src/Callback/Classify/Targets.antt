-- ===== src/Callback/Classify/Targets.antt =====
-- Where an `open` goes: to a worktree, to the root of the project, or outside.
use agent_cockpit.Base.{◌≡◌, refl, Option, none, some, List, [], ◌∷◌, ◌⊎◌, inl, inr}
use agent_cockpit.Base.{Text, All}
use agent_cockpit.Callback.Classify.{
  Hit, clean, relative_inside, deepest_worktree, first_hit, first_root, ClassifyInput,
  CallbackOpenSelection, subjects_of, selection_of, classify_open_target, file, external_file,
}
use agent_cockpit.Callback.Classify.Inside.{
  Inside, Outside, relative_inside-Inside, relative_inside-Outside,
}
use agent_cockpit.Callback.Classify.Deepest.{
  IsDeepest, deepest_worktree-IsDeepest, deepest_from-Outside,
}

-- The first of the subjects that lies in a worktree is looked up in a deepest one.
abbrev pub Finds : List Text → List Text → Option Hit → Type 0
Finds worktrees [] none = Unit
Finds worktrees [] (some h) = ⊥
Finds worktrees (s ∷ ss) none = All (Outside s) worktrees × Finds worktrees ss none
Finds worktrees (s ∷ ss) (some h) =
    IsDeepest worktrees s h ⊎ (All (Outside s) worktrees × Finds worktrees ss (some h))

pub first_hit-Finds :
    (worktrees subjects : List Text) → Finds worktrees subjects (first_hit worktrees subjects)
first_hit-Finds worktrees [] = tt
first_hit-Finds worktrees (s ∷ ss) =
    go (deepest_worktree worktrees s) refl (first_hit worktrees ss) (first_hit-Finds worktrees ss)
  where
    go :
        (o : Option Hit)
        → deepest_worktree worktrees s ≡ o
        → (rest : Option Hit) → Finds worktrees ss rest
        → Finds worktrees (s ∷ ss) (elim o as (λ _. Option Hit) [ some h ↦ some h | none ↦ rest ])
    go none e none f = ((deepest_from-Outside s worktrees none e).1, f)
    go none e (some h) f = inr ((deepest_from-Outside s worktrees none e).1, f)
    go (some h) e rest f = inl (deepest_worktree-IsDeepest worktrees s h e)

-- The rest of the path in the first root that contains it.
abbrev pub FindsRoot : Text → List Text → Text → Type 0
FindsRoot s [] rel = ⊥
FindsRoot s (r ∷ rs) rel = Inside r s rel ⊎ (Outside s r × FindsRoot s rs rel)

abbrev Rooted : Text → List Text → Option Text → Type 0
Rooted s rs none = All (Outside s) rs
Rooted s rs (some rel) = FindsRoot s rs rel

first_root-Rooted : (s : Text) (rs : List Text) → Rooted s rs (first_root s rs)
first_root-Rooted s [] = tt
first_root-Rooted s (r ∷ rs) =
    go (relative_inside r s) refl (first_root s rs) (first_root-Rooted s rs)
  where
    go :
        (o : Option Text)
        → relative_inside r s ≡ o
        → (rest : Option Text) → Rooted s rs rest
        → Rooted s (r ∷ rs) (elim o as (λ _. Option Text) [ some rel ↦ some rel | none ↦ rest ])
    go none e none f = (relative_inside-Outside r s e, f)
    go none e (some rel) f = inr (relative_inside-Outside r s e, f)
    go (some rel) e rest f = inl (relative_inside-Inside r s rel e)

abbrev pub all_subjects : ClassifyInput → List Text
all_subjects i = (subjects_of i).0 ∷ (subjects_of i).1

-- What a selection may be: a file of a worktree, a file of the project's root, or one outside.
pub data Target (i : ClassifyInput) : CallbackOpenSelection → Type 0 where
  in_worktree :
      (h : Hit)
      → Finds i.worktrees (all_subjects i) (some h)
      → Target i (record { path = h.rel; worktree_path = h.worktree; kind = file })
  in_root :
      (rel : Text)
      → Finds i.worktrees (all_subjects i) none
      → FindsRoot (subjects_of i).0 i.project_roots rel
      → Target i (record { path = rel; worktree_path = []; kind = file })
  outside_all :
      Finds i.worktrees (all_subjects i) none
      → All (Outside (subjects_of i).0) i.project_roots
      → Target i (record { path = clean i.path; worktree_path = []; kind = external_file })

selection_of-Target :
    (i : ClassifyInput) (h : Option Hit) (rel : Option Text)
    → Finds i.worktrees (all_subjects i) h
    → Rooted (subjects_of i).0 i.project_roots rel
    → Target i (selection_of (clean i.path) h rel)
selection_of-Target i (some h) rel f g = in_worktree h f
selection_of-Target i none (some rel) f g = in_root rel f g
selection_of-Target i none none f g = outside_all f g

-- A selection names, by a worktree and the rest of the path, a deepest worktree that contains the first
-- of the paths to match that lies in any; when none does, the rest of the first path in the first of the
-- roots that contains it; and when no root does, the cleaned path as it was sent.
pub classify_open_target-Target : (i : ClassifyInput) → Target i (classify_open_target i)
unfolding classify_open_target
classify_open_target-Target i =
    selection_of-Target i (first_hit i.worktrees (all_subjects i))
      (first_root (subjects_of i).0 i.project_roots) (first_hit-Finds i.worktrees (all_subjects i))
      (first_root-Rooted (subjects_of i).0 i.project_roots)
