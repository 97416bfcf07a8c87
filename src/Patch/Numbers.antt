-- ===== src/Patch/Numbers.antt =====
-- The lines of a hunk are numbered on from its header.
use agent_cockpit.Base.{
  ℕ, suc, ◌≡◌, refl, sym, Bool, true, false, Option, none, some, List, [], ◌∷◌, ◌++◌,
}
use agent_cockpit.Base.{Text, codes, if◌then◌else◌, All, All-append, starts_with, drop}
use mathlib.Core.Path.{subst}
use agent_cockpit.Patch.{
  PatchLine, PatchHunk, State, LineKind, context, add, del, meta, push_line, hunk_line, hunks_of,
  hunk_step, step, steps, is_meta, is_binary_line, match_hunk, start, parse_patch, split_lines,
  file_name,
}

-- The numbers that lines get from two counters on: a context line both, an added or deleted line one.
abbrev pub AreNumbered : ℕ → ℕ → List PatchLine → ℕ → ℕ → Type 0
AreNumbered old new [] old' new' = (old ≡ old') × (new ≡ new')
AreNumbered old new (l ∷ ls) old' new' = elim l.kind [
  | context ↦
      (l.old_line ≡ some old)
      × (l.new_line ≡ some new)
      × AreNumbered (suc old) (suc new) ls old' new'
  | add ↦ (l.old_line ≡ none) × (l.new_line ≡ some new) × AreNumbered old (suc new) ls old' new'
  | del ↦ (l.old_line ≡ some old) × (l.new_line ≡ none) × AreNumbered (suc old) new ls old' new'
  | meta ↦ (l.old_line ≡ none) × (l.new_line ≡ none) × AreNumbered old new ls old' new'
]

-- A hunk whose lines are numbered on from its header.
abbrev pub IsNumbered : PatchHunk → Type 0
IsNumbered h = (o : ℕ) × (n : ℕ) × AreNumbered h.old_start h.new_start h.lines o n

AreNumbered-snoc :
    (ls : List PatchLine) (l : PatchLine) (a b c d e f : ℕ)
    → AreNumbered a b ls c d
    → AreNumbered c d (l ∷ []) e f
    → AreNumbered a b (ls ++ l ∷ []) e f
AreNumbered-snoc [] l a b c d e f (x, y) h =
    subst (λ n. AreNumbered n b (l ∷ []) e f) (sym x)
      (subst (λ n. AreNumbered c n (l ∷ []) e f) (sym y) h)
AreNumbered-snoc (k ∷ ls) l a b c d e f v w =
    go k.kind (λ a b. AreNumbered-snoc ls l a b c d e f) v w
  where
    go :
        (kind : LineKind)
        → ((a b : ℕ)
            → AreNumbered a b ls c d
            → AreNumbered c d (l ∷ []) e f
            → AreNumbered a b (ls ++ l ∷ []) e f)
        → AreNumbered a b (record k { kind = kind } ∷ ls) c d
        → AreNumbered c d (l ∷ []) e f
        → AreNumbered a b (record k { kind = kind } ∷ (ls ++ l ∷ [])) e f
    go context ih (x, y, r) h = (x, y, ih (suc a) (suc b) r h)
    go add ih (x, y, r) h = (x, y, ih a (suc b) r h)
    go del ih (x, y, r) h = (x, y, ih (suc a) b r h)
    go meta ih (x, y, r) h = (x, y, ih a b r h)

-- The hunk that is being read is numbered up to the counters.
abbrev IsCurrent : ℕ → ℕ → Option PatchHunk → Type 0
IsCurrent o n none = Unit
IsCurrent o n (some h) = AreNumbered h.old_start h.new_start h.lines o n

abbrev IsState : State → Type 0
IsState s = All IsNumbered s.finished × IsCurrent s.old_num s.new_num s.current

hunk_line-IsState :
    (raw : Text) (h : PatchHunk) (s : State)
    → All IsNumbered s.finished
    → s.current ≡ some h
    → AreNumbered h.old_start h.new_start h.lines s.old_num s.new_num
    → IsState (hunk_line raw h s)
unfolding hunk_line
hunk_line-IsState raw h s done same v =
    go (starts_with (codes "\\ ") raw) (starts_with (codes "+") raw) (starts_with (codes "-") raw)
      (starts_with (codes " ") raw)
  where
    tail : Text
    tail = drop 1 raw

    snoc :
        (l : PatchLine) (e f : ℕ)
        → AreNumbered s.old_num s.new_num (l ∷ []) e f
        → AreNumbered h.old_start h.new_start (h.lines ++ l ∷ []) e f
    snoc l e f x = AreNumbered-snoc h.lines l h.old_start h.new_start s.old_num s.new_num e f v x

    go :
        (a b c d : Bool)
        → IsState (
            if a
            then record s {
              current = some (
                  push_line
                    (record { kind = meta; text = raw; old_line = none; new_line = none })
                    h);
            }
            else if b
            then record s {
              current = some (
                  push_line
                    (record { kind = add; text = tail; old_line = none; new_line = some s.new_num })
                    h);
              new_num = suc s.new_num;
            }
            else if c
            then record s {
              current = some (
                  push_line
                    (record { kind = del; text = tail; old_line = some s.old_num; new_line = none })
                    h);
              old_num = suc s.old_num;
            }
            else if d
            then record s {
              current = some (
                  push_line
                    (record {
                      kind = context;
                      text = tail;
                      old_line = some s.old_num;
                      new_line = some s.new_num;
                    })
                    h);
              old_num = suc s.old_num;
              new_num = suc s.new_num;
            }
            else s)
    go true b c d = (done, snoc _ _ _ (refl, refl, (refl, refl)))
    go false true c d = (done, snoc _ _ _ (refl, refl, (refl, refl)))
    go false false true d = (done, snoc _ _ _ (refl, refl, (refl, refl)))
    go false false false true = (done, snoc _ _ _ (refl, refl, (refl, refl)))
    go false false false false = (done, subst (IsCurrent s.old_num s.new_num) (sym same) v)

hunks_of-All :
    (finished : List PatchHunk) (current : Option PatchHunk) (o n : ℕ)
    → All IsNumbered finished
    → IsCurrent o n current
    → All IsNumbered (hunks_of finished current)
hunks_of-All finished none o n done v = done
hunks_of-All finished (some h) o n done v =
    All-append IsNumbered finished (h ∷ []) done ((o, n, v), tt)

hunk_step-IsState :
    (raw : Text) (s : State) (m : Option (ℕ × ℕ × ℕ × ℕ)) → IsState s → IsState (hunk_step raw s m)
hunk_step-IsState raw s (some (a, b, c, d)) (done, v) =
    (hunks_of-All s.finished s.current s.old_num s.new_num done v, (refl, refl))
hunk_step-IsState raw s none (done, v) = go s.current refl
  where
    go :
        (o : Option PatchHunk)
        → s.current ≡ o
        → IsState (elim o as (λ _. State) [ none ↦ s | some h ↦ hunk_line raw h s ])
    go none e = (done, v)
    go (some h) e = hunk_line-IsState raw h s done e (subst (IsCurrent s.old_num s.new_num) e v)

step-IsState : (raw : Text) (s : State) → IsState s → IsState (step raw s)
unfolding step
step-IsState raw s v =
    go (starts_with (codes "--- ") raw) (starts_with (codes "+++ ") raw) (is_meta raw)
      (is_binary_line raw)
  where
    metas : List Text
    metas = s.meta_lines ++ raw ∷ []

    go :
        (a b c d : Bool)
        → IsState (
            if a
            then record s { from = file_name (codes "a/") raw; meta_lines = metas }
            else if b
            then record s { to = file_name (codes "b/") raw; meta_lines = metas }
            else if c
            then record s { meta_lines = metas }
            else if d
            then record s { meta_lines = metas; binary = true }
            else hunk_step raw s (match_hunk raw))
    go true b c d = v
    go false true c d = v
    go false false true d = v
    go false false false true = v
    go false false false false = hunk_step-IsState raw s (match_hunk raw) v

steps-IsState : (lines : List Text) (s : State) → IsState s → IsState (steps lines s)
unfolding steps
steps-IsState [] s v = v
steps-IsState (raw ∷ lines) s v = steps-IsState lines (step raw s) (step-IsState raw s v)

-- In every hunk that is parsed, the lines are numbered on from the two numbers of its header: a context line
-- on both sides, an added line on the new side only, a deleted line on the old side only.
pub parse_patch-IsNumbered : (patch : Text) → All IsNumbered (parse_patch patch).hunks
unfolding parse_patch
parse_patch-IsNumbered patch =
    let s : State = steps (split_lines patch) start in
    let (done, v) = steps-IsState (split_lines patch) start (tt, tt) in
    hunks_of-All s.finished s.current s.old_num s.new_num done v
