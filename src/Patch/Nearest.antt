-- ===== src/Patch/Nearest.antt =====
-- The context line that a deletion is shown at is a nearest one.
use mathlib.Core.Path.{subst}
use agent_cockpit.Base.{
  ℕ, ◌≤◌, ◌≡◌, refl, ap, sym, ◌∙◌, Bool, true, false, ◌&&◌, ◌||◌, Option, none, some, List, [], ◌∷◌,
  ◌++◌, any,
}
use agent_cockpit.Base.{arith, ltb, ◌==◌, All, Bool-cases, inl, inr}
use agent_cockpit.Patch.{PatchLine, PatchHunk, ParsedPatch}
use agent_cockpit.Patch.Hunks.{
  distance, better, numbers_of, nearest_from, new_of, nearest_new_context, add_line, changed_by,
  add_hunk_lines, changed_from, changed_lines_from_patch,
}

-- Whether a context line has two numbers.
abbrev pub is_at : ℕ × ℕ → Option (ℕ × ℕ) → Bool
is_at l none = false
is_at l (some k) = (k.0 == l.0) && (k.1 == l.1)

abbrev pub IsFarther : ℕ → ℕ → Option (ℕ × ℕ) → Type 0
IsFarther old_line d none = Unit
IsFarther old_line d (some k) = d ≤ distance k.0 old_line

-- A nearest context line of a list: one of its lines, and none is nearer; or none when it has none.
abbrev pub IsNearest : ℕ → List PatchLine → Option (ℕ × ℕ) → Type 0
IsNearest old_line ls none = All (λ l. numbers_of l ≡ none) ls
IsNearest old_line ls (some best) =
    (any (λ l. is_at best (numbers_of l)) ls ≡ true)
    × All (λ l. IsFarther old_line (distance best.0 old_line) (numbers_of l)) ls

-- What the loop makes of a best candidate: it is kept or one of the lines takes its place, and in the end
-- none of them is nearer.
abbrev Keeps : ℕ → ℕ × ℕ → List PatchLine → Type 0
Keeps old_line b ls =
    (r : ℕ × ℕ) × (nearest_from old_line ls (some b) ≡ some r)
    × ((is_at r (some b) || any (λ l. is_at r (numbers_of l)) ls) ≡ true)
    × (distance r.0 old_line ≤ distance b.0 old_line)
    × All (λ l. IsFarther old_line (distance r.0 old_line) (numbers_of l)) ls

at_self : (b : ℕ × ℕ) (c : Bool) → (is_at b (some b) || c) ≡ true
at_self (o, n) c = ground arith

nearest_from-Keeps : (old_line : ℕ) (ls : List PatchLine) (b : ℕ × ℕ) → Keeps old_line b ls
unfolding nearest_from
nearest_from-Keeps old_line [] b = (b, refl, at_self b false, omega arith, tt)
nearest_from-Keeps old_line (l ∷ ls) b = go (nearest_from-Keeps old_line ls) (numbers_of l)
  where
    rest : ℕ × ℕ → Bool
    rest r = any (λ l. is_at r (numbers_of l)) ls

    in_rest : (a b c : Bool) → (a || c) ≡ true → (a || (b || c)) ≡ true
    in_rest a b c h = ground arith

    in_line : (a b c : Bool) → (b || c) ≡ true → (a || (b || c)) ≡ true
    in_line a b c h = ground arith

    go :
        ((b : ℕ × ℕ) → Keeps old_line b ls)
        → (o : Option (ℕ × ℕ))
        → (r : ℕ × ℕ) × (nearest_from old_line ls (elim o as (λ _. Option (ℕ × ℕ)) [
          | none ↦ some b
          | some l ↦ better old_line l (some b)
        ])
            ≡ some r)
          × ((is_at r (some b) || (is_at r o || any (λ l. is_at r (numbers_of l)) ls)) ≡ true)
          × (distance r.0 old_line ≤ distance b.0 old_line)
          × (IsFarther old_line (distance r.0 old_line) o
              × All (λ l. IsFarther old_line (distance r.0 old_line) (numbers_of l)) ls)
    go ih none = let (r, e, at, near, all) = ih b in (r, e, at, near, (tt, all))
    go ih (some k) = elim (Bool-cases (ltb (distance k.0 old_line) (distance b.0 old_line))) [
      | inl nearer ↦
          let (r, e, at, near, all) = ih k in
          (
            r,
            rw nearer e,
            in_line (is_at r (some b)) (is_at r (some k)) (rest r) at,
            ground arith,
            (near, all),
          )
      | inr not_nearer ↦
          let (r, e, at, near, all) = ih b in
          (
            r,
            rw not_nearer e,
            in_rest (is_at r (some b)) (is_at r (some k)) (rest r) at,
            near,
            (ground arith, all),
          )
    ]

nearest_from-IsNearest :
    (old_line : ℕ) (ls : List PatchLine) → IsNearest old_line ls (nearest_from old_line ls none)
unfolding nearest_from
nearest_from-IsNearest old_line [] = tt
nearest_from-IsNearest old_line (l ∷ ls) =
    go (nearest_from-IsNearest old_line ls) (numbers_of l) refl
  where
    found :
        (r : ℕ × ℕ) (o : Option (ℕ × ℕ)) (b : Bool)
        → (is_at r o || b) ≡ true
        → numbers_of l ≡ o
        → (is_at r (numbers_of l) || b) ≡ true
    found r o b h e = ap (λ o. is_at r o || b) e ∙ h

    without :
        numbers_of l ≡ none
        → (x : Option (ℕ × ℕ)) → IsNearest old_line ls x
        → IsNearest old_line (l ∷ ls) x
    without e none v = (e, v)
    without e (some best) (at, all) = (
      found best none (any (λ l. is_at best (numbers_of l)) ls) at e,
      (subst (IsFarther old_line (distance best.0 old_line)) (sym e) tt, all),
    )

    go :
        IsNearest old_line ls (nearest_from old_line ls none)
        → (o : Option (ℕ × ℕ)) → numbers_of l ≡ o
        → IsNearest old_line (l ∷ ls) (
            nearest_from old_line ls
              (elim o as (λ _. Option (ℕ × ℕ)) [ none ↦ none | some l ↦ better old_line l none ]))
    go ih none e = without e (nearest_from old_line ls none) ih
    go ih (some k) e =
        let (r, same, at, near, all) = nearest_from-Keeps old_line ls k in
        subst (IsNearest old_line (l ∷ ls)) (sym same) (
          found r (some k) (any (λ l. is_at r (numbers_of l)) ls) at e,
          (subst (IsFarther old_line (distance r.0 old_line)) (sym e) near, all),
        )

-- A deletion is shown at the new number of a context line of its hunk, than which no other context line is
-- nearer in the old file; or nowhere, when the hunk has no context line.
pub nearest_new_context-IsNearest :
    (h : PatchHunk) (old_line : ℕ)
    → (best : Option (ℕ × ℕ)) × (nearest_new_context h old_line ≡ new_of best)
      × IsNearest old_line h.lines best
unfolding nearest_new_context
nearest_new_context-IsNearest h old_line =
    (nearest_from old_line h.lines none, refl, nearest_from-IsNearest old_line h.lines)

abbrev pub holds : ℕ → List ℕ → Bool
holds n set = any (λ m. m == n) set

holds-append : (n : ℕ) (xs ys : List ℕ) → holds n (xs ++ ys) ≡ (holds n xs || holds n ys)
holds-append n [] ys = refl
holds-append n (x ∷ xs) ys = ground (arith, holds-append n xs ys)

-- What is added is there, and what was there stays.
holds-add_line :
    (o : Option ℕ) (n : ℕ) (set : List ℕ) → holds n set ≡ true → holds n (add_line o set) ≡ true
holds-add_line none n set h = h
holds-add_line (some m) n set h = ground (arith, holds-append n set (m ∷ []))

holds-added : (n : ℕ) (set : List ℕ) → holds n (add_line (some n) set) ≡ true
holds-added n set = ground (arith, holds-append n set (n ∷ []))

holds-add_hunk_lines :
    (h : PatchHunk) (ls : List PatchLine) (n : ℕ) (set : List ℕ)
    → holds n set ≡ true
    → holds n (add_hunk_lines h ls set) ≡ true
unfolding add_hunk_lines
holds-add_hunk_lines h [] n set v = v
holds-add_hunk_lines h (l ∷ ls) n set v =
    holds-add_hunk_lines h ls n (add_line (changed_by h l.kind l) set)
      (holds-add_line (changed_by h l.kind l) n set v)

holds-changed_from :
    (hs : List PatchHunk) (n : ℕ) (set : List ℕ)
    → holds n set ≡ true
    → holds n (changed_from hs set) ≡ true
unfolding changed_from
holds-changed_from [] n set v = v
holds-changed_from (h ∷ hs) n set v =
    holds-changed_from hs n (add_hunk_lines h h.lines set) (holds-add_hunk_lines h h.lines n set v)

-- The line of a hunk that is changed at a number.
hunk_line_changed :
    (h : PatchHunk) (xs : List PatchLine) (l : PatchLine) (ys : List PatchLine) (n : ℕ)
    (set : List ℕ)
    → changed_by h l.kind l ≡ some n
    → holds n (add_hunk_lines h (xs ++ l ∷ ys) set) ≡ true
unfolding add_hunk_lines
hunk_line_changed h [] l ys n set e =
    holds-add_hunk_lines h ys n (add_line (changed_by h l.kind l) set)
      (ap (λ o. holds n (add_line o set)) e ∙ holds-added n set)
hunk_line_changed h (x ∷ xs) l ys n set e =
    hunk_line_changed h xs l ys n (add_line (changed_by h x.kind x) set) e

-- Every added line of every hunk of a patch is among the changed lines, and so is the context line that
-- stands for a deleted one.
pub changed_lines-holds :
    (patch : ParsedPatch) (before : List PatchHunk) (h : PatchHunk) (after : List PatchHunk)
    (xs : List PatchLine) (l : PatchLine) (ys : List PatchLine) (n : ℕ)
    → patch.hunks ≡ before ++ h ∷ after
    → h.lines ≡ xs ++ l ∷ ys
    → changed_by h l.kind l ≡ some n
    → holds n (changed_lines_from_patch patch) ≡ true
unfolding changed_from
changed_lines-holds patch before h after xs l ys n hunks lines e =
    ap (λ hs. holds n (changed_from hs [])) hunks ∙ go before []
  where
    go :
        (before : List PatchHunk) (set : List ℕ)
        → holds n (changed_from (before ++ h ∷ after) set) ≡ true
    go [] set =
        holds-changed_from after n (add_hunk_lines h h.lines set)
          (ap (λ ls. holds n (add_hunk_lines h ls set)) lines ∙ hunk_line_changed h xs l ys n set e)
    go (b ∷ before) set = go before (add_hunk_lines b b.lines set)
