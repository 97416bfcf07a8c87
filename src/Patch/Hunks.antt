-- ===== src/Patch/Hunks.antt =====
-- src/renderer/content/hunkMap.ts: which lines and blocks of the new file a patch changes. A `Set` is the
-- list of its members in the order they were added.
use agent_cockpit.Base.{ℕ, ◌+◌, ◌-◌, Bool, ◌&&◌, Option, none, some, List, [], ◌∷◌, ◌++◌, any, find}
use agent_cockpit.Base.{Text, if◌then◌else◌, ltb, leb, ◌==◌}
use agent_cockpit.Base.Maps
use agent_cockpit.Patch.{LineKind, context, add, del, meta, PatchLine, PatchHunk, ParsedPatch}

-- `Math.abs(a - b)`
abbrev pub distance : ℕ → ℕ → ℕ
distance a b = (a - b) + (b - a)

-- The best candidate so far, by its old and its new line.
abbrev pub better : ℕ → ℕ × ℕ → Option (ℕ × ℕ) → Option (ℕ × ℕ)
better old_line l none = some l
better old_line l (some best) =
    if ltb (distance l.0 old_line) (distance best.0 old_line) then some l else some best

-- The two numbers of a context line that has both.
abbrev pub context_numbers : LineKind → Option ℕ → Option ℕ → Option (ℕ × ℕ)
context_numbers context (some o) (some n) = some (o, n)
context_numbers context (some o) none = none
context_numbers context none n = none
context_numbers add o n = none
context_numbers del o n = none
context_numbers meta o n = none

abbrev pub numbers_of : PatchLine → Option (ℕ × ℕ)
numbers_of l = context_numbers l.kind l.old_line l.new_line

-- The loop of `nearestNewContext`.
unfoldable pub nearest_from : ℕ → List PatchLine → Option (ℕ × ℕ) → Option (ℕ × ℕ)
nearest_from old_line [] best = best
nearest_from old_line (l ∷ ls) best =
    nearest_from old_line ls (elim (numbers_of l) [ none ↦ best | some l ↦ better old_line l best ])

abbrev pub new_of : Option (ℕ × ℕ) → Option ℕ
new_of none = none
new_of (some l) = some l.1

unfoldable pub nearest_new_context : PatchHunk → ℕ → Option ℕ
nearest_new_context h old_line = new_of (nearest_from old_line h.lines none)

-- `set.add`, for a number that may be missing.
abbrev pub add_line : Option ℕ → List ℕ → List ℕ
add_line none set = set
add_line (some n) set = if any (λ m. m == n) set then set else set ++ n ∷ []

abbrev pub or_zero : Option ℕ → ℕ
or_zero none = 0
or_zero (some n) = n

abbrev pub changed_by : PatchHunk → LineKind → PatchLine → Option ℕ
changed_by h add l = l.new_line
changed_by h del l = nearest_new_context h (or_zero l.old_line)
changed_by h context l = none
changed_by h meta l = none

-- The loop of `addHunkLines`.
unfoldable pub add_hunk_lines : PatchHunk → List PatchLine → List ℕ → List ℕ
add_hunk_lines h [] set = set
add_hunk_lines h (l ∷ ls) set = add_hunk_lines h ls (add_line (changed_by h l.kind l) set)

unfoldable pub changed_from : List PatchHunk → List ℕ → List ℕ
changed_from [] set = set
changed_from (h ∷ hs) set = changed_from hs (add_hunk_lines h h.lines set)

abbrev pub changed_lines_from_patch : ParsedPatch → List ℕ
changed_lines_from_patch patch = changed_from patch.hunks []

-- The loop of `newLineRange`, from the range so far.
unfoldable pub range_from : List PatchLine → Option (ℕ × ℕ) → Option (ℕ × ℕ)
range_from [] r = r
range_from (l ∷ ls) r = range_from ls (elim l.new_line [
  | none ↦ r
  | some n ↦ elim r [ none ↦ some (n, n) | some (start, end) ↦ some (start, n) ]
])

abbrev pub new_line_range : PatchHunk → Option (ℕ × ℕ)
new_line_range h = range_from h.lines none

pub record Block : Type 0 where
  pub id : Text
  pub start_line : ℕ
  pub end_line : ℕ

abbrev pub touches : ℕ × ℕ → Block → Bool
touches range b = leb b.start_line range.1 && leb range.0 b.end_line

-- `out.get(id) ?? []`
abbrev pub listed : Option (List PatchHunk) → List PatchHunk
listed none = []
listed (some hs) = hs

abbrev pub put_hunk :
    PatchHunk → Option Block → List (Text × List PatchHunk) → List (Text × List PatchHunk)
put_hunk h none out = out
put_hunk h (some b) out = Maps.set b.id (listed (Maps.get b.id out) ++ h ∷ []) out

unfoldable pub map_hunks_from :
    List Block → List PatchHunk → List (Text × List PatchHunk) → List (Text × List PatchHunk)
map_hunks_from blocks [] out = out
map_hunks_from blocks (h ∷ hs) out = map_hunks_from blocks hs (elim (new_line_range h) [
  | none ↦ out
  | some range ↦ put_hunk h (find (touches range) blocks) out
])

abbrev pub map_hunks_to_blocks : ParsedPatch → List Block → List (Text × List PatchHunk)
map_hunks_to_blocks patch blocks = map_hunks_from blocks patch.hunks []
