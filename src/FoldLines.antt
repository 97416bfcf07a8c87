-- ===== src/FoldLines.antt =====
-- src/renderer/content/folding/foldModel.ts: the lines of a text by offset. The binary search runs on
-- fuel; the number of lines is enough.
pub mod Search
mod Tests
use Prim.Native.Nat.{◌/◌}
use agent_cockpit.Base.{
  ℕ, zero, suc, ◌+◌, ◌-◌, Bool, true, false, Option, none, some, List, [], ◌∷◌,
}
use agent_cockpit.Base.{Text, if◌then◌else◌, length, get_elem?, ltb, leb, ◌==◌}

abbrev pub newline : ℕ
newline = 0x0a

-- The loop over the text from an index on.
unfoldable pub starts_from : ℕ → Text → List ℕ
starts_from i [] = []
starts_from i (c ∷ cs) =
    let rest = starts_from (suc i) cs in if c == newline then suc i ∷ rest else rest

unfoldable pub line_start_offsets : Text → List ℕ
line_start_offsets text = 0 ∷ starts_from 0 text

-- `starts[mid] <= offset`; past the end the comparison is false.
abbrev pub starts_by : List ℕ → ℕ → ℕ → Bool
starts_by starts offset mid = elim (get_elem? starts mid) [ none ↦ false | some s ↦ leb s offset ]

-- The loop of the search, from `lo` and `hi`.
unfoldable pub search : ℕ → List ℕ → ℕ → ℕ → ℕ → ℕ
search zero starts offset lo hi = lo
search (suc fuel) starts offset lo hi =
    let mid = (lo + hi + 1) / 2 in
    let right = search fuel starts offset mid hi in
    let left = search fuel starts offset lo (mid - 1) in
    if ltb lo hi then (if starts_by starts offset mid then right else left) else lo

unfoldable pub offset_to_line : List ℕ → ℕ → ℕ
offset_to_line starts offset = search (length starts) starts offset 0 (length starts - 1)
