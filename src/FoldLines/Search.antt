-- ===== src/FoldLines/Search.antt =====
-- The search agrees with counting the line breaks before the offset.
use Prim.Native.Nat.{◌/◌}
use agent_cockpit.Base.{
  ℕ, zero, suc, ◌+◌, ◌-◌, ◌≤◌, ◌<◌, ◌≡◌, refl, ap, sym, ◌∙◌, Bool, false, none, some, List, [], ◌∷◌,
}
use agent_cockpit.Base.{
  Text, arith, if◌then◌else◌, length, get_elem?, take, ltb, leb, ◌==◌, Bool-cases, inl, inr,
}
use agent_cockpit.FoldLines.{
  newline, starts_from, line_start_offsets, starts_by, search, offset_to_line,
}

abbrev pub line_breaks : Text → ℕ
line_breaks [] = 0
line_breaks (c ∷ cs) = if c == newline then suc (line_breaks cs) else line_breaks cs

starts_from-after : (i : ℕ) (cs : Text) (k s : ℕ) → get_elem? (starts_from i cs) k ≡ some s → i < s
unfolding starts_from
starts_from-after i [] k s h = absurd (ground arith)
starts_from-after i (c ∷ cs) zero s h = ground (arith, starts_from-after (suc i) cs 0 s)
starts_from-after i (c ∷ cs) (suc k) s h =
    ground (arith, starts_from-after (suc i) cs k s, starts_from-after (suc i) cs (suc k) s)

length-starts_from : (i : ℕ) (cs : Text) → length (starts_from i cs) ≡ line_breaks cs
unfolding starts_from
length-starts_from i [] = refl
length-starts_from i (c ∷ cs) = ground (arith, length-starts_from (suc i) cs)

-- The lines that start by an offset are those up to the number of line breaks before it.
starts_from-by :
    (n i : ℕ) (cs : Text) (k s : ℕ)
    → get_elem? (starts_from i cs) k ≡ some s
    → leb s (i + n) ≡ ltb k (line_breaks (take n cs))
unfolding starts_from
starts_from-by zero i cs k s h = ground (arith, starts_from-after i cs k s)
starts_from-by (suc n) i [] k s h = absurd (ground arith)
starts_from-by (suc n) i (c ∷ cs) zero s h = ground (arith, starts_from-by n (suc i) cs 0 s)
starts_from-by (suc n) i (c ∷ cs) (suc k) s h =
    ground (arith, starts_from-by n (suc i) cs k s, starts_from-by n (suc i) cs (suc k) s)

line_breaks-take : (n : ℕ) (cs : Text) → line_breaks (take n cs) ≤ line_breaks cs
line_breaks-take zero cs = omega arith
line_breaks-take (suc n) [] = omega arith
line_breaks-take (suc n) (c ∷ cs) = ground (arith, line_breaks-take n cs)

-- The search finds the last index that passes, if all up to it pass and none after it.
search_lem :
    (fuel : ℕ) (starts : List ℕ) (offset lo hi n : ℕ)
    → ((k : ℕ) → k ≤ hi → starts_by starts offset k ≡ leb k n)
    → lo ≤ n
    → n ≤ hi
    → hi - lo ≤ fuel
    → search fuel starts offset lo hi ≡ n
unfolding search
search_lem zero starts offset lo hi n p hl hh hf = omega arith
search_lem (suc fuel) starts offset lo hi n p hl hh hf = elim (Bool-cases (ltb lo hi)) [
  | inr met ↦ rw met (ground arith)
  | inl apart ↦
      let less : lo < hi = ground arith in
      let above : lo < mid = omega arith in
      let below : mid ≤ hi = omega arith in
      elim (Bool-cases (leb mid n)) [
        | inl passes ↦
            rw (apart, p mid below, passes)
              (search_lem fuel starts offset mid hi n p (ground arith) hh (omega arith))
        | inr fails ↦
            rw (apart, p mid below, fails)
              (search_lem fuel starts offset lo (mid - 1) n (λ k h. p k (omega arith)) hl
                (ground arith) (omega arith))
      ]
]
  where
    mid : ℕ
    mid = (lo + hi + 1) / 2

get_elem?-inside : (xs : List ℕ) (k : ℕ) → k < length xs → (x : ℕ) × (get_elem? xs k ≡ some x)
get_elem?-inside [] k h = absurd (omega arith)
get_elem?-inside (x ∷ xs) zero h = (x, refl)
get_elem?-inside (x ∷ xs) (suc k) h = get_elem?-inside xs k (omega arith)

line_start_offsets-by :
    (text : Text) (offset k : ℕ)
    → k ≤ length (line_start_offsets text) - 1
    → starts_by (line_start_offsets text) offset k ≡ leb k (line_breaks (take offset text))
unfolding line_start_offsets
line_start_offsets-by text offset zero h = ground arith
line_start_offsets-by text offset (suc k) h =
    let (s, e) = get_elem?-inside (starts_from 0 text) k (omega arith) in
    let zero_plus : 0 + offset ≡ offset = omega arith in
    ap (λ o. elim o as (λ _. Bool) [ none ↦ false | some s ↦ leb s offset ]) e
    ∙ ap (leb s) (sym zero_plus)
    ∙ starts_from-by offset 0 text k s e
    ∙ ground arith

-- The line that is found for an offset is the number of line breaks before it, also past the end of the
-- text.
pub offset_to_line-line_breaks :
    (text : Text) (offset : ℕ)
    → offset_to_line (line_start_offsets text) offset ≡ line_breaks (take offset text)
unfolding offset_to_line line_start_offsets
offset_to_line-line_breaks text offset =
    search_lem (length (line_start_offsets text)) (line_start_offsets text) offset 0
      (length (line_start_offsets text) - 1) (line_breaks (take offset text))
      (line_start_offsets-by text offset) (omega arith) bound (omega arith)
  where
    bound : line_breaks (take offset text) ≤ length (line_start_offsets text) - 1
    bound = omega (arith, line_breaks-take offset text, length-starts_from 0 text)
