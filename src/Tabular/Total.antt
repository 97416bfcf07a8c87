-- ===== src/Tabular/Total.antt =====
-- The loops of the parser end: the fuel is enough for every text.
use agent_cockpit.Base.{
  ℕ, zero, suc, ◌≤◌, ◌<◌, ◌≡◌, refl, Bool, true, false, Option, none, some, List, [], ◌∷◌, length,
  arith, ◌⊎◌, inl, inr,
}
use agent_cockpit.Base.{Text, ◌==◌, Bool-cases, is_some, ◌>>=◌}
use agent_cockpit.Tabular.{
  Delimiter, code_of, quote, is_stop, until_stop, quoted, take_field, drop_break, add_field,
  after_field, take_row, push_row, take_rows, skip_bom, parse_delimited,
}

length-until_stop : (d : Delimiter) (s : Text) → length (until_stop d s).1 ≤ length s
unfolding until_stop
length-until_stop d [] = omega arith
length-until_stop d (c ∷ s) = elim (Bool-cases (is_stop d c)) [
  | inl e ↦ rw e (omega arith)
  | inr e ↦ rw e (omega (arith, length-until_stop d s))
]

length-quoted : (b : Bool) (s : Text) → length (quoted b s).1 ≤ length s
unfolding quoted
length-quoted b [] = omega arith
length-quoted false (c ∷ s) = elim (Bool-cases (c == quote)) [
  | inl e ↦ rw e (omega (arith, length-quoted true s))
  | inr e ↦ rw e (omega (arith, length-quoted false s))
]
length-quoted true (c ∷ s) = elim (Bool-cases (c == quote)) [
  | inl e ↦ rw e (omega (arith, length-quoted false s))
  | inr e ↦ rw e (omega arith)
]

length-take_field : (d : Delimiter) (s : Text) → length (take_field d s).1 ≤ length s
unfolding take_field
length-take_field d [] = omega arith
length-take_field d (c ∷ s) = elim (Bool-cases (c == quote)) [
  | inl e ↦ rw e (omega (arith, length-until_stop d (quoted false s).1, length-quoted false s))
  | inr e ↦ rw e (length-until_stop d (c ∷ s))
]

length-drop_break : (c : ℕ) (s : Text) → length (drop_break (c ∷ s)) ≤ length s
length-drop_break c [] = ground arith
length-drop_break c (e ∷ s) = ground arith

-- A row is read, and the rest is shorter unless nothing was left.
abbrev Reads : Text → Option (List Text × Text) → Type 0
Reads s none = ⊥
Reads s (some r) = (length s ≡ 0) ⊎ (length r.1 < length s)

nothing_left : (s : Text) → (length s ≡ 0) ⊎ (0 < length s)
nothing_left [] = inl refl
nothing_left (c ∷ s) = inr (omega arith)

add_field-Reads :
    (f u s : Text) (o : Option (List Text × Text))
    → Reads u o
    → 0 < length u
    → length u ≤ length s
    → Reads s (o >>= add_field f)
add_field-Reads f u s none x p h = elim x [ ]
add_field-Reads f u s (some r) (inl e) p h = absurd (omega arith)
add_field-Reads f u s (some r) (inr e) p h = inr (omega arith)

after_field-Reads :
    (d : Delimiter) (fuel : ℕ) (s : Text)
    → ((u : Text) → length u < fuel → Reads u (take_row fuel d u))
    → length s < suc fuel
    → (x : Text × Text) → length x.1 ≤ length s
    → Reads s (after_field d (take_row fuel d) x)
after_field-Reads d fuel s ih f (v, []) h = nothing_left s
after_field-Reads d fuel s ih f (v, c ∷ []) h = elim (Bool-cases (c == code_of d)) [
  | inl e ↦ rw e (inr (omega arith))
  | inr e ↦ rw e (inr (omega (arith, length-drop_break c [])))
]
after_field-Reads d fuel s ih f (v, c ∷ e ∷ u) h = elim (Bool-cases (c == code_of d)) [
  | inl q ↦ rw q (
      add_field-Reads v (e ∷ u) s (take_row fuel d (e ∷ u)) (ih (e ∷ u) (omega arith)) (omega arith)
        (omega arith))
  | inr q ↦ rw q (inr (omega (arith, length-drop_break c (e ∷ u))))
]

take_row-Reads :
    (d : Delimiter) (fuel : ℕ) (s : Text) → length s < fuel → Reads s (take_row fuel d s)
unfolding take_row
take_row-Reads d zero s h = absurd (omega arith)
take_row-Reads d (suc fuel) s h =
    after_field-Reads d fuel s (take_row-Reads d fuel) h (take_field d s) (length-take_field d s)

push_row_some :
    (row : List Text) (o : Option (List (List Text)))
    → is_some o ≡ true
    → is_some (o >>= push_row row) ≡ true
push_row_some row none h = h
push_row_some row (some rows) h = refl

take_rows_total :
    (d : Delimiter) (fuel : ℕ) (s : Text) → length s < fuel → is_some (take_rows fuel d s) ≡ true
unfolding take_rows
take_rows_total d zero s h = absurd (omega arith)
take_rows_total d (suc fuel) [] h = refl
take_rows_total d (suc fuel) (c ∷ s) h =
    rest (take_row (suc (length (c ∷ s))) d (c ∷ s))
      (take_row-Reads d (suc (length (c ∷ s))) (c ∷ s) (omega arith)) (take_rows_total d fuel)
  where
    rest :
        (o : Option (List Text × Text))
        → Reads (c ∷ s) o
        → ((u : Text) → length u < fuel → is_some (take_rows fuel d u) ≡ true)
        → is_some (o >>= λ r. take_rows fuel d r.1 >>= push_row r.0) ≡ true
    rest none x ih = elim x [ ]
    rest (some r) (inl e) ih = absurd (omega arith)
    rest (some r) (inr e) ih = push_row_some r.0 (take_rows fuel d r.1) (ih r.1 (omega arith))

-- On every text and with either delimiter the parser returns: neither of its loops runs out of fuel.
pub parse_delimited_total : (text : Text) (d : Delimiter) → is_some (parse_delimited text d) ≡ true
unfolding parse_delimited
parse_delimited_total text d =
    take_rows_total d (suc (length (skip_bom text))) (skip_bom text) (omega arith)
