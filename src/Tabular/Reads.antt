-- ===== src/Tabular/Reads.antt =====
-- The parser reads a written table back.
use mathlib.Core.List.{append-nil, append_assoc}
use mathlib.Core.Bool.{true≢false}
use mathlib.Core.Path.{subst}
use agent_cockpit.Base.{
  ℕ, zero, suc, ◌<◌, ◌≡◌, refl, sym, ◌∙◌, ap, Bool, false, Option, none, some, List, [], ◌∷◌, ◌++◌,
  any, length, arith,
}
use agent_cockpit.Base.{Text, length-append}
use agent_cockpit.Tabular.{
  Delimiter, code_of, is_stop, take_field, drop_lf, drop_break, take_row, is_blank, take_rows,
  skip_bom, parse_delimited,
}
use agent_cockpit.Tabular.Grammar.{
  plain, in_quotes, Row, last, next, Break, unix, windows, classic, Table, nothing, final, more,
}
use agent_cockpit.Tabular.Fields.{Ends, or_false, code_of_no_lf, take_row-append}

module _ (d : Delimiter) where
  abbrev is_blank_row : Option (List Text × Text) → Bool
  is_blank_row none = false
  is_blank_row (some r) = is_blank r.0

  -- A row that is not blank is put before the rows after it.
  take_rows-row :
      (fuel : ℕ) (s : Text) (r : List Text) (rest : Text) (rs : List (List Text))
      → take_row (suc (length s)) d s ≡ some (r, rest)
      → is_blank r ≡ false
      → take_rows fuel d rest ≡ some rs
      → take_rows (suc fuel) d s ≡ some (r ∷ rs)
  unfolding take_rows take_row take_field
  take_rows-row fuel [] r rest rs h n k = absurd (true≢false (ap is_blank_row h ∙ n))
  take_rows-row fuel (c ∷ s) r rest rs h n k = rw (h, k, n) refl

  Row-pos : (r : List Text) (t : Text) → Row d r t → is_blank r ≡ false → 0 < length t
  Row-pos r t (last v w (plain [] a b)) n = absurd (true≢false n)
  Row-pos r t (last v w (plain (c ∷ v') a b)) n = omega arith
  Row-pos r t (last v w (in_quotes v')) n = omega arith
  Row-pos r t (next v w vs u c x) n = rw (length-append w (code_of d ∷ u)) (omega arith)

  no_lf : (c : ℕ) (s : Text) → is_stop d c ≡ false → drop_lf (c ∷ s) ≡ c ∷ s
  no_lf c s h = ground arith

  Row-drop_lf :
      (r : List Text) (t rest : Text)
      → Row d r t
      → is_blank r ≡ false
      → drop_lf (t ++ rest) ≡ t ++ rest
  Row-drop_lf r t rest (last v w (plain [] a b)) n = absurd (true≢false n)
  Row-drop_lf r t rest (last v w (plain (c ∷ v') a b)) n =
      no_lf c (v' ++ rest) (or_false (is_stop d c) (any (is_stop d) v') a).0
  Row-drop_lf r t rest (last v w (in_quotes v')) n = refl
  Row-drop_lf r t rest (next v w vs u (plain [] a b) x) n = code_of_no_lf d (u ++ rest)
  Row-drop_lf r t rest (next v w vs u (plain (c ∷ v') a b) x) n =
      no_lf c _ (or_false (is_stop d c) (any (is_stop d) v') a).0
  Row-drop_lf r t rest (next v w vs u (in_quotes v') x) n = refl

  Table-drop_lf : (rs : List (List Text)) (t : Text) → Table d rs t → drop_lf t ≡ t
  Table-drop_lf rs t nothing = refl
  Table-drop_lf rs t (final r u x n) =
      subst (λ z. drop_lf z ≡ z) (append-nil u) (Row-drop_lf r u [] x n)
  Table-drop_lf rs t (more r u b ss w x n k y) =
      rw (append_assoc u b w) (Row-drop_lf r u (b ++ w) x n)

  drop_break-append : (b u : Text) → Break b → drop_lf u ≡ u → drop_break (b ++ u) ≡ u
  drop_break-append b u unix h = refl
  drop_break-append b u windows h = refl
  drop_break-append b u classic h = h

  Break-Ends : (b u : Text) → Break b → Ends (b ++ u)
  Break-Ends b u unix = refl
  Break-Ends b u windows = refl
  Break-Ends b u classic = refl

  Break-pos : (b : Text) → Break b → 0 < length b
  Break-pos b unix = omega arith
  Break-pos b windows = omega arith
  Break-pos b classic = omega arith

  take_rows-Table :
      (rs : List (List Text)) (t : Text) (fuel : ℕ)
      → Table d rs t
      → length t < fuel
      → take_rows fuel d t ≡ some rs
  unfolding take_rows
  take_rows-Table rs t zero x f = absurd (omega arith)
  take_rows-Table rs t (suc fuel) nothing f = refl
  take_rows-Table rs t (suc zero) (final r u x n) f = absurd (omega (arith, Row-pos r u x n))
  take_rows-Table rs t (suc (suc fuel)) (final r u x n) f =
      take_rows-row (suc fuel) u r [] []
        (ap (take_row (suc (length u)) d) (sym (append-nil u))
          ∙ take_row-append d r u [] (suc (length u)) x tt (omega arith))
        n refl
  take_rows-Table rs t (suc fuel) (more r u b ss w x n k y) f =
      let whole = length-append (u ++ b) w in
      let front = length-append u b in
      take_rows-row fuel t r w ss
        (ap (take_row (suc (length t)) d) (append_assoc u b w)
          ∙ (take_row-append d r u (b ++ w) (suc (length t)) x (Break-Ends b w k)
                (omega (arith, whole, front))
              ∙ ap (λ z. some (r, z)) (drop_break-append b w k (Table-drop_lf ss w y))))
        n (take_rows-Table ss w fuel y (omega (arith, whole, front, Break-pos b k)))

-- A text that writes a table by the grammar, with a byte order mark or without one that would be taken for
-- it, is parsed into exactly the rows of the table.
pub parse_delimited-Table :
    (d : Delimiter) (rs : List (List Text)) (s t : Text)
    → skip_bom s ≡ t
    → Table d rs t
    → parse_delimited s d ≡ some rs
unfolding parse_delimited
parse_delimited-Table d rs s t h x = rw h (take_rows-Table d rs t (suc (length t)) x (omega arith))
