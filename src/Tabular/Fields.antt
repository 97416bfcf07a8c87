-- ===== src/Tabular/Fields.antt =====
-- The parser reads the fields of a written row back.
use mathlib.Core.List.{append-nil, append_assoc}
use agent_cockpit.Base.{
  ℕ, zero, suc, ◌<◌, ◌≡◌, refl, ap, Bool, true, false, ◌||◌, some, List, [], ◌∷◌, ◌++◌, any, length,
  arith, inl, inr,
}
use agent_cockpit.Base.{Text, ◌==◌, Bool-cases, length-append, ==_iff, ◌>>=◌}
use agent_cockpit.Tabular.{
  Delimiter, comma, tab, code_of, quote, lf, cr, is_stop, until_stop, quoted, take_field, drop_lf,
  drop_break, add_field, after_field, take_row,
}
use agent_cockpit.Tabular.Grammar.{doubled, Cell, plain, in_quotes, Row, last, next}

-- Nothing, or a text that begins with the end of a field.
abbrev Stops : Delimiter → Text → Type 0
Stops d [] = Unit
Stops d (c ∷ s) = is_stop d c ≡ true

-- Nothing, or a text that begins with a line break.
abbrev pub Ends : Text → Type 0
Ends [] = Unit
Ends (c ∷ s) = (c == lf || c == cr) ≡ true

pub or_false : (a b : Bool) → (a || b) ≡ false → (a ≡ false) × (b ≡ false)
or_false a b h = ground arith

quote_no_stop : (d : Delimiter) (c : ℕ) → is_stop d c ≡ true → (c == quote) ≡ false
quote_no_stop comma c h = ground arith
quote_no_stop tab c h = ground arith

code_of_stop : (d : Delimiter) → is_stop d (code_of d) ≡ true
code_of_stop comma = refl
code_of_stop tab = refl

code_of_same : (d : Delimiter) → (code_of d == code_of d) ≡ true
code_of_same comma = refl
code_of_same tab = refl

break_stop : (d : Delimiter) (c : ℕ) → (c == lf || c == cr) ≡ true → is_stop d c ≡ true
break_stop d c h = ground arith

break_no_code : (d : Delimiter) (c : ℕ) → (c == lf || c == cr) ≡ true → (c == code_of d) ≡ false
break_no_code comma c h = ground arith
break_no_code tab c h = ground arith

pub code_of_no_lf : (d : Delimiter) (s : Text) → drop_lf (code_of d ∷ s) ≡ code_of d ∷ s
code_of_no_lf comma s = refl
code_of_no_lf tab s = refl

module _ (d : Delimiter) where
  until_stop-append :
      (v rest : Text)
      → any (is_stop d) v ≡ false
      → Stops d rest
      → until_stop d (v ++ rest) ≡ (v, rest)
  unfolding until_stop
  until_stop-append [] [] h s = refl
  until_stop-append [] (c ∷ rest) h s = rw s refl
  until_stop-append (c ∷ v) rest h s =
      let (a, b) = or_false (is_stop d c) (any (is_stop d) v) h in
      rw (a, until_stop-append v rest b s) refl

  quoted-append :
      (v rest : Text) → Stops d rest → quoted false (doubled v ++ quote ∷ rest) ≡ (v, rest)
  unfolding quoted
  quoted-append [] [] s = refl
  quoted-append [] (c ∷ rest) s = rw (quote_no_stop d c s) refl
  quoted-append (c ∷ v) rest s = elim (Bool-cases (c == quote)) [
    | inl e ↦ rw (e, (==_iff c quote).0 e, quoted-append v rest s) refl
    | inr e ↦ rw (e, e, quoted-append v rest s) refl
  ]

  take_field-append :
      (v w rest : Text) → Cell d v w → Stops d rest → take_field d (w ++ rest) ≡ (v, rest)
  unfolding take_field
  take_field-append v w [] (plain [] n q) s = refl
  take_field-append v w (c ∷ rest) (plain [] n q) s =
      rw (quote_no_stop d c s, until_stop-append [] (c ∷ rest) n s) refl
  take_field-append v w rest (plain (c ∷ v') n q) s =
      rw (q, until_stop-append (c ∷ v') rest n s) refl
  take_field-append v w rest (in_quotes _) s =
      rw
        (
          append_assoc (doubled v) (quote ∷ []) rest,
          quoted-append v rest s,
          until_stop-append [] rest refl s,
          append-nil v,
        )
        refl

  -- After a delimiter the row goes on, also at the end of the text.
  after_delimiter :
      (fuel : ℕ) (v s : Text) (r : List Text × Text)
      → take_row fuel d s ≡ some r
      → after_field d (take_row fuel d) (v, code_of d ∷ s) ≡ add_field v r
  unfolding take_row take_field
  after_delimiter zero v [] r h = cc
  after_delimiter (suc fuel) v [] r h = rw (code_of_same d) (ap (λ o. o >>= add_field v) h)
  after_delimiter fuel v (e ∷ s) r h = rw (code_of_same d, h) refl

  -- The whole row is read, and its line break is passed.
  pub take_row-append :
      (vs : List Text) (t rest : Text) (fuel : ℕ)
      → Row d vs t
      → Ends rest
      → length t < fuel
      → take_row fuel d (t ++ rest) ≡ some (vs, drop_break rest)
  unfolding take_row
  take_row-append vs t rest zero r e f = absurd (omega arith)
  take_row-append vs t [] (suc fuel) (last v w c) e f = rw (take_field-append v w [] c tt) refl
  take_row-append vs t (c ∷ []) (suc fuel) (last v w x) e f =
      rw (take_field-append v w (c ∷ []) x (break_stop d c e), break_no_code d c e) refl
  take_row-append vs t (c ∷ g ∷ rest) (suc fuel) (last v w x) e f =
      rw (take_field-append v w (c ∷ g ∷ rest) x (break_stop d c e), break_no_code d c e) refl
  take_row-append vs t rest (suc fuel) (next v w ws u c r) e f =
      rw
        (
          append_assoc w (code_of d ∷ u) rest,
          take_field-append v w (code_of d ∷ u ++ rest) c (code_of_stop d),
        )
        (after_delimiter fuel v (u ++ rest) (ws, drop_break rest)
          (take_row-append ws u rest fuel r e (omega (arith, length-append w (code_of d ∷ u)))))
