-- ===== src/Tabular/Grammar.antt =====
-- How a table may be written: the grammar of RFC 4180, with the line breaks of every system.
use agent_cockpit.Base.{◌≡◌, Bool, false, List, [], ◌∷◌, ◌++◌, any}
use agent_cockpit.Base.{Text, ◌==◌, if◌then◌else◌}
use agent_cockpit.Tabular.{Delimiter, code_of, quote, lf, cr, is_stop, is_blank}

abbrev pub starts_quoted : Text → Bool
starts_quoted [] = false
starts_quoted (c ∷ s) = c == quote

-- Every quote twice.
abbrev pub doubled : Text → Text
doubled [] = []
doubled (c ∷ s) = if c == quote then quote ∷ quote ∷ doubled s else c ∷ doubled s

-- A value, as it stands or in quotes.
pub data Cell (d : Delimiter) : Text → Text → Type 0 where
  plain : (v : Text) → any (is_stop d) v ≡ false → starts_quoted v ≡ false → Cell d v v
  in_quotes : (v : Text) → Cell d v (quote ∷ doubled v ++ quote ∷ [])

pub data Row (d : Delimiter) : List Text → Text → Type 0 where
  last : (v w : Text) → Cell d v w → Row d (v ∷ []) w
  next :
      (v w : Text) (vs : List Text) (t : Text)
      → Cell d v w
      → Row d vs t
      → Row d (v ∷ vs) (w ++ code_of d ∷ t)

pub data Break : Text → Type 0 where
  unix : Break (lf ∷ [])
  windows : Break (cr ∷ lf ∷ [])
  classic : Break (cr ∷ [])

-- The rows, none of them of one empty value; the last may end without a line break.
pub data Table (d : Delimiter) : List (List Text) → Text → Type 0 where
  nothing : Table d [] []
  final : (r : List Text) (t : Text) → Row d r t → is_blank r ≡ false → Table d (r ∷ []) t
  more :
      (r : List Text) (t b : Text) (rs : List (List Text)) (u : Text)
      → Row d r t
      → is_blank r ≡ false
      → Break b
      → Table d rs u
      → Table d (r ∷ rs) (t ++ b ++ u)
