-- ===== src/Tabular.antt =====
-- src/renderer/content/tabular/tabularCore.ts: the parser of delimited text. A position in the text is
-- the rest of the text from there, and a slice is the list of its code units.
pub mod Grammar
pub mod Fields
pub mod Reads
pub mod Total
mod Tests
use agent_cockpit.Base.{
  ℕ, zero, suc, Bool, true, false, ◌||◌, Option, none, some, List, [], ◌∷◌, ◌++◌, length,
}
use agent_cockpit.Base.{Text, ◌==◌, if◌then◌else◌, ◌>>=◌}

pub data Delimiter : Type 0 where
  comma tab : Delimiter

abbrev pub code_of : Delimiter → ℕ
code_of comma = 44
code_of tab = 9

abbrev pub quote : ℕ
quote = 34

abbrev pub lf : ℕ
lf = 10

abbrev pub cr : ℕ
cr = 13

abbrev pub bom : ℕ
bom = 0xfeff

-- `c === D || c === LF || c === CR`
abbrev pub is_stop : Delimiter → ℕ → Bool
is_stop d c = c == code_of d || (c == lf || c == cr)

-- The scan for the end of a field: what is passed, and the rest from the stop on.
unfoldable pub until_stop : Delimiter → Text → Text × Text
until_stop d [] = ([], [])
until_stop d (c ∷ s) =
    let (passed, rest) = until_stop d s in if is_stop d c then ([], c ∷ s) else (c ∷ passed, rest)

-- The loop over a quoted field from after a quote, and whether it stands right after a second quote that
-- is not doubled yet: the value, and the rest after the closing quote.
unfoldable pub quoted : Bool → Text → Text × Text
quoted after_quote [] = ([], [])
quoted false (c ∷ s) =
    let (out, rest) = quoted (c == quote) s in if c == quote then (out, rest) else (c ∷ out, rest)
quoted true (c ∷ s) =
    let (out, rest) = quoted false s in if c == quote then (quote ∷ out, rest) else ([], c ∷ s)

-- Text after a closing quote is kept.
abbrev pub quoted_field : Delimiter → Text × Text → Text × Text
quoted_field d (out, s) = let (more, rest) = until_stop d s in (out ++ more, rest)

unfoldable pub take_field : Delimiter → Text → Text × Text
take_field d [] = ([], [])
take_field d (c ∷ s) = if c == quote then quoted_field d (quoted false s) else until_stop d (c ∷ s)

-- `i += c === CR && text.charCodeAt(i + 1) === LF ? 2 : 1`
abbrev pub drop_lf : Text → Text
drop_lf [] = []
drop_lf (c ∷ s) = if c == lf then s else c ∷ s

abbrev pub drop_break : Text → Text
drop_break [] = []
drop_break (c ∷ s) = if c == cr then drop_lf s else s

abbrev pub add_field : Text → List Text × Text → Option (List Text × Text)
add_field f (fs, rest) = some (f ∷ fs, rest)

-- After the code unit that ends a field, before the end of the text: `next` reads the rest of the row.
abbrev pub after_code :
    Bool → (Text → Option (List Text × Text)) → Text → ℕ → Text → Option (List Text × Text)
after_code true next f c s = next s >>= add_field f
after_code false next f c s = some (f ∷ [], drop_break (c ∷ s))

-- What follows a field: the end, the delimiter (an empty field follows one at the end), or a line break.
abbrev pub after_field :
    Delimiter → (Text → Option (List Text × Text)) → Text × Text → Option (List Text × Text)
after_field d next (f, []) = some (f ∷ [], [])
after_field d next (f, c ∷ []) =
    if c == code_of d then some (f ∷ [] ∷ [], []) else some (f ∷ [], drop_break (c ∷ []))
after_field d next (f, c ∷ e ∷ s) = after_code (c == code_of d) next f c (e ∷ s)

-- The loop over the fields of a row, on fuel: the row, and the rest after its line break.
unfoldable pub take_row : ℕ → Delimiter → Text → Option (List Text × Text)
take_row zero d s = none
take_row (suc fuel) d s = after_field d (take_row fuel d) (take_field d s)

abbrev pub is_blank : List Text → Bool
is_blank [] = false
is_blank (f ∷ []) = length f == 0
is_blank (f ∷ g ∷ fs) = false

abbrev pub push_row : List Text → List (List Text) → Option (List (List Text))
push_row row rows = some (if is_blank row then rows else row ∷ rows)

-- The loop over the rows, on fuel.
unfoldable pub take_rows : ℕ → Delimiter → Text → Option (List (List Text))
take_rows zero d s = none
take_rows (suc fuel) d [] = some []
take_rows (suc fuel) d (c ∷ s) =
    take_row (suc (length (c ∷ s))) d (c ∷ s) >>= λ r. take_rows fuel d r.1 >>= push_row r.0

abbrev pub skip_bom : Text → Text
skip_bom [] = []
skip_bom (c ∷ s) = if c == bom then s else c ∷ s

unfoldable pub parse_delimited : Text → Delimiter → Option (List (List Text))
parse_delimited text d = let s = skip_bom text in take_rows (suc (length s)) d s
