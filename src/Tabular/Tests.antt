-- ===== src/Tabular/Tests.antt =====
-- The parser of delimited text on small tables.
use agent_cockpit.Base.{◌≡◌, refl, true, some, List, [], ◌∷◌, ◌++◌, Text, codes, is_some}
use agent_cockpit.Tabular.{
  comma, tab, quote, lf, cr, bom, until_stop, quoted, take_field, take_row, take_rows,
  parse_delimited,
}
use agent_cockpit.Tabular.Grammar.{last, next, plain, in_quotes, Table, more, final, windows}
use agent_cockpit.Tabular.Reads.{parse_delimited-Table}
use agent_cockpit.Tabular.Total.{parse_delimited_total}

-- Two records, one with a quoted comma and a doubled quote.
abbrev written : Text
written = codes "a,b" ++ cr ∷ lf ∷ codes "\"x,\"\"y\"," ++ []

abbrev table : List (List Text)
table = (codes "a" ∷ codes "b" ∷ []) ∷ (codes "x,\"y" ∷ [] ∷ []) ∷ []

parse_run : parse_delimited (bom ∷ written) comma ≡ some table
unfolding parse_delimited take_rows take_row take_field quoted until_stop
parse_run = refl

-- Lenient: an open quote, text after a closing quote, blank lines, rows of unequal length.
lenient_run :
    parse_delimited (lf ∷ codes "\"a\"b\tc" ++ lf ∷ lf ∷ codes "d" ++ cr ∷ codes "\"e\t") tab
    ≡ some ((codes "ab" ∷ codes "c" ∷ []) ∷ (codes "d" ∷ []) ∷ (codes "e\t" ∷ []) ∷ [])
unfolding parse_delimited take_rows take_row take_field quoted until_stop
lenient_run = refl

table-written : Table comma table written
table-written =
    more (codes "a" ∷ codes "b" ∷ []) (codes "a,b") (cr ∷ lf ∷ []) ((codes "x,\"y" ∷ [] ∷ []) ∷ [])
      (codes "\"x,\"\"y\",")
      (next (codes "a") (codes "a") (codes "b" ∷ []) (codes "b") (plain (codes "a") refl refl)
        (last (codes "b") (codes "b") (plain (codes "b") refl refl)))
      refl windows
      (final (codes "x,\"y" ∷ [] ∷ []) (codes "\"x,\"\"y\",")
        (next (codes "x,\"y") (codes "\"x,\"\"y\"") ([] ∷ []) [] (in_quotes (codes "x,\"y"))
          (last [] [] (plain [] refl refl)))
        refl)

parse_delimited-Table_example : parse_delimited (bom ∷ written) comma ≡ some table
parse_delimited-Table_example =
    parse_delimited-Table comma table (bom ∷ written) written refl table-written

parse_delimited_total_example : is_some (parse_delimited (quote ∷ []) comma) ≡ true
parse_delimited_total_example = parse_delimited_total (quote ∷ []) comma
