-- ===== src/Layout/Tests.antt =====
-- Windows of panes side by side.
use agent_cockpit.Base.{◌≡◌, refl, none, some, [], codes, Text, arith}
use agent_cockpit.Layout.{
  LayoutNode, leaf, split, lr, nil, cons, expect, read_digits, read_uint, read_geometry, parse_cell,
  read_checksum, parse_layout,
}
use agent_cockpit.Layout.Grammar.{Cell, pane, bare, group, last, more, geo, parse_layout-Cell}

program : Unit {0}
unfolding expect read_digits read_uint read_geometry parse_cell read_checksum parse_layout
program = tt

abbrev tree : LayoutNode
tree =
    split lr 9 4 0 0
      (cons (leaf (some 1) 4 4 0 0) (cons (leaf (some 12) 4 4 5 0) (cons (leaf none 4 4 7 0) nil)))

abbrev cell : Text
cell = codes "9x4,0,0{4x4,0,0,1,4x4,5,0,12,4x4,7,0}"

parsed :
    parse_layout (codes "ab,9x4,0,0{4x4,0,0,1,4x4,5,0,12,4x4,7,0}")
    ≡ some (record { checksum = codes "ab"; root = tree })
unfolding program
parsed = refl

-- A trailing character is refused.
refused : parse_layout (codes "ab,9x4,0,0}") ≡ none
unfolding program
refused = refl

-- The grammar that the source documents has this text: a bare cell before a comma. The parser takes the width after
-- the comma for the pane, and refuses.
bare_refused : parse_layout (codes "aaaa,80x24,0,0{40x24,0,0,40x24,40,0}") ≡ none
unfolding program
bare_refused = refl

-- A bare cell at the end of a group is read, and its pane is none.
bare_last :
    parse_layout (codes "ab,9x4,0,0{4x4,0,0,1,4x4,5,0}")
    ≡ some (record {
      checksum = codes "ab";
      root = split lr 9 4 0 0 (cons (leaf (some 1) 4 4 0 0) (cons (leaf none 4 4 5 0) nil));
    })
unfolding program
bare_last = refl

cell-Cell : Cell tree cell []
cell-Cell =
    group lr _ _ _ _ _ _ []
      (geo (codes "9") (codes "4") (codes "0") (codes "0") _ (omega arith, (refl, tt))
        (omega arith, (refl, tt)) (omega arith, (refl, tt)) (omega arith, (refl, tt)) refl)
      (pane _ _ (codes "1") _
        (geo (codes "4") (codes "4") (codes "0") (codes "0") _ (omega arith, (refl, tt))
          (omega arith, (refl, tt)) (omega arith, (refl, tt)) (omega arith, (refl, tt)) refl)
        (omega arith, (refl, tt)) refl)
      (more _ _ _ _ _
        (pane _ _ (codes "12") _
          (geo (codes "4") (codes "4") (codes "5") (codes "0") _ (omega arith, (refl, tt))
            (omega arith, (refl, tt)) (omega arith, (refl, tt)) (omega arith, (refl, tt)) refl)
          (omega arith, (refl, (refl, tt))) refl)
        (more _ _ _ _ _
          (bare _ _ _
            (geo (codes "4") (codes "4") (codes "7") (codes "0") _ (omega arith, (refl, tt))
              (omega arith, (refl, tt)) (omega arith, (refl, tt)) (omega arith, (refl, tt)) refl)
            refl)
          (last lr [])))

parse_layout-Cell_example :
    parse_layout (codes "ab,9x4,0,0{4x4,0,0,1,4x4,5,0,12,4x4,7,0}")
    ≡ some (record { checksum = codes "ab"; root = tree })
parse_layout-Cell_example =
    parse_layout-Cell 0x61 (codes "b") cell tree (refl, (refl, tt)) cell-Cell
