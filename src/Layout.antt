-- ===== src/Layout.antt =====
-- src/shared/tmux/layout.ts: the parser of tmux's window layouts. A cursor is the text from it on; a
-- parser answers nothing where the source throws. Numbers are read without a bound.
pub mod Grammar
mod Tests
use Prim.Native.Nat.{◌*◌}
use agent_cockpit.Base.{
  ℕ, zero, suc, ◌+◌, ◌-◌, Bool, true, false, not, ◌&&◌, ◌||◌, Option, none, some, List, [], ◌∷◌,
  ◌++◌,
}
use agent_cockpit.Base.{Text, if◌then◌else◌, length, leb, ◌==◌, ◌>>=◌}

pub data LayoutDir : Type 0 where
  lr : LayoutDir
  tb : LayoutDir

-- A pane is its number `n`, for the identifier `%n`; nothing for the empty identifier.
mutual
  pub data LayoutNode : Type 0 where
    leaf : Option ℕ → ℕ → ℕ → ℕ → ℕ → LayoutNode
    split : LayoutDir → ℕ → ℕ → ℕ → ℕ → LayoutNodes → LayoutNode

  pub data LayoutNodes : Type 0 where
    nil : LayoutNodes
    cons : LayoutNode → LayoutNodes → LayoutNodes

pub record WindowLayout : Type 0 where
  pub checksum : Text
  pub root : LayoutNode

-- The characters.
abbrev pub comma : ℕ
comma = 0x2c

abbrev pub letter_x : ℕ
letter_x = 0x78

abbrev pub opening : LayoutDir → ℕ
opening lr = 0x7b
opening tb = 0x5b

abbrev pub closing : LayoutDir → ℕ
closing lr = 0x7d
closing tb = 0x5d

abbrev pub is_digit : ℕ → Bool
is_digit c = leb 0x30 c && leb c 0x39

-- `peek(cur) === ch`
abbrev pub peeks : ℕ → Text → Bool
peeks ch [] = false
peeks ch (c ∷ cs) = c == ch

unfoldable pub expect : ℕ → Text → Option Text
expect ch [] = none
expect ch (c ∷ cs) = if c == ch then some cs else none

-- The loop of `readUint`, from the value of the digits so far.
unfoldable pub read_digits : ℕ → Text → ℕ × Text
read_digits n [] = (n, [])
read_digits n (c ∷ cs) =
    let rest = read_digits (n * 10 + (c - 0x30)) cs in if is_digit c then rest else (n, c ∷ cs)

unfoldable pub read_uint : Text → Option (ℕ × Text)
read_uint [] = none
read_uint (c ∷ cs) = if is_digit c then some (read_digits 0 (c ∷ cs)) else none

pub record Geometry : Type 0 where
  pub w : ℕ
  pub h : ℕ
  pub x : ℕ
  pub y : ℕ

-- `WxH,x,y`
unfoldable pub read_geometry : Text → Option (Geometry × Text)
read_geometry cs = do
  (w, cs) ← read_uint cs
  cs ← expect letter_x cs
  (h, cs) ← read_uint cs
  cs ← expect comma cs
  (x, cs) ← read_uint cs
  cs ← expect comma cs
  (y, cs) ← read_uint cs
  some (record { w = w; h = h; x = x; y = y }, cs)

-- The directions that a cell's children may be laid out in.
abbrev pub direction : Text → Option LayoutDir
direction [] = none
direction (c ∷ cs) = if c == opening lr then some lr else if c == opening tb then some tb else none

-- A cell without children: its pane, if a comma follows.
abbrev pub leaf_from : Geometry → Text → Option (LayoutNode × Text)
leaf_from g cs =
    if peeks comma cs
    then (do
      cs ← expect comma cs
      (pane_index, cs) ← read_uint cs
      some (leaf (some pane_index) g.w g.h g.x g.y, cs))
    else some (leaf none g.w g.h g.x g.y, cs)

-- `parseCell` and the loop over the children after the first, on fuel for the characters.
unfoldable mutual
  pub parse_cell : ℕ → Text → Option (LayoutNode × Text)
  parse_cell zero cs = none
  parse_cell (suc fuel) cs = do
    (g, cs) ← read_geometry cs
    elim (direction cs) [
      | none ↦ leaf_from g cs
      | some dir ↦ do
        cs ← expect (opening dir) cs
        (first, cs) ← parse_cell fuel cs
        (others, cs) ← parse_others fuel cs
        cs ← expect (closing dir) cs
        some (split dir g.w g.h g.x g.y (cons first others), cs)
    ]

  pub parse_others : ℕ → Text → Option (LayoutNodes × Text)
  parse_others zero cs = none
  parse_others (suc fuel) cs = elim (expect comma cs) [
    | none ↦ some (nil, cs)
    | some cs ↦ do
      (node, cs) ← parse_cell fuel cs
      (others, cs) ← parse_others fuel cs
      some (cons node others, cs)
  ]

-- The characters up to the first comma, and those from it on.
unfoldable pub read_checksum : Text → Text × Text
read_checksum [] = ([], [])
read_checksum (c ∷ cs) =
    let (checksum, rest) = read_checksum cs in
    if c == comma then ([], c ∷ cs) else (c ∷ checksum, rest)

unfoldable pub parse_layout : Text → Option WindowLayout
parse_layout layout = do
  let (checksum, cs) = read_checksum layout
  cs ← if length checksum == 0 then none else expect comma cs
  (root, cs) ← parse_cell (suc (length layout)) cs
  if length cs == 0 then some (record { checksum = checksum; root = root }) else none
