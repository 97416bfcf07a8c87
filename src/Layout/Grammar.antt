-- ===== src/Layout/Grammar.antt =====
-- The grammar of window layouts, and that the parser reads it.
use Prim.Native.Nat.{◌*◌}
use agent_cockpit.Base.{
  ℕ, zero, suc, ◌+◌, ◌-◌, ◌≤◌, ◌<◌, ◌≡◌, refl, ap, Bool, true, false, not, ◌||◌, none, some, [],
  ◌∷◌, ◌++◌,
}
use agent_cockpit.Base.{Text, arith, length, length-append, ◌==◌, All}
use agent_cockpit.Layout.{
  LayoutDir, lr, tb, LayoutNode, leaf, split, LayoutNodes, nil, cons, comma, letter_x, opening,
  closing, is_digit, expect, read_digits, read_uint,
}
use agent_cockpit.Layout.{
  Geometry, read_geometry, parse_cell, parse_others, read_checksum, parse_layout,
}

-- The number that digits write, behind those before.
abbrev pub value : ℕ → Text → ℕ
value n [] = n
value n (c ∷ cs) = value (n * 10 + (c - 0x30)) cs

abbrev pub IsNumeral : Text → Type 0
IsNumeral ds = (0 < length ds) × All (λ c. is_digit c ≡ true) ds

-- No digit follows.
abbrev pub no_digit : Text → Bool
no_digit [] = true
no_digit (c ∷ cs) = not (is_digit c)

-- A text that starts with a geometry, and what follows it.
pub data Geo : Geometry → Text → Text → Type 0 where
  geo :
      (w h x y r : Text)
      → IsNumeral w
      → IsNumeral h
      → IsNumeral x
      → IsNumeral y
      → no_digit r ≡ true
      → Geo
          (record { w = value 0 w; h = value 0 h; x = value 0 x; y = value 0 y })
          (w ++ letter_x ∷ (h ++ comma ∷ (x ++ comma ∷ (y ++ r))))
          r

-- What follows a geometry belongs to its cell.
abbrev pub goes_on : Text → Bool
goes_on [] = false
goes_on (c ∷ cs) = c == comma || (c == opening lr || c == opening tb)

-- A text that starts with a cell, or with cells that each follow a comma, and what follows. A bare cell, which
-- names no pane, ends the text or its group: the number after a comma would be its pane.
mutual
  pub data Cell : LayoutNode → Text → Text → Type 0 where
    pane :
        (g : Geometry) (cs ds r : Text)
        → Geo g cs (comma ∷ (ds ++ r))
        → IsNumeral ds
        → no_digit r ≡ true
        → Cell (leaf (some (value 0 ds)) g.w g.h g.x g.y) cs r
    bare :
        (g : Geometry) (cs r : Text)
        → Geo g cs r
        → goes_on r ≡ false
        → Cell (leaf none g.w g.h g.x g.y) cs r
    group :
        (dir : LayoutDir) (g : Geometry) (first : LayoutNode) (others : LayoutNodes)
        (cs ds es r : Text)
        → Geo g cs (opening dir ∷ ds)
        → Cell first ds es
        → Others others es (closing dir ∷ r)
        → Cell (split dir g.w g.h g.x g.y (cons first others)) cs r

  pub data Others : LayoutNodes → Text → Text → Type 0 where
    last : (dir : LayoutDir) (r : Text) → Others nil (closing dir ∷ r) (closing dir ∷ r)
    more :
        (node : LayoutNode) (others : LayoutNodes) (cs ds r : Text)
        → Cell node cs ds
        → Others others ds r
        → Others (cons node others) (comma ∷ cs) r

read_digits_lem :
    (n : ℕ) (ds r : Text)
    → All (λ c. is_digit c ≡ true) ds
    → no_digit r ≡ true
    → read_digits n (ds ++ r) ≡ (value n ds, r)
unfolding read_digits
read_digits_lem n [] [] a h = refl
read_digits_lem n [] (c ∷ r) a h = let e : is_digit c ≡ false = ground (arith, h) in rw e refl
read_digits_lem n (d ∷ ds) r (here, later) h =
    rw here (read_digits_lem (n * 10 + (d - 0x30)) ds r later h)

read_uint_lem :
    (ds r : Text) → IsNumeral ds → no_digit r ≡ true → read_uint (ds ++ r) ≡ some (value 0 ds, r)
unfolding read_uint
read_uint_lem [] r (some_digit, a) h = absurd (omega arith)
read_uint_lem (d ∷ ds) r (_, a) h = rw (a.0) (ap some (read_digits_lem 0 (d ∷ ds) r a h))

read_geometry_lem : (g : Geometry) (cs r : Text) → Geo g cs r → read_geometry cs ≡ some (g, r)
unfolding read_geometry expect
read_geometry_lem _ _ r (geo w h x y _ nw nh nx ny stop) =
    rw
      (
        read_uint_lem w _ nw refl,
        read_uint_lem h _ nh refl,
        read_uint_lem x _ nx refl,
        read_uint_lem y r ny stop,
      )
      refl

length-Geo : (g : Geometry) (cs r : Text) → Geo g cs r → length r < length cs
length-Geo _ _ r (geo w h x y _ nw nh nx ny stop) = omega (
  arith,
  length-append w (letter_x ∷ (h ++ comma ∷ (x ++ comma ∷ (y ++ r)))),
  length-append h (comma ∷ (x ++ comma ∷ (y ++ r))),
  length-append x (comma ∷ (y ++ r)),
  length-append y r,
)

mutual
  length-Cell : (node : LayoutNode) (cs r : Text) → Cell node cs r → length r < length cs
  length-Cell _ cs r (pane g _ ds _ w nd stop) =
      omega (arith, length-Geo g cs (comma ∷ (ds ++ r)) w, length-append ds r)
  length-Cell _ cs r (bare g _ _ w over) = length-Geo g cs r w
  length-Cell _ cs r (group dir g first others _ ds es _ w c o) = omega (
    arith,
    length-Geo g cs (opening dir ∷ ds) w,
    length-Cell first ds es c,
    length-Others others es (closing dir ∷ r) o,
  )

  length-Others : (nodes : LayoutNodes) (cs r : Text) → Others nodes cs r → length r ≤ length cs
  length-Others _ _ _ (last dir r) = omega arith
  length-Others _ _ r (more node others cs ds _ c o) =
      omega (arith, length-Cell node cs ds c, length-Others others ds r o)

expect_lem : (ch : ℕ) (cs : Text) → expect ch (ch ∷ cs) ≡ some cs
unfolding expect
expect_lem ch cs = let e : (ch == ch) ≡ true = ground arith in rw e refl

-- The steps of the parser on each form of cell.
parse_pane :
    (fuel : ℕ) (g : Geometry) (cs ds r : Text)
    → Geo g cs (comma ∷ (ds ++ r))
    → IsNumeral ds
    → no_digit r ≡ true
    → parse_cell (suc fuel) cs ≡ some (leaf (some (value 0 ds)) g.w g.h g.x g.y, r)
unfolding parse_cell
parse_pane fuel g cs ds r w nd stop =
    rw
      (
        read_geometry_lem g cs (comma ∷ (ds ++ r)) w,
        expect_lem comma (ds ++ r),
        read_uint_lem ds r nd stop,
      )
      refl

parse_bare :
    (fuel : ℕ) (g : Geometry) (cs r : Text)
    → Geo g cs r
    → goes_on r ≡ false
    → parse_cell (suc fuel) cs ≡ some (leaf none g.w g.h g.x g.y, r)
unfolding parse_cell
parse_bare fuel g cs [] w over = rw (read_geometry_lem g cs [] w) refl
parse_bare fuel g cs (c ∷ r) w over = ground (arith, read_geometry_lem g cs (c ∷ r) w)

parse_group :
    (fuel : ℕ) (dir : LayoutDir) (g : Geometry) (first : LayoutNode) (others : LayoutNodes)
    (cs ds es r : Text)
    → Geo g cs (opening dir ∷ ds)
    → parse_cell fuel ds ≡ some (first, es)
    → parse_others fuel es ≡ some (others, closing dir ∷ r)
    → parse_cell (suc fuel) cs ≡ some (split dir g.w g.h g.x g.y (cons first others), r)
unfolding parse_cell expect
parse_group fuel lr g first others cs ds es r w pc po =
    rw (read_geometry_lem g cs (opening lr ∷ ds) w, pc, po) refl
parse_group fuel tb g first others cs ds es r w pc po =
    rw (read_geometry_lem g cs (opening tb ∷ ds) w, pc, po) refl

parse_last :
    (fuel : ℕ) (dir : LayoutDir) (r : Text)
    → parse_others (suc fuel) (closing dir ∷ r) ≡ some (nil, closing dir ∷ r)
unfolding parse_cell expect
parse_last fuel lr r = refl
parse_last fuel tb r = refl

parse_more :
    (fuel : ℕ) (node : LayoutNode) (others : LayoutNodes) (cs ds r : Text)
    → parse_cell fuel cs ≡ some (node, ds)
    → parse_others fuel ds ≡ some (others, r)
    → parse_others (suc fuel) (comma ∷ cs) ≡ some (cons node others, r)
unfolding parse_cell expect
parse_more fuel node others cs ds r pc po = rw (parse_others, pc, po) refl

mutual
  parse_cell-Cell :
      (fuel : ℕ) (node : LayoutNode) (cs r : Text)
      → Cell node cs r
      → length cs < fuel
      → parse_cell fuel cs ≡ some (node, r)
  parse_cell-Cell zero node cs r c h = absurd (omega arith)
  parse_cell-Cell (suc fuel) _ cs r (pane g _ ds _ w nd stop) h =
      parse_pane fuel g cs ds r w nd stop
  parse_cell-Cell (suc fuel) _ cs r (bare g _ _ w over) h = parse_bare fuel g cs r w over
  parse_cell-Cell (suc fuel) _ cs r (group dir g first others _ ds es _ w c o) h =
      let short : length (opening dir ∷ ds) < length cs = length-Geo g cs (opening dir ∷ ds) w in
      let left : length es < length ds = length-Cell first ds es c in
      parse_group fuel dir g first others cs ds es r w
        (parse_cell-Cell fuel first ds es c (omega arith))
        (parse_others-Others fuel others es (closing dir ∷ r) o (omega arith))

  parse_others-Others :
      (fuel : ℕ) (nodes : LayoutNodes) (cs r : Text)
      → Others nodes cs r
      → length cs < fuel
      → parse_others fuel cs ≡ some (nodes, r)
  parse_others-Others zero nodes cs r o h = absurd (omega arith)
  parse_others-Others (suc fuel) _ _ _ (last dir r) h = parse_last fuel dir r
  parse_others-Others (suc fuel) _ _ r (more node others cs ds _ c o) h =
      let left : length ds < length cs = length-Cell node cs ds c in
      parse_more fuel node others cs ds r (parse_cell-Cell fuel node cs ds c (omega arith))
        (parse_others-Others fuel others ds r o (omega arith))

read_checksum_lem :
    (s r : Text)
    → All (λ c. (c == comma) ≡ false) s
    → read_checksum (s ++ comma ∷ r) ≡ (s, comma ∷ r)
unfolding read_checksum
read_checksum_lem [] r a = refl
read_checksum_lem (c ∷ s) r (here, later) =
    rw here (ap (λ p. (c ∷ p.0, p.1)) (read_checksum_lem s r later))

-- A text of cells, behind a checksum that is not empty and has no comma, is parsed into the tree that it
-- writes, however deep the splits are. A cell that names no pane stands last in the text or in its group:
-- what follows it would be read as its pane.
pub parse_layout-Cell :
    (c : ℕ) (s cs : Text) (root : LayoutNode)
    → All (λ c. (c == comma) ≡ false) (c ∷ s)
    → Cell root cs []
    → parse_layout ((c ∷ s) ++ comma ∷ cs) ≡ some (record { checksum = c ∷ s; root = root })
unfolding parse_layout
parse_layout-Cell c s cs root a w =
    let layout : Text = (c ∷ s) ++ comma ∷ cs in
    let enough : length cs < suc (length layout) =
      omega (arith, length-append (c ∷ s) (comma ∷ cs)) in
    let some_checksum : (length (c ∷ s) == 0) ≡ false = ground arith in
    rw
      (
        read_checksum_lem (c ∷ s) cs a,
        some_checksum,
        expect_lem comma cs,
        parse_cell-Cell (suc (length layout)) root cs [] w enough,
      )
      refl
