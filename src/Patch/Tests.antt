-- ===== src/Patch/Tests.antt =====
-- A hunk of one context line, one deletion and one addition.
use agent_cockpit.Base.{ℕ, ◌≡◌, refl, false, Option, none, some, [], ◌∷◌, ◌++◌, codes, Text, All}
use agent_cockpit.Base.Maps
use agent_cockpit.Patch.{
  context, add, del, PatchHunk, read_digits, match_hunk, file_name, hunk_line, step, steps,
  split_lines, parse_patch,
}
use agent_cockpit.Patch.Numbers.{IsNumbered, parse_patch-IsNumbered}
use agent_cockpit.Patch.Hunks.{
  nearest_from, new_of, nearest_new_context, add_hunk_lines, changed_from, changed_lines_from_patch,
  range_from, map_hunks_from,
}
use agent_cockpit.Patch.Nearest.{IsNearest, nearest_new_context-IsNearest}

program : Unit {0}
unfolding read_digits match_hunk file_name hunk_line step steps split_lines parse_patch nearest_from
    nearest_new_context add_hunk_lines changed_from range_from map_hunks_from Maps.get Maps.set
program = tt

abbrev newline : Text
newline = 0x0a ∷ []

abbrev patch : Text
patch =
    codes "--- a/x"
    ++ newline
    ++ codes "+++ b/x"
    ++ newline
    ++ codes "@@ -4,2 +7,2 @@ f"
    ++ newline
    ++ codes " c"
    ++ newline
    ++ codes "-d"
    ++ newline
    ++ codes "+a"

abbrev hunk : PatchHunk
hunk = record {
  header = codes "@@ -4,2 +7,2 @@ f";
  old_start = 4;
  old_count = 2;
  new_start = 7;
  new_count = 2;
  lines =
      record { kind = context; text = codes "c"; old_line = some 4; new_line = some 7 }
      ∷ record { kind = del; text = codes "d"; old_line = some 5; new_line = none }
      ∷ record { kind = add; text = codes "a"; old_line = none; new_line = some 8 }
      ∷ [];
}

parsed : parse_patch patch ≡ record {
  from = some (codes "x");
  to = some (codes "x");
  hunks = hunk ∷ [];
  meta_lines = codes "--- a/x" ∷ codes "+++ b/x" ∷ [];
  binary = false;
}
unfolding program
parsed = refl

changed : changed_lines_from_patch (parse_patch patch) ≡ 7 ∷ 8 ∷ []
unfolding program
changed = refl

-- A deleted line that starts with two dashes and a space is taken for the name of the old file.
dashes_lost :
    (parse_patch
      (codes "@@ -1,2 +1,1 @@" ++ newline ++ codes "--- x" ++ newline ++ codes " c")).hunks
    ≡ record {
      header = codes "@@ -1,2 +1,1 @@";
      old_start = 1;
      old_count = 2;
      new_start = 1;
      new_count = 1;
      lines =
          record { kind = context; text = codes "c"; old_line = some 1; new_line = some 1 } ∷ [];
    }
      ∷ []
unfolding program
dashes_lost = refl

parse_patch-IsNumbered_example : All IsNumbered (parse_patch patch).hunks
parse_patch-IsNumbered_example = parse_patch-IsNumbered patch

nearest_new_context-IsNearest_example :
    (best : Option (ℕ × ℕ)) × (nearest_new_context hunk 5 ≡ new_of best)
    × IsNearest 5 hunk.lines best
nearest_new_context-IsNearest_example = nearest_new_context-IsNearest hunk 5
