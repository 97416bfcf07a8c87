-- ===== src/Patch.antt =====
-- src/renderer/content/parsePatch.ts: the parser of unified diffs, line by line. The hunk that is being
-- read, which the source also keeps as the last of its list, stands apart from the finished ones.
pub mod Numbers
pub mod Hunks
pub mod Nearest
mod Tests
use Prim.Native.Nat.{◌*◌}
use agent_cockpit.Base.{
  ℕ, zero, suc, ◌+◌, ◌-◌, Bool, true, false, not, ◌&&◌, ◌||◌, Option, none, some, List, [], ◌∷◌,
  ◌++◌,
}
use agent_cockpit.Base.{
  Text, codes, text_eq, starts_with, if◌then◌else◌, length, drop, leb, ◌==◌, any, ◌>>=◌, is_space,
  trim_start, trim_end,
}

pub data LineKind : Type 0 where
  context : LineKind
  add : LineKind
  del : LineKind
  meta : LineKind

pub record PatchLine : Type 0 where
  pub kind : LineKind
  pub text : Text
  pub old_line : Option ℕ
  pub new_line : Option ℕ

pub record PatchHunk : Type 0 where
  pub header : Text
  pub old_start : ℕ
  pub old_count : ℕ
  pub new_start : ℕ
  pub new_count : ℕ
  pub lines : List PatchLine

pub record ParsedPatch : Type 0 where
  pub from : Option Text
  pub to : Option Text
  pub hunks : List PatchHunk
  pub meta_lines : List Text
  pub binary : Bool

-- The variables of the loop.
pub record State : Type 0 where
  pub from : Option Text
  pub to : Option Text
  pub meta_lines : List Text
  pub binary : Bool
  pub finished : List PatchHunk
  pub current : Option PatchHunk
  pub old_num : ℕ
  pub new_num : ℕ

abbrev pub is_digit : ℕ → Bool
is_digit c = leb 0x30 c && leb c 0x39

-- `\d+`: the number and what follows.
unfoldable pub read_digits : ℕ → Text → ℕ × Text
read_digits n [] = (n, [])
read_digits n (c ∷ cs) =
    let rest = read_digits (n * 10 + (c - 0x30)) cs in if is_digit c then rest else (n, c ∷ cs)

abbrev pub digits : Text → Option (ℕ × Text)
digits [] = none
digits (c ∷ cs) = if is_digit c then some (read_digits 0 (c ∷ cs)) else none

-- A fixed part of the expression.
abbrev pub fixed : Text → Text → Option Text
fixed s cs = if starts_with s cs then some (drop (length s) cs) else none

-- `(?:,(\d+))?`, with the count of 1 that stands for a missing one.
abbrev pub count : Text → Option (ℕ × Text)
count cs = elim (fixed (codes ",") cs) [
  | none ↦ some (1, cs)
  | some ds ↦ elim (digits ds) [ none ↦ some (1, cs) | some r ↦ some r ]
]

-- `.`: no line break.
abbrev pub is_dot : ℕ → Bool
is_dot c = not ((c == 0x0a) || (c == 0x0d) || (c == 0x2028) || (c == 0x2029))

abbrev pub all_dots : Text → Bool
all_dots [] = true
all_dots (c ∷ cs) = is_dot c && all_dots cs

-- `HUNK_RE`, with the numbers it captures.
unfoldable pub match_hunk : Text → Option (ℕ × ℕ × ℕ × ℕ)
match_hunk raw = do
  cs ← fixed (codes "@@ -") raw
  (old_start, cs) ← digits cs
  (old_count, cs) ← count cs
  cs ← fixed (codes " +") cs
  (new_start, cs) ← digits cs
  (new_count, cs) ← count cs
  cs ← fixed (codes " @@") cs
  if all_dots cs then some (old_start, old_count, new_start, new_count) else none

-- `endsWith`
abbrev pub ends_with : Text → Text → Bool
ends_with s [] = length s == 0
ends_with s (c ∷ cs) = text_eq s (c ∷ cs) || ends_with s cs

-- `BINARY_DIFFER_RE`: the two fixed parts do not share a character.
abbrev pub is_binary_line : Text → Bool
is_binary_line raw = elim (fixed (codes "Binary files ") raw) [
  | none ↦ false
  | some rest ↦ ends_with (codes " differ") rest && all_dots raw
]

-- `raw.slice(4).replace(/^a\//, '').trim() || null`, for the prefix of one side.
unfoldable pub file_name : Text → Text → Option Text
file_name prefix raw =
    let path = drop 4 raw in
    let name =
      trim_end (trim_start (if starts_with prefix path then drop (length prefix) path else path)) in
    if length name == 0 then none else some name

abbrev pub is_meta : Text → Bool
is_meta raw =
    any (λ s. starts_with s raw)
      (codes "diff "
        ∷ codes "index "
        ∷ codes "new file"
        ∷ codes "deleted file"
        ∷ codes "similarity index"
        ∷ codes "rename "
        ∷ [])

abbrev pub push_line : PatchLine → PatchHunk → PatchHunk
push_line l h = record h { lines = h.lines ++ l ∷ [] }

-- A line within the hunk `h`.
unfoldable pub hunk_line : Text → PatchHunk → State → State
hunk_line raw h s =
    let tail = drop 1 raw in
    if starts_with (codes "\\ ") raw
    then record s {
      current =
          some (push_line (record { kind = meta; text = raw; old_line = none; new_line = none }) h);
    }
    else if starts_with (codes "+") raw
    then record s {
      current = some (
          push_line (record { kind = add; text = tail; old_line = none; new_line = some s.new_num })
            h);
      new_num = suc s.new_num;
    }
    else if starts_with (codes "-") raw
    then record s {
      current = some (
          push_line (record { kind = del; text = tail; old_line = some s.old_num; new_line = none })
            h);
      old_num = suc s.old_num;
    }
    else if starts_with (codes " ") raw
    then record s {
      current = some (
          push_line
            (record {
              kind = context;
              text = tail;
              old_line = some s.old_num;
              new_line = some s.new_num;
            })
            h);
      old_num = suc s.old_num;
      new_num = suc s.new_num;
    }
    else s

abbrev pub hunks_of : List PatchHunk → Option PatchHunk → List PatchHunk
hunks_of finished none = finished
hunks_of finished (some h) = finished ++ h ∷ []

-- The start of a hunk, or a line of the current one.
abbrev pub hunk_step : Text → State → Option (ℕ × ℕ × ℕ × ℕ) → State
hunk_step raw s (some (old_start, old_count, new_start, new_count)) = record s {
  finished = hunks_of s.finished s.current;
  current = some (record {
    header = raw;
    old_start = old_start;
    old_count = old_count;
    new_start = new_start;
    new_count = new_count;
    lines = [];
  });
  old_num = old_start;
  new_num = new_start;
}
hunk_step raw s none = elim s.current [ none ↦ s | some h ↦ hunk_line raw h s ]

-- One round of the loop.
unfoldable pub step : Text → State → State
step raw s =
    if starts_with (codes "--- ") raw
    then record s { from = file_name (codes "a/") raw; meta_lines = s.meta_lines ++ raw ∷ [] }
    else if starts_with (codes "+++ ") raw
    then record s { to = file_name (codes "b/") raw; meta_lines = s.meta_lines ++ raw ∷ [] }
    else if is_meta raw
    then record s { meta_lines = s.meta_lines ++ raw ∷ [] }
    else if is_binary_line raw
    then record s { meta_lines = s.meta_lines ++ raw ∷ []; binary = true }
    else hunk_step raw s (match_hunk raw)

unfoldable pub steps : List Text → State → State
steps [] s = s
steps (raw ∷ lines) s = steps lines (step raw s)

-- `split('\n')`
unfoldable pub split_lines : Text → List Text
split_lines [] = [] ∷ []
split_lines (c ∷ cs) = elim (split_lines cs) [
  | [] ↦ []
  | (l ∷ ls) ↦ if c == 0x0a then [] ∷ l ∷ ls else (c ∷ l) ∷ ls
]

abbrev pub start : State
start = record {
  from = none;
  to = none;
  meta_lines = [];
  binary = false;
  finished = [];
  current = none;
  old_num = 0;
  new_num = 0;
}

unfoldable pub parse_patch : Text → ParsedPatch
parse_patch patch =
    let s = steps (split_lines patch) start in
    record {
      from = s.from;
      to = s.to;
      hunks = hunks_of s.finished s.current;
      meta_lines = s.meta_lines;
      binary = s.binary;
    }
