-- ===== src/Control.antt =====
-- src/shared/tmux/parser.ts: the parser of tmux's control mode. `Number`, with the -1 for what is no
-- finite number, is a parameter: the parser only passes its value on.
pub mod Wrapper
pub mod Chunking
pub mod Blocks
mod Tests
use agent_cockpit.Base.{
  ℕ, zero, suc, ◌+◌, ◌-◌, Bool, true, false, not, ◌&&◌, ◌||◌, Option, none, some, List, [], ◌∷◌,
  ◌++◌,
}
use agent_cockpit.Base.{
  Text, codes, text_eq, starts_with, if◌then◌else◌, length, get_elem?, drop, ltb, ◌==◌, map,
}
use agent_cockpit.Codec.{decode_output}
use agent_cockpit.Layout.{WindowLayout, parse_layout}

pub data TmuxNotification (N : Type 0) : Type 0 where
  output : Text → List ℕ → TmuxNotification N
  window_add : Text → TmuxNotification N
  unlinked_window_add : Text → TmuxNotification N
  window_close : Text → TmuxNotification N
  window_renamed : Text → Text → TmuxNotification N
  window_pane_changed : Text → Text → TmuxNotification N
  layout_change : Text → WindowLayout → Option WindowLayout → Option Text → TmuxNotification N
  session_changed : Text → Text → TmuxNotification N
  session_renamed : Text → TmuxNotification N
  sessions_changed : TmuxNotification N
  session_window_changed : Text → Text → TmuxNotification N
  client_session_changed : Text → Text → Text → TmuxNotification N
  client_detached : Text → TmuxNotification N
  pane_mode_changed : Text → TmuxNotification N
  exit : Option Text → TmuxNotification N
  continued : Text → TmuxNotification N
  pause : Text → TmuxNotification N
  subscription_changed : Text → Text → TmuxNotification N
  -- The number of the command, whether it failed, and the lines.
  reply : N → Bool → List Text → TmuxNotification N
  -- The host makes it, not the parser.
  attached : N → TmuxNotification N
  unknown : Text → TmuxNotification N

pub record OpenReply (N : Type 0) : Type 0 where
  pub num : N
  pub lines : List Text

pub record TmuxControlParser (N : Type 0) : Type 0 where
  pub buffer : Text
  pub open_reply : Option (OpenReply N)

abbrev pub blank : ℕ
blank = 0x20

-- The text before the first blank, and the text after it, if there is one.
unfoldable pub cut_blank : Text → Text × Option Text
cut_blank [] = ([], none)
cut_blank (c ∷ cs) =
    let (w, rest) = cut_blank cs in if c == blank then ([], some cs) else (c ∷ w, rest)

abbrev pub or_empty : Option Text → Text
or_empty none = []
or_empty (some s) = s

abbrev pub first_token : Text → Text
first_token s = (cut_blank s).0

abbrev pub split_first : Text → Text × Text
split_first s = ((cut_blank s).0, or_empty (cut_blank s).1)

-- `split(' ')`
unfoldable pub split_blanks : Text → List Text
split_blanks [] = [] ∷ []
split_blanks (c ∷ cs) = elim (split_blanks cs) [
  | [] ↦ []
  | w ∷ ws ↦ if c == blank then [] ∷ w ∷ ws else (c ∷ w) ∷ ws
]

-- `join(' ')`
abbrev pub join_blanks : List Text → Text
join_blanks [] = []
join_blanks (w ∷ ws) = elim ws [ [] ↦ w | _ ∷ _ ↦ w ++ blank ∷ join_blanks ws ]

-- The text after the first ` : `, if there is one.
unfoldable pub after_colon : Text → Option Text
after_colon [] = none
after_colon (c ∷ cs) =
    if starts_with (codes " : ") (c ∷ cs) then some (drop 2 cs) else after_colon cs

-- `s.split(sub).join('')`: occurrences from the left, `skip` characters of one still to pass over.
unfoldable pub remove_all : Text → ℕ → Text → Text
remove_all sub skip [] = []
remove_all sub (suc skip) (c ∷ cs) = remove_all sub skip cs
remove_all sub zero (c ∷ cs) =
    let within = remove_all sub (length sub - 1) cs in
    let after = remove_all sub zero cs in if starts_with sub (c ∷ cs) then within else c ∷ after

abbrev pub escape : ℕ
escape = 0x1b

abbrev pub dcs_introducer : Text
dcs_introducer = escape ∷ codes "P1000p"

abbrev pub dcs_terminator : Text
dcs_terminator = escape ∷ codes "\\"

unfoldable pub strip_dcs_wrapper : Text → Text
strip_dcs_wrapper s = remove_all dcs_terminator zero (remove_all dcs_introducer zero s)

abbrev pub put_char : ℕ → List Text × Text → List Text × Text
put_char c ([], rest) = ([], c ∷ rest)
put_char c (l ∷ ls, rest) = ((c ∷ l) ∷ ls, rest)

-- The lines that a line break ends, and the text after the last one.
unfoldable pub complete_lines : Text → List Text × Text
complete_lines [] = ([], [])
complete_lines (c ∷ cs) =
    let r = complete_lines cs in if c == 0x0a then ([] ∷ r.0, r.1) else put_char c r

-- The carriage return that tmux writes before a line break.
abbrev pub drop_return : Text → Text
drop_return [] = []
drop_return (c ∷ []) = if c == 0x0d then [] else c ∷ []
drop_return (c ∷ d ∷ cs) = c ∷ drop_return (d ∷ cs)

abbrev pub lines_of : List Text → List Text
lines_of ls = map drop_return ls

abbrev pub is_end : Text → Bool
is_end line = starts_with (codes "%end ") line || starts_with (codes "%error ") line

abbrev pub is_exit : Text → Bool
is_exit line = text_eq line (codes "%exit") || starts_with (codes "%exit ") line

module _ {N : Type 0} (number : Option Text → N) where
  abbrev pub parse_output : Text → TmuxNotification N
  parse_output rest = output (cut_blank rest).0 (decode_output (or_empty (cut_blank rest).1))

  abbrev pub parse_extended_output : Text → TmuxNotification N
  parse_extended_output rest =
      output (cut_blank rest).0
        (decode_output (or_empty (after_colon (or_empty (cut_blank rest).1))))

  abbrev pub parse_visible : Option Text → Option WindowLayout
  parse_visible none = none
  parse_visible (some s) = if length s == 0 then none else parse_layout s

  -- With the first two tokens and those after.
  abbrev pub layout_from : Text → List Text → Option WindowLayout → TmuxNotification N
  layout_from rest t none = unknown (codes "%layout-change " ++ rest)
  layout_from rest t (some layout) =
      layout_change (or_empty (get_elem? t 0)) layout (parse_visible (get_elem? t 2))
        (if ltb 3 (length t) then some (join_blanks (drop 3 t)) else none)

  unfoldable pub parse_layout_change : Text → TmuxNotification N
  parse_layout_change rest =
      let t = split_blanks rest in layout_from rest t (parse_layout (or_empty (get_elem? t 1)))

  -- The notification of a tag other than `%begin`.
  unfoldable pub notification : Text → Text → Text → TmuxNotification N
  notification line tag rest =
      let t = split_blanks rest in
      let (first, remainder) = split_first rest in
      if text_eq tag (codes "%output")
      then parse_output rest
      else if text_eq tag (codes "%extended-output")
      then parse_extended_output rest
      else if text_eq tag (codes "%window-add")
      then window_add first
      else if text_eq tag (codes "%unlinked-window-add")
      then unlinked_window_add first
      else if text_eq tag (codes "%window-close") || text_eq tag (codes "%unlinked-window-close")
      then window_close first
      else if text_eq tag (codes "%window-renamed")
      then window_renamed first remainder
      else if text_eq tag (codes "%window-pane-changed")
      then window_pane_changed (or_empty (get_elem? t 0)) (or_empty (get_elem? t 1))
      else if text_eq tag (codes "%layout-change")
      then parse_layout_change rest
      else if text_eq tag (codes "%session-changed")
      then session_changed first remainder
      else if text_eq tag (codes "%session-renamed")
      then session_renamed rest
      else if text_eq tag (codes "%sessions-changed")
      then sessions_changed
      else if text_eq tag (codes "%session-window-changed")
      then session_window_changed (or_empty (get_elem? t 0)) (or_empty (get_elem? t 1))
      else if text_eq tag (codes "%client-session-changed")
      then client_session_changed (or_empty (get_elem? t 0)) (or_empty (get_elem? t 1))
          (join_blanks (drop 2 t))
      else if text_eq tag (codes "%client-detached")
      then client_detached first
      else if text_eq tag (codes "%pane-mode-changed")
      then pane_mode_changed first
      else if text_eq tag (codes "%exit")
      then exit (if length rest == 0 then none else some rest)
      else if text_eq tag (codes "%continue")
      then continued first
      else if text_eq tag (codes "%pause")
      then pause first
      else if text_eq tag (codes "%subscription-changed")
      then subscription_changed first (or_empty (after_colon rest))
      else unknown line

  abbrev pub open_begin : Text → TmuxControlParser N → TmuxControlParser N
  open_begin rest p = record p {
    open_reply = some (record { num = number (get_elem? (split_blanks rest) 1); lines = [] });
  }

  -- A line outside every block, and the notifications it completes.
  unfoldable pub handle_outside :
      Text → TmuxControlParser N → TmuxControlParser N × List (TmuxNotification N)
  handle_outside line p =
      let (tag, rest) = split_first line in
      if not (starts_with (codes "%") line)
      then (p, [])
      else if text_eq tag (codes "%begin")
      then (open_begin rest p, [])
      else (p, notification line tag rest ∷ [])

  -- `closeReply` and `forceCloseReply`
  abbrev pub close_reply :
      Bool → OpenReply N → TmuxControlParser N → TmuxControlParser N × List (TmuxNotification N)
  close_reply error block p =
      (record p { open_reply = none }, reply block.num error block.lines ∷ [])

  abbrev pub after_close :
      TmuxNotification N
      → TmuxControlParser N × List (TmuxNotification N)
      → TmuxControlParser N × List (TmuxNotification N)
  after_close n (p, ns) = (p, n ∷ ns)

  -- A line of the open block.
  unfoldable pub handle_inside :
      Text → OpenReply N → TmuxControlParser N → TmuxControlParser N × List (TmuxNotification N)
  handle_inside line block p =
      if is_end line
      then close_reply (starts_with (codes "%error ") line) block p
      else if is_exit line
      then after_close (reply block.num true block.lines)
          (handle_outside line (record p { open_reply = none }))
      else (record p { open_reply = some (record block { lines = block.lines ++ line ∷ [] }) }, [])

  -- By whether a block is open.
  abbrev pub handle_from :
      Option (OpenReply N)
      → Text
      → TmuxControlParser N
      → TmuxControlParser N × List (TmuxNotification N)
  handle_from none line p = handle_outside line p
  handle_from (some block) line p = handle_inside line block p

  abbrev pub handle_line :
      Text → TmuxControlParser N → TmuxControlParser N × List (TmuxNotification N)
  handle_line line p = handle_from p.open_reply line p

  -- The calls of the loop of `feed`, for the lines in order.
  unfoldable pub handle_lines :
      List Text → TmuxControlParser N → TmuxControlParser N × List (TmuxNotification N)
  handle_lines [] p = (p, [])
  handle_lines (line ∷ lines) p =
      let (q, ns) = handle_line line p in let (r, ms) = handle_lines lines q in (r, ns ++ ms)

  unfoldable pub feed : Text → TmuxControlParser N → TmuxControlParser N × List (TmuxNotification N)
  feed text p =
      let (ls, rest) = complete_lines (strip_dcs_wrapper (p.buffer ++ text)) in
      handle_lines (lines_of ls) (record p { buffer = rest })
