-- ===== src/Control/Blocks.antt =====
-- A block of a command's reply, from the line that opens it to the one that closes it.
use agent_cockpit.Base.{
  ◌≡◌, ap, sym, ◌∙◌, true, false, Option, some, none, List, [], ◌∷◌, ◌++◌, Text, codes, starts_with,
  All,
}
use mathlib.Core.List.{append_assoc, append-nil}
use agent_cockpit.Control.{
  TmuxControlParser, TmuxNotification, OpenReply, reply, is_end, is_exit, handle_inside,
  handle_lines,
}

abbrev pub IsBody : Text → Type 0
IsBody line = (is_end line ≡ false) × (is_exit line ≡ false)

module _ {N : Type 0} (number : Option Text → N) where
  -- Lines of an open block, none of which closes it or is an exit notification, and the line that closes it
  -- give one reply: with the number of the block, the lines it had and these in order, and whether the closing
  -- line is an error. The block is closed and the buffer stays.
  pub handle_lines-block :
      (body : List Text) (closing : Text) (b : OpenReply N) (p : TmuxControlParser N)
      → All IsBody body
      → is_end closing ≡ true
      → handle_lines number (body ++ closing ∷ []) (record p { open_reply = some b }) ≡ (
        record p { open_reply = none },
        reply b.num (starts_with (codes "%error ") closing) (b.lines ++ body) ∷ [],
      )
  unfolding handle_inside handle_lines
  handle_lines-block [] closing b p a ends = rw ends (
      ap {B = TmuxControlParser N × List (TmuxNotification N)}
        (λ ls. (
          record p { open_reply = none },
          reply b.num (starts_with (codes "%error ") closing) ls ∷ [],
        ))
        (sym (append-nil b.lines)))
  handle_lines-block (x ∷ xs) closing b p ((within, stays), later) ends =
      rw (within, stays)
        (handle_lines-block xs closing (record b { lines = b.lines ++ x ∷ [] }) p later ends
          ∙ ap {B = TmuxControlParser N × List (TmuxNotification N)}
              (λ ls. (
                record p { open_reply = none },
                reply b.num (starts_with (codes "%error ") closing) ls ∷ [],
              ))
              (append_assoc b.lines (x ∷ []) xs))
