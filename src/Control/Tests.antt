-- ===== src/Control/Tests.antt =====
-- A command's reply with a line that looks like a notification, and a stream that is cut within a line.
use agent_cockpit.Base.{◌≡◌, refl, true, false, none, some, [], ◌∷◌, ◌++◌, codes, Text, Option}
use agent_cockpit.Control.{
  TmuxControlParser, OpenReply, reply, exit, window_add, cut_blank, split_blanks, complete_lines,
  escape, remove_all, strip_dcs_wrapper, notification, handle_outside, handle_inside, handle_lines,
  feed,
}
use agent_cockpit.Control.Chunking.{after, feed-append}
use agent_cockpit.Control.Blocks.{handle_lines-block}

program : Unit {0}
unfolding cut_blank split_blanks complete_lines remove_all strip_dcs_wrapper notification
    handle_outside handle_inside handle_lines feed
program = tt

-- The number of a block is its text here.
abbrev number : Option Text → Option Text
number s = s

abbrev Parser : Type 0
Parser = TmuxControlParser (Option Text)

abbrev fresh : Parser
fresh = record { buffer = []; open_reply = none }

abbrev first_chunk : Text
first_chunk = codes "%begin 1 7 0\nok\n%win"

abbrev second_chunk : Text
second_chunk = codes "dow-add @1\n%end 1 7 0\n%window-add @2\n"

answered :
    (feed number (first_chunk ++ second_chunk) fresh).1
    ≡ reply (some (codes "7")) false (codes "ok" ∷ codes "%window-add @1" ∷ [])
      ∷ window_add (codes "@2")
      ∷ []
unfolding program
answered = refl

-- The server ends in the middle of a reply.
interrupted :
    (feed number (codes "%begin 1 7 0\nok\n%exit\n") fresh).1
    ≡ reply (some (codes "7")) true (codes "ok" ∷ []) ∷ exit none ∷ []
unfolding program
interrupted = refl

abbrev block : OpenReply (Option Text)
block = record { num = some (codes "7"); lines = [] }

handle_lines-block_example :
    handle_lines number
      (codes "ok" ∷ codes "%window-add @1" ∷ codes "%error 1 7 0" ∷ [])
      (record fresh { open_reply = some block })
    ≡ (fresh, reply (some (codes "7")) true (codes "ok" ∷ codes "%window-add @1" ∷ []) ∷ [])
handle_lines-block_example =
    handle_lines-block number (codes "ok" ∷ codes "%window-add @1" ∷ []) (codes "%error 1 7 0")
      block fresh ((refl, refl), ((refl, refl), tt)) refl

-- The first part of a reply that `capture-pane -peJ` writes, cut within the sequence of a colour.
abbrev coloured : Text
coloured = escape ∷ codes "[3"

abbrev rest_of_line : Text
rest_of_line = codes "1mred\n%end 1 7 0\n"

-- What ends the stream on detaching is taken out of a reply too, where it may end another escape sequence.
terminator_lost :
    (feed number (codes "%begin 1 7 0\na" ++ escape ∷ codes "\\b\n%end 1 7 0\n") fresh).1
    ≡ reply (some (codes "7")) false (codes "ab" ∷ []) ∷ []
unfolding program
terminator_lost = refl

feed-append_example :
    feed number (coloured ++ rest_of_line) (record fresh { open_reply = some block })
    ≡ after number (feed number coloured (record fresh { open_reply = some block })).1 (
        feed number rest_of_line
          (feed number coloured (record fresh { open_reply = some block })).0)
feed-append_example =
    feed-append number coloured rest_of_line (record fresh { open_reply = some block }) (refl, refl)
