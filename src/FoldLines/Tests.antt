-- ===== src/FoldLines/Tests.antt =====
-- Three lines.
use agent_cockpit.Base.{◌≡◌, refl, [], ◌∷◌, Text}
use agent_cockpit.FoldLines.{starts_from, line_start_offsets, search, offset_to_line}
use agent_cockpit.FoldLines.Search.{offset_to_line-line_breaks}

abbrev text : Text
text = 0x61 ∷ 0x0a ∷ 0x62 ∷ 0x63 ∷ 0x0a ∷ []

starts : line_start_offsets text ≡ 0 ∷ 2 ∷ 5 ∷ []
unfolding line_start_offsets starts_from
starts = refl

middle : offset_to_line (line_start_offsets text) 4 ≡ 1
unfolding line_start_offsets starts_from search offset_to_line
middle = refl

offset_to_line-line_breaks_example : offset_to_line (line_start_offsets text) 5 ≡ 2
offset_to_line-line_breaks_example = offset_to_line-line_breaks text 5
