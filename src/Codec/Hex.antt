-- ===== src/Codec/Hex.antt =====
-- src/shared/tmux/codec.ts: the hexadecimal form of what is sent to a pane. The text of a string is
-- encoded before, so that here are bytes only.
pub mod RoundTrip
use Prim.Native.Nat.{◌*◌, ◌/◌, ◌%◌}
use agent_cockpit.Base.{
  ℕ, ◌+◌, ◌-◌, Bool, true, false, not, ◌&&◌, ◌||◌, List, [], ◌∷◌, ◌++◌, map, any,
}
use agent_cockpit.Base.{Text, if◌then◌else◌, length, ltb, leb, ◌==◌, is_space}

-- A digit below 16.
abbrev pub hex_digit : ℕ → ℕ
hex_digit d = if ltb d 10 then 0x30 + d else 0x57 + d

-- `b.toString(16).padStart(2, '0')` of a byte.
abbrev pub pair : ℕ → Text
pair b = hex_digit (b / 16) ∷ hex_digit (b % 16) ∷ []

abbrev pub space : ℕ
space = 0x20

-- The loop over the bytes, and `pairs.join(' ')`.
unfoldable pub join : Text → List Text → Text
join p [] = p
join p (q ∷ ps) = p ++ space ∷ join q ps

unfoldable pub to_hex : List ℕ → Text
to_hex [] = []
to_hex (b ∷ bytes) = join (pair b) (map pair bytes)

abbrev pub put_word : Text → List Text → List Text
put_word w ws = if length w == 0 then ws else w ∷ ws

-- The word at the front and the words after it.
unfoldable pub words_from : Text → Text × List Text
words_from [] = ([], [])
words_from (c ∷ cs) =
    let (w, ws) = words_from cs in if is_space c then ([], put_word w ws) else (c ∷ w, ws)

-- `hex.trim().split(/\s+/)` is the words between white space; none for a text of white space alone, where
-- `fromHex` answers no bytes.
abbrev pub words : Text → List Text
words hex = put_word (words_from hex).0 (words_from hex).1

-- The value of a digit, and whether it is one.
abbrev pub is_hex : ℕ → Bool
is_hex c = (leb 0x30 c && leb c 0x39) || (leb 0x61 c && leb c 0x66) || (leb 0x41 c && leb c 0x46)

abbrev pub hex_value : ℕ → ℕ
hex_value c = if leb c 0x39 then c - 0x30 else if leb c 0x46 then c - 0x37 else c - 0x57

-- The digits at the front, behind the value of those before; no digits give 0, as `NaN & 0xff` does.
unfoldable pub hex_from : ℕ → Text → ℕ
hex_from n [] = n
hex_from n (c ∷ cs) = let rest = hex_from (n * 16 + hex_value c) cs in if is_hex c then rest else n

-- The prefix that `parseInt` passes over at radix 16.
abbrev pub after_prefix : Text → Text
after_prefix [] = []
after_prefix (c ∷ []) = c ∷ []
after_prefix (c ∷ x ∷ cs) = if (c == 0x30) && ((x == 0x78) || (x == 0x58)) then cs else c ∷ x ∷ cs

-- `Number.parseInt(part, 16) & 0xff`: a sign may come first, and the mask of a negative number is its
-- complement.
unfoldable pub part_byte : Text → ℕ
part_byte [] = 0
part_byte (c ∷ cs) =
    if c == 0x2d
    then (256 - hex_from 0 (after_prefix cs) % 256) % 256
    else if c == 0x2b
    then hex_from 0 (after_prefix cs) % 256
    else hex_from 0 (after_prefix (c ∷ cs)) % 256

unfoldable pub from_hex : Text → List ℕ
from_hex hex = map part_byte (words hex)
