-- ===== src/Codec.antt =====
-- src/shared/tmux/codec.ts: the escapes of tmux's output and the chunks of what is typed or pasted. A
-- string is the list of its character codes, a byte array the list of its bytes.
pub mod Decode
pub mod Hex
pub mod Boundaries
pub mod Chunks
mod Tests
use Prim.Native.Nat.{◌*◌, ◌%◌, bit_and, min}
use agent_cockpit.Base.{
  ℕ, zero, suc, ◌+◌, ◌-◌, Bool, true, false, not, ◌&&◌, ◌||◌, Option, none, some, List, [], ◌∷◌,
  ◌++◌,
}
use agent_cockpit.Base.{if◌then◌else◌, length, take, drop, get_elem?, ltb, leb, ◌==◌}

abbrev pub backslash : ℕ
backslash = 0x5c

abbrev pub is_octal_digit : ℕ → Bool
is_octal_digit c = leb 0x30 c && leb c 0x37

-- The inner loop, for as many digits as may still come: the value, and the payload after the digits.
unfoldable pub octal : ℕ → ℕ → List ℕ → ℕ × List ℕ
octal zero value cs = (value, cs)
octal (suc digits) value [] = (value, [])
octal (suc digits) value (c ∷ cs) =
    let rest = octal digits (value * 8 + (c - 0x30)) cs in
    if is_octal_digit c then rest else (value, c ∷ cs)

-- What `decodeOutput` does with the characters after a backslash: the byte, and the payload after it.
abbrev pub escaped : List ℕ → ℕ × List ℕ
escaped [] = (backslash, [])
escaped (next ∷ cs) =
    if next == backslash
    then (backslash, cs)
    else if is_octal_digit next
    then (let (value, rest) = octal 3 0 (next ∷ cs) in (value % 256, rest))
    else (backslash, next ∷ cs)

-- The loop over the payload, on fuel.
unfoldable pub decode_from : ℕ → List ℕ → List ℕ
decode_from zero cs = []
decode_from (suc fuel) [] = []
decode_from (suc fuel) (c ∷ cs) =
    let plain = decode_from fuel cs in
    let (byte, rest) = escaped cs in
    let after = decode_from fuel rest in
    if not (c == backslash) then (c % 256) ∷ plain else byte ∷ after

-- Every round takes a character at least.
unfoldable pub decode_output : List ℕ → List ℕ
decode_output payload = decode_from (length payload) payload

abbrev pub max_send_keys_chunk_bytes : ℕ
max_send_keys_chunk_bytes = 256

unfoldable pub is_utf8_continuation : ℕ → Bool
is_utf8_continuation b = bit_and b 0xc0 == 0x80

-- Whether the byte at an index is a continuation byte.
abbrev pub continues_at : List ℕ → ℕ → Bool
continues_at bytes i = elim (get_elem? bytes i) [ none ↦ false | some b ↦ is_utf8_continuation b ]

-- The loop that backs a boundary up, over the bytes from `start` on.
unfoldable pub back_up : List ℕ → ℕ → ℕ
back_up bytes zero = zero
back_up bytes (suc end) =
    let rest = back_up bytes end in
    if ltb (suc end) (length bytes) && ltb 1 (suc end) && continues_at bytes (suc end)
    then rest
    else suc end

-- The loop over the chunks, from the bytes that are left; nothing when the fuel runs out.
unfoldable pub chunks_from : ℕ → ℕ → List ℕ → Option (List (List ℕ))
chunks_from zero max bytes = none
chunks_from (suc fuel) max [] = some []
chunks_from (suc fuel) max (b ∷ bytes) =
    let end = back_up (b ∷ bytes) (min max (length (b ∷ bytes))) in
    elim (chunks_from fuel max (drop end (b ∷ bytes))) [
      | none ↦ none
      | some chunks ↦ some (take end (b ∷ bytes) ∷ chunks)
    ]

unfoldable pub chunk_bytes_for_send_keys : List ℕ → ℕ → Option (List (List ℕ))
chunk_bytes_for_send_keys bytes max =
    if length bytes == 0
    then some []
    else if leb (length bytes) max
    then some (bytes ∷ [])
    else chunks_from (suc (length bytes)) max bytes
