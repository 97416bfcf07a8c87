-- ===== src/Codec/Tests.antt =====
-- An escaped output, and an accented letter at the boundary of a chunk.
use agent_cockpit.Base.{ℕ, ◌≡◌, refl, true, some, List, [], ◌∷◌, codes, All, arith}
use agent_cockpit.Codec.{
  is_utf8_continuation, octal, decode_from, decode_output, back_up, chunks_from,
  chunk_bytes_for_send_keys,
}
use agent_cockpit.Codec.Hex.{join, to_hex}
use agent_cockpit.Codec.Decode.{itself, doubled, digits, empty, next, decode_output-Payload}
use agent_cockpit.Codec.Boundaries.{HasRunsBelow, starts_whole}
use agent_cockpit.Codec.Chunks.{AreChunks, chunk_bytes-AreChunks, chunk_bytes-starts_whole}

program : Unit {0}
unfolding is_utf8_continuation octal decode_from decode_output back_up chunks_from
    chunk_bytes_for_send_keys
program = tt

-- A newline as octal digits, a backslash doubled, and a letter.
abbrev payload : List ℕ
payload = codes "\\012\\\\a"

abbrev bytes : List ℕ
bytes = 10 ∷ 0x5c ∷ 0x61 ∷ []

decoded : decode_output payload ≡ bytes
unfolding program
decoded = refl

-- A lone backslash stays.
lone : decode_output (codes "a\\") ≡ 0x61 ∷ 0x5c ∷ []
unfolding program
lone = refl

decode_output-Payload_example : decode_output payload ≡ bytes
decode_output-Payload_example = decode_output-Payload bytes payload (
    next 10 _ _ _ (digits 0 1 2 (omega arith) (omega arith) (omega arith))
      (next 0x5c _ _ _ doubled (next 0x61 _ _ _ (itself 0x61 (omega arith) (omega arith)) empty)))

-- Two letters, an accented one of two bytes, and a letter.
abbrev paste : List ℕ
paste = 0x61 ∷ 0x62 ∷ 0xc3 ∷ 0xa9 ∷ 0x63 ∷ []

cut : chunk_bytes_for_send_keys paste 3 ≡ some ((0x61 ∷ 0x62 ∷ []) ∷ (0xc3 ∷ 0xa9 ∷ 0x63 ∷ []) ∷ [])
unfolding program
cut = refl

chunk_bytes-AreChunks_example :
    (cs : List (List ℕ)) × (chunk_bytes_for_send_keys paste 3 ≡ some cs) × AreChunks 3 paste cs
chunk_bytes-AreChunks_example = chunk_bytes-AreChunks paste 3 (omega arith)

paste-HasRunsBelow : HasRunsBelow 3 paste
unfolding program
paste-HasRunsBelow = (omega arith, (omega arith, (omega arith, (omega arith, (omega arith, tt)))))

chunk_bytes-starts_whole_example :
    All (λ c. starts_whole c ≡ true) ((0x61 ∷ 0x62 ∷ []) ∷ (0xc3 ∷ 0xa9 ∷ 0x63 ∷ []) ∷ [])
unfolding program
chunk_bytes-starts_whole_example =
    chunk_bytes-starts_whole paste 3 _ (omega arith) paste-HasRunsBelow refl cut

abbrev sent : List ℕ
sent = 0x1b ∷ 0x05 ∷ 0xff ∷ []

written : to_hex sent ≡ codes "1b 05 ff"
unfolding to_hex join
written = refl
