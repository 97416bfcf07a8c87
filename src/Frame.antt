-- ===== src/Frame.antt =====
-- src/shared/wire/frame.ts: length-prefixed frames. A byte is a number below 256.
-- `JSON` and the UTF-8 codec of the language enter as one `JsonCodec`. The decoder is a record, and
-- `push` answers what it returns or throws beside the decoder that it leaves.
pub mod Flat
pub mod Take
pub mod Refine
pub mod Push
pub mod Stream
pub mod RoundTrip
pub mod Reject
mod Tests
use agent_cockpit.Base.{ℕ, zero, suc, ◌+◌, ◌-◌, ◌*◌, ◌/◌, ◌%◌, ◌≡◌, Bool, Option, none, some}
use agent_cockpit.Base.{List, [], ◌∷◌, ◌++◌, length, take, drop, ltb, leb, ◌==◌, if◌then◌else◌}

abbrev pub Bytes : Type 0
Bytes = List ℕ

-- `textEncoder.encode(JSON.stringify(p))` on the values of `P`, with `none` where `stringify` has no
-- result, and `JSON.parse(textDecoder.decode(b))`, with `none` where it throws.
pub record JsonCodec (P : Type 0) : Type 0 where
  pub encode : P → Option Bytes
  pub decode : Bytes → Option P
  pub decode-encode : (p : P) (b : Bytes) → encode p ≡ some b → decode b ≡ some p

pub data FrameErrorCode : Type 0 where
  too_large malformed : FrameErrorCode

pub data Encoded : Type 0 where
  frame : Bytes → Encoded
  error : FrameErrorCode → Encoded

abbrev pub frame_header_bytes : ℕ
frame_header_bytes = 4

-- `setUint32(0, n, false)`: four bytes of `n % 2 ^ 32`, the highest first.
abbrev pub header : ℕ → Bytes
header n = n / 0x100_0000 % 256 ∷ n / 0x1_0000 % 256 ∷ n / 0x100 % 256 ∷ n % 256 ∷ []

module _ {P : Type 0} (json : JsonCodec P) where
  unfoldable pub encode_frame : P → ℕ → Encoded
  encode_frame payload max_frame_bytes = elim (json.encode payload) [
    | none ↦ error malformed
    | some body ↦
        if ltb max_frame_bytes (length body)
        then error too_large
        else frame (header (length body) ++ body)
  ]

-- The inner loop of `declaredLength`, over one chunk.
unfoldable pub read_chunk : Bytes → ℕ → ℕ → ℕ × ℕ
read_chunk [] len read = (len, read)
read_chunk (b ∷ bs) len read =
    let rest = read_chunk bs (len * 256 + b) (read + 1) in
    if ltb read frame_header_bytes then rest else (len, read)

unfoldable pub read_length : List Bytes → ℕ → ℕ → ℕ
read_length [] len read = len
read_length (chunk ∷ chunks) len read =
    let (len', read') = read_chunk chunk len read in
    let rest = read_length chunks len' read' in if read' == frame_header_bytes then len' else rest

unfoldable pub declared_length : List Bytes → ℕ
declared_length chunks = read_length chunks 0 0

pub record FrameDecoder : Type 0 where
  pub max_frame_bytes : ℕ
  pub chunks : List Bytes
  pub buffered : ℕ
  pub frame_bytes : Option ℕ
  pub failure : Option FrameErrorCode

unfoldable pub decoder : ℕ → FrameDecoder
decoder max_frame_bytes = record {
  max_frame_bytes = max_frame_bytes;
  chunks = [];
  buffered = 0;
  frame_bytes = none;
  failure = none;
}

abbrev pub pending_bytes : FrameDecoder → ℕ
pending_bytes d = d.buffered

-- The copying loop of `take`; `none` is the access to a missing chunk, which throws a TypeError.
unfoldable pub gather : List Bytes → ℕ → Option (Bytes × List Bytes)
gather [] need = if need == 0 then some ([], []) else none
gather (chunk ∷ chunks) need =
    let rest = gather chunks (need - length chunk) in
    if need == 0
    then some ([], chunk ∷ chunks)
    else if leb (length chunk) need
    then (elim rest [ none ↦ none | some (out, left) ↦ some (chunk ++ out, left) ])
    else some (take need chunk, drop need chunk ∷ chunks)

unfoldable pub take_frame : ℕ → List Bytes → Option (Bytes × List Bytes)
take_frame n [] = none
take_frame n (first ∷ chunks) =
    if leb n (length first)
    then some
        (take n first, if ltb 0 (length (drop n first)) then drop n first ∷ chunks else chunks)
    else gather (first ∷ chunks) n

abbrev pub fail : FrameErrorCode → FrameDecoder → FrameDecoder
fail e d = record d { failure = some e }

abbrev pub append_chunk : Bytes → FrameDecoder → FrameDecoder
append_chunk chunk d = record d {
  chunks = d.chunks ++ chunk ∷ [];
  buffered = d.buffered + length chunk;
}

-- One round of the loop of `push`: it breaks off, throws, decodes a payload, or hits a missing chunk.
pub data Round (P : Type 0) : Type 0 where
  waiting : FrameDecoder → Round P
  threw : FrameErrorCode → FrameDecoder → Round P
  decoded : P → FrameDecoder → Round P
  fault : Round P

pub data Pushed (P : Type 0) : Type 0 where
  returned : List P → FrameDecoder → Pushed P
  threw : FrameErrorCode → FrameDecoder → Pushed P
  fault : Pushed P
  out_of_fuel : Pushed P

module _ {P : Type 0} (json : JsonCodec P) where
  -- The part of a round after `frameBytes` is known to be `n`.
  unfoldable pub body_round : ℕ → FrameDecoder → Round P
  body_round n d =
      if ltb d.buffered n
      then Round.waiting (record d { frame_bytes = some n })
      else (elim (take_frame n d.chunks) [
        | none ↦ Round.fault
        | some (whole, left) ↦
            let d' : FrameDecoder = record d {
              chunks = left;
              buffered = d.buffered - n;
              frame_bytes = none;
            } in
            elim (json.decode (drop frame_header_bytes whole)) [
              | none ↦ Round.threw malformed (fail malformed d')
              | some p ↦ Round.decoded p d'
            ]
      ])

  -- By what `frameBytes` is.
  unfoldable pub round_from : Option ℕ → FrameDecoder → Round P
  round_from none d =
      if ltb d.buffered frame_header_bytes
      then Round.waiting d
      else if ltb d.max_frame_bytes (declared_length d.chunks)
      then Round.threw too_large (fail too_large d)
      else body_round (frame_header_bytes + declared_length d.chunks) d
  round_from (some n) d = body_round n d

  abbrev pub round : FrameDecoder → Round P
  round d = round_from d.frame_bytes d

  -- Each round that goes on takes four bytes at least, so one round more than the bytes is enough.
  unfoldable pub push_loop : ℕ → FrameDecoder → List P → Pushed P
  push_loop zero d out = Pushed.out_of_fuel
  push_loop (suc fuel) d out = elim (round d) [
    | Round.waiting d' ↦ Pushed.returned out d'
    | Round.threw e d' ↦ Pushed.threw e d'
    | Round.decoded p d' ↦ push_loop fuel d' (out ++ p ∷ [])
    | Round.fault ↦ Pushed.fault
  ]

  -- By what `failure` is.
  unfoldable pub push_from : Option FrameErrorCode → Bytes → FrameDecoder → Pushed P
  push_from (some e) chunk d = Pushed.threw e d
  push_from none chunk d =
      if length chunk == 0
      then Pushed.returned [] d
      else push_loop (suc (d.buffered + length chunk)) (append_chunk chunk d) []

  abbrev pub push : Bytes → FrameDecoder → Pushed P
  push chunk d = push_from d.failure chunk d
