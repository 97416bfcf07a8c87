-- ===== src/Frame/Flat.antt =====
-- What the framing means on one buffer, with no chunks and no memory of a header already read.
use agent_cockpit.Base.{ℕ, zero, suc, ◌+◌, none, some, List, [], ◌∷◌, ◌++◌, length}
use agent_cockpit.Base.{take, drop, ltb, if◌then◌else◌}
use agent_cockpit.Frame.{Bytes, JsonCodec, FrameErrorCode, too_large, malformed}
use agent_cockpit.Frame.Take.{big_endian}

pub data Cut (P : Type 0) : Type 0 where
  more : Bytes → Cut P
  bad : FrameErrorCode → Cut P
  payload : P → Bytes → Cut P

pub data Outcome (P : Type 0) : Type 0 where
  paused : List P → Bytes → Outcome P
  broken : FrameErrorCode → Outcome P
  spent : Outcome P

-- The body length that a buffer declares.
abbrev pub body_length : Bytes → ℕ
body_length bs = big_endian 0 (take 4 bs)

module _ {P : Type 0} (json : JsonCodec P) (max : ℕ) where
  -- The first frame of a buffer.
  unfoldable pub cut : Bytes → Cut P
  cut bs =
      if ltb (length bs) 4
      then Cut.more bs
      else if ltb max (body_length bs)
      then Cut.bad too_large
      else if ltb (length bs) (4 + body_length bs)
      then Cut.more bs
      else (elim (json.decode (take (body_length bs) (drop 4 bs))) [
        | none ↦ Cut.bad malformed
        | some p ↦ Cut.payload p (drop (4 + body_length bs) bs)
      ])

  -- All its frames.
  unfoldable pub cut_all : ℕ → Bytes → List P → Outcome P
  cut_all zero bs out = Outcome.spent
  cut_all (suc fuel) bs out = elim (cut bs) [
    | Cut.more rest ↦ Outcome.paused out rest
    | Cut.bad e ↦ Outcome.broken e
    | Cut.payload p rest ↦ cut_all fuel rest (out ++ p ∷ [])
  ]
