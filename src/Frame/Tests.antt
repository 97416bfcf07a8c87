-- ===== src/Frame/Tests.antt =====
-- Frames of three and one bytes, in chunks that cut the headers, with bytes for JSON values.
use agent_cockpit.Base.{suc, ◌≡◌, refl, sym, Option, some, List, [], ◌∷◌, ◌++◌, length, arith, ◌≢◌}
use agent_cockpit.Frame.{Bytes, JsonCodec, too_large, FrameDecoder, frame, encode_frame}
use agent_cockpit.Frame.{Pushed, push, push_from, push_loop, round_from, body_round, decoder}
use agent_cockpit.Frame.{
  pending_bytes, take_frame, gather, declared_length, read_length, read_chunk,
}
use agent_cockpit.Frame.Take.{flat}
use agent_cockpit.Frame.Flat.{cut_all}
use agent_cockpit.Frame.Refine.{IsValid}
use agent_cockpit.Frame.Push.{Answers, push-Answers, push_total}
use agent_cockpit.Frame.Stream.{encode_all, push_all}
use agent_cockpit.Frame.RoundTrip.{push_all_prefix, push_all-encode_all, Returns}
use agent_cockpit.Frame.Reject.{push-Throws_too_large, Throws}

program : Unit {0}
unfolding encode_frame push_from push_loop round_from body_round decoder take_frame gather
    declared_length read_length read_chunk encode_all push_all
program = tt

raw-decode-encode :
    (p b : Bytes)
    → ◌≡◌ {A = Option Bytes} (some p) (some b)
    → ◌≡◌ {A = Option Bytes} (some b) (some p)
raw-decode-encode p b e = sym e

abbrev raw : JsonCodec Bytes
raw = record { encode = λ p. some p; decode = λ b. some b; decode-encode = raw-decode-encode }

abbrev payloads : List Bytes
payloads = (7 ∷ 8 ∷ 9 ∷ []) ∷ (5 ∷ []) ∷ []

abbrev chunks : List Bytes
chunks = (0 ∷ 0 ∷ []) ∷ (0 ∷ 3 ∷ 7 ∷ []) ∷ [] ∷ (8 ∷ 9 ∷ 0 ∷ 0 ∷ 0 ∷ []) ∷ (1 ∷ 5 ∷ []) ∷ []

encoded : encode_all raw 10 payloads ≡ frame (flat chunks)
unfolding program
encoded = refl

push_all-encode_all_example :
    (d : FrameDecoder) × (push_all raw chunks (decoder 10) [] ≡ Pushed.returned payloads d)
    × (pending_bytes d ≡ 0)
push_all-encode_all_example = push_all-encode_all raw 10 (omega arith) payloads chunks encoded

abbrev early : List Bytes
early = (0 ∷ 0 ∷ []) ∷ (0 ∷ 3 ∷ 7 ∷ []) ∷ []

push_all_prefix_example :
    Returns raw 10 [] payloads (8 ∷ 9 ∷ 0 ∷ 0 ∷ 0 ∷ 1 ∷ 5 ∷ []) (push_all raw early (decoder 10) [])
unfolding program
push_all_prefix_example =
    push_all_prefix raw 10 (omega arith) payloads early (8 ∷ 9 ∷ 0 ∷ 0 ∷ 0 ∷ 1 ∷ 5 ∷ []) refl

fresh-IsValid : IsValid 10 (decoder 10)
unfolding decoder
fresh-IsValid = record { limit = refl; counted = refl; alive = refl; known = tt }

push-Throws_too_large_example : Throws raw 10 too_large (push raw (0 ∷ 0 ∷ 1 ∷ 0 ∷ []) (decoder 10))
unfolding decoder
push-Throws_too_large_example =
    push-Throws_too_large raw 10 (0 ∷ 0 ∷ 1 ∷ 0 ∷ []) (decoder 10) fresh-IsValid (omega arith)
      (omega arith) (omega arith)

push-Answers_example : Answers 10 (push raw (0 ∷ 0 ∷ 0 ∷ 1 ∷ 5 ∷ 6 ∷ []) (decoder 10)) (
    cut_all raw 10
      (suc (length (flat (decoder 10).chunks ++ (0 ∷ 0 ∷ 0 ∷ 1 ∷ 5 ∷ 6 ∷ []))))
      (flat (decoder 10).chunks ++ (0 ∷ 0 ∷ 0 ∷ 1 ∷ 5 ∷ 6 ∷ []))
      [])
push-Answers_example =
    push-Answers raw 10 (0 ∷ 0 ∷ 0 ∷ 1 ∷ 5 ∷ 6 ∷ []) (decoder 10) fresh-IsValid (omega arith)

push_total_example :
    (push raw (0 ∷ 0 ∷ 0 ∷ 1 ∷ 5 ∷ 6 ∷ []) (decoder 10) ≢ Pushed.out_of_fuel)
    × (push raw (0 ∷ 0 ∷ 0 ∷ 1 ∷ 5 ∷ 6 ∷ []) (decoder 10) ≢ Pushed.fault)
push_total_example = push_total raw 10 (0 ∷ 0 ∷ 0 ∷ 1 ∷ 5 ∷ 6 ∷ []) (decoder 10) fresh-IsValid
