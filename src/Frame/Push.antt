-- ===== src/Frame/Push.antt =====
-- `push` against the meaning of the buffered bytes, and the termination of its loop.
use agent_cockpit.Base.{ℕ, zero, suc, ◌+◌, ◌-◌, ◌≤◌, ◌<◌, ◌≡◌, refl, ap, sym, ◌∙◌, some, none, ◌≢◌}
use agent_cockpit.Base.{List, [], ◌∷◌, ◌++◌, length, take, arith}
use agent_cockpit.Base.{length-append, length-drop, take-append_split}
use agent_cockpit.Base.{Option}
use mathlib.Core.List.{append-nil}
use agent_cockpit.Frame.{Bytes, JsonCodec, FrameDecoder, Round, Pushed}
use agent_cockpit.Frame.{round, push_loop, push_from, push, append_chunk}
use agent_cockpit.Frame.Take.{flat, big_endian, flat-append}
use agent_cockpit.Frame.Flat.{Cut, Outcome, cut, cut_all, body_length}
use agent_cockpit.Frame.Refine.{IsValid, Refines, round-Refines, Known}

-- What a `push` answers, against the frames of the buffer.
abbrev pub Answers : {P : Type 0} → ℕ → Pushed P → Outcome P → Type 0
Answers max (Pushed.returned ps d) (Outcome.paused qs bs) =
    (ps ≡ qs) × IsValid max d × (flat d.chunks ≡ bs)
Answers max (Pushed.threw e d) (Outcome.broken e') = (e ≡ e') × (d.failure ≡ some e)
Answers max Pushed.out_of_fuel Outcome.spent = Unit
Answers max _ _ = ⊥

pub flat_chunks : (c : Bytes) (d : FrameDecoder) → flat (d.chunks ++ c ∷ []) ≡ flat d.chunks ++ c
flat_chunks c d = flat-append d.chunks (c ∷ []) ∙ rw (append-nil c)

-- The header is the first four bytes, whatever follows.
pub body_length-append : (bs c : Bytes) → 4 ≤ length bs → body_length (bs ++ c) ≡ body_length bs
body_length-append bs c four =
    let none_left : 4 - length bs ≡ 0 = omega arith in
    ap (big_endian 0) {y = take 4 bs} (take-append_split 4 bs c ∙ rw (none_left, append-nil))

Known-append : (max : ℕ) (n : Option ℕ) (bs c : Bytes) → Known max n bs → Known max n (bs ++ c)
Known-append max none bs c k = tt
Known-append max (some n) bs c (same, four, fits) =
    rw (body_length-append bs c four) (same, omega (arith, length-append bs c), fits)

module _ {P : Type 0} (json : JsonCodec P) (max : ℕ) where
  push_loop-Answers :
      (fuel : ℕ) (d : FrameDecoder) (out : List P)
      → IsValid max d
      → Answers max (push_loop json fuel d out) (cut_all json max fuel (flat d.chunks) out)
  unfolding push_loop cut_all
  push_loop-Answers zero d out v = tt
  push_loop-Answers (suc fuel) d out v =
      go (round json d) (cut json max (flat d.chunks)) (round-Refines json max d v)
        (λ d' out' v'. push_loop-Answers fuel d' out' v')
    where
      go :
          (r : Round P) (c : Cut P)
          → Refines max r c
          → ((d' : FrameDecoder) (out' : List P)
              → IsValid max d'
              → Answers max
                  (push_loop json fuel d' out')
                  (cut_all json max fuel (flat d'.chunks) out'))
          → Answers max
              (elim r [
                | Round.waiting d' ↦ Pushed.returned out d'
                | Round.threw e d' ↦ Pushed.threw e d'
                | Round.decoded p d' ↦ push_loop json fuel d' (out ++ p ∷ [])
                | Round.fault ↦ Pushed.fault
              ])
              (elim c [
                | Cut.more rest ↦ Outcome.paused out rest
                | Cut.bad e ↦ Outcome.broken e
                | Cut.payload p rest ↦ cut_all json max fuel rest (out ++ p ∷ [])
              ])
      go (Round.waiting d') (Cut.more rest) (v', same) ih = (refl, v', same)
      go (Round.threw e d') (Cut.bad e') h ih = h
      go (Round.decoded p d') (Cut.payload q rest) (v', same, eq) ih =
          rw (← eq, ← same) (ih d' (out ++ p ∷ []) v')
      go _ _ h ih = absurd h

  append_chunk-IsValid :
      (c : Bytes) (d : FrameDecoder) → IsValid max d → IsValid max (append_chunk c d)
  append_chunk-IsValid c d v = record {
    limit = v.limit;
    counted = rw (flat_chunks c d, length-append (flat d.chunks) c, v.counted);
    alive = v.alive;
    known = rw (flat_chunks c d) (Known-append max d.frame_bytes (flat d.chunks) c v.known);
  }

  -- The first frame of a buffer is at least its header.
  cut_shrinks :
      (bs : Bytes) {p : P} {rest : Bytes}
      → cut json max bs ≡ Cut.payload p rest
      → length rest + 4 ≤ length bs
  unfolding cut
  cut_shrinks bs h = ground (arith, length-drop (4 + body_length bs) bs)

  pub cut_all_total :
      (fuel : ℕ) (bs : Bytes) (out : List P)
      → length bs < fuel
      → cut_all json max fuel bs out ≢ Outcome.spent
  unfolding cut_all
  cut_all_total zero bs out h = absurd (omega arith)
  cut_all_total (suc fuel) bs out h = go (cut json max bs) refl (cut_all_total fuel)
    where
      go :
          (c : Cut P)
          → cut json max bs ≡ c
          → ((rest : Bytes) (out' : List P)
              → length rest < fuel
              → cut_all json max fuel rest out' ≢ Outcome.spent)
          → (elim c [
            | Cut.more rest ↦ Outcome.paused out rest
            | Cut.bad e ↦ Outcome.broken e
            | Cut.payload p rest ↦ cut_all json max fuel rest (out ++ p ∷ [])
          ])
            ≢ Outcome.spent
      go (Cut.more rest) e ih = λ s. cc
      go (Cut.bad x) e ih = λ s. cc
      go (Cut.payload p rest) e ih = ih rest (out ++ p ∷ []) (omega (arith, cut_shrinks bs e))

  push_alive :
      (chunk : Bytes) (d : FrameDecoder)
      → d.failure ≡ none
      → 0 < length chunk
      → push json chunk d
        ≡ push_loop json (suc (d.buffered + length chunk)) (append_chunk chunk d) []
  unfolding push_from
  push_alive chunk d alive pos = ap (λ f. push_from json f chunk d) alive ∙ ground arith

  -- A chunk that arrives at a decoder in order: the bytes that `push` works on are the old ones and
  -- the chunk, and what it returns, throws and keeps is what the framing says of them.
  pub push-Answers :
      (chunk : Bytes) (d : FrameDecoder)
      → IsValid max d
      → 0 < length chunk
      → Answers max
          (push json chunk d)
          (cut_all json max (suc (length (flat d.chunks ++ chunk))) (flat d.chunks ++ chunk) [])
  push-Answers chunk d v pos =
      let fuel : d.buffered + length chunk ≡ length (flat d.chunks ++ chunk) =
        ap (λ (k : ℕ). k + length chunk) v.counted ∙ sym (length-append (flat d.chunks) chunk) in
      rw (push_alive chunk d v.alive pos, ← fuel, ← flat_chunks chunk d)
        (push_loop-Answers (suc (d.buffered + length chunk)) (append_chunk chunk d) []
          (append_chunk-IsValid chunk d v))

  -- On a decoder in order the loop of `push` ends within the fuel, and no chunk is ever missing.
  pub push_total :
      (chunk : Bytes) (d : FrameDecoder)
      → IsValid max d
      → (push json chunk d ≢ Pushed.out_of_fuel) × (push json chunk d ≢ Pushed.fault)
  unfolding push_from
  push_total [] d v = rw (ap (λ f. push_from json f [] d) v.alive) (λ e. cc, λ e. cc)
  push_total (b ∷ c) d v =
      go (push json (b ∷ c) d) (cut_all json max _ (flat d.chunks ++ b ∷ c) [])
        (push-Answers (b ∷ c) d v (omega arith))
        (cut_all_total _ (flat d.chunks ++ b ∷ c) [] (omega arith))
    where
      go :
          (a : Pushed P) (o : Outcome P)
          → Answers max a o
          → o ≢ Outcome.spent
          → (a ≢ Pushed.out_of_fuel) × (a ≢ Pushed.fault)
      go (Pushed.returned ps d') o h n = (λ e. cc, λ e. cc)
      go (Pushed.threw x d') o h n = (λ e. cc, λ e. cc)
      go Pushed.fault (Outcome.paused qs bs) h n = absurd h
      go Pushed.fault (Outcome.broken x) h n = absurd h
      go Pushed.fault Outcome.spent h n = absurd h
      go Pushed.out_of_fuel (Outcome.paused qs bs) h n = absurd h
      go Pushed.out_of_fuel (Outcome.broken x) h n = absurd h
      go Pushed.out_of_fuel Outcome.spent h n = absurd (n refl)
