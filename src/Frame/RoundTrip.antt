-- ===== src/Frame/RoundTrip.antt =====
-- The decoder returns the payloads of a stream of frames, however the stream is cut into chunks.
use agent_cockpit.Base.{ℕ, ◌^◌, ◌<◌, ◌≡◌, refl, ap, sym, ◌∙◌, none}
use agent_cockpit.Base.{List, [], ◌∷◌, ◌++◌, length, arith}
use mathlib.Core.List.{append-nil, append_assoc}
use agent_cockpit.Frame.{Bytes, JsonCodec, FrameDecoder, frame}
use agent_cockpit.Frame.{Pushed, push, push_from, decoder, pending_bytes}
use agent_cockpit.Frame.Take.{flat}
use agent_cockpit.Frame.Flat.{Cut, Outcome, cut}
use agent_cockpit.Frame.Refine.{IsValid}
use agent_cockpit.Frame.Push.{Answers, push-Answers}
use agent_cockpit.Frame.Stream.{Progress, cut_all-Reads, encode_all, push_all, cut_frame}
use agent_cockpit.Frame.Stream.{encode_all-inv, encode_all-nil}

module _ {P : Type 0} (json : JsonCodec P) (max : ℕ) where
  -- The answer of a decoder that has read as far as `w`.
  abbrev pub Returns : List P → (ps : List P) (future : Bytes) → Pushed P → Type 0
  Returns out ps future answer =
      (w : Progress json max ps future) × (d : FrameDecoder) × (answer
        ≡ Pushed.returned (out ++ w.done) d)
      × IsValid max d
      × (flat d.chunks ≡ w.rest)

module _ {P : Type 0} (json : JsonCodec P) (max : ℕ) (small : max < 2 ^ 32) where
  of_answer :
      (ps : List P) (future : Bytes) (a : Pushed P) {o : Outcome P}
      → Answers max a o
      → (w : Progress json max ps future) × (o ≡ Outcome.paused w.done w.rest)
      → Returns json max [] ps future a
  of_answer ps future a {o} h (w, e) = go a (rw e at h)
    where
      go :
          (a : Pushed P)
          → Answers max a (Outcome.paused w.done w.rest)
          → Returns json max [] ps future a
      go (Pushed.returned qs d) (same, v, rest) =
          (w, d, ap (λ q. Pushed.returned q d) same, v, rest)
      go (Pushed.threw x d) h = absurd h
      go Pushed.fault h = absurd h
      go Pushed.out_of_fuel h = absurd h

  push_empty : (d : FrameDecoder) → d.failure ≡ none → push json [] d ≡ Pushed.returned [] d
  unfolding push_from
  push_empty d alive = ap (λ f. push_from json f [] d) alive

  push_all_returned :
      (c : Bytes) (cs : List Bytes) (d : FrameDecoder) (out : List P) {ps : List P}
      {d' : FrameDecoder}
      → push json c d ≡ Pushed.returned ps d'
      → push_all json (c ∷ cs) d out ≡ push_all json cs d' (out ++ ps)
  unfolding push_all
  push_all_returned c cs d out h = rw (h, push_all)

  push_all_done : (d : FrameDecoder) (out : List P) → push_all json [] d out ≡ Pushed.returned out d
  unfolding push_all
  push_all_done d out = refl

  push-Returns :
      (c : Bytes) (d : FrameDecoder) (ps : List P) (future : Bytes)
      → IsValid max d
      → cut json max (flat d.chunks) ≡ Cut.more (flat d.chunks)
      → encode_all json max ps ≡ frame (flat d.chunks ++ (c ++ future))
      → Returns json max [] ps future (push json c d)
  push-Returns [] d ps future v waits h = (
    record { done = []; todo = ps; rest = flat d.chunks; split = refl; encoded = h; waits = waits },
    d,
    push_empty d v.alive,
    v,
    refl,
  )
  push-Returns (b ∷ c) d ps future v waits h =
      of_answer ps future (push json (b ∷ c) d) (push-Answers json max (b ∷ c) d v (omega arith)) (
        cut_all-Reads json max small _ ps (flat d.chunks ++ b ∷ c) future []
          (h ∙ ap frame (sym (append_assoc (flat d.chunks) (b ∷ c) future))) (omega arith))

  push_all-Returns :
      (cs : List Bytes) (d : FrameDecoder) (ps : List P) (future : Bytes) (out : List P)
      → IsValid max d
      → cut json max (flat d.chunks) ≡ Cut.more (flat d.chunks)
      → encode_all json max ps ≡ frame (flat d.chunks ++ (flat cs ++ future))
      → Returns json max out ps future (push_all json cs d out)
  push_all-Returns [] d ps future out v waits h = (
    record { done = []; todo = ps; rest = flat d.chunks; split = refl; encoded = h; waits = waits },
    d,
    push_all_done d out ∙ ap (λ o. Pushed.returned o d) (sym (append-nil out)),
    v,
    refl,
  )
  push_all-Returns (c ∷ cs) d ps future out v waits h =
      let (w, d', answer, v', rest) =
        push-Returns c d ps (flat cs ++ future) v waits
          (h ∙ ap (λ t. frame (flat d.chunks ++ t)) (append_assoc c (flat cs) future)) in
      let (w', d'', answer', v'', rest') =
        push_all-Returns cs d' w.todo future (out ++ w.done) v' (rw rest w.waits)
          (rw rest w.encoded) in
      (
        record {
          done = w.done ++ w'.done;
          todo = w'.todo;
          rest = w'.rest;
          split = w.split ∙ ap (◌++◌ w.done) w'.split ∙ sym (append_assoc w.done w'.done w'.todo);
          encoded = w'.encoded;
          waits = w'.waits;
        },
        d'',
        push_all_returned c cs d out answer
            ∙ answer'
            ∙ ap (λ o. Pushed.returned o d'') (append_assoc out w.done w'.done),
        v'',
        rest',
      )

  decoder-IsValid : IsValid max (decoder max)
  unfolding decoder
  decoder-IsValid = record { limit = refl; counted = refl; alive = refl; known = tt }

  decoder_waits : cut json max (flat (decoder max).chunks) ≡ Cut.more (flat (decoder max).chunks)
  unfolding cut decoder
  decoder_waits = refl

  decoder_empty : flat (decoder max).chunks ≡ []
  unfolding decoder
  decoder_empty = refl

  -- A new decoder that is given the beginning of a stream of frames, in whatever chunks, throws
  -- nothing and has returned exactly the payloads whose frames are whole, in order; what it still
  -- buffers, with the rest of the stream, is the frames of the other payloads.
  pub push_all_prefix :
      (ps : List P) (cs : List Bytes) (future : Bytes)
      → encode_all json max ps ≡ frame (flat cs ++ future)
      → Returns json max [] ps future (push_all json cs (decoder max) [])
  push_all_prefix ps cs future h =
      push_all-Returns cs (decoder max) ps future [] decoder-IsValid decoder_waits
        (rw decoder_empty h)

  finished : (ps : List P) (w : Progress json max ps []) → (w.todo ≡ []) × (w.rest ≡ [])
  finished ps w = go w.todo refl
    where
      go : (t : List P) → w.todo ≡ t → (w.todo ≡ []) × (w.rest ≡ [])
      go [] e = (
        e,
        sym (append-nil w.rest)
            ∙ encode_all-nil json max small (ap (encode_all json max) (sym e) ∙ w.encoded),
      )
      go (p ∷ t) e =
          let (f, fs, first, others, shape) =
            encode_all-inv json max small p t (ap (encode_all json max) (sym e) ∙ w.encoded) in
          cc (
            w.waits,
            ap (cut json max) (sym (append-nil w.rest) ∙ shape),
            cut_frame json max small p fs first,
          )

  -- Given the whole stream, in whatever chunks, it has returned every payload and buffers nothing.
  pub push_all-encode_all :
      (ps : List P) (cs : List Bytes)
      → encode_all json max ps ≡ frame (flat cs)
      → (d : FrameDecoder) × (push_all json cs (decoder max) [] ≡ Pushed.returned ps d)
        × (pending_bytes d ≡ 0)
  push_all-encode_all ps cs h =
      let (w, d, answer, v, rest) =
        push_all_prefix ps cs [] (h ∙ ap frame (sym (append-nil (flat cs)))) in
      let (none_todo, none_left) = finished ps w in
      (
        d,
        answer
            ∙ ap (λ o. Pushed.returned o d)
                (sym (w.split ∙ ap (◌++◌ w.done) none_todo ∙ append-nil w.done)),
        v.counted ∙ ap length (rest ∙ none_left),
      )
