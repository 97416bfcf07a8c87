-- ===== src/Frame/Reject.antt =====
-- What the decoder does with a frame that the layout rejects.
use agent_cockpit.Base.{ℕ, suc, ◌≤◌, ◌<◌, ◌≡◌, ap, ◌∙◌, some}
use agent_cockpit.Base.{List, [], ◌++◌, length, ltb-false, lt→ltb}
use agent_cockpit.Frame.{Bytes, JsonCodec, FrameErrorCode, too_large, FrameDecoder, Pushed, push}
use agent_cockpit.Frame.{push_from}
use agent_cockpit.Frame.Take.{flat}
use agent_cockpit.Frame.Flat.{Cut, Outcome, cut, cut_all, body_length}
use agent_cockpit.Frame.Refine.{IsValid, cut_over}
use agent_cockpit.Frame.Push.{Answers, push-Answers}

module _ {P : Type 0} (json : JsonCodec P) (max : ℕ) where
  poisoned :
      (e : FrameErrorCode) (c : Bytes) (d : FrameDecoder)
      → d.failure ≡ some e
      → push json c d ≡ Pushed.threw e d
  unfolding push_from
  poisoned e c d h = ap (λ f. push_from json f c d) h

  -- The decoder threw the error, and throws it again at every later chunk, changing nothing.
  abbrev pub Throws : FrameErrorCode → Pushed P → Type 0
  Throws e answer =
      (d : FrameDecoder) × (answer ≡ Pushed.threw e d)
      × ((c : Bytes) → push json c d ≡ Pushed.threw e d)

  of_broken :
      (e : FrameErrorCode) (a : Pushed P) {o : Outcome P}
      → Answers max a o
      → o ≡ Outcome.broken e
      → Throws e a
  of_broken e a {o} h b = go a (rw b at h)
    where
      go : (a : Pushed P) → Answers max a (Outcome.broken e) → Throws e a
      go (Pushed.threw x d) (same, dead) =
          (d, ap (λ y. Pushed.threw y d) same, λ c. poisoned e c d (dead ∙ ap some same))
      go (Pushed.returned qs d) h = absurd h
      go Pushed.fault h = absurd h
      go Pushed.out_of_fuel h = absurd h

  cut_all_broken :
      (k : ℕ) (bs : Bytes) (out : List P) {e : FrameErrorCode}
      → cut json max bs ≡ Cut.bad e
      → cut_all json max (suc k) bs out ≡ Outcome.broken e
  unfolding cut_all
  cut_all_broken k bs out h = rw (h, cut_all)

  -- The chunk that completes a header whose length is over the limit makes `push` throw, before any
  -- byte of the body has arrived, and from then on every call throws the same.
  pub push-Throws_too_large :
      (chunk : Bytes) (d : FrameDecoder)
      → IsValid max d
      → 0 < length chunk
      → 4 ≤ length (flat d.chunks ++ chunk)
      → max < body_length (flat d.chunks ++ chunk)
      → Throws too_large (push json chunk d)
  push-Throws_too_large chunk d v pos four over =
      of_broken too_large (push json chunk d) (push-Answers json max chunk d v pos)
        (cut_all_broken _ _ [] (cut_over json max _ (ltb-false _ 4 four) (lt→ltb max _ over)))
