-- ===== src/Frame/Stream.antt =====
-- A stream of frames that arrives in arbitrary chunks.
use agent_cockpit.Base.{ℕ, zero, suc, ◌+◌, ◌^◌, ◌≤◌, ◌<◌, ◌≡◌, refl, ap, sym, ◌∙◌, some}
use agent_cockpit.Base.{List, [], ◌∷◌, ◌++◌, length, take, drop, ltb, arith, Bool-cases, inl, inr}
use agent_cockpit.Base.{
  length-append, append-split, Option-cases, drop-append, drop-drop, length-drop,
}
use agent_cockpit.Base.{take-append, ltb-false, ltb-false→le}
use mathlib.Core.List.{append-nil, append_assoc}
use agent_cockpit.Frame.{Bytes, JsonCodec, FrameDecoder, Encoded, frame}
use agent_cockpit.Frame.{error, header, encode_frame, Pushed, push}
use agent_cockpit.Frame.Flat.{Cut, Outcome, cut, cut_all, body_length}
use agent_cockpit.Frame.Push.{body_length-append}
use native.Mathlib.Decide.{dec_le}

module _ {P : Type 0} (json : JsonCodec P) where
  -- The frames of several payloads, one after another.
  unfoldable pub encode_all : ℕ → List P → Encoded
  encode_all max [] = frame []
  encode_all max (p ∷ ps) = elim (encode_frame json p max) [
    | error e ↦ error e
    | frame f ↦ elim (encode_all max ps) [ error e ↦ error e | frame fs ↦ frame (f ++ fs) ]
  ]

  -- The chunks are pushed in order; what the calls return is collected.
  unfoldable pub push_all : List Bytes → FrameDecoder → List P → Pushed P
  push_all [] d out = Pushed.returned out d
  push_all (c ∷ cs) d out = elim (push json c d) [
    | Pushed.returned ps d' ↦ push_all cs d' (out ++ ps)
    | Pushed.threw e d' ↦ Pushed.threw e d'
    | Pushed.fault ↦ Pushed.fault
    | Pushed.out_of_fuel ↦ Pushed.out_of_fuel
  ]

body_length-header : (n : ℕ) (bs : Bytes) → n < 2 ^ 32 → body_length (header n ++ bs) ≡ n
body_length-header n bs h = omega arith

module _ {P : Type 0} (json : JsonCodec P) (max : ℕ) (small : max < 2 ^ 32) where
  encode_frame-inv :
      (p : P) {f : Bytes}
      → encode_frame json p max ≡ frame f
      → (body : Bytes) × (json.encode p ≡ some body)
        × (length body ≤ max)
        × (f ≡ header (length body) ++ body)
  unfolding encode_frame
  encode_frame-inv p {f} h = elim (Option-cases (json.encode p)) [
    | inl missing ↦ absurd (ground arith)
    | inr (body, found) ↦ elim (Bool-cases (ltb max (length body))) [
      | inl over ↦ absurd (ground arith)
      | inr fits ↦ (body, found, ltb-false→le _ _ fits, ground arith)
    ]
  ]

  cut-payload :
      (bs : Bytes) {p : P}
      → 4 + body_length bs ≤ length bs
      → body_length bs ≤ max
      → json.decode (take (body_length bs) (drop 4 bs)) ≡ some p
      → cut json max bs ≡ Cut.payload p (drop (4 + body_length bs) bs)
  unfolding cut
  cut-payload bs whole fits right = rw (
    ltb-false (length bs) 4 (omega arith),
    ltb-false max (body_length bs) fits,
    ltb-false (length bs) (4 + body_length bs) whole,
    right,
  )

  cut_more :
      (bs : Bytes)
      → (4 ≤ length bs → body_length bs ≤ max)
      → length bs < 4 + body_length bs
      → cut json max bs ≡ Cut.more bs
  unfolding cut
  cut_more bs fits short = ground arith

  pub cut_frame :
      (p : P) {f : Bytes} (rest : Bytes)
      → encode_frame json p max ≡ frame f
      → cut json max (f ++ rest) ≡ Cut.payload p rest
  cut_frame p {f} rest h =
      let (body, found, fits, shape) = encode_frame-inv p h in
      let n : ℕ = length body in
      let size : body_length (f ++ rest) ≡ n =
        rw shape (body_length-header n (body ++ rest) (omega arith)) in
      let tail : drop 4 (f ++ rest) ≡ body ++ rest = rw shape refl in
      let all : length (f ++ rest) ≡ 4 + n + length rest =
        rw shape (omega (arith, length-append body rest)) in
      cut-payload (f ++ rest) {p = p} (omega arith) (omega arith)
        (rw (size, tail, take-append body rest) (json.decode-encode p body found))
      ∙ ap (Cut.payload p) (rw (size, ← drop-drop 4 n (f ++ rest), tail, drop-append body rest))

  length-encode_frame : (p : P) {f : Bytes} → encode_frame json p max ≡ frame f → 4 ≤ length f
  length-encode_frame p h =
      let (body, found, fits, shape) = encode_frame-inv p h in rw shape (omega arith)

  cut_short :
      (p : P) {f : Bytes} (bs future fs : Bytes)
      → encode_frame json p max ≡ frame f
      → bs ++ future ≡ f ++ fs
      → length bs < length f
      → cut json max bs ≡ Cut.more bs
  cut_short p {f} bs future fs h e short =
      let (body, found, fits, shape) = encode_frame-inv p h in
      let n : ℕ = length body in
      let size : 4 ≤ length bs → body_length bs ≡ n = λ four.
        sym (body_length-append bs future four)
        ∙ ap body_length e
        ∙ rw shape (body_length-header n (body ++ fs) (omega arith)) in
      let all : length f ≡ 4 + n = rw shape (omega arith) in
      cut_more bs (λ four. rw (size four) fits)
        (elim (dec_le 4 (length bs)) [
          | yes four ↦ rw (size four) (omega arith)
          | no few ↦ omega arith
        ])

  pub encode_all-inv :
      (p : P) (ps : List P) {fs : Bytes}
      → encode_all json max (p ∷ ps) ≡ frame fs
      → (f : Bytes) × (fs' : Bytes) × (encode_frame json p max ≡ frame f)
        × (encode_all json max ps ≡ frame fs')
        × (fs ≡ f ++ fs')
  unfolding encode_all
  encode_all-inv p ps h = go (encode_frame json p max) (encode_all json max ps) refl refl h
    where
      go :
          (a b : Encoded) {fs : Bytes}
          → encode_frame json p max ≡ a
          → encode_all json max ps ≡ b
          → (elim a [
            | error e ↦ error e
            | frame f ↦ elim b [ error e ↦ error e | frame fs' ↦ frame (f ++ fs') ]
          ])
            ≡ frame fs
          → (f : Bytes) × (fs' : Bytes) × (encode_frame json p max ≡ frame f)
            × (encode_all json max ps ≡ frame fs')
            × (fs ≡ f ++ fs')
      go (frame f) (frame fs') x y e = (f, fs', x, y, cc)
      go (frame f) (error c) x y e = cc
      go (error c) b x y e = cc

-- How far a stream of the payloads `ps` has been read, with the bytes `future` to come: the
-- payloads whose frames are whole, and the bytes that are left, which hold no whole frame.
pub record Progress {P : Type 0} (json : JsonCodec P) (max : ℕ) (ps : List P) (future : Bytes)
    : Type 0 where
  pub done : List P
  pub todo : List P
  pub rest : Bytes
  pub split : ps ≡ done ++ todo
  pub encoded : encode_all json max todo ≡ frame (rest ++ future)
  pub waits : cut json max rest ≡ Cut.more rest

module _ {P : Type 0} (json : JsonCodec P) (max : ℕ) (small : max < 2 ^ 32) where
  abbrev pub Reads : List P → Bytes → List P → Outcome P → Type 0
  Reads ps future out o =
      (w : Progress json max ps future) × (o ≡ Outcome.paused (out ++ w.done) w.rest)

  pub cut_all_more :
      (k : ℕ) (bs : Bytes) (out : List P) {rest : Bytes}
      → cut json max bs ≡ Cut.more rest
      → cut_all json max (suc k) bs out ≡ Outcome.paused out rest
  unfolding cut_all
  cut_all_more k bs out h = rw (h, cut_all)

  cut_all-payload :
      (k : ℕ) (bs : Bytes) (out : List P) {p : P} {rest : Bytes}
      → cut json max bs ≡ Cut.payload p rest
      → cut_all json max (suc k) bs out ≡ cut_all json max k rest (out ++ p ∷ [])
  unfolding cut_all
  cut_all-payload k bs out h = rw (h, cut_all)

  pub encode_all-nil : {bs : Bytes} → encode_all json max [] ≡ frame bs → bs ≡ []
  unfolding encode_all
  encode_all-nil h = cc

  stay :
      (k : ℕ) (ps : List P) (bs future : Bytes) (out : List P)
      → encode_all json max ps ≡ frame (bs ++ future)
      → cut json max bs ≡ Cut.more bs
      → Reads ps future out (cut_all json max (suc k) bs out)
  stay k ps bs future out h waits = (
    record { done = []; todo = ps; rest = bs; split = refl; encoded = h; waits = waits },
    cut_all_more k bs out waits ∙ ap (λ o. Outcome.paused o bs) (sym (append-nil out)),
  )

  pub cut_all-Reads :
      (fuel : ℕ) (ps : List P) (bs future : Bytes) (out : List P)
      → encode_all json max ps ≡ frame (bs ++ future)
      → length bs < fuel
      → Reads ps future out (cut_all json max fuel bs out)
  cut_all-Reads zero ps bs future out h fuel = absurd (omega arith)
  cut_all-Reads (suc k) [] bs future out h fuel =
      let none_left : length bs ≡ 0 =
        omega (arith, ap length (encode_all-nil h), length-append bs future) in
      stay k [] bs future out h
        (cut_more json max small bs (λ four. absurd (omega arith)) (omega arith))
  cut_all-Reads (suc k) (p ∷ ps) bs future out h fuel =
      let (f, fs, first, others, shape) = encode_all-inv json max small p ps h in
      elim (dec_le (length f) (length bs)) [
        | yes whole ↦
            let (begins, joined) = append-split f fs bs future shape whole in
            let r : Bytes = drop (length f) bs in
            let (w, ends) =
              cut_all-Reads k ps r future (out ++ p ∷ []) (others ∙ ap frame (sym joined)) (
                omega
                  (arith, length-drop (length f) bs, length-encode_frame json max small p first)) in
            (
              record {
                done = p ∷ w.done;
                todo = w.todo;
                rest = w.rest;
                split = ap (◌∷◌ p) w.split;
                encoded = w.encoded;
                waits = w.waits;
              },
              cut_all-payload k bs out
                    (ap (cut json max) begins ∙ cut_frame json max small p r first)
                  ∙ ends
                  ∙ ap (λ o. Outcome.paused o w.rest) (append_assoc out (p ∷ []) w.done),
            )
        | no part ↦
            stay k (p ∷ ps) bs future out h
              (cut_short json max small p bs future fs first shape (omega arith))
      ]
