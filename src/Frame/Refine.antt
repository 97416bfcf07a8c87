-- ===== src/Frame/Refine.antt =====
-- The decoder over chunks does what the framing means on the buffer of all its bytes.
use agent_cockpit.Base.{ℕ, ◌+◌, ◌-◌, ◌≤◌, ◌≡◌, refl, ap, some, none, Option}
use agent_cockpit.Base.{List, length, take, drop, ltb, arith, Bool-cases, inl, inr}
use agent_cockpit.Base.{length-drop, drop-take, ltb-false, ltb-false→le, Option-cases}
use agent_cockpit.Base.{true, false}
use mathlib.Core.Path.{ap₂}
use agent_cockpit.Frame.{Bytes, JsonCodec, too_large, FrameDecoder}
use agent_cockpit.Frame.{declared_length, Round, body_round, round, round_from}
use agent_cockpit.Frame.Take.{flat, declared_length_lem, take_frame_lem}
use agent_cockpit.Frame.Flat.{Cut, cut, body_length}

-- The frame being assembled is the one that the buffer declares.
abbrev pub Known : ℕ → Option ℕ → Bytes → Type 0
Known max none bs = Unit
Known max (some n) bs = (n ≡ 4 + body_length bs) × (4 ≤ length bs) × (body_length bs ≤ max)

pub record IsValid (max : ℕ) (d : FrameDecoder) : Type 0 where
  pub limit : d.max_frame_bytes ≡ max
  pub counted : d.buffered ≡ length (flat d.chunks)
  pub alive : d.failure ≡ none
  pub known : Known max d.frame_bytes (flat d.chunks)

abbrev pub Refines : {P : Type 0} → ℕ → Round P → Cut P → Type 0
Refines max (Round.waiting d) (Cut.more bs) = IsValid max d × (flat d.chunks ≡ bs)
Refines max (Round.decoded p d) (Cut.payload q bs) = IsValid max d × (flat d.chunks ≡ bs) × (p ≡ q)
Refines max (Round.threw e d) (Cut.bad e') = (e ≡ e') × (d.failure ≡ some e)
Refines max _ _ = ⊥

module _ {P : Type 0} (json : JsonCodec P) (max : ℕ) where
  -- The state after the first `n` bytes are taken.
  abbrev rest_of : ℕ → List Bytes → FrameDecoder → FrameDecoder
  rest_of n left d = record d { chunks = left; buffered = d.buffered - n; frame_bytes = none }

  rest_of-IsValid :
      (n : ℕ) (left : List Bytes) (d : FrameDecoder)
      → d.max_frame_bytes ≡ max
      → d.buffered ≡ length (flat d.chunks)
      → d.failure ≡ none
      → flat left ≡ drop n (flat d.chunks)
      → IsValid max (rest_of n left d)
  rest_of-IsValid n left d limit counted alive rest = record {
    limit = limit;
    counted = rw (rest, length-drop n (flat d.chunks), counted);
    alive = alive;
    known = tt;
  }

  body_round-Refines :
      (d : FrameDecoder)
      → d.max_frame_bytes ≡ max
      → d.buffered ≡ length (flat d.chunks)
      → d.failure ≡ none
      → 4 ≤ length (flat d.chunks)
      → body_length (flat d.chunks) ≤ max
      → Refines max
          (body_round json (4 + body_length (flat d.chunks)) d)
          (cut json max (flat d.chunks))
  unfolding body_round cut
  body_round-Refines d limit counted alive four fits =
      let bs : Bytes = flat d.chunks in
      let size : ℕ = body_length bs in
      let same : ltb d.buffered (4 + size) ≡ ltb (length bs) (4 + size) =
        ap (λ (k : ℕ). ltb k (4 + size)) counted in
      rw (ltb-false (length bs) 4 four, ltb-false max size fits, same)
        (elim (Bool-cases (ltb (length bs) (4 + size))) [
          | inl short ↦ rw short (
            record { limit = limit; counted = counted; alive = alive; known = (refl, four, fits) },
            refl,
          )
          | inr complete ↦
              let (left, taken, rest) =
                take_frame_lem d.chunks (4 + size) (omega arith) (ltb-false→le _ _ complete) in
              rw (complete, taken, drop-take 4 size bs)
                (elim (Option-cases (json.decode (take size (drop 4 bs)))) [
                  | inl wrong ↦ rw wrong (refl, refl)
                  | inr (p, right) ↦
                      rw right
                        (rest_of-IsValid (4 + size) left d limit counted alive rest, rest, refl)
                ])
        ])

  cut_few : (bs : Bytes) → ltb (length bs) 4 ≡ true → cut json max bs ≡ Cut.more bs
  unfolding cut
  cut_few bs h = rw h

  pub cut_over :
      (bs : Bytes)
      → ltb (length bs) 4 ≡ false
      → ltb max (body_length bs) ≡ true
      → cut json max bs ≡ Cut.bad too_large
  unfolding cut
  cut_over bs h k = rw (h, k)

  round_from-Refines :
      (n : Option ℕ) (d : FrameDecoder)
      → IsValid max d
      → Known max n (flat d.chunks)
      → Refines max (round_from json n d) (cut json max (flat d.chunks))
  unfolding round_from
  round_from-Refines (some n) d v (same, four, fits) =
      rw same (body_round-Refines d v.limit v.counted v.alive four fits)
  round_from-Refines none d v k =
      let bs : Bytes = flat d.chunks in
      let same : ltb d.buffered 4 ≡ ltb (length bs) 4 = ap (λ (k : ℕ). ltb k 4) v.counted in
      let declared : ltb d.max_frame_bytes (declared_length d.chunks) ≡ ltb max (body_length bs) =
        ap₂ ltb v.limit (declared_length_lem d.chunks) in
      rw (same, declared)
        (elim (Bool-cases (ltb (length bs) 4)) [
          | inl few ↦ rw (few, cut_few bs few) (v, refl)
          | inr four ↦ elim (Bool-cases (ltb max (body_length bs))) [
            | inl over ↦ rw (four, over, cut_over bs four over) (refl, refl)
            | inr fits ↦
                rw (four, fits, declared_length_lem d.chunks)
                  (body_round-Refines d v.limit v.counted v.alive (ltb-false→le _ _ four)
                    (ltb-false→le _ _ fits))
          ]
        ])

  pub round-Refines :
      (d : FrameDecoder) → IsValid max d → Refines max (round json d) (cut json max (flat d.chunks))
  round-Refines d v = round_from-Refines d.frame_bytes d v v.known
