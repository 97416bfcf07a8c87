-- ===== src/Codec/Decode.antt =====
-- Every way tmux may escape a byte is undone.
use Prim.Native.Nat.{◌*◌, ◌%◌}
use agent_cockpit.Base.{
  ℕ, zero, suc, ◌+◌, ◌-◌, ◌≤◌, ◌<◌, ◌≡◌, ◌≢◌, refl, ap, ◌∙◌, true, false, List, [], ◌∷◌, ◌++◌,
}
use agent_cockpit.Base.{arith, length, ◌==◌}
use agent_cockpit.Codec.{backslash, is_octal_digit, octal, escaped, decode_from, decode_output}

-- What tmux may write for a byte: itself, if it is no backslash; two backslashes for a backslash; or a
-- backslash and its three octal digits.
pub data Escapes : ℕ → List ℕ → Type 0 where
  itself : (b : ℕ) → b < 256 → b ≢ backslash → Escapes b (b ∷ [])
  doubled : Escapes backslash (backslash ∷ backslash ∷ [])
  digits :
      (x y z : ℕ)
      → x < 4
      → y < 8
      → z < 8
      → Escapes (x * 64 + y * 8 + z) (backslash ∷ (0x30 + x) ∷ (0x30 + y) ∷ (0x30 + z) ∷ [])

-- A payload that escapes the bytes one after the other.
pub data Payload : List ℕ → List ℕ → Type 0 where
  empty : Payload [] []
  next : (b : ℕ) (bs es cs : List ℕ) → Escapes b es → Payload bs cs → Payload (b ∷ bs) (es ++ cs)

octal_lem :
    (x y z : ℕ) (cs : List ℕ)
    → x < 4
    → y < 8
    → z < 8
    → octal 3 0 ((0x30 + x) ∷ (0x30 + y) ∷ (0x30 + z) ∷ cs) ≡ (x * 64 + y * 8 + z, cs)
unfolding octal
octal_lem x y z cs hx hy hz =
    let digit : (d : ℕ) → d < 8 → is_octal_digit (0x30 + d) ≡ true = λ d h. ground arith in
    let v : ((0 * 8 + (0x30 + x - 0x30)) * 8 + (0x30 + y - 0x30)) * 8 + (0x30 + z - 0x30)
        ≡ x * 64 + y * 8 + z =
      omega arith in
    rw (digit x (omega arith), digit y hy, digit z hz, v) refl

decode_itself :
    (fuel b : ℕ) (cs : List ℕ)
    → b < 256
    → b ≢ backslash
    → decode_from (suc fuel) (b ∷ cs) ≡ b ∷ decode_from fuel cs
unfolding decode_from
decode_itself fuel b cs h other =
    let plain : (b == backslash) ≡ false = ground arith in
    let small : b % 256 ≡ b = omega arith in rw (plain, small) refl

decode_doubled :
    (fuel : ℕ) (cs : List ℕ)
    → decode_from (suc fuel) (backslash ∷ backslash ∷ cs) ≡ backslash ∷ decode_from fuel cs
unfolding decode_from
decode_doubled fuel cs = refl

decode_digits :
    (fuel x y z : ℕ) (cs : List ℕ)
    → x < 4
    → y < 8
    → z < 8
    → decode_from (suc fuel) (backslash ∷ (0x30 + x) ∷ (0x30 + y) ∷ (0x30 + z) ∷ cs)
      ≡ (x * 64 + y * 8 + z) ∷ decode_from fuel cs
unfolding decode_from
decode_digits fuel x y z cs hx hy hz =
    ap (λ e. e.0 ∷ decode_from fuel e.1)
      (escape ∙ ap (λ e. (e.0 % 256, e.1)) (octal_lem x y z cs hx hy hz))
    ∙ ap (λ v. v ∷ decode_from fuel cs) small
  where
    small : (x * 64 + y * 8 + z) % 256 ≡ x * 64 + y * 8 + z
    small = omega arith

    ds : List ℕ
    ds = (0x30 + x) ∷ (0x30 + y) ∷ (0x30 + z) ∷ cs

    first : ((0x30 + x) == backslash) ≡ false
    first = ground arith

    digit : is_octal_digit (0x30 + x) ≡ true
    digit = ground arith

    escape : escaped ds ≡ (let (value, rest) = octal 3 0 ds in (value % 256, rest))
    escape = rw (first, digit) refl

decode_payload :
    (fuel : ℕ) (bs cs : List ℕ) → Payload bs cs → length cs ≤ fuel → decode_from fuel cs ≡ bs
unfolding decode_from
decode_payload zero _ _ empty h = refl
decode_payload (suc fuel) _ _ empty h = refl
decode_payload zero _ _ (next b bs _ cs (itself _ small other) rest) h = absurd (omega arith)
decode_payload (suc fuel) _ _ (next b bs _ cs (itself _ small other) rest) h =
    decode_itself fuel b cs small other
    ∙ ap (λ r. b ∷ r) (decode_payload fuel bs cs rest (omega arith))
decode_payload zero _ _ (next _ bs _ cs doubled rest) h = absurd (omega arith)
decode_payload (suc fuel) _ _ (next _ bs _ cs doubled rest) h =
    decode_doubled fuel cs ∙ ap (λ r. backslash ∷ r) (decode_payload fuel bs cs rest (omega arith))
decode_payload zero _ _ (next _ bs _ cs (digits x y z hx hy hz) rest) h = absurd (omega arith)
decode_payload (suc fuel) _ _ (next _ bs _ cs (digits x y z hx hy hz) rest) h =
    decode_digits fuel x y z cs hx hy hz
    ∙ ap (λ r. (x * 64 + y * 8 + z) ∷ r) (decode_payload fuel bs cs rest (omega arith))

-- However tmux escapes the bytes of an output, decoding the payload gives these bytes.
pub decode_output-Payload : (bs cs : List ℕ) → Payload bs cs → decode_output cs ≡ bs
unfolding decode_output
decode_output-Payload bs cs p = decode_payload (length cs) bs cs p (omega arith)
