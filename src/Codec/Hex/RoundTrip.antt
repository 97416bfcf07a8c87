-- ===== src/Codec/Hex/RoundTrip.antt =====
-- Bytes that were written in hexadecimal are read back.
use Prim.Native.Nat.{◌*◌, ◌/◌, ◌%◌}
use agent_cockpit.Base.{is_space}
use agent_cockpit.Base.{
  ℕ, suc, ◌+◌, ◌<◌, ◌≡◌, refl, ap, ◌∙◌, true, false, ◌&&◌, ◌||◌, List, [], ◌∷◌, map,
}
use agent_cockpit.Base.{Text, arith, if◌then◌else◌, length, ◌==◌, All}
use agent_cockpit.Codec.Hex.{
  hex_digit, pair, space, join, to_hex, put_word, words_from, is_hex, hex_value, hex_from,
  part_byte, from_hex,
}

hex_digit-is_space : (d : ℕ) → d < 16 → is_space (hex_digit d) ≡ false
hex_digit-is_space d h = ground arith

hex_digit-is_hex : (d : ℕ) → d < 16 → is_hex (hex_digit d) ≡ true
hex_digit-is_hex d h = ground arith

hex_digit-hex_value : (d : ℕ) → d < 16 → hex_value (hex_digit d) ≡ d
hex_digit-hex_value d h = ground arith

two_digits :
    (a b : ℕ) (cs : Text) (w : Text) (ws : List Text)
    → a < 16
    → b < 16
    → words_from cs ≡ (w, ws)
    → words_from (hex_digit a ∷ hex_digit b ∷ cs) ≡ (hex_digit a ∷ hex_digit b ∷ w, ws)
unfolding words_from
two_digits a b cs w ws ha hb e = rw (e, hex_digit-is_space b hb, hex_digit-is_space a ha) refl

after_space :
    (cs : Text) (c : ℕ) (w : Text) (ws : List Text)
    → words_from cs ≡ (c ∷ w, ws)
    → words_from (space ∷ cs) ≡ ([], (c ∷ w) ∷ ws)
unfolding words_from
after_space cs c w ws e = rw e (ap (λ x. (first, x)) (full (length w)))
  where
    first : Text
    first = []

    full : (n : ℕ) → (if suc n == 0 then ws else (c ∷ w) ∷ ws) ≡ (c ∷ w) ∷ ws
    full n = let e : (suc n == 0) ≡ false = ground arith in rw e refl

high : (b : ℕ) → b < 256 → b / 16 < 16
high b h = omega arith

low : (b : ℕ) → b % 16 < 16
low b = omega arith

words_from-join :
    (b : ℕ) (bytes : List ℕ)
    → b < 256
    → All (λ b. b < 256) bytes
    → words_from (join (pair b) (map pair bytes)) ≡ (pair b, map pair bytes)
unfolding join words_from
words_from-join b [] h a = two_digits (b / 16) (b % 16) [] [] [] (high b h) (low b) nothing
  where
    nothing : words_from [] ≡ ([], [])
    nothing = refl
words_from-join b (c ∷ bytes) h (hc, a) =
    two_digits (b / 16) (b % 16) (space ∷ join (pair c) (map pair bytes)) []
      (pair c ∷ map pair bytes) (high b h) (low b)
      (after_space (join (pair c) (map pair bytes)) (hex_digit (c / 16)) (hex_digit (c % 16) ∷ [])
        (map pair bytes) (words_from-join c bytes hc a))

part_byte-pair : (b : ℕ) → b < 256 → part_byte (pair b) ≡ b
unfolding part_byte hex_from
part_byte-pair b h =
    let no_minus : (hex_digit (b / 16) == 0x2d) ≡ false = ground (arith, high b h) in
    let no_plus : (hex_digit (b / 16) == 0x2b) ≡ false = ground (arith, high b h) in
    let no_prefix : ((hex_digit (b / 16) == 0x30)
          && ((hex_digit (b % 16) == 0x78) || (hex_digit (b % 16) == 0x58)))
        ≡ false =
      ground (arith, low b) in
    let whole : ((0 * 16 + b / 16) * 16 + b % 16) % 256 ≡ b = omega arith in
    rw
      (
        no_minus,
        no_plus,
        no_prefix,
        hex_digit-is_hex (b / 16) (high b h),
        hex_digit-is_hex (b % 16) (low b),
        hex_digit-hex_value (b / 16) (high b h),
        hex_digit-hex_value (b % 16) (low b),
      )
      whole

part_bytes : (bytes : List ℕ) → All (λ b. b < 256) bytes → map part_byte (map pair bytes) ≡ bytes
part_bytes [] a = refl
part_bytes (b ∷ bytes) (h, a) = rw (part_byte-pair b h, part_bytes bytes a) refl

-- The bytes of every text that `toHex` writes are read back by `fromHex`.
pub from_hex-to_hex : (bytes : List ℕ) → All (λ b. b < 256) bytes → from_hex (to_hex bytes) ≡ bytes
unfolding from_hex to_hex words_from
from_hex-to_hex [] a = refl
from_hex-to_hex (b ∷ bytes) (h, a) =
    ap (λ r. map part_byte (put_word r.0 r.1)) (words_from-join b bytes h a)
    ∙ rw (part_byte-pair b h, part_bytes bytes a) refl
