-- ===== src/Codec/Boundaries.antt =====
-- Where a chunk of a paste may end: never inside a character that fits.
use Prim.Native.Nat.{min}
use mathlib.Core.Path.{subst}
use agent_cockpit.Base.{
  ℕ, zero, suc, ◌≤◌, ◌<◌, ◌≡◌, refl, ap, ◌∙◌, Bool, true, false, not, ◌&&◌, List, [], ◌∷◌, ◌++◌,
}
use agent_cockpit.Base.{
  arith, if◌then◌else◌, length, drop, ltb, ◌==◌, ==_iff, drop_of_length-le, Bool-cases, inl, inr,
}
use agent_cockpit.Codec.{is_utf8_continuation, continues_at, back_up}

-- The boundary goes down to the first byte of a chunk at most.
pub back_up_range : (bytes : List ℕ) (n : ℕ) → (back_up bytes n ≤ n) × (0 < n → 0 < back_up bytes n)
unfolding back_up
back_up_range bytes zero = (omega arith, λ h. h)
back_up_range bytes (suc n) =
    let (low, high) = back_up_range bytes n in
    elim (Bool-cases (ltb (suc n) (length bytes) && ltb 1 (suc n) && continues_at bytes (suc n))) [
      | inl back ↦ rw back (omega arith, λ h. high (ground arith))
      | inr stop ↦ rw stop (omega arith, λ h. h)
    ]

-- Where the boundary stops, no character is split, unless the chunk is one byte.
back_up_stop :
    (bytes : List ℕ) (n : ℕ)
    → back_up bytes n < length bytes
    → 1 < back_up bytes n
    → continues_at bytes (back_up bytes n) ≡ false
unfolding back_up
back_up_stop bytes zero h k = absurd (omega arith)
back_up_stop bytes (suc n) h k =
    elim (Bool-cases (ltb (suc n) (length bytes) && ltb 1 (suc n) && continues_at bytes (suc n))) [
      | inl back ↦
          let step : back_up bytes (suc n) ≡ back_up bytes n = rw back refl in
          ap (continues_at bytes) step
          ∙ back_up_stop bytes n (subst (λ e. e < length bytes) step h) (subst (λ e. 1 < e) step k)
      | inr stop ↦
          let step : back_up bytes (suc n) ≡ suc n = rw stop refl in
          ap (continues_at bytes) step
          ∙ at_stop (continues_at bytes (suc n)) (subst (λ e. e < length bytes) step h)
              (subst (λ e. 1 < e) step k) stop
    ]
  where
    at_stop :
        (c : Bool)
        → suc n < length bytes
        → 1 < suc n
        → (ltb (suc n) (length bytes) && ltb 1 (suc n) && c) ≡ false
        → c ≡ false
    at_stop c h k e = ground arith

-- The characters' bytes after the first that follow at the front.
abbrev pub run : List ℕ → ℕ
run [] = 0
run (b ∷ bytes) = if is_utf8_continuation b then suc (run bytes) else 0

-- Fewer than `n` continuation bytes stand in a row, as UTF-8 has at most three.
abbrev pub HasRunsBelow : ℕ → List ℕ → Type 0
HasRunsBelow n [] = Unit
HasRunsBelow n (b ∷ bytes) = (run (b ∷ bytes) < n) × HasRunsBelow n bytes

-- The bytes do not start within a character.
abbrev pub starts_whole : List ℕ → Bool
starts_whole [] = true
starts_whole (b ∷ bytes) = not (is_utf8_continuation b)

-- A chunk is not empty and not longer than `max`.
abbrev pub IsChunk : ℕ → List ℕ → Type 0
IsChunk max c = (0 < length c) × (length c ≤ max)

abbrev pub flatten : List (List ℕ) → List ℕ
flatten [] = []
flatten (c ∷ cs) = c ++ flatten cs

pub HasRunsBelow-drop :
    (n k : ℕ) (bytes : List ℕ) → HasRunsBelow n bytes → HasRunsBelow n (drop k bytes)
HasRunsBelow-drop n zero bytes r = r
HasRunsBelow-drop n (suc k) [] r = r
HasRunsBelow-drop n (suc k) (b ∷ bytes) (_, r) = HasRunsBelow-drop n k bytes r

-- A boundary that went down to one byte passed continuation bytes only.
back_up_passed :
    (bytes : List ℕ) (n : ℕ)
    → n < length bytes
    → back_up bytes n ≤ 1
    → (i : ℕ) → 1 < i
    → i ≤ n
    → continues_at bytes i ≡ true
unfolding back_up
back_up_passed bytes zero fits low i hi hn = absurd (omega arith)
back_up_passed bytes (suc n) fits low i hi hn =
    elim (Bool-cases (ltb (suc n) (length bytes) && ltb 1 (suc n) && continues_at bytes (suc n))) [
      | inl back ↦
          let step : back_up bytes (suc n) ≡ back_up bytes n = rw back refl in
          elim (Bool-cases (i == suc n)) [
            | inl last ↦ ap (continues_at bytes) ((==_iff i (suc n)).0 last) ∙ ground arith
            | inr before ↦
                back_up_passed bytes n (omega arith) (subst (λ e. e ≤ 1) step low) i hi
                  (ground arith)
          ]
      | inr stop ↦
          let step : back_up bytes (suc n) ≡ suc n = rw stop refl in
          let one : suc n ≤ 1 = subst (λ e. e ≤ 1) step low in absurd (omega arith)
    ]

run_long :
    (k : ℕ) (bytes : List ℕ) → ((i : ℕ) → i < k → continues_at bytes i ≡ true) → k ≤ run bytes
run_long zero bytes h = omega arith
run_long (suc k) [] h = absurd (no (h 0 (omega arith)))
  where
    no : false ≡ true → ⊥
    no e = ground arith
run_long (suc k) (b ∷ bytes) h =
    let first : is_utf8_continuation b ≡ true = h 0 (omega arith) in
    rw first (omega (arith, run_long k bytes (λ i less. h (suc i) (omega arith))))

run_start : (bytes : List ℕ) → run bytes < 1 → starts_whole bytes ≡ true
run_start [] h = refl
run_start (b ∷ bytes) h = ground arith

starts_at :
    (n : ℕ) (bytes : List ℕ) → continues_at bytes n ≡ false → starts_whole (drop n bytes) ≡ true
starts_at n [] e = empty n
  where
    empty : (n : ℕ) → starts_whole (drop n []) ≡ true
    empty zero = refl
    empty (suc n) = refl
starts_at zero (b ∷ bytes) e = ground arith
starts_at (suc n) (b ∷ bytes) e = starts_at n bytes e

back_up_full : (bytes : List ℕ) (n : ℕ) → length bytes ≤ n → back_up bytes n ≡ n
unfolding back_up
back_up_full bytes zero h = refl
back_up_full bytes (suc n) h = rw (beyond (continues_at bytes (suc n))) refl
  where
    beyond : (c : Bool) → (ltb (suc n) (length bytes) && ltb 1 (suc n) && c) ≡ false
    beyond c = ground arith

-- After a byte that is followed by continuation bytes alone comes no further one.
rest_starts :
    (max b : ℕ) (bytes : List ℕ)
    → HasRunsBelow max bytes
    → ((i : ℕ) → 1 < i → i ≤ max → continues_at (b ∷ bytes) i ≡ true)
    → starts_whole bytes ≡ true
rest_starts max b [] r h = refl
rest_starts max b (c ∷ bytes) (r, _) h = elim (Bool-cases (is_utf8_continuation c)) [
  | inr whole ↦ ap not whole
  | inl split ↦
      let long : max ≤ run (c ∷ bytes) = run_long max (c ∷ bytes) (all split) in
      absurd (omega arith)
]
  where
    all : is_utf8_continuation c ≡ true → (i : ℕ) → i < max → continues_at (c ∷ bytes) i ≡ true
    all split zero less = split
    all split (suc i) less = h (suc (suc i)) (omega arith) (omega arith)

-- The next chunk does not start within a character.
pub next_starts :
    (max b : ℕ) (bytes : List ℕ)
    → 0 < max
    → HasRunsBelow max (b ∷ bytes)
    → starts_whole (drop (back_up (b ∷ bytes) (min max (length (b ∷ bytes)))) (b ∷ bytes)) ≡ true
next_starts max b bytes hm (_, r) = go (ltb end (length (b ∷ bytes))) (ltb 1 end) refl refl
  where
    end : ℕ
    end = back_up (b ∷ bytes) (min max (length (b ∷ bytes)))

    go :
        (inside long : Bool)
        → ltb end (length (b ∷ bytes)) ≡ inside
        → ltb 1 end ≡ long
        → starts_whole (drop end (b ∷ bytes)) ≡ true
    go false long h k = ap starts_whole (drop_of_length-le end (b ∷ bytes) (ground arith))
    go true true h k =
        starts_at end (b ∷ bytes) (back_up_stop (b ∷ bytes) _ (ground arith) (ground arith))
    go true false h k =
        let (low, high) = back_up_range (b ∷ bytes) (min max (length (b ∷ bytes))) in
        let pos : 0 < end = high (omega arith) in
        let one : end ≡ 1 = ground arith in
        ap (λ e. starts_whole (drop e (b ∷ bytes))) one
        ∙ shorter (ltb max (length (b ∷ bytes))) refl one (ground arith)
      where
        shorter :
            (less : Bool)
            → ltb max (length (b ∷ bytes)) ≡ less
            → end ≡ 1
            → end < length (b ∷ bytes)
            → starts_whole bytes ≡ true
        shorter true l one inside =
            let least : min max (length (b ∷ bytes)) ≡ max = ground arith in
            rest_starts max b bytes r (
              back_up_passed (b ∷ bytes) max (ground arith)
                (subst (λ n. back_up (b ∷ bytes) n ≤ 1) least (omega arith)))
        shorter false l one inside =
            let full : end ≡ min max (length (b ∷ bytes)) =
              back_up_full (b ∷ bytes) _ (ground arith) in
            absurd (ground arith)
