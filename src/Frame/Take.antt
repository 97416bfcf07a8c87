-- ===== src/Frame/Take.antt =====
-- Reading the header and cutting a frame out of the chunks, as if they were one buffer.
use agent_cockpit.Base.{ℕ, zero, suc, ◌+◌, ◌-◌, ◌*◌, ◌≤◌, ◌<◌, ◌≡◌, refl, ap, sym, ◌∙◌, some}
use agent_cockpit.Base.{List, [], ◌∷◌, ◌++◌, length, take, drop, ltb, arith}
use agent_cockpit.Base.{length-append, suc-eq-zero, lt→ltb, le→leb, leb-false, if◌then◌else◌}
use agent_cockpit.Base.{take-append_split, drop-append_split, take_of_length-le, drop_of_length-le}
use mathlib.Core.List.{append_assoc, append-nil}
use native.Mathlib.Decide.{dec_le}
use agent_cockpit.Frame.{Bytes, read_chunk, read_length, declared_length, gather, take_frame}

-- The bytes of the chunks, in order.
abbrev pub flat : List Bytes → Bytes
flat [] = []
flat (chunk ∷ chunks) = chunk ++ flat chunks

-- A big-endian number, after the digits of `acc`.
abbrev pub big_endian : ℕ → Bytes → ℕ
big_endian acc [] = acc
big_endian acc (b ∷ bs) = big_endian (acc * 256 + b) bs

pub flat-append : (xs ys : List Bytes) → flat (xs ++ ys) ≡ flat xs ++ flat ys
flat-append [] ys = refl
flat-append (x ∷ xs) ys = ap (◌++◌ x) (flat-append xs ys) ∙ sym (append_assoc x (flat xs) (flat ys))

big_endian-append :
    (acc : ℕ) (xs ys : Bytes) → big_endian acc (xs ++ ys) ≡ big_endian (big_endian acc xs) ys
big_endian-append acc [] ys = refl
big_endian-append acc (x ∷ xs) ys = big_endian-append (acc * 256 + x) xs ys

-- With `k` bytes of the header to read.
read_chunk_lem :
    (bs : Bytes) (acc k : ℕ)
    → k ≤ 4
    → read_chunk bs acc (4 - k) ≡ (big_endian acc (take k bs), 4 - (k - length bs))
unfolding read_chunk
read_chunk_lem [] acc zero h = refl
read_chunk_lem [] acc (suc k) h = ground arith
read_chunk_lem (b ∷ bs) acc zero h = ground arith
read_chunk_lem (b ∷ bs) acc (suc k) h =
    let e : 4 - suc k + 1 ≡ 4 - k = omega arith in
    let f : suc k - suc (length bs) ≡ k - length bs = omega arith in
    rw (e, f) (ground (arith, read_chunk_lem bs (acc * 256 + b) k))

read_length_lem :
    (chunks : List Bytes) (acc k : ℕ)
    → k ≤ 4
    → read_length chunks acc (4 - k) ≡ big_endian acc (take k (flat chunks))
unfolding read_length
read_length_lem [] acc zero h = refl
read_length_lem [] acc (suc k) h = refl
read_length_lem (c ∷ cs) acc k h =
    rw
      (
        read_chunk_lem c acc k h,
        take-append_split k c (flat cs),
        big_endian-append acc (take k c) (take (k - length c) (flat cs)),
      )
      (elim (dec_le k (length c)) [
        | yes short ↦ let e : k - length c ≡ 0 = omega arith in rw e refl
        | no long ↦
            ground
              (arith, read_length_lem cs (big_endian acc (take k c)) (k - length c) (omega arith))
      ])

-- `declaredLength` reads the first four bytes of the buffer, however they are spread over chunks.
pub declared_length_lem :
    (chunks : List Bytes) → declared_length chunks ≡ big_endian 0 (take 4 (flat chunks))
unfolding declared_length
declared_length_lem chunks = read_length_lem chunks 0 4 (omega arith)

gather_lem :
    (chunks : List Bytes) (n : ℕ)
    → n ≤ length (flat chunks)
    → (left : List Bytes) × (gather chunks n ≡ some (take n (flat chunks), left))
      × (flat left ≡ drop n (flat chunks))
unfolding gather
gather_lem [] zero h = ([], refl, refl)
gather_lem [] (suc n) h = absurd (omega arith)
gather_lem (c ∷ cs) zero h = (c ∷ cs, refl, refl)
gather_lem (c ∷ cs) (suc m) h = elim (dec_le (length c) (suc m)) [
  | yes whole ↦
      let (left, cut, rest) =
        gather_lem cs (suc m - length c) (omega (arith, length-append c (flat cs))) in
      (
        left,
        rw (
          suc-eq-zero m,
          le→leb _ _ whole,
          cut,
          take-append_split (suc m) c (flat cs),
          take_of_length-le (suc m) c whole,
        ),
        rest ∙ rw (drop-append_split (suc m) c (flat cs), drop_of_length-le (suc m) c whole),
      )
  | no part ↦
      let none_left : suc m - length c ≡ 0 = omega arith in
      (
        drop (suc m) c ∷ cs,
        rw (
          suc-eq-zero m,
          leb-false (length c) (suc m) (omega arith),
          take-append_split (suc m) c (flat cs),
          none_left,
          append-nil,
        ),
        rw (drop-append_split (suc m) c (flat cs), none_left),
      )
]

-- A chunk goes when nothing is left of it.
abbrev trim : Bytes → List Bytes → List Bytes
trim c cs = if ltb 0 (length c) then c ∷ cs else cs

flat-trim : (c : Bytes) (cs : List Bytes) → flat (trim c cs) ≡ c ++ flat cs
flat-trim [] cs = refl
flat-trim (x ∷ c) cs = rw (lt→ltb 0 (suc (length c)) (omega arith))

-- `take` cuts the first `n` bytes off the buffer, whatever its chunks.
pub take_frame_lem :
    (chunks : List Bytes) (n : ℕ)
    → 0 < n
    → n ≤ length (flat chunks)
    → (left : List Bytes) × (take_frame n chunks ≡ some (take n (flat chunks), left))
      × (flat left ≡ drop n (flat chunks))
unfolding take_frame
take_frame_lem [] n pos h = absurd (omega arith)
take_frame_lem (c ∷ cs) n pos h = elim (dec_le n (length c)) [
  | yes inside ↦
      let none_left : n - length c ≡ 0 = omega arith in
      (
        trim (drop n c) cs,
        rw (le→leb _ _ inside, take-append_split n c (flat cs), none_left, append-nil),
        rw (flat-trim (drop n c) cs, drop-append_split n c (flat cs), none_left),
      )
  | no across ↦
      let (left, cut, rest) = gather_lem (c ∷ cs) n h in
      (left, rw (leb-false n (length c) (omega arith)) cut, rest)
]
