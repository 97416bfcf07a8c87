-- ===== src/Codec/Chunks.antt =====
-- The chunks of a paste: nothing is lost, none is too long, and no character is split.
use Prim.Native.Nat.{min}
use mathlib.Core.Path.{subst}
use mathlib.Core.List.{append-nil}
use agent_cockpit.Base.{
  ℕ, zero, suc, ◌-◌, ◌<◌, ◌≡◌, refl, ap, sym, ◌∙◌, true, false, some, List, [], ◌∷◌, ◌++◌,
}
use agent_cockpit.Base.{
  arith, length, take, drop, leb, ◌==◌, All, take-append-drop, length-take, length-drop, Bool-cases,
  inl, inr,
}
use agent_cockpit.Codec.{back_up, chunks_from, chunk_bytes_for_send_keys}
use agent_cockpit.Codec.Boundaries.{
  back_up_range, HasRunsBelow, starts_whole, IsChunk, flatten, HasRunsBelow-drop, next_starts,
}

-- Every chunk but the first starts a character.
abbrev pub AreChunks : ℕ → List ℕ → List (List ℕ) → Type 0
AreChunks max bytes cs = (flatten cs ≡ bytes) × All (IsChunk max) cs

chunks_from-AreChunks :
    (fuel max : ℕ) (bytes : List ℕ)
    → 0 < max
    → length bytes < fuel
    → (cs : List (List ℕ)) × (chunks_from fuel max bytes ≡ some cs)
      × AreChunks max bytes cs
      × (HasRunsBelow max bytes → starts_whole bytes ≡ true → All (λ c. starts_whole c ≡ true) cs)
unfolding chunks_from
chunks_from-AreChunks zero max bytes hm hf = absurd (omega arith)
chunks_from-AreChunks (suc fuel) max [] hm hf = ([], refl, (refl, tt), λ r s. tt)
chunks_from-AreChunks (suc fuel) max (b ∷ bytes) hm hf =
    let (low, high) = back_up_range (b ∷ bytes) (min max (length (b ∷ bytes))) in
    let end : ℕ = back_up (b ∷ bytes) (min max (length (b ∷ bytes))) in
    let lens : length (take end (b ∷ bytes)) ≡ min end (length (b ∷ bytes)) =
      length-take end (b ∷ bytes) in
    let left : length (drop end (b ∷ bytes)) ≡ length (b ∷ bytes) - end =
      length-drop end (b ∷ bytes) in
    let pos : 0 < end = high (omega arith) in
    let (cs, e, (all, sized), whole) =
      chunks_from-AreChunks fuel max (drop end (b ∷ bytes)) hm (omega arith) in
    (
      take end (b ∷ bytes) ∷ cs,
      rw e refl,
      (
        ap (λ r. take end (b ∷ bytes) ++ r) all ∙ take-append-drop end (b ∷ bytes),
        ((omega arith, omega arith), sized),
      ),
      λ r s. (
        head end pos s,
        whole (HasRunsBelow-drop max end (b ∷ bytes) r) (next_starts max b bytes hm r),
      ),
    )
  where
    head :
        (n : ℕ) → 0 < n → starts_whole (b ∷ bytes) ≡ true → starts_whole (take n (b ∷ bytes)) ≡ true
    head zero h s = absurd (omega arith)
    head (suc n) h s = s

chunk_bytes_lem :
    (bytes : List ℕ) (max : ℕ)
    → 0 < max
    → (cs : List (List ℕ)) × (chunk_bytes_for_send_keys bytes max ≡ some cs)
      × AreChunks max bytes cs
      × (HasRunsBelow max bytes → starts_whole bytes ≡ true → All (λ c. starts_whole c ≡ true) cs)
unfolding chunk_bytes_for_send_keys
chunk_bytes_lem [] max hm = ([], refl, (refl, tt), λ r s. tt)
chunk_bytes_lem (b ∷ bytes) max hm = elim (Bool-cases (leb (length (b ∷ bytes)) max)) [
  | inl fits ↦ (
    (b ∷ bytes) ∷ [],
    rw (some_bytes, fits) refl,
    (append-nil (b ∷ bytes), ((omega arith, ground arith), tt)),
    λ r s. (s, tt),
  )
  | inr long ↦
      let (cs, e, chunks, whole) =
        chunks_from-AreChunks (suc (length (b ∷ bytes))) max (b ∷ bytes) hm (omega arith) in
      (cs, rw (some_bytes, long) e, chunks, whole)
]
  where
    some_bytes : (length (b ∷ bytes) == 0) ≡ false
    some_bytes = ground arith

-- A paste is cut into chunks that make it up in order, none empty and none longer than the bound, if the
-- bound is not zero; and the cutting ends.
pub chunk_bytes-AreChunks :
    (bytes : List ℕ) (max : ℕ)
    → 0 < max
    → (cs : List (List ℕ)) × (chunk_bytes_for_send_keys bytes max ≡ some cs)
      × AreChunks max bytes cs
chunk_bytes-AreChunks bytes max hm =
    let (cs, e, chunks, _) = chunk_bytes_lem bytes max hm in (cs, e, chunks)

-- No chunk splits a character of a paste that starts one, if fewer continuation bytes than the bound stand
-- in a row.
pub chunk_bytes-starts_whole :
    (bytes : List ℕ) (max : ℕ) (cs : List (List ℕ))
    → 0 < max
    → HasRunsBelow max bytes
    → starts_whole bytes ≡ true
    → chunk_bytes_for_send_keys bytes max ≡ some cs
    → All (λ c. starts_whole c ≡ true) cs
chunk_bytes-starts_whole bytes max cs hm r s h =
    let (ds, e, _, whole) = chunk_bytes_lem bytes max hm in
    let found : some ds ≡ some cs = sym e ∙ h in
    let same : ds ≡ cs = cc in subst (All (λ c. starts_whole c ≡ true)) same (whole r s)
