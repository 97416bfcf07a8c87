-- ===== src/Watch/Policy/Segments.antt =====
-- Splitting a path at its slashes.
use agent_cockpit.Base.{ℕ, ◌≤◌, ◌≡◌, ◌≢◌, refl, Bool, true, List, [], ◌∷◌, ◌++◌, arith}
use agent_cockpit.Base.{Text, All, any, length, ◌==◌}
use agent_cockpit.Base.{Bool-cases, inl, inr}
use agent_cockpit.Watch.Policy.{split_slash, cons_first, to_slashes}

abbrev pub NoSlash : Text → Type 0
NoSlash = All (λ c. c ≢ b'/')

abbrev pub NoBackslash : Text → Type 0
NoBackslash = All (λ c. c ≢ b'\\')

-- A path with no backslash keeps its characters.
pub to_slashes_lem : (s : Text) → NoBackslash s → to_slashes s ≡ s
to_slashes_lem [] h = refl
to_slashes_lem (c ∷ s) (n, h) = ground (arith, to_slashes_lem s h)

pub split_slash-NoSlash : (w : Text) → NoSlash w → split_slash w ≡ w ∷ []
unfolding split_slash
split_slash-NoSlash [] h = refl
split_slash-NoSlash (c ∷ w) (n, h) = ground (arith, split_slash-NoSlash w h)

pub split_slash-append : (w s : Text) → NoSlash w → split_slash (w ++ b'/' ∷ s) ≡ w ∷ split_slash s
unfolding split_slash
split_slash-append [] s h = refl
split_slash-append (c ∷ w) s (n, h) = ground (arith, split_slash-append w s h)

pub length-split_slash : (s : Text) → 1 ≤ length (split_slash s)
unfolding split_slash
length-split_slash [] = omega arith
length-split_slash (c ∷ s) = ground (arith, length-split_slash s)

abbrev others : List Text → List Text
others [] = []
others (w ∷ ws) = ws

any_of_others : (p : Text → Bool) (ws : List Text) → any p (others ws) ≡ true → any p ws ≡ true
any_of_others p [] h = h
any_of_others p (w ∷ ws) h = ground arith

others-cons_first : (c : ℕ) (ws : List Text) → others (cons_first c ws) ≡ others ws
others-cons_first c [] = refl
others-cons_first c (w ∷ ws) = refl

module _ (p : Text → Bool) (w : Text) (plain : NoSlash w) (holds : p w ≡ true) where
  inner_others : (a b : Text) → any p (others (split_slash (a ++ b'/' ∷ (w ++ b'/' ∷ b)))) ≡ true
  unfolding split_slash
  inner_others [] b = rw (split_slash-append w b plain, holds)
  inner_others (c ∷ a) b =
      let s : Text = a ++ b'/' ∷ (w ++ b'/' ∷ b) in
      elim (Bool-cases (c == b'/')) [
        | inl slash ↦ rw slash (any_of_others p (split_slash s) (inner_others a b))
        | inr other ↦ rw (other, others-cons_first c (split_slash s)) (inner_others a b)
      ]

  -- A word between two slashes is a segment, whatever stands around it.
  pub split_slash_inner : (a b : Text) → any p (split_slash (a ++ b'/' ∷ (w ++ b'/' ∷ b))) ≡ true
  split_slash_inner a b =
      any_of_others p (split_slash (a ++ b'/' ∷ (w ++ b'/' ∷ b))) (inner_others a b)
