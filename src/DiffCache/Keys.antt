-- ===== src/DiffCache/Keys.antt =====
-- The key of an entry tells its worktree, its path and its baseline apart.
use agent_cockpit.Base.{◌≡◌, ◌≢◌, refl, Option, [], ◌∷◌, ◌++◌}
use agent_cockpit.Base.{Text, All}
use agent_cockpit.DiffCache.{sep, key, baseline_text}

abbrev pub SepFree : Text → Type 0
SepFree = All (λ c. c ≢ sep)

pub first_sep :
    (xs ys r s : Text)
    → SepFree xs
    → SepFree ys
    → xs ++ (sep ∷ r) ≡ ys ++ (sep ∷ s)
    → (xs ≡ ys) × (r ≡ s)
first_sep [] [] r s hx hy e = (refl, cc)
first_sep [] (y ∷ ys) r s hx hy e = absurd (hy.0 (cc))
first_sep (x ∷ xs) [] r s hx hy e = absurd (hx.0 (cc))
first_sep (x ∷ xs) (y ∷ ys) r s hx hy e =
    let (same, rest) = first_sep xs ys r s hx.1 hy.1 (cc) in (cc, rest)

-- Two keys are equal only for the same worktree, the same path and the same baseline, a missing one
-- counting as empty, as long as worktrees and paths hold no unit separator.
pub key-injective :
    (w w' p p' : Text) (b b' : Option Text)
    → SepFree w
    → SepFree w'
    → SepFree p
    → SepFree p'
    → key w p b ≡ key w' p' b'
    → (w ≡ w') × (p ≡ p') × (baseline_text b ≡ baseline_text b')
unfolding key
key-injective w w' p p' b b' hw hw' hp hp' e =
    let (ws, rest) = first_sep w w' _ _ hw hw' e in
    let (ps, bs) = first_sep p p' _ _ hp hp' rest in (ws, ps, bs)
