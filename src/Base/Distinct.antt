-- ===== src/Base/Distinct.antt =====
-- Lists of texts in which none stands twice.
use mathlib.Core.Path.{◌≡◌, refl}
use mathlib.Core.Bool.{Bool, false}
use mathlib.Core.List.{List, [], ◌∷◌, ◌++◌}
use mathlib.Core.Logic.{inl, inr}
use native.Mathlib.Omega.{arith}
use agent_cockpit.Base.Tests.{Bool-cases}
use agent_cockpit.Base.Lists.{any, keep}
use agent_cockpit.Base.Texts.{Text, text_eq, text_eq_iff}

abbrev pub Distinct : List Text → Type 0
Distinct [] = Unit {0}
Distinct (x ∷ xs) = (any (λ y. text_eq y x) xs ≡ false) × Distinct xs

any-put :
    (p : Text → Bool) (xs : List Text) (k : Text)
    → any p xs ≡ false
    → p k ≡ false
    → any p (xs ++ k ∷ []) ≡ false
any-put p [] k h e = ground arith
any-put p (x ∷ xs) k h e = ground (arith, any-put p xs k)

pub Distinct-put :
    (xs : List Text) (k : Text)
    → any (λ y. text_eq y k) xs ≡ false
    → Distinct xs
    → Distinct (xs ++ k ∷ [])
Distinct-put [] k h d = (refl, tt)
Distinct-put (x ∷ xs) k h (fresh, later) = (
  any-put (λ y. text_eq y x) xs k fresh (ground (arith, text_eq_iff k x, text_eq_iff x k)),
  Distinct-put xs k (ground arith) later,
)

any-keep : (p q : Text → Bool) (xs : List Text) → any p xs ≡ false → any p (keep q xs) ≡ false
any-keep p q [] h = refl
any-keep p q (x ∷ xs) h = ground (arith, any-keep p q xs)

pub Distinct-keep : (q : Text → Bool) (xs : List Text) → Distinct xs → Distinct (keep q xs)
Distinct-keep q [] d = tt
Distinct-keep q (x ∷ xs) (fresh, later) = elim (Bool-cases (q x)) [
  | inl kept ↦ rw kept (any-keep (λ y. text_eq y x) q xs fresh, Distinct-keep q xs later)
  | inr gone ↦ rw gone (Distinct-keep q xs later)
]
