-- ===== src/Callback/Classify/Inside.antt =====
-- What it means that a path lies in a root, and that `relativeInside` finds the rest of the path.
use mathlib.Core.Path.{subst}
use agent_cockpit.Base.{
  ◌<◌, ◌≡◌, refl, ◌∙◌, ap, Bool, true, ◌&&◌, none, some, [], ◌∷◌, ◌++◌, length, drop, arith,
}
use agent_cockpit.Base.{
  Text, starts_with, ltb, if◌then◌else◌, drop-append, length-append, length-drop, lt→ltb, ltb→lt,
}
use agent_cockpit.Callback.Classify.{prefix_of, rest_after, relative_inside}

-- The path is the root, a slash and a rest that is not empty.
abbrev pub Inside : Text → Text → Text → Type 0
Inside root subject rel = (subject ≡ prefix_of root ++ rel) × (0 < length rel)

starts_with-drop : (p s : Text) → starts_with p s ≡ true → s ≡ p ++ drop (length p) s
starts_with-drop [] s h = refl
starts_with-drop (c ∷ p) [] h = cc
starts_with-drop (c ∷ p) (d ∷ s) h = ground (arith, starts_with-drop p s)

starts_with-append : (p s : Text) → starts_with p (p ++ s) ≡ true
starts_with-append [] s = refl
starts_with-append (c ∷ p) s = ground (arith, starts_with-append p s)

abbrev Rest : Text → Text → Text → Type 0
Rest p s rel = (s ≡ p ++ rel) × (0 < length rel)

both_hold :
    (a b : Bool) (x y : Text)
    → (if a && b then some x else none) ≡ some y
    → (a ≡ true) × (b ≡ true) × (x ≡ y)
both_hold a b x y h = ground arith

rest_after-Rest : (p s rel : Text) → rest_after p s ≡ some rel → Rest p s rel
rest_after-Rest p s rel h =
    let (a, b, e) =
      both_hold (ltb (length p) (length s)) (starts_with p s) (drop (length p) s) rel h in
    (
      starts_with-drop p s b ∙ ap (λ x. p ++ x) e,
      subst (λ x. 0 < length x) e
          (rw (length-drop (length p) s) (omega (arith, ltb→lt (length p) (length s) a))),
    )

rest_after_append : (p rel : Text) → 0 < length rel → rest_after p (p ++ rel) ≡ some rel
rest_after_append p rel n =
    rw
      (
        starts_with-append p rel,
        lt→ltb (length p) (length (p ++ rel)) (rw (length-append p rel) (omega arith)),
        drop-append p rel,
      )
      refl

pub relative_inside-Inside :
    (root subject rel : Text) → relative_inside root subject ≡ some rel → Inside root subject rel
unfolding relative_inside
relative_inside-Inside root subject rel h = rest_after-Rest (prefix_of root) subject rel h

pub Inside-relative_inside :
    (root subject rel : Text) → Inside root subject rel → relative_inside root subject ≡ some rel
unfolding relative_inside
Inside-relative_inside root subject rel (e, n) = rw e (rest_after_append (prefix_of root) rel n)

-- No rest of the path makes it lie in the root.
abbrev pub Outside : Text → Text → Type 0
Outside subject root = (rel : Text) → ¬ Inside root subject rel

pub relative_inside-Outside :
    (root subject : Text) → relative_inside root subject ≡ none → Outside subject root
relative_inside-Outside root subject h rel i =
    let e = Inside-relative_inside root subject rel i in cc

-- A path lies in a root by one rest only.
pub Inside-unique :
    (root subject r q : Text) → Inside root subject r → Inside root subject q → r ≡ q
Inside-unique root subject r q i j =
    let e = Inside-relative_inside root subject r i in
    let f = Inside-relative_inside root subject q j in cc
