-- ===== src/Control/Wrapper.antt =====
-- A text without the sequences of attaching and detaching is left alone by `stripDcsWrapper`.
use agent_cockpit.Base.{zero, ◌≡◌, refl, ap, ◌∙◌, Bool, false, [], ◌∷◌, ◌++◌}
use agent_cockpit.Base.{Text, arith, starts_with, ◌||◌}
use agent_cockpit.Control.{dcs_introducer, dcs_terminator, remove_all, strip_dcs_wrapper}

-- Whether a text stands somewhere in another.
abbrev pub occurs : Text → Text → Bool
occurs sub [] = false
occurs sub (c ∷ s) = starts_with sub (c ∷ s) || occurs sub s

-- Neither what wraps the stream on attaching nor what ends it on detaching.
abbrev pub IsUnwrapped : Text → Type 0
IsUnwrapped s = (occurs dcs_introducer s ≡ false) × (occurs dcs_terminator s ≡ false)

pub neither : (a b : Bool) → (a || b) ≡ false → (a ≡ false) × (b ≡ false)
neither a b h = ground arith

remove_all_absent : (sub s : Text) → occurs sub s ≡ false → remove_all sub zero s ≡ s
unfolding remove_all
remove_all_absent sub [] h = refl
remove_all_absent sub (c ∷ s) h =
    let (here, later) = neither (starts_with sub (c ∷ s)) (occurs sub s) h in
    rw (here, remove_all_absent sub s later) refl

pub strip-IsUnwrapped : (s : Text) → IsUnwrapped s → strip_dcs_wrapper s ≡ s
unfolding strip_dcs_wrapper
strip-IsUnwrapped s (begins, ends) =
    ap (remove_all dcs_terminator zero) (remove_all_absent dcs_introducer s begins)
    ∙ remove_all_absent dcs_terminator s ends

starts_with-append : (sub x y : Text) → starts_with sub (x ++ y) ≡ false → starts_with sub x ≡ false
starts_with-append [] x y h = h
starts_with-append (d ∷ sub) [] y h = refl
starts_with-append (d ∷ sub) (c ∷ x) y h = ground (arith, starts_with-append sub x y)

occurs_front : (sub x y : Text) → occurs sub (x ++ y) ≡ false → occurs sub x ≡ false
occurs_front sub [] y h = refl
occurs_front sub (c ∷ x) y h =
    let (here, later) = neither (starts_with sub (c ∷ (x ++ y))) (occurs sub (x ++ y)) h in
    rw (starts_with-append sub (c ∷ x) y here) (occurs_front sub x y later)

occurs_back : (sub x y : Text) → occurs sub (x ++ y) ≡ false → occurs sub y ≡ false
occurs_back sub [] y h = h
occurs_back sub (c ∷ x) y h =
    occurs_back sub x y (neither (starts_with sub (c ∷ (x ++ y))) (occurs sub (x ++ y)) h).1

pub front-IsUnwrapped : (x y : Text) → IsUnwrapped (x ++ y) → IsUnwrapped x
front-IsUnwrapped x y (a, b) =
    (occurs_front dcs_introducer x y a, occurs_front dcs_terminator x y b)

pub back-IsUnwrapped : (x y : Text) → IsUnwrapped (x ++ y) → IsUnwrapped y
back-IsUnwrapped x y (a, b) = (occurs_back dcs_introducer x y a, occurs_back dcs_terminator x y b)
