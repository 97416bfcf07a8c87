-- ===== src/Watch/Hub/Dispatch.antt =====
-- Who is called for an event, and when the hub is attached.
use agent_cockpit.Base.{
  ℕ, ◌≡◌, refl, ap, sym, ◌∙◌, Bool, true, false, ◌||◌, not, Option, none, some,
}
use agent_cockpit.Base.{List, [], ◌∷◌, ◌++◌, arith, Text, any, length, inl, inr, keep, map}
use agent_cockpit.Base.{◌==◌, Bool-cases, ltb, length-append, length-keep}
use mathlib.Core.Path.{fun_ext}
use agent_cockpit.Watch.Policy.{WatchCategory, working_tree, git_state, beads, classify_watch_path}
use agent_cockpit.Watch.Ingest.{same_category, add_category}
use agent_cockpit.Watch.Hub.{HubWatchEvent, RawEvent, Listener, Hub, default, classify_all, wants}
use agent_cockpit.Watch.Hub.{deliver, handle_raw, subscribe_watch, unsubscribe}

-- The path has a category that the listener is interested in.
abbrev pub interested : Option WatchCategory → Listener → Bool
interested none l = false
interested (some c) l = any (same_category c) l.interest

abbrev pub concerns : List Text → Listener → Bool
concerns raw l = any (λ p. interested (classify_watch_path p) l) raw

wants-any :
    (l : Listener) (cs : List WatchCategory)
    → wants cs l ≡ any (λ c. any (same_category c) l.interest) cs
unfolding wants
wants-any l [] = refl
wants-any l (c ∷ cs) = ground (arith, wants-any l cs)

same_category-eq : (c d : WatchCategory) → same_category c d ≡ true → c ≡ d
same_category-eq working_tree working_tree h = refl
same_category-eq git_state git_state h = refl
same_category-eq beads beads h = refl
same_category-eq _ _ h = cc

wants_of_member :
    (l : Listener) (c : WatchCategory) (cs : List WatchCategory)
    → any (same_category c) cs ≡ true
    → (wants cs l || any (same_category c) l.interest) ≡ wants cs l
unfolding wants
wants_of_member l c [] h = cc
wants_of_member l c (d ∷ cs) h = elim (Bool-cases (same_category c d)) [
  | inl same ↦ rw (same_category-eq c d same) (ground arith)
  | inr other ↦ ground (arith, wants_of_member l c cs)
]

wants-snoc :
    (l : Listener) (c : WatchCategory) (cs : List WatchCategory)
    → wants (cs ++ c ∷ []) l ≡ (wants cs l || any (same_category c) l.interest)
unfolding wants
wants-snoc l c [] = ground arith
wants-snoc l c (d ∷ cs) = ground (arith, wants-snoc l c cs)

wants-add_category :
    (l : Listener) (c : WatchCategory) (cs : List WatchCategory)
    → wants (add_category c cs) l ≡ (wants cs l || any (same_category c) l.interest)
wants-add_category l c cs = elim (Bool-cases (any (same_category c) cs)) [
  | inl old ↦ rw old (sym (wants_of_member l c cs old))
  | inr new ↦ rw new (wants-snoc l c cs)
]

or_assoc : (a b c : Bool) → ((a || b) || c) ≡ (a || (b || c))
or_assoc a b c = ground arith

classify_all-wants :
    (l : Listener) (raw paths : List Text) (cs : List WatchCategory)
    → wants (classify_all raw paths cs).1 l ≡ (wants cs l || concerns raw l)
unfolding classify_all
classify_all-wants l [] paths cs = ground arith
classify_all-wants l (p ∷ raw) paths cs = go (classify_watch_path p) (classify_all-wants l raw)
  where
    go :
        (o : Option WatchCategory)
        → ((paths' : List Text) (cs' : List WatchCategory)
            → wants (classify_all raw paths' cs').1 l ≡ (wants cs' l || concerns raw l))
        → wants
            (elim o as (λ _. List Text × List WatchCategory) [
              | none ↦ classify_all raw paths cs
              | some c ↦ classify_all raw (paths ++ p ∷ []) (add_category c cs)
            ]).1
            l
          ≡ (wants cs l || (interested o l || concerns raw l))
    go none ih = ih paths cs
    go (some c) ih =
        ih (paths ++ p ∷ []) (add_category c cs)
        ∙ rw (wants-add_category l c cs)
            (or_assoc (wants cs l) (any (same_category c) l.interest) (concerns raw l))

wants-nil : (l : Listener) (cs : List WatchCategory) → (length cs == 0) ≡ true → wants cs l ≡ false
unfolding wants
wants-nil l [] h = refl
wants-nil l (c ∷ cs) h = ground arith

deliver-called :
    (cs : List WatchCategory) (e : HubWatchEvent) (ls : List Listener)
    → map (λ d. d.0) (deliver cs e ls) ≡ map (λ l. l.id) (keep (λ l. wants cs l) ls)
unfolding deliver
deliver-called cs e [] = refl
deliver-called cs e (l ∷ ls) = ground (arith, deliver-called cs e ls)

keep_none :
    (p : Listener → Bool) (ls : List Listener) → ((l : Listener) → p l ≡ false) → keep p ls ≡ []
keep_none p [] h = refl
keep_none p (l ∷ ls) h = rw (h l) (keep_none p ls h)

-- An event calls the listeners that are interested in the category of one of its paths, each once
-- and in the order of registration, and no other.
pub handle_raw-called :
    (e : RawEvent) (ls : List Listener)
    → map (λ d. d.0) (handle_raw e ls) ≡ map (λ l. l.id) (keep (concerns (default [] e.paths)) ls)
unfolding handle_raw wants
handle_raw-called e ls = rw same (elim (Bool-cases (length cs == 0)) [
  | inl nothing ↦ rw (nothing, keep_none (λ l. wants cs l) ls (λ l. wants-nil l cs nothing))
  | inr something ↦ rw something (deliver-called cs _ ls)
])
  where
    raw : List Text
    raw = default [] e.paths

    cs : List WatchCategory
    cs = (classify_all raw [] []).1

    same : keep (concerns raw) ls ≡ keep (λ l. wants cs l) ls
    same =
        ap {B = List Listener} (λ p. keep p ls)
          (fun_ext (λ l. sym (classify_all-wants l raw [] [])))

-- The provider subscription is held exactly while there is a listener.
abbrev pub IsAttached : Hub → Type 0
IsAttached h = h.attached ≡ ltb 0 (length h.listeners)

pub data Op : Type 0 where
  add : Listener → Op
  remove : ℕ → Op

abbrev pub perform : Op → Hub → Hub
perform (add l) h = subscribe_watch l h
perform (remove id) h = unsubscribe id h

unfoldable pub performs : List Op → Hub → Hub
performs [] h = h
performs (o ∷ os) h = performs os (perform o h)

perform-IsAttached : (o : Op) (h : Hub) → IsAttached h → IsAttached (perform o h)
unfolding subscribe_watch unsubscribe
perform-IsAttached (add l) h v = ground (arith, length-append h.listeners (l ∷ []))
perform-IsAttached (remove id) h v =
    ground (arith, length-keep (λ (l : Listener). not (l.id == id)) h.listeners)

-- However panels subscribe and unsubscribe, also twice, the hub holds its one provider subscription
-- exactly while some listener is registered.
pub performs-IsAttached : (os : List Op) (h : Hub) → IsAttached h → IsAttached (performs os h)
unfolding performs
performs-IsAttached [] h v = v
performs-IsAttached (o ∷ os) h v = performs-IsAttached os (perform o h) (perform-IsAttached o h v)
