-- ===== src/View/Store/Routing.antt =====
-- Which sinks the bytes of a pane reach, and that projects are kept apart.
use agent_cockpit.Base.{
  ℕ, ◌<◌, ◌≡◌, ◌≢◌, refl, ap, ◌∙◌, Bool, true, false, ◌&&◌, Option, none, some, List, [], ◌∷◌,
  arith, map,
}
use agent_cockpit.Base.{
  Text, text_eq, text_eq_iff, text_eq_refl, if◌then◌else◌, inl, inr, Option-cases,
}
use agent_cockpit.Base.Maps.{get, get-set, get-delete}
use agent_cockpit.DiffCache.Keys.{SepFree, first_sep}
use agent_cockpit.Control.{output}
use agent_cockpit.View.Store.{
  TmuxStore, sink_key, add_sink, bound_from, bound_to, bind_from, bind_pane_sink, unbind,
  apply_notification,
}

-- The sets of different keys are different, and those in use are below the next.
pub record IsHeap (st : TmuxStore) : Type 0 where
  pub fresh : (k : Text) (r : ℕ) → get k st.sinks ≡ some r → r < st.next_set
  pub apart : (j k : Text) (r : ℕ) → get j st.sinks ≡ some r → get k st.sinks ≡ some r → j ≡ k

bind_from-IsHeap :
    (o : Option ℕ) (k : Text) (s : ℕ) (st : TmuxStore)
    → get k st.sinks ≡ o
    → IsHeap st
    → IsHeap (bind_from o k s st).0
bind_from-IsHeap (some r) k s st e h = record { fresh = h.fresh; apart = h.apart }
bind_from-IsHeap none k s st e h = record {
  fresh = λ j r f. ground (arith, get-set k j st.next_set st.sinks, h.fresh j r);
  apart = λ i j r f g. ground (
    arith,
    get-set k i st.next_set st.sinks,
    get-set k j st.next_set st.sinks,
    text_eq_iff k i,
    text_eq_iff k j,
    h.fresh i r,
    h.fresh j r,
    h.apart i j r,
  );
}

pub bind_pane_sink-IsHeap :
    (p pane : Text) (s : ℕ) (st : TmuxStore) → IsHeap st → IsHeap (bind_pane_sink p pane s st).0
unfolding bind_pane_sink
bind_pane_sink-IsHeap p pane s st h =
    bind_from-IsHeap (get (sink_key p pane) st.sinks) (sink_key p pane) s st refl h

pub unbind-IsHeap : (k : Text) (r s : ℕ) (st : TmuxStore) → IsHeap st → IsHeap (unbind k r s st)
unfolding unbind
unbind-IsHeap k r s st h = record {
  fresh = λ j q f. ground (arith, get-delete k j st.sinks, h.fresh j q);
  apart =
      λ i j q f g. ground (arith, get-delete k i st.sinks, get-delete k j st.sinks, h.apart i j q);
}

bound_to-bind_from :
    (o : Option ℕ) (k j : Text) (s : ℕ) (st : TmuxStore)
    → get k st.sinks ≡ o
    → IsHeap st
    → bound_to j (bind_from o k s st).0
      ≡ (if text_eq k j then add_sink s (bound_from o st) else bound_to j st)
bound_to-bind_from (some r) k j s st e h = elim (Option-cases (get j st.sinks)) [
  | inl absent ↦ ground (arith, text_eq_iff k j)
  | inr (q, found) ↦ ground (arith, text_eq_iff k j, h.apart k j r)
]
bound_to-bind_from none k j s st e h = elim (Option-cases (get j st.sinks)) [
  | inl absent ↦ ground (arith, get-set k j st.next_set st.sinks, text_eq_iff k j)
  | inr (q, found) ↦ ground (arith, get-set k j st.next_set st.sinks, text_eq_iff k j, h.fresh j q)
]

sink_key-injective :
    (p q pane r : Text)
    → SepFree p
    → SepFree q
    → sink_key p pane ≡ sink_key q r
    → (p ≡ q) × (pane ≡ r)
sink_key-injective p q pane r hp hq e = first_sep p q pane r hp hq e

sink_key-cong : (p q pane r : Text) → p ≡ q → pane ≡ r → sink_key p pane ≡ sink_key q r
sink_key-cong p q pane r e f = ap (λ x. sink_key x pane) e ∙ ap (sink_key q) f

text_eq-sink_key :
    (p q pane r : Text)
    → SepFree p
    → SepFree q
    → text_eq (sink_key p pane) (sink_key q r) ≡ (text_eq p q && text_eq pane r)
text_eq-sink_key p q pane r hp hq = ground (
  arith,
  text_eq_iff (sink_key p pane) (sink_key q r),
  text_eq_iff p q,
  text_eq_iff pane r,
  sink_key-injective p q pane r hp hq,
  sink_key-cong p q pane r,
)

abbrev pub with_bytes : List ℕ → ℕ → ℕ × List ℕ
with_bytes bytes t = (t, bytes)

module _ (N : Type 0) where
  -- The calls of sinks that a pane's bytes give rise to.
  abbrev pub deliver : Text → Text → List ℕ → TmuxStore → List (ℕ × List ℕ)
  deliver p pane bytes st = (apply_notification {N = N} p (output pane bytes) st).1

  -- A sink that is bound to a pane of a project gets the bytes of this pane of this project, once, beside those who
  -- got them; the sinks of every other pane, also of the pane with the same identifier in another project,
  -- are called as before. Project identifiers hold no unit separator.
  pub deliver-bind_pane_sink :
      (p q pane r : Text) (s : ℕ) (bytes : List ℕ) (st : TmuxStore)
      → SepFree p
      → SepFree q
      → IsHeap st
      → deliver q r bytes (bind_pane_sink p pane s st).0 ≡ (
          if text_eq p q && text_eq pane r
          then map (with_bytes bytes) (add_sink s (bound_to (sink_key p pane) st))
          else deliver q r bytes st)
  unfolding bind_pane_sink apply_notification
  deliver-bind_pane_sink p q pane r s bytes st hp hq h =
      ap (λ xs. map (with_bytes bytes) xs)
        (bound_to-bind_from (get (sink_key p pane) st.sinks) (sink_key p pane) (sink_key q r) s st
          refl h)
      ∙ rw (text_eq-sink_key p q pane r hp hq) (pick (text_eq p q && text_eq pane r))
    where
      pick :
          (b : Bool)
          → map
              (with_bytes bytes)
              (if b then add_sink s (bound_to (sink_key p pane) st) else bound_to (sink_key q r) st)
            ≡ (if b
                then map (with_bytes bytes) (add_sink s (bound_to (sink_key p pane) st))
                else map (with_bytes bytes) (bound_to (sink_key q r) st))
      pick true = refl
      pick false = refl

-- A function that `bindPaneSink` returned before the project was reset takes, when it runs, the sinks away that were
-- bound to the pane since: the bytes of the pane reach nobody.
pub bound_to-unbind_stale :
    (k : Text) (s r q : ℕ) (st : TmuxStore)
    → st.sets r ≡ s ∷ []
    → get k st.sinks ≡ some q
    → q ≢ r
    → (bound_to k st ≡ st.sets q) × (bound_to k (unbind k r s st) ≡ [])
unfolding unbind
bound_to-unbind_stale k s r q st only found other =
    ground (arith, get-delete k k st.sinks, text_eq_refl k)
