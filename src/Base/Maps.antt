-- ===== src/Base/Maps.antt =====
-- A JavaScript `Map` with string keys, in insertion order.
use Prim.Native.Nat.{◌<◌}
use mathlib.Core.Path.{◌≡◌, refl, subst, sym}
use mathlib.Core.Bool.{Bool, true, false, not}
use mathlib.Core.Option.{Option, none, some}
use mathlib.Core.List.{List, [], ◌∷◌, ◌++◌, map}
use mathlib.Core.Logic.{inl, inr}
use native.Mathlib.Omega.{arith}
use agent_cockpit.Base.Tests.{if◌then◌else◌, Bool-cases}
use agent_cockpit.Base.Lists.{keep, length, All, any}
use agent_cockpit.Base.Texts.{Text, text_eq, text_eq_iff, text_eq_refl}

module _ {ℓ} {V : Type ℓ} where
  unfoldable pub get : Text → List (Text × V) → Option V
  get k [] = none
  get k ((j, v) ∷ m) = if text_eq j k then some v else get k m

  -- An old key keeps its place; a new one goes to the end.
  unfoldable pub set : Text → V → List (Text × V) → List (Text × V)
  set k v [] = (k, v) ∷ []
  set k v ((j, w) ∷ m) = if text_eq j k then (j, v) ∷ m else (j, w) ∷ set k v m

  unfoldable pub delete : Text → List (Text × V) → List (Text × V)
  delete k m = keep (λ e. not (text_eq e.0 k)) m

  pub get-set :
      (k j : Text) (v : V) (m : List (Text × V))
      → get j (set k v m) ≡ (if text_eq k j then some v else get j m)
  unfolding get set
  get-set k j v [] = refl
  get-set k j v ((i, w) ∷ m) =
      ground (arith, text_eq_iff k j, text_eq_iff i k, text_eq_iff i j, get-set k j v m)

  pub get-set_self : (k : Text) (v : V) (m : List (Text × V)) → get k (set k v m) ≡ some v
  get-set_self k v m = rw (get-set k k v m, text_eq_refl k)

  pub get-delete :
      (k j : Text) (m : List (Text × V))
      → get j (delete k m) ≡ (if text_eq k j then none else get j m)
  unfolding get delete
  get-delete k j [] = ground arith
  get-delete k j ((i, w) ∷ m) =
      ground (arith, text_eq_iff k j, text_eq_iff i k, text_eq_iff i j, get-delete k j m)

  -- A filter that keeps or drops every entry of a key keeps or drops the key.
  pub get-keep-none :
      (p : Text × V → Bool) (j : Text) (m : List (Text × V))
      → get j m ≡ none
      → get j (keep p m) ≡ none
  unfolding get
  get-keep-none p j [] h = refl
  get-keep-none p j ((i, w) ∷ m) h = ground (arith, get-keep-none p j m)

  pub length-set-pos : (k : Text) (v : V) (m : List (Text × V)) → 0 < length (set k v m)
  unfolding set
  length-set-pos k v [] = omega arith
  length-set-pos k v ((i, w) ∷ m) = ground arith

  -- A filter that treats all entries of a key alike.
  pub get-keep :
      (p : Text × V → Bool) (k : Text) (b : Bool) (m : List (Text × V))
      → All (λ e. text_eq e.0 k ≡ true → p e ≡ b) m
      → get k (keep p m) ≡ (if b then get k m else none)
  unfolding get
  get-keep p k true [] h = refl
  get-keep p k false [] h = refl
  get-keep p k b ((i, w) ∷ m) (here, later) = ground (arith, get-keep p k b m later)

  pub set_new :
      (k : Text) (v : V) (m : List (Text × V)) → get k m ≡ none → set k v m ≡ m ++ (k, v) ∷ []
  unfolding get set
  set_new k v [] h = refl
  set_new k v ((i, w) ∷ m) h = ground (arith, set_new k v m)

  pub All-set {κ} :
      (P : Text × V → Type κ) (k : Text) (v : V) (m : List (Text × V))
      → ((j : Text) → P (j, v))
      → All P m
      → All P (set k v m)
  unfolding set
  All-set P k v [] h a = (h k, tt)
  All-set P k v ((i, w) ∷ m) h (here, later) = elim (Bool-cases (text_eq i k)) [
    | inl same ↦ rw same (h i, later)
    | inr other ↦ rw other (here, All-set P k v m h later)
  ]

  pub All-get {κ} :
      (P : V → Type κ) (k : Text) (m : List (Text × V)) {v : V}
      → All (λ e. P e.1) m
      → get k m ≡ some v
      → P v
  unfolding get
  All-get P k [] a h = absurd (ground arith)
  All-get P k ((i, w) ∷ m) {v} (here, later) h = elim (Bool-cases (text_eq i k)) [
    | inl same ↦ subst P (ground arith) here
    | inr other ↦ All-get P k m later (ground arith)
  ]

  pub All-keep {κ} :
      (P : Text × V → Type κ) (p : Text × V → Bool) (m : List (Text × V))
      → All P m
      → All P (keep p m)
  All-keep P p [] a = tt
  All-keep P p (x ∷ m) (here, later) = elim (Bool-cases (p x)) [
    | inl kept ↦ rw kept (here, All-keep P p m later)
    | inr gone ↦ rw gone (All-keep P p m later)
  ]

  abbrev pub keys : List (Text × V) → List Text
  keys m = map (λ e. e.0) m

  pub keys-set_old :
      (k : Text) (v w : V) (m : List (Text × V)) → get k m ≡ some w → keys (set k v m) ≡ keys m
  unfolding get set
  keys-set_old k v w [] h = cc
  keys-set_old k v w ((i, u) ∷ m) h = ground (arith, keys-set_old k v w m)

  pub keys-set_new :
      (k : Text) (v : V) (m : List (Text × V))
      → get k m ≡ none
      → keys (set k v m) ≡ keys m ++ k ∷ []
  unfolding get set
  keys-set_new k v [] h = refl
  keys-set_new k v ((i, u) ∷ m) h = ground (arith, keys-set_new k v m)

  pub keys-delete :
      (k : Text) (m : List (Text × V)) → keys (delete k m) ≡ keep (λ j. not (text_eq j k)) (keys m)
  unfolding delete
  keys-delete k [] = refl
  keys-delete k ((i, u) ∷ m) = ground (arith, keys-delete k m)

  pub any-keys-none :
      (k : Text) (m : List (Text × V)) → get k m ≡ none → any (λ j. text_eq j k) (keys m) ≡ false
  unfolding get
  any-keys-none k [] h = refl
  any-keys-none k ((i, u) ∷ m) h = ground (arith, any-keys-none k m)

  -- A write of what is there changes nothing.
  pub set-get : (k : Text) (v : V) (m : List (Text × V)) → get k m ≡ some v → set k v m ≡ m
  unfolding get set
  set-get k v [] h = cc
  set-get k v ((i, u) ∷ m) h = ground (arith, set-get k v m)

  pub set-set : (k : Text) (v w : V) (m : List (Text × V)) → set k w (set k v m) ≡ set k w m
  unfolding set
  set-set k v w [] = rw (text_eq_refl k) refl
  set-set k v w ((i, u) ∷ m) = ground (arith, set-set k v w m)

  -- For a predicate of the key that is written.
  pub All-set_at {κ} :
      (P : Text × V → Type κ) (k : Text) (v : V) (m : List (Text × V))
      → P (k, v)
      → All P m
      → All P (set k v m)
  unfolding set
  All-set_at P k v [] h a = (h, tt)
  All-set_at P k v ((i, w) ∷ m) h (here, later) = elim (Bool-cases (text_eq i k)) [
    | inl same ↦ rw same (subst (λ j. P (j, v)) (sym ((text_eq_iff i k).0 same)) h, later)
    | inr other ↦ rw other (here, All-set_at P k v m h later)
  ]

  pub All-find {κ} :
      (P : Text × V → Type κ) (k : Text) (m : List (Text × V)) {v : V}
      → All P m
      → get k m ≡ some v
      → P (k, v)
  unfolding get
  All-find P k [] a h = absurd (ground arith)
  All-find P k ((i, w) ∷ m) {v} (here, later) h = elim (Bool-cases (text_eq i k)) [
    | inl same ↦ subst P (ground (arith, text_eq_iff i k)) here
    | inr other ↦ All-find P k m later (ground arith)
  ]
