-- ===== src/DiffCache/Filed.antt =====
-- The entries of the cache stand under their own keys, whatever is done.
use agent_cockpit.Base.{◌≤◌, ◌≡◌, refl, not, Option, none, some}
use agent_cockpit.Base.{
  List, [], ◌∷◌, Text, text_eq, text_eq_refl, All, arith, length, Bool-cases, inl, inr,
}
use agent_cockpit.Base.{length-keep, if◌then◌else◌, any, ◌==◌}
use agent_cockpit.Base.Maps
use agent_cockpit.DiffCache.{Entry, Project, Cache, key, entries, put, set}
use agent_cockpit.DiffCache.{dropped, watched, on_watch, evict_project, clear, is_git_state_signal}
use agent_cockpit.DiffCache.Keys.{SepFree}
use agent_cockpit.DiffCache.Bounds.{length-evict, evict-All}

-- An entry stands under the key of its own worktree and path.
abbrev pub IsFiled {ℓ} : {B : Type ℓ} → Text × Entry B → Type 0
IsFiled (k, e) =
    (b : Option Text) × (k ≡ key e.worktree_path e.path b)
    × SepFree e.worktree_path
    × SepFree e.path

abbrev pub IsProject {ℓ} : {B : Type ℓ} → Project B → Type 0
IsProject m = (length m ≤ 64) × All IsFiled m

abbrev pub IsCache {ℓ} : {B : Type ℓ} → Cache B → Type 0
IsCache c = All (λ p. IsProject p.1) c

pub data Op {ℓ} (B : Type ℓ) : Type ℓ where
  set_op : Text → Text → Text → Option Text → B → Op B
  watch_op : Text → List Text → Option Text → Op B
  evict_op : Text → Op B
  clear_op : Op B

-- A stored worktree or path holds no unit separator.
abbrev pub IsClean {ℓ} : {B : Type ℓ} → Op B → Type 0
IsClean (set_op i w p b v) = SepFree w × SepFree p
IsClean (watch_op i paths tag) = Unit
IsClean (evict_op i) = Unit
IsClean clear_op = Unit

module _ {ℓ} {B : Type ℓ} where
  unfoldable pub perform : Op B → Cache B → Cache B
  perform (set_op i w p b v) c = set i w p b v c
  perform (watch_op i paths tag) c = on_watch i paths tag c
  perform (evict_op i) c = evict_project i c
  perform clear_op c = clear c

  unfoldable pub performs : List (Op B) → Cache B → Cache B
  performs [] c = c
  performs (o ∷ os) c = performs os (perform o c)

  set-All {κ} :
      (P : Text × Entry B → Type κ) (k : Text) (e : Entry B) (m : Project B)
      → P (k, e)
      → All P m
      → Maps.get k m ≡ none
      → All P (Maps.set k e m)
  unfolding Maps.get Maps.set
  set-All P k e [] h a fresh = (h, tt)
  set-All P k e ((j, d) ∷ m) h (here, later) fresh = elim (Bool-cases (text_eq j k)) [
    | inl same ↦ absurd (ground (arith, fresh))
    | inr other ↦ rw other (here, set-All P k e m h later (ground arith))
  ]

  put-IsProject :
      (k : Text) (e : Entry B) (m : Project B)
      → IsFiled (k, e)
      → IsProject m
      → IsProject (put k e m)
  unfolding put Maps.delete
  put-IsProject k e m filed (_, a) =
      let fresh : Maps.get k (Maps.delete k m) ≡ none =
        rw (Maps.get-delete k k m, text_eq_refl k) refl in
      let left : All IsFiled (Maps.delete k m) = Maps.All-keep IsFiled _ m a in
      (length-evict _, evict-All IsFiled _ (set-All IsFiled k e _ filed left fresh))

  watched-IsProject :
      (paths : List Text) (tag : Option Text) (m : Project B)
      → IsProject m
      → IsProject (watched paths tag m)
  unfolding watched
  watched-IsProject paths (some t) m (bound, a) = (
    ground (arith, length-keep (λ (e : Text × Entry B). not (dropped paths (some t) e.1)) m),
    Maps.All-keep IsFiled _ m a,
  )
  watched-IsProject paths none m (bound, a) = elim (Bool-cases (any is_git_state_signal paths)) [
    | inl signal ↦ rw signal (omega arith, tt)
    | inr plain ↦ rw plain (
      ground (arith, length-keep (λ (e : Text × Entry B). not (dropped paths none e.1)) m),
      Maps.All-keep IsFiled _ m a,
    )
  ]

  entries-IsProject : (i : Text) (c : Cache B) → IsCache c → IsProject (entries i c)
  entries-IsProject i c v = go (Maps.get i c) refl
    where
      go :
          (o : Option (Project B))
          → Maps.get i c ≡ o
          → IsProject (elim o as (λ _. Project B) [ none ↦ [] | some m ↦ m ])
      go none h = (omega arith, tt)
      go (some m) h = Maps.All-get IsProject i c v h

  perform-IsCache : (o : Op B) (c : Cache B) → IsClean o → IsCache c → IsCache (perform o c)
  unfolding perform set evict_project on_watch Maps.delete
  perform-IsCache (set_op i w p b x) c (hw, hp) v =
      Maps.All-set (λ p. IsProject p.1) i _ c
        (λ _.
          put-IsProject (key w p b) (record { path = p; worktree_path = w; bundle = x }) _
            (b, refl, hw, hp) (entries-IsProject i c v))
        v
  perform-IsCache (watch_op i paths tag) c h v = go (Maps.get i c) refl
    where
      go :
          (o : Option (Project B))
          → Maps.get i c ≡ o
          → IsCache (elim o as (λ _. Cache B) [
            | none ↦ c
            | some m ↦ if length paths == 0 then c else Maps.set i (watched paths tag m) c
          ])
      go none h = v
      go (some m) h = elim (Bool-cases (length paths == 0)) [
        | inl empty ↦ rw empty v
        | inr full ↦ rw full (
            Maps.All-set (λ p. IsProject p.1) i _ c
              (λ _. watched-IsProject paths tag m (Maps.All-get IsProject i c v h)) v)
      ]
  perform-IsCache (evict_op i) c h v = Maps.All-keep (λ p. IsProject p.1) _ c v
  perform-IsCache clear_op c h v = tt

  -- Whatever is stored, invalidated and evicted, every project's map keeps at most 64 entries, each under
  -- the key of its own worktree and path, as long as no stored worktree or path holds a unit separator.
  pub performs-IsCache :
      (os : List (Op B)) (c : Cache B) → All IsClean os → IsCache c → IsCache (performs os c)
  unfolding performs
  performs-IsCache [] c h v = v
  performs-IsCache (o ∷ os) c (here, later) v =
      performs-IsCache os (perform o c) later (perform-IsCache o c here v)
