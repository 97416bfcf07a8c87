-- ===== src/DiffCache/Invalidate.antt =====
-- What a watch batch drops from the cache, and what it leaves.
use agent_cockpit.Base.{◌≡◌, refl, ap, sym, ◌∙◌, Bool, true, false, not, ◌&&◌, Option, none, some}
use agent_cockpit.Base.{
  List, [], ◌∷◌, Text, text_eq, text_eq_iff, All, arith, length, Bool-cases, inl, inr, ==_iff,
}
use agent_cockpit.Base.{if◌then◌else◌, any, ◌==◌, ◌||◌}
use agent_cockpit.Base.Maps
use agent_cockpit.DiffCache.{Project, Cache, key, bundle_of, get}
use agent_cockpit.DiffCache.{dropped, watched, on_watch, is_git_state_signal}
use agent_cockpit.DiffCache.Keys.{SepFree, key-injective}
use agent_cockpit.DiffCache.Filed.{IsFiled, IsProject, IsCache}

-- Whether a batch makes the bundle of a worktree's file stale.
abbrev pub is_stale : List Text → Option Text → Text → Text → Bool
is_stale paths (some tag) w p = text_eq w tag && any (text_eq p) paths
is_stale paths none w p = any is_git_state_signal paths || any (text_eq p) paths

module _ {ℓ} {B : Type ℓ} where
  -- The entries under one key are dropped together.
  dropped-key :
      (paths : List Text) (tag : Option Text) (w p : Text) (b : Option Text) (m : Project B)
      → SepFree w
      → SepFree p
      → All IsFiled m
      → All
          (λ e.
            text_eq e.0 (key w p b) ≡ true
            → not (dropped paths tag e.1)
              ≡ not
                  (dropped paths tag (record { path = p; worktree_path = w; bundle = e.1.bundle })))
          m
  dropped-key paths tag w p b [] hw hp a = tt
  dropped-key paths tag w p b ((k, e) ∷ m) hw hp ((b', filed, hw', hp'), later) = (
    λ same.
        let eq : key e.worktree_path e.path b' ≡ key w p b =
          sym filed ∙ (text_eq_iff k (key w p b)).0 same in
        let (ws, ps, _) = key-injective _ _ _ _ b' b hw' hw hp' hp eq in
        ap {B = Bool}
          (λ w.
            not
              (dropped paths tag (record { path = e.path; worktree_path = w; bundle = e.bundle })))
          ws
        ∙ ap {B = Bool}
            (λ p.
              not (dropped paths tag (record { path = p; worktree_path = w; bundle = e.bundle })))
            ps,
    dropped-key paths tag w p b m hw hp later,
  )

  watched-get :
      (paths : List Text) (tag : Option Text) (w p : Text) (b : Option Text) (m : Project B)
      → SepFree w
      → SepFree p
      → All IsFiled m
      → bundle_of (Maps.get (key w p b) (watched paths tag m))
        ≡ (if is_stale paths tag w p then none else bundle_of (Maps.get (key w p b) m))
  unfolding watched dropped Maps.get
  watched-get paths (some t) w p b m hw hp a =
      ap bundle_of (Maps.get-keep _ (key w p b) _ m (dropped-key paths (some t) w p b m hw hp a))
      ∙ ground arith
  watched-get paths none w p b m hw hp a = elim (Bool-cases (any is_git_state_signal paths)) [
    | inl signal ↦ rw signal refl
    | inr plain ↦ rw plain (
        ap bundle_of (Maps.get-keep _ (key w p b) _ m (dropped-key paths none w p b m hw hp a))
        ∙ ground arith)
  ]

  -- A watch batch drops exactly the stale bundles of its own project. Without a worktree, a git-state
  -- path makes every bundle stale and another path the bundles of that path; with one, only bundles of
  -- that worktree can be stale, by their path. The cache files its entries, and the worktree and the path
  -- asked for hold no unit separator.
  pub on_watch-get :
      (i j w p : Text) (paths : List Text) (tag b : Option Text) (c : Cache B)
      → SepFree w
      → SepFree p
      → IsCache c
      → get j w p b (on_watch i paths tag c)
        ≡ (if text_eq i j && is_stale paths tag w p then none else get j w p b c)
  unfolding get on_watch Maps.get
  on_watch-get i j w p paths tag b c hw hp v = go (Maps.get i c) refl
    where
      found : Option (Project B) → Option B
      found o =
          bundle_of (Maps.get (key w p b) (elim o as (λ _. Project B) [ none ↦ [] | some m ↦ m ]))

      other :
          (o : Option (Project B))
          → Maps.get i c ≡ o
          → text_eq i j ≡ true
          → found (Maps.get j c) ≡ found o
      other o h same = ap found (ap (λ k. Maps.get k c) (sym ((text_eq_iff i j).0 same)) ∙ h)

      only_if :
          (x y : Option (Project B)) (t : Bool)
          → text_eq i j ≡ t
          → (if text_eq i j then x else y) ≡ (if t then x else y)
      only_if x y t h = rw h refl

      clash : {t : Bool} → t ≡ true → t ≡ false → ⊥
      clash p q = ground arith

      quiet : (t : Option Text) → length paths ≡ 0 → is_stale paths t w p ≡ false
      quiet t h = stale_nil paths t h
        where
          stale_nil : (l : List Text) (t : Option Text) → length l ≡ 0 → is_stale l t w p ≡ false
          stale_nil [] none e = refl
          stale_nil [] (some t) e = ground arith
          stale_nil (x ∷ l) t e = absurd (omega arith)

      keeps :
          (s : Bool)
          → (text_eq i j ≡ true → s ≡ true → found (Maps.get j c) ≡ none)
          → found (Maps.get j c) ≡ (if text_eq i j && s then none else found (Maps.get j c))
      keeps s h = elim (Bool-cases (text_eq i j)) [
        | inr differs ↦ rw differs refl
        | inl same ↦ elim (Bool-cases s) [
          | inl stale ↦ rw (same, stale) (h same stale)
          | inr fresh ↦ rw (same, fresh) refl
        ]
      ]

      go :
          (o : Option (Project B))
          → Maps.get i c ≡ o
          → found (
              Maps.get j (elim o as (λ _. Cache B) [
                | none ↦ c
                | some m ↦ if length paths == 0 then c else Maps.set i (watched paths tag m) c
              ]))
            ≡ (if text_eq i j && is_stale paths tag w p then none else found (Maps.get j c))
      go none h = keeps (is_stale paths tag w p) (λ same _. other none h same)
      go (some m) h = elim (Bool-cases (length paths == 0)) [
        | inl empty ↦ rw empty (
            keeps (is_stale paths tag w p)
              (λ same stale. absurd (clash stale (quiet tag ((==_iff (length paths) 0).0 empty)))))
        | inr full ↦ rw full (elim (Bool-cases (text_eq i j)) [
          | inr differs ↦
              ap found (Maps.get-set i j (watched paths tag m) c ∙ only_if _ _ false differs)
              ∙ rw differs refl
          | inl same ↦
              ap found (Maps.get-set i j (watched paths tag m) c ∙ only_if _ _ true same)
              ∙ watched-get paths tag w p b m hw hp (Maps.All-get IsProject i c v h).1
              ∙ rw (same, other (some m) h same) refl
        ])
      ]
