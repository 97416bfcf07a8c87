-- ===== src/DiffCache/Bounds.antt =====
-- The size of a project's cache, and that what was just stored is found.
use agent_cockpit.Base.{◌≤◌, ◌≡◌, refl, ap, ◌∙◌, Option, none, some}
use agent_cockpit.Base.{
  [], ◌∷◌, ◌++◌, Text, text_eq_refl, All, arith, length, ltb, Bool-cases, inl, inr,
}
use agent_cockpit.Base.Maps
use agent_cockpit.DiffCache.{Entry, Project, Cache, key, entries, bundle_of, get, evict, put, set}
use agent_cockpit.DiffCache.{max_entries_per_project}

module _ {ℓ} {B : Type ℓ} where
  pub length-evict : (m : Project B) → length (evict m) ≤ 64
  unfolding evict
  length-evict [] = omega arith
  length-evict (e ∷ m) = ground (arith, length-evict m)

  get-append_new :
      (k : Text) (e : Entry B) (m : Project B)
      → Maps.get k m ≡ none
      → Maps.get k (m ++ (k, e) ∷ []) ≡ some e
  unfolding Maps.get
  get-append_new k e [] h = rw (text_eq_refl k) refl
  get-append_new k e ((j, d) ∷ m) h = ground (arith, get-append_new k e m)

  get-evict_last :
      (k : Text) (e : Entry B) (m : Project B)
      → Maps.get k m ≡ none
      → Maps.get k (evict (m ++ (k, e) ∷ [])) ≡ some e
  unfolding evict Maps.get
  get-evict_last k e [] h = rw (text_eq_refl k)
  get-evict_last k e ((j, d) ∷ m) h = ground (arith, get-evict_last k e m, get-append_new k e m)

  pub evict-All {κ} : (P : Text × Entry B → Type κ) (m : Project B) → All P m → All P (evict m)
  unfolding evict
  evict-All P [] a = tt
  evict-All P (e ∷ m) (here, later) =
      elim (Bool-cases (ltb max_entries_per_project (length (e ∷ m)))) [
        | inl over ↦ rw over (evict-All P m later)
        | inr fits ↦ rw fits (here, later)
      ]

  put_lem : (k : Text) (e : Entry B) (m : Project B) → Maps.get k (put k e m) ≡ some e
  unfolding put
  put_lem k e m =
      let fresh : Maps.get k (Maps.delete k m) ≡ none =
        rw (Maps.get-delete k k m, text_eq_refl k) in
      rw (Maps.set_new k e (Maps.delete k m) fresh) (get-evict_last k e (Maps.delete k m) fresh)

  -- What was just stored is found again, whatever was evicted to make room for it.
  pub get-set :
      (project_id worktree_path path : Text) (baseline : Option Text) (bundle : B) (c : Cache B)
      → get project_id worktree_path path baseline
          (set project_id worktree_path path baseline bundle c)
        ≡ some bundle
  unfolding get set
  get-set i w p b v c =
      let e : Entry B = record { path = p; worktree_path = w; bundle = v } in
      let m : Project B = put (key w p b) e (entries i c) in
      ap
        (λ o.
          bundle_of (Maps.get (key w p b) (elim o as (λ _. Project B) [ none ↦ [] | some m ↦ m ])))
        (Maps.get-set_self i m c)
      ∙ ap bundle_of (put_lem (key w p b) e (entries i c))
