-- ===== src/Topology/Newest.antt =====
-- A late snapshot never takes the place of a newer one.
use agent_cockpit.Base.{
  ℕ, ◌≤◌, ◌≡◌, refl, ap, sym, ◌∙◌, Bool, true, false, ◌&&◌, Option, none, some, List, [], ◌∷◌,
}
use agent_cockpit.Base.{
  Text, text_eq, text_eq_iff, arith, if◌then◌else◌, ltb, ◌==◌, ==_iff, All, Bool-cases, inl, inr,
}
use agent_cockpit.Topology.{MuxTopologySnapshot, same_nullable, same_id, reconcile_mux_topology}

same_nullable_lem : (a b : Option Text) → same_nullable a b ≡ true → a ≡ b
same_nullable_lem none none h = refl
same_nullable_lem none (some t) h = absurd (ground arith)
same_nullable_lem (some s) none h = absurd (ground arith)
same_nullable_lem (some s) (some t) h = ap some ((text_eq_iff s t).0 h)

same_id_lem : (a b : Option (Option Text)) → same_id a b ≡ true → a ≡ b
same_id_lem none none h = refl
same_id_lem none (some t) h = absurd (ground arith)
same_id_lem (some s) none h = absurd (ground arith)
same_id_lem (some s) (some t) h = ap some (same_nullable_lem s t h)

module _ {ℓ} {S : Type ℓ} (stringify : S → Text) where
  -- Two snapshots with the same catalog: the same active session, and sessions that are written the same.
  abbrev pub SameCatalog : MuxTopologySnapshot S → MuxTopologySnapshot S → Type 0
  SameCatalog a b =
      (a.active_session_id ≡ b.active_session_id) × (stringify a.sessions ≡ stringify b.sessions)

  abbrev pub Counts : MuxTopologySnapshot S → MuxTopologySnapshot S → Type 0
  Counts incoming r =
      (r.epoch ≡ incoming.epoch) × (r.revision ≡ incoming.revision) × SameCatalog r incoming

  -- A snapshot of the current daemon that is not late counts: its epoch, its revision and its catalog are those
  -- of what is kept, whether or not its objects are.
  pub reconcile-SameCatalog :
      (current incoming : MuxTopologySnapshot S) (retired : List Text)
      → incoming.epoch ≡ current.epoch
      → current.revision ≤ incoming.revision
      → Counts incoming (reconcile_mux_topology stringify current incoming retired)
  unfolding reconcile_mux_topology
  reconcile-SameCatalog current incoming retired same newer =
      rw (here, late)
        (pick (same_id incoming.active_session_id current.active_session_id)
          (text_eq (stringify incoming.sessions) (stringify current.sessions)) refl refl
          (incoming.revision == current.revision) refl)
    where
      here : text_eq incoming.epoch current.epoch ≡ true
      here = (text_eq_iff incoming.epoch current.epoch).1 same

      late : ltb incoming.revision current.revision ≡ false
      late = ground arith

      pick :
          (a b : Bool)
          → same_id incoming.active_session_id current.active_session_id ≡ a
          → text_eq (stringify incoming.sessions) (stringify current.sessions) ≡ b
          → (c : Bool) → (incoming.revision == current.revision) ≡ c
          → Counts incoming (
              if a && b
              then (if c then current else record incoming { sessions = current.sessions })
              else incoming)
      pick true true ha hb true hc = (
        sym same,
        sym ((==_iff incoming.revision current.revision).0 hc),
        (
          sym (same_id_lem incoming.active_session_id current.active_session_id ha),
          sym ((text_eq_iff (stringify incoming.sessions) (stringify current.sessions)).0 hb),
        ),
      )
      pick true true ha hb false hc = (
        refl,
        refl,
        (refl, sym ((text_eq_iff (stringify incoming.sessions) (stringify current.sessions)).0 hb)),
      )
      pick true false ha hb c hc = (refl, refl, (refl, refl))
      pick false b ha hb c hc = (refl, refl, (refl, refl))

  unfoldable pub reconciles :
      MuxTopologySnapshot S → List (MuxTopologySnapshot S) → List Text → MuxTopologySnapshot S
  reconciles current [] retired = current
  reconciles current (i ∷ is) retired =
      reconciles (reconcile_mux_topology stringify current i retired) is retired

  abbrev pub newest : ℕ → List (MuxTopologySnapshot S) → ℕ
  newest n [] = n
  newest n (i ∷ is) = newest (if ltb i.revision n then n else i.revision) is

  late_stays :
      (current i : MuxTopologySnapshot S) (retired : List Text)
      → i.epoch ≡ current.epoch
      → ltb i.revision current.revision ≡ true
      → reconcile_mux_topology stringify current i retired ≡ current
  unfolding reconcile_mux_topology
  late_stays current i retired same late =
      rw ((text_eq_iff i.epoch current.epoch).1 same, late) refl

  step_revision :
      (current i : MuxTopologySnapshot S) (retired : List Text)
      → i.epoch ≡ current.epoch
      → ((reconcile_mux_topology stringify current i retired).epoch ≡ current.epoch)
        × ((reconcile_mux_topology stringify current i retired).revision
            ≡ (if ltb i.revision current.revision then current.revision else i.revision))
  step_revision current i retired same = elim (Bool-cases (ltb i.revision current.revision)) [
    | inl late ↦
        let stays : reconcile_mux_topology stringify current i retired ≡ current =
          late_stays current i retired same late in
        (ap (λ s. s.epoch) stays, ap (λ s. s.revision) stays ∙ rw late refl)
    | inr newer ↦
        let (epoch, revision, _) = reconcile-SameCatalog current i retired same (ground arith) in
        (epoch ∙ same, revision ∙ rw newer refl)
  ]

  -- In whatever order the snapshots of the current daemon arrive, the one kept has the greatest revision.
  pub reconciles-newest :
      (current : MuxTopologySnapshot S) (is : List (MuxTopologySnapshot S)) (retired : List Text)
      → All (λ i. i.epoch ≡ current.epoch) is
      → (reconciles current is retired).revision ≡ newest current.revision is
  unfolding reconciles
  reconciles-newest current [] retired a = refl
  reconciles-newest current (i ∷ is) retired (here, later) =
      let next : MuxTopologySnapshot S = reconcile_mux_topology stringify current i retired in
      let (same, revision) = step_revision current i retired here in
      reconciles-newest next is retired (rw same later) ∙ ap (λ n. newest n is) revision
