-- ===== src/Topology/Tests.antt =====
-- Two snapshots of one daemon, the older one late.
use agent_cockpit.Base.{ℕ, ◌≡◌, refl, none, [], ◌∷◌, codes, Text}
use agent_cockpit.Topology.{MuxTopologySnapshot, reconcile_mux_topology}

abbrev snapshot : ℕ → Text → MuxTopologySnapshot Text
snapshot n s = record { epoch = codes "e"; revision = n; active_session_id = none; sessions = s }

-- An idle poll keeps the objects and takes the revision.
polled :
    reconcile_mux_topology (λ s. s) (snapshot 3 (codes "x")) (snapshot 5 (codes "x")) []
    ≡ snapshot 5 (codes "x")
unfolding reconcile_mux_topology
polled = refl

-- A daemon that was retired does not come back.
retired :
    reconcile_mux_topology
      (λ s. s)
      (snapshot 3 (codes "x"))
      (record (snapshot 9 (codes "y")) { epoch = codes "old" })
      (codes "old" ∷ [])
    ≡ snapshot 3 (codes "x")
unfolding reconcile_mux_topology
retired = refl
