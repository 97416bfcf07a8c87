-- ===== src/Topology.antt =====
-- src/renderer/terminal/muxTopologyModel.ts: which snapshot of the terminal daemon's topology is kept. The
-- sessions are of any type; `JSON.stringify` of them is a parameter.
pub mod Newest
mod Tests
use agent_cockpit.Base.{ℕ, Bool, true, false, not, ◌&&◌, Option, none, some, List, [], ◌∷◌}
use agent_cockpit.Base.{Text, text_eq, if◌then◌else◌, any, ltb, ◌==◌}

pub record MuxTopologySnapshot {ℓ} (S : Type ℓ) : Type ℓ where
  pub epoch : Text
  pub revision : ℕ
  -- Missing, null or an identifier.
  pub active_session_id : Option (Option Text)
  pub sessions : S

-- `===` of two identifiers that may be missing or null.
abbrev pub same_nullable : Option Text → Option Text → Bool
same_nullable none none = true
same_nullable none (some t) = false
same_nullable (some s) none = false
same_nullable (some s) (some t) = text_eq s t

abbrev pub same_id : Option (Option Text) → Option (Option Text) → Bool
same_id none none = true
same_id none (some t) = false
same_id (some s) none = false
same_id (some s) (some t) = same_nullable s t

module _ {ℓ} {S : Type ℓ} (stringify : S → Text) where
  unfoldable pub reconcile_mux_topology :
      MuxTopologySnapshot S → MuxTopologySnapshot S → List Text → MuxTopologySnapshot S
  reconcile_mux_topology current incoming retired_epochs =
      if not (text_eq incoming.epoch current.epoch) && any (text_eq incoming.epoch) retired_epochs
      then current
      else if not (text_eq incoming.epoch current.epoch)
      then incoming
      else if ltb incoming.revision current.revision
      then current
      else if same_id incoming.active_session_id current.active_session_id
          && text_eq (stringify incoming.sessions) (stringify current.sessions)
      then (if incoming.revision == current.revision
          then current
          else record incoming { sessions = current.sessions })
      else incoming
