-- ===== src/Callback/Broker/Runs.antt =====
-- Requests of several projects one after the other, and what one does to the token buckets.
use agent_cockpit.Base.{
  ℕ, ◌≡◌, refl, Bool, true, false, Option, none, some, List, [], ◌∷◌, map, length, ◌⊎◌, inl, inr,
}
use agent_cockpit.Base.{Text, text_eq, keep, if◌then◌else◌}
use agent_cockpit.Connection.{ConnectionState}
use agent_cockpit.Limiter.{try_take}
use agent_cockpit.Limiter.Rate.{elapsed}
use agent_cockpit.Reaper.{is_connected}
use agent_cockpit.Tabs.Stored.{Json}
use agent_cockpit.Callback.Protocol.{
  CallbackOp, open_file, as_callback_op, CallbackPane, OpenArgs, EnvelopeResult, accepted, refused,
  parse_callback_envelope, parse_open_args,
}
use agent_cockpit.Callback.Broker.{
  CallbackBroker, Dispatch, Decision, limiter_for, with_limiter, on_args, admit, on_op, on_envelope,
  handle,
}

-- A request, with its time and the status of the project then.
pub record Request : Type 0 where
  pub project : Text
  pub now : ℕ
  pub status : Option ConnectionState
  pub raw : Json

abbrev pub with_dispatch : Option Dispatch → List Dispatch → List Dispatch
with_dispatch none ds = ds
with_dispatch (some d) ds = d ∷ ds

-- The requests one after the other, and the opens that they dispatch.
unfoldable pub requests : List Request → CallbackBroker → CallbackBroker × List Dispatch
requests [] b = (b, [])
requests (r ∷ rs) b =
    let (b', d) = handle r.status r.now r.project r.raw b in
    let (b'', ds) = requests rs b' in (b'', with_dispatch d.dispatch ds)

-- How many of the opens are the project's.
abbrev pub opens_of : Text → List Dispatch → ℕ
opens_of p ds = length (keep (λ d. text_eq d.project_id p) ds)

-- When requests arrived on the project's socket.
abbrev pub times_of : Text → List Request → List ℕ
times_of p rs = map (λ r. r.now) (keep (λ r. text_eq r.project p) rs)

-- The time by which the clock moved forward from the first to the last of them.
abbrev pub span : List ℕ → ℕ
span [] = 0
span (t ∷ ts) = elapsed t ts

abbrev pub granted_by : Bool → ℕ
granted_by b = if b then 1 else 0

-- A decision does not dispatch more than the bucket grants, and for this project only.
abbrev pub Costs : Text → Bool → Option Dispatch → Type 0
Costs project granted none = Unit
Costs project granted (some d) = (granted ≡ true) × (d.project_id ≡ project)

admit-Costs :
    (op : CallbackOp) (project : Text) (id : ℕ) (pane : Option CallbackPane) (args : Option Json)
    (granted connected : Bool)
    → Costs project granted (admit op project id pane args granted connected).dispatch
admit-Costs op project id pane args false connected = tt
admit-Costs op project id pane args true false = tt
admit-Costs open_file project id pane args true true = go (parse_open_args args)
  where
    go : (r : Text ⊎ OpenArgs) → Costs project true (on_args project id pane r).dispatch
    go (inl m) = tt
    go (inr a) = (refl, refl)

-- A request leaves the broker and dispatches nothing, or it takes from the project's bucket.
abbrev pub Takes : ℕ → Text → CallbackBroker → CallbackBroker × Decision → Type 0
Takes now project b r =
    let t = try_take now (limiter_for project now b) in
    ((r.0 ≡ b) × (r.1.dispatch ≡ none))
    ⊎ ((r.0 ≡ with_limiter project t.0 b) × Costs project t.1 r.1.dispatch)

on_envelope-Takes :
    (status : Option ConnectionState) (now : ℕ) (project : Text) (b : CallbackBroker)
    (e : EnvelopeResult)
    → Takes now project b (on_envelope status now project b e)
on_envelope-Takes status now project b (refused id message) = inl (refl, refl)
on_envelope-Takes status now project b (accepted id op pane args) = go (as_callback_op op)
  where
    go : (o : Option CallbackOp) → Takes now project b (on_op status now project id pane args b o)
    go none = inl (refl, refl)
    go (some o) = inr (
      refl,
      admit-Costs o project id pane args (try_take now (limiter_for project now b)).1
          (is_connected status),
    )

pub handle-Takes :
    (status : Option ConnectionState) (now : ℕ) (project : Text) (raw : Json) (b : CallbackBroker)
    → Takes now project b (handle status now project raw b)
unfolding handle
handle-Takes status now project raw b =
    on_envelope-Takes status now project b (parse_callback_envelope raw)
