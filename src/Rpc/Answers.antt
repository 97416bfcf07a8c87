-- ===== src/Rpc/Answers.antt =====
-- That nothing is left when the stream ends.
use agent_cockpit.Base.{
  ℕ, ◌≡◌, refl, sym, ◌∙◌, Bool, true, false, ◌&&◌, Option, none, some, List, [], ◌∷◌, ◌++◌, arith,
  ltb,
}
use agent_cockpit.Base.{Text, codes, text_eq, Bool-cases, inl, inr}
use mathlib.Core.Path.{subst}
use agent_cockpit.Frame.{JsonCodec, Pushed, push}
use agent_cockpit.Tabs.Stored.{Json, prop, as_string}
use agent_cockpit.Rpc.{
  HelperRpcClient, connect, Effect, refused, Step, find_call, fail_all, respond_from, respond,
  watch_from, token_of, dispatch_from, dispatch, then_all, dispatch_all, on_event, off_event,
  pushed, on_data, call_from, call, watch_subscribe, watch_unsubscribe, as_number,
}
use agent_cockpit.Rpc.Balances.{settled_count, IsAccounted, one_if}
use agent_cockpit.Rpc.Accounts.{
  Event, calls, subscribes, unsubscribes, receives, ends, listens, ignores, perform, history,
  history-IsAccounted,
}

-- A client that is closed has nothing pending.
abbrev pub Tidy : Bool → List (ℕ × Text) → Type 0
Tidy true pending = pending ≡ []
Tidy false pending = Unit {0}

abbrev Calm : HelperRpcClient → HelperRpcClient → Type 0
Calm c d = (d.closed ≡ c.closed) × (c.pending ≡ [] → d.pending ≡ [])

abbrev CalmIf : HelperRpcClient → Option Step → Type 0
CalmIf c none = Unit {0}
CalmIf c (some step) = Calm c step.0

respond_from-Calm :
    (o : Option Text) (n : ℕ) (msg : Json) (c : HelperRpcClient) → Calm c (respond_from o n msg c).0
respond_from-Calm none n msg c = (refl, λ h. h)
respond_from-Calm (some m) n msg c = (refl, λ h. rw h refl)

respond-Calm : (o : Option ℕ) (msg : Json) (c : HelperRpcClient) → Calm c (respond o msg c).0
respond-Calm none msg c = (refl, λ h. h)
respond-Calm (some n) msg c = respond_from-Calm (find_call n c.pending) n msg c

watch_from-Calm :
    (o : Option (Option Text)) (event : Text) (v : Option Json) (c : HelperRpcClient)
    → CalmIf c (watch_from o event v c)
watch_from-Calm none event v c = tt
watch_from-Calm (some t) event v c = (refl, λ h. h)

dispatch_from-Calm :
    (o : Option Text) (msg : Json) (c : HelperRpcClient) → CalmIf c (dispatch_from o msg c)
dispatch_from-Calm none msg c = respond-Calm (as_number (prop (codes "id") msg)) msg c
dispatch_from-Calm (some event) msg c = elim (Bool-cases (text_eq event (codes "watch"))) [
  | inl watch ↦
      rw watch
        (watch_from-Calm (token_of (prop (codes "data") msg)) event (prop (codes "data") msg) c)
  | inr plain ↦ rw plain (refl, λ h. h)
]

then_all-Calm :
    (o : Option Step) (f : HelperRpcClient → Step) (c : HelperRpcClient)
    → CalmIf c o
    → ((d : HelperRpcClient) → Calm d (f d).0)
    → Calm c (then_all o f c).0
then_all-Calm none f c h all = (refl, λ e. e)
then_all-Calm (some (d, es)) f c (same, quiet) all = ((all d).0 ∙ same, λ e. (all d).1 (quiet e))

dispatch_all-Calm : (msgs : List Json) (c : HelperRpcClient) → Calm c (dispatch_all msgs c).0
unfolding dispatch_all dispatch
dispatch_all-Calm [] c = (refl, λ e. e)
dispatch_all-Calm (msg ∷ msgs) c =
    then_all-Calm (dispatch msg c) (dispatch_all msgs) c
      (dispatch_from-Calm (as_string (prop (codes "event") msg)) msg c) (dispatch_all-Calm msgs)

-- It stays closed, and tidy.
abbrev Settles : HelperRpcClient → HelperRpcClient → Type 0
Settles c d =
    Tidy c.closed c.pending → Tidy d.closed d.pending × (c.closed ≡ true → d.closed ≡ true)

Calm-Settles : (c d : HelperRpcClient) → Calm c d → Settles c d
Calm-Settles c d h tidy = ground arith

fail_all-Settles : (c : HelperRpcClient) → Settles c (fail_all c).0
unfolding fail_all
fail_all-Settles c tidy = ground arith

module _ (json : JsonCodec Json) where
  pushed-Settles : (r : Pushed Json) (c : HelperRpcClient) → Settles c (pushed json r c).0
  pushed-Settles (Pushed.returned msgs d) c =
      Calm-Settles c (dispatch_all msgs (record c { decoder = d })).0
        (dispatch_all-Calm msgs (record c { decoder = d }))
  pushed-Settles (Pushed.threw e d) c = fail_all-Settles (record c { decoder = d })
  pushed-Settles Pushed.fault c = fail_all-Settles c
  pushed-Settles Pushed.out_of_fuel c = fail_all-Settles c

  call_from-Settles :
      (method : Text) (params : Json) (c : HelperRpcClient)
      → Settles c (call_from json c.closed method params c).0
  call_from-Settles method params c tidy = ground arith

  perform-Settles : (e : Event) (c : HelperRpcClient) → Settles c (perform json e c).0
  unfolding call watch_subscribe watch_unsubscribe on_data on_event off_event
  perform-Settles (calls method params) c = call_from-Settles method params c
  perform-Settles (subscribes token n params) c =
      call_from-Settles (codes "watch.subscribe") params _
  perform-Settles (unsubscribes token params) c =
      call_from-Settles (codes "watch.unsubscribe") params _
  perform-Settles (receives chunk) c = pushed-Settles (push json chunk c.decoder) c
  perform-Settles ends c = fail_all-Settles c
  perform-Settles (listens event n) c = λ tidy. (tidy, λ h. h)
  perform-Settles (ignores event n) c = λ tidy. (tidy, λ h. h)

  history-Settles :
      (events : List Event) (es : List Effect) (c : HelperRpcClient)
      → Settles c (history json events es c).0
  unfolding history
  history-Settles [] es c tidy = (tidy, λ h. h)
  history-Settles (e ∷ rest) es c tidy =
      let (kept, still) = perform-Settles e c tidy in
      let (later, on) =
        history-Settles rest (es ++ (perform json e c).1) (perform json e c).0 kept in
      (later, λ h. on (still h))

  history-append :
      (xs ys : List Event) (es : List Effect) (c : HelperRpcClient)
      → history json (xs ++ ys) es c
        ≡ history json ys (history json xs es c).1 (history json xs es c).0
  unfolding history
  history-append [] ys es c = refl
  history-append (x ∷ xs) ys es c =
      history-append xs ys (es ++ (perform json x c).1) (perform json x c).0

  fail_all-closed : (c : HelperRpcClient) → (fail_all c).0.closed ≡ true
  unfolding fail_all
  fail_all-closed c = ground arith

  empty_from : (b : Bool) (p : List (ℕ × Text)) → b ≡ true → Tidy b p → p ≡ []
  empty_from true p e t = t
  empty_from false p e t = cc

  connect-IsAccounted : (k : ℕ) → IsAccounted k [] connect
  unfolding connect
  connect-IsAccounted k = (ground arith, omega arith)

  connect-Tidy : Tidy connect.closed connect.pending
  unfolding connect
  connect-Tidy = tt

  ended :
      (later : List Event) (es : List Effect) (c : HelperRpcClient)
      → Tidy c.closed c.pending
      → ((history json (ends ∷ later) es c).0.closed ≡ true)
        × ((history json (ends ∷ later) es c).0.pending ≡ [])
  unfolding history
  ended later es c tidy =
      let (kept, _) = fail_all-Settles c tidy in
      let (neat, on) = history-Settles later (es ++ (fail_all c).1) (fail_all c).0 kept in
      let over = on (fail_all-closed c) in
      (
        over,
        empty_from (history json later (es ++ (fail_all c).1) (fail_all c).0).0.closed _ over neat,
      )

  call-closed :
      (method : Text) (params : Json) (c : HelperRpcClient)
      → c.closed ≡ true
      → (call json method params c).1 ≡ refused ∷ []
  unfolding call
  call-closed method params c h = ground arith

  -- Once the stream has ended, whatever was called and received before and happens after, every request of the client
  -- that got an id has been settled exactly once, and no other id has; the later calls are refused.
  pub history-ends :
      (before later : List Event) (k : ℕ)
      → let end = history json (before ++ ends ∷ later) [] connect in
        (settled_count k end.1 ≡ one_if (ltb 0 k && ltb k end.0.next_id))
        × (end.0.pending ≡ [])
        × ((method : Text) (params : Json) → (call json method params end.0).1 ≡ refused ∷ [])
  history-ends before later k =
      let (over, nothing) =
        subst (λ (w : HelperRpcClient × List Effect). (w.0.closed ≡ true) × (w.0.pending ≡ []))
          (sym (history-append before (ends ∷ later) [] connect))
          (ended later (history json before [] connect).1 (history json before [] connect).0
            (history-Settles before [] connect connect-Tidy).0) in
      let accounted =
        history-IsAccounted json k (before ++ ends ∷ later) [] connect (connect-IsAccounted k) in
      (
        ground (arith, accounted.0),
        nothing,
        λ method params.
            call-closed method params (history json (before ++ ends ∷ later) [] connect).0 over,
      )
