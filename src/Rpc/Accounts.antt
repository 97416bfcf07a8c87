-- ===== src/Rpc/Accounts.antt =====
-- Every request is pending or settled, exactly once.
use agent_cockpit.Base.{ℕ, suc, ◌+◌, ◌≤◌, ◌≡◌, Bool, true, false, List, [], ◌∷◌, ◌++◌, arith}
use agent_cockpit.Base.{Text, codes}
use agent_cockpit.Frame.{Bytes, JsonCodec, Encoded, frame, error, encode_frame, Pushed, push}
use agent_cockpit.Tabs.Stored.{Json}
use agent_cockpit.Rpc.{
  HelperRpcClient, Effect, wrote, rejected, refused, Step, fail_all, on_event, off_event, pushed,
  on_data, send, call, watch_subscribe, watch_unsubscribe, request, max_message_bytes, call_from,
}
use agent_cockpit.Rpc.Balances.{
  pending_count, settled_count, settled_count-append, pending_count-append, pending_count-drop_call,
  IsAccounted, Balances, fail_all-Balances, dispatch_all-Balances,
}

-- What happens to the client.
pub data Event : Type 0 where
  calls : Text → Json → Event
  subscribes : Text → ℕ → Json → Event
  unsubscribes : Text → Json → Event
  receives : Bytes → Event
  -- The stream ends, closes or fails.
  ends : Event
  listens : Text → ℕ → Event
  ignores : Text → ℕ → Event

module _ (json : JsonCodec Json) where
  abbrev pub perform : Event → HelperRpcClient → Step
  perform (calls method params) c = call json method params c
  perform (subscribes token h params) c = watch_subscribe json token h params c
  perform (unsubscribes token params) c = watch_unsubscribe json token params c
  perform (receives chunk) c = on_data json chunk c
  perform ends c = fail_all c
  perform (listens event h) c = (on_event event h c, [])
  perform (ignores event h) c = (off_event event h c, [])

  -- With what was done before.
  unfoldable pub history :
      List Event → List Effect → HelperRpcClient → HelperRpcClient × List Effect
  history [] es c = (c, es)
  history (e ∷ rest) es c = history rest (es ++ (perform e c).1) (perform e c).0

module _ (json : JsonCodec Json) (k : ℕ) where
  pushed-Balances :
      (r : Pushed Json) (c : HelperRpcClient)
      → pending_count k c.pending ≤ 1
      → Balances k c (pushed json r c)
  pushed-Balances (Pushed.returned msgs d) c h =
      dispatch_all-Balances k msgs (record c { decoder = d }) h
  pushed-Balances (Pushed.threw e d) c h = fail_all-Balances k (record c { decoder = d })
  pushed-Balances Pushed.fault c h = fail_all-Balances k c
  pushed-Balances Pushed.out_of_fuel c h = fail_all-Balances k c

  send-IsAccounted :
      (e : Encoded) (m : Text) (es : List Effect) (c : HelperRpcClient)
      → IsAccounted k es c
      → let step =
          send json e c.next_id
            (record c { next_id = suc c.next_id; pending = c.pending ++ (c.next_id, m) ∷ [] }) in
        IsAccounted k (es ++ step.1) step.0
  send-IsAccounted (frame bytes) m es c h = (
    ground (
      arith,
      pending_count-append k c.next_id m c.pending,
      settled_count-append k es (wrote bytes ∷ []),
    ),
    omega arith,
  )
  send-IsAccounted (error e) m es c h = (
    ground (
      arith,
      pending_count-append k c.next_id m c.pending,
      pending_count-drop_call k c.next_id (c.pending ++ (c.next_id, m) ∷ []),
      settled_count-append k es (rejected c.next_id ∷ []),
    ),
    omega arith,
  )

  call_from-IsAccounted :
      (b : Bool) (method : Text) (params : Json) (es : List Effect) (c : HelperRpcClient)
      → IsAccounted k es c
      → IsAccounted k
          (es ++ (call_from json b method params c).1)
          (call_from json b method params c).0
  call_from-IsAccounted true method params es c h =
      (omega (arith, settled_count-append k es (refused ∷ []), h.0), h.1)
  call_from-IsAccounted false method params es c h =
      send-IsAccounted (encode_frame json (request c.next_id method params) max_message_bytes)
        method es c h

  call-IsAccounted :
      (method : Text) (params : Json) (es : List Effect) (c : HelperRpcClient)
      → IsAccounted k es c
      → IsAccounted k (es ++ (call json method params c).1) (call json method params c).0
  unfolding call
  call-IsAccounted method params es c h = call_from-IsAccounted c.closed method params es c h

  balanced :
      (es : List Effect) (c : HelperRpcClient) (step : Step)
      → IsAccounted k es c
      → Balances k c step
      → IsAccounted k (es ++ step.1) step.0
  balanced es c step h b =
      let count : settled_count k step.1 + pending_count k step.0.pending
          ≡ pending_count k c.pending =
        b.0 in
      (ground (arith, settled_count-append k es step.1, h.0, b.1), ground (arith, b.1))

  at_most_one :
      (es : List Effect) (c : HelperRpcClient) → IsAccounted k es c → pending_count k c.pending ≤ 1
  at_most_one es c h = ground (arith, h.0)

  perform-IsAccounted :
      (e : Event) (es : List Effect) (c : HelperRpcClient)
      → IsAccounted k es c
      → IsAccounted k (es ++ (perform json e c).1) (perform json e c).0
  unfolding watch_subscribe watch_unsubscribe on_data on_event off_event
  perform-IsAccounted (calls method params) es c h = call-IsAccounted method params es c h
  perform-IsAccounted (subscribes token n params) es c h =
      call-IsAccounted (codes "watch.subscribe") params es _ h
  perform-IsAccounted (unsubscribes token params) es c h =
      call-IsAccounted (codes "watch.unsubscribe") params es _ h
  perform-IsAccounted (receives chunk) es c h =
      balanced es c (on_data json chunk c) h
        (pushed-Balances (push json chunk c.decoder) c (at_most_one es c h))
  perform-IsAccounted ends es c h = balanced es c (fail_all c) h (fail_all-Balances k c)
  perform-IsAccounted (listens event n) es c h =
      (omega (arith, settled_count-append k es [], h.0), h.1)
  perform-IsAccounted (ignores event n) es c h =
      (omega (arith, settled_count-append k es [], h.0), h.1)

  -- Whatever is called, received and lost, in whatever order: every request that got an id is pending or was settled,
  -- exactly once, and no other id is either.
  pub history-IsAccounted :
      (events : List Event) (es : List Effect) (c : HelperRpcClient)
      → IsAccounted k es c
      → IsAccounted k (history json events es c).1 (history json events es c).0
  unfolding history
  history-IsAccounted [] es c h = h
  history-IsAccounted (e ∷ rest) es c h =
      history-IsAccounted rest _ (perform json e c).0 (perform-IsAccounted e es c h)
