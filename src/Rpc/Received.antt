-- ===== src/Rpc/Received.antt =====
-- Which answer a request gets, when the messages of the helper arrive in any chunks.
use mathlib.Core.Path.{subst}
use mathlib.Core.List.{append-nil, append_assoc}
use agent_cockpit.Base.{
  ℕ, ◌≡◌, refl, ap, sym, ◌∙◌, true, Option, none, some, List, [], ◌∷◌, ◌++◌, map, arith,
}
use agent_cockpit.Base.{
  Text, codes, text_eq, if◌then◌else◌, Bool-cases, inl, inr, All, any, keep, is_some,
}
use agent_cockpit.Frame.{
  Bytes, JsonCodec, FrameDecoder, Pushed, push, frame, decoder, pending_bytes,
}
use agent_cockpit.Frame.Take.{flat}
use agent_cockpit.Frame.Stream.{encode_all, push_all}
use agent_cockpit.Frame.RoundTrip.{push_all-encode_all}
use agent_cockpit.Tabs.Stored.{Json, prop, as_string}
use agent_cockpit.Rpc.{
  HelperRpcClient, Effect, Step, find_call, watch_from, token_of, as_number, respond_from, respond,
  dispatch_from, dispatch, then_all, dispatch_all, max_message_bytes, on_data, pushed,
}
use agent_cockpit.Rpc.Accounts.{receives, history}
use agent_cockpit.Rpc.Responses.{answers, first_answer, settles, has_data}
use agent_cockpit.Rpc.Settled.{if_same, All-split, Settled, dispatch_all-Settled, Settled-append}

-- No message changes the decoder.
abbrev Stays : HelperRpcClient → Option Step → Type 0
Stays c none = Unit {0}
Stays c (some step) = step.0.decoder ≡ c.decoder

respond-Stays : (o : Option ℕ) (msg : Json) (c : HelperRpcClient) → Stays c (some (respond o msg c))
respond-Stays none msg c = refl
respond-Stays (some n) msg c = go (find_call n c.pending)
  where
    go : (m : Option Text) → Stays c (some (respond_from m n msg c))
    go none = refl
    go (some m) = refl

watch-Stays :
    (o : Option (Option Text)) (event : Text) (v : Option Json) (c : HelperRpcClient)
    → Stays c (watch_from o event v c)
watch-Stays none event v c = tt
watch-Stays (some t) event v c = refl

dispatch-Stays : (msg : Json) (c : HelperRpcClient) → Stays c (dispatch msg c)
unfolding dispatch
dispatch-Stays msg c = go (as_string (prop (codes "event") msg))
  where
    go : (o : Option Text) → Stays c (dispatch_from o msg c)
    go none = respond-Stays (as_number (prop (codes "id") msg)) msg c
    go (some event) = elim (Bool-cases (text_eq event (codes "watch"))) [
      | inl watch ↦
          rw watch
            (watch-Stays (token_of (prop (codes "data") msg)) event (prop (codes "data") msg) c)
      | inr plain ↦ rw plain refl
    ]

dispatch_all-decoder :
    (msgs : List Json) (c : HelperRpcClient) → (dispatch_all msgs c).0.decoder ≡ c.decoder
unfolding dispatch_all
dispatch_all-decoder [] c = refl
dispatch_all-decoder (msg ∷ msgs) c =
    go (dispatch msg c) (dispatch-Stays msg c) (dispatch_all-decoder msgs)
  where
    go :
        (o : Option Step)
        → Stays c o
        → ((d : HelperRpcClient) → (dispatch_all msgs d).0.decoder ≡ d.decoder)
        → (then_all o (dispatch_all msgs) c).0.decoder ≡ c.decoder
    go none h all = refl
    go (some (d, es)) h all = all d ∙ h

module _ (json : JsonCodec Json) (k : ℕ) where
  -- The messages that the chunks complete, and what they do.
  abbrev Receives : List Bytes → HelperRpcClient → List Json → List Effect → FrameDecoder → Type 0
  Receives cs c qs es d =
      (u : HelperRpcClient) × (fs : List Effect) × (history json (map receives cs) es c
        ≡ (u, es ++ fs))
      × (u.decoder ≡ d)
      × (All (λ m. has_data m ≡ true) qs → Settled k qs c (u, fs))

  on_data-returned :
      (chunk : Bytes) (c : HelperRpcClient) (ms : List Json) (d : FrameDecoder)
      → push json chunk c.decoder ≡ Pushed.returned ms d
      → on_data json chunk c ≡ dispatch_all ms (record c { decoder = d })
  unfolding on_data
  on_data-returned chunk c ms d h = ap (λ r. pushed json r c) h

  push_all-Receives :
      (cs : List Bytes) (c : HelperRpcClient) (out ps : List Json) (d : FrameDecoder)
      (es : List Effect)
      → push_all json cs c.decoder out ≡ Pushed.returned ps d
      → (qs : List Json) × (ps ≡ out ++ qs) × Receives cs c qs es d
  unfolding push_all history
  push_all-Receives [] c out ps d es h =
      let same : ps ≡ out = cc in
      let kept : c.decoder ≡ d = cc in
      (
        [],
        same ∙ sym (append-nil out),
        (
          c,
          [],
          ap (λ t. (c, t)) (sym (append-nil es)),
          kept,
          λ a. (sym (if_same (is_some (find_call k c.pending)) []), refl),
        ),
      )
  push_all-Receives (chunk ∷ cs) c out ps d es h =
      go (push json chunk c.decoder) refl h (λ v l t g. push_all-Receives cs v l ps d t g)
    where
      go :
          (r : Pushed Json)
          → push json chunk c.decoder ≡ r
          → (elim r as (λ _. Pushed Json) [
            | Pushed.returned ms v ↦ push_all json cs v (out ++ ms)
            | Pushed.threw x v ↦ Pushed.threw x v
            | Pushed.fault ↦ Pushed.fault
            | Pushed.out_of_fuel ↦ Pushed.out_of_fuel
          ])
            ≡ Pushed.returned ps d
          → ((v : HelperRpcClient) (l : List Json) (t : List Effect)
              → push_all json cs v.decoder l ≡ Pushed.returned ps d
              → (qs : List Json) × (ps ≡ l ++ qs) × Receives cs v qs t d)
          → (qs : List Json) × (ps ≡ out ++ qs) × Receives (chunk ∷ cs) c qs es d
      go (Pushed.returned ms v) e g later =
          let begun : HelperRpcClient = record c { decoder = v } in
          let step : Step = dispatch_all ms begun in
          let (qs, split, (u, fs, run, left, settled)) =
            later step.0 (out ++ ms) (es ++ step.1)
              (ap (λ x. push_all json cs x (out ++ ms)) (dispatch_all-decoder ms begun) ∙ g) in
          (
            ms ++ qs,
            split ∙ append_assoc out ms qs,
            (
              u,
              step.1 ++ fs,
              ap (λ (s : Step). history json (map receives cs) (es ++ s.1) s.0)
                    (on_data-returned chunk c ms v e)
                  ∙ run
                  ∙ ap (λ t. (u, t)) (append_assoc es step.1 fs),
              left,
              λ a.
                  let (early, late) = All-split ms qs a in
                  Settled-append k ms qs begun step.0 u step.1 fs
                    (dispatch_all-Settled k ms begun early) (settled late),
            ),
          )
      go (Pushed.threw x v) e g later = absurd cc
      go Pushed.fault e g later = absurd cc
      go Pushed.out_of_fuel e g later = absurd cc

  -- The helper writes messages, of which every watch event has data, and the client, whose decoder is new, gets
  -- their frames in any chunks. Then a request that is pending is settled once, with the outcome of the first
  -- message that answers it, and is no longer pending; if no message answers it, it is not settled and stays
  -- pending. A request that is not pending is not settled. No byte is left over.
  pub received-first_answer :
      (msgs : List Json) (chunks : List Bytes) (c : HelperRpcClient)
      → c.decoder ≡ decoder max_message_bytes
      → encode_all json max_message_bytes msgs ≡ frame (flat chunks)
      → All (λ m. has_data m ≡ true) msgs
      → let end = history json (map receives chunks) [] c in
        (keep (settles k) end.1
          ≡ (if is_some (find_call k c.pending) then first_answer k msgs else []))
        × (find_call k end.0.pending
            ≡ (if any (answers k) msgs then none else find_call k c.pending))
        × (pending_bytes end.0.decoder ≡ 0)
  received-first_answer msgs chunks c new encoded whole_data =
      let (d, answer, empty) =
        push_all-encode_all json max_message_bytes (omega arith) msgs chunks encoded in
      let (qs, split, (u, fs, run, left, settled)) =
        push_all-Receives chunks c [] msgs d []
          (ap (λ x. push_all json chunks x []) new ∙ answer) in
      let (effects, pending) = settled (subst (All (λ m. has_data m ≡ true)) split whole_data) in
      (
        ap (λ (w : HelperRpcClient × List Effect). keep (settles k) w.1) run
            ∙ effects
            ∙ ap (λ ms. if is_some (find_call k c.pending) then first_answer k ms else [])
                (sym split),
        ap (λ (w : HelperRpcClient × List Effect). find_call k w.0.pending) run
            ∙ pending
            ∙ ap (λ ms. if any (answers k) ms then none else find_call k c.pending) (sym split),
        ap (λ (w : HelperRpcClient × List Effect). pending_bytes w.0.decoder) run
            ∙ ap pending_bytes left
            ∙ empty,
      )
