-- ===== src/Rpc/Responses.antt =====
-- What one message of the helper does to a request.
use mathlib.Core.Path.{subst}
use agent_cockpit.Base.{
  ℕ, ◌≡◌, refl, sym, ◌∙◌, Bool, true, false, not, ◌&&◌, ◌==◌, Option, none, some, List, [], ◌∷◌,
  ◌++◌, arith,
}
use agent_cockpit.Base.{
  Text, codes, text_eq, if◌then◌else◌, Bool-cases, inl, inr, keep, is_some, ==_iff,
}
use agent_cockpit.Base.Maps.{get}
use agent_cockpit.Tabs.Stored.{Json, prop, as_string}
use agent_cockpit.Rpc.{
  HelperRpcClient, Effect, wrote, resolved, rejected, refused, handled, Step, find_call, drop_call,
  emit_event, handle_each, handler_call, handlers_of, watch_call, watch_from, token_of, as_number,
  is_error, respond_from, respond, dispatch_from, dispatch,
}

abbrev is_id : ℕ → Option ℕ → Bool
is_id k none = false
is_id k (some n) = n == k

-- The message is no event and carries the id.
abbrev pub answers : ℕ → Json → Bool
answers k msg =
    not (is_some (as_string (prop (codes "event") msg)))
    && is_id k (as_number (prop (codes "id") msg))

-- What a message says to the request it answers.
abbrev pub outcome : ℕ → Json → Effect
outcome k msg =
    if is_error (prop (codes "error") msg)
    then rejected k
    else resolved k (prop (codes "result") msg)

-- The outcome of the first of the messages that answers the request, if one does.
abbrev pub first_answer : ℕ → List Json → List Effect
first_answer k [] = []
first_answer k (msg ∷ msgs) = if answers k msg then outcome k msg ∷ [] else first_answer k msgs

abbrev pub settles : ℕ → Effect → Bool
settles k (wrote b) = false
settles k (resolved n v) = n == k
settles k (rejected n) = n == k
settles k refused = false
settles k (handled h v) = false

abbrev event_has_data : Option Text → Option Json → Bool
event_has_data none v = true
event_has_data (some event) v = if text_eq event (codes "watch") then is_some (token_of v) else true

-- A watch event has data that a member can be read of; without, the dispatch throws.
abbrev pub has_data : Json → Bool
has_data msg = event_has_data (as_string (prop (codes "event") msg)) (prop (codes "data") msg)

module _ (k : ℕ) where
  settles-handle_each : (v : Option Json) (hs : List ℕ) → keep (settles k) (handle_each v hs) ≡ []
  settles-handle_each v [] = refl
  settles-handle_each v (h ∷ hs) = settles-handle_each v hs

  pub keep-append :
      (xs ys : List Effect)
      → keep (settles k) (xs ++ ys) ≡ keep (settles k) xs ++ keep (settles k) ys
  keep-append [] ys = refl
  keep-append (x ∷ xs) ys = ground (arith, keep-append xs ys)

  -- One message: it settles the request if it answers it and the request is pending.
  abbrev pub Acts : Bool → Json → HelperRpcClient → Step → Type 0
  Acts b msg c step =
      (keep (settles k) step.1
        ≡ (if b && is_some (find_call k c.pending) then outcome k msg ∷ [] else []))
      × (find_call k step.0.pending ≡ (if b then none else find_call k c.pending))

  abbrev pub ActsIf : Bool → Json → HelperRpcClient → Option Step → Type 0
  ActsIf b msg c none = ⊥
  ActsIf b msg c (some step) = Acts b msg c step

  find_call-drop_call :
      (n : ℕ) (calls : List (ℕ × Text))
      → find_call k (drop_call n calls) ≡ (if n == k then none else find_call k calls)
  find_call-drop_call n [] = ground arith
  find_call-drop_call n ((i, t) ∷ pending) = ground (arith, find_call-drop_call n pending)

  own_id : (k == k) ≡ true
  own_id = (==_iff k k).1 refl

  respond_own :
      (m : Option Text) (msg : Json) (c : HelperRpcClient)
      → find_call k c.pending ≡ m
      → Acts (k == k) msg c (respond_from m k msg c)
  respond_own none msg c e = rw (own_id, e) (refl, refl)
  respond_own (some m) msg c e = (
    rw (own_id, e)
        (elim (Bool-cases (is_error (prop (codes "error") msg))) [
          | inl failed ↦ rw (failed, own_id) refl
          | inr fine ↦ rw (fine, own_id) refl
        ]),
    find_call-drop_call k c.pending ∙ rw own_id refl,
  )

  respond_other :
      (m : Option Text) (n : ℕ) (msg : Json) (c : HelperRpcClient)
      → (n == k) ≡ false
      → Acts (n == k) msg c (respond_from m n msg c)
  respond_other none n msg c s = rw s (refl, refl)
  respond_other (some m) n msg c s = (
    elim (Bool-cases (is_error (prop (codes "error") msg))) [
      | inl failed ↦ rw (failed, s) refl
      | inr fine ↦ rw (fine, s) refl
    ],
    find_call-drop_call n c.pending,
  )

  respond_from-Acts :
      (n : ℕ) (msg : Json) (c : HelperRpcClient)
      → Acts (n == k) msg c (respond_from (find_call n c.pending) n msg c)
  respond_from-Acts n msg c = elim (Bool-cases (n == k)) [
    | inl same ↦
        subst (λ i. Acts (i == k) msg c (respond_from (find_call i c.pending) i msg c))
          (sym ((==_iff n k).0 same)) (respond_own (find_call k c.pending) msg c refl)
    | inr other ↦ respond_other (find_call n c.pending) n msg c other
  ]

  respond-Acts :
      (o : Option ℕ) (msg : Json) (c : HelperRpcClient) → Acts (is_id k o) msg c (respond o msg c)
  respond-Acts none msg c = (refl, refl)
  respond-Acts (some n) msg c = respond_from-Acts n msg c

  settles-handler_call : (o : Option ℕ) (v : Option Json) → keep (settles k) (handler_call o v) ≡ []
  settles-handler_call none v = refl
  settles-handler_call (some h) v = refl

  settles-watch_call :
      (o : Option Text) (v : Option Json) (c : HelperRpcClient)
      → keep (settles k) (watch_call o v c) ≡ []
  settles-watch_call none v c = refl
  settles-watch_call (some token) v c = settles-handler_call (get token c.watch_handlers) v

  settles-emit_event :
      (event : Text) (v : Option Json) (c : HelperRpcClient)
      → keep (settles k) (emit_event event v c) ≡ []
  unfolding emit_event
  settles-emit_event event v c = settles-handle_each v (handlers_of (get event c.event_handlers))

  watch-Acts :
      (o : Option (Option Text)) (event : Text) (v : Option Json) (msg : Json) (c : HelperRpcClient)
      → is_some o ≡ true
      → ActsIf false msg c (watch_from o event v c)
  watch-Acts none event v msg c h = absurd cc
  watch-Acts (some token) event v msg c h = (
    keep-append (watch_call token v c) (emit_event event v c)
        ∙ rw (settles-watch_call token v c, settles-emit_event event v c) refl,
    refl,
  )

  dispatch_from-Acts :
      (o : Option Text) (msg : Json) (c : HelperRpcClient)
      → event_has_data o (prop (codes "data") msg) ≡ true
      → ActsIf
          (not (is_some o) && is_id k (as_number (prop (codes "id") msg)))
          msg
          c
          (dispatch_from o msg c)
  dispatch_from-Acts none msg c h = respond-Acts (as_number (prop (codes "id") msg)) msg c
  dispatch_from-Acts (some event) msg c h = elim (Bool-cases (text_eq event (codes "watch"))) [
    | inl watch ↦ rw watch (
        watch-Acts (token_of (prop (codes "data") msg)) event (prop (codes "data") msg) msg c
          (rw watch at h))
    | inr plain ↦ rw plain (settles-emit_event event (prop (codes "data") msg) c, refl)
  ]

  pub dispatch-Acts :
      (msg : Json) (c : HelperRpcClient)
      → has_data msg ≡ true
      → ActsIf (answers k msg) msg c (dispatch msg c)
  unfolding dispatch
  dispatch-Acts msg c h = dispatch_from-Acts (as_string (prop (codes "event") msg)) msg c h
