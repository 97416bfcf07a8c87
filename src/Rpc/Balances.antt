-- ===== src/Rpc/Balances.antt =====
-- What one event of the stream does to the requests that are pending and settled.
use agent_cockpit.Base.{
  ℕ, ◌+◌, ◌<◌, ◌≤◌, ◌≡◌, refl, ◌∙◌, Bool, true, false, ◌&&◌, ◌==◌, Option, none, some, List, [],
  ◌∷◌, ◌++◌, arith, ltb,
}
use agent_cockpit.Base.{Text, codes, text_eq, if◌then◌else◌, Bool-cases, inl, inr}
use agent_cockpit.Tabs.Stored.{Json, prop, as_string}
use agent_cockpit.Base.Maps.{get}
use agent_cockpit.Rpc.{
  HelperRpcClient, Effect, wrote, resolved, rejected, refused, handled, Step, find_call, drop_call,
  reject_all, fail_all, emit_event, handle_each, watch_call, respond_from, respond, event_from,
  dispatch_from, dispatch, dispatch_all, token_of, as_number, handler_call, handlers_of, watch_from,
  then_all,
}

abbrev pub one_if : Bool → ℕ
one_if true = 1
one_if false = 0

-- How often the id is pending.
abbrev pub pending_count : ℕ → List (ℕ × Text) → ℕ
pending_count k [] = 0
pending_count k ((n, m) ∷ calls) = one_if (n == k) + pending_count k calls

-- How often its promise was settled.
abbrev pub settled_count : ℕ → List Effect → ℕ
settled_count k [] = 0
settled_count k (wrote b ∷ es) = settled_count k es
settled_count k (resolved n v ∷ es) = one_if (n == k) + settled_count k es
settled_count k (rejected n ∷ es) = one_if (n == k) + settled_count k es
settled_count k (refused ∷ es) = settled_count k es
settled_count k (handled h v ∷ es) = settled_count k es

pub settled_count-append :
    (k : ℕ) (es fs : List Effect)
    → settled_count k (es ++ fs) ≡ settled_count k es + settled_count k fs
settled_count-append k [] fs = omega arith
settled_count-append k (wrote b ∷ es) fs = settled_count-append k es fs
settled_count-append k (resolved n v ∷ es) fs = omega (arith, settled_count-append k es fs)
settled_count-append k (rejected n ∷ es) fs = omega (arith, settled_count-append k es fs)
settled_count-append k (refused ∷ es) fs = settled_count-append k es fs
settled_count-append k (handled h v ∷ es) fs = settled_count-append k es fs

settled_count-reject_all :
    (k : ℕ) (calls : List (ℕ × Text)) → settled_count k (reject_all calls) ≡ pending_count k calls
settled_count-reject_all k [] = refl
settled_count-reject_all k ((n, m) ∷ calls) = omega (arith, settled_count-reject_all k calls)

settled_count-handle_each :
    (k : ℕ) (v : Option Json) (hs : List ℕ) → settled_count k (handle_each v hs) ≡ 0
settled_count-handle_each k v [] = refl
settled_count-handle_each k v (h ∷ hs) = settled_count-handle_each k v hs

pub pending_count-append :
    (k n : ℕ) (m : Text) (calls : List (ℕ × Text))
    → pending_count k (calls ++ (n, m) ∷ []) ≡ pending_count k calls + one_if (n == k)
pending_count-append k n m [] = omega arith
pending_count-append k n m ((i, t) ∷ calls) = omega (arith, pending_count-append k n m calls)

pub pending_count-drop_call :
    (k n : ℕ) (calls : List (ℕ × Text))
    → pending_count k (drop_call n calls) ≡ (if n == k then 0 else pending_count k calls)
pending_count-drop_call k n [] = ground arith
pending_count-drop_call k n ((i, t) ∷ calls) = ground (arith, pending_count-drop_call k n calls)

find_call-count :
    (n : ℕ) (calls : List (ℕ × Text)) (m : Text)
    → find_call n calls ≡ some m
    → 0 < pending_count n calls
find_call-count n [] m h = cc
find_call-count n ((i, t) ∷ calls) m h = ground (arith, find_call-count n calls m)

-- Of what happened so far and the client: the id `k` is settled or pending, once if it was given.
abbrev pub IsAccounted : ℕ → List Effect → HelperRpcClient → Type 0
IsAccounted k es c =
    (settled_count k es + pending_count k c.pending ≡ one_if (ltb 0 k && ltb k c.next_id))
    × (0 < c.next_id)

module _ (k : ℕ) where
  -- What a step settles is what it takes from the pending requests.
  abbrev pub Balances : HelperRpcClient → Step → Type 0
  Balances c step =
      (settled_count k step.1 + pending_count k step.0.pending ≡ pending_count k c.pending)
      × (step.0.next_id ≡ c.next_id)

  pub fail_all-Balances : (c : HelperRpcClient) → Balances c (fail_all c)
  unfolding fail_all
  fail_all-Balances c = ground (arith, settled_count-reject_all k c.pending)

  respond-Balances :
      (o : Option Text) (n : ℕ) (msg : Json) (c : HelperRpcClient)
      → find_call n c.pending ≡ o
      → pending_count k c.pending ≤ 1
      → Balances c (respond_from o n msg c)
  respond-Balances none n msg c e h = (omega arith, refl)
  respond-Balances (some m) n msg c e h =
      (ground (arith, pending_count-drop_call k n c.pending, find_call-count n c.pending m e), refl)

  handler_call-settled : (o : Option ℕ) (v : Option Json) → settled_count k (handler_call o v) ≡ 0
  handler_call-settled none v = refl
  handler_call-settled (some h) v = refl

  watch_call-settled :
      (o : Option Text) (v : Option Json) (c : HelperRpcClient)
      → settled_count k (watch_call o v c) ≡ 0
  watch_call-settled none v c = refl
  watch_call-settled (some t) v c = handler_call-settled (get t c.watch_handlers) v

  emit_event-settled :
      (event : Text) (v : Option Json) (c : HelperRpcClient)
      → settled_count k (emit_event event v c) ≡ 0
  unfolding emit_event
  emit_event-settled event v c =
      settled_count-handle_each k v (handlers_of (get event c.event_handlers))

  -- The step of a dispatch that does not throw.
  abbrev BalancesIf : HelperRpcClient → Option Step → Type 0
  BalancesIf c none = Unit {0}
  BalancesIf c (some step) = Balances c step

  watch_from-Balances :
      (o : Option (Option Text)) (event : Text) (v : Option Json) (c : HelperRpcClient)
      → BalancesIf c (watch_from o event v c)
  watch_from-Balances none event v c = tt
  watch_from-Balances (some t) event v c = (
    omega (
      arith,
      emit_event-settled event v c,
      watch_call-settled t v c,
      settled_count-append k (watch_call t v c) (emit_event event v c),
    ),
    refl,
  )

  event-Balances :
      (event : Text) (v : Option Json) (c : HelperRpcClient) → BalancesIf c (event_from event v c)
  event-Balances event v c = elim (Bool-cases (text_eq event (codes "watch"))) [
    | inr plain ↦ rw plain (omega (arith, emit_event-settled event v c), refl)
    | inl watch ↦ rw watch (watch_from-Balances (token_of v) event v c)
  ]

  respond_any-Balances :
      (o : Option ℕ) (msg : Json) (c : HelperRpcClient)
      → pending_count k c.pending ≤ 1
      → Balances c (respond o msg c)
  respond_any-Balances none msg c h = (omega arith, refl)
  respond_any-Balances (some n) msg c h = respond-Balances (find_call n c.pending) n msg c refl h

  dispatch_from-Balances :
      (o : Option Text) (msg : Json) (c : HelperRpcClient)
      → pending_count k c.pending ≤ 1
      → BalancesIf c (dispatch_from o msg c)
  dispatch_from-Balances none msg c h =
      respond_any-Balances (as_number (prop (codes "id") msg)) msg c h
  dispatch_from-Balances (some event) msg c h = event-Balances event (prop (codes "data") msg) c

  dispatch-Balances :
      (msg : Json) (c : HelperRpcClient)
      → pending_count k c.pending ≤ 1
      → BalancesIf c (dispatch msg c)
  unfolding dispatch
  dispatch-Balances msg c h = dispatch_from-Balances (as_string (prop (codes "event") msg)) msg c h

  then_all-Balances :
      (o : Option Step) (f : HelperRpcClient → Step) (c : HelperRpcClient)
      → BalancesIf c o
      → pending_count k c.pending ≤ 1
      → ((d : HelperRpcClient) → pending_count k d.pending ≤ 1 → Balances d (f d))
      → Balances c (then_all o f c)
  then_all-Balances none f c b h all = (omega arith, refl)
  then_all-Balances (some (d, es)) f c (balance, same) h all =
      let (later, kept) = all d (omega arith) in
      (omega (arith, settled_count-append k es (f d).1), kept ∙ same)

  pub dispatch_all-Balances :
      (msgs : List Json) (c : HelperRpcClient)
      → pending_count k c.pending ≤ 1
      → Balances c (dispatch_all msgs c)
  unfolding dispatch_all
  dispatch_all-Balances [] c h = (omega arith, refl)
  dispatch_all-Balances (msg ∷ msgs) c h =
      then_all-Balances (dispatch msg c) (dispatch_all msgs) c (dispatch-Balances msg c h) h
        (dispatch_all-Balances msgs)
