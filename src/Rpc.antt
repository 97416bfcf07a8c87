-- ===== src/Rpc.antt =====
-- electron/main/providers/remote/rpcClient.ts: the client of the remote helper, over the frames of Frame and the JSON
-- values of Tabs.Stored. The promise of a request is its id; a handler is a number. That a handler returns is
-- taken for granted.
pub mod Balances
pub mod Accounts
pub mod Answers
pub mod Responses
pub mod Settled
pub mod Received
mod Tests
use agent_cockpit.Base.{
  ℕ, suc, ◌+◌, ◌*◌, Bool, true, false, not, ◌==◌, Option, none, some, List, [], ◌∷◌, ◌++◌, map,
}
use agent_cockpit.Base.{Text, codes, text_eq, if◌then◌else◌, any, keep, length, is_some}
use agent_cockpit.Base.Maps.{get, set, delete}
use agent_cockpit.Frame
use agent_cockpit.Frame.{
  Bytes, JsonCodec, Encoded, frame, error, encode_frame, FrameErrorCode, FrameDecoder, Pushed, push,
}
use agent_cockpit.Tabs.Stored.{
  Json, null, boolean, number, string, array, object, member, end, prop, as_string,
}

abbrev pub max_message_bytes : ℕ
max_message_bytes = 16 * 0x10_0000

pub record HelperRpcClient : Type 0 where
  pub decoder : FrameDecoder
  -- The ids of the requests without an answer, with their methods, in insertion order.
  pub pending : List (ℕ × Text)
  pub watch_handlers : List (Text × ℕ)
  pub event_handlers : List (Text × List ℕ)
  pub next_id : ℕ
  pub closed : Bool

unfoldable pub connect : HelperRpcClient
connect = record {
  decoder = Frame.decoder max_message_bytes;
  pending = [];
  watch_handlers = [];
  event_handlers = [];
  next_id = 1;
  closed = false;
}

pub data Effect : Type 0 where
  wrote : Bytes → Effect
  resolved : ℕ → Option Json → Effect
  rejected : ℕ → Effect
  -- A call on a closed stream, which gets no id.
  refused : Effect
  handled : ℕ → Option Json → Effect

abbrev pub Step : Type 0
Step = HelperRpcClient × List Effect

abbrev pub find_call : ℕ → List (ℕ × Text) → Option Text
find_call id [] = none
find_call id ((n, m) ∷ calls) = if n == id then some m else find_call id calls

abbrev pub drop_call : ℕ → List (ℕ × Text) → List (ℕ × Text)
drop_call id calls = keep (λ e. not (e.0 == id)) calls

abbrev pub reject_all : List (ℕ × Text) → List Effect
reject_all [] = []
reject_all ((id, m) ∷ calls) = rejected id ∷ reject_all calls

unfoldable pub fail_all : HelperRpcClient → Step
fail_all c =
    if c.closed then (c, []) else (record c { closed = true; pending = [] }, reject_all c.pending)

abbrev pub handlers_of : Option (List ℕ) → List ℕ
handlers_of none = []
handlers_of (some hs) = hs

abbrev pub handle_each : Option Json → List ℕ → List Effect
handle_each v [] = []
handle_each v (h ∷ hs) = handled h v ∷ handle_each v hs

unfoldable pub emit_event : Text → Option Json → HelperRpcClient → List Effect
emit_event event v c = handle_each v (handlers_of (get event c.event_handlers))

-- `data.token` of a watch event; nothing if reading it throws.
abbrev pub token_of : Option Json → Option (Option Text)
token_of none = none
token_of (some null) = none
token_of (some (boolean b)) = some none
token_of (some (number n)) = some none
token_of (some (string s)) = some none
token_of (some (array js)) = some none
token_of (some (object ms)) = some (as_string (prop (codes "token") (object ms)))

abbrev pub handler_call : Option ℕ → Option Json → List Effect
handler_call none v = []
handler_call (some h) v = handled h v ∷ []

abbrev pub watch_call : Option Text → Option Json → HelperRpcClient → List Effect
watch_call none v c = []
watch_call (some token) v c = handler_call (get token c.watch_handlers) v

abbrev pub as_number : Option Json → Option ℕ
as_number none = none
as_number (some null) = none
as_number (some (boolean b)) = none
as_number (some (number n)) = some n
as_number (some (string s)) = none
as_number (some (array js)) = none
as_number (some (object ms)) = none

-- `error != null`
abbrev pub is_error : Option Json → Bool
is_error none = false
is_error (some null) = false
is_error (some (boolean b)) = true
is_error (some (number n)) = true
is_error (some (string s)) = true
is_error (some (array js)) = true
is_error (some (object ms)) = true

-- A response to a request that is pending, or to none.
abbrev pub respond_from : Option Text → ℕ → Json → HelperRpcClient → Step
respond_from none id msg c = (c, [])
respond_from (some m) id msg c = (
  record c { pending = drop_call id c.pending },
  (if is_error (prop (codes "error") msg)
        then rejected id
        else resolved id (prop (codes "result") msg))
      ∷ [],
)

abbrev pub respond : Option ℕ → Json → HelperRpcClient → Step
respond none msg c = (c, [])
respond (some id) msg c = respond_from (find_call id c.pending) id msg c

abbrev pub watch_from : Option (Option Text) → Text → Option Json → HelperRpcClient → Option Step
watch_from none event v c = none
watch_from (some token) event v c = some (c, watch_call token v c ++ emit_event event v c)

-- Nothing if the dispatch throws, which ends the loop over the messages of a chunk.
abbrev pub event_from : Text → Option Json → HelperRpcClient → Option Step
event_from event v c =
    if text_eq event (codes "watch")
    then watch_from (token_of v) event v c
    else some (c, emit_event event v c)

abbrev pub dispatch_from : Option Text → Json → HelperRpcClient → Option Step
dispatch_from none msg c = some (respond (as_number (prop (codes "id") msg)) msg c)
dispatch_from (some event) msg c = event_from event (prop (codes "data") msg) c

unfoldable pub dispatch : Json → HelperRpcClient → Option Step
dispatch msg c = dispatch_from (as_string (prop (codes "event") msg)) msg c

abbrev pub then_all : Option Step → (HelperRpcClient → Step) → HelperRpcClient → Step
then_all none f c = (c, [])
then_all (some (d, es)) f c = ((f d).0, es ++ (f d).1)

unfoldable pub dispatch_all : List Json → HelperRpcClient → Step
dispatch_all [] c = (c, [])
dispatch_all (msg ∷ msgs) c = then_all (dispatch msg c) (dispatch_all msgs) c

unfoldable pub on_event : Text → ℕ → HelperRpcClient → HelperRpcClient
on_event event h c =
    let hs = handlers_of (get event c.event_handlers) in
    record c {
      event_handlers =
          set event (if any (λ k. k == h) hs then hs else hs ++ h ∷ []) c.event_handlers;
    }

-- The function that `onEvent` returns.
unfoldable pub off_event : Text → ℕ → HelperRpcClient → HelperRpcClient
off_event event h c =
    let rest = keep (λ k. not (k == h)) (handlers_of (get event c.event_handlers)) in
    record c {
      event_handlers =
          if not (is_some (get event c.event_handlers))
          then c.event_handlers
          else if length rest == 0
          then delete event c.event_handlers
          else set event rest c.event_handlers;
    }

abbrev pub request : ℕ → Text → Json → Json
request id method params = object (
    member (codes "id") (number id)
      (member (codes "method") (string method) (member (codes "params") params end)))

module _ (json : JsonCodec Json) where
  abbrev pub pushed : Pushed Json → HelperRpcClient → Step
  pushed (Pushed.returned msgs d) c = dispatch_all msgs (record c { decoder = d })
  pushed (Pushed.threw e d) c = fail_all (record c { decoder = d })
  pushed Pushed.fault c = fail_all c
  pushed Pushed.out_of_fuel c = fail_all c

  unfoldable pub on_data : Bytes → HelperRpcClient → Step
  on_data chunk c = pushed (push json chunk c.decoder) c

  -- After the entry is made.
  abbrev pub send : Encoded → ℕ → HelperRpcClient → Step
  send (frame bytes) id c = (c, wrote bytes ∷ [])
  send (error e) id c = (record c { pending = drop_call id c.pending }, rejected id ∷ [])

  abbrev pub call_from : Bool → Text → Json → HelperRpcClient → Step
  call_from true method params c = (c, refused ∷ [])
  call_from false method params c =
      send (encode_frame json (request c.next_id method params) max_message_bytes) c.next_id
        (record c { next_id = suc c.next_id; pending = c.pending ++ (c.next_id, method) ∷ [] })

  -- Every typed method is a call with its method and parameters.
  unfoldable pub call : Text → Json → HelperRpcClient → Step
  call method params c = call_from c.closed method params c

  unfoldable pub watch_subscribe : Text → ℕ → Json → HelperRpcClient → Step
  watch_subscribe token h params c =
      call (codes "watch.subscribe") params
        (record c { watch_handlers = set token h c.watch_handlers })

  unfoldable pub watch_unsubscribe : Text → Json → HelperRpcClient → Step
  watch_unsubscribe token params c =
      call (codes "watch.unsubscribe") params
        (record c { watch_handlers = delete token c.watch_handlers })
