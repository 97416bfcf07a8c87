-- ===== src/Rpc/Tests.antt =====
-- A client that asks twice, is answered once, and loses the stream; JSON is cut down to what these messages need.
use agent_cockpit.Base.{
  ℕ, ◌≡◌, refl, false, not, ◌&&◌, ◌==◌, none, some, Option, [], ◌∷◌, ◌++◌, List, Text, codes, arith,
  text_eq, text_eq_iff, if◌then◌else◌, ltb, length,
}
use agent_cockpit.Frame.{
  Bytes, JsonCodec, decoder, encode_frame, read_chunk, read_length, declared_length, gather,
  take_frame, body_round, round_from, push_loop, push_from,
}
use agent_cockpit.Tabs.Stored.{Json, null, number, string, object, member, end, field}
use agent_cockpit.Rpc.{
  HelperRpcClient, connect, request, resolved, refused, fail_all, emit_event, dispatch,
  dispatch_all, on_event, off_event, on_data, call, watch_subscribe, watch_unsubscribe, find_call,
}
use agent_cockpit.Rpc.Balances.{settled_count, pending_count, IsAccounted, one_if}
use agent_cockpit.Rpc.Accounts.{Event, calls, receives, ends, history}
use agent_cockpit.Rpc.Answers.{history-ends}
use agent_cockpit.Rpc.Responses.{answers, first_answer, settles, has_data}
use agent_cockpit.Rpc.Received.{received-first_answer}
use agent_cockpit.Frame.{frame, pending_bytes}
use agent_cockpit.Frame.Take.{flat}
use agent_cockpit.Frame.Stream.{encode_all}
use agent_cockpit.Rpc.{max_message_bytes}
use agent_cockpit.Base.{zero, suc, ap, true, map, All, any, keep}

program : Unit {0}
unfolding decoder encode_frame read_chunk read_length declared_length gather take_frame body_round
    round_from push_loop push_from field connect fail_all emit_event dispatch dispatch_all on_event
    off_event on_data call watch_subscribe watch_unsubscribe history
program = tt

abbrev response : ℕ → Json
response n =
    object (member (codes "id") (number n) (member (codes "result") (string (codes "ok")) end))

abbrev nines : ℕ → Bytes
nines zero = []
nines (suc n) = 9 ∷ nines n

length-nines : (n : ℕ) → length (nines n) ≡ n
length-nines zero = refl
length-nines (suc n) = ap suc (length-nines n)

-- A request without parameters is its id and its method, a response 255 and as many nines as its id says.
abbrev encode : Json → Option Bytes
encode (object (member i (number n) (member r (string s) end))) =
    if text_eq i (codes "id") && text_eq r (codes "result") && text_eq s (codes "ok")
    then some (255 ∷ nines n)
    else none
encode (object (member i (number n) (member m (string s) (member p null end)))) =
    if text_eq i (codes "id")
      && text_eq m (codes "method")
      && text_eq p (codes "params")
      && not (n == 255)
    then some (n ∷ s)
    else none
encode _ = none

abbrev decode : Bytes → Option Json
decode [] = none
decode (n ∷ s) = if n == 255 then some (response (length s)) else some (request n s null)

decode-encode : (p : Json) (b : Bytes) → encode p ≡ some b → decode b ≡ some p
decode-encode (object (member i (number n) (member r (string s) end))) b h = ground (
  arith,
  text_eq_iff i (codes "id"),
  text_eq_iff r (codes "result"),
  text_eq_iff s (codes "ok"),
  length-nines n,
)
decode-encode (object (member i (number n) (member m (string s) (member p null end)))) b h =
    ground (
      arith,
      text_eq_iff i (codes "id"),
      text_eq_iff m (codes "method"),
      text_eq_iff p (codes "params"),
    )
decode-encode _ b h = cc

abbrev json : JsonCodec Json
json = record { encode = encode; decode = decode; decode-encode = decode-encode }

-- The answer to the second request comes in two chunks.
abbrev before : List Event
before =
    calls (codes "stat") null
    ∷ calls (codes "list") null
    ∷ receives (0 ∷ 0 ∷ 0 ∷ 3 ∷ 255 ∷ [])
    ∷ receives (9 ∷ 9 ∷ [])
    ∷ []

answered : settled_count 2 (history json before [] connect).1 ≡ 1
unfolding program
answered = refl

waiting : pending_count 1 (history json before [] connect).0.pending ≡ 1
unfolding program
waiting = refl

connected : IsAccounted 1 [] connect
unfolding program
connected = (refl, omega arith)

history-ends_example :
    let end = history json (before ++ ends ∷ []) [] connect in
    (settled_count 1 end.1 ≡ one_if (ltb 0 1 && ltb 1 end.0.next_id))
    × (end.0.pending ≡ [])
    × ((method : Text) (params : Json) → (call json method params end.0).1 ≡ refused ∷ [])
history-ends_example = history-ends json before [] 1

abbrev two_pending : HelperRpcClient
two_pending = record {
  decoder = record {
    max_frame_bytes = max_message_bytes;
    chunks = [];
    buffered = 0;
    frame_bytes = none;
    failure = none;
  };
  pending = (1, codes "stat") ∷ (2, codes "list") ∷ [];
  watch_handlers = [];
  event_handlers = [];
  next_id = 3;
  closed = false;
}

same_decoder : two_pending.decoder ≡ decoder max_message_bytes
unfolding decoder
same_decoder = refl

-- The answers to the second request twice, and to one that was never made.
abbrev arriving : List Json
arriving = response 2 ∷ response 2 ∷ response 5 ∷ []

abbrev in_chunks : List Bytes
in_chunks =
    (0 ∷ 0 ∷ 0 ∷ [])
    ∷ (3 ∷ 255 ∷ 9 ∷ 9 ∷ 0 ∷ [])
    ∷ (0 ∷ 0 ∷ 3 ∷ 255 ∷ 9 ∷ [])
    ∷ (9 ∷ 0 ∷ 0 ∷ 0 ∷ 6 ∷ 255 ∷ 9 ∷ 9 ∷ 9 ∷ 9 ∷ 9 ∷ [])
    ∷ []

written : encode_all json max_message_bytes arriving ≡ frame (flat in_chunks)
unfolding program encode_all
written = refl

have_data : All (λ m. has_data m ≡ true) arriving
unfolding field
have_data = (refl, (refl, (refl, tt)))

received-first_answer_example :
    let end = history json (map receives in_chunks) [] two_pending in
    (keep (settles 2) end.1 ≡ first_answer 2 arriving)
    × (find_call 2 end.0.pending ≡ (if any (answers 2) arriving then none else some (codes "list")))
    × (pending_bytes end.0.decoder ≡ 0)
received-first_answer_example =
    received-first_answer json 2 arriving in_chunks two_pending same_decoder written have_data

first_of_them : first_answer 2 arriving ≡ resolved 2 (some (string (codes "ok"))) ∷ []
unfolding field
first_of_them = refl

-- A watch event without data makes the dispatch throw, and the answer behind it in the chunk is lost.
answer_lost :
    (dispatch_all
      (object (member (codes "event") (string (codes "watch")) end) ∷ response 2 ∷ [])
      two_pending).1
    ≡ []
unfolding program
answer_lost = refl
