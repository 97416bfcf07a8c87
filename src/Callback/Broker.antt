-- ===== src/Callback/Broker.antt =====
-- electron/main/callback/broker.ts: the decision on a request, the dispatch of an accepted `open`, and
-- what stopping a listener forgets. The clock is read once in a request, and the project's status, its
-- provider and its root are what the session manager answers at that time.
pub mod Checks
pub mod Runs
pub mod Rate
use agent_cockpit.Base.{
  ℕ, Bool, true, false, not, ◌&&◌, Option, none, some, List, [], ◌∷◌, ◌++◌, map, ◌⊎◌, inl, inr, any,
}
use agent_cockpit.Base.{Text, codes, text_eq, ◌==◌, if◌then◌else◌, keep}
use agent_cockpit.Base.Maps.{get, set, delete}
use agent_cockpit.Connection.{ConnectionState}
use agent_cockpit.Limiter.{TokenBucket, create, try_take}
use agent_cockpit.Reaper.{is_connected}
use agent_cockpit.Tabs.Stored.{Json}
use agent_cockpit.Callback.Protocol.{
  callback_rate_limit_per_second, CallbackOp, open_file, as_callback_op, CallbackPane, OpenArgs,
  CallbackErrorCode, CallbackReply, ok_reply, error_reply, unsupported_op, bad_request,
  rate_limited, not_connected, EnvelopeResult, accepted, refused, parse_callback_envelope,
  parse_open_args,
}
use agent_cockpit.Callback.Classify.{
  ProviderKind, CallbackOpenSelection, Answers, resolve_open_selection,
}

pub record CallbackBroker : Type 0 where
  pub limiters : List (Text × TokenBucket)
  pub open_listeners : List ℕ

-- An accepted `open` that is still to be classified.
pub record Dispatch : Type 0 where
  pub project_id : Text
  pub args : OpenArgs
  pub pane : Option CallbackPane

pub record Decision : Type 0 where
  pub reply : CallbackReply
  pub dispatch : Option Dispatch

abbrev error : ℕ → CallbackErrorCode → Text → Decision
error id code message = record { reply = error_reply id code message; dispatch = none }

abbrev bucket_or_new : ℕ → Option TokenBucket → TokenBucket
bucket_or_new now (some bucket) = bucket
bucket_or_new now none = create callback_rate_limit_per_second callback_rate_limit_per_second now

abbrev pub limiter_for : Text → ℕ → CallbackBroker → TokenBucket
limiter_for project now b = bucket_or_new now (get project b.limiters)

abbrev pub with_limiter : Text → TokenBucket → CallbackBroker → CallbackBroker
with_limiter project bucket b = record b { limiters = set project bucket b.limiters }

abbrev pub on_args : Text → ℕ → Option CallbackPane → Text ⊎ OpenArgs → Decision
on_args project id pane (inl message) = error id bad_request message
on_args project id pane (inr args) = record {
  reply = ok_reply id;
  dispatch = some (record { project_id = project; args = args; pane = pane });
}

-- The table `ops`, with `handleOpen`.
abbrev pub run_op : CallbackOp → Text → ℕ → Option CallbackPane → Option Json → Decision
run_op open_file project id pane args = on_args project id pane (parse_open_args args)

abbrev pub admit :
    CallbackOp → Text → ℕ → Option CallbackPane → Option Json → Bool → Bool → Decision
admit op project id pane args granted connected =
    if not granted
    then error id rate_limited (codes "too many requests")
    else if not connected
    then error id not_connected (codes "project is not connected")
    else run_op op project id pane args

abbrev pub on_op :
    Option ConnectionState
    → ℕ
    → Text
    → ℕ
    → Option CallbackPane
    → Option Json
    → CallbackBroker
    → Option CallbackOp
    → CallbackBroker × Decision
on_op status now project id pane args b none =
    (b, error id unsupported_op (codes "unsupported operation"))
on_op status now project id pane args b (some op) =
    let (bucket, granted) = try_take now (limiter_for project now b) in
    (with_limiter project bucket b, admit op project id pane args granted (is_connected status))

abbrev pub on_envelope :
    Option ConnectionState → ℕ → Text → CallbackBroker → EnvelopeResult → CallbackBroker × Decision
on_envelope status now project b (refused id message) = (b, error id bad_request message)
on_envelope status now project b (accepted id op pane args) =
    on_op status now project id pane args b (as_callback_op op)

-- The new broker, and the reply with the open that is dispatched.
unfoldable pub handle :
    Option ConnectionState → ℕ → Text → Json → CallbackBroker → CallbackBroker × Decision
handle status now project raw b = on_envelope status now project b (parse_callback_envelope raw)

-- A provider object, and whether it is local.
pub record Provider : Type 0 where
  pub object_id : ℕ
  pub kind : ProviderKind

pub record CallbackOpenEvent : Type 0 where
  pub project_id : Text
  pub selection : CallbackOpenSelection
  pub pane : Option CallbackPane

-- `dispatchOpen` up to its first wait: the provider that is asked, and the root.
unfoldable pub begin_open : Option Provider → Option Text → Option (Provider × Text)
begin_open (some p) (some root) = some (p, root)
begin_open none _ = none
begin_open (some p) none = none

abbrev is_object : Provider → Option Provider → Bool
is_object p none = false
is_object p (some q) = q.object_id == p.object_id

-- `dispatchOpen` once the answers are there, with the provider and the status of that time.
unfoldable pub finish_open :
    Dispatch
    → Provider × Text
    → Answers
    → Option Provider
    → Option ConnectionState
    → Option CallbackOpenEvent
finish_open d (p, root) answers provider status =
    if is_object p provider && is_connected status
    then some (record {
      project_id = d.project_id;
      selection = resolve_open_selection p.kind root answers d.args.path d.args.canonical_path;
      pane = d.pane;
    })
    else none

-- `onOpen`, and the function that it returns.
abbrev pub on_open : ℕ → CallbackBroker → CallbackBroker
on_open l b =
    if any (λ k. k == l) b.open_listeners
    then b
    else record b { open_listeners = b.open_listeners ++ l ∷ [] }

abbrev pub off_open : ℕ → CallbackBroker → CallbackBroker
off_open l b = record b { open_listeners = keep (λ k. not (k == l)) b.open_listeners }

-- The calls of `emitOpen`: a listener that throws does not keep the others from theirs.
unfoldable pub emit_open : CallbackOpenEvent → CallbackBroker → List (ℕ × CallbackOpenEvent)
emit_open event b = map (λ l. (l, event)) b.open_listeners

-- What `stopListener` does to the limiters.
unfoldable pub stop_listener : Text → CallbackBroker → CallbackBroker
stop_listener project b = record b { limiters = delete project b.limiters }
