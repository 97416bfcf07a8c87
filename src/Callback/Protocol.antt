-- ===== src/Callback/Protocol.antt =====
-- src/shared/callback/protocol.ts: the envelope, its checks and the checks of the arguments of `open`. A
-- request is a parsed JSON value, whose numbers here are natural: any other is no valid id or version.
use agent_cockpit.Base.{List}
use agent_cockpit.Base.{
  ℕ, ◌+◌, Bool, true, false, not, ◌&&◌, ◌||◌, Option, none, some, [], ◌∷◌, ◌++◌, length, any, ◌⊎◌,
  inl, inr,
}
use agent_cockpit.Base.{Text, codes, text_eq, starts_with, ltb, leb, ◌==◌, if◌then◌else◌}
use agent_cockpit.Base.Maps.{get}
use agent_cockpit.Frame.{JsonCodec, Encoded, FrameDecoder, encode_frame, decoder}
use agent_cockpit.Tabs.Stored.{Json, null, boolean, number, string, array, object, prop, as_string}

abbrev pub callback_protocol_version : ℕ
callback_protocol_version = 1

abbrev pub callback_rate_limit_per_second : ℕ
callback_rate_limit_per_second = 10

abbrev pub callback_max_path_bytes : ℕ
callback_max_path_bytes = 4096

abbrev max_op_chars : ℕ
max_op_chars = 32

abbrev max_pane_id_chars : ℕ
max_pane_id_chars = 128

-- `Number.MAX_SAFE_INTEGER`
abbrev max_safe_integer : ℕ
max_safe_integer = 9007199254740991

pub data CallbackOp : Type 0 where
  open_file : CallbackOp

-- `isCallbackOp`, with the operation.
abbrev pub as_callback_op : Text → Option CallbackOp
as_callback_op op = if text_eq op (codes "open") then some open_file else none

pub data CallbackErrorCode : Type 0 where
  unsupported_op bad_request rate_limited timeout not_connected internal : CallbackErrorCode

pub data PaneKind : Type 0 where
  tmux mux : PaneKind

pub record CallbackPane : Type 0 where
  pub kind : PaneKind
  pub id : Text

pub record OpenArgs : Type 0 where
  pub path : Text
  pub canonical_path : Option Text

-- The result of `open` is always `dispatched`.
pub data CallbackReply : Type 0 where
  ok_reply : ℕ → CallbackReply
  error_reply : ℕ → CallbackErrorCode → Text → CallbackReply

abbrev pub is_record : Json → Bool
is_record (object ms) = true
is_record null = false
is_record (boolean b) = false
is_record (number n) = false
is_record (string s) = false
is_record (array js) = false

-- `CONTROL_CHARS.test`
abbrev pub has_control_chars : Text → Bool
has_control_chars s = any (λ c. leb c 0x1f || c == 0x7f) s

-- `isPaneId`, with the id.
abbrev pub as_pane_id : Option Text → Option Text
as_pane_id none = none
as_pane_id (some id) =
    if not (length id == 0) && leb (length id) max_pane_id_chars && not (has_control_chars id)
    then some id
    else none

abbrev as_pane_kind : Option Text → Option PaneKind
as_pane_kind none = none
as_pane_kind (some s) =
    if text_eq s (codes "tmux")
    then some tmux
    else if text_eq s (codes "mux")
    then some mux
    else none

abbrev pane_from : Option PaneKind → Option Text → Option CallbackPane
pane_from (some k) (some id) = some (record { kind = k; id = id })
pane_from none _ = none
pane_from (some k) none = none

-- On a value that is no object every member is missing.
abbrev pub parse_pane : Json → Option CallbackPane
parse_pane raw =
    pane_from (as_pane_kind (as_string (prop (codes "kind") raw)))
      (as_pane_id (as_string (prop (codes "id") raw)))

-- Accepted with the id, the operation, the pane and the arguments, or refused with the id to answer.
pub data EnvelopeResult : Type 0 where
  accepted : ℕ → Text → Option CallbackPane → Option Json → EnvelopeResult
  refused : ℕ → Text → EnvelopeResult

-- `Number.isSafeInteger(id) && id >= 1 ? id : 0`
abbrev pub valid_id : Option Json → ℕ
valid_id (some (number n)) = if leb n max_safe_integer && leb 1 n then n else 0
valid_id _ = 0

abbrev pub is_version : Option Json → Bool
is_version (some (number n)) = n == callback_protocol_version
is_version _ = false

abbrev pub valid_op : Option Text → Option Text
valid_op none = none
valid_op (some op) = if length op == 0 || ltb max_op_chars (length op) then none else some op

abbrev pub with_pane : ℕ → Text → Option Json → Option CallbackPane → EnvelopeResult
with_pane id op args none = refused id (codes "pane must be {kind: \"tmux\" | \"mux\", id: string}")
with_pane id op args (some pane) = accepted id op (some pane) args

abbrev pub check_pane : ℕ → Text → Option Json → Option Json → EnvelopeResult
check_pane id op args none = accepted id op none args
check_pane id op args (some null) = accepted id op none args
check_pane id op args (some raw) = with_pane id op args (parse_pane raw)

abbrev pub check_op : ℕ → Option Text → Option Json → Option Json → EnvelopeResult
check_op id none pane args = refused id (codes "op must be a non-empty string")
check_op id (some op) pane args = check_pane id op args pane

unfoldable pub parse_callback_envelope : Json → EnvelopeResult
parse_callback_envelope raw =
    let id = valid_id (prop (codes "id") raw) in
    if not (is_record raw)
    then refused 0 (codes "request must be a JSON object")
    else if not (is_version (prop (codes "v") raw))
    then refused id (codes "unsupported protocol version (expected v=1)")
    else if id == 0
    then refused id (codes "id must be a positive integer")
    else check_op id (valid_op (as_string (prop (codes "op") raw))) (prop (codes "pane") raw)
        (prop (codes "args") raw)

abbrev is_high : ℕ → Bool
is_high c = leb 0xd800 c && leb c 0xdbff

abbrev is_low : ℕ → Bool
is_low c = leb 0xdc00 c && leb c 0xdfff

-- The bytes of a code unit that is no part of a pair; a lone surrogate is written as U+FFFD.
abbrev unit_bytes : ℕ → ℕ
unit_bytes c = if ltb c 0x80 then 1 else if ltb c 0x800 then 2 else 3

-- What a code unit adds, after a high surrogate that is not counted yet or not.
abbrev unit_weight : Bool → ℕ → ℕ
unit_weight pending c =
    if pending && is_low c
    then 4
    else (if pending then 3 else 0) + (if is_high c then 0 else unit_bytes c)

abbrev utf8_from : Bool → Text → ℕ
utf8_from pending [] = if pending then 3 else 0
utf8_from pending (c ∷ s) = unit_weight pending c + utf8_from (is_high c) s

-- `textEncoder.encode(value).length`
abbrev pub utf8_length : Text → ℕ
utf8_length s = utf8_from false s

-- A message, or the path.
abbrev pub check_absolute : Text → Text → Text ⊎ Text
check_absolute field value =
    if length value == 0
    then inl (field ++ codes " must be a non-empty string")
    else if not (starts_with (codes "/") value)
    then inl (field ++ codes " must be an absolute path")
    else if any (λ c. c == 0) value
    then inl (field ++ codes " must not contain NUL")
    else if ltb callback_max_path_bytes (utf8_length value)
    then inl (field ++ codes " is longer than 4096 bytes")
    else inr value

abbrev pub parse_absolute_path : Option Text → Text → Text ⊎ Text
parse_absolute_path none field = inl (field ++ codes " must be a non-empty string")
parse_absolute_path (some value) field = check_absolute field value

abbrev pub with_canonical : Text → Text ⊎ Text → Text ⊎ OpenArgs
with_canonical path (inl message) = inl message
with_canonical path (inr canonical) = inr (record { path = path; canonical_path = some canonical })

abbrev pub open_args_from : Text ⊎ Text → Option Json → Text ⊎ OpenArgs
open_args_from (inl message) _ = inl message
open_args_from (inr path) none = inr (record { path = path; canonical_path = none })
open_args_from (inr path) (some null) = inr (record { path = path; canonical_path = none })
open_args_from (inr path) (some raw) =
    with_canonical path (parse_absolute_path (as_string (some raw)) (codes "canonicalPath"))

abbrev pub open_args_of : Json → Text ⊎ OpenArgs
open_args_of raw =
    if not (is_record raw)
    then inl (codes "args must be an object")
    else open_args_from (parse_absolute_path (as_string (prop (codes "path") raw)) (codes "path"))
        (prop (codes "canonicalPath") raw)

unfoldable pub parse_open_args : Option Json → Text ⊎ OpenArgs
parse_open_args none = inl (codes "args must be an object")
parse_open_args (some raw) = open_args_of raw

-- The environment of a process, as a map.
abbrev Env : Type 0
Env = List (Text × Text)

abbrev pane_or : Option Text → PaneKind → Option CallbackPane → Option CallbackPane
pane_or (some id) kind other = some (record { kind = kind; id = id })
pane_or none kind other = other

-- `paneFromEnv`: the key of the mux wins.
unfoldable pub pane_from_env : Env → Option CallbackPane
pane_from_env env =
    pane_or (as_pane_id (get (codes "COCKPIT_CALLBACK_MUX_KEY") env)) mux
      (pane_or (as_pane_id (get (codes "TMUX_PANE") env)) tmux none)

-- No NUL and no line break.
unfoldable pub is_injectable_env_value : Text → Bool
is_injectable_env_value value = not (any (λ c. c == 0 || (c == 13 || c == 10)) value)

abbrev pub callback_max_frame_bytes : ℕ
callback_max_frame_bytes = 65536

abbrev pub encode_callback_frame : {P : Type 0} → JsonCodec P → P → Encoded
encode_callback_frame json message = encode_frame json message callback_max_frame_bytes

abbrev pub create_callback_frame_decoder : FrameDecoder
create_callback_frame_decoder = decoder callback_max_frame_bytes
