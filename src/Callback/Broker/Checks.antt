-- ===== src/Callback/Broker/Checks.antt =====
-- What a request has passed when its `open` is dispatched, and what every reply carries.
use mathlib.Core.Path.{subst}
use agent_cockpit.Base.{
  ℕ, ◌≤◌, ◌≡◌, refl, Bool, true, false, not, Option, none, some, length, any, ◌⊎◌, inl, inr,
}
use agent_cockpit.Base.{Text, codes, starts_with, ltb, ◌==◌, if◌then◌else◌, ltb-false→le}
use agent_cockpit.Connection.{ConnectionState}
use agent_cockpit.Limiter.{try_take}
use agent_cockpit.Reaper.{is_connected}
use agent_cockpit.Tabs.Stored.{Json, null, boolean, number, string, array, object, prop, as_string}
use agent_cockpit.Callback.Protocol.{
  CallbackOp, open_file, as_callback_op, CallbackPane, OpenArgs, CallbackReply, ok_reply,
  error_reply, EnvelopeResult, accepted, refused, parse_callback_envelope, parse_open_args,
  check_absolute, parse_absolute_path, utf8_length, callback_max_path_bytes, valid_id,
  with_canonical, open_args_from, is_record, check_pane, check_op, with_pane, parse_pane,
  is_version, valid_op,
}
use agent_cockpit.Callback.Broker.{
  CallbackBroker, Dispatch, Decision, limiter_for, on_args, admit, on_op, on_envelope, handle,
}

-- An absolute path without NUL and not too long.
abbrev pub IsPath : Text → Type 0
IsPath p =
    (starts_with (codes "/") p ≡ true) × (any (λ c. c == 0) p ≡ false) × (utf8_length p ≤ 4096)

abbrev pub IsPathOrNone : Option Text → Type 0
IsPathOrNone none = Unit
IsPathOrNone (some p) = IsPath p

abbrev pub AreArgs : OpenArgs → Type 0
AreArgs a = IsPath a.path × IsPathOrNone a.canonical_path

abbrev OnRight : {A B : Type 0} → (B → Type 0) → A ⊎ B → Type 0
OnRight P (inl a) = Unit
OnRight P (inr b) = P b

checked :
    (a b c d : Bool) (k l m n p : Text)
    → (b ≡ true → c ≡ false → d ≡ false → IsPath p)
    → OnRight IsPath (
        if a
        then inl k
        else if not b
        then inl l
        else if c
        then inl m
        else if d
        then inl n
        else inr p)
checked true b c d k l m n p h = tt
checked false false c d k l m n p h = tt
checked false true true d k l m n p h = tt
checked false true false true k l m n p h = tt
checked false true false false k l m n p h = h refl refl refl

parse_absolute_path-IsPath :
    (o : Option Text) (field : Text) → OnRight IsPath (parse_absolute_path o field)
parse_absolute_path-IsPath none field = tt
parse_absolute_path-IsPath (some p) field =
    checked (length p == 0) (starts_with (codes "/") p) (any (λ c. c == 0) p)
      (ltb callback_max_path_bytes (utf8_length p)) _ _ _ _ p
      (λ a b c. (a, b, ltb-false→le callback_max_path_bytes (utf8_length p) c))

with_canonical-AreArgs :
    (path : Text) (r : Text ⊎ Text)
    → IsPath path
    → OnRight IsPath r
    → OnRight AreArgs (with_canonical path r)
with_canonical-AreArgs path (inl m) h k = tt
with_canonical-AreArgs path (inr c) h k = (h, k)

open_args_from-AreArgs :
    (r : Text ⊎ Text) (o : Option Json) → OnRight IsPath r → OnRight AreArgs (open_args_from r o)
open_args_from-AreArgs (inl m) o h = tt
open_args_from-AreArgs (inr p) none h = (h, tt)
open_args_from-AreArgs (inr p) (some null) h = (h, tt)
open_args_from-AreArgs (inr p) (some (string s)) h =
    with_canonical-AreArgs p (check_absolute (codes "canonicalPath") s) h
      (parse_absolute_path-IsPath (some s) (codes "canonicalPath"))
open_args_from-AreArgs (inr p) (some (boolean b)) h = tt
open_args_from-AreArgs (inr p) (some (number n)) h = tt
open_args_from-AreArgs (inr p) (some (array js)) h = tt
open_args_from-AreArgs (inr p) (some (object ms)) h = tt

pub parse_open_args-AreArgs : (o : Option Json) → OnRight AreArgs (parse_open_args o)
unfolding parse_open_args
parse_open_args-AreArgs none = tt
parse_open_args-AreArgs (some raw) = go (is_record raw)
  where
    go :
        (b : Bool)
        → OnRight AreArgs (
            if not b
            then inl (codes "args must be an object")
            else open_args_from
                (parse_absolute_path (as_string (prop (codes "path") raw)) (codes "path"))
                (prop (codes "canonicalPath") raw))
    go true =
        let path = as_string (prop (codes "path") raw) in
        open_args_from-AreArgs (parse_absolute_path path (codes "path"))
          (prop (codes "canonicalPath") raw) (parse_absolute_path-IsPath path (codes "path"))
    go false = tt

abbrev pub reply_id : CallbackReply → ℕ
reply_id (ok_reply id) = id
reply_id (error_reply id code message) = id

-- What a decision on a request of a project says: an error, or that a valid `open` of this project is
-- dispatched while it is connected.
abbrev pub Decides : Option ConnectionState → Text → CallbackReply → Option Dispatch → Type 0
Decides status project (error_reply id code message) none = Unit
Decides status project (error_reply id code message) (some d) = ⊥
Decides status project (ok_reply id) none = ⊥
Decides status project (ok_reply id) (some d) =
    (is_connected status ≡ true) × (d.project_id ≡ project) × AreArgs d.args

abbrev pub Correlates : Option ConnectionState → Text → ℕ → Decision → Type 0
Correlates status project id d = (reply_id d.reply ≡ id) × Decides status project d.reply d.dispatch

module _ (status : Option ConnectionState) (project : Text) where
  on_args-Correlates :
      (id : ℕ) (pane : Option CallbackPane) (r : Text ⊎ OpenArgs)
      → is_connected status ≡ true
      → OnRight AreArgs r
      → Correlates status project id (on_args project id pane r)
  on_args-Correlates id pane (inl m) c h = (refl, tt)
  on_args-Correlates id pane (inr a) c h = (refl, (c, refl, h))

  admit-Correlates :
      (op : CallbackOp) (id : ℕ) (pane : Option CallbackPane) (args : Option Json)
      (granted connected : Bool)
      → is_connected status ≡ connected
      → Correlates status project id (admit op project id pane args granted connected)
  admit-Correlates op id pane args false connected c = (refl, tt)
  admit-Correlates op id pane args true false c = (refl, tt)
  admit-Correlates open_file id pane args true true c =
      on_args-Correlates id pane (parse_open_args args) c (parse_open_args-AreArgs args)

  on_op-Correlates :
      (now id : ℕ) (pane : Option CallbackPane) (args : Option Json) (b : CallbackBroker)
      (op : Option CallbackOp)
      → Correlates status project id (on_op status now project id pane args b op).1
  on_op-Correlates now id pane args b none = (refl, tt)
  on_op-Correlates now id pane args b (some op) =
      admit-Correlates op id pane args (try_take now (limiter_for project now b)).1
        (is_connected status) refl

  abbrev envelope_id : EnvelopeResult → ℕ
  envelope_id (refused id message) = id
  envelope_id (accepted id op pane args) = id

  on_envelope-Correlates :
      (now : ℕ) (b : CallbackBroker) (e : EnvelopeResult)
      → Correlates status project (envelope_id e) (on_envelope status now project b e).1
  on_envelope-Correlates now b (refused id message) = (refl, tt)
  on_envelope-Correlates now b (accepted id op pane args) =
      on_op-Correlates now id pane args b (as_callback_op op)

  check_pane_id :
      (id : ℕ) (op : Text) (args pane : Option Json) → envelope_id (check_pane id op args pane) ≡ id
  check_pane_id id op args none = refl
  check_pane_id id op args (some null) = refl
  check_pane_id id op args (some (boolean b)) = refl
  check_pane_id id op args (some (number n)) = refl
  check_pane_id id op args (some (string s)) = refl
  check_pane_id id op args (some (array js)) = refl
  check_pane_id id op args (some (object ms)) = go (parse_pane (object ms))
    where
      go : (o : Option CallbackPane) → envelope_id (with_pane id op args o) ≡ id
      go none = refl
      go (some p) = refl

  check_op_id :
      (id : ℕ) (op : Option Text) (pane args : Option Json)
      → envelope_id (check_op id op pane args) ≡ id
  check_op_id id none pane args = refl
  check_op_id id (some op) pane args = check_pane_id id op args pane

  parse_callback_envelope_id :
      (raw : Json) → envelope_id (parse_callback_envelope raw) ≡ valid_id (prop (codes "id") raw)
  unfolding parse_callback_envelope
  parse_callback_envelope_id null = refl
  parse_callback_envelope_id (boolean b) = refl
  parse_callback_envelope_id (number n) = refl
  parse_callback_envelope_id (string s) = refl
  parse_callback_envelope_id (array js) = refl
  parse_callback_envelope_id (object ms) =
      go (is_version (prop (codes "v") (object ms))) (valid_id (prop (codes "id") (object ms)) == 0)
    where
      go :
          (v z : Bool)
          → envelope_id (
              if not v
              then refused
                  (valid_id (prop (codes "id") (object ms)))
                  (codes "unsupported protocol version (expected v=1)")
              else if z
              then refused
                  (valid_id (prop (codes "id") (object ms)))
                  (codes "id must be a positive integer")
              else check_op
                  (valid_id (prop (codes "id") (object ms)))
                  (valid_op (as_string (prop (codes "op") (object ms))))
                  (prop (codes "pane") (object ms))
                  (prop (codes "args") (object ms)))
            ≡ valid_id (prop (codes "id") (object ms))
      go false z = refl
      go true true = refl
      go true false = check_op_id _ _ _ _

  -- The reply carries the id of the request, zero when it has no valid one. It is an error and nothing is
  -- dispatched, or an `open` is dispatched: then the project of the socket is connected, the open is for
  -- this project, and its paths are absolute, without NUL and of at most 4096 bytes.
  pub handle-Correlates :
      (now : ℕ) (raw : Json) (b : CallbackBroker)
      → Correlates status project
          (valid_id (prop (codes "id") raw))
          (handle status now project raw b).1
  unfolding handle
  handle-Correlates now raw b =
      subst
        (λ id.
          Correlates status project id
            (on_envelope status now project b (parse_callback_envelope raw)).1)
        (parse_callback_envelope_id raw)
        (on_envelope-Correlates now b (parse_callback_envelope raw))
