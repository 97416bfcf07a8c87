-- ===== src/Callback/Tests.antt =====
-- The callback socket at concrete requests.
use agent_cockpit.Base.{◌+◌, ◌*◌, ◌≤◌, ◌≡◌, refl, some, none, List, [], ◌∷◌, codes, map}
use agent_cockpit.Base.Maps.{get, set}
use agent_cockpit.Connection.{connected}
use agent_cockpit.Limiter.{create, try_take}
use agent_cockpit.Tabs.Stored.{Json, object, member, end, number, string, field, prop}
use agent_cockpit.Callback.Protocol.{
  mux, tmux, pane_from_env, is_injectable_env_value, ok_reply, parse_callback_envelope,
  parse_open_args, valid_id,
}
use agent_cockpit.Callback.Classify.{
  normalize, clean, classify_open_target, relative_inside, deepest_from, via_root_alias, file,
  ClassifyInput,
}
use agent_cockpit.Base.{Bool, true, false, ◌||◌, text_eq, arith}
use agent_cockpit.Callback.Classify.Order.{SameSelection, classify_open_target_reordered}
use agent_cockpit.Callback.Classify.Targets.{Target, classify_open_target-Target}
use agent_cockpit.Callback.Broker.{CallbackBroker, handle}
use agent_cockpit.Callback.Broker.Checks.{Correlates, handle-Correlates}
use agent_cockpit.Callback.Broker.Runs.{Request, requests, opens_of, times_of, span}
use agent_cockpit.Callback.Broker.Rate.{requests_rate}

normalize_run :
    map normalize
      (codes "/a//b/./c/../d/" ∷ codes "../a/../.." ∷ codes "/.." ∷ codes "a/.." ∷ codes "./" ∷ [])
    ≡ codes "/a/b/d/" ∷ codes "../.." ∷ codes "/" ∷ codes "." ∷ codes "./" ∷ []
unfolding normalize
normalize_run = refl

abbrev opened_path : ClassifyInput
opened_path = record {
  path = codes "/r/w/x/f.ts";
  canonical_path = none;
  worktrees = codes "/p" ∷ codes "/p/w/" ∷ [];
  project_roots = codes "/r" ∷ codes "/p" ∷ [];
  root_alias = some (record { configured = codes "/r"; canonical = codes "/p" });
}

classify_run :
    classify_open_target opened_path
    ≡ record { path = codes "x/f.ts"; worktree_path = codes "/p/w/"; kind = file }
unfolding classify_open_target normalize clean relative_inside deepest_from via_root_alias
classify_run = refl

pane_run :
    map pane_from_env (
      ((codes "TMUX_PANE", codes "%1") ∷ (codes "COCKPIT_CALLBACK_MUX_KEY", codes "k") ∷ [])
      ∷ ((codes "TMUX_PANE", codes "%1") ∷ (codes "COCKPIT_CALLBACK_MUX_KEY", []) ∷ [])
      ∷ []
      ∷ [])
    ≡ some (record { kind = mux; id = codes "k" })
      ∷ some (record { kind = tmux; id = codes "%1" })
      ∷ none
      ∷ []
unfolding pane_from_env get
pane_run = refl

injectable_run :
    map is_injectable_env_value (codes "a b;$(c)" ∷ codes "a\nb" ∷ []) ≡ true ∷ false ∷ []
unfolding is_injectable_env_value
injectable_run = refl

abbrev request : Json
request = object (
    member (codes "v") (number 1) (
      member (codes "id") (number 7) (
        member (codes "op") (string (codes "open")) (
          member (codes "args") (object (member (codes "path") (string (codes "/r/f.ts")) end))
            end))))

abbrev idle : CallbackBroker
idle = record { limiters = []; open_listeners = [] }

handle_run : (handle (some connected) 5 (codes "p") request idle).1 ≡ record {
  reply = ok_reply 7;
  dispatch = some (record {
    project_id = codes "p";
    args = record { path = codes "/r/f.ts"; canonical_path = none };
    pane = none;
  });
}
unfolding handle parse_callback_envelope parse_open_args field try_take create get
handle_run = refl

handle-Correlates_example :
    Correlates
      (some connected)
      (codes "p")
      (valid_id (prop (codes "id") request))
      (handle (some connected) 5 (codes "p") request idle).1
handle-Correlates_example = handle-Correlates (some connected) (codes "p") 5 request idle

classify_open_target-Target_example : Target opened_path (classify_open_target opened_path)
classify_open_target-Target_example = classify_open_target-Target opened_path

abbrev twice : List Request
twice =
    record { project = codes "p"; now = 5; status = some connected; raw = request }
    ∷ record { project = codes "q"; now = 6; status = none; raw = request }
    ∷ record { project = codes "p"; now = 9; status = some connected; raw = request }
    ∷ []

requests_run : opens_of (codes "p") (requests twice idle).1 ≡ 2
unfolding requests handle parse_callback_envelope parse_open_args field try_take create get set
requests_run = refl

requests_rate_example :
    opens_of (codes "p") (requests twice idle).1 * 1000
    ≤ 10 * 1000 + span (times_of (codes "p") twice) * 10
unfolding get
requests_rate_example = requests_rate (codes "p") twice idle refl

swap : (a b : Bool) → (a || (b || false)) ≡ true → (b || (a || false)) ≡ true
swap a b h = ground arith

classify_open_target_reordered_example :
    SameSelection
      (classify_open_target opened_path)
      (classify_open_target (record opened_path { worktrees = codes "/p/w/" ∷ codes "/p" ∷ [] }))
classify_open_target_reordered_example =
    classify_open_target_reordered opened_path (codes "/p/w/" ∷ codes "/p" ∷ [])
      (λ w h. swap (text_eq w (codes "/p")) (text_eq w (codes "/p/w/")) h)
      (λ w h. swap (text_eq w (codes "/p/w/")) (text_eq w (codes "/p")) h)
