-- ===== src/Citadel/LoopGate.antt =====
-- The action-plan gate as the agent's loop calls it: citadel/secdogie_citadel/loop_gate.py, on the view
-- of an action that agent/secdogie_agent/loop.py makes.
pub mod Blocking
use Prim.Native.String.{◌++◌ as join}
use secdogie.Prelude.{
  if◌then◌else◌, is_none, any, string_eq, nat_eq, Dict, get_or, nonempty, ℕ, ◌+◌, String, Bool,
  true, false, not, Option, none, some, List, [], ◌∷◌, map,
}
use secdogie.Identity.Json.{Json}
use secdogie.Identity.Signing.{Crypto}
use secdogie.Citadel.Socratic.{Patterns, unattended_posting}
use secdogie.Citadel.Authz.{PlannedAction}
use secdogie.Citadel.ActionGate.{
  GateDecision, gate, FindingKind, out_of_capability, unattended_posting, unauthorized_action,
  intent_unproven, intent_contradiction, known_failure, destructive, GateContext,
}

-- `_gate_view`. The element and the coordinates are the texts that an f-string prints of them; the
-- element is `none` where it is falsy, a coordinate where it is None.
pub record ActionView : Type 0 where
  pub kind : String
  pub element : Option String
  pub x : Option String
  pub y : Option String
  pub text : String
  pub keys : List String
  pub path : String
  pub high_risk : Bool
  pub rollback : String
  pub irreversible : Bool

-- _KIND_MAP
abbrev pub kind_map : Dict String String
kind_map =
    ("left_click", "click")
    ∷ ("right_click", "click")
    ∷ ("double_click", "click")
    ∷ ("click_element", "click")
    ∷ ("track_click", "click")
    ∷ ("move", "click")
    ∷ ("drag", "drag")
    ∷ ("type", "type")
    ∷ ("key", "key")
    ∷ ("hold_key", "key")
    ∷ ("scroll", "scroll")
    ∷ ("open", "open")
    ∷ ("run_elevated", "run_elevated")
    ∷ ("wait", "wait")
    ∷ ("screenshot", "screenshot")
    ∷ ("look", "observe")
    ∷ []

-- BLOCKING
unfoldable pub is_blocking : FindingKind → Bool
is_blocking out_of_capability = true
is_blocking unattended_posting = true
is_blocking known_failure = true
is_blocking intent_contradiction = true
is_blocking intent_unproven = true
is_blocking unauthorized_action = true
is_blocking _ = false

-- "+".join(keys)
unfoldable pub joined_keys : List String → String
joined_keys [] = ""
joined_keys (k ∷ []) = k
joined_keys (k ∷ l ∷ ks) = join k (join "+" (joined_keys (l ∷ ks)))

unfoldable pub target_of : Option String → Option String → Option String → String
target_of (some element) x y = join "element:" element
target_of none (some x) (some y) = join "xy:" (join x (join "," y))
target_of none x y = ""

-- the text, or else the keys, or else the path
unfoldable pub text_of : ActionView → String
unfolding joined_keys
text_of v =
    let from_keys = if nonempty v.text then v.text else joined_keys v.keys in
    if nonempty from_keys then from_keys else v.path

-- `to_planned`
unfoldable pub to_planned : String → ActionView → PlannedAction
unfolding target_of text_of
to_planned purpose v = record {
  kind = get_or v.kind v.kind kind_map;
  target_id = target_of v.element v.x v.y;
  target_role = "";
  target_name = "";
  text = text_of v;
  high_risk = v.high_risk;
  generation = 0;
  expected_observation = "";
  estimated_cost = 1;
  intent = record {
    purpose = purpose;
    rollback = v.rollback;
    irreversible = v.irreversible;
    requires_present = [];
  };
}

-- the arguments of `make_plan_gate`; `authorize` gives no token where it raises
pub record LoopConfig : Type 0 where
  pub capabilities : List String
  pub enforce : Bool
  pub instruction : String
  pub known_failures : List String
  pub active_goal_ids : List String
  pub purpose : String
  pub require_intent : Bool
  pub authorize : Option (PlannedAction → Option Json)
  pub operators : Option (String → Bool)
  pub subject_did : String

-- the operator is asked for a token, for a destructive action
unfoldable pub ask : Option (PlannedAction → Option Json) → PlannedAction → Option Json
ask none planned = none
ask (some authorize) planned = if destructive planned then authorize planned else none

unfoldable pub loop_context : LoopConfig → PlannedAction → List ActionView → ℕ → GateContext
unfolding to_planned ask
loop_context cfg planned recent now = record {
  current_generation = 0;
  target_present_ids = [];
  recent_actions = map (to_planned "") recent;
  capabilities = cfg.capabilities;
  enforce_capabilities = cfg.enforce;
  cost_budget = 0;
  requires_verification = false;
  instruction = cfg.instruction;
  poll_window = 3;
  repeat_threshold = 2;
  require_authorization = not (is_none cfg.authorize);
  authorization = ask cfg.authorize planned;
  operators = cfg.operators;
  subject_did = cfg.subject_did;
  now = now;
  require_intent = cfg.require_intent;
  active_goal_ids = cfg.active_goal_ids;
  known_failures = cfg.known_failures;
}

-- `plan_gate`: whether the action goes ahead, and what the observer sees
unfoldable pub plan_gate :
    Crypto
    → Patterns
    → LoopConfig
    → ActionView
    → List ActionView
    → ℕ
    → Bool × (PlannedAction × GateDecision)
unfolding to_planned loop_context is_blocking
plan_gate c p cfg view recent now =
    let planned = to_planned cfg.purpose view in
    let decision = gate c p planned (loop_context cfg planned recent now) in
    (not (any is_blocking decision.kinds), (planned, decision))
