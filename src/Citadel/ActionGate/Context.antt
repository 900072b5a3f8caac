-- ===== src/Citadel/ActionGate/Context.antt =====
-- What the action-plan gate reads of an action and its context, and what it finds:
-- citadel/secdogie_citadel/action_gate.py. Costs and risks are natural numbers (risks in tenths);
-- the wording of the findings is not modelled.
use secdogie.Prelude.{
  nat_eq, string_eq, contains, Dict, ℕ, String, Bool, true, false, not, ◌&&◌, ◌||◌, Option, none,
  some, List, [], ◌∷◌,
}
use secdogie.Identity.Json.{Json}
use secdogie.Citadel.Authz.{PlannedAction}

pub data Verdict : Type 0 where
  allow reject rewrite request_reobserve : Verdict

pub data FindingKind : Type 0 where
  stale_target target_mismatch no_op repeated polling destructive_chain missing_verification :
      FindingKind
  excessive_cost out_of_capability unattended_posting unauthorized_action : FindingKind
  intent_unproven intent_contradiction precondition_failed known_failure : FindingKind

pub record Finding : Type 0 where
  pub kind : FindingKind
  pub verdict : Verdict
  pub risk : ℕ

abbrev pub read_kinds : List String
read_kinds = "read" ∷ "observe" ∷ "get" ∷ "inspect" ∷ "screenshot" ∷ "wait" ∷ "poll" ∷ []

abbrev pub posting_kinds : List String
posting_kinds = "post" ∷ "publish" ∷ "submit" ∷ "send" ∷ "reply" ∷ "comment" ∷ "tweet" ∷ "dm" ∷ []

abbrev pub destructive_kinds : List String
destructive_kinds = "delete" ∷ "overwrite" ∷ "format" ∷ "drop" ∷ "uninstall" ∷ "run_elevated" ∷ []

abbrev pub capability_table : Dict String String
capability_table =
    ("click", "physical.click")
    ∷ ("press", "physical.click")
    ∷ ("type", "physical.type")
    ∷ ("key", "physical.key")
    ∷ ("scroll", "physical.scroll")
    ∷ ("drag", "physical.drag")
    ∷ ("open", "system.open")
    ∷ ("run", "process.run")
    ∷ ("run_elevated", "process.run_elevated")
    ∷ ("post", "network.post")
    ∷ ("publish", "network.post")
    ∷ ("submit", "network.post")
    ∷ ("send", "network.send")
    ∷ ("reply", "network.send")
    ∷ ("comment", "network.post")
    ∷ ("read", "observe.read")
    ∷ ("observe", "observe.read")
    ∷ []

unfoldable pub is_read : String → Bool
is_read kind = contains kind read_kinds

unfoldable pub mutating : PlannedAction → Bool
mutating a = not (is_read a.kind)

unfoldable pub destructive : PlannedAction → Bool
destructive a = a.high_risk || contains a.kind destructive_kinds

-- `a.signature() == b.signature()`
unfoldable pub same_signature : PlannedAction → PlannedAction → Bool
same_signature a b =
    string_eq.beq a.kind b.kind
    && string_eq.beq a.target_id b.target_id
    && string_eq.beq a.text b.text

-- what the gate knows beyond the action; `now` is the caller's clock
pub record GateContext : Type 0 where
  pub current_generation : ℕ
  pub target_present_ids : List String
  pub recent_actions : List PlannedAction
  pub capabilities : List String
  pub enforce_capabilities : Bool
  pub cost_budget : ℕ
  pub requires_verification : Bool
  pub instruction : String
  pub poll_window : ℕ
  pub repeat_threshold : ℕ
  pub require_authorization : Bool
  pub authorization : Option Json
  pub operators : Option (String → Bool)
  pub subject_did : String
  pub now : ℕ
  pub require_intent : Bool
  pub active_goal_ids : List String
  pub known_failures : List String

abbrev pub found_by : FindingKind → Verdict → ℕ → Option Finding
found_by kind verdict risk = some (record { kind = kind; verdict = verdict; risk = risk })

-- recent_actions[-1]
unfoldable pub last_action : List PlannedAction → Option PlannedAction
last_action [] = none
last_action (a ∷ []) = some a
last_action (a ∷ b ∷ rest) = last_action (b ∷ rest)

abbrev pub holds_for : (PlannedAction → Bool) → Option PlannedAction → Bool
holds_for p none = false
holds_for p (some a) = p a

abbrev pub is_some_text : List String → Bool
is_some_text [] = false
is_some_text (x ∷ xs) = true
