-- ===== src/Tests/Citadel.antt =====
-- The gates of the citadel package on concrete tokens, actions and contexts.
use secdogie.Prelude.{
  contains, string_eq, nat_eq, lookup, is_space, lstrip, rstrip, strip, ℕ, ◌≤◌, ◌<◌, String, ◌≡◌,
  refl, true, false, none, some, [], ◌∷◌,
}
use secdogie.Identity.Json.{num, str, obj, Fields, end, field, member, without, as_str, as_num}
use secdogie.Identity.Signing.{envelope_keys, verify_envelope, verify_payload}
use secdogie.Identity.Capability.{is_grantable, allows}
use secdogie.Citadel.Socratic.{Patterns, review, asks_unattended}
use secdogie.Citadel.Authz.{
  authorization_type, PlannedAction, authorized_fields, action_hash, authorized, check_window,
  check_binding, verify_authorization,
}
use secdogie.Citadel.Authz.Binding.{authorized_token}
use secdogie.Citadel.ActionGate.{
  checks, findings, precedence, worst_verdict, worst_risk, attached_verification, decide_gate, gate,
  allow, rewrite, capability_table, is_read, mutating, destructive, same_signature, GateContext,
  last_action, check_stale_target, check_target_present, check_no_op, check_repeated, poll_tail,
  check_polling_run, check_destructive_chain, check_missing_verification, check_excessive_cost,
  check_scope, check_capability, check_posting, check_authorization, check_intent_unproven,
  check_intent_contradiction, check_preconditions, check_known_failure,
}
use secdogie.Citadel.ActionGate.Refusals.{
  passes, passed_destructive_is_authorized, passed_mutating_is_granted,
}
use secdogie.Citadel.ActionGate.Expecting.{expecting}
use secdogie.Citadel.ActionGate.Rewrite.{rewrite_is_allowed}
use secdogie.Tests.Fixtures.{toy, is_op}

abbrev pub no_matches : Patterns
no_matches = record {
  mutating = λ _. false;
  read_only = λ _. false;
  busy_loop = λ _. false;
  publish_verb = λ _. false;
  unattended = λ _. false;
  tight_interval = λ _. none;
  then_steps = λ _. 0;
}

abbrev action : String → String → PlannedAction
action kind expected = record {
  kind = kind;
  target_id = "t1";
  target_role = "button";
  target_name = "OK";
  text = "";
  high_risk = false;
  generation = 3;
  expected_observation = expected;
  estimated_cost = 1;
  intent = record { purpose = ""; rollback = ""; irreversible = false; requires_present = [] };
}

-- signed by the operator, for the deletion, "n1" and the time from 10 to 20
abbrev pub token : Fields
token = field "type" (str authorization_type) (
    field "action_hash" (str "") (
      field "subject" (str "n1") (
        field "valid_from" (num 10)
          (field "expires_at" (num 20) (field "signer" (str "op") (field "sig" (str "ok") end))))))

abbrev strict : GateContext
strict = record {
  current_generation = 3;
  target_present_ids = "t1" ∷ [];
  recent_actions = [];
  capabilities = "physical.click" ∷ [];
  enforce_capabilities = true;
  cost_budget = 5;
  requires_verification = true;
  instruction = "";
  poll_window = 3;
  repeat_threshold = 3;
  require_authorization = true;
  authorization = some (obj token);
  operators = some is_op;
  subject_did = "n1";
  now = 15;
  require_intent = false;
  active_goal_ids = [];
  known_failures = [];
}

-- capabilities not enforced
abbrev lenient : GateContext
lenient = record strict { capabilities = []; enforce_capabilities = false }

token_holds :
    verify_authorization toy (some (obj token)) (action "delete" "gone") (some is_op) "n1" 15
    ≡ authorized
unfolding verify_authorization verify_payload verify_envelope member without check_binding
    check_window action_hash authorized_fields
token_holds = refl

authorized_token_example :
    (signer : String) × (sig : String) × (valid_from : ℕ) × (expires_at : ℕ) × (as_str
        (member "type" token)
      ≡ some authorization_type)
    × (as_str (member "signer" token) ≡ some signer)
    × (as_str (member "sig" token) ≡ some sig)
    × (toy.verifies signer (without envelope_keys token) sig ≡ true)
    × (is_op signer ≡ true)
    × (as_str (member "action_hash" token) ≡ some (action_hash toy (action "delete" "gone")))
    × (as_str (member "subject" token) ≡ some "n1")
    × (as_num (member "valid_from" token) ≡ some valid_from)
    × (as_num (member "expires_at" token) ≡ some expires_at)
    × (valid_from ≤ 15)
    × (15 < expires_at)
authorized_token_example =
    authorized_token toy token (action "delete" "gone") is_op "n1" 15 token_holds

delete_passes : passes (gate toy no_matches (action "delete" "gone") lenient).verdict ≡ true
unfolding gate worst_verdict findings checks check_stale_target check_target_present check_no_op
    last_action check_repeated check_polling_run is_read check_destructive_chain destructive
    check_missing_verification mutating strip check_excessive_cost check_capability
    check_authorization check_intent_contradiction check_intent_unproven check_known_failure
    check_posting check_preconditions check_scope poll_tail same_signature decide_gate precedence
    worst_risk action_hash authorized_fields check_binding check_window verify_authorization
    asks_unattended review allows is_grantable member without verify_envelope verify_payload lookup
    is_space lstrip rstrip
delete_passes = refl

passed_destructive_is_authorized_example :
    verify_authorization toy (some (obj token)) (action "delete" "gone") (some is_op) "n1" 15
    ≡ authorized
passed_destructive_is_authorized_example =
    passed_destructive_is_authorized toy no_matches (action "delete" "gone") lenient delete_passes
      refl (unfold destructive in refl)

click_passes : passes (gate toy no_matches (action "click" "") strict).verdict ≡ true
unfolding gate worst_verdict findings checks check_stale_target check_target_present check_no_op
    last_action check_repeated check_polling_run is_read check_destructive_chain destructive
    check_missing_verification mutating strip check_excessive_cost check_capability
    check_authorization check_intent_contradiction check_intent_unproven check_known_failure
    check_posting check_preconditions check_scope poll_tail same_signature decide_gate precedence
    worst_risk action_hash authorized_fields check_binding check_window verify_authorization
    asks_unattended review allows is_grantable member without verify_envelope verify_payload lookup
    is_space lstrip rstrip
click_passes = refl

passed_mutating_is_granted_example :
    (scope : String) × (lookup "click" capability_table ≡ some scope)
    × (is_grantable scope ≡ true)
    × (contains scope ("physical.click" ∷ []) ≡ true)
passed_mutating_is_granted_example =
    passed_mutating_is_granted toy no_matches (action "click" "") strict click_passes refl
      (unfold mutating is_read in refl)

click_is_rewritten : (gate toy no_matches (action "click" "") strict).verdict ≡ rewrite
unfolding gate worst_verdict findings checks check_stale_target check_target_present check_no_op
    last_action check_repeated check_polling_run is_read check_destructive_chain destructive
    check_missing_verification mutating strip check_excessive_cost check_capability
    check_authorization check_intent_contradiction check_intent_unproven check_known_failure
    check_posting check_preconditions check_scope poll_tail same_signature decide_gate precedence
    worst_risk action_hash authorized_fields check_binding check_window verify_authorization
    asks_unattended review allows is_grantable member without verify_envelope verify_payload lookup
    is_space lstrip rstrip
click_is_rewritten = refl

rewrite_is_allowed_example :
    ((gate toy no_matches (action "click" "") strict).replacement
      ≡ some (expecting attached_verification (action "click" "")))
    × (action_hash toy (expecting attached_verification (action "click" ""))
        ≡ action_hash toy (action "click" ""))
    × ((gate toy no_matches (expecting attached_verification (action "click" "")) strict).verdict
        ≡ allow)
rewrite_is_allowed_example =
    rewrite_is_allowed toy no_matches (action "click" "") strict click_is_rewritten
