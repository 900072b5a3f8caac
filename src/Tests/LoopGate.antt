-- ===== src/Tests/LoopGate.antt =====
-- The gate of the loop on a risky click that the operator authorized.
use secdogie.Prelude.{
  contains, string_eq, nat_eq, lookup, get_or, is_space, lstrip, rstrip, strip, String, ◌≡◌, refl,
  ◌↔◌, true, false, none, some, [], ◌∷◌,
}
use secdogie.Identity.Json.{Json, obj, member, without}
use secdogie.Identity.Signing.{verify_envelope, verify_payload}
use secdogie.Identity.Capability.{is_grantable, allows}
use secdogie.Citadel.Socratic.{review, asks_unattended}
use secdogie.Citadel.Authz.{
  authorized_fields, action_hash, authorized, check_window, check_binding, verify_authorization,
}
use secdogie.Citadel.ActionGate.{
  checks, findings, precedence, worst_verdict, worst_risk, decide_gate, gate, capability_table,
  is_read, mutating, destructive, same_signature, last_action, check_stale_target,
  check_target_present, check_no_op, check_repeated, poll_tail, check_polling_run,
  check_destructive_chain, check_missing_verification, check_excessive_cost, check_scope,
  check_capability, check_posting, check_authorization, check_intent_unproven,
  check_intent_contradiction, check_preconditions, check_known_failure,
}
use secdogie.Citadel.LoopGate.{
  ActionView, is_blocking, joined_keys, target_of, text_of, to_planned, LoopConfig, ask,
  loop_context, plan_gate,
}
use secdogie.Citadel.LoopGate.Blocking.{loop_allows_iff, loop_runs_only_authorized}
use secdogie.Tests.Fixtures.{toy, is_op}
use secdogie.Tests.Citadel.{no_matches, token}

abbrev risky_click : ActionView
risky_click = record {
  kind = "left_click";
  element = none;
  x = some "3";
  y = some "4";
  text = "";
  keys = [];
  path = "";
  high_risk = true;
  rollback = "";
  irreversible = false;
}

abbrev guarded : LoopConfig
guarded = record {
  capabilities = "physical.click" ∷ [];
  enforce = true;
  instruction = "";
  known_failures = [];
  active_goal_ids = [];
  purpose = "";
  require_intent = false;
  authorize = some λ a. some (obj token);
  operators = some is_op;
  subject_did = "n1";
}

loop_allows_iff_example :
    let a = to_planned "" risky_click in
    let ctx = loop_context guarded a [] 15 in
    ((plan_gate toy no_matches guarded risky_click [] 15).0 ≡ true) ↔ (
      (check_capability a ctx ≡ none)
      × (check_posting a ctx no_matches ≡ none)
      × (check_intent_unproven a ctx ≡ none)
      × (check_intent_contradiction a ctx ≡ none)
      × (check_known_failure a ctx toy ≡ none)
      × (check_authorization a ctx toy ≡ none))
loop_allows_iff_example = loop_allows_iff toy no_matches guarded risky_click [] 15

click_allowed : (plan_gate toy no_matches guarded risky_click [] 15).0 ≡ true
unfolding plan_gate to_planned loop_context is_blocking target_of text_of joined_keys ask get_or
    gate worst_verdict findings checks check_stale_target check_target_present check_no_op
    last_action check_repeated check_polling_run is_read check_destructive_chain destructive
    check_missing_verification mutating strip check_excessive_cost check_capability
    check_authorization check_intent_contradiction check_intent_unproven check_known_failure
    check_posting check_preconditions check_scope poll_tail same_signature decide_gate precedence
    worst_risk action_hash authorized_fields check_binding check_window verify_authorization
    asks_unattended review allows is_grantable member without verify_envelope verify_payload lookup
    is_space lstrip rstrip
click_allowed = refl

loop_runs_only_authorized_example :
    let a = to_planned "" risky_click in
    ((scope : String) × (lookup a.kind capability_table ≡ some scope)
      × (is_grantable scope ≡ true)
      × (contains scope ("physical.click" ∷ []) ≡ true))
    × ((given : Json) × (some (obj token) ≡ some given)
        × (verify_authorization toy (some given) a (some is_op) "n1" 15 ≡ authorized))
unfolding to_planned mutating destructive is_read get_or lookup
loop_runs_only_authorized_example =
    loop_runs_only_authorized toy no_matches guarded risky_click [] 15 (λ a. some (obj token)) refl
      refl refl refl click_allowed
