-- ===== src/Citadel/ActionGate/Checks.antt =====
-- The fifteen checks of citadel/secdogie_citadel/action_gate.py, each on its own.
use secdogie.Prelude.{
  ltb, leb, nat_beq, if◌then◌else◌, length, drop, select, all, nat_eq, string_eq, contains, lookup,
  strip, nonempty, ◌-◌, String, not, ◌&&◌, ◌||◌, Option, none, some, List, [],
}
use secdogie.Identity.Signing.{Crypto}
use secdogie.Identity.Capability.{allows}
use secdogie.Citadel.Socratic.{Patterns, unattended_posting, polling, review, asks_unattended}
use secdogie.Citadel.Authz.{PlannedAction, action_hash, authorized, refused, verify_authorization}
use secdogie.Citadel.ActionGate.Context.{
  reject, rewrite, request_reobserve, stale_target, target_mismatch, no_op, repeated, polling,
  destructive_chain, missing_verification, excessive_cost, out_of_capability, unattended_posting,
  unauthorized_action, intent_unproven, intent_contradiction, precondition_failed, known_failure,
  Finding, posting_kinds, capability_table, is_read, mutating, destructive, same_signature,
  GateContext, found_by, last_action, holds_for, is_some_text,
}

module _ (a : PlannedAction) (ctx : GateContext) where
  unfoldable pub check_stale_target : Option Finding
  check_stale_target =
      if ltb 0 a.generation
        && ltb 0 ctx.current_generation
        && not (nat_beq a.generation ctx.current_generation)
      then found_by stale_target request_reobserve 6
      else none

  unfoldable pub check_target_present : Option Finding
  check_target_present =
      if nonempty a.target_id
        && is_some_text ctx.target_present_ids
        && not (contains a.target_id ctx.target_present_ids)
      then found_by target_mismatch request_reobserve 6
      else none

  unfoldable pub check_no_op : Option Finding
  check_no_op =
      if holds_for (λ r. same_signature r a) (last_action ctx.recent_actions) && mutating a
      then found_by no_op reject 2
      else none

  unfoldable pub check_repeated : Option Finding
  check_repeated =
      if leb ctx.repeat_threshold (length (select (λ r. same_signature r a) ctx.recent_actions))
      then found_by repeated reject 4
      else none

  -- the last `poll_window - 1` actions
  unfoldable pub poll_tail : List PlannedAction
  poll_tail =
      if ltb 1 ctx.poll_window
      then drop (length ctx.recent_actions - (ctx.poll_window - 1)) ctx.recent_actions
      else []

  unfoldable pub check_polling_run : Option Finding
  unfolding poll_tail
  check_polling_run =
      if not (is_read a.kind)
      then none
      else if leb (ctx.poll_window - 1) (length poll_tail)
          && ltb 0 (length poll_tail)
          && all (λ r. is_read r.kind) poll_tail
      then found_by polling reject 3
      else none

  unfoldable pub check_destructive_chain : Option Finding
  check_destructive_chain =
      if destructive a && holds_for destructive (last_action ctx.recent_actions)
      then found_by destructive_chain reject 9
      else none

  unfoldable pub check_missing_verification : Option Finding
  check_missing_verification =
      if ctx.requires_verification && mutating a && not (nonempty (strip a.expected_observation))
      then found_by missing_verification rewrite 3
      else none

  unfoldable pub check_excessive_cost : Option Finding
  check_excessive_cost =
      if ltb 0 ctx.cost_budget && ltb ctx.cost_budget a.estimated_cost
      then found_by excessive_cost reject 3
      else none

  -- the scope that the kind needs, looked up
  unfoldable pub check_scope : Option String → Option Finding
  check_scope none = if not (mutating a) then none else found_by out_of_capability reject 7
  check_scope (some required) =
      if not (allows ctx.capabilities required) then found_by out_of_capability reject 7 else none

  unfoldable pub check_capability : Option Finding
  unfolding check_scope
  check_capability =
      if not (ctx.enforce_capabilities || is_some_text ctx.capabilities)
      then none
      else check_scope (lookup a.kind capability_table)

  unfoldable pub check_posting : Patterns → Option Finding
  check_posting p =
      if not (contains a.kind posting_kinds) || not (nonempty (strip ctx.instruction))
      then none
      else if asks_unattended (review p ctx.instruction).reasons
      then found_by unattended_posting reject 9
      else none

  unfoldable pub check_authorization : Crypto → Option Finding
  check_authorization c =
      if not ctx.require_authorization || not (destructive a)
      then none
      else elim (verify_authorization c ctx.authorization a ctx.operators ctx.subject_did ctx.now) [
        | authorized ↦ none
        | refused _ ↦ found_by unauthorized_action reject 10
      ]

  unfoldable pub check_intent_unproven : Option Finding
  check_intent_unproven =
      if not ctx.require_intent || not (mutating a)
      then none
      else if not (nonempty (strip a.intent.purpose))
          || destructive a && not (nonempty (strip a.intent.rollback)) && not a.intent.irreversible
      then found_by intent_unproven reject 5
      else none

  unfoldable pub check_intent_contradiction : Option Finding
  check_intent_contradiction =
      let purpose = strip a.intent.purpose in
      if a.intent.irreversible && nonempty (strip a.intent.rollback)
        || nonempty purpose
          && is_some_text ctx.active_goal_ids
          && not (contains purpose ctx.active_goal_ids)
      then found_by intent_contradiction reject 6
      else none

  unfoldable pub check_preconditions : Option Finding
  check_preconditions =
      if not (is_some_text a.intent.requires_present) || not (is_some_text ctx.target_present_ids)
      then none
      else if all (λ t. contains t ctx.target_present_ids) a.intent.requires_present
      then none
      else found_by precondition_failed request_reobserve 5

  unfoldable pub check_known_failure : Crypto → Option Finding
  check_known_failure c =
      if is_some_text ctx.known_failures && contains (action_hash c a) ctx.known_failures
      then found_by known_failure reject 6
      else none
