-- ===== src/Citadel/ActionGate/Expecting.antt =====
-- Only the missing verification looks at what an action expects to observe, and only it rewrites.
use secdogie.Prelude.{
  if◌then◌else◌, nat_eq, string_eq, ℕ, ◌≤◌, String, ◌≡◌, refl, Bool, false, Option, none, some,
  arith,
}
use secdogie.Identity.Json.{Json, obj}
use secdogie.Identity.Signing.{Crypto}
use secdogie.Citadel.Socratic.{Patterns, unattended_posting, found}
use secdogie.Citadel.Authz.{PlannedAction, action_hash, check_binding, verify_authorization}
use secdogie.Citadel.ActionGate.{
  precedence, Verdict, allow, reject, FindingKind, destructive_chain, unattended_posting,
  intent_unproven, mutating, destructive, same_signature, GateContext, found_by, check_stale_target,
  check_target_present, check_no_op, check_repeated, check_polling_run, check_destructive_chain,
  check_missing_verification, check_excessive_cost, check_scope, check_capability, check_posting,
  check_authorization, check_intent_unproven, check_intent_contradiction, check_preconditions,
  check_known_failure,
}
use secdogie.Citadel.ActionGate.Ranks.{rank, RankedBy}

-- the action with another expected observation
abbrev pub expecting : String → PlannedAction → PlannedAction
expecting e a = record a { expected_observation = e }

verify_authorization-expecting :
    (e : String) (c : Crypto) (token : Option Json) (a : PlannedAction)
    (operators : Option (String → Bool)) (subject : String) (now : ℕ)
    → verify_authorization c token (expecting e a) operators subject now
      ≡ verify_authorization c token a operators subject now
unfolding verify_authorization check_binding action_hash
verify_authorization-expecting e c none a operators subject now = refl
verify_authorization-expecting e c (some (obj token)) a operators subject now = refl
verify_authorization-expecting e c (some _) a operators subject now = refl

-- a check that passes or rejects, and does not rewrite
reject_rank :
    (skip found : Bool) (kind : FindingKind) (risk : ℕ)
    → rank (if skip then none else if found then found_by kind reject risk else none) ≤ 1
    → rank (if skip then none else if found then found_by kind reject risk else none) ≤ 0
unfolding rank precedence
reject_rank skip found kind risk h = ground arith

-- only the missing verification ranks as a rewrite; every other check passes or refuses
module _ (e : String) (c : Crypto) (p : Patterns) (a : PlannedAction) (ctx : GateContext)
    (r : RankedBy c p a ctx 1) where
  expecting_no_op : rank (check_no_op (expecting e a) ctx) ≤ 0
  unfolding rank precedence check_no_op mutating same_signature
  expecting_no_op = ground (arith, r.no_op)

  expecting_repeated : rank (check_repeated (expecting e a) ctx) ≤ 0
  unfolding rank precedence check_repeated same_signature
  expecting_repeated = ground (arith, r.repeated)

  expecting_polling : rank (check_polling_run (expecting e a) ctx) ≤ 0
  unfolding rank precedence check_polling_run
  expecting_polling = ground (arith, r.polling)

  expecting_chain : rank (check_destructive_chain (expecting e a) ctx) ≤ 0
  unfolding check_destructive_chain destructive
  expecting_chain = reject_rank false _ destructive_chain 9 r.chain

  expecting_cost : rank (check_excessive_cost (expecting e a) ctx) ≤ 0
  unfolding rank precedence check_excessive_cost
  expecting_cost = ground (arith, r.cost)

  expecting_capability : rank (check_capability (expecting e a) ctx) ≤ 0
  unfolding rank precedence check_capability check_scope mutating
  expecting_capability = ground (arith, r.capability)

  expecting_posting : rank (check_posting (expecting e a) ctx p) ≤ 0
  unfolding check_posting
  expecting_posting = reject_rank _ _ unattended_posting 9 r.posting

  expecting_unproven : rank (check_intent_unproven (expecting e a) ctx) ≤ 0
  unfolding check_intent_unproven mutating destructive
  expecting_unproven = reject_rank _ _ intent_unproven 5 r.unproven

  expecting_contradiction : rank (check_intent_contradiction (expecting e a) ctx) ≤ 0
  unfolding rank precedence check_intent_contradiction
  expecting_contradiction = ground (arith, r.contradiction)

  expecting_preconditions : rank (check_preconditions (expecting e a) ctx) ≤ 0
  unfolding rank precedence check_preconditions
  expecting_preconditions = ground (arith, r.preconditions)

  expecting_known : rank (check_known_failure (expecting e a) ctx c) ≤ 0
  unfolding rank precedence check_known_failure action_hash
  expecting_known = ground (arith, r.known)

  expecting_stale : rank (check_stale_target (expecting e a) ctx) ≤ 0
  unfolding rank precedence check_stale_target
  expecting_stale = ground (arith, r.stale)

  expecting_present : rank (check_target_present (expecting e a) ctx) ≤ 0
  unfolding rank precedence check_target_present
  expecting_present = ground (arith, r.present)

  expecting_authorization : rank (check_authorization (expecting e a) ctx c) ≤ 0
  unfolding rank precedence check_authorization destructive
  expecting_authorization = ground (
    arith,
    r.authorization,
    verify_authorization-expecting e c ctx.authorization a ctx.operators ctx.subject_did ctx.now,
  )

  pub expecting-RankedBy :
      rank (check_missing_verification (expecting e a) ctx) ≤ 0 → RankedBy c p (expecting e a) ctx 0
  expecting-RankedBy attached = record {
    stale = expecting_stale;
    present = expecting_present;
    no_op = expecting_no_op;
    repeated = expecting_repeated;
    polling = expecting_polling;
    chain = expecting_chain;
    verification = attached;
    cost = expecting_cost;
    capability = expecting_capability;
    posting = expecting_posting;
    unproven = expecting_unproven;
    contradiction = expecting_contradiction;
    preconditions = expecting_preconditions;
    known = expecting_known;
    authorization = expecting_authorization;
  }

pub allow_of_rank : (v : Verdict) → precedence v ≤ 0 → v ≡ allow
unfolding precedence
allow_of_rank v h = ground arith
