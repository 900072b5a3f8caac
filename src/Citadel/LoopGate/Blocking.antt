-- ===== src/Citadel/LoopGate/Blocking.antt =====
-- In the loop exactly six of the gate's checks block an action.
use secdogie.Prelude.{
  if◌then◌else◌, is_none, either_way, any, All, contains, string_eq, nat_eq, lookup, ℕ, ◌≤◌, String,
  ◌≡◌, refl, ap, subst, ◌↔◌, Bool, true, false, not, ◌||◌, Option, none, some, List, [], ◌∷◌, map,
  arith,
}
use secdogie.Identity.Json.{Json}
use secdogie.Identity.Signing.{Crypto}
use secdogie.Identity.Capability.{is_grantable}
use secdogie.Citadel.Socratic.{Patterns}
use secdogie.Citadel.Authz.{PlannedAction, authorized, verify_authorization}
use secdogie.Citadel.ActionGate.{
  checks, findings, decide_gate, gate, Finding, capability_table, mutating, destructive,
  GateContext, is_some_text, check_stale_target, check_target_present, check_no_op, check_repeated,
  check_polling_run, check_destructive_chain, check_missing_verification, check_excessive_cost,
  check_scope, check_capability, check_posting, check_authorization, check_intent_unproven,
  check_intent_contradiction, check_preconditions, check_known_failure,
}
use secdogie.Citadel.ActionGate.Ranks.{rank}
use secdogie.Citadel.ActionGate.Refusals.{scope_of_rank, capability_of_rank}
use secdogie.Citadel.LoopGate.{
  ActionView, is_blocking, to_planned, LoopConfig, ask, loop_context, plan_gate,
}

abbrev blocked : Option Finding → Bool
blocked none = false
blocked (some f) = is_blocking f.kind

any-blocking :
    (os : List (Option Finding))
    → any is_blocking (map (λ f. f.kind) (findings os)) ≡ any blocked os
unfolding findings
any-blocking [] = refl
any-blocking (none ∷ os) = any-blocking os
any-blocking (some f ∷ os) = ap (λ b. is_blocking f.kind || b) (any-blocking os)

if_passes :
    (b : Bool) (f : Finding)
    → is_blocking f.kind ≡ false
    → blocked (if b then some f else none) ≡ false
if_passes true f h = h
if_passes false f h = refl

module _ (a : PlannedAction) (ctx : GateContext) where
  polling_passes : blocked (check_polling_run a ctx) ≡ false
  unfolding is_blocking check_polling_run
  polling_passes = ground arith

  preconditions_pass : blocked (check_preconditions a ctx) ≡ false
  unfolding is_blocking check_preconditions
  preconditions_pass = ground arith

  heuristics : List (Option Finding)
  heuristics =
      check_stale_target a ctx
      ∷ check_target_present a ctx
      ∷ check_no_op a ctx
      ∷ check_repeated a ctx
      ∷ check_polling_run a ctx
      ∷ check_destructive_chain a ctx
      ∷ check_missing_verification a ctx
      ∷ check_excessive_cost a ctx
      ∷ check_preconditions a ctx
      ∷ []

  heuristics_pass : All (λ o. blocked o ≡ false) heuristics
  unfolding heuristics is_blocking check_stale_target check_target_present check_no_op
      check_repeated check_polling_run check_destructive_chain check_missing_verification
      check_excessive_cost check_preconditions
  heuristics_pass = (
    if_passes _ _ refl,
    (
      if_passes _ _ refl,
      (
        if_passes _ _ refl,
        (
          if_passes _ _ refl,
          (
            polling_passes,
            (
              if_passes _ _ refl,
              (if_passes _ _ refl, (if_passes _ _ refl, (preconditions_pass, tt))),
            ),
          ),
        ),
      ),
    ),
  )

  blocked-scope :
      (o : Option String) → blocked (check_scope a ctx o) ≡ not (is_none (check_scope a ctx o))
  unfolding is_blocking check_scope
  blocked-scope none = ground arith
  blocked-scope (some scope) = ground arith

  blocked-capability : blocked (check_capability a ctx) ≡ not (is_none (check_capability a ctx))
  unfolding is_blocking check_capability check_scope
  blocked-capability =
      either_way (λ o. blocked o ≡ not (is_none o))
        (not (ctx.enforce_capabilities || is_some_text ctx.capabilities)) _ _ (λ e. refl)
        λ e. blocked-scope (lookup a.kind capability_table)

  blocked-posting :
      (p : Patterns) → blocked (check_posting a ctx p) ≡ not (is_none (check_posting a ctx p))
  unfolding is_blocking check_posting
  blocked-posting p = ground arith

  blocked-unproven :
      blocked (check_intent_unproven a ctx) ≡ not (is_none (check_intent_unproven a ctx))
  unfolding is_blocking check_intent_unproven
  blocked-unproven = ground arith

  blocked-contradiction :
      blocked (check_intent_contradiction a ctx) ≡ not (is_none (check_intent_contradiction a ctx))
  unfolding is_blocking check_intent_contradiction
  blocked-contradiction = ground arith

  blocked-known :
      (c : Crypto)
      → blocked (check_known_failure a ctx c) ≡ not (is_none (check_known_failure a ctx c))
  unfolding is_blocking check_known_failure
  blocked-known c = ground arith

  blocked-authorization :
      (c : Crypto)
      → blocked (check_authorization a ctx c) ≡ not (is_none (check_authorization a ctx c))
  unfolding is_blocking check_authorization
  blocked-authorization c = ground arith

-- An action goes ahead in the loop exactly when the checks of its capability, its posting, its intent
-- (unproven or contradicted), its known failures and its authorization all find nothing; what the other
-- nine checks find never stops it.
pub loop_allows_iff :
    (c : Crypto) (p : Patterns) (cfg : LoopConfig) (view : ActionView) (recent : List ActionView)
    (now : ℕ)
    → let a = to_planned cfg.purpose view in
      let ctx = loop_context cfg a recent now in
      ((plan_gate c p cfg view recent now).0 ≡ true) ↔ (
        (check_capability a ctx ≡ none)
        × (check_posting a ctx p ≡ none)
        × (check_intent_unproven a ctx ≡ none)
        × (check_intent_contradiction a ctx ≡ none)
        × (check_known_failure a ctx c ≡ none)
        × (check_authorization a ctx c ≡ none))
unfolding plan_gate gate decide_gate checks heuristics
loop_allows_iff c p cfg view recent now =
    let a = to_planned cfg.purpose view in
    let ctx = loop_context cfg a recent now in
    let (h1, (h2, (h3, (h4, (h5, (h6, (h7, (h8, (h9, _))))))))) = heuristics_pass a ctx in
    let k1 = blocked-capability a ctx in
    let k2 = blocked-posting a ctx p in
    let k3 = blocked-unproven a ctx in
    let k4 = blocked-contradiction a ctx in
    let k5 = blocked-known a ctx c in
    let k6 = blocked-authorization a ctx c in
    let all = any-blocking (checks c p a ctx) in
    ground (arith, all, h1, h2, h3, h4, h5, h6, h7, h8, h9, k1, k2, k3, k4, k5, k6)

verified_token :
    (c : Crypto) (a : PlannedAction) (ctx : GateContext)
    → ctx.require_authorization ≡ true
    → destructive a ≡ true
    → check_authorization a ctx c ≡ none
    → verify_authorization c ctx.authorization a ctx.operators ctx.subject_did ctx.now ≡ authorized
unfolding check_authorization
verified_token c a ctx required d h = ground (arith, required, d, h)

token_given :
    (c : Crypto) (a : PlannedAction) (token : Option Json) (operators : Option (String → Bool))
    (subject : String) (now : ℕ)
    → verify_authorization c token a operators subject now ≡ authorized
    → (given : Json) × (token ≡ some given)
unfolding verify_authorization
token_given c a none operators subject now h = absurd (ground (arith, h))
token_given c a (some given) operators subject now h = (given, refl)

-- With capabilities enforced and an operator to ask, a mutating and destructive action goes ahead in the
-- loop only if its kind has a scope in the table, this scope is grantable and among the node's
-- capabilities, and the operator gave a token for it that verifies: for exactly this action, on this
-- node, now.
pub loop_runs_only_authorized :
    (c : Crypto) (p : Patterns) (cfg : LoopConfig) (view : ActionView) (recent : List ActionView)
    (now : ℕ) (authorize : PlannedAction → Option Json)
    → cfg.enforce ≡ true
    → cfg.authorize ≡ some authorize
    → mutating (to_planned cfg.purpose view) ≡ true
    → destructive (to_planned cfg.purpose view) ≡ true
    → (plan_gate c p cfg view recent now).0 ≡ true
    → let a = to_planned cfg.purpose view in
      ((scope : String) × (lookup a.kind capability_table ≡ some scope)
        × (is_grantable scope ≡ true)
        × (contains scope cfg.capabilities ≡ true))
      × ((token : Json) × (authorize a ≡ some token)
          × (verify_authorization c (some token) a cfg.operators cfg.subject_did now ≡ authorized))
unfolding loop_context ask
loop_runs_only_authorized c p cfg view recent now authorize enforced asked m d allowed =
    let a = to_planned cfg.purpose view in
    let ctx = loop_context cfg a recent now in
    let none_found = (loop_allows_iff c p cfg view recent now).0 allowed in
    let passed : rank (check_capability a ctx) ≤ 1 = rw none_found.0 (unfold rank in omega arith) in
    let given : ask cfg.authorize a ≡ authorize a = rw asked (ground (arith, d)) in
    let verified : verify_authorization c (authorize a) a cfg.operators cfg.subject_did now
        ≡ authorized =
      subst (λ t. verify_authorization c t a cfg.operators cfg.subject_did now ≡ authorized) given
        (verified_token c a ctx (ground (arith, asked)) d none_found.5) in
    let (token, is_token) =
      token_given c a (authorize a) cfg.operators cfg.subject_did now verified in
    (
      scope_of_rank a ctx (lookup a.kind capability_table) m
          (capability_of_rank a ctx enforced passed),
      (
        token,
        is_token,
        subst (λ t. verify_authorization c t a cfg.operators cfg.subject_did now ≡ authorized)
            is_token verified,
      ),
    )
