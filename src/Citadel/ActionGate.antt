-- ===== src/Citadel/ActionGate.antt =====
-- The decision of citadel/secdogie_citadel/action_gate.py on the findings of its checks.
mod Context
mod Checks
pub mod Ranks
pub mod Refusals
pub mod Expecting
pub mod Rewrite
unfoldable pub use Context.*
unfoldable pub use Checks.*
use secdogie.Prelude.{
  ltb, if◌then◌else◌, any, nat_eq, string_eq, strip, nonempty, ℕ, ◌*◌, ◌/◌, max, String, Bool, true,
  false, not, ◌&&◌, Option, none, some, List, [], ◌∷◌, map,
}
use secdogie.Identity.Signing.{Crypto}
use secdogie.Citadel.Socratic.{Patterns}
use secdogie.Citadel.Authz.{PlannedAction}

-- `_CHECKS`, on one action
unfoldable pub checks : Crypto → Patterns → PlannedAction → GateContext → List (Option Finding)
checks c p a ctx =
    check_stale_target a ctx
    ∷ check_target_present a ctx
    ∷ check_no_op a ctx
    ∷ check_repeated a ctx
    ∷ check_polling_run a ctx
    ∷ check_destructive_chain a ctx
    ∷ check_missing_verification a ctx
    ∷ check_excessive_cost a ctx
    ∷ check_capability a ctx
    ∷ check_posting a ctx p
    ∷ check_intent_unproven a ctx
    ∷ check_intent_contradiction a ctx
    ∷ check_preconditions a ctx
    ∷ check_known_failure a ctx c
    ∷ check_authorization a ctx c
    ∷ []

unfoldable pub findings : List (Option Finding) → List Finding
findings [] = []
findings (none ∷ rest) = findings rest
findings (some f ∷ rest) = f ∷ findings rest

unfoldable pub precedence : Verdict → ℕ
precedence request_reobserve = 3
precedence reject = 2
precedence rewrite = 1
precedence allow = 0

-- the verdict of highest precedence, and the highest risk
unfoldable pub worst_verdict : List Finding → Verdict
unfolding precedence
worst_verdict [] = allow
worst_verdict (f ∷ rest) =
    let v = worst_verdict rest in if ltb (precedence f.verdict) (precedence v) then v else f.verdict

unfoldable pub worst_risk : List Finding → ℕ
worst_risk [] = 0
worst_risk (f ∷ rest) = max f.risk (worst_risk rest)

pub record GateDecision : Type 0 where
  pub verdict : Verdict
  pub kinds : List FindingKind
  pub replacement : Option PlannedAction
  pub risk : ℕ
  pub estimated_cost : ℕ
  pub expected_observation : String

abbrev pub attached_verification : String
attached_verification =
    "the targeted UI visibly changes; verify by re-observation / pixel-diff before treating this action as done"

abbrev pub is_missing_verification : Finding → Bool
is_missing_verification f = elim f.kind [ missing_verification ↦ true | _ ↦ false ]

abbrev pub is_rewrite : Verdict → Bool
is_rewrite rewrite = true
is_rewrite _ = false

-- the decision on the findings
unfoldable pub decide_gate : PlannedAction → List Finding → GateDecision
decide_gate a fs =
    let verdict = worst_verdict fs in
    let attach =
      is_rewrite verdict
      && any is_missing_verification fs
      && not (nonempty (strip a.expected_observation)) in
    record {
      verdict = verdict;
      kinds = map (λ f. f.kind) fs;
      replacement =
          if attach then some (record a { expected_observation = attached_verification }) else none;
      risk = worst_risk fs;
      estimated_cost = a.estimated_cost;
      expected_observation = if attach then attached_verification else a.expected_observation;
    }

unfoldable pub gate : Crypto → Patterns → PlannedAction → GateContext → GateDecision
unfolding decide_gate
gate c p a ctx = decide_gate a (findings (checks c p a ctx))
