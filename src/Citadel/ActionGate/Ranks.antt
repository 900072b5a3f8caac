-- ===== src/Citadel/ActionGate/Ranks.antt =====
-- The verdict of the gate has the rank of its worst finding, so one refusal among the checks is
-- enough.
use secdogie.Prelude.{
  All, nat_eq, string_eq, ℕ, ◌≤◌, max, ◌≡◌, refl, Option, none, some, List, [], ◌∷◌, arith,
}
use secdogie.Identity.Signing.{Crypto}
use secdogie.Citadel.Socratic.{Patterns}
use secdogie.Citadel.Authz.{PlannedAction}
use secdogie.Citadel.ActionGate.{
  checks, findings, precedence, worst_verdict, gate, Finding, GateContext, check_stale_target,
  check_target_present, check_no_op, check_repeated, check_polling_run, check_destructive_chain,
  check_missing_verification, check_excessive_cost, check_capability, check_posting,
  check_authorization, check_intent_unproven, check_intent_contradiction, check_preconditions,
  check_known_failure,
}

-- the rank of a check's answer
unfoldable pub rank : Option Finding → ℕ
unfolding precedence
rank none = 0
rank (some f) = precedence f.verdict

pub worst_rank : List (Option Finding) → ℕ
worst_rank [] = 0
worst_rank (o ∷ rest) = max (rank o) (worst_rank rest)

precedence-worst_verdict :
    (os : List (Option Finding)) → precedence (worst_verdict (findings os)) ≡ worst_rank os
unfolding worst_verdict findings worst_rank rank
precedence-worst_verdict [] = refl
precedence-worst_verdict (none ∷ os) = ground (arith, precedence-worst_verdict os)
precedence-worst_verdict (some f ∷ os) = ground (arith, precedence-worst_verdict os)

ranks_of_worst : (n : ℕ) (os : List (Option Finding)) → worst_rank os ≤ n → All (λ o. rank o ≤ n) os
unfolding worst_rank
ranks_of_worst n [] h = tt
ranks_of_worst n (o ∷ os) h = (omega arith, ranks_of_worst n os (omega arith))

worst_of_ranks : (n : ℕ) (os : List (Option Finding)) → All (λ o. rank o ≤ n) os → worst_rank os ≤ n
unfolding worst_rank
worst_of_ranks n [] h = omega arith
worst_of_ranks n (o ∷ os) h = omega (arith, h.0, worst_of_ranks n os h.1)

-- every check ranks at most `n`
pub record RankedBy (c : Crypto) (p : Patterns) (a : PlannedAction) (ctx : GateContext) (n : ℕ)
    : Type 0 where
  pub stale : rank (check_stale_target a ctx) ≤ n
  pub present : rank (check_target_present a ctx) ≤ n
  pub no_op : rank (check_no_op a ctx) ≤ n
  pub repeated : rank (check_repeated a ctx) ≤ n
  pub polling : rank (check_polling_run a ctx) ≤ n
  pub chain : rank (check_destructive_chain a ctx) ≤ n
  pub verification : rank (check_missing_verification a ctx) ≤ n
  pub cost : rank (check_excessive_cost a ctx) ≤ n
  pub capability : rank (check_capability a ctx) ≤ n
  pub posting : rank (check_posting a ctx p) ≤ n
  pub unproven : rank (check_intent_unproven a ctx) ≤ n
  pub contradiction : rank (check_intent_contradiction a ctx) ≤ n
  pub preconditions : rank (check_preconditions a ctx) ≤ n
  pub known : rank (check_known_failure a ctx c) ≤ n
  pub authorization : rank (check_authorization a ctx c) ≤ n

module _ (c : Crypto) (p : Patterns) (a : PlannedAction) (ctx : GateContext) where
  pub verdict_rank : precedence (gate c p a ctx).verdict ≡ worst_rank (checks c p a ctx)
  unfolding gate
  verdict_rank = precedence-worst_verdict (checks c p a ctx)

  pub RankedBy-gate : (n : ℕ) → precedence (gate c p a ctx).verdict ≤ n → RankedBy c p a ctx n
  RankedBy-gate n h =
      let r : All (λ o. rank o ≤ n) (checks c p a ctx) =
        ranks_of_worst n (checks c p a ctx) (rw (← verdict_rank) h) in
      unfold checks in omega (arith, r)

  pub gate-le_of_RankedBy : (n : ℕ) → RankedBy c p a ctx n → precedence (gate c p a ctx).verdict ≤ n
  gate-le_of_RankedBy n r =
      rw verdict_rank (worst_of_ranks n (checks c p a ctx) (unfold checks in omega arith))
