-- ===== src/Citadel/ActionGate/Rewrite.antt =====
-- The one rewrite of the gate: attaching a verification.
use secdogie.Prelude.{
  any, nat_eq, string_eq, strip, nonempty, ◌≡◌, refl, ap, ◌∙◌, ◌⊎◌, inl, inr, Bool, true, false,
  ◌||◌, Option, none, some, List, [], ◌∷◌, ◌++◌, arith,
}
use secdogie.Identity.Signing.{Crypto}
use secdogie.Citadel.Socratic.{Patterns, found}
use secdogie.Citadel.Authz.{PlannedAction, action_hash}
use secdogie.Citadel.ActionGate.{
  checks, findings, precedence, attached_verification, is_missing_verification, gate, allow,
  rewrite, missing_verification, Finding, GateContext, found_by, check_stale_target,
  check_target_present, check_no_op, check_repeated, check_polling_run, check_destructive_chain,
  check_missing_verification, check_excessive_cost, check_capability, check_posting,
  check_authorization, check_intent_unproven, check_intent_contradiction, check_preconditions,
  check_known_failure,
}
use secdogie.Citadel.ActionGate.Ranks.{rank, RankedBy, RankedBy-gate, gate-le_of_RankedBy}
use secdogie.Citadel.ActionGate.Expecting.{expecting, expecting-RankedBy, allow_of_rank}

any-findings :
    (q : Finding → Bool) (os : List (Option Finding))
    → any q (findings os) ≡ any (λ o. elim o [ none ↦ false | some f ↦ q f ]) os
unfolding findings
any-findings q [] = refl
any-findings q (none ∷ os) = any-findings q os
any-findings q (some f ∷ os) = ap (λ b. q f || b) (any-findings q os)

any_middle :
    (q : Option Finding → Bool) (before : List (Option Finding)) (o : Option Finding)
    (after : List (Option Finding))
    → q o ≡ true
    → any q (before ++ o ∷ after) ≡ true
any_middle q [] o after h = ground arith
any_middle q (x ∷ before) o after h = ground (arith, any_middle q before o after h)

module _ (c : Crypto) (p : Patterns) (a : PlannedAction) (ctx : GateContext)
    (rewritten : (gate c p a ctx).verdict ≡ rewrite) where
  ranks : RankedBy c p a ctx 1
  ranks = RankedBy-gate c p a ctx 1 (rw rewritten (unfold precedence in omega arith))

  -- were it not for the missing verification, the gate would have allowed the action
  is_missing : check_missing_verification a ctx ≡ found_by missing_verification rewrite 3
  is_missing = elim (missing-cases) [
    | inl found ↦ found
    | inr nothing ↦ cc (
      rewritten,
      allow_of_rank (gate c p a ctx).verdict (
          gate-le_of_RankedBy c p a ctx 0 (
            expecting-RankedBy a.expected_observation c p a ctx ranks
              (rw nothing (unfold rank in omega arith)))),
    )
  ]
    where
      missing-cases :
          (check_missing_verification a ctx ≡ found_by missing_verification rewrite 3)
          ⊎ (check_missing_verification a ctx ≡ none)
      missing-cases = unfold check_missing_verification in ground arith

  is_blank : nonempty (strip a.expected_observation) ≡ false
  is_blank = go is_missing
    where
      go :
          check_missing_verification a ctx ≡ found_by missing_verification rewrite 3
          → nonempty (strip a.expected_observation) ≡ false
      go h = unfold check_missing_verification in ground arith

  finds_missing : any is_missing_verification (findings (checks c p a ctx)) ≡ true
  unfolding checks
  finds_missing =
      any-findings is_missing_verification (checks c p a ctx)
      ∙ any_middle (λ o. elim o [ none ↦ false | some f ↦ is_missing_verification f ])
          (check_stale_target a ctx
            ∷ check_target_present a ctx
            ∷ check_no_op a ctx
            ∷ check_repeated a ctx
            ∷ check_polling_run a ctx
            ∷ check_destructive_chain a ctx
            ∷ [])
          (check_missing_verification a ctx)
          (check_excessive_cost a ctx
            ∷ check_capability a ctx
            ∷ check_posting a ctx p
            ∷ check_intent_unproven a ctx
            ∷ check_intent_contradiction a ctx
            ∷ check_preconditions a ctx
            ∷ check_known_failure a ctx c
            ∷ check_authorization a ctx c
            ∷ [])
          (rw is_missing)

  -- A rewrite proposes the same action with a verification attached; it has the same effect hash,
  -- and the gate allows it in the same context.
  pub rewrite_is_allowed :
      ((gate c p a ctx).replacement ≡ some (expecting attached_verification a))
      × (action_hash c (expecting attached_verification a) ≡ action_hash c a)
      × ((gate c p (expecting attached_verification a) ctx).verdict ≡ allow)
  rewrite_is_allowed = (
    unfold gate in ground (arith, rewritten, finds_missing, is_blank),
    unfold action_hash in refl,
    allow_of_rank (gate c p (expecting attached_verification a) ctx).verdict (
        gate-le_of_RankedBy c p (expecting attached_verification a) ctx 0 (
          expecting-RankedBy attached_verification c p a ctx ranks
            (unfold check_missing_verification rank strip in ground arith))),
  )
