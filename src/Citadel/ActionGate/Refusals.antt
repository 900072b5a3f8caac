-- ===== src/Citadel/ActionGate/Refusals.antt =====
-- What an action that the gate lets pass must have: a capability, an authorization, an intent.
use secdogie.Prelude.{
  nat_eq, string_eq, contains, lookup, ◌≤◌, String, ◌≡◌, refl, Bool, true, false, Option, none,
  some, arith,
}
use secdogie.Identity.Signing.{Crypto}
use secdogie.Identity.Capability.{is_grantable, allows}
use secdogie.Citadel.Socratic.{Patterns}
use secdogie.Citadel.Authz.{PlannedAction, authorized, verify_authorization}
use secdogie.Citadel.ActionGate.{
  precedence, gate, Verdict, allow, rewrite, capability_table, mutating, destructive, GateContext,
  check_scope, check_capability, check_authorization,
}
use secdogie.Citadel.ActionGate.Ranks.{rank, RankedBy, RankedBy-gate}

-- the verdicts under which an action goes ahead, as proposed or with a verification attached
abbrev pub passes : Verdict → Bool
passes allow = true
passes rewrite = true
passes _ = false

passes_rank : (v : Verdict) → passes v ≡ true → precedence v ≤ 1
unfolding precedence
passes_rank v h = ground arith

pub scope_of_rank :
    (a : PlannedAction) (ctx : GateContext) (found : Option String)
    → mutating a ≡ true
    → rank (check_scope a ctx found) ≤ 1
    → (scope : String) × (found ≡ some scope)
      × (is_grantable scope ≡ true)
      × (contains scope ctx.capabilities ≡ true)
unfolding check_scope rank precedence allows
scope_of_rank a ctx none m h = absurd (ground arith)
scope_of_rank a ctx (some scope) m h = (scope, refl, ground arith, ground arith)

pub capability_of_rank :
    (a : PlannedAction) (ctx : GateContext)
    → ctx.enforce_capabilities ≡ true
    → rank (check_capability a ctx) ≤ 1
    → rank (check_scope a ctx (lookup a.kind capability_table)) ≤ 1
unfolding check_capability
capability_of_rank a ctx enforced h = rw enforced at h

module _ (c : Crypto) (p : Patterns) (a : PlannedAction) (ctx : GateContext)
    (passed : passes (gate c p a ctx).verdict ≡ true) where
  low : RankedBy c p a ctx 1
  low = RankedBy-gate c p a ctx 1 (passes_rank (gate c p a ctx).verdict passed)

  -- With Gate 2 enforced, a destructive action passes only with an authorization that verifies for
  -- exactly this action on this node now.
  pub passed_destructive_is_authorized :
      ctx.require_authorization ≡ true
      → destructive a ≡ true
      → verify_authorization c ctx.authorization a ctx.operators ctx.subject_did ctx.now
        ≡ authorized
  passed_destructive_is_authorized enforced d =
      ground (arith, low.authorization, unfold_authorization)
    where
      unfold_authorization :
          rank (check_authorization a ctx c) ≤ 1
          → verify_authorization c ctx.authorization a ctx.operators ctx.subject_did ctx.now
            ≡ authorized
      unfold_authorization h = unfold rank check_authorization precedence in ground arith

  -- With capabilities enforced, a mutating action passes only if its kind has a scope in the table
  -- and that scope is grantable and granted.
  pub passed_mutating_is_granted :
      ctx.enforce_capabilities ≡ true
      → mutating a ≡ true
      → (scope : String) × (lookup a.kind capability_table ≡ some scope)
        × (is_grantable scope ≡ true)
        × (contains scope ctx.capabilities ≡ true)
  passed_mutating_is_granted enforced m =
      scope_of_rank a ctx (lookup a.kind capability_table) m
        (capability_of_rank a ctx enforced low.capability)
