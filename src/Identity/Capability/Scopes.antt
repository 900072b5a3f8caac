-- ===== src/Identity/Capability/Scopes.antt =====
-- No set of grants gives a scope that is not grantable or that no trusted issuer granted.
use secdogie.Prelude.{
  ltb, leb, Option-cases, length, any, all, nat_eq, string_eq, contains, contains-append,
  sorted_set, >>=-eq-some, guard-eq-some, contains-sorted_set, all-contains, ℕ, String, ◌≡◌, ap,
  inl, inr, Bool, true, false, ◌&&◌, Option, none, some, List, [], ◌∷◌, arith,
}
use secdogie.Identity.Json.{Json, obj, Fields, member, as_str, as_num, as_list, texts}
use secdogie.Identity.Signing.{Crypto, verify_payload}
use secdogie.Identity.Capability.{is_grantable, check_scopes, verify_capability, effective_scopes}

-- the scopes that the grant names, as they stand in it
abbrev pub named_scopes : Fields → List String
named_scopes fs = elim (as_list (member "scopes" fs)) [
  | none ↦ []
  | some listed ↦ elim (texts listed) [ none ↦ [] | some named ↦ named ]
]

abbrev pub at_time : (ℕ → Bool) → Option ℕ → Bool
at_time p none = false
at_time p (some t) = p t

-- signed by a trusted issuer, for the subject, naming the scope, in its window
abbrev pub grants_scope : Crypto → (String → Bool) → String → ℕ → String → Json → Bool
grants_scope c issuers subject now scope (obj fs) =
    (verify_payload c issuers (obj fs)).0
    && contains scope (named_scopes fs)
    && at_time (λ t. leb t now) (as_num (member "valid_from" fs))
    && at_time (λ t. ltb now t) (as_num (member "expires_at" fs))
    && elim (as_str (member "subject" fs)) [ none ↦ false | some s ↦ string_eq.beq s subject ]
grants_scope c issuers subject now scope _ = false

check_scopes_sound :
    (scopes : Option Json) (named : List String) (s : String)
    → check_scopes scopes ≡ some named
    → contains s named ≡ true
    → is_grantable s ≡ true
unfolding check_scopes
check_scopes_sound scopes named s h m =
    let (listed, _, h₁) = >>=-eq-some (as_list scopes) _ h in
    let (raw, _, h₂) = >>=-eq-some (texts listed) _ h₁ in
    let (some_scope, h₃) = guard-eq-some (leb 1 (length raw)) _ h₂ in
    let (grantable, h₄) = guard-eq-some (all is_grantable raw) _ h₃ in
    all-contains ⦃e = string_eq⦄ is_grantable s raw grantable (
      ground
        (arith, m, ap (contains s) {x = sorted_set raw} {y = named}, h₄, contains-sorted_set s raw))

check_scopes_named :
    (fs : Fields) (named : List String) (s : String)
    → check_scopes (member "scopes" fs) ≡ some named
    → contains s named ≡ contains s (named_scopes fs)
unfolding check_scopes
check_scopes_named fs named s h = ground (
  arith,
  h,
  contains-sorted_set s (named_scopes fs),
  ap (contains s) {x = sorted_set (named_scopes fs)} {y = named},
)

module _ (c : Crypto) (issuers : String → Bool) (subject : String) (now : ℕ) where
  verified_scopes :
      (fs : Fields) (scopes : List String)
      → verify_capability c issuers subject now (obj fs) ≡ some scopes
      → check_scopes (member "scopes" fs) ≡ some scopes
  unfolding verify_capability
  verified_scopes fs scopes h = ground arith

  verified_grant :
      (fs : Fields) (scopes : List String) (s : String)
      → verify_capability c issuers subject now (obj fs) ≡ some scopes
      → contains s scopes ≡ true
      → grants_scope c issuers subject now s (obj fs) ≡ true
  unfolding verify_capability
  verified_grant fs scopes s h m =
      ground (arith, check_scopes_named fs scopes s (verified_scopes fs scopes h))

  one_grant :
      (s : String) (grant : Json) (scopes : List String)
      → verify_capability c issuers subject now grant ≡ some scopes
      → contains s scopes ≡ true
      → (is_grantable s ≡ true) × (grants_scope c issuers subject now s grant ≡ true)
  one_grant s (obj fs) scopes h m = (
    check_scopes_sound (member "scopes" fs) scopes s (verified_scopes fs scopes h) m,
    verified_grant fs scopes s h m,
  )
  one_grant s _ scopes h m = unfold verify_capability in cc

  -- A scope that a subject effectively holds is grantable, and one of the grants gives it: signed
  -- by a trusted issuer, for that subject, naming the scope, and inside its validity window.
  pub effective_scope_was_granted :
      (s : String) (grants : List Json)
      → contains s (effective_scopes c issuers subject now grants) ≡ true
      → (is_grantable s ≡ true) × (any (grants_scope c issuers subject now s) grants ≡ true)
  unfolding effective_scopes
  effective_scope_was_granted s [] h = cc
  effective_scope_was_granted s (grant ∷ grants) h =
      elim (Option-cases (verify_capability c issuers subject now grant)) [
        | inl refused ↦ ground (arith, refused, effective_scope_was_granted s grants)
        | inr (scopes, verified) ↦ ground (
          arith,
          verified,
          contains-append ⦃e = string_eq⦄ s scopes (effective_scopes c issuers subject now grants),
          one_grant s grant scopes verified,
          effective_scope_was_granted s grants,
        )
      ]
