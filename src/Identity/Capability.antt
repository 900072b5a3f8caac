-- ===== src/Identity/Capability.antt =====
-- Capability grants: identity/secdogie_identity/capability.py.
pub mod Scopes
use secdogie.Prelude.{
  ltb, leb, length, all, nat_eq, string_eq, contains, nonempty, sorted_set, ◌>>=◌, ◌>>◌, guard, ℕ,
  String, Bool, not, ◌&&◌, Option, none, some, List, [], ◌∷◌, ◌++◌,
}
use secdogie.Identity.Json.{Json, obj, member, as_str, as_num, as_list, texts}
use secdogie.Identity.Signing.{Crypto, verify_payload}

abbrev pub capability_type : String
capability_type = "secdogie/capability/v1"

-- The only scopes that can ever be granted.
abbrev pub grantable_scopes : List String
grantable_scopes =
    "observe.read" ∷ "physical.click" ∷ "physical.type" ∷ "physical.key" ∷ "physical.scroll"
    ∷ "physical.drag" ∷ "system.open" ∷ "process.run" ∷ "network.post" ∷ "network.send" ∷ []

unfoldable pub is_grantable : String → Bool
is_grantable s = contains s grantable_scopes

-- `_check_scopes`: the normalized scopes, or `none` for a reason not to accept them
unfoldable pub check_scopes : Option Json → Option (List String)
check_scopes scopes = do
  listed ← as_list scopes
  named ← texts listed
  guard (leb 1 (length named))
  guard (all is_grantable named)
  some (sorted_set named)

-- `verify_capability` with its `subject` given: the scopes of a grant that verifies
unfoldable pub verify_capability :
    Crypto → (String → Bool) → String → ℕ → Json → Option (List String)
verify_capability c issuers subject now (obj fs) = do
  kind ← as_str (member "type" fs)
  guard (string_eq.beq kind capability_type)
  let (ok, signed) = verify_payload c issuers (obj fs)
  guard ok
  signer ← signed
  issuer ← as_str (member "issuer" fs)
  guard (string_eq.beq issuer signer)
  named ← as_str (member "subject" fs)
  guard (string_eq.beq named subject)
  id ← as_str (member "capability_id" fs)
  guard (nonempty id)
  scopes ← check_scopes (member "scopes" fs)
  valid_from ← as_num (member "valid_from" fs)
  expires_at ← as_num (member "expires_at" fs)
  guard (not (ltb now valid_from))
  guard (ltb now expires_at)
  some scopes
verify_capability c issuers subject now _ = none

-- the union over the grants that verify
unfoldable pub effective_scopes : Crypto → (String → Bool) → String → ℕ → List Json → List String
effective_scopes c issuers subject now [] = []
effective_scopes c issuers subject now (grant ∷ grants) =
    let rest = effective_scopes c issuers subject now grants in
    elim (verify_capability c issuers subject now grant) [
      | none ↦ rest
      | some scopes ↦ scopes ++ rest
    ]

unfoldable pub allows : List String → String → Bool
allows granted required = is_grantable required && contains required granted
