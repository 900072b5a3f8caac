-- ===== src/Identity/Signing.antt =====
-- Signed objects: identity/secdogie_identity/signing.py, over what it takes from PyNaCl, hashlib,
-- base64 and json.
use secdogie.Prelude.{
  if◌then◌else◌, string_eq, nat_eq, ℕ, String, Bool, true, false, not, Option, none, some, List, [],
  ◌∷◌,
}
use secdogie.Identity.Json.{Json, obj, Fields, member, without, as_str}

-- The code outside the repository, with the DID decoding in front of it.
pub record Crypto : Type 0 where
  -- `pubkey_from_did` accepts the DID
  pub is_did : String → Bool
  -- the base64 signature decodes, and the Ed25519 key of the DID verifies it over the canonical
  -- bytes of the payload
  pub verifies : String → Fields → String → Bool
  -- the hexadecimal SHA-256 of the canonical bytes
  pub digest : Fields → String
  -- the text that `json.dumps` makes of a value, as code points
  pub dumps : Json → List ℕ
  -- the value that `json.loads` reads in a text, `none` where it raises
  pub loads : List ℕ → Option Json

abbrev pub envelope_keys : List String
envelope_keys = "signer" ∷ "sig" ∷ []

module _ (c : Crypto) where
  -- the signature check once both envelope keys are texts
  unfoldable pub verify_envelope : (String → Bool) → Fields → String → String → Bool × Option String
  verify_envelope trusted fs signer sig =
      if not (c.is_did signer)
      then (false, none)
      else if not (c.verifies signer (without envelope_keys fs) sig)
      then (false, none)
      else if not (trusted signer)
      then (false, some signer)
      else (true, some signer)

  -- `verify_payload` with an allowlist, given by its `contains`
  unfoldable pub verify_payload : (String → Bool) → Json → Bool × Option String
  unfolding verify_envelope member
  verify_payload trusted (obj fs) = elim (as_str (member "signer" fs)) [
    | none ↦ (false, none)
    | some signer ↦ elim (as_str (member "sig" fs)) [
      | none ↦ (false, none)
      | some sig ↦ verify_envelope trusted fs signer sig
    ]
  ]
  verify_payload trusted _ = (false, none)
