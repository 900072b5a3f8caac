-- ===== src/Tests/Lease.antt =====
-- The lease book on a lease that is added, revoked and added again.
use secdogie.Prelude.{
  any, string_eq, nat_eq, sorted_set, String, ◌≡◌, refl, false, some, List, [], ◌∷◌, ◌++◌,
}
use secdogie.Identity.Json.{
  num, str, arr, obj, Fields, end, field, member, without, texts, str_items,
}
use secdogie.Identity.Signing.{verify_envelope, verify_payload}
use secdogie.Inference.Lease.{
  TrustRoots, is_model_char, model_rest, is_model, is_hex_digit, is_hex, prefix, lease_type,
  lease_revocation_type, Lease, signed_by, lease_shape, check_lease, check_lease_revocation, check,
  live,
}
use secdogie.Inference.Lease.Book.{
  BookEvent, added, revoked, pruned, run, empty_book, revoked_for_good,
}
use secdogie.Tests.Fixtures.{toy, is_op}

abbrev roots : TrustRoots
roots = record {
  mesh = λ s. string_eq.beq s "n1";
  users = λ s. false;
  deciders = λ s. false;
  coordinators = λ s. false;
  brokers = is_op;
  operators = is_op;
}

abbrev hex : String
hex = "0123456789abcdef0123456789abcdef"

abbrev hexes : String
hexes = "0123456789abcdef0123456789abcdef0123456789abcdef0123456789abcdef"

-- the toy digest is the reason
abbrev signed_lease : Fields
signed_lease = field "type" (str lease_type) (
    field "broker" (str "op") (
      field "subject" (str "n1") (
        field "model" (str "m1") (
          field "key_version" (num 1) (
            field "valid_from" (num 1) (
              field "expires_at" (num 9) (
                field "canary_hash" (str hexes) (
                  field "reason" (str hex) (
                    field "lease_id" (str hex)
                      (field "signer" (str "op") (field "sig" (str "ok") end)))))))))))

abbrev the_lease : Lease
the_lease = record {
  lease_id = hex;
  subject = "n1";
  model = "m1";
  key_version = 1;
  valid_from = 1;
  expires_at = 9;
  canary_hash = hexes;
}

abbrev revocation : Fields
revocation = field "type" (str lease_revocation_type) (
    field "broker" (str "op") (
      field "lease_ids" (arr (str_items (hex ∷ []))) (
        field "reason" (str "leak")
          (field "issued_at" (num 3) (field "signer" (str "op") (field "sig" (str "ok") end))))))

lease_passes : check_lease toy roots (obj signed_lease) ≡ some the_lease
unfolding check_lease is_model model_rest is_model_char signed_by lease_shape verify_payload
    verify_envelope member without is_hex is_hex_digit prefix
lease_passes = refl

revocation_passes : check_lease_revocation toy roots (obj revocation) ≡ some (hex ∷ [])
unfolding check_lease_revocation signed_by verify_payload verify_envelope member without texts
    sorted_set is_hex is_hex_digit
revocation_passes = refl

abbrev before : List BookEvent
before = added (obj signed_lease) ∷ []

abbrev after : List BookEvent
after = pruned 4 ∷ added (obj signed_lease) ∷ []

revoked_for_good_example :
    (any
        (λ x. string_eq.beq x.lease_id hex)
        (live (run toy (empty_book roots) (before ++ revoked (obj revocation) ∷ after)) 5)
      ≡ false)
    × (check toy
          (run toy (empty_book roots) (before ++ revoked (obj revocation) ∷ after))
          (obj signed_lease)
          "n1"
          "m1"
          5
          0
        ≡ false)
revoked_for_good_example =
    revoked_for_good toy roots before after (obj revocation) (obj signed_lease) (hex ∷ []) the_lease
      "n1" "m1" 5 0 revocation_passes lease_passes refl
