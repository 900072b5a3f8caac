-- ===== src/Citadel/Authz/Binding.antt =====
-- What an accepted authorization says: who signed it, for which action, node and time.
use secdogie.Prelude.{
  nat_eq, string_eq, ℕ, ◌≤◌, ◌<◌, String, ◌≡◌, refl, ap, Bool, true, Option, none, some, arith,
}
use secdogie.Identity.Json.{obj, Fields, member, without, as_str, as_num}
use secdogie.Identity.Signing.{Crypto, envelope_keys, verify_payload}
use secdogie.Citadel.Authz.{
  authorization_type, PlannedAction, action_hash, authorized, check_window, holds_text,
  check_binding, verify_authorization,
}

-- A valid payload signature is by a trusted signer whose key verifies the payload.
verify_payload-true :
    (c : Crypto) (trusted : String → Bool) (fs : Fields)
    → (verify_payload c trusted (obj fs)).0 ≡ true
    → (signer : String) × (sig : String) × (as_str (member "signer" fs) ≡ some signer)
      × (as_str (member "sig" fs) ≡ some sig)
      × (c.verifies signer (without envelope_keys fs) sig ≡ true)
      × (trusted signer ≡ true)
unfolding verify_payload
verify_payload-true c trusted fs h = ground arith

holds_text-true : (s : String) (o : Option String) → holds_text s o ≡ true → o ≡ some s
holds_text-true s none h = cc
holds_text-true s (some t) h = ap some ((string_eq.beq_iff t s).0 h)

check_window_authorized :
    (from until : Option ℕ) (now : ℕ)
    → check_window from until now ≡ authorized
    → (valid_from : ℕ) × (expires_at : ℕ) × (from ≡ some valid_from)
      × (until ≡ some expires_at)
      × (valid_from ≤ now)
      × (now < expires_at)
unfolding check_window
check_window_authorized (some v) (some e) now h = (v, e, refl, refl, ground arith, ground arith)
check_window_authorized none until now h = cc
check_window_authorized (some v) none now h = cc

module _ (c : Crypto) (token : Fields) (a : PlannedAction) (trusted : String → Bool)
    (subject : String) (now : ℕ) where
  verify_stages :
      verify_authorization c (some (obj token)) a (some trusted) subject now ≡ authorized
      → (holds_text authorization_type (as_str (member "type" token)) ≡ true)
        × ((verify_payload c trusted (obj token)).0 ≡ true)
        × (check_binding c token a subject now ≡ authorized)
  unfolding verify_authorization
  verify_stages h = (ground arith, ground arith, ground arith)

  binding_stages :
      check_binding c token a subject now ≡ authorized
      → (holds_text (action_hash c a) (as_str (member "action_hash" token)) ≡ true)
        × (holds_text subject (as_str (member "subject" token)) ≡ true)
        × (check_window
              (as_num (member "valid_from" token))
              (as_num (member "expires_at" token))
              now
            ≡ authorized)
  unfolding check_binding
  binding_stages h = (ground arith, ground arith, ground arith)

-- An authorization is accepted only for an object of its type that a trusted operator signed,
-- over the hash of this action, this node and a window that covers now.
pub authorized_token :
    (c : Crypto) (token : Fields) (a : PlannedAction) (trusted : String → Bool) (subject : String)
    (now : ℕ)
    → verify_authorization c (some (obj token)) a (some trusted) subject now ≡ authorized
    → (signer : String) × (sig : String) × (valid_from : ℕ) × (expires_at : ℕ) × (as_str
          (member "type" token)
        ≡ some authorization_type)
      × (as_str (member "signer" token) ≡ some signer)
      × (as_str (member "sig" token) ≡ some sig)
      × (c.verifies signer (without envelope_keys token) sig ≡ true)
      × (trusted signer ≡ true)
      × (as_str (member "action_hash" token) ≡ some (action_hash c a))
      × (as_str (member "subject" token) ≡ some subject)
      × (as_num (member "valid_from" token) ≡ some valid_from)
      × (as_num (member "expires_at" token) ≡ some expires_at)
      × (valid_from ≤ now)
      × (now < expires_at)
authorized_token c token a trusted subject now h =
    let (of_type, signed, bound) = verify_stages c token a trusted subject now h in
    let (of_action, of_node, in_window) = binding_stages c token a trusted subject now bound in
    let (signer, sig, has_signer, has_sig, verified, is_trusted) =
      verify_payload-true c trusted token signed in
    let (valid_from, expires_at, has_from, has_until, begun, running) =
      check_window_authorized (as_num (member "valid_from" token))
        (as_num (member "expires_at" token)) now in_window in
    (
      signer,
      sig,
      valid_from,
      expires_at,
      holds_text-true authorization_type (as_str (member "type" token)) of_type,
      has_signer,
      has_sig,
      verified,
      is_trusted,
      holds_text-true (action_hash c a) (as_str (member "action_hash" token)) of_action,
      holds_text-true subject (as_str (member "subject" token)) of_node,
      has_from,
      has_until,
      begun,
      running,
    )
