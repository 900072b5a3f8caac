-- ===== src/Inference/Lease.antt =====
-- Key leases: the public lease, its revocation and the lease book of
-- inference/secdogie_inference/lease.py, with the checks it takes from protocol.py. A reason to
-- refuse is `none`; a lease that passes is read into a record. Sealing is not modelled.
pub mod Clean
pub mod Book
use Prim.Native.Char.{code}
use secdogie.Prelude.{
  ltb, leb, nat_beq, if◌then◌else◌, length, select, all, contains, string_eq, nat_eq, Dict, values,
  lookup, put, remove, retain, nonempty, sorted_set, ◌>>=◌, ◌>>◌, guard, ℕ, zero, suc, ◌+◌, String,
  Bool, true, false, not, ◌&&◌, ◌||◌, Option, none, some, List, [], ◌∷◌, ◌++◌,
}
use secdogie.Identity.Json.{Json, obj, Fields, member, without, as_str, as_num, as_list, texts}
use secdogie.Identity.Revocation.{same_texts}
use secdogie.Identity.Signing.{Crypto, verify_payload}

-- whom each decision listens to, each by its `contains`
pub record TrustRoots : Type 0 where
  pub mesh : String → Bool
  pub users : String → Bool
  pub deciders : String → Bool
  pub coordinators : String → Bool
  pub brokers : String → Bool
  pub operators : String → Bool

-- [A-Za-z0-9._:/@+-]
unfoldable pub is_model_char : ℕ → Bool
is_model_char n =
    nat_beq n 43
    || leb 45 n && leb n 58
    || leb 64 n && leb n 90
    || nat_beq n 95
    || leb 97 n && leb n 122

-- at most `n` of these, where `$` also matches before a last newline
unfoldable pub model_rest : ℕ → String → Bool
unfolding is_model_char
model_rest n String.[] = true
model_rest zero (String.◌∷◌ d s) = nat_beq (code d) 10 && not (nonempty s)
model_rest (suc n) (String.◌∷◌ d s) =
    let rest = model_rest n s in
    is_model_char (code d) && rest || nat_beq (code d) 10 && not (nonempty s)

-- ^[A-Za-z0-9._:/@+-]{1,128}$
unfoldable pub is_model : String → Bool
unfolding model_rest
is_model String.[] = false
is_model (String.◌∷◌ d s) = is_model_char (code d) && model_rest 127 s

-- [0-9a-f]
unfoldable pub is_hex_digit : ℕ → Bool
is_hex_digit n = leb 48 n && leb n 57 || leb 97 n && leb n 102

-- ^[0-9a-f]{n}$, where `$` also matches before a last newline
unfoldable pub is_hex : ℕ → String → Bool
unfolding is_hex_digit
is_hex zero String.[] = true
is_hex zero (String.◌∷◌ d String.[]) = nat_beq (code d) 10
is_hex zero (String.◌∷◌ d (String.◌∷◌ e s)) = false
is_hex (suc n) String.[] = false
is_hex (suc n) (String.◌∷◌ d s) = is_hex_digit (code d) && is_hex n s

-- s[:n]
unfoldable pub prefix : ℕ → String → String
prefix zero s = String.[]
prefix (suc n) String.[] = String.[]
prefix (suc n) (String.◌∷◌ d s) = String.◌∷◌ d (prefix n s)

abbrev pub lease_type : String
lease_type = "secdogie/inference/lease/v1"

abbrev pub lease_revocation_type : String
lease_revocation_type = "secdogie/inference/lease-revocation/v1"

abbrev pub max_revoked_leases : ℕ
max_revoked_leases = 64

abbrev pub lease_envelope : List String
lease_envelope = "lease_id" ∷ "signer" ∷ "sig" ∷ []

pub record Lease : Type 0 where
  pub lease_id : String
  pub subject : String
  pub model : String
  pub key_version : ℕ
  pub valid_from : ℕ
  pub expires_at : ℕ
  pub canary_hash : String

-- `signed_by`: an object of the type, signed by a trusted DID that it names itself
unfoldable pub signed_by : Crypto → String → String → (String → Bool) → Json → Option (Unit {0})
signed_by c kind name trusted (obj fs) = do
  tag ← as_str (member "type" fs)
  guard (string_eq.beq tag kind)
  let (ok, signed) = verify_payload c trusted (obj fs)
  guard ok
  signer ← signed
  named ← as_str (member name fs)
  guard (string_eq.beq named signer)
signed_by c kind name trusted _ = none

unfoldable pub lease_shape : Crypto → Fields → Option Lease
lease_shape c fs = do
  subject ← as_str (member "subject" fs)
  guard (c.is_did subject)
  model ← as_str (member "model" fs)
  guard (is_model model)
  key_version ← as_num (member "key_version" fs)
  valid_from ← as_num (member "valid_from" fs)
  expires_at ← as_num (member "expires_at" fs)
  guard (ltb valid_from expires_at)
  canary_hash ← as_str (member "canary_hash" fs)
  guard (is_hex 64 canary_hash)
  lease_id ← as_str (member "lease_id" fs)
  guard (is_hex 32 lease_id)
  guard (string_eq.beq lease_id (prefix 32 (c.digest (without lease_envelope fs))))
  some (record {
    lease_id = lease_id;
    subject = subject;
    model = model;
    key_version = key_version;
    valid_from = valid_from;
    expires_at = expires_at;
    canary_hash = canary_hash;
  })

unfoldable pub check_lease : Crypto → TrustRoots → Json → Option Lease
check_lease c trust (obj fs) = do
  signed_by c lease_type "broker" trust.brokers (obj fs)
  lease ← lease_shape c fs
  guard (trust.mesh lease.subject)
  some lease
check_lease c trust _ = none

-- the ids of a revocation that passes
unfoldable pub check_lease_revocation : Crypto → TrustRoots → Json → Option (List String)
check_lease_revocation c trust (obj fs) = do
  signed_by c lease_revocation_type "broker" trust.brokers (obj fs)
  listed ← as_list (member "lease_ids" fs)
  guard (leb 1 (length listed) && leb (length listed) max_revoked_leases)
  ids ← texts listed
  guard (same_texts (sorted_set ids) ids)
  guard (all (is_hex 32) ids)
  reason ← as_str (member "reason" fs)
  issued_at ← as_num (member "issued_at" fs)
  some ids
check_lease_revocation c trust _ = none

pub record LeaseBook : Type 0 where
  pub trust : TrustRoots
  pub leases : Dict String Lease
  pub revoked : List String

unfoldable pub add_checked : LeaseBook → Option Lease → LeaseBook × Bool
add_checked b none = (b, false)
add_checked b (some l) =
    if contains l.lease_id b.revoked then (b, false) else elim (lookup l.lease_id b.leases) [
      | some known ↦ (b, false)
      | none ↦ (record b { leases = put l.lease_id l b.leases }, true)
    ]

-- `add`
unfoldable pub add : Crypto → LeaseBook → Json → LeaseBook × Bool
unfolding add_checked
add c b lease = add_checked b (check_lease c b.trust lease)

-- self._leases.pop(lid, None) for each
unfoldable pub remove_all : List String → Dict String Lease → Dict String Lease
remove_all [] d = d
remove_all (lid ∷ lids) d = remove_all lids (remove lid d)

unfoldable pub revoke_checked : LeaseBook → Option (List String) → LeaseBook × List String
revoke_checked b none = (b, [])
revoke_checked b (some ids) =
    let newly = select (λ i. not (contains i b.revoked)) ids in
    (record b { revoked = b.revoked ++ newly; leases = remove_all newly b.leases }, newly)

-- `revoke`
unfoldable pub revoke : Crypto → LeaseBook → Json → LeaseBook × List String
unfolding revoke_checked
revoke c b o = revoke_checked b (check_lease_revocation c b.trust o)

unfoldable pub is_revoked : LeaseBook → String → Bool
is_revoked b lid = contains lid b.revoked

-- `check`: whether the lease entitles the provider to answer with the model
unfoldable pub check : Crypto → LeaseBook → Json → String → String → ℕ → ℕ → Bool
check c b lease provider model now skew = elim (check_lease c b.trust lease) [
  | none ↦ false
  | some l ↦
      string_eq.beq l.subject provider
      && string_eq.beq l.model model
      && not (contains l.lease_id b.revoked)
      && leb l.valid_from (now + skew)
      && ltb now (l.expires_at + skew)
]

-- `live`
unfoldable pub live : LeaseBook → ℕ → List Lease
live b now = values (retain (λ _ l. leb l.valid_from now && ltb now l.expires_at) b.leases)

-- `prune`
unfoldable pub prune : LeaseBook → ℕ → LeaseBook
prune b now = record b { leases = retain (λ _ l. not (leb l.expires_at now)) b.leases }
