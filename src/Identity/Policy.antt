-- ===== src/Identity/Policy.antt =====
-- An allowlist narrowed by Master-signed revocations: identity/secdogie_identity/policy.py.
pub mod Union
pub mod Trust
pub mod Restart
use mathlib.Core.Option
use secdogie.Prelude.{
  nat_beq, if◌then◌else◌, select, contains, string_eq, nat_eq, Dict, lookup, put, ℕ, ◌+◌, String,
  Bool, true, false, not, ◌&&◌, Option, none, some, List, [], ◌∷◌, ◌++◌, map,
}
use secdogie.Identity.Json.{Json}
use secdogie.Identity.Signing.{Crypto}
use secdogie.Identity.Revocation.{MasterSet, RevocationRecord, verify_revocation}
use secdogie.Identity.Store.{RevocationStore, stamp, load, append}

pub record TrustPolicy : Type 0 where
  pub allowed : List String
  pub masters : Option MasterSet
  pub store : Option RevocationStore
  pub revoked : List String
  pub records : Dict String RevocationRecord
  -- what every subscriber has been called with
  pub notices : List (List String)
  pub version : ℕ
  pub store_stamp : Option ℕ

unfoldable pub is_revoked : TrustPolicy → String → Bool
is_revoked p did = contains did p.revoked

-- the allowlist interface
unfoldable pub trusts : TrustPolicy → String → Bool
trusts p did = contains did p.allowed && not (contains did p.revoked)

unfoldable pub trusted_dids : TrustPolicy → List String
trusted_dids p = select (λ d. not (contains d p.revoked)) p.allowed

abbrev pub same_stamp : Option ℕ → Option ℕ → Bool
same_stamp none none = true
same_stamp none (some b) = false
same_stamp (some a) none = false
same_stamp (some a) (some b) = nat_beq a b

-- the callbacks, each called with the newly revoked DIDs if there are any
unfoldable pub notify : List String → TrustPolicy → TrustPolicy
notify [] p = p
notify (d ∷ newly) p = record p { notices = p.notices ++ (d ∷ newly) ∷ [] }

abbrev pub fresh_policy : List String → Option MasterSet → Option RevocationStore → TrustPolicy
fresh_policy allowed masters store = record {
  allowed = allowed;
  masters = masters;
  store = store;
  revoked = [];
  records = [];
  notices = [];
  version = 0;
  store_stamp = none;
}

module _ (c : Crypto) where
  -- a record that is not yet held, under the lock
  unfoldable pub admit : TrustPolicy → Json → Bool → RevocationRecord → TrustPolicy × List String
  admit p o persist r =
      let newly = select (λ d. not (contains d p.revoked)) r.revoked in
      (
        record p {
          records = put r.record_id r p.records;
          revoked = p.revoked ++ newly;
          store = if persist then Option.map (append c o) p.store else p.store;
          version = elim newly [ [] ↦ p.version | _ ∷ _ ↦ p.version + 1 ];
        },
        newly,
      )

  -- a verified record: a record id already held is a no-op
  unfoldable pub merge_record :
      TrustPolicy → Json → Bool → Option RevocationRecord → TrustPolicy × List String
  merge_record p o persist none = (p, [])
  merge_record p o persist (some r) = elim (lookup r.record_id p.records) [
    | some held ↦ (p, [])
    | none ↦ admit p o persist r
  ]

  unfoldable pub verified_by : Option MasterSet → Json → Option RevocationRecord
  verified_by none o = none
  verified_by (some masters) o = verify_revocation c masters [] o

  -- `_merge`
  unfoldable pub merge : TrustPolicy → Json → Bool → TrustPolicy × List String
  unfolding merge_record admit
  merge p o persist = merge_record p o persist (verified_by p.masters o)

  -- `apply`
  unfoldable pub apply : TrustPolicy → Json → TrustPolicy × List String
  unfolding notify
  apply p o = let (p', newly) = merge p o true in (notify newly p', newly)

  -- the loop over the loaded objects, in the constructor and in `refresh`
  unfoldable pub merge_all : TrustPolicy → List Json → TrustPolicy × List String
  merge_all p [] = (p, [])
  merge_all p (o ∷ objects) =
      let (p', newly) = merge p o false in
      let (p'', more) = merge_all p' objects in (p'', newly ++ more)

  -- `refresh`
  unfoldable pub refresh : TrustPolicy → TrustPolicy × List String
  unfolding notify
  refresh p = elim p.store [
    | none ↦ (p, [])
    | some lines ↦
        if same_stamp (stamp lines) p.store_stamp
        then (p, [])
        else let (p', newly) = merge_all (record p { store_stamp = stamp lines }) (load c lines) in
          (notify newly p', newly)
  ]

  -- the constructor, over the store as it is found
  unfoldable pub open_policy : List String → Option MasterSet → Option RevocationStore → TrustPolicy
  open_policy allowed masters none = fresh_policy allowed masters none
  open_policy allowed masters (some lines) =
      (merge_all (record (fresh_policy allowed masters (some lines)) { store_stamp = stamp lines })
        (load c lines)).0

-- `halt_on_self_revocation`: whether to halt, and how many stop actions run
unfoldable pub halt_on_self_revocation : List String → String → ℕ → Bool × ℕ
halt_on_self_revocation newly self_did actions =
    if not (contains self_did newly) then (false, 0) else (true, actions)
