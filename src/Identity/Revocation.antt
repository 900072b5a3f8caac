-- ===== src/Identity/Revocation.antt =====
-- Master-signed revocation: identity/secdogie_identity/revocation.py.
pub mod Quorum
use secdogie.Prelude.{
  leb, if◌then◌else◌, length, all, nat_eq, string_eq, contains, sorted_set, ◌>>=◌, ◌>>◌, guard, ℕ,
  String, Bool, true, false, not, ◌&&◌, ◌||◌, Option, none, some, List, [], ◌∷◌, ◌++◌,
}
use secdogie.Identity.Json.{
  Json, num, str, arr, obj, Fields, end, field, member, as_str, as_num, as_list, texts, str_items,
  json_items,
}
use secdogie.Identity.Signing.{Crypto}

abbrev pub revocation_type : String
revocation_type = "secdogie/revocation/v1"

abbrev pub max_revoked : ℕ
max_revoked = 64

pub record MasterSet : Type 0 where
  pub dids : List String
  pub threshold : ℕ

-- the loop of the constructor: every DID is well-formed and none is given twice
distinct_dids : Crypto → List String → List String → Option (List String)
distinct_dids c seen [] = some seen
distinct_dids c seen (did ∷ rest) = do
  guard (c.is_did did)
  guard (not (contains did seen))
  distinct_dids c (seen ++ did ∷ []) rest

-- `MasterSet(dids, threshold)`; `none` where it raises
unfoldable pub make_master_set : Crypto → List String → ℕ → Option MasterSet
unfolding distinct_dids
make_master_set c dids threshold = do
  seen ← distinct_dids c [] dids
  guard (leb 1 (length seen))
  guard (leb 1 threshold && leb threshold (length seen))
  some (record { dids = seen; threshold = threshold })

pub record RevocationRecord : Type 0 where
  pub record_id : String
  pub revoked : List String
  pub reason : String
  pub issued_at : ℕ
  pub signers : List String

-- `_body`
unfoldable pub revocation_body : List String → String → ℕ → Fields
revocation_body revoked reason issued_at = field "type" (str revocation_type) (
    field "revoked" (arr (str_items (sorted_set revoked)))
      (field "reason" (str reason) (field "issued_at" (num issued_at) end)))

-- {**body, "record_id": record_id, "sigs": sigs}
unfoldable pub signed_record : List String → String → ℕ → String → List Json → Fields
signed_record revoked reason issued_at record_id sigs = field "type" (str revocation_type) (
    field "revoked" (arr (str_items revoked)) (
      field "reason" (str reason) (
        field "issued_at" (num issued_at)
          (field "record_id" (str record_id) (field "sigs" (arr (json_items sigs)) end)))))

abbrev pub same_texts : List String → List String → Bool
same_texts [] [] = true
same_texts [] (y ∷ ys) = false
same_texts (x ∷ xs) [] = false
same_texts (x ∷ xs) (y ∷ ys) = string_eq.beq x y && same_texts xs ys

-- the signer of an entry of `sigs` whose signature over the body is valid
unfoldable pub entry_signer : Crypto → Fields → Json → Option String
entry_signer c body (obj fs) = do
  signer ← as_str (member "signer" fs)
  sig ← as_str (member "sig" fs)
  guard (c.verifies signer body sig)
  some signer
entry_signer c body _ = none

-- only distinct, non-excluded master signatures count
unfoldable pub add_signer : MasterSet → List String → List String → Option String → List String
add_signer masters exclude good none = good
add_signer masters exclude good (some signer) =
    if contains signer good || contains signer exclude || not (contains signer masters.dids)
    then good
    else good ++ signer ∷ []

unfoldable pub count_entry :
    Crypto → MasterSet → List String → Fields → List String → Json → List String
unfolding add_signer
count_entry c masters exclude body good entry =
    add_signer masters exclude good (entry_signer c body entry)

-- the loop over `sigs`
unfoldable pub good_signers :
    Crypto → MasterSet → List String → Fields → List String → List Json → List String
good_signers c masters exclude body good [] = good
good_signers c masters exclude body good (entry ∷ entries) =
    good_signers c masters exclude body (count_entry c masters exclude body good entry) entries

unfoldable pub verify_revocation : Crypto → MasterSet → List String → Json → Option RevocationRecord
verify_revocation c masters exclude (obj fs) = do
  kind ← as_str (member "type" fs)
  guard (string_eq.beq kind revocation_type)
  listed ← as_list (member "revoked" fs)
  guard (leb 1 (length listed) && leb (length listed) max_revoked)
  revoked ← texts listed
  guard (same_texts (sorted_set revoked) revoked)
  guard (all c.is_did revoked)
  reason ← as_str (member "reason" fs)
  issued_at ← as_num (member "issued_at" fs)
  sigs ← as_list (member "sigs" fs)
  let body = revocation_body revoked reason issued_at
  record_id ← as_str (member "record_id" fs)
  guard (string_eq.beq record_id (c.digest body))
  let good = good_signers c masters exclude body [] sigs
  guard (leb masters.threshold (length good))
  some (record {
    record_id = c.digest body;
    revoked = revoked;
    reason = reason;
    issued_at = issued_at;
    signers = good;
  })
verify_revocation c masters exclude _ = none
