-- ===== src/Citadel/Authz.antt =====
-- Gate 2: operator-signed authorizations, citadel/secdogie_citadel/authz.py, and the planned action
-- of citadel/secdogie_citadel/action_gate.py that they bind to.
pub mod Binding
use secdogie.Prelude.{
  ltb, leb, if◌then◌else◌, nat_eq, string_eq, ℕ, String, Bool, true, false, not, Option, none, some,
  List,
}
use secdogie.Identity.Json.{Json, bool, str, obj, Fields, end, field, member, as_str, as_num}
use secdogie.Identity.Signing.{Crypto, verify_payload}

abbrev pub authorization_type : String
authorization_type = "secdogie/action-authorization/v1"

pub record IntentContract : Type 0 where
  pub purpose : String
  pub rollback : String
  pub irreversible : Bool
  pub requires_present : List String

-- `estimated_cost` counts in the smallest unit of cost that the program uses
pub record PlannedAction : Type 0 where
  pub kind : String
  pub target_id : String
  pub target_role : String
  pub target_name : String
  pub text : String
  pub high_risk : Bool
  pub generation : ℕ
  pub expected_observation : String
  pub estimated_cost : ℕ
  pub intent : IntentContract

-- the body that `action_hash` hashes: the fields that define what the action does
unfoldable pub authorized_fields : PlannedAction → Fields
authorized_fields a = field "kind" (str a.kind) (
    field "target_id" (str a.target_id) (
      field "target_role" (str a.target_role) (
        field "target_name" (str a.target_name)
          (field "text" (str a.text) (field "high_risk" (bool a.high_risk) end)))))

unfoldable pub action_hash : Crypto → PlannedAction → String
unfolding authorized_fields
action_hash c a = c.digest (authorized_fields a)

pub data Refusal : Type 0 where
  not_an_object wrong_type no_operators untrusted_operator bad_signature : Refusal
  other_action other_node bad_window not_yet_valid expired : Refusal

pub data AuthzResult : Type 0 where
  authorized : AuthzResult
  refused : Refusal → AuthzResult

-- the validity window at `now`
unfoldable pub check_window : Option ℕ → Option ℕ → ℕ → AuthzResult
check_window (some valid_from) (some expires_at) now =
    if ltb now valid_from
    then refused not_yet_valid
    else if leb expires_at now
    then refused expired
    else authorized
check_window _ _ now = refused bad_window

abbrev pub holds_text : String → Option String → Bool
holds_text s none = false
holds_text s (some t) = string_eq.beq t s

-- the checks behind the signature
unfoldable pub check_binding : Crypto → Fields → PlannedAction → String → ℕ → AuthzResult
check_binding c token a subject now =
    if not (holds_text (action_hash c a) (as_str (member "action_hash" token)))
    then refused other_action
    else if not (holds_text subject (as_str (member "subject" token)))
    then refused other_node
    else check_window (as_num (member "valid_from" token)) (as_num (member "expires_at" token)) now

abbrev pub check_signer : Bool × Option String → AuthzResult → AuthzResult
check_signer (true, signer) rest = rest
check_signer (false, some signer) rest = refused untrusted_operator
check_signer (false, none) rest = refused bad_signature

-- `verify_authorization` of a token, or of `none` where there is none
unfoldable pub verify_authorization :
    Crypto → Option Json → PlannedAction → Option (String → Bool) → String → ℕ → AuthzResult
verify_authorization c (some (obj token)) a operators subject now =
    if not (holds_text authorization_type (as_str (member "type" token)))
    then refused wrong_type
    else elim operators [
      | none ↦ refused no_operators
      | some trusted ↦
          check_signer (verify_payload c trusted (obj token)) (check_binding c token a subject now)
    ]
verify_authorization c _ a operators subject now = refused not_an_object
