-- ===== src/Tests/Fixtures.antt =====
-- The data that the tests share: a toy signature scheme, in which "ok" is everybody's signature
-- and the digest of an object is its reason, and the signed objects built with it.
use secdogie.Prelude.{
  nat_beq, if◌then◌else◌, string_eq, nat_eq, nonempty, ℕ, String, Bool, Option, none, some, List,
  [], ◌∷◌,
}
use secdogie.Identity.Json.{Json, str, obj, Fields, end, field, member, as_str}
use secdogie.Identity.Signing.{Crypto}
use secdogie.Identity.Revocation.{MasterSet, RevocationRecord, signed_record}

abbrev pub or_empty : Option String → String
or_empty none = ""
or_empty (some s) = s

-- one entry of `sigs`
abbrev pub entry : String → String → Json
entry signer sig = obj (field "signer" (str signer) (field "sig" (str sig) end))

abbrev pub two_of_three : MasterSet
two_of_three = record { dids = "m1" ∷ "m2" ∷ "m3" ∷ []; threshold = 2 }

abbrev pub two_entries : List Json
two_entries = entry "m1" "ok" ∷ entry "m3" "ok" ∷ []

-- "n2" is revoked under the record id "lost", "n3" under "sold"
abbrev pub lost : Fields
lost = signed_record ("n2" ∷ []) "lost" 5 "lost" two_entries

abbrev pub sold : Fields
sold = signed_record ("n3" ∷ []) "sold" 6 "sold" two_entries

-- the toy JSON text: {2} for what was sold and {1} for any other value
abbrev pub text_of : Json → List ℕ
text_of (obj fs) =
    123
    ∷ (if string_eq.beq (or_empty (as_str (member "reason" fs))) "sold" then 50 else 49)
    ∷ 125
    ∷ []
text_of _ = 123 ∷ 49 ∷ 125 ∷ []

abbrev pub value_of : List ℕ → Option Json
value_of (a ∷ b ∷ _) =
    if nat_beq b 49 then some (obj lost) else if nat_beq b 50 then some (obj sold) else none
value_of _ = none

abbrev pub toy : Crypto
toy = record {
  is_did = λ s. nonempty s;
  verifies = λ signer payload sig. string_eq.beq sig "ok";
  digest = λ fs. or_empty (as_str (member "reason" fs));
  dumps = text_of;
  loads = value_of;
}

abbrev pub lost_record : RevocationRecord
lost_record = record {
  record_id = "lost";
  revoked = "n2" ∷ [];
  reason = "lost";
  issued_at = 5;
  signers = "m1" ∷ "m3" ∷ [];
}

abbrev pub sold_record : RevocationRecord
sold_record = record {
  record_id = "sold";
  revoked = "n3" ∷ [];
  reason = "sold";
  issued_at = 6;
  signers = "m1" ∷ "m3" ∷ [];
}

-- the DIDs that a record id stands for
abbrev pub named : String → List String
named id = if string_eq.beq id "lost" then "n2" ∷ [] else "n3" ∷ []

abbrev pub is_op : String → Bool
is_op s = string_eq.beq s "op"
