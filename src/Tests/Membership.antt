-- ===== src/Tests/Membership.antt =====
-- The membership gossip between two nodes, each with its own record.
use secdogie.Identity.Json.{
  Json, num, str, arr, obj, nil, cons, Fields, end, field, member, without, as_str, as_num,
}
use secdogie.Identity.Signing.{verify_envelope, verify_payload}
use secdogie.Prelude.{
  string_eq, nat_eq, lookup, put, sorted_set, ℕ, max, String, ◌≡◌, refl, subst, Bool, true, ◌||◌,
  Option, none, some, [], ◌∷◌, arith,
}
use secdogie.Tests.Fixtures.{or_empty, toy}
use secdogie.Transport.Endpoint.{kind_priority, make_endpoint, add_endpoint}
use secdogie.Transport.Membership.{
  Converted, number, unreadable, Conversions, record_type, PeerRecord, unique, only_strings,
  strings, read_endpoint, endpoint_overflows, read_endpoints, endpoints_of, accepted, too_new,
  signer_of, authentic_fields, stamp_overflows, finish_record, check_record, verify_record, View,
  empty_view, is_stale, file_record, merge_verdict, digest_of, counted, merge_record, apply_records,
  gossip_round,
}
use secdogie.Transport.Membership.Authentic.{run, records_are_authentic}
use secdogie.Transport.Membership.Errors.{bad_endpoints_end_the_batch}
use secdogie.Transport.Membership.Freshness.{Filed, freshness}
use secdogie.Transport.Membership.Gossip.{Takes, gossip_converges}

abbrev pub converted : Option ℕ → Converted
converted none = unreadable
converted (some n) = number n

abbrev pub plain : Conversions
plain = record {
  to_float = λ j. converted (as_num (some j));
  to_int = λ j. converted (as_num (some j));
  to_str = λ j. or_empty (as_str (some j));
}

abbrev pub peers : String → Bool
peers s = string_eq.beq s "n1" || string_eq.beq s "n2"

abbrev pub fields_of : String → ℕ → Json → Fields
fields_of did last_seen endpoints = field "type" (str record_type) (
    field "did" (str did) (
      field "last_seen" (num last_seen)
        (field "endpoints" endpoints (field "signer" (str did) (field "sig" (str "ok") end)))))

abbrev pub home : Json
home = arr (
    cons (obj (field "kind" (str "public") (field "host" (str "h") (field "port" (num 9) end))))
      nil)

abbrev pub record_of : String → ℕ → PeerRecord
record_of did last_seen = record {
  did = did;
  last_seen = last_seen;
  endpoints = record { kind = "public"; host = "h"; port = 9; priority = 0 } ∷ [];
  signed = obj (fields_of did last_seen home);
  roles = [];
  relays = [];
}

abbrev view_of : String → ℕ → View
view_of did last_seen = record { trusted = peers; records = (did, record_of did last_seen) ∷ [] }

one_record : (did : String) (last_seen : ℕ) → Filed ((did, record_of did last_seen) ∷ [])
unfolding lookup
one_record did last_seen = record {
  distinct = (refl, tt);
  own = λ k r e. ground (arith, e, string_eq.beq_iff did k);
}

one_verified :
    (did : String) (last_seen : ℕ)
    → verify_record toy plain peers (some 10) (obj (fields_of did last_seen home))
      ≡ accepted (record_of did last_seen)
    → Takes toy plain (some 10) peers ((did, record_of did last_seen) ∷ [])
unfolding lookup
one_verified did last_seen ok k r e =
    let same : record_of did last_seen ≡ r = ground (arith, e) in
    subst (λ q. verify_record toy plain peers (some 10) q.signed ≡ accepted q) same ok

n1_verifies :
    verify_record toy plain peers (some 10) (obj (fields_of "n1" 5 home))
    ≡ accepted (record_of "n1" 5)
unfolding verify_record stamp_overflows signer_of endpoint_overflows authentic_fields verify_payload
    verify_envelope member without check_record too_new finish_record endpoints_of read_endpoints
    read_endpoint make_endpoint kind_priority add_endpoint strings unique sorted_set only_strings
n1_verifies = refl

n2_verifies :
    verify_record toy plain peers (some 10) (obj (fields_of "n2" 7 home))
    ≡ accepted (record_of "n2" 7)
unfolding verify_record stamp_overflows signer_of endpoint_overflows authentic_fields verify_payload
    verify_envelope member without check_record too_new finish_record endpoints_of read_endpoints
    read_endpoint make_endpoint kind_priority add_endpoint strings unique sorted_set only_strings
n2_verifies = refl

gossip_converges_example :
    let (a, b) = (gossip_round toy plain (some 10) (view_of "n1" 5) (view_of "n2" 7)).0 in
    ((did : String)
      → (lookup did (digest_of a.records) ≡ lookup did (digest_of b.records))
        × (freshness did a.records
            ≡ max
                (freshness did (view_of "n1" 5).records)
                (freshness did (view_of "n2" 7).records)))
    × (gossip_round toy plain (some 10) a b ≡ ((a, b), some (0, 0)))
gossip_converges_example =
    gossip_converges toy plain (some 10) (view_of "n1" 5) (view_of "n2" 7) (one_record "n1" 5)
      (one_record "n2" 7) (one_verified "n2" 7 n2_verifies) (one_verified "n1" 5 n1_verifies)

records_are_authentic_example :
    ((record_of "n1" 5).did ≡ "n1")
    × (peers "n1" ≡ true)
    × (verify_record toy plain peers none (obj (fields_of "n1" 5 home))
        ≡ accepted (record_of "n1" 5))
unfolding verify_record stamp_overflows signer_of endpoint_overflows authentic_fields verify_payload
    verify_envelope member without check_record too_new finish_record endpoints_of read_endpoints
    read_endpoint make_endpoint kind_priority add_endpoint strings unique sorted_set only_strings
    run apply_records merge_record merge_verdict counted file_record is_stale lookup put
records_are_authentic_example =
    records_are_authentic toy plain peers ((some 9, obj (fields_of "n1" 5 home) ∷ []) ∷ []) "n1"
      (record_of "n1" 5) refl

bad_endpoints_end_the_batch_example :
    apply_records toy plain (some 9) (empty_view peers) (
      obj (fields_of "n1" 5 home)
      ∷ obj (fields_of "n2" 6 (num 1))
      ∷ obj (fields_of "n2" 6 home)
      ∷ [])
    ≡ (
      (apply_records toy plain (some 9) (empty_view peers) (obj (fields_of "n1" 5 home) ∷ [])).0,
      none,
    )
unfolding verify_record stamp_overflows signer_of endpoint_overflows authentic_fields verify_payload
    verify_envelope member without check_record too_new finish_record endpoints_of read_endpoints
    read_endpoint make_endpoint kind_priority add_endpoint strings unique sorted_set only_strings
    run apply_records merge_record merge_verdict counted file_record is_stale lookup put
bad_endpoints_end_the_batch_example =
    bad_endpoints_end_the_batch toy plain (some 9) (obj (fields_of "n1" 5 home) ∷ [])
      (obj (fields_of "n2" 6 home) ∷ []) (empty_view peers) (fields_of "n2" 6 (num 1)) "n2" 6 0 1
      refl refl refl refl
