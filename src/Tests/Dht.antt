-- ===== src/Tests/Dht.antt =====
-- A small routing table, and a lookup that asks one peer for another.
use secdogie.Identity.Json.{Json, obj, member, without}
use secdogie.Identity.Signing.{verify_envelope, verify_payload}
use secdogie.Prelude.{
  if◌then◌else◌, is_none, length, All, contains, string_eq, nat_eq, lookup, get_or, put, Unrepeated,
  sorted_set, insert_by, sort_by, ℕ, ◌≤◌, String, ◌≡◌, refl, ◌≢◌, ◌↔◌, true, false, none, some,
  List, [], ◌∷◌, ◌++◌, arith,
}
use secdogie.Tests.Fixtures.{toy}
use secdogie.Tests.Membership.{plain, peers, fields_of, home, record_of}
use secdogie.Transport.Dht.{xor, xor_distance, Table, empty_table, bucket_for}
use secdogie.Transport.Dht.Buckets.{bucket_at}
use secdogie.Transport.Dht.History.{TableEvent, added, removed, run, table_is_consistent}
use secdogie.Transport.Dht.Lookup.{
  Search, seeded, absorb_verdict, absorb, ask_each, candidates, rounds, opening, search, find_peer,
}
use secdogie.Transport.Dht.Lookup.Asked.{lookup_is_bounded}
use secdogie.Transport.Dht.Lookup.Found.{found_peer_is_authentic}
use secdogie.Transport.Endpoint.{kind_priority, make_endpoint, add_endpoint}
use secdogie.Transport.Membership.{
  unique, only_strings, strings, read_endpoint, endpoint_overflows, read_endpoints, endpoints_of,
  raises, accepted, too_new, signer_of, authentic_fields, stamp_overflows, finish_record,
  check_record, verify_record,
}

-- toy ids: 5 and 6 fall in one bucket of the node with id 1
abbrev id_of : String → ℕ
id_of s = if string_eq.beq s "n1" then 5 else if string_eq.beq s "n2" then 6 else 1

abbrev events : List TableEvent
events = added (record_of "n1" 5) ∷ added (record_of "n2" 7) ∷ removed "n1" ∷ []

abbrev small_table : Table
small_table = run id_of (empty_table "me" 1) events

table_is_consistent_example :
    ((i : ℕ) → (length (bucket_at i small_table) ≤ 1) × Unrepeated (bucket_at i small_table))
    × ((i : ℕ) (did : String)
        → (contains did (bucket_at i small_table) ≡ true) ↔ (
            (bucket_for id_of small_table did ≡ i)
            × (is_none (lookup did small_table.records) ≡ false)))
    × (lookup "me" small_table.records ≡ none)
table_is_consistent_example = table_is_consistent id_of "me" 1 events (omega arith)

-- everybody answers with the record of "n2"
abbrev answers : String → ℕ → List Json
answers did target = obj (fields_of "n2" 7 home) ∷ []

n2_accepted :
    verify_record toy plain peers none (obj (fields_of "n2" 7 home)) ≡ accepted (record_of "n2" 7)
unfolding verify_record stamp_overflows signer_of endpoint_overflows authentic_fields verify_payload
    verify_envelope member without check_record too_new finish_record endpoints_of read_endpoints
    read_endpoint make_endpoint kind_priority add_endpoint strings unique sorted_set only_strings
n2_accepted = refl

n2_found :
    find_peer toy plain id_of answers peers none "n2" ("n1" ∷ []) 1 ≡ some (some (record_of "n2" 7))
unfolding find_peer search opening seeded rounds ask_each absorb absorb_verdict candidates lookup
    put get_or sort_by insert_by xor_distance xor verify_record stamp_overflows signer_of
    endpoint_overflows authentic_fields verify_payload verify_envelope member without check_record
    too_new finish_record endpoints_of read_endpoints read_endpoint make_endpoint kind_priority
    add_endpoint strings unique sorted_set only_strings
n2_found = refl

found_peer_is_authentic_example :
    ((record_of "n2" 7).did ≡ "n2")
    × (peers "n2" ≡ true)
    × (verify_record toy plain peers none (obj (fields_of "n2" 7 home))
        ≡ accepted (record_of "n2" 7))
found_peer_is_authentic_example =
    found_peer_is_authentic toy plain id_of answers peers none "n2" ("n1" ∷ []) 1 (record_of "n2" 7)
      n2_found

answers_calm :
    (did : String) → All (λ o. verify_record toy plain peers none o ≢ raises) (answers did 6)
answers_calm did = (λ e. ground (arith, e, n2_accepted), tt)

lookup_is_bounded_example :
    (s : Search) × (search toy plain id_of answers peers none 6 ("n1" ∷ []) 1 256 ≡ some s)
    × Unrepeated s.queried
    × (length s.queried ≤ 256)
    × ((t : Search) → length (candidates toy plain id_of answers peers none 6 1 t) ≤ 1)
    × ((t t' : Search) (dids : List String)
        → ask_each toy plain id_of answers peers none 6 t dids ≡ some t'
        → t'.queried ≡ t.queried ++ dids)
lookup_is_bounded_example =
    lookup_is_bounded toy plain id_of answers peers none 6 ("n1" ∷ []) 1 256 answers_calm
