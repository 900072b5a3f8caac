-- ===== src/Transport/Membership.antt =====
-- The membership gossip: transport/secdogie_transport/membership.py. A view is a dict from a DID to
-- the newest record of that DID that the node has verified.
pub mod Freshness
pub mod Gossip
pub mod Authentic
pub mod Errors
use secdogie.Prelude.{
  ltb, leb, nat_beq, if◌then◌else◌, is_none, take, select, string_eq, nat_eq, Dict, lookup, put,
  sorted_set, ◌>>=◌, ◌>>◌, guard, ℕ, ◌+◌, String, Bool, true, false, not, ◌&&◌, ◌||◌, Option, none,
  some, List, [], ◌∷◌,
}
use secdogie.Identity.Json.{Json, bool, num, str, arr, obj, Fields, elements, member, as_str}
use secdogie.Identity.Signing.{Crypto, verify_payload}
use secdogie.Transport.Endpoint.{Endpoint, make_endpoint, add_endpoint}

-- what Python's `float` or `int` makes of a JSON value: a number, or a ValueError or TypeError, or an
-- OverflowError, as of `float` over an integer past the largest float and of `int` over infinity
pub data Converted : Type 0 where
  number : ℕ → Converted
  unreadable overflow : Converted

abbrev pub number_of : Converted → Option ℕ
number_of (number n) = some n
number_of unreadable = none
number_of overflow = none

abbrev pub is_overflow : Converted → Bool
is_overflow (number n) = false
is_overflow unreadable = false
is_overflow overflow = true

-- Python's `float`, `int` and `str` of a JSON value. Times are natural numbers here, and a negative port is 0, which is refused like it.
pub record Conversions : Type 0 where
  pub to_float : Json → Converted
  pub to_int : Json → Converted
  pub to_str : Json → String

abbrev pub record_type : String
record_type = "secdogie/membership/record/v1"

abbrev pub is_role : String → Bool
is_role s = string_eq.beq s "relay" || string_eq.beq s "rendezvous"

abbrev pub max_advertised_relays : ℕ
max_advertised_relays = 4

abbrev pub default_skew : ℕ
default_skew = 300

pub record PeerRecord : Type 0 where
  pub did : String
  pub last_seen : ℕ
  pub endpoints : List Endpoint
  pub signed : Json
  pub roles : List String
  pub relays : List String

-- list(dict.fromkeys(xs))
unfoldable pub unique : List String → List String
unique [] = []
unique (x ∷ xs) = x ∷ select (λ y. not (string_eq.beq x y)) (unique xs)

-- `_strings`
unfoldable pub only_strings : List Json → List String
only_strings [] = []
only_strings (str s ∷ xs) = s ∷ only_strings xs
only_strings (_ ∷ xs) = only_strings xs

unfoldable pub strings : Option Json → List String
unfolding only_strings
strings (some (arr xs)) = only_strings (elements xs)
strings _ = []

module _ (v : Conversions) where
  -- one item of `endpoints`; `none` where it is passed over
  unfoldable pub read_endpoint : Json → Option Endpoint
  read_endpoint (obj fs) = do
    kind ← member "kind" fs
    host ← member "host" fs
    port ← member "port" fs
    n ← number_of (v.to_int port)
    make_endpoint (v.to_str kind) (v.to_str host) n
  read_endpoint _ = none

  -- an item that has a kind and a host, and whose port overflows: the OverflowError is not caught
  unfoldable pub endpoint_overflows : Json → Bool
  endpoint_overflows (obj fs) =
      not (is_none (member "kind" fs))
      && not (is_none (member "host" fs))
      && elim (member "port" fs) [ none ↦ false | some port ↦ is_overflow (v.to_int port) ]
  endpoint_overflows _ = false

  abbrev pub with_endpoint : Option Endpoint → List Endpoint → List Endpoint
  with_endpoint none es = es
  with_endpoint (some e) es = add_endpoint e es

  -- the items one after another; `none` where one raises
  unfoldable pub read_endpoints : List Endpoint → List Json → Option (List Endpoint)
  unfolding read_endpoint endpoint_overflows
  read_endpoints es [] = some es
  read_endpoints es (x ∷ xs) =
      let rest = read_endpoints (with_endpoint (read_endpoint x) es) xs in
      if endpoint_overflows x then none else rest

  -- the loop over `obj.get("endpoints") or []`; it raises over `true`, over a number that is not 0, and
  -- where an item does
  unfoldable pub endpoints_of : Option Json → Option (List Endpoint)
  unfolding read_endpoints
  endpoints_of (some (arr xs)) = read_endpoints [] (elements xs)
  endpoints_of (some (bool true)) = none
  endpoints_of (some (num n)) = if nat_beq n 0 then some [] else none
  endpoints_of _ = some []

-- what `verify_record` does with an object
pub data Verdict : Type 0 where
  raises : Verdict
  refused : Verdict
  accepted : PeerRecord → Verdict

unfoldable pub too_new : Option ℕ → ℕ → Bool
too_new none last_seen = false
too_new (some now) last_seen = ltb (now + default_skew) last_seen

abbrev pub is_true : Option Bool → Bool
is_true none = false
is_true (some b) = b

module _ (c : Crypto) (v : Conversions) where
  -- the signer of a record that it signed and stands in, and that is allowed
  unfoldable pub signer_of : (String → Bool) → Fields → Option String
  unfolding verify_payload
  signer_of trusted fs = do
    kind ← as_str (member "type" fs)
    guard (string_eq.beq kind record_type)
    let (ok, signed_by) = verify_payload c trusted (obj fs)
    guard ok
    signer ← signed_by
    did ← as_str (member "did" fs)
    guard (string_eq.beq did signer)
    some signer

  -- and with its last_seen
  unfoldable pub authentic_fields : (String → Bool) → Fields → Option (String × ℕ)
  unfolding signer_of
  authentic_fields trusted fs = do
    signer ← signer_of trusted fs
    stamp ← member "last_seen" fs
    last_seen ← number_of (v.to_float stamp)
    some (signer, last_seen)

  -- the last_seen of such a record overflows: the OverflowError is not caught
  unfoldable pub stamp_overflows : (String → Bool) → Fields → Bool
  unfolding signer_of
  stamp_overflows trusted fs = is_true (do
    signer ← signer_of trusted fs
    stamp ← member "last_seen" fs
    some (is_overflow (v.to_float stamp)))

  unfoldable pub finish_record : Fields → String → ℕ → Option (List Endpoint) → Verdict
  unfolding strings unique
  finish_record fs signer last_seen none = raises
  finish_record fs signer last_seen (some endpoints) = accepted (record {
    did = signer;
    last_seen = last_seen;
    endpoints = endpoints;
    signed = obj fs;
    roles = sorted_set (select is_role (strings (member "roles" fs)));
    relays =
        take max_advertised_relays
          (unique (select (λ r. not (string_eq.beq r signer)) (strings (member "relays" fs))));
  })

  -- `overflows` says whether the last_seen of an authentic record does
  unfoldable pub check_record : Option ℕ → Fields → Bool → Option (String × ℕ) → Verdict
  unfolding too_new finish_record endpoints_of
  check_record now fs overflows none = if overflows then raises else refused
  check_record now fs overflows (some (signer, last_seen)) =
      if too_new now last_seen
      then refused
      else finish_record fs signer last_seen (endpoints_of v (member "endpoints" fs))

  -- `verify_record`, with an allowlist given by its `contains`
  unfoldable pub verify_record : (String → Bool) → Option ℕ → Json → Verdict
  unfolding authentic_fields stamp_overflows check_record
  verify_record trusted now (obj fs) =
      check_record now fs (stamp_overflows trusted fs) (authentic_fields trusted fs)
  verify_record trusted now _ = refused

-- `MembershipView`
pub record View : Type 0 where
  pub trusted : String → Bool
  pub records : Dict String PeerRecord

abbrev pub empty_view : (String → Bool) → View
empty_view trusted = record { trusted = trusted; records = [] }

-- cur is not None and rec.last_seen <= cur.last_seen
unfoldable pub is_stale : PeerRecord → Option PeerRecord → Bool
is_stale r none = false
is_stale r (some old) = leb r.last_seen old.last_seen

-- the rest of `merge_record` for a record that verified
unfoldable pub file_record : View → PeerRecord → View × Bool
unfolding is_stale
file_record w r =
    if is_stale r (lookup r.did w.records)
    then (w, false)
    else (record w { records = put r.did r w.records }, true)

unfoldable pub merge_verdict : View → Verdict → View × Option Bool
unfolding file_record
merge_verdict w raises = (w, none)
merge_verdict w refused = (w, some false)
merge_verdict w (accepted r) = let (w', changed) = file_record w r in (w', some changed)

-- the have-summary: what is known, and how fresh
unfoldable pub digest_of : Dict String PeerRecord → Dict String ℕ
digest_of [] = []
digest_of ((did, r) ∷ rest) = (did, r.last_seen) ∷ digest_of rest

-- whether a record is worth sending to a peer that knows that much of its DID
unfoldable pub is_news : PeerRecord → Option ℕ → Bool
is_news r none = true
is_news r (some theirs) = ltb theirs r.last_seen

-- the records that a peer with a digest lacks or has staler
unfoldable pub records_for : Dict String PeerRecord → Dict String ℕ → List Json
unfolding is_news
records_for [] theirs = []
records_for ((did, r) ∷ rest) theirs =
    let more = records_for rest theirs in
    if is_news r (lookup did theirs) then r.signed ∷ more else more

-- the rest of a batch after one merge; a record that raises ends it
unfoldable pub counted : View × Option Bool → View × Option ℕ → View × Option ℕ
counted (w, none) after = (w, none)
counted (w, some changed) (w', none) = (w', none)
counted (w, some changed) (w', some n) = (w', some (if changed then n + 1 else n))

module _ (c : Crypto) (v : Conversions) (now : Option ℕ) where
  -- `merge_record`: the view, and whether it changed; `none` where it raises
  unfoldable pub merge_record : View → Json → View × Option Bool
  unfolding verify_record merge_verdict
  merge_record w o = merge_verdict w (verify_record c v w.trusted now o)

  -- `apply_records`: the view, and how many changed it
  unfoldable pub apply_records : View → List Json → View × Option ℕ
  unfolding merge_record counted
  apply_records w [] = (w, some 0)
  apply_records w (o ∷ rest) =
      let merged = merge_record w o in counted merged (apply_records merged.0 rest)

  -- the second half of a round, unless the first raised
  unfoldable pub second_half : View → View → List Json → Option ℕ → (View × View) × Option (ℕ × ℕ)
  unfolding apply_records
  second_half a b to_b none = ((a, b), none)
  second_half a b to_b (some n) =
      let (b', m) = apply_records b to_b in ((a, b'), m >>= λ k. some (n, k))

  -- `gossip_round`
  unfoldable pub gossip_round : View → View → (View × View) × Option (ℕ × ℕ)
  unfolding apply_records second_half records_for digest_of
  gossip_round a b =
      let to_a = records_for b.records (digest_of a.records) in
      let to_b = records_for a.records (digest_of b.records) in
      let (a', n) = apply_records a to_a in second_half a' b to_b n
