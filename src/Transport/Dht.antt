-- ===== src/Transport/Dht.antt =====
-- The routing table and the lookups of the DHT: transport/secdogie_transport/dht.py. `node_id`, the
-- SHA-256 of a DID as a 256-bit number, is a parameter.
pub mod Place
pub mod Buckets
pub mod Removal
pub mod History
pub mod Lookup
use secdogie.Prelude.{
  ltb, leb, nat_beq, if◌then◌else◌, is_none, length, take, contains, string_eq, nat_eq, Dict, keys,
  lookup, get_or, put, remove, erase, sort_by, ℕ, zero, suc, ◌+◌, ◌*◌, ◌/◌, ◌%◌, String, Bool,
  false, ◌||◌, Option, none, some, List, [], ◌∷◌, ◌++◌,
}
use secdogie.Transport.Membership.{PeerRecord}

abbrev pub id_bits : ℕ
id_bits = 256

-- a ^ b, on their last `w` bits
unfoldable pub xor : ℕ → ℕ → ℕ → ℕ
xor zero a b = 0
xor (suc w) a b = 2 * xor w (a / 2) (b / 2) + (a % 2 + b % 2) % 2

-- n.bit_length(), of a number below 2 ^ w
unfoldable pub bit_length : ℕ → ℕ → ℕ
bit_length zero n = 0
bit_length (suc w) n = let rest = bit_length w (n / 2) in if nat_beq n 0 then 0 else rest + 1

unfoldable pub xor_distance : ℕ → ℕ → ℕ
unfolding xor
xor_distance a b = xor id_bits a b

-- one more than `bucket_index`, which is -1 for equal ids
unfoldable pub bucket_of : ℕ → ℕ → ℕ
unfolding bit_length xor_distance
bucket_of self_id other_id = bit_length id_bits (xor_distance self_id other_id)

pub record Table : Type 0 where
  pub self_did : String
  pub k : ℕ
  pub buckets : Dict ℕ (List String)
  pub records : Dict String PeerRecord

abbrev pub empty_table : String → ℕ → Table
empty_table self_did k = record { self_did = self_did; k = k; buckets = []; records = [] }

-- bucket.pop(0), with what it gives; it raises on an empty bucket, which only k = 0 leads to
unfoldable pub pop_first : List String → List String × Option String
pop_first [] = ([], none)
pop_first (x ∷ xs) = (xs, some x)

-- the bucket without the DID, or without its first entry where it is full, and what was evicted
unfoldable pub make_place : ℕ → String → List String → List String × Option String
unfolding pop_first
make_place k did bucket =
    if contains did bucket
    then (erase did bucket, none)
    else if leb k (length bucket)
    then pop_first bucket
    else (bucket, none)

unfoldable pub forget : Option String → Dict String PeerRecord → Dict String PeerRecord
forget none records = records
forget (some did) records = remove did records

-- the entry out of its bucket, if there is one
unfoldable pub drop_entry :
    ℕ → String → Option (List String) → Dict ℕ (List String) → Dict ℕ (List String)
drop_entry i did none buckets = buckets
drop_entry i did (some bucket) buckets = put i (erase did bucket) buckets

abbrev pub is_older : PeerRecord → Option PeerRecord → Bool
is_older r none = false
is_older r (some cur) = ltb r.last_seen cur.last_seen

abbrev pub is_newer : PeerRecord → Option PeerRecord → Bool
is_newer r none = false
is_newer r (some cur) = ltb cur.last_seen r.last_seen

module _ (node_id : String → ℕ) where
  -- the bucket that a DID belongs in
  unfoldable pub bucket_for : Table → String → ℕ
  unfolding bucket_of
  bucket_for t did = bucket_of (node_id t.self_did) (node_id did)

  -- the table with a record in its place
  unfoldable pub placed : Table → PeerRecord → Table
  unfolding bucket_for make_place forget
  placed t r =
      let i = bucket_for t r.did in
      let (rest, evicted) = make_place t.k r.did (get_or i [] t.buckets) in
      record t {
        buckets = put i (rest ++ r.did ∷ []) t.buckets;
        records = put r.did r (forget evicted t.records);
      }

  -- `RoutingTable.add`
  unfoldable pub add : Table → PeerRecord → Table × Bool
  unfolding placed
  add t r =
      let cur = lookup r.did t.records in
      if string_eq.beq r.did t.self_did || is_older r cur
      then (t, false)
      else (placed t r, is_none cur || is_newer r cur)

  -- `RoutingTable.remove`
  unfoldable pub remove_did : Table → String → Table
  unfolding bucket_for drop_entry
  remove_did t did =
      let i = bucket_for t did in
      if is_none (lookup did t.records) then t else record t {
        buckets = drop_entry i did (lookup i t.buckets) t.buckets;
        records = remove did t.records;
      }

  -- `RoutingTable.closest`
  unfoldable pub closest : Table → ℕ → ℕ → List String
  unfolding xor_distance
  closest t target count =
      take count (sort_by (λ d. xor_distance (node_id d) target) (keys t.records))
