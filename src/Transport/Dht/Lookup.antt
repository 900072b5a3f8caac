-- ===== src/Transport/Dht/Lookup.antt =====
-- The iterative lookup of transport/secdogie_transport/dht.py. The injected `query` is a parameter: it
-- gives the objects that a peer answers with, nothing where it answers None.
pub mod Found
pub mod Returns
pub mod Asked
use secdogie.Prelude.{
  if◌then◌else◌, is_none, take, select, contains, string_eq, nat_eq, Dict, keys, lookup, get_or,
  put, ◌>>=◌, ◌>>◌, sort_by, ℕ, zero, suc, String, Bool, true, false, not, ◌||◌, Option, none, some,
  List, [], ◌∷◌, ◌++◌,
}
use secdogie.Identity.Json.{Json}
use secdogie.Identity.Signing.{Crypto}
use secdogie.Transport.Membership.{
  Conversions, PeerRecord, Verdict, raises, refused, accepted, verify_record,
}
use secdogie.Transport.Dht.{id_bits, xor_distance}

-- the state of a lookup: the known DIDs with their distances, the signed records, whom it asked in which
-- order, and whether the round found a DID that it did not know
pub record Search : Type 0 where
  pub shortlist : Dict String ℕ
  pub records : Dict String Json
  pub queried : List String
  pub progressed : Bool

module _ (c : Crypto) (v : Conversions) (node_id : String → ℕ) (query : String → ℕ → List Json)
    (trusted : String → Bool) (now : Option ℕ) (target : ℕ) where
  abbrev pub distance_to : String → ℕ
  distance_to did = xor_distance (node_id did) target

  -- {did: distance for did in seed}
  unfoldable pub seeded : Dict String ℕ → List String → Dict String ℕ
  unfolding xor_distance
  seeded d [] = d
  seeded d (did ∷ dids) = seeded (put did (distance_to did) d) dids

  -- one object of an answer; `none` where its verification raises
  unfoldable pub absorb_verdict : Search → Verdict → Option Search
  unfolding xor_distance
  absorb_verdict s raises = none
  absorb_verdict s refused = some s
  absorb_verdict s (accepted r) = some (record s {
    records = put r.did r.signed s.records;
    shortlist =
        if is_none (lookup r.did s.shortlist)
        then put r.did (distance_to r.did) s.shortlist
        else s.shortlist;
    progressed = s.progressed || is_none (lookup r.did s.shortlist);
  })

  unfoldable pub absorb : Search → List Json → Option Search
  unfolding absorb_verdict verify_record
  absorb s [] = some s
  absorb s (o ∷ os) = absorb_verdict s (verify_record c v trusted now o) >>= λ s'. absorb s' os

  -- the candidates of a round, one after another
  unfoldable pub ask_each : Search → List String → Option Search
  unfolding absorb
  ask_each s [] = some s
  ask_each s (did ∷ dids) =
      absorb (record s { queried = s.queried ++ did ∷ [] }) (query did target) >>= λ s'.
      ask_each s' dids

  -- the `alpha` nearest that have not been asked
  unfoldable pub candidates : ℕ → Search → List String
  candidates alpha s = take alpha (
      sort_by (λ d. get_or d 0 s.shortlist)
        (select (λ d. not (contains d s.queried)) (keys s.shortlist)))

  abbrev pub is_empty : List String → Bool
  is_empty [] = true
  is_empty (x ∷ xs) = false

  -- the rounds, `fuel` of them at most: `max_rounds` in the source
  unfoldable pub rounds : ℕ → ℕ → Search → Option Search
  unfolding ask_each candidates
  rounds zero alpha s = some s
  rounds (suc fuel) alpha s =
      let chosen = candidates alpha s in
      let next = ask_each (record s { progressed = false }) chosen >>= λ s'.
      (let later = rounds fuel alpha s' in if s'.progressed then later else some s') in
      if is_empty chosen then some s else next

  unfoldable pub opening : List String → Search
  unfolding seeded
  opening seed = record {
    shortlist = seeded [] seed;
    records = [];
    queried = [];
    progressed = false;
  }

  -- `_lookup`
  unfoldable pub search : List String → ℕ → ℕ → Option Search
  unfolding rounds opening
  search seed alpha max_rounds = rounds max_rounds alpha (opening seed)

  -- `find_node`
  unfoldable pub find_node : List String → ℕ → ℕ → Option (List String)
  unfolding search
  find_node seed count alpha = do
    s ← search seed alpha id_bits
    some (take count (sort_by (λ d. get_or d 0 s.shortlist) (keys s.shortlist)))

-- `find_peer`: `none` where it raises, and else the record, if it was found and still verifies
unfoldable pub find_peer :
    Crypto
    → Conversions
    → (String → ℕ)
    → (String → ℕ → List Json)
    → (String → Bool)
    → Option ℕ
    → String
    → List String
    → ℕ
    → Option (Option PeerRecord)
unfolding search
find_peer c v node_id query trusted now target_did seed alpha = do
  s ← search c v node_id query trusted now (node_id target_did) seed alpha id_bits
  elim (lookup target_did s.records) [
    | none ↦ some none
    | some signed ↦ elim (verify_record c v trusted now signed) [
      | raises ↦ none
      | refused ↦ some none
      | accepted r ↦ some (some r)
    ]
  ]
