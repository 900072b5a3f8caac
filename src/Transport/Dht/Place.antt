-- ===== src/Transport/Dht/Place.antt =====
-- What making place for an entry does to a bucket.
use secdogie.Prelude.{
  leb, either_way, length, contains, string_eq, nat_eq, length-erase, Unrepeated, contains-erase,
  erase-Unrepeated, ℕ, ◌≤◌, ◌<◌, String, ◌≡◌, refl, ap, Bool, true, false, not, ◌&&◌, Option, none,
  some, List, [], ◌∷◌, arith,
}
use secdogie.Transport.Dht.{pop_first, make_place}

abbrev pub is_the : Option String → String → Bool
is_the none j = false
is_the (some e) j = string_eq.beq e j

-- what `make_place` leaves of a bucket
pub record Place (k : ℕ) (did : String) (bucket : List String) (p : List String × Option String)
    : Type 0 where
  pub room : length p.0 < k
  pub once : Unrepeated p.0
  pub left :
      (j : String)
      → contains j p.0 ≡ (contains j bucket && not (string_eq.beq did j) && not (is_the p.1 j))
  pub gone :
      (j : String)
      → is_the p.1 j ≡ true
      → (contains j bucket ≡ true) × (string_eq.beq did j ≡ false)

pop_first-Place :
    (k : ℕ) (did : String) (bucket : List String)
    → 1 ≤ k
    → length bucket ≤ k
    → Unrepeated bucket
    → contains did bucket ≡ false
    → Place k did bucket (pop_first bucket)
unfolding pop_first
pop_first-Place k did [] pos few once new = record {
  room = pos;
  once = tt;
  left = λ j. refl;
  gone = λ j h. absurd (ground (arith, h));
}
pop_first-Place k did (x ∷ xs) pos few once new = record {
  room = few;
  once = once.1;
  left = λ j. ground (
    arith,
    new,
    once.0,
    string_eq.beq_iff x j,
    string_eq.beq_iff did j,
    string_eq.beq_iff x did,
    ap (λ y. contains y xs) {x = x} {y = j},
    ap (λ y. contains y xs) {x = did} {y = j},
  );
  gone = λ j h. (
    ground (arith, h),
    ground (arith, h, new, string_eq.beq_iff x j, string_eq.beq_iff did j, string_eq.beq_iff x did),
  );
}

pub make_place-Place :
    (k : ℕ) (did : String) (bucket : List String)
    → 1 ≤ k
    → length bucket ≤ k
    → Unrepeated bucket
    → Place k did bucket (make_place k did bucket)
unfolding make_place
make_place-Place k did bucket pos few once =
    let P = λ (p : List String × Option String). Place k did bucket p in
    either_way P (contains did bucket) _ _
      (λ here.
        let less = length-erase did bucket here in
        record {
          room = omega (arith, few, less);
          once = erase-Unrepeated did bucket once;
          left = λ j. ground (arith, contains-erase j did bucket once);
          gone = λ j h. absurd (ground (arith, h));
        })
      λ new.
        either_way P (leb k (length bucket)) _ _
          (λ full. pop_first-Place k did bucket pos few once new)
          λ room. record {
            room = ground (arith, room);
            once = once;
            left = λ j. ground (
              arith,
              new,
              string_eq.beq_iff did j,
              ap (λ y. contains y bucket) {x = did} {y = j},
            );
            gone = λ j h. absurd (ground (arith, h));
          }
