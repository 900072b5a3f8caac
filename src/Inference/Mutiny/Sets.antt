-- ===== src/Inference/Mutiny/Sets.antt =====
-- What the loops of the mutiny ledger do to the set of incidents that holds a target.
use secdogie.Prelude.{
  if◌then◌else◌, Bool-cases, select, any-append, contains, string_eq, nat_eq, Dict, lookup, get_or,
  put, lookup-put, get_or-put, lookup-remove, contains-append, contains-select, String, ◌≡◌, refl,
  ap, ◌∙◌, inl, inr, Bool, not, ◌&&◌, ◌||◌, Option, none, some, List, [], ◌∷◌, map, arith,
}
use secdogie.Inference.Mutiny.{
  is_cleared, add_to, latch, pairs, leave, release_from, release, release_all,
}

-- the incident holds the target
abbrev pub held_in : Dict String (List String) → String → String → Bool
held_in latches t i = contains i (get_or t [] latches)

contains-add_to :
    (i j : String) (xs : List String)
    → contains i (add_to j xs) ≡ (contains i xs || string_eq.beq j i)
unfolding add_to
contains-add_to i j xs = ground (
  arith,
  contains-append ⦃e = string_eq⦄ i xs (j ∷ []),
  string_eq.beq_iff j i,
  ap (λ (k : String). contains k xs) {x = j} {y = i},
)

latch_one :
    (j t t' i : String) (latches : Dict String (List String))
    → held_in (put t (add_to j (get_or t [] latches)) latches) t' i
      ≡ (held_in latches t' i || string_eq.beq t t' && string_eq.beq j i)
latch_one j t t' i latches = ground (
  arith,
  get_or-put ⦃e = string_eq⦄ t t' (add_to j (get_or t [] latches)) [] latches,
  contains-add_to i j (get_or t [] latches),
  string_eq.beq_iff t t',
  ap (λ (k : String). held_in latches k i) {x = t} {y = t'},
)

pub held-latch :
    (j : String) (cleared : List (String × String)) (t i : String) (ts : List String)
    (latches : Dict String (List String))
    → held_in (latch j cleared ts latches) t i
      ≡ (held_in latches t i || string_eq.beq j i && contains t ts && not (is_cleared t j cleared))
unfolding latch
held-latch j cleared t i [] latches = ground arith
held-latch j cleared t i (u ∷ ts) latches = elim (Bool-cases (is_cleared u j cleared)) [
  | inl skip ↦ rw skip (
      held-latch j cleared t i ts latches
      ∙ ground
          (arith, skip, string_eq.beq_iff u t, ap (λ k. is_cleared k j cleared) {x = u} {y = t}))
  | inr new ↦ rw new (
      held-latch j cleared t i ts (put u (add_to j (get_or u [] latches)) latches)
      ∙ ground (
        arith,
        new,
        latch_one j u t i latches,
        string_eq.beq_iff u t,
        ap (λ k. is_cleared k j cleared) {x = u} {y = t},
      ))
]

held-leave :
    (u : String) (rest : List String) (latches : Dict String (List String)) (t i : String)
    → held_in (leave u rest latches).0 t i
      ≡ (if string_eq.beq u t then contains i rest else held_in latches t i)
unfolding leave get_or
held-leave u [] latches t i = ground (arith, lookup-remove ⦃e = string_eq⦄ u t latches)
held-leave u (r ∷ rest) latches t i =
    ground (arith, lookup-put ⦃e = string_eq⦄ u t (r ∷ rest) latches)

held-release_from :
    (u : String) (ids : List String) (latches : Dict String (List String))
    (found : Option (List String)) (t i : String)
    → lookup u latches ≡ found
    → held_in (release_from u ids latches found).0 t i
      ≡ (held_in latches t i && not (string_eq.beq u t && contains i ids))
unfolding release_from get_or
held-release_from u ids latches none t i e =
    ground (arith, e, string_eq.beq_iff u t, ap (λ k. lookup k latches) {x = u} {y = t})
held-release_from u ids latches (some held) t i e =
    held-leave u (select (λ j. not (contains j ids)) held) latches t i
    ∙ (unfold get_or in
        ground (
          arith,
          e,
          string_eq.beq_iff u t,
          ap (λ k. lookup k latches) {x = u} {y = t},
          contains-select ⦃e = string_eq⦄ i (λ j. not (contains j ids)) held,
        ))

held-release :
    (u : String) (ids : List String) (latches : Dict String (List String)) (t i : String)
    → held_in (release u ids latches).0 t i
      ≡ (held_in latches t i && not (string_eq.beq u t && contains i ids))
unfolding release
held-release u ids latches t i = held-release_from u ids latches (lookup u latches) t i refl

pub held-release_all :
    (ts ids : List String) (latches : Dict String (List String)) (t i : String)
    → held_in (release_all ts ids latches).0 t i
      ≡ (held_in latches t i && not (contains t ts && contains i ids))
unfolding release_all
held-release_all [] ids latches t i = ground arith
held-release_all (u ∷ ts) ids latches t i =
    ground
      (arith, held-release u ids latches t i, held-release_all ts ids (release u ids latches).0 t i)

is_cleared-map :
    (t i u : String) (ids : List String)
    → is_cleared t i (map (λ j. (u, j)) ids) ≡ (string_eq.beq u t && contains i ids)
is_cleared-map t i u [] = ground arith
is_cleared-map t i u (j ∷ ids) = ground (arith, is_cleared-map t i u ids)

pub is_cleared-pairs :
    (t i : String) (ts ids : List String)
    → is_cleared t i (pairs ts ids) ≡ (contains t ts && contains i ids)
unfolding pairs
is_cleared-pairs t i [] ids = refl
is_cleared-pairs t i (u ∷ ts) ids =
    any-append (λ p. string_eq.beq p.0 t && string_eq.beq p.1 i) (map (λ j. (u, j)) ids)
      (pairs ts ids)
    ∙ ground (arith, is_cleared-map t i u ids, is_cleared-pairs t i ts ids)
