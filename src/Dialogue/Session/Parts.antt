-- ===== src/Dialogue/Session/Parts.antt =====
-- The parts of one message in a reassembly: how many they are, and what they are joined to.
use secdogie.Prelude.{
  ltb, leb, nat_beq, if◌then◌else◌, length, length-append, contains, string_eq, nat_eq, Dict, keys,
  values, lookup, get_or, put, Distinct, lookup-put, put-Distinct, Unrepeated,
  length-le_of_contains, length-le_of_keys, total_of, total_of-values-le, ℕ, zero, suc, ◌+◌, ◌≤◌,
  ◌<◌, ◌≡◌, refl, sym, ap, ◌∙◌, Bool, true, false, ◌&&◌, ◌||◌, none, some, List, [], ◌∷◌, ◌++◌,
  arith,
}
use secdogie.Dialogue.Frames.{chunk_at, for_range}
use secdogie.Dialogue.Frames.Cutting.{chunks_from}
use secdogie.Dialogue.Session.{join_parts}
use secdogie.Dialogue.Session.Held.{bytes_in}

indices : ℕ → ℕ → List ℕ
indices n i = for_range n i λ k. k

contains-indices : (n i k : ℕ) → contains k (indices n i) ≡ (leb i k && ltb k (i + n))
unfolding indices for_range
contains-indices zero i k = ground arith
contains-indices (suc n) i k = ground (arith, contains-indices n (i + 1) k)

length-indices : (n i : ℕ) → length (indices n i) ≡ n
unfolding indices for_range
length-indices zero i = refl
length-indices (suc n) i = omega (arith, length-indices n (i + 1))

indices-Unrepeated : (n i : ℕ) → Unrepeated (indices n i)
unfolding indices for_range
indices-Unrepeated zero i = tt
indices-Unrepeated (suc n) i =
    (ground (arith, contains-indices n (i + 1) i), indices-Unrepeated n (i + 1))

contains-keys :
    (k : ℕ) (v : List ℕ) (parts : Dict ℕ (List ℕ))
    → lookup k parts ≡ some v
    → contains k (keys parts) ≡ true
unfolding lookup
contains-keys k v [] h = ground arith
contains-keys k v ((j, c) ∷ parts) h = ground (arith, contains-keys k v parts)

length-keys : (parts : Dict ℕ (List ℕ)) → length (keys parts) ≡ length parts
length-keys [] = refl
length-keys ((j, c) ∷ parts) = omega (arith, length-keys parts)

bytes_in-total : (parts : Dict ℕ (List ℕ)) → bytes_in parts ≡ total_of length (values parts)
unfolding bytes_in total_of
bytes_in-total [] = refl
bytes_in-total ((j, c) ∷ parts) = omega (arith, bytes_in-total parts)

-- the chunks of a message are as long as the message
total_of-chunks :
    (size : ℕ) (message : List ℕ) (n i : ℕ)
    → total_of (λ k. length (chunk_at size message k)) (indices n i)
      ≡ length (chunks_from size message n i)
unfolding total_of chunks_from indices for_range
total_of-chunks size message zero i = refl
total_of-chunks size message (suc n) i = sym (
    length-append (chunk_at size message i) (chunks_from size message n (i + 1))
    ∙ ap (λ m. length (chunk_at size message i) + m) (sym (total_of-chunks size message n (i + 1))))

-- The parts are the chunks of the message whose indices have been seen.
pub record Holding (size : ℕ) (message : List ℕ) (total : ℕ) (seen : ℕ → Bool)
    (parts : Dict ℕ (List ℕ)) : Type 0 where
  pub distinct : Distinct parts
  pub each : (k : ℕ) → lookup k parts ≡ (if seen k then some (chunk_at size message k) else none)
  pub below : (k : ℕ) → seen k ≡ true → k < total

abbrev pub with_index : ℕ → (ℕ → Bool) → ℕ → Bool
with_index i seen k = nat_beq i k || seen k

module _ (size : ℕ) (message : List ℕ) (total : ℕ) (seen : ℕ → Bool) where
  pub add-Holding :
      (i : ℕ) (parts : Dict ℕ (List ℕ))
      → i < total
      → Holding size message total seen parts
      → Holding size message total (with_index i seen) (put i (chunk_at size message i) parts)
  add-Holding i parts low h = record {
    distinct = put-Distinct i (chunk_at size message i) parts h.distinct;
    each = λ k. ground (
      arith,
      lookup-put i k (chunk_at size message i) parts,
      h.each k,
      ap (λ n. some (chunk_at size message n)) {x = i} {y = k},
    );
    below = λ k e. ground (arith, h.below k);
  }

  module _ (parts : Dict ℕ (List ℕ)) (h : Holding size message total seen parts) where
    -- fewer parts than chunks, while one has not been seen
    pub few_while_missing : (j : ℕ) → j < total → seen j ≡ false → length parts < total
    unfolding lookup
    few_while_missing j low missing =
        let more : Dict ℕ (List ℕ) = (j, []) ∷ parts in
        let most =
          length-le_of_keys more (indices total 0) (ground (arith, h.each j, missing), h.distinct)
            (λ k v e. ground (arith, e, low, h.each k, h.below k, contains-indices total 0 k)) in
        omega (arith, most, length-indices total 0)

    -- as many parts as chunks, once all have been seen
    pub all_when_complete : ((k : ℕ) → k < total → seen k ≡ true) → total ≤ length parts
    all_when_complete full =
        let most =
          length-le_of_contains (indices total 0) (keys parts) (indices-Unrepeated total 0) (λ k e.
            contains-keys k (chunk_at size message k) parts
              (ground (arith, h.each k, full k, e, contains-indices total 0 k))) in
        omega (arith, most, length-indices total 0, length-keys parts)

    -- and no more bytes than the message
    pub within_message : bytes_in parts ≤ length (chunks_from size message total 0)
    within_message =
        let most =
          total_of-values-le (λ k. length (chunk_at size message k)) length parts (indices total 0)
            h.distinct
            (λ k v e. (
              ground (arith, e, h.each k, h.below k, contains-indices total 0 k),
              ground (arith, e, h.each k),
            )) in
        omega (arith, most, bytes_in-total parts, total_of-chunks size message total 0)

    pub joined :
        (n i : ℕ)
        → ((k : ℕ) → k < i + n → seen k ≡ true)
        → join_parts n i parts ≡ chunks_from size message n i
    unfolding join_parts chunks_from get_or
    joined zero i full = refl
    joined (suc n) i full =
        ap (λ c. c ++ join_parts n (i + 1) parts) (ground (arith, h.each i, full i (omega arith)))
        ∙ ap (λ c. chunk_at size message i ++ c)
            (joined n (i + 1) λ k low. full k (omega (arith, low)))
