-- ===== src/Transport/Dht/Buckets.antt =====
-- The buckets and the records of a routing table agree, whatever is added and removed.
use secdogie.Prelude.{
  nat_beq, if◌then◌else◌, is_none, either_way, length, length-append, contains, string_eq, nat_eq,
  Dict, lookup, get_or, lookup-put, get_or-put, lookup-remove, Unrepeated, contains-append,
  Unrepeated-snoc, ℕ, ◌≤◌, String, ◌≡◌, refl, sym, ap, ◌∙◌, subst, true, false, not, ◌||◌, Option,
  none, some, List, [], ◌∷◌, ◌++◌, arith,
}
use secdogie.Transport.Membership.{PeerRecord}
use secdogie.Transport.Dht.{Table, make_place, forget, bucket_for, placed}
use secdogie.Transport.Dht.Place.{is_the, Place, make_place-Place}

abbrev pub bucket_at : ℕ → Table → List String
bucket_at i t = get_or i [] t.buckets

lookup-forget :
    (evicted : Option String) (j : String) (d : Dict String PeerRecord)
    → lookup j (forget evicted d) ≡ (if is_the evicted j then none else lookup j d)
unfolding forget
lookup-forget none j d = refl
lookup-forget (some e) j d = lookup-remove e j d

module _ (node_id : String → ℕ) where
  -- The buckets hold each known DID once, in the bucket of its distance, and nothing else.
  pub record Consistent (t : Table) : Type 0 where
    pub small : (i : ℕ) → length (bucket_at i t) ≤ t.k
    pub once : (i : ℕ) → Unrepeated (bucket_at i t)
    pub near :
        (i : ℕ) (did : String) → contains did (bucket_at i t) ≡ true → bucket_for node_id t did ≡ i
    pub known :
        (did : String)
        → contains did (bucket_at (bucket_for node_id t did) t)
          ≡ not (is_none (lookup did t.records))
    pub not_self : lookup t.self_did t.records ≡ none

  module _ (t : Table) (r : PeerRecord) (pos : 1 ≤ t.k) (h : Consistent t) where
    here : ℕ
    here = bucket_for node_id t r.did

    made : List String × Option String
    made = make_place t.k r.did (bucket_at here t)

    made-Place : Place t.k r.did (bucket_at here t) made
    unfolding made
    made-Place = make_place-Place t.k r.did (bucket_at here t) pos (h.small here) (h.once here)

    bucket_after :
        (i : ℕ)
        → bucket_at i (placed node_id t r)
          ≡ (if nat_beq here i then made.0 ++ r.did ∷ [] else bucket_at i t)
    unfolding placed made here
    bucket_after i = get_or-put (bucket_for node_id t r.did) i _ [] t.buckets

    record_after :
        (j : String)
        → lookup j (placed node_id t r).records ≡ (
            if string_eq.beq r.did j
            then some r
            else if is_the made.1 j
            then none
            else lookup j t.records)
    unfolding placed made here
    record_after j =
        lookup-put r.did j r (forget made.1 t.records)
        ∙ ap (λ o. if string_eq.beq r.did j then some r else o) (lookup-forget made.1 j t.records)

    member_after :
        (i : ℕ) (j : String)
        → contains j (bucket_at i (placed node_id t r)) ≡ (
            if nat_beq here i
            then contains j made.0 || string_eq.beq r.did j
            else contains j (bucket_at i t))
    member_after i j =
        ap (contains j) (bucket_after i) ∙ ground (arith, contains-append j made.0 (r.did ∷ []))

    known_after :
        (j : String)
        → contains j (bucket_at (bucket_for node_id t j) (placed node_id t r))
          ≡ not (is_none (lookup j (placed node_id t r).records))
    unfolding here
    known_after j =
        let left = made-Place.left j in
        let gone = made-Place.gone j in
        let known = h.known j in
        let near = h.near here j in
        let mine = ap (bucket_for node_id t) {x = r.did} {y = j} in
        let i = bucket_for node_id t j in
        member_after i j
        ∙ (ground (
          arith,
          left,
          gone,
          known,
          near,
          mine,
          nat_eq.beq_iff here i,
          string_eq.beq_iff r.did j,
          ap (λ n. contains j (bucket_at n t)) {x = here} {y = i},
        ))
        ∙ ap (λ o. not (is_none o)) (sym (record_after j))

    small_after : (i : ℕ) → length (bucket_at i (placed node_id t r)) ≤ t.k
    small_after i =
        subst (λ b. length b ≤ t.k) (sym (bucket_after i))
          (either_way (λ (b : List String). length b ≤ t.k) (nat_beq here i) _ _
            (λ e.
              let room = made-Place.room in omega (arith, room, length-append made.0 (r.did ∷ [])))
            λ e. h.small i)

    once_after : (i : ℕ) → Unrepeated (bucket_at i (placed node_id t r))
    once_after i = subst Unrepeated (sym (bucket_after i)) (
        either_way Unrepeated (nat_beq here i) _ _
          (λ e.
            let left = made-Place.left r.did in
            Unrepeated-snoc made.0 r.did (ground (arith, left, string_eq.beq_iff r.did r.did))
              made-Place.once)
          λ e. h.once i)

    near_after :
        (i : ℕ) (j : String)
        → contains j (bucket_at i (placed node_id t r)) ≡ true
        → bucket_for node_id t j ≡ i
    unfolding here
    near_after i j e =
        let left = made-Place.left j in
        let near = h.near i j in
        let mine = ap (bucket_for node_id t) {x = r.did} {y = j} in
        ground (
          arith,
          e,
          member_after i j,
          left,
          near,
          mine,
          nat_eq.beq_iff here i,
          string_eq.beq_iff r.did j,
          ap (λ n. contains j (bucket_at n t)) {x = here} {y = i},
        )

    not_self_after :
        string_eq.beq r.did t.self_did ≡ false
        → lookup t.self_did (placed node_id t r).records ≡ none
    not_self_after other =
        let not_self = h.not_self in ground (arith, other, not_self, record_after t.self_did)

    placed_self : (placed node_id t r).self_did ≡ t.self_did
    unfolding placed
    placed_self = refl

    placed-k : (placed node_id t r).k ≡ t.k
    unfolding placed
    placed-k = refl

    placed-bucket :
        (j : String) → bucket_for node_id (placed node_id t r) j ≡ bucket_for node_id t j
    unfolding placed bucket_for
    placed-bucket j = refl

    pub placed-Consistent : string_eq.beq r.did t.self_did ≡ false → Consistent (placed node_id t r)
    placed-Consistent other = record {
      small = λ i.
          subst (λ n. length (bucket_at i (placed node_id t r)) ≤ n) (sym placed-k) (small_after i);
      once = once_after;
      near = λ i j e. placed-bucket j ∙ near_after i j e;
      known = λ j.
          ap (λ i. contains j (bucket_at i (placed node_id t r))) (placed-bucket j) ∙ known_after j;
      not_self = ap (λ d. lookup d (placed node_id t r).records) placed_self ∙ not_self_after other;
    }
