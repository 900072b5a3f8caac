-- ===== src/Transport/Dht/Removal.antt =====
-- Adding a record and removing a DID keep the buckets and the records in agreement.
use secdogie.Prelude.{
  nat_beq, if◌then◌else◌, is_none, either_way, length, contains, string_eq, nat_eq, Dict, lookup,
  get_or, remove, lookup-put, lookup-remove, erase, Unrepeated, contains-erase, erase-Unrepeated, ℕ,
  ◌≤◌, String, ◌≡◌, refl, sym, ap, ◌∙◌, subst, Bool, not, ◌&&◌, ◌||◌, Option, none, some, List, [],
  ◌∷◌, arith,
}
use secdogie.Transport.Membership.{PeerRecord}
use secdogie.Transport.Dht.{Table, drop_entry, is_older, bucket_for, add, remove_did}
use secdogie.Transport.Dht.Buckets.{bucket_at, Consistent, placed-Consistent}

drop_entry-bucket :
    (i j : ℕ) (did : String) (o : Option (List String)) (buckets : Dict ℕ (List String))
    → lookup i buckets ≡ o
    → get_or j [] (drop_entry i did o buckets)
      ≡ (if nat_beq i j then erase did (get_or i [] buckets) else get_or j [] buckets)
unfolding drop_entry get_or erase
drop_entry-bucket i j did none buckets e =
    ground (arith, e, nat_eq.beq_iff i j, ap (λ n. lookup n buckets) {x = i} {y = j})
drop_entry-bucket i j did (some bucket) buckets e =
    ground (arith, e, lookup-put i j (erase did bucket) buckets)

module _ (node_id : String → ℕ) where
  module _ (t : Table) (did : String) (h : Consistent node_id t) where
    -- `remove_did` where the DID is known
    pub cut : Table
    cut = record t {
      buckets =
          drop_entry (bucket_for node_id t did) did (lookup (bucket_for node_id t did) t.buckets)
            t.buckets;
      records = remove did t.records;
    }

    here : ℕ
    here = bucket_for node_id t did

    bucket_cut :
        (j : ℕ)
        → bucket_at j cut ≡ (if nat_beq here j then erase did (bucket_at here t) else bucket_at j t)
    unfolding cut here
    bucket_cut j =
        drop_entry-bucket (bucket_for node_id t did) j did
          (lookup (bucket_for node_id t did) t.buckets) t.buckets refl

    record_cut :
        (j : String)
        → lookup j cut.records ≡ (if string_eq.beq did j then none else lookup j t.records)
    unfolding cut
    record_cut j = lookup-remove did j t.records

    member_cut :
        (i : ℕ) (j : String)
        → contains j (bucket_at i cut) ≡ (
            if nat_beq here i
            then contains j (bucket_at here t) && not (string_eq.beq did j)
            else contains j (bucket_at i t))
    member_cut i j =
        ap (contains j) (bucket_cut i)
        ∙ ground (arith, contains-erase j did (bucket_at here t) (h.once here))

    cut-bucket : (j : String) → bucket_for node_id cut j ≡ bucket_for node_id t j
    unfolding cut bucket_for
    cut-bucket j = refl

    cut_self : cut.self_did ≡ t.self_did
    unfolding cut
    cut_self = refl

    cut-k : cut.k ≡ t.k
    unfolding cut
    cut-k = refl

    length-erase-le : (xs : List String) → length (erase did xs) ≤ length xs
    unfolding erase
    length-erase-le [] = omega arith
    length-erase-le (x ∷ xs) = ground (arith, length-erase-le xs)

    cut-known :
        (j : String)
        → contains j (bucket_at (bucket_for node_id t j) cut) ≡ not (is_none (lookup j cut.records))
    unfolding here
    cut-known j =
        let known = h.known j in
        let i = bucket_for node_id t j in
        member_cut i j
        ∙ ground (
          arith,
          known,
          nat_eq.beq_iff here i,
          string_eq.beq_iff did j,
          ap (bucket_for node_id t) {x = did} {y = j},
          ap (λ n. contains j (bucket_at n t)) {x = here} {y = i},
        )
        ∙ ap (λ o. not (is_none o)) (sym (record_cut j))

    cut-Consistent : Consistent node_id cut
    cut-Consistent = record {
      small = λ i.
          subst (λ n. length (bucket_at i cut) ≤ n) (sym cut-k)
            (subst (λ b. length b ≤ t.k) (sym (bucket_cut i))
              (either_way (λ (b : List String). length b ≤ t.k) (nat_beq here i) _ _
                (λ e.
                  let small = h.small here in
                  omega (arith, small, length-erase-le (bucket_at here t)))
                λ e. h.small i));
      once = λ i. subst Unrepeated (sym (bucket_cut i)) (
          either_way Unrepeated (nat_beq here i) _ _
            (λ e. erase-Unrepeated did (bucket_at here t) (h.once here)) λ e. h.once i);
      near = λ i j e.
          let near = h.near i j in
          cut-bucket j
          ∙ near (
              ground (
                arith,
                e,
                member_cut i j,
                nat_eq.beq_iff here i,
                ap (λ n. contains j (bucket_at n t)) {x = here} {y = i},
              ));
      known = λ j. ap (λ i. contains j (bucket_at i cut)) (cut-bucket j) ∙ cut-known j;
      not_self =
          let not_self = h.not_self in
          ap (λ d. lookup d cut.records) cut_self ∙ ground (arith, not_self, record_cut t.self_did);
    }

    pub remove_did-Consistent : Consistent node_id (remove_did node_id t did)
    unfolding remove_did cut
    remove_did-Consistent =
        either_way (Consistent node_id) (is_none (lookup did t.records)) _ _ (λ unknown. h)
          λ known. cut-Consistent

  pub add-Consistent :
      (t : Table) (r : PeerRecord)
      → 1 ≤ t.k
      → Consistent node_id t
      → Consistent node_id (add node_id t r).0
  unfolding add
  add-Consistent t r pos h =
      either_way (λ (p : Table × Bool). Consistent node_id p.0)
        (string_eq.beq r.did t.self_did || is_older r (lookup r.did t.records)) _ _ (λ skipped. h)
        λ taken. placed-Consistent node_id t r pos h (ground (arith, taken))
