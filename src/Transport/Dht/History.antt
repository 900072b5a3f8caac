-- ===== src/Transport/Dht/History.antt =====
-- A routing table after any additions and removals.
use secdogie.Prelude.{
  is_none, either_way, length, contains, string_eq, nat_eq, lookup, get_or, Unrepeated, ℕ, ◌≤◌,
  String, ◌≡◌, refl, sym, ap, ◌∙◌, subst, ◌↔◌, Bool, true, false, ◌||◌, none, List, [], ◌∷◌, arith,
}
use secdogie.Transport.Membership.{PeerRecord}
use secdogie.Transport.Dht.{Table, empty_table, is_older, bucket_for, placed, add, remove_did}
use secdogie.Transport.Dht.Buckets.{bucket_at, Consistent}
use secdogie.Transport.Dht.Removal.{remove_did-Consistent, add-Consistent}

pub data TableEvent : Type 0 where
  added : PeerRecord → TableEvent
  removed : String → TableEvent

module _ (node_id : String → ℕ) where
  unfoldable pub step : Table → TableEvent → Table
  step t (added r) = (add node_id t r).0
  step t (removed did) = remove_did node_id t did

  unfoldable pub run : Table → List TableEvent → Table
  unfolding step
  run t [] = t
  run t (e ∷ es) = run (step t e) es

  step-same :
      (t : Table) (e : TableEvent) → ((step t e).k ≡ t.k) × ((step t e).self_did ≡ t.self_did)
  unfolding step add remove_did placed
  step-same t (added r) =
      either_way (λ (p : Table × Bool). (p.0.k ≡ t.k) × (p.0.self_did ≡ t.self_did))
        (string_eq.beq r.did t.self_did || is_older r (lookup r.did t.records)) _ _
        (λ skipped. (refl, refl)) λ taken. (refl, refl)
  step-same t (removed did) =
      either_way (λ (u : Table). (u.k ≡ t.k) × (u.self_did ≡ t.self_did))
        (is_none (lookup did t.records)) _ _ (λ unknown. (refl, refl)) λ known. (refl, refl)

  step-Consistent :
      (t : Table) (e : TableEvent) → 1 ≤ t.k → Consistent node_id t → Consistent node_id (step t e)
  unfolding step
  step-Consistent t (added r) pos h = add-Consistent node_id t r pos h
  step-Consistent t (removed did) pos h = remove_did-Consistent node_id t did h

  run-same :
      (es : List TableEvent) (t : Table) → ((run t es).k ≡ t.k) × ((run t es).self_did ≡ t.self_did)
  unfolding run
  run-same [] t = (refl, refl)
  run-same (e ∷ es) t =
      let (k, self) = run-same es (step t e) in
      let (k', self') = step-same t e in (k ∙ k', self ∙ self')

  run-Consistent :
      (es : List TableEvent) (t : Table)
      → 1 ≤ t.k
      → Consistent node_id t
      → Consistent node_id (run t es)
  unfolding run
  run-Consistent [] t pos h = h
  run-Consistent (e ∷ es) t pos h =
      run-Consistent es (step t e) (subst (λ n. 1 ≤ n) (sym (step-same t e).0) pos)
        (step-Consistent t e pos h)

  empty-Consistent : (self_did : String) (k : ℕ) → Consistent node_id (empty_table self_did k)
  unfolding get_or lookup
  empty-Consistent self_did k = record {
    small = λ i. omega arith;
    once = λ i. tt;
    near = λ i did e. absurd (ground (arith, e));
    known = λ did. refl;
    not_self = refl;
  }

-- A routing table that starts empty, with room for at least one entry in a bucket, and to which any
-- records are added and from which any DIDs are removed, holds at most `k` DIDs in each bucket and none
-- twice; a bucket holds exactly the known DIDs whose distance from the node belongs to it, and the node's
-- own DID is never known.
pub table_is_consistent :
    (node_id : String → ℕ) (self_did : String) (k : ℕ) (es : List TableEvent)
    → 1 ≤ k
    → let t = run node_id (empty_table self_did k) es in
      ((i : ℕ) → (length (bucket_at i t) ≤ k) × Unrepeated (bucket_at i t))
      × ((i : ℕ) (did : String)
          → (contains did (bucket_at i t) ≡ true)
            ↔ ((bucket_for node_id t did ≡ i) × (is_none (lookup did t.records) ≡ false)))
      × (lookup self_did t.records ≡ none)
table_is_consistent node_id self_did k es pos =
    let t = run node_id (empty_table self_did k) es in
    let (same_k, same_self) = run-same node_id es (empty_table self_did k) in
    let h =
      run-Consistent node_id es (empty_table self_did k) pos
        (empty-Consistent node_id self_did k) in
    (
      λ i. (subst (λ n. length (bucket_at i t) ≤ n) same_k (h.small i), h.once i),
      λ i did. (
        λ e.
            let near = h.near i did e in
            let known = h.known did in
            (near, ground (arith, e, known, ap (λ n. contains did (bucket_at n t)) near)),
        λ (near, found).
            let known = h.known did in
            ground (arith, found, known, ap (λ n. contains did (bucket_at n t)) near),
      ),
      ap (λ d. lookup d t.records) (sym same_self) ∙ h.not_self,
    )
