-- ===== src/Transport/Membership/Gossip.antt =====
-- One gossip round brings two views to the same freshness, and a second one changes nothing.
use secdogie.Prelude.{
  either_way, All, string_eq, nat_eq, Dict, lookup, Distinct, ◌>>=◌, ℕ, max, String, ◌≡◌, refl, sym,
  ap, ◌∙◌, subst, Bool, Option, none, some, List, [], ◌∷◌, map, arith,
}
use secdogie.Identity.Json.{Json}
use secdogie.Identity.Signing.{Crypto}
use secdogie.Transport.Membership.{
  Conversions, PeerRecord, accepted, verify_record, View, file_record, merge_verdict, digest_of,
  is_news, records_for, counted, merge_record, apply_records, second_half, gossip_round,
}
use secdogie.Transport.Membership.Freshness.{
  Filed, fresh, freshness, lookup-digest, file_all, file-trusted, file_all-Filed,
  file_all-freshness, news, records_for-news, news-freshness,
}

module _ (c : Crypto) (v : Conversions) (now : Option ℕ) where
  -- the records of a view verify with an allowlist, at the time of the round
  abbrev pub Takes : (String → Bool) → Dict String PeerRecord → Type 0
  Takes trusted d =
      (did : String) (r : PeerRecord)
      → lookup did d ≡ some r
      → verify_record c v trusted now r.signed ≡ accepted r

  abbrev VerifiedAll : (String → Bool) → List PeerRecord → Type 0
  VerifiedAll trusted = All (λ r. verify_record c v trusted now r.signed ≡ accepted r)

  news-Verified :
      (trusted : String → Bool) (d : Dict String PeerRecord) (theirs : Dict String ℕ)
      → Distinct d
      → Takes trusted d
      → VerifiedAll trusted (news d theirs)
  unfolding news lookup
  news-Verified trusted [] theirs h t = tt
  news-Verified trusted ((k, r) ∷ d) theirs h t =
      let rest : VerifiedAll trusted (news d theirs) = news-Verified trusted d theirs h.1 λ j q e.
        t j q
          (ground (arith, e, h.0, string_eq.beq_iff k j, ap (λ x. lookup x d) {x = k} {y = j})) in
      either_way (VerifiedAll trusted) (is_news r (lookup k theirs)) _ _
        (λ fresher. (t k r (ground (arith, string_eq.beq_iff k k)), rest)) λ staler. rest

  apply-eq-file_all :
      (rs : List PeerRecord) (w : View)
      → VerifiedAll w.trusted rs
      → apply_records c v now w (map (λ r. r.signed) rs)
        ≡ ((file_all w rs).0, some (file_all w rs).1)
  unfolding apply_records merge_record merge_verdict counted file_all
  apply-eq-file_all [] w h = refl
  apply-eq-file_all (r ∷ rs) w (here, h) =
      let w' = (file_record w r).0 in
      let rest =
        apply-eq-file_all rs w' (subst (λ t. VerifiedAll t rs) (sym (file-trusted w r)) h) in
      ap
        (λ d.
          counted (merge_verdict w d)
            (apply_records c v now (merge_verdict w d).0 (map (λ q. q.signed) rs)))
        here
      ∙ ap (counted (merge_verdict w (accepted r))) rest

  -- the views after a round
  abbrev after_first : View → View → View
  after_first a b = (file_all a (news b.records (digest_of a.records))).0

  round-eq :
      (a b : View)
      → Filed a.records
      → Filed b.records
      → Takes a.trusted b.records
      → Takes b.trusted a.records
      → gossip_round c v now a b ≡ (
        (after_first a b, after_first b a),
        some (
          (file_all a (news b.records (digest_of a.records))).1,
          (file_all b (news a.records (digest_of b.records))).1,
        ),
      )
  unfolding gossip_round second_half
  round-eq a b ha hb ta tb =
      let to_a =
        apply-eq-file_all (news b.records (digest_of a.records)) a
          (news-Verified a.trusted b.records (digest_of a.records) hb.distinct ta) in
      let to_b =
        apply-eq-file_all (news a.records (digest_of b.records)) b
          (news-Verified b.trusted a.records (digest_of b.records) ha.distinct tb) in
      let signed = map (λ (r : PeerRecord). r.signed) in
      let half = λ (p : View × Option ℕ) (os : List Json). second_half c v now p.0 b os p.1 in
      ap (λ os. half (apply_records c v now a os) (records_for a.records (digest_of b.records)))
        (records_for-news b.records (digest_of a.records))
      ∙ ap (half (apply_records c v now a (signed (news b.records (digest_of a.records)))))
          (records_for-news a.records (digest_of b.records))
      ∙ ap (λ p. half p (signed (news a.records (digest_of b.records)))) to_a
      ∙ ap
          (λ (p : View × Option ℕ). (
            (after_first a b, p.0),
            p.1 >>= λ k. some ((file_all a (news b.records (digest_of a.records))).1, k),
          ))
          to_b

  -- nothing is news to a peer that knows as much
  silent :
      (d : Dict String PeerRecord) (theirs : Dict String ℕ)
      → Distinct d
      → ((did : String) (r : PeerRecord)
          → lookup did d ≡ some r
          → lookup did theirs ≡ some r.last_seen)
      → records_for d theirs ≡ []
  unfolding records_for is_news lookup
  silent [] theirs h known = refl
  silent ((k, r) ∷ d) theirs h known =
      let here = known k r (ground (arith, string_eq.beq_iff k k)) in
      let rest = silent d theirs h.1 λ j q e.
        known j q
          (ground (arith, e, h.0, string_eq.beq_iff k j, ap (λ x. lookup x d) {x = k} {y = j})) in
      ground (arith, here, rest)

  silent_round :
      (a b : View)
      → Filed a.records
      → Filed b.records
      → ((did : String) → lookup did (digest_of a.records) ≡ lookup did (digest_of b.records))
      → gossip_round c v now a b ≡ ((a, b), some (0, 0))
  unfolding gossip_round second_half apply_records
  silent_round a b ha hb same =
      let to_a : records_for b.records (digest_of a.records) ≡ [] =
        silent b.records (digest_of a.records) hb.distinct
          λ did r e. same did ∙ lookup-digest did b.records ∙ ground (arith, e) in
      let to_b : records_for a.records (digest_of b.records) ≡ [] =
        silent a.records (digest_of b.records) ha.distinct
          λ did r e. sym (same did) ∙ lookup-digest did a.records ∙ ground (arith, e) in
      ground (arith, to_a, to_b)

as_fresh : (m n : Option ℕ) → fresh m ≡ fresh n → m ≡ n
as_fresh none none h = refl
as_fresh none (some n) h = absurd (ground arith)
as_fresh (some m) none h = absurd (ground arith)
as_fresh (some m) (some n) h = ground arith

after-freshness :
    (a b : View) (did : String)
    → Filed b.records
    → freshness did (file_all a (news b.records (digest_of a.records))).0.records
      ≡ max (freshness did a.records) (freshness did b.records)
after-freshness a b did hb =
    file_all-freshness did (news b.records (digest_of a.records)) a
    ∙ news-freshness did b.records a.records hb

-- Two views file their records under the records' own DIDs, and each one's allowlist takes the other's
-- records at the time of the round. After one gossip round both know the same DIDs equally fresh, each
-- as fresh as the fresher of the two was, and a second round merges nothing and changes neither view.
pub gossip_converges :
    (c : Crypto) (v : Conversions) (now : Option ℕ) (a b : View)
    → Filed a.records
    → Filed b.records
    → Takes c v now a.trusted b.records
    → Takes c v now b.trusted a.records
    → let (a', b') = (gossip_round c v now a b).0 in
      ((did : String)
        → (lookup did (digest_of a'.records) ≡ lookup did (digest_of b'.records))
          × (freshness did a'.records ≡ max (freshness did a.records) (freshness did b.records)))
      × (gossip_round c v now a' b' ≡ ((a', b'), some (0, 0)))
gossip_converges c v now a b ha hb ta tb =
    let round = round-eq c v now a b ha hb ta tb in
    let same : (did : String)
        → lookup did (digest_of (after_first c v now a b).records)
          ≡ lookup did (digest_of (after_first c v now b a).records) =
      λ did. as_fresh _ _ (omega (arith, after-freshness a b did hb, after-freshness b a did ha)) in
    rw round (
      (λ did. (same did, after-freshness a b did hb)),
      silent_round c v now (after_first c v now a b) (after_first c v now b a)
          (file_all-Filed (news b.records (digest_of a.records)) a ha)
          (file_all-Filed (news a.records (digest_of b.records)) b hb) same,
    )
