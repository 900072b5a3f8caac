-- ===== src/Transport/Membership/Freshness.antt =====
-- How fresh a view is about a DID, and what merging records makes of it.
use secdogie.Prelude.{
  if◌then◌else◌, either_way, string_eq, nat_eq, Dict, lookup, put, Distinct, lookup-put,
  put-Distinct, ℕ, suc, ◌+◌, max, String, ◌≡◌, refl, ap, Bool, Option, none, some, List, [], ◌∷◌,
  map, arith,
}
use secdogie.Transport.Membership.{
  PeerRecord, Verdict, raises, refused, accepted, View, is_stale, file_record, merge_verdict,
  digest_of, is_news, records_for,
}

-- a record is filed under its DID, and no DID twice
pub record Filed (d : Dict String PeerRecord) : Type 0 where
  pub distinct : Distinct d
  pub own : (did : String) (r : PeerRecord) → lookup did d ≡ some r → r.did ≡ did

-- 0 for a DID that is not known, and else one more than its last_seen
abbrev pub fresh : Option ℕ → ℕ
fresh none = 0
fresh (some n) = suc n

abbrev pub freshness : String → Dict String PeerRecord → ℕ
freshness did d = fresh (lookup did (digest_of d))

abbrev pub offered : String → PeerRecord → ℕ
offered did r = if string_eq.beq r.did did then suc r.last_seen else 0

abbrev stamp : Option PeerRecord → Option ℕ
stamp none = none
stamp (some r) = some r.last_seen

pub lookup-digest :
    (did : String) (d : Dict String PeerRecord) → lookup did (digest_of d) ≡ stamp (lookup did d)
unfolding digest_of lookup
lookup-digest did [] = refl
lookup-digest did ((k, r) ∷ d) = ground (arith, lookup-digest did d)

file-Filed : (w : View) (r : PeerRecord) → Filed w.records → Filed (file_record w r).0.records
unfolding file_record
file-Filed w r h =
    let put_filed : Filed (put r.did r w.records) = record {
      distinct = put-Distinct r.did r w.records h.distinct;
      own = λ did q e.
          let own = h.own did q in
          ground (arith, e, own, lookup-put r.did did r w.records, string_eq.beq_iff r.did did);
    } in
    either_way (λ (p : View × Bool). Filed p.0.records) (is_stale r (lookup r.did w.records)) _ _
      (λ stale. h) λ news. put_filed

file-freshness :
    (w : View) (r : PeerRecord) (did : String)
    → freshness did (file_record w r).0.records ≡ max (freshness did w.records) (offered did r)
unfolding file_record is_stale
file-freshness w r did = ground (
  arith,
  lookup-digest did w.records,
  lookup-digest did (put r.did r w.records),
  lookup-put r.did did r w.records,
  string_eq.beq_iff r.did did,
  ap (λ k. lookup k w.records) {x = r.did} {y = did},
)

pub verdict-Filed : (w : View) (d : Verdict) → Filed w.records → Filed (merge_verdict w d).0.records
unfolding merge_verdict
verdict-Filed w raises h = h
verdict-Filed w refused h = h
verdict-Filed w (accepted r) h = file-Filed w r h

-- records filed one after another, and how many were news
unfoldable pub file_all : View → List PeerRecord → View × ℕ
unfolding file_record
file_all w [] = (w, 0)
file_all w (r ∷ rs) =
    let (w', changed) = file_record w r in
    let (w'', n) = file_all w' rs in (w'', if changed then n + 1 else n)

pub file-trusted : (w : View) (r : PeerRecord) → (file_record w r).0.trusted ≡ w.trusted
unfolding file_record
file-trusted w r = ground arith

pub file_all-Filed :
    (rs : List PeerRecord) (w : View) → Filed w.records → Filed (file_all w rs).0.records
unfolding file_all
file_all-Filed [] w h = h
file_all-Filed (r ∷ rs) w h = file_all-Filed rs (file_record w r).0 (file-Filed w r h)

pub best : String → List PeerRecord → ℕ
best did [] = 0
best did (r ∷ rs) = max (offered did r) (best did rs)

pub file_all-freshness :
    (did : String) (rs : List PeerRecord) (w : View)
    → freshness did (file_all w rs).0.records ≡ max (freshness did w.records) (best did rs)
unfolding file_all best
file_all-freshness did [] w = omega arith
file_all-freshness did (r ∷ rs) w =
    let rest = file_all-freshness did rs (file_record w r).0 in
    let one = file-freshness w r did in omega (arith, rest, one)

-- the records of a view that are news to a peer with a digest
unfoldable pub news : Dict String PeerRecord → Dict String ℕ → List PeerRecord
news [] theirs = []
news ((k, r) ∷ d) theirs =
    let more = news d theirs in if is_news r (lookup k theirs) then r ∷ more else more

pub records_for-news :
    (d : Dict String PeerRecord) (theirs : Dict String ℕ)
    → records_for d theirs ≡ map (λ r. r.signed) (news d theirs)
unfolding records_for news
records_for-news [] theirs = refl
records_for-news ((k, r) ∷ d) theirs = ground (arith, records_for-news d theirs)

abbrev if_news : String → Dict String ℕ → Option PeerRecord → ℕ
if_news did theirs none = 0
if_news did theirs (some r) = if is_news r (lookup did theirs) then suc r.last_seen else 0

best-news :
    (did : String) (d : Dict String PeerRecord) (theirs : Dict String ℕ)
    → Filed d
    → best did (news d theirs) ≡ if_news did theirs (lookup did d)
unfolding best news lookup
best-news did [] theirs h = refl
best-news did ((k, r) ∷ d) theirs h =
    let mine : r.did ≡ k = h.own k r (ground (arith, string_eq.beq_iff k k)) in
    let rest = best-news did d theirs (record {
      distinct = h.distinct.1;
      own = λ j q e. h.own j q (
          ground
            (arith, e, h.distinct.0, string_eq.beq_iff k j, ap (λ x. lookup x d) {x = k} {y = j}));
    }) in
    ground (
      arith,
      mine,
      rest,
      h.distinct.0,
      string_eq.beq_iff k did,
      string_eq.beq_iff r.did did,
      ap (λ x. lookup x theirs) {x = k} {y = did},
      ap (λ x. lookup x d) {x = k} {y = did},
    )

-- what a round brings: the news about a DID make a peer as fresh as the view
pub news-freshness :
    (did : String) (d e : Dict String PeerRecord)
    → Filed d
    → max (freshness did e) (best did (news d (digest_of e)))
      ≡ max (freshness did e) (freshness did d)
unfolding is_news
news-freshness did d e h = ground (arith, best-news did d (digest_of e) h, lookup-digest did d)
