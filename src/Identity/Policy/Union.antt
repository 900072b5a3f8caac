-- ===== src/Identity/Policy/Union.antt =====
-- What a policy revokes is the union of what the verified records name.
use secdogie.Prelude.{
  if◌then◌else◌, Option-cases, select, any, All, contains, string_eq, nat_eq, lookup, lookup-put,
  contains-append, contains-select, String, ◌≡◌, refl, sym, ap, ◌∙◌, subst, inl, inr, Bool, true,
  false, not, ◌||◌, Option, none, some, List, [], ◌∷◌, arith,
}
use secdogie.Identity.Json.{Json}
use secdogie.Identity.Signing.{Crypto}
use secdogie.Identity.Revocation.{MasterSet, RevocationRecord}
use secdogie.Identity.Policy.{TrustPolicy, admit, merge_record, verified_by, merge, merge_all}

-- whether the object verifies and names the DID
abbrev pub revokes : Crypto → Option MasterSet → String → Json → Bool
revokes c masters did o = elim (verified_by c masters o) [
  | none ↦ false
  | some r ↦ contains did r.revoked
]

-- The record id of the object, if it verifies, commits to its DIDs: `named` reads them off.
abbrev pub CommitsTo : Crypto → Option MasterSet → (String → List String) → Json → Type 0
CommitsTo c masters named o =
    (r : RevocationRecord) → verified_by c masters o ≡ some r → named r.record_id ≡ r.revoked

-- what the held records name is revoked
pub record Holds (named : String → List String) (p : TrustPolicy) : Type 0 where
  pub held :
      (id : String) (r : RevocationRecord) (d : String)
      → lookup id p.records ≡ some r
      → contains d (named id) ≡ true
      → contains d p.revoked ≡ true

module _ (c : Crypto) (named : String → List String) where
  module _ (p : TrustPolicy) (o : Json) (persist : Bool) (r : RevocationRecord)
      (commits : named r.record_id ≡ r.revoked) where
    revoked-admit :
        (d : String)
        → contains d (admit c p o persist r).0.revoked
          ≡ (contains d p.revoked || contains d r.revoked)
    unfolding admit
    revoked-admit d = ground (
      arith,
      contains-append ⦃e = string_eq⦄ d p.revoked
          (select (λ x. not (contains x p.revoked)) r.revoked),
      contains-select ⦃e = string_eq⦄ d (λ x. not (contains x p.revoked)) r.revoked,
    )

    lookup-admit :
        (id : String)
        → lookup id (admit c p o persist r).0.records
          ≡ (if string_eq.beq r.record_id id then some r else lookup id p.records)
    unfolding admit
    lookup-admit id = lookup-put ⦃e = string_eq⦄ r.record_id id r p.records

    admit-Holds : Holds named p → Holds named (admit c p o persist r).0
    admit-Holds h = record {
      held = λ id s d e n. ground (
        arith,
        e,
        n,
        revoked-admit d,
        lookup-admit id,
        string_eq.beq_iff r.record_id id,
        ap named {x = r.record_id} {y = id},
        commits,
        h.held id s d,
      );
    }

  module _ (p : TrustPolicy) (o : Json) (persist : Bool) (h : Holds named p) where
    pub merge_record_new :
        (r : RevocationRecord)
        → lookup r.record_id p.records ≡ none
        → merge_record c p o persist (some r) ≡ admit c p o persist r
    unfolding merge_record
    merge_record_new r e = rw (e, merge_record)

    pub merge_record_held :
        (r s : RevocationRecord)
        → lookup r.record_id p.records ≡ some s
        → merge_record c p o persist (some r) ≡ (p, [])
    unfolding merge_record
    merge_record_held r s e = rw (e, merge_record)

    merge_record-Holds :
        (v : Option RevocationRecord)
        → ((r : RevocationRecord) → v ≡ some r → named r.record_id ≡ r.revoked)
        → Holds named (merge_record c p o persist v).0
    merge_record-Holds none commits = unfold merge_record in h
    merge_record-Holds (some r) commits = elim (Option-cases (lookup r.record_id p.records)) [
      | inl new ↦ rw (merge_record_new r new) (admit-Holds p o persist r (commits r refl) h)
      | inr (s, held) ↦ rw (merge_record_held r s held) h
    ]

    revoked-merge_record :
        (d : String) (v : Option RevocationRecord)
        → ((r : RevocationRecord) → v ≡ some r → named r.record_id ≡ r.revoked)
        → contains d (merge_record c p o persist v).0.revoked
          ≡ (contains d p.revoked || elim v [ none ↦ false | some r ↦ contains d r.revoked ])
    revoked-merge_record d none commits = unfold merge_record in ground arith
    revoked-merge_record d (some r) commits = elim (Option-cases (lookup r.record_id p.records)) [
      | inl new ↦ rw (merge_record_new r new) (revoked-admit p o persist r (commits r refl) d)
      | inr (s, held) ↦
          rw (merge_record_held r s held)
            (ground (arith, h.held r.record_id s d held, ap (contains d) (commits r refl)))
    ]

-- the parts of a policy that no merge changes, and the invariant
pub record Tracks (allowed : List String) (masters : Option MasterSet)
    (named : String → List String) (p : TrustPolicy) : Type 0 where
  pub same_allowed : p.allowed ≡ allowed
  pub same_masters : p.masters ≡ masters
  pub holds : Holds named p

module _ (c : Crypto) (allowed : List String) (masters : Option MasterSet)
    (named : String → List String) where
  same-merge :
      (p : TrustPolicy) (o : Json) (persist : Bool)
      → ((merge c p o persist).0.allowed ≡ p.allowed)
        × ((merge c p o persist).0.masters ≡ p.masters)
  unfolding merge
  same-merge p o persist = (ground arith, ground arith)

  module _ (p : TrustPolicy) (o : Json) (persist : Bool) (t : Tracks allowed masters named p)
      (commits : CommitsTo c masters named o) where
    commits_here : CommitsTo c p.masters named o
    commits_here = subst (λ m. CommitsTo c m named o) (sym t.same_masters) commits

    pub merge-Tracks : Tracks allowed masters named (merge c p o persist).0
    merge-Tracks = record {
      same_allowed = (same-merge p o persist).0 ∙ t.same_allowed;
      same_masters = (same-merge p o persist).1 ∙ t.same_masters;
      holds =
          unfold merge in
          merge_record-Holds c named p o persist t.holds (verified_by c p.masters o) commits_here;
    }

    pub revoked-merge :
        (d : String)
        → contains d (merge c p o persist).0.revoked
          ≡ (contains d p.revoked || revokes c masters d o)
    unfolding merge
    revoked-merge d =
        revoked-merge_record c named p o persist t.holds d (verified_by c p.masters o) commits_here
        ∙ ap (λ (m : Option MasterSet). contains d p.revoked || revokes c m d o) t.same_masters

  pub merge_all-Tracks :
      (objects : List Json) (p : TrustPolicy)
      → Tracks allowed masters named p
      → All (CommitsTo c masters named) objects
      → Tracks allowed masters named (merge_all c p objects).0
  unfolding merge_all
  merge_all-Tracks [] p t commits = t
  merge_all-Tracks (o ∷ objects) p t commits =
      merge_all-Tracks objects (merge c p o false).0 (merge-Tracks p o false t commits.0) commits.1

  pub revoked-merge_all :
      (d : String) (objects : List Json) (p : TrustPolicy)
      → Tracks allowed masters named p
      → All (CommitsTo c masters named) objects
      → contains d (merge_all c p objects).0.revoked
        ≡ (contains d p.revoked || any (revokes c masters d) objects)
  unfolding merge_all
  revoked-merge_all d [] p t commits = ground arith
  revoked-merge_all d (o ∷ objects) p t commits = ground (
    arith,
    revoked-merge p o false t commits.0 d,
    revoked-merge_all d objects (merge c p o false).0 (merge-Tracks p o false t commits.0)
        commits.1,
  )
