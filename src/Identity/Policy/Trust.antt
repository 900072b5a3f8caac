-- ===== src/Identity/Policy/Trust.antt =====
-- Whom a policy trusts after any run of applied objects.
use secdogie.Prelude.{
  any, All, contains, string_eq, nat_eq, lookup, ℕ, String, ◌≡◌, refl, ap, ◌∙◌, true, not, ◌&&◌,
  ◌||◌, Option, some, List, [], ◌∷◌, arith,
}
use secdogie.Identity.Json.{Json}
use secdogie.Identity.Signing.{Crypto}
use secdogie.Identity.Revocation.{MasterSet}
use secdogie.Identity.Store.{RevocationStore, stamp, load}
use secdogie.Identity.Policy.{TrustPolicy, trusts, notify, fresh_policy, merge, apply, open_policy}
use secdogie.Identity.Policy.Union.{
  revokes, CommitsTo, Tracks, merge-Tracks, revoked-merge, merge_all-Tracks, revoked-merge_all,
}

-- objects applied one after another
unfoldable pub apply_all : Crypto → TrustPolicy → List Json → TrustPolicy
apply_all c p [] = p
apply_all c p (o ∷ objects) = apply_all c (apply c p o).0 objects

pub revoked-notify : (newly : List String) (q : TrustPolicy) → (notify newly q).revoked ≡ q.revoked
unfolding notify
revoked-notify [] q = refl
revoked-notify (d ∷ newly) q = refl

module _ (c : Crypto) (allowed : List String) (masters : Option MasterSet)
    (named : String → List String) where
  pub notify-Tracks :
      (newly : List String) (q : TrustPolicy)
      → Tracks allowed masters named q
      → Tracks allowed masters named (notify newly q)
  unfolding notify
  notify-Tracks [] q t = t
  notify-Tracks (d ∷ newly) q t = record {
    same_allowed = t.same_allowed;
    same_masters = t.same_masters;
    holds = record { held = t.holds.held };
  }

  module _ (p : TrustPolicy) (o : Json) (t : Tracks allowed masters named p)
      (commits : CommitsTo c masters named o) where
    pub apply-Tracks : Tracks allowed masters named (apply c p o).0
    unfolding apply
    apply-Tracks =
        notify-Tracks (merge c p o true).1 (merge c p o true).0
          (merge-Tracks c allowed masters named p o true t commits)

    pub revoked-apply :
        (d : String)
        → contains d (apply c p o).0.revoked ≡ (contains d p.revoked || revokes c masters d o)
    unfolding apply
    revoked-apply d =
        ap (contains d) (revoked-notify (merge c p o true).1 (merge c p o true).0)
        ∙ revoked-merge c allowed masters named p o true t commits d

  pub apply_all-Tracks :
      (objects : List Json) (p : TrustPolicy)
      → Tracks allowed masters named p
      → All (CommitsTo c masters named) objects
      → Tracks allowed masters named (apply_all c p objects)
  unfolding apply_all
  apply_all-Tracks [] p t commits = t
  apply_all-Tracks (o ∷ objects) p t commits =
      apply_all-Tracks objects (apply c p o).0 (apply-Tracks p o t commits.0) commits.1

  pub revoked-apply_all :
      (d : String) (objects : List Json) (p : TrustPolicy)
      → Tracks allowed masters named p
      → All (CommitsTo c masters named) objects
      → contains d (apply_all c p objects).revoked
        ≡ (contains d p.revoked || any (revokes c masters d) objects)
  unfolding apply_all
  revoked-apply_all d [] p t commits = ground arith
  revoked-apply_all d (o ∷ objects) p t commits = ground (
    arith,
    revoked-apply p o t commits.0 d,
    revoked-apply_all d objects (apply c p o).0 (apply-Tracks p o t commits.0) commits.1,
  )

  Tracks-fresh :
      (store : Option RevocationStore) (at : Option ℕ)
      → Tracks allowed masters named
          (record (fresh_policy allowed masters store) { store_stamp = at })
  unfolding lookup
  Tracks-fresh store at = record {
    same_allowed = refl;
    same_masters = refl;
    holds = record { held = λ id r d e n. cc };
  }

  module _ (lines : RevocationStore)
      (commits : All (CommitsTo c masters named) (load c lines)) where
    pub open_policy-Tracks :
        Tracks allowed masters named (open_policy c allowed masters (some lines))
    unfolding open_policy
    open_policy-Tracks =
        merge_all-Tracks c allowed masters named (load c lines) _
          (Tracks-fresh (some lines) (stamp lines)) commits

    pub revoked-open_policy :
        (d : String)
        → contains d (open_policy c allowed masters (some lines)).revoked
          ≡ any (revokes c masters d) (load c lines)
    unfolding open_policy
    revoked-open_policy d =
        revoked-merge_all c allowed masters named d (load c lines) _
          (Tracks-fresh (some lines) (stamp lines)) commits

-- A policy opened over a store of revocations and then given any objects trusts exactly the DIDs
-- that are on the allowlist and that no verified revocation names, of the store or of the objects,
-- whatever their order and number. It is assumed that the record id of each of them commits to the
-- DIDs it names, which is what the digest is for.
pub trusts-apply_all :
    (c : Crypto) (allowed : List String) (masters : Option MasterSet) (named : String → List String)
    (lines : RevocationStore) (objects : List Json) (d : String)
    → All (CommitsTo c masters named) (load c lines)
    → All (CommitsTo c masters named) objects
    → trusts (apply_all c (open_policy c allowed masters (some lines)) objects) d ≡ (
        contains d allowed
        && not (any (revokes c masters d) (load c lines) || any (revokes c masters d) objects))
unfolding trusts
trusts-apply_all c allowed masters named lines objects d stored given =
    let p = open_policy c allowed masters (some lines) in
    let t = open_policy-Tracks c allowed masters named lines stored in
    let t' = apply_all-Tracks c allowed masters named objects p t given in
    ground (
      arith,
      ap (contains d) t'.same_allowed,
      revoked-apply_all c allowed masters named d objects p t given,
      revoked-open_policy c allowed masters named lines stored d,
    )
