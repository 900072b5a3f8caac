-- ===== src/Inference/Lease/Clean.antt =====
-- The invariant of a lease book: every lease is filed under its id, and a revoked id under none.
use secdogie.Prelude.{
  leb, if◌then◌else◌, Bool-cases, Option-cases, select, contains, string_eq, nat_eq, Dict, lookup,
  remove, Distinct, lookup-put, lookup-remove, put-Distinct, remove-Distinct, lookup-retain,
  retain-Distinct, contains-append, ℕ, String, ◌≡◌, ap, inl, inr, Bool, true, not, Option, none,
  some, List, [], ◌∷◌, arith,
}
use secdogie.Inference.Lease.{Lease, LeaseBook, add_checked, remove_all, revoke_checked, prune}

lookup-remove_all :
    (lid : String) (lids : List String) (d : Dict String Lease)
    → lookup lid (remove_all lids d) ≡ (if contains lid lids then none else lookup lid d)
unfolding remove_all
lookup-remove_all lid [] d = ground arith
lookup-remove_all lid (x ∷ lids) d =
    ground (arith, lookup-remove_all lid lids (remove x d), lookup-remove ⦃e = string_eq⦄ x lid d)

-- a revoked id stands for no lease
pub record IsClean (b : LeaseBook) : Type 0 where
  pub distinct : Distinct b.leases
  pub gone : (lid : String) → contains lid b.revoked ≡ true → lookup lid b.leases ≡ none
  pub filed : (lid : String) (l : Lease) → lookup lid b.leases ≡ some l → l.lease_id ≡ lid

remove_all-Distinct :
    (lids : List String) (d : Dict String Lease) → Distinct d → Distinct (remove_all lids d)
unfolding remove_all
remove_all-Distinct [] d h = h
remove_all-Distinct (x ∷ lids) d h =
    remove_all-Distinct lids (remove x d) (remove-Distinct ⦃e = string_eq⦄ x d h)

pub add-IsClean : (b : LeaseBook) (o : Option Lease) → IsClean b → IsClean (add_checked b o).0
unfolding add_checked
add-IsClean b none i = i
add-IsClean b (some l) i = elim (Bool-cases (contains l.lease_id b.revoked)) [
  | inl out ↦ rw out i
  | inr fine ↦ elim (Option-cases (lookup l.lease_id b.leases)) [
    | inr (known, e) ↦ rw (fine, e) i
    | inl new ↦
        rw (fine, new)
          (record {
            distinct = put-Distinct ⦃e = string_eq⦄ l.lease_id l b.leases i.distinct;
            gone = λ lid m. ground (
              arith,
              m,
              fine,
              i.gone lid,
              lookup-put ⦃e = string_eq⦄ l.lease_id lid l b.leases,
              string_eq.beq_iff l.lease_id lid,
              ap (λ (k : String). contains k b.revoked) {x = l.lease_id} {y = lid},
            );
            filed = λ lid m e. ground (
              arith,
              e,
              i.filed lid m,
              lookup-put ⦃e = string_eq⦄ l.lease_id lid l b.leases,
              string_eq.beq_iff l.lease_id lid,
            );
          })
  ]
]

pub revoke-IsClean :
    (b : LeaseBook) (o : Option (List String)) → IsClean b → IsClean (revoke_checked b o).0
unfolding revoke_checked
revoke-IsClean b none i = i
revoke-IsClean b (some ids) i =
    let newly = select (λ x. not (contains x b.revoked)) ids in
    record {
      distinct = remove_all-Distinct newly b.leases i.distinct;
      gone = λ lid m. ground (
        arith,
        m,
        i.gone lid,
        lookup-remove_all lid newly b.leases,
        contains-append ⦃e = string_eq⦄ lid b.revoked newly,
      );
      filed = λ lid l e. ground (arith, e, i.filed lid l, lookup-remove_all lid newly b.leases);
    }

pub prune-IsClean : (b : LeaseBook) (now : ℕ) → IsClean b → IsClean (prune b now)
unfolding prune
prune-IsClean b now i =
    let keep : String → Lease → Bool = λ _ l. not (leb l.expires_at now) in
    record {
      distinct = retain-Distinct ⦃e = string_eq⦄ keep b.leases i.distinct;
      gone = λ lid m.
          ground
            (arith, m, i.gone lid m, lookup-retain ⦃e = string_eq⦄ keep lid b.leases i.distinct);
      filed = λ lid l e.
          ground
            (arith, e, i.filed lid l, lookup-retain ⦃e = string_eq⦄ keep lid b.leases i.distinct);
    }
