-- ===== src/Inference/Lease/Book.antt =====
-- What a lease book holds after any history: a revocation is for good.
use secdogie.Prelude.{
  Option-cases, select, any, beq_refl, contains, string_eq, nat_eq, Dict, values, lookup, retain,
  Distinct, contains-append, contains-select, ℕ, String, ◌≡◌, refl, sym, ap, ◌∙◌, subst, inl, inr,
  Bool, true, false, not, ◌&&◌, none, some, List, [], ◌∷◌, ◌++◌, arith,
}
use secdogie.Identity.Json.{Json}
use secdogie.Identity.Signing.{Crypto}
use secdogie.Inference.Lease.{
  TrustRoots, Lease, check_lease, check_lease_revocation, LeaseBook, add_checked, add,
  revoke_checked, revoke, check, live, prune,
}
use secdogie.Inference.Lease.Clean.{IsClean, add-IsClean, revoke-IsClean, prune-IsClean}

pub data BookEvent : Type 0 where
  added : Json → BookEvent
  revoked : Json → BookEvent
  pruned : ℕ → BookEvent

unfoldable pub step : Crypto → LeaseBook → BookEvent → LeaseBook
step c b (added lease) = (add c b lease).0
step c b (revoked o) = (revoke c b o).0
step c b (pruned now) = prune b now

unfoldable pub run : Crypto → LeaseBook → List BookEvent → LeaseBook
run c b [] = b
run c b (e ∷ es) = run c (step c b e) es

step-IsClean : (c : Crypto) (b : LeaseBook) (e : BookEvent) → IsClean b → IsClean (step c b e)
unfolding step add revoke
step-IsClean c b (added lease) i = add-IsClean b (check_lease c b.trust lease) i
step-IsClean c b (revoked o) i = revoke-IsClean b (check_lease_revocation c b.trust o) i
step-IsClean c b (pruned now) i = prune-IsClean b now i

step-keeps :
    (c : Crypto) (b : LeaseBook) (e : BookEvent) (lid : String)
    → ((step c b e).trust ≡ b.trust)
      × ((contains lid b.revoked && not (contains lid (step c b e).revoked)) ≡ false)
unfolding step add revoke add_checked revoke_checked prune
step-keeps c b (added lease) lid = (ground arith, ground arith)
step-keeps c b (revoked o) lid = elim (Option-cases (check_lease_revocation c b.trust o)) [
  | inl bad ↦ (ground (arith, bad), ground (arith, bad))
  | inr (ids, e) ↦ (
    ground (arith, e),
    ground (
      arith,
      e,
      contains-append ⦃e = string_eq⦄ lid b.revoked (select (λ x. not (contains x b.revoked)) ids),
    ),
  )
]
step-keeps c b (pruned now) lid = (refl, ground arith)

abbrev pub empty_book : TrustRoots → LeaseBook
empty_book trust = record { trust = trust; leases = []; revoked = [] }

empty-IsClean : (trust : TrustRoots) → IsClean (empty_book trust)
unfolding lookup
empty-IsClean trust = record {
  distinct = tt;
  gone = λ lid m. refl;
  filed = λ lid l e. absurd (ground arith);
}

run-IsClean : (c : Crypto) (es : List BookEvent) (b : LeaseBook) → IsClean b → IsClean (run c b es)
unfolding run
run-IsClean c [] b i = i
run-IsClean c (e ∷ es) b i = run-IsClean c es (step c b e) (step-IsClean c b e i)

run-trust : (c : Crypto) (es : List BookEvent) (b : LeaseBook) → (run c b es).trust ≡ b.trust
unfolding run
run-trust c [] b = refl
run-trust c (e ∷ es) b = run-trust c es (step c b e) ∙ (step-keeps c b e "").0

-- once revoked, always revoked
run-revoked :
    (c : Crypto) (es : List BookEvent) (b : LeaseBook) (lid : String)
    → contains lid b.revoked ≡ true
    → contains lid (run c b es).revoked ≡ true
unfolding run
run-revoked c [] b lid h = h
run-revoked c (e ∷ es) b lid h =
    run-revoked c es (step c b e) lid (ground (arith, h, (step-keeps c b e lid).1))

run-append :
    (c : Crypto) (before after : List BookEvent) (b : LeaseBook)
    → run c b (before ++ after) ≡ run c (run c b before) after
unfolding run
run-append c [] after b = refl
run-append c (e ∷ before) after b = run-append c before after (step c b e)

revoke-revoked :
    (c : Crypto) (b : LeaseBook) (o : Json) (ids : List String) (lid : String)
    → check_lease_revocation c b.trust o ≡ some ids
    → contains lid ids ≡ true
    → contains lid (step c b (revoked o)).revoked ≡ true
unfolding step revoke revoke_checked
revoke-revoked c b o ids lid e h = ground (
  arith,
  e,
  h,
  contains-append ⦃e = string_eq⦄ lid b.revoked (select (λ x. not (contains x b.revoked)) ids),
  contains-select ⦃e = string_eq⦄ lid (λ x. not (contains x b.revoked)) ids,
)

not_live :
    (p : String → Lease → Bool) (lid : String) (d : Dict String Lease)
    → Distinct d
    → lookup lid d ≡ none
    → ((k : String) (l : Lease) → lookup k d ≡ some l → l.lease_id ≡ k)
    → any (λ l. string_eq.beq l.lease_id lid) (values (retain p d)) ≡ false
unfolding lookup retain
not_live p lid [] h n f = refl
not_live p lid ((k, l) ∷ d) h n f =
    let mine : l.lease_id ≡ k = f k l (ground (arith, beq_refl ⦃e = string_eq⦄ k)) in
    let rest = not_live p lid d h.1 (ground (arith, n)) λ j m e.
      f j m (ground (arith, e, h.0, string_eq.beq_iff k j, ap (λ x. lookup x d) {x = k} {y = j})) in
    ground (arith, rest, mine, n, string_eq.beq_iff l.lease_id lid, string_eq.beq_iff k lid)

check_revoked :
    (c : Crypto) (b : LeaseBook) (lease : Json) (l : Lease) (provider model : String) (now skew : ℕ)
    → check_lease c b.trust lease ≡ some l
    → contains l.lease_id b.revoked ≡ true
    → check c b lease provider model now skew ≡ false
unfolding check
check_revoked c b lease l provider model now skew e out = ground (arith, e, out)

-- A lease that a trusted broker revoked is out for good: whatever is added, revoked or pruned
-- before and after, no live lease has its id, and it entitles nobody to answer with any model at any
-- time, with any skew.
pub revoked_for_good :
    (c : Crypto) (trust : TrustRoots) (before after : List BookEvent) (o lease : Json)
    (ids : List String) (l : Lease) (provider model : String) (now skew : ℕ)
    → check_lease_revocation c trust o ≡ some ids
    → check_lease c trust lease ≡ some l
    → contains l.lease_id ids ≡ true
    → (any
          (λ x. string_eq.beq x.lease_id l.lease_id)
          (live (run c (empty_book trust) (before ++ revoked o ∷ after)) now)
        ≡ false)
      × (check c
            (run c (empty_book trust) (before ++ revoked o ∷ after))
            lease
            provider
            model
            now
            skew
          ≡ false)
revoked_for_good c trust before after o lease ids l provider model now skew e good m =
    let b = run c (empty_book trust) (before ++ revoked o ∷ after) in
    let first = run c (empty_book trust) before in
    let clean =
      run-IsClean c (before ++ revoked o ∷ after) (empty_book trust) (empty-IsClean trust) in
    let same = run-trust c (before ++ revoked o ∷ after) (empty_book trust) in
    let here =
      revoke-revoked c first o ids l.lease_id (rw (run-trust c before (empty_book trust)) e) m in
    let out : contains l.lease_id b.revoked ≡ true =
      rw (run-append c before (revoked o ∷ after) (empty_book trust))
        (unfold run in run-revoked c after (step c first (revoked o)) l.lease_id here) in
    (
      unfold live in
          not_live _ l.lease_id b.leases clean.distinct (clean.gone l.lease_id out) clean.filed,
      check_revoked c b lease l provider model now skew
          (subst (λ t. check_lease c t lease ≡ some l) (sym same) good) out,
    )
