-- ===== src/Inference/Mutiny/Balance.antt =====
-- The balance of a mutiny ledger: an incident holds the targets it was reported with, less those
-- cleared; each incident and each reset keeps it.
use secdogie.Prelude.{
  Option-cases, any-append, contains, string_eq, nat_eq, lookup, lookup-put, String, ◌≡◌, refl, sym,
  ap, ◌∙◌, inl, inr, Bool, true, false, not, ◌&&◌, ◌||◌, Option, none, some, List, [], ◌∷◌, arith,
}
use secdogie.Inference.Mutiny.{
  Incident, Reset, MutinyLedger, is_cleared, add_new, add, pairs, reset_new, reset,
}
use secdogie.Inference.Mutiny.Sets.{held_in, held-latch, held-release_all, is_cleared-pairs}

pub data Notice : Type 0 where
  incident : Incident → Notice
  operator : Reset → Notice

unfoldable pub receive : MutinyLedger → Notice → MutinyLedger
receive l (incident inc) = (add l (some inc)).0
receive l (operator r) = (reset l (some r)).0

unfoldable pub receive_all : MutinyLedger → List Notice → MutinyLedger
receive_all l [] = l
receive_all l (n ∷ ns) = receive_all (receive l n) ns

-- an incident of this id that names the target, and a reset that lists both
abbrev pub reports : String → String → Notice → Bool
reports t i (incident inc) = string_eq.beq inc.incident_id i && contains t inc.targets
reports t i (operator r) = false

abbrev pub clears : String → String → Notice → Bool
clears t i (incident inc) = false
clears t i (operator r) = contains t r.targets && contains i r.incident_ids

-- The ids are digests: an incident's commits to its targets, a reset's to what it lists.
abbrev pub Commits : (String → List String) → (String → List String × List String) → Notice → Type 0
Commits named listed (incident inc) = named inc.incident_id ≡ inc.targets
Commits named listed (operator r) = listed r.key ≡ (r.targets, r.incident_ids)

abbrev pub names : Option Incident → String → Bool
names none t = false
names (some inc) t = contains t inc.targets

abbrev pub reported : MutinyLedger → String → String → Bool
reported l t i = names (lookup i l.incidents) t

pub record Balanced (named : String → List String) (listed : String → List String × List String)
    (l : MutinyLedger) : Type 0 where
  pub held :
      (t i : String) → held_in l.latches t i ≡ (reported l t i && not (is_cleared t i l.cleared))
  pub incidents_known :
      (i : String) (inc : Incident) → lookup i l.incidents ≡ some inc → named i ≡ inc.targets
  pub resets_done :
      (k t i : String) (r : Reset)
      → lookup k l.resets ≡ some r
      → contains t (listed k).0 ≡ true
      → contains i (listed k).1 ≡ true
      → is_cleared t i l.cleared ≡ true

module _ (named : String → List String) (listed : String → List String × List String)
    (l : MutinyLedger) (b : Balanced named listed l) where
  module _ (inc : Incident) (commits : named inc.incident_id ≡ inc.targets) where
    module _ (new : lookup inc.incident_id l.incidents ≡ none) where
      reported-add_new :
          (t i : String)
          → reported (add_new l inc).0 t i ≡ (reported l t i || reports t i (incident inc))
      unfolding add_new
      reported-add_new t i = ground (
        arith,
        new,
        lookup-put ⦃e = string_eq⦄ inc.incident_id i inc l.incidents,
        string_eq.beq_iff inc.incident_id i,
      )

      add_new-Balanced : Balanced named listed (add_new l inc).0
      unfolding add_new
      add_new-Balanced = record {
        held = λ t i. ground (
          arith,
          new,
          b.held t i,
          held-latch inc.incident_id l.cleared t i inc.targets l.latches,
          reported-add_new t i,
          string_eq.beq_iff inc.incident_id i,
          ap (λ k. is_cleared t k l.cleared) {x = inc.incident_id} {y = i},
        );
        incidents_known = λ i other e. ground (
          arith,
          new,
          e,
          commits,
          b.incidents_known i other,
          lookup-put ⦃e = string_eq⦄ inc.incident_id i inc l.incidents,
          string_eq.beq_iff inc.incident_id i,
        );
        resets_done = λ k t i r e m n. ground (arith, new, e, m, n, b.resets_done k t i r);
      }

    -- an incident whose id is there changes nothing, and was reported before
    reported_known :
        (known : Incident) (t i : String)
        → lookup inc.incident_id l.incidents ≡ some known
        → reported l t i ≡ (reported l t i || reports t i (incident inc))
    reported_known known t i e = ground (
      arith,
      e,
      commits,
      b.incidents_known inc.incident_id known e,
      string_eq.beq_iff inc.incident_id i,
      ap (contains t) (sym commits ∙ b.incidents_known inc.incident_id known e),
      ap (λ k. lookup k l.incidents) {x = inc.incident_id} {y = i},
    )

    pub after_incident :
        Balanced named listed (receive l (incident inc))
        × ((t i : String)
            → reported (receive l (incident inc)) t i
              ≡ (reported l t i || reports t i (incident inc)))
        × ((receive l (incident inc)).cleared ≡ l.cleared)
    unfolding receive add
    after_incident = elim (Option-cases (lookup inc.incident_id l.incidents)) [
      | inl new ↦
          (add_new-Balanced new, reported-add_new new, unfold add_new in ground (arith, new))
      | inr (known, e) ↦
          let same : (add_new l inc).0 ≡ l = unfold add_new in ground (arith, e) in
          rw same (b, λ t i. reported_known known t i e, refl)
    ]

  module _ (r : Reset) (commits : listed r.key ≡ (r.targets, r.incident_ids)) where
    cleared-reset_new :
        (t i : String)
        → lookup r.key l.resets ≡ none
        → is_cleared t i (reset_new l r).0.cleared
          ≡ (is_cleared t i l.cleared || clears t i (operator r))
    unfolding reset_new
    cleared-reset_new t i new = ground (
      arith,
      new,
      is_cleared-pairs t i r.targets r.incident_ids,
      any-append (λ p. string_eq.beq p.0 t && string_eq.beq p.1 i) l.cleared
          (pairs r.targets r.incident_ids),
    )

    listed_cleared :
        lookup r.key l.resets ≡ none
        → (k t i : String) (other : Reset) → lookup k (reset_new l r).0.resets ≡ some other
        → contains t (listed k).0 ≡ true
        → contains i (listed k).1 ≡ true
        → is_cleared t i (reset_new l r).0.cleared ≡ true
    unfolding reset_new
    listed_cleared new k t i other e m n =
        let here : string_eq.beq r.key k ≡ true → clears t i (operator r) ≡ true = λ same.
          let is_k : listed k ≡ (r.targets, r.incident_ids) =
            ap listed (sym ((string_eq.beq_iff r.key k).0 same)) ∙ commits in
          ground (
            arith,
            m,
            n,
            ap (λ (p : List String × List String). contains t p.0) is_k,
            ap (λ (p : List String × List String). contains i p.1) is_k,
          ) in
        ground (
          arith,
          new,
          e,
          m,
          n,
          here,
          cleared-reset_new t i new,
          b.resets_done k t i other,
          lookup-put ⦃e = string_eq⦄ r.key k r l.resets,
        )

    reset_new-Balanced : lookup r.key l.resets ≡ none → Balanced named listed (reset_new l r).0
    unfolding reset_new
    reset_new-Balanced new = record {
      held = λ t i. ground (
        arith,
        new,
        b.held t i,
        held-release_all r.targets r.incident_ids l.latches t i,
        cleared-reset_new t i new,
      );
      incidents_known = λ i other e. ground (arith, new, e, b.incidents_known i other);
      resets_done = λ k t i other e m n. listed_cleared new k t i other e m n;
    }

    -- a reset whose digest is there changes nothing, and all it lists is cleared
    cleared_known :
        (known : Reset) (t i : String)
        → lookup r.key l.resets ≡ some known
        → is_cleared t i l.cleared ≡ (is_cleared t i l.cleared || clears t i (operator r))
    cleared_known known t i e = ground (
      arith,
      b.resets_done r.key t i known e,
      ap (λ (p : List String × List String). contains t p.0) commits,
      ap (λ (p : List String × List String). contains i p.1) commits,
    )

    pub after_reset :
        Balanced named listed (receive l (operator r))
        × ((t i : String)
            → is_cleared t i (receive l (operator r)).cleared
              ≡ (is_cleared t i l.cleared || clears t i (operator r)))
        × ((receive l (operator r)).incidents ≡ l.incidents)
    unfolding receive reset
    after_reset = elim (Option-cases (lookup r.key l.resets)) [
      | inl new ↦ (
        reset_new-Balanced new,
        λ t i. cleared-reset_new t i new,
        unfold reset_new in ground (arith, new),
      )
      | inr (known, e) ↦
          let same : (reset_new l r).0 ≡ l = unfold reset_new in ground (arith, e) in
          rw same (b, λ t i. cleared_known known t i e, refl)
    ]
