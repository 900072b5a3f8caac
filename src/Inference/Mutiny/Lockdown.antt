-- ===== src/Inference/Mutiny/Lockdown.antt =====
-- The lockdown lasts exactly as long as some incident still holds a target.
use secdogie.Prelude.{
  Bool-cases, any, All, beq_refl, contains, string_eq, nat_eq, Dict, lookup, get_or, any-contains,
  String, ◌≡◌, refl, sym, ◌∙◌, inl, inr, Bool, true, false, not, ◌&&◌, List, [], ◌∷◌, arith,
}
use secdogie.Inference.Mutiny.{MutinyLedger, empty_ledger, lockdown}
use secdogie.Inference.Mutiny.Sets.{held_in}
use secdogie.Inference.Mutiny.Balance.{
  Notice, incident, operator, receive_all, reports, clears, Commits,
}
use secdogie.Inference.Mutiny.NoneEmpty.{some_held, NoneEmpty, receive_all-NoneEmpty}
use secdogie.Inference.Mutiny.Held.{held_iff_reported}

-- an incident with a target that no reset of the history lists together with it
abbrev pub unresolved : List Notice → Notice → Bool
unresolved ns (incident inc) = any (λ t. not (any (clears t inc.incident_id) ns)) inc.targets
unresolved ns (operator r) = false

-- an entry of `unresolved` from what holds a target, and back
unresolved-of-reports :
    (ns ms : List Notice) (t i : String)
    → any (reports t i) ms ≡ true
    → any (clears t i) ns ≡ false
    → any (unresolved ns) ms ≡ true
unresolved-of-reports ns [] t i h k = absurd (ground arith)
unresolved-of-reports ns (incident inc ∷ ms) t i h k =
    elim (Bool-cases (string_eq.beq inc.incident_id i && contains t inc.targets)) [
      | inl here ↦
          let at_i : inc.incident_id ≡ i =
            (string_eq.beq_iff inc.incident_id i).0 (ground (arith, here)) in
          let open_here : any (λ x. not (any (clears x inc.incident_id) ns)) inc.targets ≡ true =
            any-contains (λ x. not (any (clears x inc.incident_id) ns)) t inc.targets
              (ground (arith, here)) (rw at_i (rw k refl)) in
          ground (arith, open_here)
      | inr there ↦ ground (arith, there, h, k, unresolved-of-reports ns ms t i)
    ]
unresolved-of-reports ns (operator r ∷ ms) t i h k = unresolved-of-reports ns ms t i h k

first_open :
    (q : String → Bool) (ts : List String)
    → any q ts ≡ true
    → (t : String) × (contains t ts ≡ true) × (q t ≡ true)
first_open q [] h = absurd (ground arith)
first_open q (t ∷ ts) h = elim (Bool-cases (q t)) [
  | inl here ↦ (t, ground (arith, beq_refl ⦃e = string_eq⦄ t), here)
  | inr there ↦
      let (u, m, k) = first_open q ts (ground (arith, h, there)) in (u, ground (arith, m), k)
]

reports-of-unresolved :
    (ns ms : List Notice)
    → any (unresolved ns) ms ≡ true
    → (t : String) × (i : String) × (any (reports t i) ms ≡ true) × (any (clears t i) ns ≡ false)
reports-of-unresolved ns [] h = absurd (ground arith)
reports-of-unresolved ns (incident inc ∷ ms) h = elim (Bool-cases (unresolved ns (incident inc))) [
  | inl here ↦
      let (t, m, k) = first_open (λ x. not (any (clears x inc.incident_id) ns)) inc.targets here in
      (
        t,
        inc.incident_id,
        ground (arith, m, beq_refl ⦃e = string_eq⦄ inc.incident_id),
        ground (arith, k),
      )
  | inr there ↦
      let (t, i, m, k) = reports-of-unresolved ns ms (ground (arith, h, there)) in
      (t, i, ground (arith, m), k)
]
reports-of-unresolved ns (operator r ∷ ms) h = reports-of-unresolved ns ms h

is_locked : Dict String (List String) → Bool
is_locked [] = false
is_locked (e ∷ d) = true

held-of-locked :
    (latches : Dict String (List String))
    → NoneEmpty latches
    → is_locked latches ≡ true
    → (t : String) × (i : String) × (held_in latches t i ≡ true)
unfolding is_locked NoneEmpty lookup get_or
held-of-locked [] h k = absurd (ground arith)
held-of-locked ((t, []) ∷ d) h k =
    let no : some_held [] ≡ true = h t [] (ground (arith, beq_refl ⦃e = string_eq⦄ t)) in
    absurd (ground arith)
held-of-locked ((t, i ∷ is) ∷ d) h k =
    (t, i, ground (arith, beq_refl ⦃e = string_eq⦄ t, beq_refl ⦃e = string_eq⦄ i))

locked-of-held :
    (latches : Dict String (List String)) (t i : String)
    → held_in latches t i ≡ true
    → is_locked latches ≡ true
unfolding is_locked get_or lookup
locked-of-held [] t i h = ground arith
locked-of-held (e ∷ d) t i h = refl

locked_iff_unresolved :
    (latches : Dict String (List String)) (ns : List Notice)
    → NoneEmpty latches
    → ((t i : String) → held_in latches t i ≡ (any (reports t i) ns && not (any (clears t i) ns)))
    → is_locked latches ≡ any (unresolved ns) ns
locked_iff_unresolved latches ns sound held = elim (Bool-cases (any (unresolved ns) ns)) [
  | inl some_open ↦
      let (t, i, m, k) = reports-of-unresolved ns ns some_open in
      locked-of-held latches t i (held t i ∙ ground (arith, m, k)) ∙ sym some_open
  | inr none_open ↦ elim (Bool-cases (is_locked latches)) [
    | inl locked ↦
        let (t, i, m) = held-of-locked latches sound locked in
        let found : any (unresolved ns) ns ≡ true =
          unresolved-of-reports ns ns t i (ground (arith, m, held t i))
            (ground (arith, m, held t i)) in
        absurd (ground (arith, found, none_open))
    | inr free ↦ free ∙ sym none_open
  ]
]

lockdown-is_locked : (l : MutinyLedger) → lockdown l ≡ is_locked l.latches
unfolding lockdown is_locked
lockdown-is_locked l = ground arith

NoneEmpty-empty : NoneEmpty empty_ledger.latches
unfolding NoneEmpty lookup
NoneEmpty-empty t held e = absurd (ground arith)

-- After any incidents and resets, in any order and number, the participant is in lockdown exactly
-- if some reported incident has a target that no reset lists together with it, before or after. It
-- is assumed that an incident's id commits to its targets and a reset's digest to what it lists.
pub lockdown_iff_unresolved :
    (named : String → List String) (listed : String → List String × List String) (ns : List Notice)
    → All (Commits named listed) ns
    → lockdown (receive_all empty_ledger ns) ≡ any (unresolved ns) ns
lockdown_iff_unresolved named listed ns h =
    let l = receive_all empty_ledger ns in
    lockdown-is_locked l
    ∙ locked_iff_unresolved l.latches ns (receive_all-NoneEmpty ns empty_ledger NoneEmpty-empty)
        λ t i. held_iff_reported named listed ns t i h
