-- ===== src/Inference/Mutiny/Held.antt =====
-- Which incidents hold which targets after any history of incidents and resets, in any order.
use secdogie.Prelude.{
  any, All, string_eq, nat_eq, lookup, get_or, String, ◌≡◌, refl, ap, ◌∙◌, not, ◌&&◌, ◌||◌, List,
  [], ◌∷◌, arith,
}
use secdogie.Inference.Mutiny.{MutinyLedger, empty_ledger, is_cleared}
use secdogie.Inference.Mutiny.Sets.{held_in}
use secdogie.Inference.Mutiny.Balance.{
  Notice, incident, operator, receive, receive_all, reports, clears, Commits, names, reported,
  Balanced, after_incident, after_reset,
}

module _ (named : String → List String) (listed : String → List String × List String) where
  pub held-receive_all :
      (ns : List Notice) (l : MutinyLedger) (t i : String)
      → Balanced named listed l
      → All (Commits named listed) ns
      → held_in (receive_all l ns).latches t i ≡ (
          (reported l t i || any (reports t i) ns)
          && not (is_cleared t i l.cleared || any (clears t i) ns))
  unfolding receive_all
  held-receive_all [] l t i b h = ground (arith, b.held t i)
  held-receive_all (incident inc ∷ ns) l t i b h =
      let (b', grown, same) = after_incident named listed l b inc h.0 in
      held-receive_all ns (receive l (incident inc)) t i b' h.1
      ∙ ground (arith, grown t i, ap (is_cleared t i) same)
  held-receive_all (operator r ∷ ns) l t i b h =
      let (b', grown, same) = after_reset named listed l b r h.0 in
      held-receive_all ns (receive l (operator r)) t i b' h.1
      ∙ ground (arith, grown t i, ap (λ d. names (lookup i d) t) same)

  Balanced-empty : Balanced named listed empty_ledger
  unfolding get_or lookup
  Balanced-empty = record {
    held = λ t i. refl;
    incidents_known = λ i inc e. cc;
    resets_done = λ k t i r e. absurd (ground arith);
  }

-- After any incidents and resets, in any order and number, an incident holds a target exactly if it
-- was reported with that target and no reset listed the two together, before or after. It is assumed
-- that an incident's id commits to its targets and a reset's digest to what it lists.
pub held_iff_reported :
    (named : String → List String) (listed : String → List String × List String) (ns : List Notice)
    (t i : String)
    → All (Commits named listed) ns
    → held_in (receive_all empty_ledger ns).latches t i
      ≡ (any (reports t i) ns && not (any (clears t i) ns))
unfolding lookup
held_iff_reported named listed ns t i h =
    held-receive_all named listed ns empty_ledger t i (Balanced-empty named listed) h
