-- ===== src/Inference/Mutiny/NoneEmpty.antt =====
-- No target of a mutiny ledger is latched by nothing: a reset that empties a latch removes it.
use secdogie.Prelude.{
  Option-cases, select, contains, string_eq, nat_eq, Dict, lookup, get_or, lookup-put,
  lookup-remove, String, ◌≡◌, refl, sym, subst, inl, inr, Bool, true, false, not, Option, none,
  some, List, [], ◌∷◌, arith,
}
use secdogie.Inference.Mutiny.{
  MutinyLedger, add_to, latch, add_new, add, leave, release_from, release, release_all, reset_new,
  reset,
}
use secdogie.Inference.Mutiny.Balance.{Notice, incident, operator, receive, receive_all}

abbrev pub some_held : List String → Bool
some_held [] = false
some_held (i ∷ is) = true

-- no target is latched by nothing
unfoldable pub NoneEmpty : Dict String (List String) → Type 0
NoneEmpty latches =
    (t : String) (held : List String) → lookup t latches ≡ some held → some_held held ≡ true

some_held-add_to : (i : String) (xs : List String) → some_held (add_to i xs) ≡ true
unfolding add_to
some_held-add_to i [] = refl
some_held-add_to i (x ∷ xs) = ground arith

latch-NoneEmpty :
    (i : String) (cleared : List (String × String)) (ts : List String)
    (latches : Dict String (List String))
    → NoneEmpty latches
    → NoneEmpty (latch i cleared ts latches)
unfolding latch NoneEmpty
latch-NoneEmpty i cleared [] latches h = h
latch-NoneEmpty i cleared (u ∷ ts) latches h = latch-NoneEmpty i cleared ts _ λ t held e. ground (
  arith,
  e,
  h t held,
  some_held-add_to i (get_or u [] latches),
  lookup-put ⦃e = string_eq⦄ u t (add_to i (get_or u [] latches)) latches,
)

leave-NoneEmpty :
    (u : String) (rest : List String) (latches : Dict String (List String))
    → NoneEmpty latches
    → NoneEmpty (leave u rest latches).0
unfolding leave NoneEmpty
leave-NoneEmpty u [] latches h t held e =
    ground (arith, e, h t held, lookup-remove ⦃e = string_eq⦄ u t latches)
leave-NoneEmpty u (r ∷ rest) latches h t held e =
    ground (arith, e, h t held, lookup-put ⦃e = string_eq⦄ u t (r ∷ rest) latches)

release_from-NoneEmpty :
    (u : String) (ids : List String) (latches : Dict String (List String))
    (found : Option (List String))
    → NoneEmpty latches
    → NoneEmpty (release_from u ids latches found).0
unfolding release_from
release_from-NoneEmpty u ids latches none h = h
release_from-NoneEmpty u ids latches (some held) h =
    leave-NoneEmpty u (select (λ j. not (contains j ids)) held) latches h

release_all-NoneEmpty :
    (ts ids : List String) (latches : Dict String (List String))
    → NoneEmpty latches
    → NoneEmpty (release_all ts ids latches).0
unfolding release_all release
release_all-NoneEmpty [] ids latches h = h
release_all-NoneEmpty (u ∷ ts) ids latches h =
    release_all-NoneEmpty ts ids (release u ids latches).0
      (release_from-NoneEmpty u ids latches (lookup u latches) h)

receive-NoneEmpty :
    (l : MutinyLedger) (n : Notice) → NoneEmpty l.latches → NoneEmpty (receive l n).latches
unfolding receive add add_new reset reset_new
receive-NoneEmpty l (incident inc) h = elim (Option-cases (lookup inc.incident_id l.incidents)) [
  | inl new ↦
      let is : (receive l (incident inc)).latches
          ≡ latch inc.incident_id l.cleared inc.targets l.latches =
        ground (arith, new) in
      subst NoneEmpty (sym is) (latch-NoneEmpty inc.incident_id l.cleared inc.targets l.latches h)
  | inr (known, e) ↦
      let is : (receive l (incident inc)).latches ≡ l.latches = ground (arith, e) in
      subst NoneEmpty (sym is) h
]
receive-NoneEmpty l (operator r) h = elim (Option-cases (lookup r.key l.resets)) [
  | inl new ↦
      let is : (receive l (operator r)).latches
          ≡ (release_all r.targets r.incident_ids l.latches).0 =
        ground (arith, new) in
      subst NoneEmpty (sym is) (release_all-NoneEmpty r.targets r.incident_ids l.latches h)
  | inr (known, e) ↦
      let is : (receive l (operator r)).latches ≡ l.latches = ground (arith, e) in
      subst NoneEmpty (sym is) h
]

pub receive_all-NoneEmpty :
    (ns : List Notice) (l : MutinyLedger)
    → NoneEmpty l.latches
    → NoneEmpty (receive_all l ns).latches
unfolding receive_all
receive_all-NoneEmpty [] l h = h
receive_all-NoneEmpty (n ∷ ns) l h =
    receive_all-NoneEmpty ns (receive l n) (receive-NoneEmpty l n h)
