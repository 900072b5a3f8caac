-- ===== src/Transport/Dht/Lookup/Asked.antt =====
-- Whom a lookup asks: no peer twice, and no more than it may.
use mathlib.Core.List.{append-nil, append_assoc}
use secdogie.Prelude.{
  if◌then◌else◌, Bool-cases, is_none, either_way, length, select, All, length-append, length-take,
  contains, string_eq, nat_eq, Dict, keys, lookup, get_or, put, Distinct, put-Distinct, Unrepeated,
  contains-select, select-Unrepeated, append-Unrepeated, keys-Unrepeated, ◌>>=◌, >>=-eq-some,
  sort_by, contains-sort_by, sort_by-Unrepeated, contains-take, take-Unrepeated, ℕ, zero, suc, ◌+◌,
  ◌*◌, ◌≤◌, String, ◌≡◌, refl, sym, ap, ◌∙◌, subst, ◌≢◌, inl, inr, Bool, true, false, not, Option,
  some, List, [], ◌∷◌, ◌++◌, arith,
}
use secdogie.Identity.Json.{Json}
use secdogie.Identity.Signing.{Crypto}
use secdogie.Transport.Membership.{Conversions, Verdict, raises, refused, accepted, verify_record}
use secdogie.Transport.Dht.Lookup.{
  Search, distance_to, seeded, absorb_verdict, absorb, ask_each, candidates, is_empty, rounds,
  opening, search,
}
use secdogie.Transport.Dht.Lookup.Returns.{rounds-return}

module _ (c : Crypto) (v : Conversions) (node_id : String → ℕ) (query : String → ℕ → List Json)
    (trusted : String → Bool) (now : Option ℕ) (target : ℕ) where
  -- after some queries: the shortlist is a dict, and these have been asked
  record Asked (queried : List String) (s : Search) : Type 0 where
    distinct : Distinct s.shortlist
    asked : s.queried ≡ queried

  absorb_verdict-Asked :
      (s s' : Search) (d : Verdict) (queried : List String)
      → Asked queried s
      → absorb_verdict c v node_id query trusted now target s d ≡ some s'
      → Asked queried s'
  unfolding absorb_verdict
  absorb_verdict-Asked s s' raises queried h e = absurd (ground (arith, e))
  absorb_verdict-Asked s s' refused queried h e =
      let same : s ≡ s' = ground (arith, e) in subst (Asked queried) same h
  absorb_verdict-Asked s s' (accepted r) queried h e =
      let grown = put r.did (distance_to c v node_id query trusted now target r.did) s.shortlist in
      let asked = h.asked in
      let same : (if is_none (lookup r.did s.shortlist) then grown else s.shortlist)
          ≡ s'.shortlist =
        ground (arith, e) in
      record {
        distinct =
            subst (λ d. Distinct d) same
              (either_way (λ (d : Dict String ℕ). Distinct d) (is_none (lookup r.did s.shortlist)) _
                _ (λ new. put-Distinct r.did _ s.shortlist h.distinct) λ old. h.distinct);
        asked = ground (arith, e, asked);
      }

  absorb-Asked :
      (os : List Json) (s s' : Search) (queried : List String)
      → Asked queried s
      → absorb c v node_id query trusted now target s os ≡ some s'
      → Asked queried s'
  unfolding absorb
  absorb-Asked [] s s' queried h e =
      let same : s ≡ s' = ground (arith, e) in subst (Asked queried) same h
  absorb-Asked (o ∷ os) s s' queried h e =
      let (mid, first, rest) = >>=-eq-some _ _ e in
      absorb-Asked os mid s' queried
        (absorb_verdict-Asked s mid (verify_record c v trusted now o) queried h first) rest

  ask_each-Asked :
      (dids : List String) (s s' : Search) (queried : List String)
      → Asked queried s
      → ask_each c v node_id query trusted now target s dids ≡ some s'
      → Asked (queried ++ dids) s'
  unfolding ask_each
  ask_each-Asked [] s s' queried h e =
      let same : s ≡ s' = ground (arith, e) in
      subst (λ q. Asked q s') (sym (append-nil queried)) (subst (Asked queried) same h)
  ask_each-Asked (did ∷ dids) s s' queried h e =
      let (mid, first, rest) = >>=-eq-some _ _ e in
      let began : Asked (queried ++ did ∷ []) (record s { queried = s.queried ++ did ∷ [] }) =
        record { distinct = h.distinct; asked = ap (λ q. q ++ did ∷ []) h.asked } in
      subst (λ q. Asked q s') (append_assoc queried (did ∷ []) dids)
        (ask_each-Asked dids mid s' (queried ++ did ∷ [])
          (absorb-Asked (query did target) _ mid (queried ++ did ∷ []) began first) rest)

  absorb_verdict-queried :
      (s s' : Search) (d : Verdict)
      → absorb_verdict c v node_id query trusted now target s d ≡ some s'
      → s'.queried ≡ s.queried
  unfolding absorb_verdict
  absorb_verdict-queried s s' raises e = absurd (ground (arith, e))
  absorb_verdict-queried s s' refused e = ground (arith, e)
  absorb_verdict-queried s s' (accepted r) e = ground (arith, e)

  absorb-queried :
      (os : List Json) (s s' : Search)
      → absorb c v node_id query trusted now target s os ≡ some s'
      → s'.queried ≡ s.queried
  unfolding absorb absorb_verdict
  absorb-queried [] s s' e = ground (arith, e)
  absorb-queried (o ∷ os) s s' e =
      let (mid, first, rest) = >>=-eq-some _ _ e in
      absorb-queried os mid s' rest
      ∙ absorb_verdict-queried s mid (verify_record c v trusted now o) first

  queried-ask_each :
      (dids : List String) (s s' : Search)
      → ask_each c v node_id query trusted now target s dids ≡ some s'
      → s'.queried ≡ s.queried ++ dids
  unfolding ask_each
  queried-ask_each [] s s' e =
      let same : s ≡ s' = ground (arith, e) in
      ap (λ x. x.queried) (sym same) ∙ sym (append-nil s.queried)
  queried-ask_each (did ∷ dids) s s' e =
      let (mid, first, rest) = >>=-eq-some _ _ e in
      queried-ask_each dids mid s' rest
      ∙ ap (λ q. q ++ dids) (absorb-queried (query did target) _ mid first)
      ∙ append_assoc s.queried (did ∷ []) dids

  -- the candidates are new, different and few
  record Chosen (alpha : ℕ) (s : Search) (dids : List String) : Type 0 where
    few : length dids ≤ alpha
    different : Unrepeated dids
    fresh : (did : String) → contains did dids ≡ true → contains did s.queried ≡ false

  candidates_few :
      (alpha : ℕ) (s : Search)
      → length (candidates c v node_id query trusted now target alpha s) ≤ alpha
  unfolding candidates
  candidates_few alpha s =
      let unasked = λ (d : String). not (contains d s.queried) in
      let key = λ (d : String). get_or d 0 s.shortlist in
      omega (arith, length-take alpha (sort_by key (select unasked (keys s.shortlist))))

  candidates-Chosen :
      (alpha : ℕ) (s : Search)
      → Distinct s.shortlist
      → Chosen alpha s (candidates c v node_id query trusted now target alpha s)
  unfolding candidates
  candidates-Chosen alpha s h =
      let unasked = λ (d : String). not (contains d s.queried) in
      let key = λ (d : String). get_or d 0 s.shortlist in
      let known = keys s.shortlist in
      let sorted = sort_by key (select unasked known) in
      record {
        few = unfold candidates in candidates_few alpha s;
        different = take-Unrepeated alpha sorted (
            sort_by-Unrepeated key (select unasked known)
              (select-Unrepeated unasked known (keys-Unrepeated s.shortlist h)));
        fresh = λ did m. ground (
          arith,
          m,
          contains-take did alpha sorted,
          contains-sort_by key did (select unasked known),
          contains-select did unasked known,
        );
      }

  rounds-Asked :
      (fuel alpha : ℕ) (s s' : Search)
      → Distinct s.shortlist
      → Unrepeated s.queried
      → rounds c v node_id query trusted now target fuel alpha s ≡ some s'
      → Unrepeated s'.queried × (length s'.queried ≤ length s.queried + fuel * alpha)
  unfolding rounds
  rounds-Asked zero alpha s s' d u e =
      let same : s ≡ s' = ground (arith, e) in
      subst (λ x. Unrepeated x.queried × (length x.queried ≤ length s.queried + zero * alpha)) same
        (u, omega arith)
  rounds-Asked (suc fuel) alpha s s' d u e =
      let dids = candidates c v node_id query trusted now target alpha s in
      elim (Bool-cases (is_empty c v node_id query trusted now target dids)) [
        | inl none_left ↦
            let same : s ≡ s' = ground (arith, e, none_left) in
            subst
              (λ x. Unrepeated x.queried × (length x.queried ≤ length s.queried + suc fuel * alpha))
              same (u, omega arith)
        | inr some_left ↦
            let start = record s { progressed = false } in
            let asked = ask_each c v node_id query trusted now target start dids in
            let further = λ (s1 : Search).
              if s1.progressed
              then rounds c v node_id query trusted now target fuel alpha s1
              else some s1 in
            let both : (asked >>= further) ≡ some s' = ground (arith, e, some_left) in
            let (mid, first, rest) = >>=-eq-some asked further both in
            let chosen = candidates-Chosen alpha s d in
            let after =
              ask_each-Asked dids start mid s.queried (record { distinct = d; asked = refl })
                first in
            let more : Unrepeated mid.queried =
              subst Unrepeated (sym after.asked)
                (append-Unrepeated s.queried dids u chosen.different chosen.fresh) in
            let count : length mid.queried ≤ length s.queried + alpha =
              let few = chosen.few in
              omega (arith, few, ap length after.asked, length-append s.queried dids) in
            elim (Bool-cases mid.progressed) [
              | inl going ↦
                  let (different, few) =
                    rounds-Asked fuel alpha mid s' after.distinct more
                      (ground (arith, rest, going)) in
                  (different, grind (arith, few, count))
              | inr done ↦
                  let same : mid ≡ s' = ground (arith, rest, done) in
                  subst
                    (λ x.
                      Unrepeated x.queried
                      × (length x.queried ≤ length s.queried + suc fuel * alpha))
                    same (more, grind (arith, count))
            ]
      ]

  seeded-Distinct :
      (dids : List String) (d : Dict String ℕ)
      → Distinct d
      → Distinct (seeded c v node_id query trusted now target d dids)
  unfolding seeded
  seeded-Distinct [] d h = h
  seeded-Distinct (did ∷ dids) d h = seeded-Distinct dids (put did _ d) (put-Distinct did _ d h)

-- Where the verification of no object that a peer answers with raises, a lookup returns; it has then
-- asked no peer twice, and at most `max_rounds * alpha` peers in all. The candidates of a round are at
-- most `alpha`, whatever the search has found so far, and asking some peers adds exactly these, in
-- their order, to those that have been asked.
pub lookup_is_bounded :
    (c : Crypto) (v : Conversions) (node_id : String → ℕ) (query : String → ℕ → List Json)
    (trusted : String → Bool) (now : Option ℕ) (target : ℕ) (seed : List String)
    (alpha max_rounds : ℕ)
    → ((did : String) → All (λ o. verify_record c v trusted now o ≢ raises) (query did target))
    → (s : Search) × (search c v node_id query trusted now target seed alpha max_rounds ≡ some s)
      × Unrepeated s.queried
      × (length s.queried ≤ max_rounds * alpha)
      × ((t : Search) → length (candidates c v node_id query trusted now target alpha t) ≤ alpha)
      × ((t t' : Search) (dids : List String)
          → ask_each c v node_id query trusted now target t dids ≡ some t'
          → t'.queried ≡ t.queried ++ dids)
unfolding search opening
lookup_is_bounded c v node_id query trusted now target seed alpha max_rounds calm =
    let (s, e) =
      rounds-return c v node_id query trusted now target calm max_rounds alpha
        (opening c v node_id query trusted now target seed) in
    let (different, few) =
      rounds-Asked c v node_id query trusted now target max_rounds alpha
        (opening c v node_id query trusted now target seed) s
        (seeded-Distinct c v node_id query trusted now target seed [] tt) tt e in
    (
      s,
      e,
      different,
      omega (arith, few),
      candidates_few c v node_id query trusted now target alpha,
      λ t t' dids. queried-ask_each c v node_id query trusted now target dids t t',
    )
