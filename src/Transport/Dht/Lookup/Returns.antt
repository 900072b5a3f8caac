-- ===== src/Transport/Dht/Lookup/Returns.antt =====
-- A lookup returns where no verification raises.
use secdogie.Prelude.{
  Bool-cases, All, string_eq, nat_eq, ◌>>=◌, ℕ, zero, suc, String, ◌≡◌, refl, ap, ◌∙◌, ◌≢◌, inl,
  inr, Bool, false, Option, some, List, [], ◌∷◌, ◌++◌, arith,
}
use secdogie.Identity.Json.{Json}
use secdogie.Identity.Signing.{Crypto}
use secdogie.Transport.Membership.{Conversions, Verdict, raises, refused, accepted, verify_record}
use secdogie.Transport.Dht.Lookup.{
  Search, absorb_verdict, absorb, ask_each, candidates, is_empty, rounds,
}

module _ (c : Crypto) (v : Conversions) (node_id : String → ℕ) (query : String → ℕ → List Json)
    (trusted : String → Bool) (now : Option ℕ) (target : ℕ)
    (calm : (did : String)
      → All (λ o. verify_record c v trusted now o ≢ raises) (query did target)) where
  absorb_verdict-return :
      (s : Search) (d : Verdict)
      → d ≢ raises
      → (s' : Search) × (absorb_verdict c v node_id query trusted now target s d ≡ some s')
  unfolding absorb_verdict
  absorb_verdict-return s raises h = absurd (h refl)
  absorb_verdict-return s refused h = (s, refl)
  absorb_verdict-return s (accepted r) h = (_, refl)

  absorb-return :
      (os : List Json) (s : Search)
      → All (λ o. verify_record c v trusted now o ≢ raises) os
      → (s' : Search) × (absorb c v node_id query trusted now target s os ≡ some s')
  unfolding absorb
  absorb-return [] s h = (s, refl)
  absorb-return (o ∷ os) s h =
      let (mid, first) = absorb_verdict-return s (verify_record c v trusted now o) h.0 in
      let (s', rest) = absorb-return os mid h.1 in
      (s', ap (λ m. m >>= λ x. absorb c v node_id query trusted now target x os) first ∙ rest)

  ask_each-return :
      (dids : List String) (s : Search)
      → (s' : Search) × (ask_each c v node_id query trusted now target s dids ≡ some s')
  unfolding ask_each
  ask_each-return [] s = (s, refl)
  ask_each-return (did ∷ dids) s =
      let (mid, first) =
        absorb-return (query did target) (record s { queried = s.queried ++ did ∷ [] })
          (calm did) in
      let (s', rest) = ask_each-return dids mid in
      (s', ap (λ m. m >>= λ x. ask_each c v node_id query trusted now target x dids) first ∙ rest)

  pub rounds-return :
      (fuel alpha : ℕ) (s : Search)
      → (s' : Search) × (rounds c v node_id query trusted now target fuel alpha s ≡ some s')
  unfolding rounds
  rounds-return zero alpha s = (s, refl)
  rounds-return (suc fuel) alpha s =
      let dids = candidates c v node_id query trusted now target alpha s in
      let (mid, first) = ask_each-return dids (record s { progressed = false }) in
      let (s', rest) = rounds-return fuel alpha mid in
      elim (Bool-cases (is_empty c v node_id query trusted now target dids)) [
        | inl none_left ↦ (s, ground (arith, none_left))
        | inr some_left ↦ elim (Bool-cases mid.progressed) [
          | inl going ↦ (s', ground (arith, some_left, first, going, rest))
          | inr done ↦ (mid, ground (arith, some_left, first, done))
        ]
      ]
