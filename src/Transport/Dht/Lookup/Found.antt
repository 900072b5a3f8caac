-- ===== src/Transport/Dht/Lookup/Found.antt =====
-- What a lookup finds is a record of the DID that was looked for, signed by it and allowed.
use secdogie.Prelude.{
  if◌then◌else◌, Bool-cases, Option-cases, string_eq, nat_eq, lookup, put, lookup-put, ◌>>=◌,
  >>=-eq-some, ℕ, zero, suc, String, ◌≡◌, refl, sym, ap, ◌∙◌, subst, inl, inr, Bool, true, false,
  Option, some, List, [], ◌∷◌, ◌++◌, arith,
}
use secdogie.Identity.Json.{Json}
use secdogie.Identity.Signing.{Crypto}
use secdogie.Transport.Membership.{
  Conversions, PeerRecord, Verdict, raises, refused, accepted, verify_record,
}
use secdogie.Transport.Membership.Authentic.{verified-Vouched, verified-signed}
use secdogie.Transport.Dht.{id_bits}
use secdogie.Transport.Dht.Lookup.{
  Search, absorb_verdict, absorb, ask_each, candidates, is_empty, rounds, opening, search,
  find_peer,
}

module _ (c : Crypto) (v : Conversions) (node_id : String → ℕ) (query : String → ℕ → List Json)
    (trusted : String → Bool) (now : Option ℕ) (target : ℕ) where
  -- each record that a lookup keeps verifies, to a record of the DID that it is kept under
  Kept : Search → Type 0
  Kept s =
      (did : String) (o : Json)
      → lookup did s.records ≡ some o
      → (r : PeerRecord) × (verify_record c v trusted now o ≡ accepted r) × (r.did ≡ did)

  absorb_verdict-Kept :
      (s s' : Search) (d : Verdict)
      → ((r : PeerRecord) → d ≡ accepted r → verify_record c v trusted now r.signed ≡ accepted r)
      → Kept s
      → absorb_verdict c v node_id query trusted now target s d ≡ some s'
      → Kept s'
  unfolding absorb_verdict Kept
  absorb_verdict-Kept s s' raises one h e = absurd (ground (arith, e))
  absorb_verdict-Kept s s' refused one h e =
      let same : s ≡ s' = ground (arith, e) in subst Kept same h
  absorb_verdict-Kept s s' (accepted r) one h e =
      let same : put r.did r.signed s.records ≡ s'.records = ground (arith, e) in
      λ did o found. elim (Bool-cases (string_eq.beq r.did did)) [
        | inl mine ↦
            let this : r.signed ≡ o =
              ground (arith, found, sym same, mine, lookup-put r.did did r.signed s.records) in
            (
              r,
              subst (λ x. verify_record c v trusted now x ≡ accepted r) this (one r refl),
              (string_eq.beq_iff r.did did).0 mine,
            )
        | inr other ↦
            h did o
              (ground (arith, found, sym same, other, lookup-put r.did did r.signed s.records))
      ]

  absorb-Kept :
      (os : List Json) (s s' : Search)
      → Kept s
      → absorb c v node_id query trusted now target s os ≡ some s'
      → Kept s'
  unfolding absorb
  absorb-Kept [] s s' h e = let same : s ≡ s' = ground (arith, e) in subst Kept same h
  absorb-Kept (o ∷ os) s s' h e =
      let (mid, first, rest) = >>=-eq-some _ _ e in
      absorb-Kept os mid s'
        (absorb_verdict-Kept s mid (verify_record c v trusted now o)
          (λ r ok. ap (verify_record c v trusted now) (verified-signed c v trusted now o r ok) ∙ ok)
          h first)
        rest

  ask_each-Kept :
      (dids : List String) (s s' : Search)
      → Kept s
      → ask_each c v node_id query trusted now target s dids ≡ some s'
      → Kept s'
  unfolding ask_each Kept
  ask_each-Kept [] s s' h e = let same : s ≡ s' = ground (arith, e) in subst Kept same h
  ask_each-Kept (did ∷ dids) s s' h e =
      let (mid, first, rest) = >>=-eq-some _ _ e in
      ask_each-Kept dids mid s'
        (absorb-Kept (query did target) (record s { queried = s.queried ++ did ∷ [] }) mid h first)
        rest

  rounds-Kept :
      (fuel alpha : ℕ) (s s' : Search)
      → Kept s
      → rounds c v node_id query trusted now target fuel alpha s ≡ some s'
      → Kept s'
  unfolding rounds Kept
  rounds-Kept zero alpha s s' h e = let same : s ≡ s' = ground (arith, e) in subst Kept same h
  rounds-Kept (suc fuel) alpha s s' h e =
      let chosen = candidates c v node_id query trusted now target alpha s in
      elim (Bool-cases (is_empty c v node_id query trusted now target chosen)) [
        | inl none_left ↦ let same : s ≡ s' = ground (arith, e, none_left) in subst Kept same h
        | inr some_left ↦
            let start = record s { progressed = false } in
            let asked = ask_each c v node_id query trusted now target start chosen in
            let further = λ (s1 : Search).
              if s1.progressed
              then rounds c v node_id query trusted now target fuel alpha s1
              else some s1 in
            let both : (asked >>= further) ≡ some s' = ground (arith, e, some_left) in
            let (mid, first, rest) = >>=-eq-some asked further both in
            let kept = ask_each-Kept chosen start mid h first in
            elim (Bool-cases mid.progressed) [
              | inl more ↦ rounds-Kept fuel alpha mid s' kept (ground (arith, rest, more))
              | inr done ↦ let same : mid ≡ s' = ground (arith, rest, done) in subst Kept same kept
            ]
      ]

  opening-Kept : (seed : List String) → Kept (opening c v node_id query trusted now target seed)
  unfolding opening Kept lookup
  opening-Kept seed = λ did o found. absurd (ground (arith, found))

-- Whatever the peers answer, a record that `find_peer` returns is a record of the DID that was looked for, that DID is on the allowlist, and the signed object in the
-- record verifies to this very record.
pub found_peer_is_authentic :
    (c : Crypto) (v : Conversions) (node_id : String → ℕ) (query : String → ℕ → List Json)
    (trusted : String → Bool) (now : Option ℕ) (target_did : String) (seed : List String)
    (alpha : ℕ) (r : PeerRecord)
    → find_peer c v node_id query trusted now target_did seed alpha ≡ some (some r)
    → (r.did ≡ target_did)
      × (trusted target_did ≡ true)
      × (verify_record c v trusted now r.signed ≡ accepted r)
unfolding find_peer search Kept
found_peer_is_authentic c v node_id query trusted now target_did seed alpha r e =
    let (s, searched, rest) = >>=-eq-some _ _ e in
    let kept =
      rounds-Kept c v node_id query trusted now (node_id target_did) id_bits alpha
        (opening c v node_id query trusted now (node_id target_did) seed) s
        (opening-Kept c v node_id query trusted now (node_id target_did) seed) searched in
    elim (Option-cases (lookup target_did s.records)) [
      | inl missing ↦ absurd (ground (arith, rest, missing))
      | inr (o, found) ↦
          let (q, ok, mine) = kept target_did o found in
          let same : q ≡ r = ground (arith, rest, found, ok) in
          let vouched = verified-Vouched c v trusted now o q ok in
          let signed = verified-signed c v trusted now o q ok in
          let did = ap (λ x. x.did) (sym same) ∙ mine in
          (
            did,
            ap trusted (sym mine) ∙ vouched.allowed,
            subst (λ x. verify_record c v trusted now x.signed ≡ accepted x) same
                (ap (verify_record c v trusted now) signed ∙ ok),
          )
    ]
