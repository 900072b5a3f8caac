-- ===== src/Transport/Membership/Authentic.antt =====
-- Whatever it is offered, a view holds signed records of allowed DIDs.
use secdogie.Identity.Json.{Json, null, bool, num, str, arr, obj, Fields, member}
use secdogie.Identity.Signing.{Crypto, verify_envelope, verify_payload}
use secdogie.Prelude.{
  Bool-cases, Option-cases, either_way, string_eq, nat_eq, Dict, lookup, lookup-put, ℕ, String, ◌≡◌,
  refl, sym, ap, ◌∙◌, subst, inl, inr, Bool, true, Option, none, some, List, [], ◌∷◌, arith,
}
use secdogie.Transport.Membership.{
  Conversions, PeerRecord, endpoints_of, Verdict, raises, refused, accepted, too_new, signer_of,
  authentic_fields, stamp_overflows, finish_record, check_record, verify_record, View, empty_view,
  is_stale, file_record, merge_verdict, counted, merge_record, apply_records,
}
use secdogie.Transport.Membership.Freshness.{Filed, verdict-Filed, file-trusted}

-- batches of objects, each with the time it came at, if the caller gave one
unfoldable pub run : Crypto → Conversions → View → List (Option ℕ × List Json) → View
run c v w [] = w
run c v w ((now, os) ∷ batches) = run c v (apply_records c v now w os).0 batches

pub verdict-trusted : (w : View) (d : Verdict) → (merge_verdict w d).0.trusted ≡ w.trusted
unfolding merge_verdict
verdict-trusted w raises = refl
verdict-trusted w refused = refl
verdict-trusted w (accepted r) = file-trusted w r

counted-either :
    (P : View → Type 0) (m : View × Option Bool) (after : View × Option ℕ)
    → P m.0
    → P after.0
    → P (counted m after).0
unfolding counted
counted-either P (w, none) after first rest = first
counted-either P (w, some changed) (w', none) first rest = rest
counted-either P (w, some changed) (w', some n) first rest = rest

module _ (c : Crypto) (v : Conversions) (trusted : String → Bool) where
  -- a record as `verify_record` makes it from an object, with no clock
  pub record Vouched (r : PeerRecord) : Type 0 where
    pub verified : verify_record c v trusted none r.signed ≡ accepted r
    pub allowed : trusted r.did ≡ true

  finish-signed :
      (now : Option ℕ) (fs : Fields) (overflows : Bool) (signer : String) (last_seen : ℕ)
      (r : PeerRecord)
      → check_record c v now fs overflows (some (signer, last_seen)) ≡ accepted r
      → (r.signed ≡ obj fs)
        × (r.did ≡ signer)
        × (check_record c v none fs overflows (some (signer, last_seen)) ≡ accepted r)
  unfolding check_record finish_record too_new
  finish-signed now fs overflows signer last_seen r e =
      elim (Option-cases (endpoints_of v (member "endpoints" fs))) [
        | inl n ↦ absurd (ground (arith, e, n))
        | inr (es, n) ↦ (ground (arith, e, n), ground (arith, e, n), ground (arith, e, n))
      ]

  authentic-allowed :
      (fs : Fields) (signer : String) (last_seen : ℕ)
      → authentic_fields c v trusted fs ≡ some (signer, last_seen)
      → trusted signer ≡ true
  unfolding authentic_fields signer_of verify_payload verify_envelope
  authentic-allowed fs signer last_seen e = ground (arith, e)

  pub verified-Vouched :
      (now : Option ℕ) (o : Json) (r : PeerRecord)
      → verify_record c v trusted now o ≡ accepted r
      → Vouched r
  unfolding verify_record check_record
  verified-Vouched now (obj fs) r e = elim (Option-cases (authentic_fields c v trusted fs)) [
    | inl n ↦ absurd (ground (arith, e, n))
    | inr ((signer, last_seen), n) ↦
        let over = stamp_overflows c v trusted fs in
        let (signed, did, again) =
          finish-signed now fs over signer last_seen r
            (ap (check_record c v now fs over) (sym n) ∙ e) in
        record {
          verified =
              ap (verify_record c v trusted none) signed
              ∙ ap (check_record c v none fs over) n
              ∙ again;
          allowed = ap trusted did ∙ authentic-allowed fs signer last_seen n;
        }
  ]
  verified-Vouched now null r e = absurd (ground (arith, e))
  verified-Vouched now (bool b) r e = absurd (ground (arith, e))
  verified-Vouched now (num n) r e = absurd (ground (arith, e))
  verified-Vouched now (str s) r e = absurd (ground (arith, e))
  verified-Vouched now (arr xs) r e = absurd (ground (arith, e))

  -- a record keeps the object that it was made from
  pub verified-signed :
      (now : Option ℕ) (o : Json) (r : PeerRecord)
      → verify_record c v trusted now o ≡ accepted r
      → r.signed ≡ o
  unfolding verify_record check_record
  verified-signed now (obj fs) r e = elim (Option-cases (authentic_fields c v trusted fs)) [
    | inl n ↦ absurd (ground (arith, e, n))
    | inr ((signer, last_seen), n) ↦
        let over = stamp_overflows c v trusted fs in
        (finish-signed now fs over signer last_seen r
          (ap (check_record c v now fs over) (sym n) ∙ e)).0
  ]
  verified-signed now null r e = absurd (ground (arith, e))
  verified-signed now (bool b) r e = absurd (ground (arith, e))
  verified-signed now (num n) r e = absurd (ground (arith, e))
  verified-signed now (str s) r e = absurd (ground (arith, e))
  verified-signed now (arr xs) r e = absurd (ground (arith, e))

  abbrev VouchedAll : Dict String PeerRecord → Type 0
  VouchedAll d = (did : String) (r : PeerRecord) → lookup did d ≡ some r → Vouched r

  verdict-Vouched :
      (w : View) (d : Verdict)
      → ((r : PeerRecord) → d ≡ accepted r → Vouched r)
      → VouchedAll w.records
      → VouchedAll (merge_verdict w d).0.records
  unfolding merge_verdict file_record
  verdict-Vouched w raises one h = h
  verdict-Vouched w refused one h = h
  verdict-Vouched w (accepted r) one h =
      either_way (λ (p : View × Bool). VouchedAll p.0.records) (is_stale r (lookup r.did w.records))
        _ _ (λ stale. h)
        λ news did q e. elim (Bool-cases (string_eq.beq r.did did)) [
          | inl p ↦
              subst Vouched (ground (arith, e, p, lookup-put r.did did r w.records)) (one r refl)
          | inr p ↦ h did q (ground (arith, e, p, lookup-put r.did did r w.records))
        ]

  -- a view with the allowlist, all of whose records are vouched for
  record IsAuthentic (w : View) : Type 0 where
    same_trust : w.trusted ≡ trusted
    filed : Filed w.records
    vouched : VouchedAll w.records

  merge-IsAuthentic :
      (now : Option ℕ) (w : View) (o : Json)
      → IsAuthentic w
      → IsAuthentic (merge_record c v now w o).0
  unfolding merge_record
  merge-IsAuthentic now w o h = record {
    same_trust = verdict-trusted w (verify_record c v w.trusted now o) ∙ h.same_trust;
    filed = verdict-Filed w (verify_record c v w.trusted now o) h.filed;
    vouched =
        verdict-Vouched w (verify_record c v w.trusted now o)
          (λ r e.
            verified-Vouched now o r (ap (λ t. verify_record c v t now o) (sym h.same_trust) ∙ e))
          h.vouched;
  }

  apply-IsAuthentic :
      (now : Option ℕ) (os : List Json) (w : View)
      → IsAuthentic w
      → IsAuthentic (apply_records c v now w os).0
  unfolding apply_records
  apply-IsAuthentic now [] w h = h
  apply-IsAuthentic now (o ∷ os) w h =
      let m = merge_record c v now w o in
      let first = merge-IsAuthentic now w o h in
      counted-either IsAuthentic m (apply_records c v now m.0 os) first
        (apply-IsAuthentic now os m.0 first)

  run-IsAuthentic :
      (batches : List (Option ℕ × List Json)) (w : View)
      → IsAuthentic w
      → IsAuthentic (run c v w batches)
  unfolding run
  run-IsAuthentic [] w h = h
  run-IsAuthentic ((now, os) ∷ batches) w h =
      run-IsAuthentic batches (apply_records c v now w os).0 (apply-IsAuthentic now os w h)

-- A view that starts empty and is offered any batches of objects, at any times or with none given, files
-- each record that it holds under the record's own DID; that DID is on the allowlist, and the signed
-- object that the view passes on verifies, to this very record, wherever the same allowlist is used.
pub records_are_authentic :
    (c : Crypto) (v : Conversions) (trusted : String → Bool) (batches : List (Option ℕ × List Json))
    (did : String) (r : PeerRecord)
    → lookup did (run c v (empty_view trusted) batches).records ≡ some r
    → (r.did ≡ did) × (trusted did ≡ true) × (verify_record c v trusted none r.signed ≡ accepted r)
unfolding lookup
records_are_authentic c v trusted batches did r e =
    let h = run-IsAuthentic c v trusted batches (empty_view trusted) (record {
      same_trust = refl;
      filed = record { distinct = tt; own = λ k q n. absurd (ground (arith, n)) };
      vouched = λ k q n. absurd (ground (arith, n));
    }) in
    let own = h.filed.own did r e in
    let one = h.vouched did r e in (own, ap trusted (sym own) ∙ one.allowed, one.verified)
