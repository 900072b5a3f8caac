-- ===== src/Transport/Membership/Errors.antt =====
-- A batch in which a record makes `verify_record` raise.
use secdogie.Identity.Json.{Json, num, obj, Fields, member}
use secdogie.Identity.Signing.{Crypto}
use secdogie.Prelude.{
  string_eq, nat_eq, ℕ, suc, String, ◌≡◌, refl, sym, ap, ◌∙◌, Bool, false, Option, none, some, List,
  [], ◌∷◌, ◌++◌, arith,
}
use secdogie.Transport.Membership.{
  Conversions, endpoints_of, raises, too_new, authentic_fields, stamp_overflows, finish_record,
  check_record, verify_record, View, counted, merge_record, apply_records,
}
use secdogie.Transport.Membership.Authentic.{verdict-trusted}

-- a batch that did not raise, seen from its first record
counted-some :
    (m : View × Option Bool) (after : View × Option ℕ) (n : ℕ)
    → (counted m after).1 ≡ some n
    → ((counted m after).0 ≡ after.0)
      × ((k : ℕ) × (after.1 ≡ some k))
      × ((w : View) → counted m (w, none) ≡ (w, none))
unfolding counted
counted-some (w, none) after n h = absurd (ground (arith, h))
counted-some (w, some changed) (w', none) n h = absurd (ground (arith, h))
counted-some (w, some changed) (w', some k) n h = (refl, (k, refl), λ u. refl)

raising :
    (c : Crypto) (v : Conversions) (now : Option ℕ) (trusted : String → Bool) (fs : Fields)
    (signer : String) (last_seen n : ℕ)
    → authentic_fields c v trusted fs ≡ some (signer, last_seen)
    → too_new now last_seen ≡ false
    → member "endpoints" fs ≡ some (num (suc n))
    → verify_record c v trusted now (obj fs) ≡ raises
unfolding verify_record check_record finish_record endpoints_of
raising c v now trusted fs signer last_seen n a t e =
    ap (check_record c v now fs (stamp_overflows c v trusted fs)) a
    ∙ ground (arith, t, ap (endpoints_of v) e)

-- A batch of records that would merge without raising is followed by an object that an allowed DID
-- signed as a record of its own, not too far in the future, but with a number other than 0 as its
-- endpoints, and by any others. Then `apply_records` raises: it has merged what came before that object,
-- and nothing of what came after it.
pub bad_endpoints_end_the_batch :
    (c : Crypto) (v : Conversions) (now : Option ℕ) (before after : List Json) (w : View)
    (fs : Fields) (signer : String) (last_seen n merged : ℕ)
    → (apply_records c v now w before).1 ≡ some merged
    → authentic_fields c v w.trusted fs ≡ some (signer, last_seen)
    → too_new now last_seen ≡ false
    → member "endpoints" fs ≡ some (num (suc n))
    → apply_records c v now w (before ++ obj fs ∷ after)
      ≡ ((apply_records c v now w before).0, none)
unfolding apply_records merge_record
bad_endpoints_end_the_batch c v now [] after w fs signer last_seen n merged ok a t e =
    rw (raising c v now w.trusted fs signer last_seen n a t e) refl
bad_endpoints_end_the_batch c v now (o ∷ before) after w fs signer last_seen n merged ok a t e =
    let m = merge_record c v now w o in
    let (same, (k, rest_ok), stops) = counted-some m (apply_records c v now m.0 before) merged ok in
    let kept = verdict-trusted w (verify_record c v w.trusted now o) in
    let rest =
      bad_endpoints_end_the_batch c v now before after m.0 fs signer last_seen n k rest_ok
        (ap (λ x. authentic_fields c v x fs) kept ∙ a) t e in
    ap (counted m) rest
    ∙ stops (apply_records c v now m.0 before).0
    ∙ ap (λ x. (x, none)) (sym same)
