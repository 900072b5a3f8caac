-- ===== src/Citadel/Journal/Segments.antt =====
-- Parts of a chain: what is before a position, what is behind it, and what is stored.
use secdogie.Prelude.{
  ltb, nat_beq, select, any, string_eq, nat_eq, ℕ, ◌≤◌, ◌<◌, String, ◌≡◌, refl, Bool, true, false,
  ◌&&◌, List, [], ◌∷◌, ◌++◌, arith,
}
use secdogie.Identity.Signing.{Crypto}
use secdogie.Citadel.Journal.{JournalEvent, highest}
use secdogie.Citadel.Journal.Chains.{Chained}

module _ (c : Crypto) where
  pub Chained-append :
      (n : ℕ) (prev : String) (xs ys : List JournalEvent)
      → Chained c n prev (xs ++ ys)
      → Chained c (highest n prev xs).0 (highest n prev xs).1 ys
  unfolding highest
  Chained-append n prev [] ys h = h
  Chained-append n prev (x ∷ xs) ys (s, p, d, v, h) =
      let above : ltb n x.seq ≡ true = ground (arith, s) in
      rw above (Chained-append x.seq x.entry_hash xs ys h)

  pub Chained-left :
      (n : ℕ) (prev : String) (xs ys : List JournalEvent)
      → Chained c n prev (xs ++ ys)
      → Chained c n prev xs
  Chained-left n prev [] ys h = tt
  Chained-left n prev (x ∷ xs) ys (s, p, d, v, h) =
      (s, p, d, v, Chained-left x.seq x.entry_hash xs ys h)

  highest_le : (n : ℕ) (prev : String) (xs : List JournalEvent) → n ≤ (highest n prev xs).0
  unfolding highest
  highest_le n prev [] = omega arith
  highest_le n prev (x ∷ xs) =
      ground (arith, highest_le x.seq x.entry_hash xs, highest_le n prev xs)

  -- nothing of a chain is past its end, and everything behind it is
  pub none_past :
      (n m : ℕ) (prev : String) (xs : List JournalEvent)
      → Chained c n prev xs
      → (highest n prev xs).0 ≤ m
      → select (λ e. ltb m e.seq) xs ≡ []
  unfolding highest
  none_past n m prev [] h k = refl
  none_past n m prev (x ∷ xs) (s, p, d, v, h) k =
      let above : ltb n x.seq ≡ true = ground (arith, s) in
      let k' : (highest x.seq x.entry_hash xs).0 ≤ m = rw above at k in
      ground (arith, none_past x.seq m x.entry_hash xs h k', highest_le x.seq x.entry_hash xs, k')

  pub all_past :
      (n m : ℕ) (prev : String) (xs : List JournalEvent)
      → Chained c n prev xs
      → m ≤ n
      → select (λ e. ltb m e.seq) xs ≡ xs
  all_past n m prev [] h k = refl
  all_past n m prev (x ∷ xs) (s, p, d, v, h) k =
      ground (arith, s, k, all_past x.seq m x.entry_hash xs h (omega arith))

  pub none_stored :
      (n m : ℕ) (prev : String) (xs : List JournalEvent)
      → Chained c n prev xs
      → (highest n prev xs).0 < m
      → any (λ e. nat_beq e.seq m) xs ≡ false
  unfolding highest
  none_stored n m prev [] h k = refl
  none_stored n m prev (x ∷ xs) (s, p, d, v, h) k =
      let above : ltb n x.seq ≡ true = ground (arith, s) in
      let k' : (highest x.seq x.entry_hash xs).0 < m = rw above at k in
      ground (arith, none_stored x.seq m x.entry_hash xs h k', highest_le x.seq x.entry_hash xs, k')

pub select-append :
    (p : JournalEvent → Bool) (xs ys : List JournalEvent)
    → select p (xs ++ ys) ≡ select p xs ++ select p ys
select-append p [] ys = refl
select-append p (x ∷ xs) ys = ground (arith, select-append p xs ys)

pub select-and :
    (p q : JournalEvent → Bool) (xs : List JournalEvent)
    → select (λ e. p e && q e) xs ≡ select q (select p xs)
select-and p q [] = refl
select-and p q (x ∷ xs) = ground (arith, select-and p q xs)

pub any-and :
    (p q : JournalEvent → Bool) (xs : List JournalEvent)
    → any (λ e. p e && q e) xs ≡ any q (select p xs)
any-and p q [] = refl
any-and p q (x ∷ xs) = ground (arith, any-and p q xs)
