-- ===== src/Citadel/Journal/Chains.antt =====
-- Every author's rows form one signed chain, whatever is merged and appended, and `verify` finds
-- it intact.
use Prim.Native.String.{compare}
use Prim.Native.Nat.{Ordering}
use text.Mathlib.TextPositions.{compare_refl}
use secdogie.Citadel.Journal.{
  JournalEvent, genesis, payload, Journal, by, highest, head, storable, insert, authentic, fits,
  catch_clock, accept, after_accept, accept_all, precedes, insert_event, sort_events,
}
use secdogie.Identity.Signing.{Crypto}
use secdogie.Prelude.{
  ltb, if◌then◌else◌, le→leb, Bool-cases, select, any, All, All-append, any-append, string_eq,
  nat_eq, ℕ, ◌+◌, ◌≤◌, max, String, ◌≡◌, refl, ap, ◌∙◌, subst, inl, inr, Bool, true, Option, none,
  some, List, [], ◌∷◌, ◌++◌, arith,
}

-- The rows of one author, from position `n` and the hash `prev` on: consecutive, each naming the
-- hash of the one before, hashed and signed.
abbrev pub Chained : Crypto → ℕ → String → List JournalEvent → Type 0
Chained c n prev [] = Unit
Chained c n prev (e ∷ es) =
    (e.seq ≡ n + 1)
    × (e.prev_hash ≡ prev)
    × (e.entry_hash ≡ c.digest (payload e))
    × (c.verifies e.author (payload e) e.sig ≡ true)
    × Chained c e.seq e.entry_hash es

pub chain : String → List JournalEvent → List JournalEvent
chain a rows = select (by a) rows

pub record IsSound (c : Crypto) (j : Journal) : Type 0 where
  pub chains : (a : String) → Chained c 0 genesis (select (by a) j.rows)
  pub known : (a : String) → any (by a) j.rows ≡ true → c.is_did a ≡ true
  pub stored : All (λ e. storable e ≡ true) j.rows

pub select-snoc :
    {A : Type 0} (p : A → Bool) (xs : List A) (x : A)
    → select p (xs ++ x ∷ []) ≡ (if p x then select p xs ++ x ∷ [] else select p xs)
select-snoc p [] x = ground arith
select-snoc p (y ∷ xs) x = ground (arith, select-snoc p xs x)

-- the next event of the chain at its end
Chained-snoc :
    (c : Crypto) (e : JournalEvent) (n : ℕ) (prev : String) (es : List JournalEvent)
    → Chained c n prev es
    → e.seq ≡ (highest n prev es).0 + 1
    → e.prev_hash ≡ (highest n prev es).1
    → e.entry_hash ≡ c.digest (payload e)
    → c.verifies e.author (payload e) e.sig ≡ true
    → Chained c n prev (es ++ e ∷ [])
unfolding highest
Chained-snoc c e n prev [] h s p d v = (s, p, d, v, tt)
Chained-snoc c e n prev (f ∷ es) (fs, fp, fd, fv, h) s p d v =
    let above : ltb n f.seq ≡ true = ground (arith, fs) in
    (fs, fp, fd, fv, Chained-snoc c e f.seq f.entry_hash es h (rw above at s) (rw above at p) d v)

module _ (c : Crypto) (j : Journal) (e : JournalEvent) where
  -- the event is the next one of its author's chain
  pub record IsNext : Type 0 where
    pub did : c.is_did e.author ≡ true
    pub next : e.seq ≡ (head j e.author).0 + 1
    pub linked : e.prev_hash ≡ (head j e.author).1
    pub hashed : e.entry_hash ≡ c.digest (payload e)
    pub signed : c.verifies e.author (payload e) e.sig ≡ true
    pub fits_columns : storable e ≡ true

  module _ (i : IsSound c j) (h : IsNext) where
    inserted_chain : (a : String) → Chained c 0 genesis (select (by a) (j.rows ++ e ∷ []))
    inserted_chain a = elim (Bool-cases (string_eq.beq e.author a)) [
      | inl same ↦
          let is_a : e.author ≡ a = (string_eq.beq_iff e.author a).0 same in
          rw (select-snoc (by a) j.rows e, same)
            (Chained-snoc c e 0 genesis (select (by a) j.rows) (i.chains a)
              (unfold head in subst (λ x. e.seq ≡ (head j x).0 + 1) is_a h.next)
              (unfold head in subst (λ x. e.prev_hash ≡ (head j x).1) is_a h.linked) h.hashed
              h.signed)
      | inr other ↦ rw (select-snoc (by a) j.rows e, other) (i.chains a)
    ]

    pub snoc-IsSound :
        (lamport : ℕ) → IsSound c (record j { rows = j.rows ++ e ∷ []; lamport = lamport })
    snoc-IsSound lamport = record {
      chains = inserted_chain;
      known = λ a m. ground (
        arith,
        m,
        i.known a,
        h.did,
        any-append (by a) j.rows (e ∷ []),
        string_eq.beq_iff e.author a,
        ap c.is_did {x = e.author} {y = a},
      );
      stored =
          All-append (λ (r : JournalEvent). storable r ≡ true) j.rows (e ∷ []) i.stored
            (h.fits_columns, tt);
    }

module _ (c : Crypto) (trusted : String → Bool) (j : Journal) (i : IsSound c j) where
  pub accepted-IsNext :
      (e : JournalEvent)
      → authentic c trusted e ≡ true
      → fits j e ≡ true
      → storable e ≡ true
      → IsNext c j e
  unfolding authentic fits
  accepted-IsNext e h k room = record {
    did = ground arith;
    next = ground arith;
    linked = (string_eq.beq_iff e.prev_hash (head j e.author).1).0 (ground arith);
    hashed = (string_eq.beq_iff e.entry_hash (c.digest (payload e))).0 (ground arith);
    signed = ground arith;
    fits_columns = room;
  }

  pub accept-IsSound : (e : JournalEvent) → IsSound c (accept c trusted j e).0
  unfolding accept insert catch_clock
  accept-IsSound e = elim (Bool-cases (authentic c trusted e)) [
    | inl real ↦ elim (Bool-cases (fits j e)) [
      | inl fit ↦ elim (Bool-cases (storable e)) [
        | inl room ↦
            rw (real, fit, room)
              (snoc-IsSound c j e i (accepted-IsNext e real fit room) (max j.lamport e.lamport))
        | inr full ↦ rw (real, fit, full) i
      ]
      | inr unfit ↦ rw (real, unfit) i
    ]
    | inr forged ↦ rw forged i
  ]

-- whatever holds of the journal and of the rest of the batch holds of the two
pub after_accept-either :
    (P : Journal → Type 0) (m : Journal × Option Bool) (rest : Journal × Option ℕ)
    → P m.0
    → P rest.0
    → P (after_accept m rest).0
unfolding after_accept
after_accept-either P (j, none) rest h k = h
after_accept-either P (j, some taken) (j', n) h k = k

pub accept_all-IsSound :
    (c : Crypto) (trusted : String → Bool) (es : List JournalEvent) (j : Journal)
    → IsSound c j
    → IsSound c (accept_all c trusted j es).0
unfolding accept_all
accept_all-IsSound c trusted [] j i = i
accept_all-IsSound c trusted (e ∷ es) j i =
    let i' = accept-IsSound c trusted j i e in
    after_accept-either (IsSound c) (accept c trusted j e)
      (accept_all c trusted (accept c trusted j e).0 es) i'
      (accept_all-IsSound c trusted es (accept c trusted j e).0 i')

precedes_same :
    (a : String) (e f : JournalEvent)
    → e.author ≡ a
    → f.author ≡ a
    → e.seq ≤ f.seq
    → precedes e f ≡ true
unfolding precedes
precedes_same a e f b b' h =
    let same : compare e.author f.author ≡ Ordering.eq = rw (b, b') (compare_refl a) in
    rw (precedes, same) (le→leb e.seq f.seq h)

-- sorting a chain changes nothing
pub sort-Chained :
    (c : Crypto) (a : String) (n : ℕ) (prev : String) (es : List JournalEvent)
    → All (λ e. e.author ≡ a) es
    → Chained c n prev es
    → sort_events es ≡ es
unfolding sort_events insert_event
sort-Chained c a n prev [] b h = refl
sort-Chained c a n prev (e ∷ []) b h = refl
sort-Chained c a n prev (e ∷ f ∷ es) (b, bs) (s, p, d, v, h) =
    ap (insert_event e) (sort-Chained c a e.seq e.entry_hash (f ∷ es) bs h)
    ∙ rw (precedes_same a e f b bs.0 (omega (arith, h.0)))

pub select-by :
    (a : String) (rows : List JournalEvent) → All (λ e. e.author ≡ a) (select (by a) rows)
select-by a [] = tt
select-by a (e ∷ rows) = elim (Bool-cases (string_eq.beq e.author a)) [
  | inl same ↦ rw same ((string_eq.beq_iff e.author a).0 same, select-by a rows)
  | inr other ↦ rw other (select-by a rows)
]
