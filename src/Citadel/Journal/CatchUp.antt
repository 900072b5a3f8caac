-- ===== src/Citadel/Journal/CatchUp.antt =====
-- Replication of one author's chain: what `since` returns past a replica's head is exactly what the
-- replica lacks.
use mathlib.Core.Option
use mathlib.Core.List.{append-nil, append_assoc}
use secdogie.Citadel.Journal.{
  JournalEvent, genesis, payload, Journal, by, head, storable, insert, authentic, fits, catch_clock,
  accept, after_accept, accept_all, sort_events, merge, since,
}
use secdogie.Citadel.Journal.Chains.{Chained, IsSound, select-snoc, sort-Chained, select-by}
use secdogie.Citadel.Journal.Segments.{
  Chained-append, Chained-left, none_past, all_past, none_stored, select-append, select-and,
  any-and,
}
use secdogie.Identity.Signing.{Crypto}
use secdogie.Prelude.{
  ltb, nat_beq, if◌then◌else◌, Bool-cases, length, select, any, All, All-right, beq_refl, string_eq,
  nat_eq, kept, ℕ, ◌+◌, max, String, ◌≡◌, refl, sym, ap, ◌∙◌, subst, inl, inr, Bool, true, false,
  ◌&&◌, Option, some, List, [], ◌∷◌, ◌++◌, arith,
}

All-select :
    (P : JournalEvent → Type 0) (p : JournalEvent → Bool) (xs : List JournalEvent)
    → All P xs
    → All P (select p xs)
All-select P p [] h = tt
All-select P p (x ∷ xs) h = elim (Bool-cases (p x)) [
  | inl kept ↦ rw kept (h.0, All-select P p xs h.1)
  | inr gone ↦ rw gone (All-select P p xs h.1)
]

module _ (c : Crypto) (trusted : String → Bool) (x : String) (did : c.is_did x ≡ true)
    (trusts_x : trusted x ≡ true) where
  -- the next event of the chain is accepted
  module _ (j : Journal) (e : JournalEvent) (es : List JournalEvent)
      (chained : Chained c 0 genesis (select (by x) j.rows ++ e ∷ es)) (mine : e.author ≡ x)
      (room : storable e ≡ true) where
    next_of :
        (e.seq ≡ (head j x).0 + 1)
        × (e.prev_hash ≡ (head j x).1)
        × (e.entry_hash ≡ c.digest (payload e))
        × (c.verifies e.author (payload e) e.sig ≡ true)
        × Chained c e.seq e.entry_hash es
    unfolding head
    next_of = Chained-append c 0 genesis (select (by x) j.rows) (e ∷ es) chained

    next_authentic : authentic c trusted e ≡ true
    unfolding authentic
    next_authentic =
        let (s, p, d, v, _) = next_of in
        ground (
          arith,
          s,
          v,
          d,
          ap c.is_did mine,
          ap trusted mine,
          string_eq.beq_iff e.entry_hash (c.digest (payload e)),
        )

    new_seq : any (λ r. by e.author r && nat_beq r.seq e.seq) j.rows ≡ false
    new_seq =
        any-and (by e.author) (λ r. nat_beq r.seq e.seq) j.rows
        ∙ ap (λ a. any (λ r. nat_beq r.seq e.seq) (select (by a) j.rows)) mine
        ∙ none_stored c 0 e.seq genesis (select (by x) j.rows)
            (Chained-left c 0 genesis (select (by x) j.rows) (e ∷ es) chained)
            (let (s, p, d, v, _) = next_of in unfold head in omega (arith, s))

    next_fits : fits j e ≡ true
    unfolding fits
    next_fits =
        let (s, p, d, v, _) = next_of in
        ground (
          arith,
          new_seq,
          s,
          p,
          ap (λ a. (head j a).0) mine,
          ap (λ a. (head j a).1) mine,
          string_eq.beq_iff e.prev_hash (head j e.author).1,
        )

    accept_next :
        accept c trusted j e
        ≡ (record j { rows = j.rows ++ e ∷ []; lamport = max j.lamport e.lamport }, some true)
    unfolding accept insert catch_clock
    accept_next = rw (next_authentic, next_fits, room) refl

    select-accept :
        (a : String)
        → select (by a) (accept c trusted j e).0.rows
          ≡ (if string_eq.beq x a then select (by a) j.rows ++ e ∷ [] else select (by a) j.rows)
    select-accept a =
        ap (λ (r : Journal × Option Bool). select (by a) r.0.rows) accept_next
        ∙ select-snoc (by a) j.rows e
        ∙ ap
            (λ (b : String).
              if string_eq.beq b a then select (by a) j.rows ++ e ∷ [] else select (by a) j.rows)
            mine

  accept_chain :
      (more : List JournalEvent) (j : Journal)
      → Chained c 0 genesis (select (by x) j.rows ++ more)
      → All (λ e. e.author ≡ x) more
      → All (λ e. storable e ≡ true) more
      → ((accept_all c trusted j more).1 ≡ some (length more))
        × ((a : String)
            → select (by a) (accept_all c trusted j more).0.rows
              ≡ (if string_eq.beq x a then select (by a) j.rows ++ more else select (by a) j.rows))
  unfolding accept_all after_accept
  accept_chain [] j h b rooms = (refl, λ a. ground (arith, append-nil (select (by a) j.rows)))
  accept_chain (e ∷ es) j h (mine, b) (room, rooms) =
      let j' = (accept c trusted j e).0 in
      let grown : select (by x) j'.rows ≡ select (by x) j.rows ++ e ∷ [] =
        select-accept j e es h mine room x ∙ rw (beq_refl ⦃e = string_eq⦄ x) refl in
      let h' : Chained c 0 genesis (select (by x) j'.rows ++ es) =
        rw (grown, append_assoc (select (by x) j.rows) (e ∷ []) es) h in
      let (count, rest) = accept_chain es j' h' b rooms in
      let taken : (accept c trusted j e).1 ≡ some true =
        ap (λ (r : Journal × Option Bool). r.1) (accept_next j e es h mine room) in
      let more = accept_all c trusted j' es in
      let whole : accept_all c trusted j (e ∷ es) ≡ after_accept (j', some true) more =
        ap (λ b. after_accept (j', b) more) taken in
      (
        ap (λ (r : Journal × Option ℕ). r.1) whole
            ∙ ap (Option.map λ k. 1 + k) count
            ∙ ap some (omega arith),
        λ a. elim (Bool-cases (string_eq.beq x a)) [
          | inl same ↦
              ap (λ (r : Journal × Option ℕ). select (by a) r.0.rows) whole
              ∙ rest a
              ∙ rw (select-accept j e es h mine room a, same)
                  (append_assoc (select (by a) j.rows) (e ∷ []) es)
          | inr other ↦
              ap (λ (r : Journal × Option ℕ). select (by a) r.0.rows) whole
              ∙ rest a
              ∙ rw (select-accept j e es h mine room a, other) refl
        ],
      )

module _ (c : Crypto) (a b : Journal) (author : String) (more : List JournalEvent)
    (sound : IsSound c a)
    (split : select (by author) a.rows ≡ select (by author) b.rows ++ more) where
  whole : Chained c 0 genesis (select (by author) b.rows ++ more)
  whole = rw (← split) (sound.chains author)

  more_by : All (λ e. e.author ≡ author) more
  more_by =
      All-right (λ e. e.author ≡ author) (select (by author) b.rows) more
        (rw (← split) (select-by author a.rows))

  more_stored : All (λ e. storable e ≡ true) more
  more_stored =
      All-right (λ e. storable e ≡ true) (select (by author) b.rows) more
        (rw (← split) (All-select (λ e. storable e ≡ true) (by author) a.rows sound.stored))

  missing_chain : Chained c (head b author).0 (head b author).1 more
  unfolding head
  missing_chain = Chained-append c 0 genesis (select (by author) b.rows) more whole

  past_head : select (λ e. by author e && ltb (head b author).0 e.seq) a.rows ≡ more
  past_head =
      let n = (head b author).0 in
      select-and (by author) (λ e. ltb n e.seq) a.rows
      ∙ ap (select (λ (e : JournalEvent). ltb n e.seq)) split
      ∙ select-append (λ e. ltb n e.seq) (select (by author) b.rows) more
      ∙ rw
          (
            none_past c 0 n genesis (select (by author) b.rows)
                (Chained-left c 0 genesis (select (by author) b.rows) more whole)
                (unfold head in omega arith),
            all_past c n n (head b author).1 more missing_chain (omega arith),
          )
          refl

  since-head : since a author (head b author).0 ≡ more
  unfolding since
  since-head =
      ap sort_events past_head
      ∙ sort-Chained c author (head b author).0 (head b author).1 more more_by missing_chain

  merge-since :
      (trusted : String → Bool)
      → merge c trusted b (since a author (head b author).0) ≡ accept_all c trusted b more
  unfolding merge
  merge-since trusted =
      ap (λ es. accept_all c trusted b (sort_events es)) since-head
      ∙ ap (accept_all c trusted b)
          (sort-Chained c author (head b author).0 (head b author).1 more more_by missing_chain)

-- A replica `b` holds the first part of an author's chain of the sound journal `a`, and trusts the
-- author. Merging what `a` returns `since` the head of `b` gives `b` the author's whole chain, leaves
-- every other author's chain as it was, and counts exactly the missing events.
pub catches_up :
    (c : Crypto) (trusted : String → Bool) (a b : Journal) (author name : String)
    (more : List JournalEvent)
    → IsSound c a
    → c.is_did author ≡ true
    → trusted author ≡ true
    → select (by author) a.rows ≡ select (by author) b.rows ++ more
    → (select (by name) (merge c trusted b (since a author (head b author).0)).0.rows
        ≡ (if string_eq.beq author name then select (by name) a.rows else select (by name) b.rows))
      × ((merge c trusted b (since a author (head b author).0)).1 ≡ some (length more))
catches_up c trusted a b author name more sound did trusts split =
    let (count, chains) =
      accept_chain c trusted author did trusts more b (whole c a b author more sound split)
        (more_by c a b author more sound split) (more_stored c a b author more sound split) in
    rw (merge-since c a b author more sound split trusted) (chains name ∙ same_chain, count)
  where
    same_chain :
        (if string_eq.beq author name
          then select (by name) b.rows ++ more
          else select (by name) b.rows)
        ≡ (if string_eq.beq author name then select (by name) a.rows else select (by name) b.rows)
    same_chain = elim (Bool-cases (string_eq.beq author name)) [
      | inl same ↦ rw same (
          subst (λ n. select (by n) b.rows ++ more ≡ select (by n) a.rows)
            ((string_eq.beq_iff author name).0 same) (sym split))
      | inr other ↦ rw other refl
    ]
