-- ===== src/Citadel/Journal/Admission.antt =====
-- What a merge stores, and what it does not.
use mathlib.Core.Option
use mathlib.Core.List.{append-nil, append_assoc}
use secdogie.Citadel.Journal.{
  JournalEvent, Journal, by, column_limit, storable, insert, authentic, stored_in, fits,
  catch_clock, accept, after_accept, accept_all, insert_event, sort_events, merge,
}
use secdogie.Identity.Signing.{Crypto}
use secdogie.Prelude.{
  leb, nat_beq, if◌then◌else◌, Bool-cases, length, any, all, any-append, string_eq, nat_eq, ℕ, ◌+◌,
  String, ◌≡◌, refl, sym, ap, ◌∙◌, subst, ◌⊎◌, inl, inr, Bool, true, false, not, ◌&&◌, Option, none,
  some, List, [], ◌∷◌, ◌++◌, arith,
}

module _ (q : JournalEvent → Bool) where
  all-insert_event :
      (e : JournalEvent) (fs : List JournalEvent) → all q (insert_event e fs) ≡ (q e && all q fs)
  unfolding insert_event
  all-insert_event e [] = refl
  all-insert_event e (f ∷ fs) = ground (arith, all-insert_event e fs)

  all-sort_events : (es : List JournalEvent) → all q (sort_events es) ≡ all q es
  unfolding sort_events
  all-sort_events [] = refl
  all-sort_events (e ∷ es) =
      all-insert_event e (sort_events es) ∙ ap (λ b. q e && b) (all-sort_events es)

module _ (c : Crypto) (trusted : String → Bool) (q : JournalEvent → Bool) where
  -- the rows that the events add to those of the journal
  record Adds (j j' : Journal) (n : Option ℕ) : Type 0 where
    added : List JournalEvent
    rows : j'.rows ≡ j.rows ++ added
    count : (k : ℕ) → n ≡ some k → length added ≡ k
    fine : all (λ e. q e && authentic c trusted e) added ≡ true

  accept-rows :
      (j : Journal) (e : JournalEvent)
      → ((accept c trusted j e ≡ (j, none)) ⊎ (accept c trusted j e ≡ (j, some false)))
        ⊎ (((accept c trusted j e).0.rows ≡ j.rows ++ e ∷ [])
            × ((accept c trusted j e).1 ≡ some true)
            × (authentic c trusted e ≡ true))
  unfolding accept insert catch_clock
  accept-rows j e = elim (Bool-cases (authentic c trusted e && fits j e)) [
    | inl taken ↦ elim (Bool-cases (storable e)) [
      | inl room ↦ inr (rw (taken, room) refl, rw (taken, room) refl, ground arith)
      | inr full ↦ inl (inl (rw (taken, full) refl))
    ]
    | inr refused ↦
        elim (Bool-cases (authentic c trusted e && not (stored_in j e) && leb column_limit e.seq)) [
          | inl past ↦ inl (inl (rw (refused, past) refl))
          | inr other ↦ inl (inr (rw (refused, other) refl))
        ]
  ]

  nothing-Adds : (j : Journal) (n : Option ℕ) → ((k : ℕ) → n ≡ some k → 0 ≡ k) → Adds j j n
  nothing-Adds j n h = record { added = []; rows = sym (append-nil j.rows); count = h; fine = refl }

  -- one event more or less in front of a batch
  counted :
      (b : Bool) (l : ℕ) (n : Option ℕ)
      → ((k : ℕ) → n ≡ some k → l ≡ k)
      → (k : ℕ) → Option.map (λ k. (if b then 1 else 0) + k) n ≡ some k
      → (if b then 1 else 0) + l ≡ k
  counted b l none h k e = absurd (ground (arith, e))
  counted b l (some m) h k e = ground (arith, e, h m refl)

  accept_all-Adds :
      (es : List JournalEvent) (j : Journal)
      → all q es ≡ true
      → Adds j (accept_all c trusted j es).0 (accept_all c trusted j es).1
  unfolding accept_all after_accept
  accept_all-Adds [] j h = nothing-Adds j (some 0) λ k e. ground (arith, e)
  accept_all-Adds (e ∷ es) j h =
      let one = accept c trusted j e in
      let more = accept_all c trusted one.0 es in
      let rest = accept_all-Adds es one.0 (ground (arith, h)) in
      let P = λ (r : Journal × Option Bool).
        Adds j (after_accept r (accept_all c trusted r.0 es)).0
          (after_accept r (accept_all c trusted r.0 es)).1 in
      elim (accept-rows j e) [
        | inl (inl raised) ↦
            subst P (sym raised) (nothing-Adds j none λ k e. absurd (ground (arith, e)))
        | inl (inr same) ↦
            let later = accept_all-Adds es j (ground (arith, h)) in
            subst P (sym same) (record {
              added = later.added;
              rows = later.rows;
              count = λ k m. omega (arith, counted false _ _ later.count k m);
              fine = later.fine;
            })
        | inr (rows, taken, real) ↦
            subst (λ b. Adds j (after_accept (one.0, b) more).0 (after_accept (one.0, b) more).1)
              (sym taken)
              (record {
                added = e ∷ rest.added;
                rows =
                    rest.rows
                    ∙ ap (λ (r : List JournalEvent). r ++ rest.added) rows
                    ∙ append_assoc j.rows (e ∷ []) rest.added;
                count = λ k m. omega (arith, counted true _ _ rest.count k m);
                fine = ground (arith, h, real, rest.fine);
              })
      ]

-- A merge, also one that raises, appends rows to the journal and changes none: where it returns, as
-- many as it returns, each authentic
-- under its allowlist, and each with whatever all the given events have in common (`q`).
pub merge_appends_authentic :
    (c : Crypto) (trusted : String → Bool) (j : Journal) (events : List JournalEvent)
    (q : JournalEvent → Bool)
    → all q events ≡ true
    → (added : List JournalEvent) × ((merge c trusted j events).0.rows ≡ j.rows ++ added)
      × ((n : ℕ) → (merge c trusted j events).1 ≡ some n → length added ≡ n)
      × (all (λ e. q e && authentic c trusted e) added ≡ true)
unfolding merge
merge_appends_authentic c trusted j events q h =
    let adds = accept_all-Adds c trusted q (sort_events events) j (all-sort_events q events ∙ h) in
    (adds.added, adds.rows, adds.count, adds.fine)

accept_all_stored :
    (c : Crypto) (trusted : String → Bool) (j : Journal) (es : List JournalEvent)
    → all (stored_in j) es ≡ true
    → accept_all c trusted j es ≡ (j, some 0)
unfolding accept_all after_accept accept fits
accept_all_stored c trusted j [] h = refl
accept_all_stored c trusted j (e ∷ es) h = ground (arith, h, accept_all_stored c trusted j es)

all-stored_after :
    (j : Journal) (added es : List JournalEvent) (j' : Journal)
    → j'.rows ≡ j.rows ++ added
    → all (stored_in j) es ≡ true
    → all (stored_in j') es ≡ true
all-stored_after j added [] j' k h = refl
all-stored_after j added (e ∷ es) j' k h =
    let held : JournalEvent → Bool = λ r. by e.author r && nat_beq r.seq e.seq in
    ground
      (arith, h, ap (any held) k, any-append held j.rows added, all-stored_after j added es j' k)

all-true : (es : List JournalEvent) → all (λ _. true) es ≡ true
all-true [] = refl
all-true (e ∷ es) = all-true es

-- Events whose author and seq a journal holds are a no-op from then on: merged again, in any order
-- and number, after whatever else was merged and under any allowlist, they change nothing and none
-- of them is counted.
pub merged_again :
    (c : Crypto) (trusted trusted' : String → Bool) (j : Journal) (later events : List JournalEvent)
    → all (stored_in j) events ≡ true
    → merge c trusted' (merge c trusted j later).0 events ≡ ((merge c trusted j later).0, some 0)
merged_again c trusted trusted' j later events h =
    let j' = (merge c trusted j later).0 in
    let grown = merge_appends_authentic c trusted j later (λ _. true) (all-true later) in
    let kept = all-stored_after j grown.0 events j' grown.1 h in
    unfold merge in
    accept_all_stored c trusted' j' (sort_events events)
      (all-sort_events (stored_in j') events ∙ kept)
