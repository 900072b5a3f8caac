-- ===== src/Tests/Journal.antt =====
-- The event journal on a concrete history and a concrete replica.
use secdogie.Citadel.Journal.{
  JournalEvent, genesis, payload, Signer, Journal, by, open_journal, head, authentic, merge, since,
}
use secdogie.Citadel.Journal.Admission.{merge_appends_authentic, merged_again}
use secdogie.Citadel.Journal.CatchUp.{catches_up}
use secdogie.Citadel.Journal.Chains.{Chained, IsSound}
use secdogie.Citadel.Journal.Intact.{Operation, merged, appended}
use secdogie.Identity.Json.{null, member}
use secdogie.Prelude.{
  if◌then◌else◌, Bool-cases, length, select, all, string_eq, nat_eq, ℕ, String, ◌≡◌, refl, subst,
  inl, inr, Bool, true, false, ◌&&◌, none, some, List, [], ◌∷◌, ◌++◌, arith,
}
use secdogie.Tests.Fixtures.{toy}

abbrev writer : Signer
writer = record { did = "n1"; sign = λ _. "ok" }

abbrev event : ℕ → String → String → JournalEvent
event seq prev sig = record {
  author = "n2";
  seq = seq;
  lamport = seq;
  ts = 7;
  kind = "note";
  body = null;
  prev_hash = prev;
  entry_hash = "";
  sig = sig;
}

-- out of order, with a forgery and a repetition
abbrev batch : List JournalEvent
batch = event 2 "" "ok" ∷ event 1 genesis "ok" ∷ event 3 "" "forged" ∷ event 1 genesis "ok" ∷ []

abbrev history : List Operation
history = appended "note" null 5 ∷ merged is_n2 batch ∷ appended "note" null 6 ∷ []
  where
    is_n2 : String → Bool
    is_n2 s = string_eq.beq s "n2"

abbrev anyone : String → Bool
anyone s = true

abbrev blank : Journal
blank = open_journal none []

merge_appends_authentic_example :
    (added : List JournalEvent) × ((merge toy anyone blank batch).0.rows ≡ blank.rows ++ added)
    × ((n : ℕ) → (merge toy anyone blank batch).1 ≡ some n → length added ≡ n)
    × (all (λ e. string_eq.beq e.kind "note" && authentic toy anyone e) added ≡ true)
merge_appends_authentic_example =
    merge_appends_authentic toy anyone blank batch (λ e. string_eq.beq e.kind "note") refl

-- the first two events of "n2"
abbrev replica : Journal
replica = record { identity = none; rows = event 1 genesis "ok" ∷ []; lamport = 1 }

abbrev source : Journal
source = record {
  identity = none;
  rows = event 1 genesis "ok" ∷ event 2 "" "ok" ∷ event 3 "" "ok" ∷ [];
  lamport = 3;
}

merged_again_example :
    merge toy
      (λ _. false)
      (merge toy anyone source batch).0
      (event 3 "" "ok" ∷ event 1 genesis "ok" ∷ event 3 "" "ok" ∷ [])
    ≡ ((merge toy anyone source batch).0, some 0)
merged_again_example =
    merged_again toy anyone (λ _. false) source batch
      (event 3 "" "ok" ∷ event 1 genesis "ok" ∷ event 3 "" "ok" ∷ []) refl

source-chain : (a : String) → Chained toy 0 genesis (select (by a) source.rows)
unfolding payload member
source-chain a = elim (Bool-cases (string_eq.beq "n2" a)) [
  | inl same ↦
      rw same (refl, refl, refl, refl, (refl, refl, refl, refl, (refl, refl, refl, refl, tt)))
  | inr other ↦ rw other tt
]

source-IsSound : IsSound toy source
source-IsSound = record {
  chains = source-chain;
  known = λ a m.
      subst (λ (x : String). toy.is_did x ≡ true) ((string_eq.beq_iff "n2" a).0 (ground (arith, m)))
        refl;
  stored = (refl, (refl, (refl, tt)));
}

catches_up_example :
    (select (by "n2") (merge toy anyone replica (since source "n2" (head replica "n2").0)).0.rows
      ≡ (if string_eq.beq "n2" "n2"
          then select (by "n2") source.rows
          else select (by "n2") replica.rows))
    × ((merge toy anyone replica (since source "n2" (head replica "n2").0)).1 ≡ some 2)
catches_up_example =
    catches_up toy anyone source replica "n2" "n2" (event 2 "" "ok" ∷ event 3 "" "ok" ∷ [])
      source-IsSound refl refl refl
