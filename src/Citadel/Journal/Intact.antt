-- ===== src/Citadel/Journal/Intact.antt =====
-- What a journal holds after any run of merges and appends: `verify` finds it intact, and its
-- Lamport clock is the one that a reopened journal starts with.
use secdogie.Citadel.Journal.{
  JournalEvent, Signer, Journal, max_lamport, storable, authored, append, merge,
}
use secdogie.Citadel.Journal.Chains.{IsSound}
use secdogie.Identity.Json.{Json, Fields}
use secdogie.Identity.Signing.{Crypto}
use secdogie.Prelude.{nat_eq, ℕ, String, ◌≡◌, Bool, true, Option, none, some, List, [], ◌∷◌}

pub data Operation : Type 0 where
  -- events merged under an allowlist
  merged : (String → Bool) → List JournalEvent → Operation
  -- a kind and a body appended at a time; a journal without an identity raises and stays
  appended : String → Json → ℕ → Operation

unfoldable pub perform : Crypto → Journal → Operation → Journal
perform c j (merged trusted events) = (merge c trusted j events).0
perform c j (appended kind body at) = (append c j kind body at).0

unfoldable pub perform_all : Crypto → Journal → List Operation → Journal
perform_all c j [] = j
perform_all c j (o ∷ os) = perform_all c (perform c j o) os

-- the identity is a DID whose signatures verify
pub record CanSign (c : Crypto) (s : Signer) : Type 0 where
  pub did_is_valid : c.is_did s.did ≡ true
  pub verifies : (p : Fields) → c.verifies s.did p (s.sign p) ≡ true

abbrev pub CanSignAs : Crypto → Option Signer → Type 0
CanSignAs c none = Unit
CanSignAs c (some s) = CanSign c s

-- what is appended next fits the 64-bit columns
abbrev pub Appendable : Crypto → Option Signer → Journal → String → Json → ℕ → Type 0
Appendable c none j kind body at = Unit
Appendable c (some s) j kind body at = storable (authored c s j kind body at) ≡ true

-- no append of the history runs out of the 64 bits of a column
abbrev pub NoneOverflows : Crypto → Journal → List Operation → Type 0
NoneOverflows c j [] = Unit
NoneOverflows c j (merged trusted events ∷ os) =
    NoneOverflows c (perform c j (merged trusted events)) os
NoneOverflows c j (appended kind body at ∷ os) =
    Appendable c j.identity j kind body at
    × NoneOverflows c (perform c j (appended kind body at)) os

-- a run of merges keeps the identity, and the clock is the highest in the rows
record Keeps (c : Crypto) (s : Option Signer) (j : Journal) : Type 0 where
  identity : j.identity ≡ s
  sound : IsSound c j
  clock : j.lamport ≡ max_lamport j.rows
