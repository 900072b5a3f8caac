-- ===== src/Citadel/Journal.antt =====
-- The signed, append-only event journal: citadel/secdogie_citadel/journal.py. The SQLite table is
-- the list of its rows in the order of insertion; an event has the types of the table's columns, so
-- its ts is a float, given as a natural number of clock ticks.
pub mod Chains
pub mod Intact
pub mod Admission
pub mod Segments
pub mod CatchUp
use mathlib.Core.Option
use secdogie.Prelude.{
  ltb, leb, nat_beq, if◌then◌else◌, select, any, string_eq, nat_eq, Dict, sorted_set, ℕ, ◌+◌, ◌^◌,
  max, String, Bool, true, false, not, ◌&&◌, Option, none, some, List, [], ◌∷◌, ◌++◌, map,
}
use secdogie.Identity.Json.{Json, num, str, Fields, end, field}
use Prim.Native.String.{compare}
use Prim.Native.Nat.{Ordering}
use secdogie.Identity.Signing.{Crypto}

pub record JournalEvent : Type 0 where
  pub author : String
  pub seq : ℕ
  pub lamport : ℕ
  pub ts : ℕ
  pub kind : String
  pub body : Json
  pub prev_hash : String
  pub entry_hash : String
  pub sig : String

-- "0" * 64
abbrev pub genesis : String
genesis = "0000000000000000000000000000000000000000000000000000000000000000"

-- `_payload`: what the hash and the signature cover; the float ts stands as its number of ticks
unfoldable pub payload : JournalEvent → Fields
payload e = field "author" (str e.author) (
    field "seq" (num e.seq) (
      field "lamport" (num e.lamport) (
        field "ts" (num e.ts) (
          field "kind" (str e.kind)
            (field "body" e.body (field "prev_hash" (str e.prev_hash) end))))))

-- this node's key: its DID, and the base64 signature over the canonical bytes of a payload
pub record Signer : Type 0 where
  pub did : String
  pub sign : Fields → String

pub record Journal : Type 0 where
  pub identity : Option Signer
  pub rows : List JournalEvent
  pub lamport : ℕ

-- WHERE author = ?
abbrev pub by : String → JournalEvent → Bool
by author e = string_eq.beq e.author author

-- SELECT MAX(lamport)
unfoldable pub max_lamport : List JournalEvent → ℕ
max_lamport [] = 0
max_lamport (e ∷ es) = max e.lamport (max_lamport es)

-- the constructor, over the rows that the file holds
unfoldable pub open_journal : Option Signer → List JournalEvent → Journal
open_journal identity rows = record { identity = identity; rows = rows; lamport = max_lamport rows }

-- the row with the highest seq, from a best one so far
unfoldable pub highest : ℕ → String → List JournalEvent → ℕ × String
highest n hash [] = (n, hash)
highest n hash (e ∷ es) = if ltb n e.seq then highest e.seq e.entry_hash es else highest n hash es

-- `_head`
unfoldable pub head : Journal → String → ℕ × String
head j author = highest 0 genesis (select (by author) j.rows)

-- an INTEGER of SQLite is signed and has 64 bits
abbrev pub column_limit : ℕ
column_limit = 2 ^ 63

abbrev pub storable : JournalEvent → Bool
storable e = ltb e.seq column_limit && ltb e.lamport column_limit

-- `_insert`; `none` where it raises OverflowError
unfoldable pub insert : JournalEvent → Journal → Option Journal
insert e j = if storable e then some (record j { rows = j.rows ++ e ∷ [] }) else none

-- the event that `append` signs and stores; `at` is what the clock says
unfoldable pub authored : Crypto → Signer → Journal → String → Json → ℕ → JournalEvent
authored c s j kind body at =
    let draft : JournalEvent = record {
      author = s.did;
      seq = (head j s.did).0 + 1;
      lamport = j.lamport + 1;
      ts = at;
      kind = kind;
      body = body;
      prev_hash = (head j s.did).1;
      entry_hash = "";
      sig = "";
    } in
    record draft { entry_hash = c.digest (payload draft); sig = s.sign (payload draft) }

-- the clock has ticked when the insertion raises
unfoldable pub after_insert :
    Journal → JournalEvent → Option Journal → Journal × Option JournalEvent
after_insert j e none = (j, none)
after_insert j e (some j') = (j', some e)

-- `append` under the given identity; `none` where it raises
unfoldable pub append_as :
    Crypto → Option Signer → Journal → String → Json → ℕ → Journal × Option JournalEvent
unfolding after_insert insert
append_as c none j kind body at = (j, none)
append_as c (some s) j kind body at =
    let e = authored c s j kind body at in
    let j' = record j { lamport = j.lamport + 1 } in after_insert j' e (insert e j')

unfoldable pub append : Crypto → Journal → String → Json → ℕ → Journal × Option JournalEvent
unfolding append_as
append c j kind body at = append_as c j.identity j kind body at

-- the checks that need no lock: well-formed, from a trusted author, signed and hashed
unfoldable pub authentic : Crypto → (String → Bool) → JournalEvent → Bool
authentic c trusted e =
    leb 1 e.seq
    && c.is_did e.author
    && trusted e.author
    && c.verifies e.author (payload e) e.sig
    && string_eq.beq e.entry_hash (c.digest (payload e))

-- an event with its author and seq is there
abbrev pub stored_in : Journal → JournalEvent → Bool
stored_in j e = any (λ r. by e.author r && nat_beq r.seq e.seq) j.rows

-- the checks under the lock: not there yet, and next in its author's chain
unfoldable pub fits : Journal → JournalEvent → Bool
fits j e =
    not (stored_in j e)
    && nat_beq e.seq ((head j e.author).0 + 1)
    && string_eq.beq e.prev_hash (head j e.author).1

-- the end of `_accept`: the clock follows once the event is stored
unfoldable pub catch_clock : Journal → JournalEvent → Option Journal → Journal × Option Bool
catch_clock j e none = (j, none)
catch_clock j e (some j') = (record j' { lamport = max j.lamport e.lamport }, some true)

-- `_accept`, with the allowlist given by its `contains`; `none` where it raises OverflowError: in the
-- insertion, or already in the query for a seq past the limit
unfoldable pub accept : Crypto → (String → Bool) → Journal → JournalEvent → Journal × Option Bool
unfolding insert catch_clock
accept c trusted j e = if authentic c trusted e && fits j e then catch_clock j e (insert e j) else (
  j,
  if authentic c trusted e && not (stored_in j e) && leb column_limit e.seq
      then none
      else some false,
)

-- where `_accept` raises, the rest of the batch is not looked at
unfoldable pub after_accept : Journal × Option Bool → Journal × Option ℕ → Journal × Option ℕ
after_accept (j, none) rest = (j, none)
after_accept (j, some taken) (j', n) = (j', Option.map (λ k. (if taken then 1 else 0) + k) n)

-- the loop of `merge`, and how many it accepts
unfoldable pub accept_all :
    Crypto → (String → Bool) → Journal → List JournalEvent → Journal × Option ℕ
unfolding after_accept
accept_all c trusted j [] = (j, some 0)
accept_all c trusted j (e ∷ es) =
    let rest = accept_all c trusted (accept c trusted j e).0 es in
    after_accept (accept c trusted j e) rest

-- the order of (author, seq)
unfoldable pub precedes : JournalEvent → JournalEvent → Bool
precedes a b = elim (compare a.author b.author) [
  | Ordering.lt ↦ true
  | Ordering.eq ↦ leb a.seq b.seq
  | Ordering.gt ↦ false
]

-- sorted(events, key=(author, seq)), which keeps the order of equal keys
unfoldable pub insert_event : JournalEvent → List JournalEvent → List JournalEvent
insert_event e [] = e ∷ []
insert_event e (f ∷ fs) =
    let rest = insert_event e fs in if precedes e f then e ∷ f ∷ fs else f ∷ rest

unfoldable pub sort_events : List JournalEvent → List JournalEvent
sort_events [] = []
sort_events (e ∷ es) = insert_event e (sort_events es)

unfoldable pub merge : Crypto → (String → Bool) → Journal → List JournalEvent → Journal × Option ℕ
merge c trusted j events = accept_all c trusted j (sort_events events)

abbrev pub authors : List JournalEvent → List String
authors rows = sorted_set (map (λ e. e.author) rows)

-- `heads`: SELECT author, MAX(seq) GROUP BY author
unfoldable pub heads : Journal → Dict String ℕ
heads j = map (λ a. (a, (head j a).0)) (authors j.rows)

-- `since`
unfoldable pub since : Journal → String → ℕ → List JournalEvent
since j author after = sort_events (select (λ e. by author e && ltb after e.seq) j.rows)

pub data Break : Type 0 where
  invalid_did : String → Break
  out_of_order chain_broken wrong_content bad_signature : String → ℕ → Break

-- one author's rows, from position `i` and the hash before them
unfoldable pub check_rows : Crypto → String → ℕ → String → List JournalEvent → Option Break
check_rows c author i prev [] = none
check_rows c author i prev (e ∷ es) =
    let rest = check_rows c author (i + 1) e.entry_hash es in
    if not (nat_beq e.seq (i + 1))
    then some (out_of_order author e.seq)
    else if not (string_eq.beq e.prev_hash prev)
    then some (chain_broken author e.seq)
    else if not (string_eq.beq e.entry_hash (c.digest (payload e)))
    then some (wrong_content author e.seq)
    else if not (c.verifies author (payload e) e.sig)
    then some (bad_signature author e.seq)
    else rest

-- author after author
unfoldable pub check_authors : Crypto → List JournalEvent → List String → Option Break
check_authors c rows [] = none
check_authors c rows (a ∷ rest) =
    let later = check_authors c rows rest in
    if not (c.is_did a)
    then some (invalid_did a)
    else elim (check_rows c a 0 genesis (sort_events (select (by a) rows))) [
      | some broken ↦ some broken
      | none ↦ later
    ]

-- `verify`: `none` for an intact journal, or what broke first
unfoldable pub verify : Crypto → Journal → Option Break
verify c j = check_authors c j.rows (authors j.rows)
