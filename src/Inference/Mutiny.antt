-- ===== src/Inference/Mutiny.antt =====
-- The mutiny ledger of inference/secdogie_inference/mutiny.py: incidents, the latches they hold and
-- the operator's resets. An incident or a reset comes as its verification left it, `none` where it
-- was refused; a set is a list without repetition.
pub mod Sets
pub mod Balance
pub mod Held
pub mod NoneEmpty
pub mod Lockdown
use secdogie.Prelude.{
  if◌then◌else◌, select, any, contains, string_eq, nat_eq, Dict, lookup, get_or, put, remove,
  String, Bool, true, false, not, ◌&&◌, Option, none, some, List, [], ◌∷◌, ◌++◌, map,
}

-- the dataclass, without the fields that the ledger only stores
pub record Incident : Type 0 where
  pub incident_id : String
  pub targets : List String

-- what `verify_reset` returns, and the digest of the signed object
pub record Reset : Type 0 where
  pub key : String
  pub targets : List String
  pub incident_ids : List String

pub record MutinyLedger : Type 0 where
  pub incidents : Dict String Incident
  pub latches : Dict String (List String)
  pub cleared : List (String × String)
  pub resets : Dict String Reset

abbrev pub empty_ledger : MutinyLedger
empty_ledger = record { incidents = []; latches = []; cleared = []; resets = [] }

-- (target, id) in cleared
abbrev pub is_cleared : String → String → List (String × String) → Bool
is_cleared t i pairs = any (λ p. string_eq.beq p.0 t && string_eq.beq p.1 i) pairs

-- s.add(x)
unfoldable pub add_to : String → List String → List String
add_to x xs = if contains x xs then xs else xs ++ x ∷ []

-- the loop over the targets of a new incident
unfoldable pub latch :
    String
    → List (String × String)
    → List String
    → Dict String (List String)
    → Dict String (List String)
unfolding add_to
latch i cleared [] latches = latches
latch i cleared (t ∷ ts) latches =
    latch i cleared ts
      (if is_cleared t i cleared then latches else put t (add_to i (get_or t [] latches)) latches)

-- a verified incident whose id is not there yet
unfoldable pub add_new : MutinyLedger → Incident → MutinyLedger × Option Incident
add_new l inc = elim (lookup inc.incident_id l.incidents) [
  | some known ↦ (l, none)
  | none ↦ (
    record l {
      incidents = put inc.incident_id inc l.incidents;
      latches = latch inc.incident_id l.cleared inc.targets l.latches;
    },
    some inc,
  )
]

-- `add`
unfoldable pub add : MutinyLedger → Option Incident → MutinyLedger × Option Incident
unfolding add_new
add l none = (l, none)
add l (some inc) = add_new l inc

-- {(t, i) for t in targets for i in ids}
unfoldable pub pairs : List String → List String → List (String × String)
pairs [] ids = []
pairs (t ∷ ts) ids = map (λ i. (t, i)) ids ++ pairs ts ids

-- what still holds the target, once some incidents are taken off
unfoldable pub leave :
    String → List String → Dict String (List String) → Dict String (List String) × Bool
leave t [] latches = (remove t latches, true)
leave t (i ∷ is) latches = (put t (i ∷ is) latches, false)

-- one round of the loop over the targets of a reset, given what holds the target
unfoldable pub release_from :
    String
    → List String
    → Dict String (List String)
    → Option (List String)
    → Dict String (List String) × Bool
release_from t ids latches none = (latches, false)
release_from t ids latches (some held) = leave t (select (λ i. not (contains i ids)) held) latches

unfoldable pub release :
    String → List String → Dict String (List String) → Dict String (List String) × Bool
unfolding leave release_from
release t ids latches = release_from t ids latches (lookup t latches)

unfoldable pub release_all :
    List String → List String → Dict String (List String) → Dict String (List String) × List String
unfolding release
release_all [] ids latches = (latches, [])
release_all (t ∷ ts) ids latches =
    let (latches', gone) = release t ids latches in
    let (latches'', unlatched) = release_all ts ids latches' in
    (latches'', if gone then t ∷ unlatched else unlatched)

-- a verified reset
unfoldable pub reset_new : MutinyLedger → Reset → MutinyLedger × (Bool × List String)
reset_new l r = elim (lookup r.key l.resets) [
  | some known ↦ (l, (false, []))
  | none ↦
      let (latches', unlatched) = release_all r.targets r.incident_ids l.latches in
      (
        record l {
          resets = put r.key r l.resets;
          cleared = l.cleared ++ pairs r.targets r.incident_ids;
          latches = latches';
        },
        (true, unlatched),
      )
]

-- `reset`
unfoldable pub reset : MutinyLedger → Option Reset → MutinyLedger × (Bool × List String)
unfolding reset_new
reset l none = (l, (false, []))
reset l (some r) = reset_new l r

unfoldable pub lockdown : MutinyLedger → Bool
lockdown l = elim l.latches [ [] ↦ false | _ ∷ _ ↦ true ]

unfoldable pub is_latched : MutinyLedger → String → Bool
is_latched l t = elim (lookup t l.latches) [ none ↦ false | some held ↦ true ]
