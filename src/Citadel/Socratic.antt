-- ===== src/Citadel/Socratic.antt =====
-- The instruction gate: citadel/secdogie_citadel/socratic.py. What its regular expressions find in
-- a text is a parameter. The wording of reasons and suggestions is not modelled.
use Prim.Native.String.{count}
use secdogie.Prelude.{
  ltb, leb, if◌then◌else◌, nat_eq, string_eq, strip, nonempty, ℕ, String, Bool, true, false, ◌&&◌,
  ◌||◌, Option, none, some, List, [], ◌∷◌,
}

-- the unit of an interval, as the expression captures it
pub data IntervalUnit : Type 0 where
  ms millisecond second sec s haomiao miao : IntervalUnit

-- what `re` finds
pub record Patterns : Type 0 where
  pub mutating : String → Bool
  pub read_only : String → Bool
  pub busy_loop : String → Bool
  pub publish_verb : String → Bool
  pub unattended : String → Bool
  -- the number and the unit of the first fixed interval
  pub tight_interval : String → Option (ℕ × IntervalUnit)
  -- how many "and then" the text has
  pub then_steps : String → ℕ

pub data Reason : Type 0 where
  empty contradiction unattended_posting polling overlong : Reason

pub record Review : Type 0 where
  pub accepted : Bool
  pub reasons : List Reason

abbrev pub max_len : ℕ
max_len = 600

abbrev pub max_steps : ℕ
max_steps = 6

unfoldable pub is_tight : Option (ℕ × IntervalUnit) → Bool
is_tight none = false
is_tight (some (n, ms)) = true
is_tight (some (n, haomiao)) = true
is_tight (some (n, millisecond)) = false
is_tight (some (n, _)) = leb n 5

module _ (p : Patterns) where
  unfoldable pub check_empty : String → Option Reason
  check_empty text = if nonempty (strip text) then none else some empty

  unfoldable pub check_contradiction : String → Option Reason
  check_contradiction text =
      if p.read_only text && p.mutating text then some contradiction else none

  unfoldable pub check_polling : String → Option Reason
  unfolding is_tight
  check_polling text =
      if is_tight (p.tight_interval text) || p.busy_loop text then some polling else none

  unfoldable pub check_unattended_posting : String → Option Reason
  check_unattended_posting text =
      if p.publish_verb text && p.unattended text then some unattended_posting else none

  unfoldable pub check_overlong : String → Option Reason
  check_overlong text =
      if ltb max_len (count text) || ltb max_steps (p.then_steps text) then some overlong else none

  -- the reasons that the checks found, in order
  unfoldable pub found : List (Option Reason) → List Reason
  found [] = []
  found (none ∷ rest) = found rest
  found (some r ∷ rest) = r ∷ found rest

  -- `review` with no extra checks
  unfoldable pub review : String → Review
  unfolding found
  review text =
      let reasons = found (
        check_empty text
        ∷ check_contradiction text
        ∷ check_unattended_posting text
        ∷ check_polling text
        ∷ check_overlong text
        ∷ []) in
      record { accepted = elim reasons [ [] ↦ true | _ ∷ _ ↦ false ]; reasons = reasons }

-- `any(r.startswith("unattended posting") for r in reasons)`
unfoldable pub asks_unattended : List Reason → Bool
asks_unattended [] = false
asks_unattended (unattended_posting ∷ reasons) = true
asks_unattended (_ ∷ reasons) = asks_unattended reasons
