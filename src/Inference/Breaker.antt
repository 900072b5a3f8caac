-- ===== src/Inference/Breaker.antt =====
-- The circuit breaker of inference/secdogie_inference/breaker.py, per node and per model.
-- Times are natural numbers of clock ticks; a key is a target string. The cooldown is a float, so
-- its product with `2 ** trips` raises OverflowError from 1024 trips on.
pub mod Cycle
pub mod Recovery
use secdogie.Prelude.{
  ltb, leb, if◌then◌else◌, string_eq, nat_eq, Dict, lookup, put, remove, ℕ, ◌+◌, ◌*◌, ◌^◌, min,
  String, Bool, true, false, not, Option, none, some, [],
}

pub data Status : Type 0 where
  closed opened half_open : Status

-- the dataclass `_State`
pub record BreakerState : Type 0 where
  pub failures : ℕ
  pub trips : ℕ
  pub until : ℕ
  pub is_open : Bool

abbrev pub fresh : BreakerState
fresh = record { failures = 0; trips = 0; until = 0; is_open = false }

pub record CircuitBreaker : Type 0 where
  pub threshold : ℕ
  pub cooldown : ℕ
  pub max_cooldown : ℕ
  pub states : Dict String BreakerState

-- the constructor, which raises on a threshold below 1
unfoldable pub make : ℕ → ℕ → ℕ → Option CircuitBreaker
make threshold cooldown max_cooldown =
    if ltb threshold 1
    then none
    else some (record {
      threshold = threshold;
      cooldown = cooldown;
      max_cooldown = max_cooldown;
      states = [];
    })

status_of : Option BreakerState → ℕ → Status
status_of none now = closed
status_of (some st) now =
    if not st.is_open then closed else if ltb now st.until then opened else half_open

unfoldable pub state : CircuitBreaker → String → ℕ → Status
unfolding status_of
state b key now = status_of (lookup key b.states) now

unfoldable pub available : CircuitBreaker → String → ℕ → Bool
available b key now = elim (state b key now) [ opened ↦ false | _ ↦ true ]

unfoldable pub success : CircuitBreaker → String → CircuitBreaker
success b key = record b { states = remove key b.states }

-- a float times `2 ** n` raises OverflowError: the power is past the largest float
abbrev pub overflows : ℕ → Bool
overflows n = leb 1024 n

-- `failure` on the state of its key: the new state, and whether the breaker opens; `none` where it
-- raises, with the trip counted
unfoldable pub fail_state : CircuitBreaker → BreakerState → ℕ → BreakerState × Option Bool
fail_state b st now =
    if st.is_open
    then (if ltb now st.until
        then (st, some false)
        else if overflows (st.trips + 1)
        then (record st { trips = st.trips + 1 }, none)
        else (
          record st {
            trips = st.trips + 1;
            until = now + min (b.cooldown * 2 ^ (st.trips + 1)) b.max_cooldown;
          },
          some true,
        ))
    else if ltb (st.failures + 1) b.threshold
    then (record st { failures = st.failures + 1 }, some false)
    else (record st { is_open = true; failures = 0; until = now + b.cooldown }, some true)

abbrev pub or_fresh : Option BreakerState → BreakerState
or_fresh none = fresh
or_fresh (some st) = st

unfoldable pub failure : CircuitBreaker → String → ℕ → CircuitBreaker × Option Bool
unfolding fail_state
failure b key now =
    let (st, opens) = fail_state b (or_fresh (lookup key b.states)) now in
    (record b { states = put key st b.states }, opens)
