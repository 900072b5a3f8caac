-- ===== src/Inference/Breaker/Recovery.antt =====
-- A breaker never stays open for good, whatever its history.
use secdogie.Prelude.{
  Option-cases, All, string_eq, nat_eq, lookup, lookup-put, lookup-remove, ℕ, ◌+◌, ◌≤◌, max, String,
  ◌≡◌, refl, inl, inr, true, Option, none, some, List, [], ◌∷◌, arith,
}
use secdogie.Inference.Breaker.{
  BreakerState, CircuitBreaker, make, state, available, success, fail_state, or_fresh, failure,
}

pub data Event : Type 0 where
  succeed : String → Event
  fail : String → ℕ → Event

unfoldable pub step : CircuitBreaker → Event → CircuitBreaker
step b (succeed k) = success b k
step b (fail k now) = (failure b k now).0

unfoldable pub run : CircuitBreaker → List Event → CircuitBreaker
run b [] = b
run b (ev ∷ evs) = run (step b ev) evs

-- the event is not later than `now`
abbrev pub IsBy : ℕ → Event → Type 0
IsBy now (succeed k) = Unit
IsBy now (fail k t) = t ≤ now

longest : CircuitBreaker → ℕ
longest b = max b.cooldown b.max_cooldown

-- no key is open past the longest wait from `now`
record IsTimed (w now : ℕ) (b : CircuitBreaker) : Type 0 where
  limit : longest b ≡ w
  waits : (k : String) (st : BreakerState) → lookup k b.states ≡ some st → st.until ≤ now + w

fail_state_until :
    (b : CircuitBreaker) (st : BreakerState) (now t w : ℕ)
    → longest b ≡ w
    → t ≤ now
    → st.until ≤ now + w
    → (fail_state b st t).0.until ≤ now + w
unfolding fail_state longest
fail_state_until b st now t w e h k = ground arith

module _ {w now : ℕ} {b : CircuitBreaker} (i : IsTimed w now b) where
  known_until :
      (o : Option BreakerState) (k : String) → lookup k b.states ≡ o → (or_fresh o).until ≤ now + w
  known_until none k e = omega arith
  known_until (some st) k e = i.waits k st e

  succeed-IsTimed : (k : String) → IsTimed w now (success b k)
  unfolding success longest
  succeed-IsTimed k = record {
    limit = i.limit;
    waits = λ j st e. i.waits j st (ground (arith, lookup-remove ⦃e = string_eq⦄ k j b.states));
  }

  fail-IsTimed : (k : String) (t : ℕ) → t ≤ now → IsTimed w now (failure b k t).0
  unfolding failure longest
  fail-IsTimed k t h =
      let old = or_fresh (lookup k b.states) in
      let new = (fail_state b old t).0 in
      record {
        limit = i.limit;
        waits = λ j st e. ground (
          arith,
          e,
          lookup-put ⦃e = string_eq⦄ k j new b.states,
          fail_state_until b old now t w i.limit h (known_until (lookup k b.states) k refl),
          i.waits j st,
        );
      }

  step-IsTimed : (ev : Event) → IsBy now ev → IsTimed w now (step b ev)
  unfolding step
  step-IsTimed (succeed k) h = succeed-IsTimed k
  step-IsTimed (fail k t) h = fail-IsTimed k t h

run-IsTimed :
    {w now : ℕ} (evs : List Event) {b : CircuitBreaker}
    → IsTimed w now b
    → All (IsBy now) evs
    → IsTimed w now (run b evs)
unfolding run
run-IsTimed [] i h = i
run-IsTimed (ev ∷ evs) i h = run-IsTimed evs (step-IsTimed i ev h.0) h.1

IsTimed-make :
    (threshold cooldown max_cooldown now : ℕ) (b : CircuitBreaker)
    → make threshold cooldown max_cooldown ≡ some b
    → IsTimed (max cooldown max_cooldown) now b
unfolding make longest lookup
IsTimed-make threshold cooldown max_cooldown now b h = record {
  limit = ground arith;
  waits = λ k st e. ground arith;
}

available_by :
    {w now : ℕ} {b : CircuitBreaker}
    → IsTimed w now b
    → (k : String) → available b k (now + w) ≡ true
unfolding available state
available_by {w} {now} {b} i k = elim (Option-cases (lookup k b.states)) [
  | inl e ↦ ground arith
  | inr (st, e) ↦ ground (arith, i.waits k st e)
]

-- A breaker recovers by itself: after any successes and failures, the last of them at `now` at the
-- latest, every key is available again at `now` plus the larger of the two cooldowns.
pub breaker_recovers :
    (threshold cooldown max_cooldown now : ℕ) (b : CircuitBreaker) (evs : List Event) (key : String)
    → make threshold cooldown max_cooldown ≡ some b
    → All (IsBy now) evs
    → available (run b evs) key (now + max cooldown max_cooldown) ≡ true
breaker_recovers threshold cooldown max_cooldown now b evs key e h =
    available_by (run-IsTimed evs (IsTimed-make threshold cooldown max_cooldown now b e) h) key
