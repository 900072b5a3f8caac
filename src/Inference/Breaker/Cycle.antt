-- ===== src/Inference/Breaker/Cycle.antt =====
-- The breaker of one key, from closed over open and half-open back to closed.
use secdogie.Prelude.{
  ltb, if◌then◌else◌, length, beq_refl, string_eq, nat_eq, lookup, lookup-put, ℕ, ◌+◌, ◌*◌, ◌^◌,
  ◌≤◌, ◌<◌, min, String, ◌≡◌, refl, ap, ◌∙◌, ◌≢◌, true, false, not, none, some, List, [], ◌∷◌, ◌++◌,
  arith,
}
use secdogie.Inference.Breaker.{
  closed, opened, half_open, BreakerState, fresh, CircuitBreaker, state, fail_state, or_fresh,
  failure,
}

module _ (b : CircuitBreaker) (key : String) where
  -- The state of a key after its own failure is that of `fail_state`.
  pub lookup-failure :
      (now : ℕ)
      → lookup key (failure b key now).0.states
        ≡ some (fail_state b (or_fresh (lookup key b.states)) now).0
  unfolding failure
  lookup-failure now = rw (lookup-put ⦃e = string_eq⦄, beq_refl ⦃e = string_eq⦄ key)

  -- A failure of one key leaves the status of every other key as it was.
  pub state-failure_ne :
      (j : String) (now t : ℕ) → key ≢ j → state (failure b key now).0 j t ≡ state b j t
  unfolding failure state
  state-failure_ne j now t h = ground (
    arith,
    lookup-put ⦃e = string_eq⦄ key j (fail_state b (or_fresh (lookup key b.states)) now).0 b.states,
    string_eq.beq_iff key j,
  )

-- failures of one key, one after another
unfoldable pub fail_all : CircuitBreaker → String → List ℕ → CircuitBreaker
fail_all b key [] = b
fail_all b key (t ∷ ts) = fail_all (failure b key t).0 key ts

fail_all-append :
    (b : CircuitBreaker) (key : String) (ts : List ℕ) (t : ℕ)
    → fail_all b key (ts ++ t ∷ []) ≡ (failure (fail_all b key ts) key t).0
unfolding fail_all
fail_all-append b key [] t = refl
fail_all-append b key (u ∷ ts) t = fail_all-append (failure b key u).0 key ts t

-- the parameters never change
record SameLimits (a b : CircuitBreaker) : Type 0 where
  threshold : a.threshold ≡ b.threshold
  cooldown : a.cooldown ≡ b.cooldown
  max_cooldown : a.max_cooldown ≡ b.max_cooldown

fail_all-SameLimits :
    (b : CircuitBreaker) (key : String) (ts : List ℕ) → SameLimits (fail_all b key ts) b
unfolding fail_all failure
fail_all-SameLimits b key [] = record { threshold = refl; cooldown = refl; max_cooldown = refl }
fail_all-SameLimits b key (t ∷ ts) =
    let h = fail_all-SameLimits (failure b key t).0 key ts in
    record { threshold = h.threshold; cooldown = h.cooldown; max_cooldown = h.max_cooldown }

module _ (b : CircuitBreaker) (st : BreakerState) (now : ℕ) where
  fail_state_below :
      st.is_open ≡ false
      → st.failures + 1 < b.threshold
      → (fail_state b st now).0 ≡ record st { failures = st.failures + 1 }
  unfolding fail_state
  fail_state_below o h = ground arith

  fail_state_trips :
      st.is_open ≡ false
      → b.threshold ≤ st.failures + 1
      → (fail_state b st now).0
        ≡ record st { is_open = true; failures = 0; until = now + b.cooldown }
  unfolding fail_state
  fail_state_trips o h = ground arith

-- below the threshold the failures are counted and nothing else changes
fail_all-counts :
    (b : CircuitBreaker) (key : String) (ts : List ℕ) (st : BreakerState)
    → or_fresh (lookup key b.states) ≡ st
    → st.is_open ≡ false
    → st.failures + length ts < b.threshold
    → or_fresh (lookup key (fail_all b key ts).states)
      ≡ record st { failures = st.failures + length ts }
unfolding fail_all
fail_all-counts b key [] st e o h = ground arith
fail_all-counts b key (t ∷ ts) st e o h =
    fail_all-counts (failure b key t).0 key ts (record st { failures = st.failures + 1 })
      (rw (lookup-failure b key t, e) (fail_state_below b st t o (omega arith))) o
      (unfold failure in omega arith)
    ∙ ap (λ (n : ℕ). record st { failures = n }) (omega arith)

status_of-state :
    (b : CircuitBreaker) (key : String) (st : BreakerState) (t : ℕ)
    → or_fresh (lookup key b.states) ≡ st
    → state b key t
      ≡ (if not st.is_open then closed else if ltb t st.until then opened else half_open)
unfolding state
status_of-state b key st t e = ground arith

module _ (b : CircuitBreaker) (key : String) (ts : List ℕ) (unknown : lookup key b.states ≡ none)
    (few : length ts < b.threshold) where
  counted : or_fresh (lookup key (fail_all b key ts).states) ≡ record fresh { failures = length ts }
  counted =
      fail_all-counts b key ts fresh (ap or_fresh unknown) refl (omega arith)
      ∙ ap (λ (n : ℕ). record fresh { failures = n }) (omega arith)

  -- A key without a record stays closed through fewer failures than the threshold, whenever they
  -- come.
  pub few_failures_stay_closed : (t : ℕ) → state (fail_all b key ts) key t ≡ closed
  few_failures_stay_closed t =
      status_of-state (fail_all b key ts) key (record fresh { failures = length ts }) t counted

  -- The failure with which a key without a record reaches the threshold opens the breaker for
  -- `cooldown` ticks from that failure on; from then on it is half-open.
  pub threshold_opens :
      (last t : ℕ)
      → length ts + 1 ≡ b.threshold
      → state (fail_all b key (ts ++ last ∷ [])) key t
        ≡ (if ltb t (last + b.cooldown) then opened else half_open)
  threshold_opens last t full =
      let fb = fail_all b key ts in
      let same = fail_all-SameLimits b key ts in
      rw (fail_all-append b key ts last) (
        status_of-state (failure fb key last).0 key
          (record { failures = 0; trips = 0; until = last + fb.cooldown; is_open = true }) t
          (rw (lookup-failure fb key last, counted)
            (fail_state_trips fb (record fresh { failures = length ts }) last refl
              (rw same.threshold (omega arith))))
        ∙ rw same.cooldown refl)

-- A failure of an open breaker counts for nothing: it reports nothing new, and no status changes.
failure_while_open :
    (b : CircuitBreaker) (key j : String) (now t : ℕ)
    → state b key now ≡ opened
    → ((failure b key now).1 ≡ some false) × (state (failure b key now).0 j t ≡ state b j t)
unfolding failure state
failure_while_open b key j now t h = (
  ground arith,
  ground (
    arith,
    lookup-put ⦃e = string_eq⦄ key j (or_fresh (lookup key b.states)) b.states,
    string_eq.beq_iff key j,
  ),
)

-- every failure of the list comes when the breaker of the key is half-open
abbrev pub HalfOpenAt : CircuitBreaker → String → List ℕ → Type 0
HalfOpenAt b key [] = Unit
HalfOpenAt b key (t ∷ ts) = (state b key t ≡ half_open) × HalfOpenAt (failure b key t).0 key ts

abbrev probed : CircuitBreaker → ℕ → ℕ → BreakerState → BreakerState
probed b n now st = record st { trips = n; until = now + min (b.cooldown * 2 ^ n) b.max_cooldown }

fail_state_probe :
    (b : CircuitBreaker) (key : String) (st : BreakerState) (now : ℕ)
    → lookup key b.states ≡ some st
    → state b key now ≡ half_open
    → st.trips + 1 < 1024
    → lookup key (failure b key now).0.states ≡ some (probed b (st.trips + 1) now st)
fail_state_probe b key st now e h few =
    rw (lookup-failure b key now, e) (unfold state fail_state in ground arith)

fail_all_probes :
    (b : CircuitBreaker) (key : String) (ts : List ℕ) (last : ℕ) (st : BreakerState)
    → lookup key b.states ≡ some st
    → HalfOpenAt b key (ts ++ last ∷ [])
    → st.trips + length ts + 1 < 1024
    → lookup key (fail_all b key (ts ++ last ∷ [])).states
      ≡ some (probed b (st.trips + length ts + 1) last st)
unfolding fail_all
fail_all_probes b key [] last st e h few =
    fail_state_probe b key st last e h.0 (omega (arith, few))
    ∙ ap (λ (n : ℕ). some (probed b n last st)) (omega arith)
fail_all_probes b key (t ∷ ts) last st e h few =
    fail_all_probes (failure b key t).0 key ts last (probed b (st.trips + 1) t st)
      (fail_state_probe b key st t e h.0 (omega (arith, few))) h.1 (omega (arith, few))
    ∙ (unfold failure in ap (λ (n : ℕ). some (probed b n last st)) (omega arith))

half_open_is_open :
    (b : CircuitBreaker) (key : String) (ts : List ℕ) (last : ℕ) (st : BreakerState)
    → lookup key b.states ≡ some st
    → HalfOpenAt b key (ts ++ last ∷ [])
    → st.is_open ≡ true
unfolding state
half_open_is_open b key [] last st e h = ground (arith, h.0)
half_open_is_open b key (t ∷ ts) last st e h = ground (arith, h.0)

-- After `length ts` failed probes of a half-open breaker the next failed probe reopens it for
-- `cooldown` doubled once more for each of them and each earlier trip, at most `max_cooldown`,
-- counted from that probe; from then on it is half-open. This is up to 1023 trips, since the next
-- one raises.
pub backoff_doubles :
    (b : CircuitBreaker) (key : String) (ts : List ℕ) (last t : ℕ) (st : BreakerState)
    → lookup key b.states ≡ some st
    → HalfOpenAt b key (ts ++ last ∷ [])
    → st.trips + length ts + 1 < 1024
    → state (fail_all b key (ts ++ last ∷ [])) key t ≡ (
        if ltb t (last + min (b.cooldown * 2 ^ (st.trips + length ts + 1)) b.max_cooldown)
        then opened
        else half_open)
backoff_doubles b key ts last t st e h few =
    status_of-state (fail_all b key (ts ++ last ∷ [])) key
      (probed b (st.trips + length ts + 1) last st) t
      (rw (fail_all_probes b key ts last st e h few))
    ∙ rw (half_open_is_open b key ts last st e h)
