-- ===== src/Tests/Inference.antt =====
-- The failure handling of the inference package on concrete histories.
use secdogie.Inference.Breaker
use secdogie.Inference.Breaker.{
  closed, opened, half_open, BreakerState, CircuitBreaker, make, state, available, fail_state,
  failure,
}
use secdogie.Inference.Breaker.Cycle.{
  fail_all, few_failures_stay_closed, threshold_opens, HalfOpenAt, backoff_doubles,
}
use secdogie.Inference.Breaker.Recovery.{succeed, fail, run, breaker_recovers}
use secdogie.Inference.Health.{
  Suspicion, suspects, healthy, FaultTracker, forgive, file_report, report_record, report, status,
}
use secdogie.Inference.Health.Blame.{Leg, lost, arrived, observe_all, suspected_needs_threshold}
use secdogie.Inference.Health.Reinstate.{everyone_is_reinstated}
use secdogie.Inference.Health.Reporters.{Claim, report_all, few_reporters_never_quarantine}
use secdogie.Inference.Health.Sentence.{
  timeline, sentence, strikes_left, past, report_sentences, report_silent, report_on_probation,
}
use secdogie.Prelude.{
  ltb, if◌then◌else◌, contains, string_eq, nat_eq, lookup, put, retain, ℕ, ◌+◌, ◌*◌, ◌^◌, min, max,
  String, ◌≡◌, refl, ◌≢◌, true, false, some, List, [], ◌∷◌, ◌++◌, arith,
}

abbrev three_strikes : CircuitBreaker
three_strikes = record { threshold = 3; cooldown = 10; max_cooldown = 60; states = [] }

abbrev tripped : BreakerState
tripped = record { failures = 0; trips = 0; until = 10; is_open = true }

-- "n1" is open until 10
abbrev one_open : CircuitBreaker
one_open = record { threshold = 3; cooldown = 10; max_cooldown = 60; states = ("n1", tripped) ∷ [] }

few_failures_stay_closed_example :
    Breaker.state (fail_all three_strikes "n1" (4 ∷ 7 ∷ [])) "n1" 8 ≡ closed
few_failures_stay_closed_example =
    few_failures_stay_closed three_strikes "n1" (4 ∷ 7 ∷ []) (unfold lookup in refl) (omega arith) 8

threshold_opens_example :
    Breaker.state (fail_all three_strikes "n1" ((4 ∷ 7 ∷ []) ++ 9 ∷ [])) "n1" 12
    ≡ (if ltb 12 (9 + 10) then opened else half_open)
threshold_opens_example =
    threshold_opens three_strikes "n1" (4 ∷ 7 ∷ []) (unfold lookup in refl) (omega arith) 9 12 refl

two_probes : HalfOpenAt one_open "n1" ((10 ∷ []) ++ 40 ∷ [])
unfolding Breaker.state failure lookup put Breaker.fail_state
two_probes = (refl, (refl, tt))

backoff_doubles_example :
    Breaker.state (fail_all one_open "n1" ((10 ∷ []) ++ 40 ∷ [])) "n1" 70
    ≡ (if ltb 70 (40 + min (10 * 2 ^ (0 + 1 + 1)) 60) then opened else half_open)
backoff_doubles_example =
    backoff_doubles one_open "n1" (10 ∷ []) 40 70 tripped (unfold lookup in refl) two_probes
      (omega arith)

breaker_recovers_example :
    available
      (run three_strikes (fail "n1" 4 ∷ succeed "n1" ∷ fail "n2" 9 ∷ []))
      "n1"
      (9 + max 10 60)
    ≡ true
breaker_recovers_example =
    breaker_recovers 3 10 60 9 three_strikes (fail "n1" 4 ∷ succeed "n1" ∷ fail "n2" 9 ∷ []) "n1"
      (unfold make in refl) (omega arith, (tt, (omega arith, tt)))

abbrev tracker : FaultTracker
tracker = record {
  threshold = 2;
  window = 30;
  cooldown = 10;
  max_cooldown = 60;
  probation = 20;
  records = [];
}

abbrev claim : String → String → ℕ → Claim
claim accused reporter at = record { accused = accused; reporter = reporter; at = at }

few_reporters_never_quarantine_example :
    status (report_all tracker (claim "n1" "n2" 4 ∷ claim "n1" "n2" 6 ∷ [])) "n1" 7 ≡ healthy
few_reporters_never_quarantine_example =
    few_reporters_never_quarantine ("n2" ∷ []) tracker "n1"
      (claim "n1" "n2" 4 ∷ claim "n1" "n2" 6 ∷ []) 7 (omega arith) (unfold lookup in refl)
      (λ _. refl, (λ _. refl, tt))

-- "n1" has one report against it
abbrev reported : FaultTracker
reported = record tracker {
  records =
      ("n1", record { reports = ("n2", 4) ∷ []; strikes = 0; until = 0; probation_until = 0 }) ∷ [];
}

-- "n1" is on probation from 16 to 36
abbrev paroled : FaultTracker
paroled = record tracker {
  records = ("n1", record { reports = []; strikes = 1; until = 16; probation_until = 36 }) ∷ [];
}

n1_is_not_n3 : ◌≢◌ {A = String} "n1" "n3"
n1_is_not_n3 e = ground (arith, string_eq.beq_iff "n1" "n3")

report_sentences_example : status (report reported "n1" "n3" 6).0 "n1" 17 ≡ (
    if string_eq.beq "n1" "n1"
    then timeline
        (6 + sentence reported (strikes_left reported (past reported "n1" "n3" 6) "n3" 6))
        (6 + sentence reported (strikes_left reported (past reported "n1" "n3" 6) "n3" 6) + 20)
        17
    else status reported "n1" 17)
report_sentences_example =
    report_sentences reported "n1" "n3" 6 "n1" 17 n1_is_not_n3
      (unfold report report_record file_report lookup put retain in refl)

one_report_is_silent : (report tracker "n1" "n3" 6).1 ≡ some false
unfolding report report_record file_report lookup put retain
one_report_is_silent = refl

report_silent_example : status (report tracker "n1" "n3" 6).0 "n1" 7 ≡ status tracker "n1" 7
report_silent_example =
    report_silent tracker "n1" "n3" 6 "n1" 7 λ e. ground (arith, e, one_report_is_silent)

report_on_probation_example :
    ((report paroled "n1" "n3" 20).1 ≡ some true)
    × ((t : ℕ)
        → status (report paroled "n1" "n3" 20).0 "n1" t
          ≡ timeline
              (20 + sentence paroled (strikes_left paroled (past paroled "n1" "n3" 20) "n3" 20))
              (20
                + sentence paroled (strikes_left paroled (past paroled "n1" "n3" 20) "n3" 20)
                + 20)
              t)
report_on_probation_example =
    report_on_probation paroled "n1" "n3" 20 n1_is_not_n3 (unfold status lookup in refl)
      (unfold forgive lookup in omega arith)

everyone_is_reinstated_example :
    status (report_all tracker (claim "n1" "n2" 4 ∷ claim "n1" "n3" 6 ∷ [])) "n1" 90 ≡ healthy
everyone_is_reinstated_example =
    everyone_is_reinstated tracker (claim "n1" "n2" 4 ∷ claim "n1" "n3" 6 ∷ []) 6 90 "n1" refl
      (omega arith, (omega arith, tt)) (omega arith)

abbrev unsuspecting : Suspicion
unsuspecting = record { threshold = 3; cooldown = 30; score = []; until = [] }

abbrev legs : List Leg
legs =
    lost ("n1" ∷ "n2" ∷ []) 4 ∷ arrived ("n1" ∷ []) ∷ lost ("n1" ∷ []) 8 ∷ lost ("n3" ∷ []) 9 ∷ []

suspected_needs_threshold_example :
    contains "n1" (suspects (observe_all unsuspecting legs) 9) ≡ false
suspected_needs_threshold_example =
    suspected_needs_threshold unsuspecting legs "n1" 9 refl refl (omega arith)
