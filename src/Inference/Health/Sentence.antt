-- ===== src/Inference/Health/Sentence.antt =====
-- What a report does to a node's status, and when a sentence ends.
use secdogie.Prelude.{
  ltb, leb, if◌then◌else◌, Bool-cases, beq_refl, string_eq, nat_eq, lookup, retain, lookup-put,
  length-put_pos, ℕ, ◌+◌, ◌*◌, ◌^◌, ◌<◌, min, String, ◌≡◌, refl, sym, ap, ◌∙◌, ◌≢◌, inl, inr, Bool,
  true, false, Option, some, [], arith,
}
use secdogie.Inference.Health.{
  Status, quarantined, probation, healthy, FaultRecord, FaultTracker, or_no_faults, forgive,
  file_report, report_record, report, status_of, status,
}

-- the status over time that a sentence gives: quarantined, on probation, healthy
abbrev pub timeline : ℕ → ℕ → ℕ → Status
timeline until probation_until t =
    if ltb t until then quarantined else if ltb t probation_until then probation else healthy

-- the length of the sentence that follows `strikes` earlier ones
unfoldable pub sentence : FaultTracker → ℕ → ℕ
sentence ft strikes = min (ft.cooldown * 2 ^ strikes) ft.max_cooldown

module _ (ft : FaultTracker) (r : FaultRecord) (reporter : String) (now : ℕ) where
  abbrev pub strikes_left : ℕ
  strikes_left = (forgive ft r now).strikes

  report_record-true :
      (report_record ft r reporter now).1 ≡ some true
      → (report_record ft r reporter now).0 ≡ record {
        reports = [];
        strikes = strikes_left + 1;
        until = now + sentence ft strikes_left;
        probation_until = now + sentence ft strikes_left + ft.probation;
      }
  unfolding report_record sentence
  report_record-true h = ground arith

  report_record_silent :
      (t : ℕ)
      → (report_record ft r reporter now).1 ≢ some true
      → status_of (some (report_record ft r reporter now).0) t ≡ status_of (some r) t
  unfolding report_record
  report_record_silent t h = ground arith

  -- inside a sentence nothing is counted; on probation one report is enough
  report_record_on_probation :
      ltb now r.until ≡ false
      → ltb now r.probation_until ≡ true
      → strikes_left < 1024
      → (report_record ft r reporter now).1 ≡ some true
  unfolding report_record file_report
  report_record_on_probation h k few = ground (
    arith,
    length-put_pos ⦃e = string_eq⦄ reporter now (retain (λ _ t. leb now (t + ft.window)) r.reports),
  )

module _ (ft : FaultTracker) (accused reporter : String) (now : ℕ) where
  abbrev pub past : FaultRecord
  past = or_no_faults (lookup accused ft.records)

  status-past : (t : ℕ) → status ft accused t ≡ status_of (some past) t
  unfolding status
  status-past t = ground arith

  status-report :
      (did : String) (t : ℕ)
      → accused ≢ reporter
      → status (report ft accused reporter now).0 did t ≡ (
          if string_eq.beq accused did
          then status_of (some (report_record ft past reporter now).0) t
          else status ft did t)
  unfolding report status
  status-report did t ne = ground (
    arith,
    string_eq.beq_iff accused reporter,
    lookup-put ⦃e = string_eq⦄ accused did (report_record ft past reporter now).0 ft.records,
  )

  report-eq :
      accused ≢ reporter
      → (report ft accused reporter now).1 ≡ (report_record ft past reporter now).1
  unfolding report
  report-eq ne = ground (arith, string_eq.beq_iff accused reporter)

  report_self : accused ≡ reporter → report ft accused reporter now ≡ (ft, some false)
  unfolding report
  report_self e = ground (arith, string_eq.beq_iff accused reporter)

  -- A report of another node that returns true sentences the accused: quarantined for `cooldown`
  -- doubled for every earlier strike that is not forgiven, at most `max_cooldown`, then on
  -- probation for `probation`, then healthy. Every other node keeps its status.
  pub report_sentences :
      (did : String) (t : ℕ)
      → accused ≢ reporter
      → (report ft accused reporter now).1 ≡ some true
      → status (report ft accused reporter now).0 did t ≡ (
          if string_eq.beq accused did
          then timeline
              (now + sentence ft (strikes_left ft past reporter now))
              (now + sentence ft (strikes_left ft past reporter now) + ft.probation)
              t
          else status ft did t)
  report_sentences did t ne h =
      rw (status-report did t ne, report_record-true ft past reporter now (sym (report-eq ne) ∙ h))

  -- A report that does not return true, because it returns false, one's own included, or raises,
  -- changes no node's status, now or later.
  pub report_silent :
      (did : String) (t : ℕ)
      → (report ft accused reporter now).1 ≢ some true
      → status (report ft accused reporter now).0 did t ≡ status ft did t
  report_silent did t h = elim (Bool-cases (string_eq.beq accused reporter)) [
    | inl self ↦
        ap (λ (p : FaultTracker × Option Bool). status p.0 did t)
          (report_self ((string_eq.beq_iff accused reporter).0 self))
    | inr other ↦
        let ne : accused ≢ reporter = ground (arith, string_eq.beq_iff accused reporter) in
        status-report did t ne
        ∙ ground (
          arith,
          string_eq.beq_iff accused did,
          status-past t,
          ap (λ (d : String). status ft d t) {x = accused} {y = did},
          report_record_silent ft past reporter now t (λ e. h (report-eq ne ∙ e)),
        )
  ]

  -- On probation a single report by another node returns true and sentences the accused again:
  -- quarantined for `cooldown` doubled for every earlier strike that is not forgiven, at most
  -- `max_cooldown`, then on probation, then healthy. This is up to 1023 such strikes.
  pub report_on_probation :
      accused ≢ reporter
      → status ft accused now ≡ probation
      → strikes_left ft past reporter now < 1024
      → ((report ft accused reporter now).1 ≡ some true)
        × ((t : ℕ)
            → status (report ft accused reporter now).0 accused t
              ≡ timeline
                  (now + sentence ft (strikes_left ft past reporter now))
                  (now + sentence ft (strikes_left ft past reporter now) + ft.probation)
                  t)
  report_on_probation ne h few =
      let sentenced : (report ft accused reporter now).1 ≡ some true =
        report-eq ne
        ∙ report_record_on_probation ft past reporter now (ground (arith, status-past now))
            (ground (arith, status-past now)) few in
      (
        sentenced,
        λ t. report_sentences accused t ne sentenced ∙ rw (beq_refl ⦃e = string_eq⦄ accused) refl,
      )
