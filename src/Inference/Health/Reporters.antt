-- ===== src/Inference/Health/Reporters.antt =====
-- Who can have a node quarantined: reports are claims, and one reporter is never enough.
use secdogie.Prelude.{
  ltb, leb, lt→ltb, Bool-cases, length, All, contains, string_eq, nat_eq, lookup, put, retain,
  Distinct, lookup-put, put-Distinct, lookup-retain, retain-Distinct, length-le_of_keys, ℕ, ◌+◌,
  ◌<◌, String, ◌≡◌, refl, inl, inr, true, false, none, some, List, [], ◌∷◌, arith,
}
use secdogie.Inference.Health.{
  healthy, FaultRecord, no_faults, FaultTracker, or_no_faults, file_report, report_record, report,
  status,
}

pub record Claim : Type 0 where
  pub accused : String
  pub reporter : String
  pub at : ℕ

unfoldable pub report_all : FaultTracker → List Claim → FaultTracker
report_all ft [] = ft
report_all ft (c ∷ claims) = report_all (report ft c.accused c.reporter c.at).0 claims

-- those who report `did` are all in `crowd`
abbrev pub ReportedBy : List String → String → Claim → Type 0
ReportedBy crowd did c = c.accused ≡ did → contains c.reporter crowd ≡ true

-- never sentenced, and its reports stand under distinct reporters of the crowd
record IsUnjudged (crowd : List String) (r : FaultRecord) : Type 0 where
  distinct : Distinct r.reports
  within : (k : String) (t : ℕ) → lookup k r.reports ≡ some t → contains k crowd ≡ true
  strikes : r.strikes ≡ 0
  until : r.until ≡ 0
  probation_until : r.probation_until ≡ 0

module _ (ft : FaultTracker) (crowd : List String) (r : FaultRecord) (i : IsUnjudged crowd r)
    (reporter : String) (now : ℕ) (known : contains reporter crowd ≡ true) where
  file_report-Distinct : Distinct (file_report ft r reporter now)
  unfolding file_report
  file_report-Distinct = put-Distinct reporter now _ (retain-Distinct _ r.reports i.distinct)

  file_report_within :
      (k : String) (t : ℕ)
      → lookup k (file_report ft r reporter now) ≡ some t
      → contains k crowd ≡ true
  unfolding file_report
  file_report_within k t h =
      let window = λ (_ : String) (at : ℕ). leb now (at + ft.window) in
      ground (
        arith,
        h,
        lookup-put ⦃e = string_eq⦄ reporter k now (retain window r.reports),
        lookup-retain ⦃e = string_eq⦄ window k r.reports i.distinct,
        string_eq.beq_iff reporter k,
        known,
        i.within k t,
      )

  few_reports :
      length crowd < ft.threshold → ltb (length (file_report ft r reporter now)) ft.threshold ≡ true
  few_reports few = lt→ltb _ _ (
      omega (
        arith,
        length-le_of_keys ⦃e = string_eq⦄ (file_report ft r reporter now) crowd file_report-Distinct
            file_report_within,
      ))

  report_record_unjudged :
      length crowd < ft.threshold
      → report_record ft r reporter now
        ≡ (record r { reports = file_report ft r reporter now }, some false)
  unfolding report_record
  report_record_unjudged few =
      ground (arith, few_reports few, i.until, i.probation_until, i.strikes)

  report_record-IsUnjudged :
      length crowd < ft.threshold → IsUnjudged crowd (report_record ft r reporter now).0
  report_record-IsUnjudged few = rw (report_record_unjudged few) (record {
    distinct = file_report-Distinct;
    within = file_report_within;
    strikes = i.strikes;
    until = i.until;
    probation_until = i.probation_until;
  })

record AllUnjudged (crowd : List String) (did : String) (ft : FaultTracker) : Type 0 where
  few : length crowd < ft.threshold
  unjudged : IsUnjudged crowd (or_no_faults (lookup did ft.records))

module _ (crowd : List String) (did : String) (ft : FaultTracker) (h : AllUnjudged crowd did ft)
    (c : Claim) (by : ReportedBy crowd did c) where
  filed : FaultRecord
  filed = (report_record ft (or_no_faults (lookup c.accused ft.records)) c.reporter c.at).0

  filed-IsUnjudged : c.accused ≡ did → IsUnjudged crowd filed
  unfolding filed
  filed-IsUnjudged e =
      report_record-IsUnjudged ft crowd _ (rw e h.unjudged) c.reporter c.at (by e) h.few

  put-filed-IsUnjudged :
      IsUnjudged crowd (or_no_faults (lookup did (put c.accused filed ft.records)))
  put-filed-IsUnjudged = elim (Bool-cases (string_eq.beq c.accused did)) [
    | inl same ↦
        rw (lookup-put ⦃e = string_eq⦄, same)
          (filed-IsUnjudged ((string_eq.beq_iff c.accused did).0 same))
    | inr other ↦ rw (lookup-put ⦃e = string_eq⦄, other) h.unjudged
  ]

  report-AllUnjudged : AllUnjudged crowd did (report ft c.accused c.reporter c.at).0
  unfolding report filed
  report-AllUnjudged = elim (Bool-cases (string_eq.beq c.accused c.reporter)) [
    | inl self ↦ rw self h
    | inr other ↦ rw other (record { few = h.few; unjudged = put-filed-IsUnjudged })
  ]

report_all-AllUnjudged :
    (crowd : List String) (did : String) (ft : FaultTracker) (claims : List Claim)
    → AllUnjudged crowd did ft
    → All (ReportedBy crowd did) claims
    → AllUnjudged crowd did (report_all ft claims)
unfolding report_all
report_all-AllUnjudged crowd did ft [] h by = h
report_all-AllUnjudged crowd did ft (c ∷ claims) h by =
    report_all-AllUnjudged crowd did (report ft c.accused c.reporter c.at).0 claims
      (report-AllUnjudged crowd did ft h c by.0) by.1

IsUnjudged-no_faults : (crowd : List String) → IsUnjudged crowd no_faults
unfolding lookup
IsUnjudged-no_faults crowd = record {
  distinct = tt;
  within = λ k t e. cc;
  strikes = refl;
  until = refl;
  probation_until = refl;
}

status_unjudged :
    (crowd : List String) (ft : FaultTracker) (did : String) (t : ℕ)
    → IsUnjudged crowd (or_no_faults (lookup did ft.records))
    → status ft did t ≡ healthy
unfolding status
status_unjudged crowd ft did t i = ground (arith, i.until, i.probation_until)

-- A node without a record is healthy at all times, however often and whenever it is reported, as
-- long as all its reporters are in a crowd smaller than the threshold. So with a threshold of two
-- no single reporter can have it quarantined.
pub few_reporters_never_quarantine :
    (crowd : List String) (ft : FaultTracker) (did : String) (claims : List Claim) (t : ℕ)
    → length crowd < ft.threshold
    → lookup did ft.records ≡ none
    → All (ReportedBy crowd did) claims
    → status (report_all ft claims) did t ≡ healthy
few_reporters_never_quarantine crowd ft did claims t few new by =
    status_unjudged crowd (report_all ft claims) did t
      (report_all-AllUnjudged crowd did ft claims
        (record { few = few; unjudged = rw new (IsUnjudged-no_faults crowd) }) by).unjudged
