-- ===== src/Inference/Health/Reinstate.antt =====
-- No quarantine latches: without new reports every node is healthy again after a bounded time.
use secdogie.Prelude.{
  Bool-cases, All, string_eq, nat_eq, lookup, put, lookup-put, ℕ, ◌+◌, ◌≤◌, String, ◌≡◌, refl, inl,
  inr, List, [], ◌∷◌, arith,
}
use secdogie.Inference.Health.{
  healthy, FaultRecord, FaultTracker, or_no_faults, report_record, report, status,
}
use secdogie.Inference.Health.Reporters.{Claim, report_all}

abbrev pub FiledBy : ℕ → Claim → Type 0
FiledBy now c = c.at ≤ now

record EndsBy (now : ℕ) (ft : FaultTracker) (r : FaultRecord) : Type 0 where
  sentence : r.until ≤ now + ft.max_cooldown
  parole : r.probation_until ≤ now + ft.max_cooldown + ft.probation

report_record-EndsBy :
    (ft : FaultTracker) (r : FaultRecord) (reporter : String) (now t : ℕ)
    → t ≤ now
    → EndsBy now ft r
    → EndsBy now ft (report_record ft r reporter t).0
unfolding report_record
report_record-EndsBy ft r reporter now t h i = ground arith

-- at every node, with the parameters of the tracker `origin`
record AllEndBy (now : ℕ) (origin ft : FaultTracker) : Type 0 where
  max_cooldown : ft.max_cooldown ≡ origin.max_cooldown
  probation : ft.probation ≡ origin.probation
  ends : (did : String) → EndsBy now ft (or_no_faults (lookup did ft.records))

module _ (now : ℕ) (origin ft : FaultTracker) (i : AllEndBy now origin ft) (c : Claim)
    (by : FiledBy now c) where
  new_record : FaultRecord
  new_record = (report_record ft (or_no_faults (lookup c.accused ft.records)) c.reporter c.at).0

  put-EndsBy :
      (did : String)
      → EndsBy now ft (or_no_faults (lookup did (put c.accused new_record ft.records)))
  unfolding new_record
  put-EndsBy did = elim (Bool-cases (string_eq.beq c.accused did)) [
    | inl same ↦
        rw (lookup-put ⦃e = string_eq⦄, same)
          (report_record-EndsBy ft _ c.reporter now c.at by (i.ends c.accused))
    | inr other ↦ rw (lookup-put ⦃e = string_eq⦄, other) (i.ends did)
  ]

  report-AllEndBy : AllEndBy now origin (report ft c.accused c.reporter c.at).0
  unfolding report new_record
  report-AllEndBy = elim (Bool-cases (string_eq.beq c.accused c.reporter)) [
    | inl self ↦ rw self i
    | inr other ↦ rw other (record {
      max_cooldown = i.max_cooldown;
      probation = i.probation;
      ends =
          λ did. record { sentence = (put-EndsBy did).sentence; parole = (put-EndsBy did).parole };
    })
  ]

report_all-AllEndBy :
    (now : ℕ) (origin ft : FaultTracker) (claims : List Claim)
    → AllEndBy now origin ft
    → All (FiledBy now) claims
    → AllEndBy now origin (report_all ft claims)
unfolding report_all
report_all-AllEndBy now origin ft [] i by = i
report_all-AllEndBy now origin ft (c ∷ claims) i by =
    report_all-AllEndBy now origin (report ft c.accused c.reporter c.at).0 claims
      (report-AllEndBy now origin ft i c by.0) by.1

AllEndBy-empty : (now : ℕ) (ft : FaultTracker) → ft.records ≡ [] → AllEndBy now ft ft
unfolding lookup
AllEndBy-empty now ft e = record {
  max_cooldown = refl;
  probation = refl;
  ends = λ did. rw e (record { sentence = omega arith; parole = omega arith });
}

-- From a tracker with no records, after any reports, the last of them at `now` at the latest, every
-- node is healthy at every time from `now + max_cooldown + probation` on.
pub everyone_is_reinstated :
    (ft : FaultTracker) (claims : List Claim) (now t : ℕ) (did : String)
    → ft.records ≡ []
    → All (FiledBy now) claims
    → now + ft.max_cooldown + ft.probation ≤ t
    → status (report_all ft claims) did t ≡ healthy
unfolding status
everyone_is_reinstated ft claims now t did e by late =
    let i = report_all-AllEndBy now ft ft claims (AllEndBy-empty now ft e) by in
    let ends = i.ends did in ground (arith, i.max_cooldown, i.probation, ends.sentence, ends.parole)
