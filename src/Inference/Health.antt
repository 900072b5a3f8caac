-- ===== src/Inference/Health.antt =====
-- Failure detection of inference/secdogie_inference/health.py: a decider's `Suspicion` and the
-- coordinator's `FaultTracker`. Times are natural numbers of clock ticks.
pub mod Reporters
pub mod Sentence
pub mod Blame
pub mod Reinstate
use secdogie.Prelude.{
  ltb, leb, if◌then◌else◌, length, string_eq, nat_eq, Dict, keys, lookup, get_or, put, retain, ℕ,
  ◌+◌, ◌-◌, ◌*◌, ◌^◌, min, String, Bool, true, false, ◌&&◌, Option, none, some, List, [], ◌∷◌,
}
use secdogie.Inference.Breaker.{overflows}

-- Suspicion

pub record Suspicion : Type 0 where
  pub threshold : ℕ
  pub cooldown : ℕ
  pub score : Dict String ℕ
  pub until : Dict String ℕ

-- one round of the loop of `timed_out`: the node is charged, and suspected at the threshold
unfoldable pub charge : Suspicion → String → ℕ → Suspicion × Bool
charge s d now =
    let points = get_or d 0 s.score + 1 in
    if leb s.threshold points && leb (get_or d 0 s.until) now
    then (
      record s { score = put d 0 (put d points s.score); until = put d (now + s.cooldown) s.until },
      true,
    )
    else (record s { score = put d points s.score }, false)

unfoldable pub timed_out : Suspicion → List String → ℕ → Suspicion × List String
unfolding charge
timed_out s [] now = (s, [])
timed_out s (d ∷ nodes) now =
    let (s', suspected) = charge s d now in
    let (s'', newly) = timed_out s' nodes now in (s'', if suspected then d ∷ newly else newly)

unfoldable pub clear : Suspicion → String → Suspicion
clear s d =
    let points = get_or d 0 s.score in
    if ltb 0 points then record s { score = put d (points - 1) s.score } else s

unfoldable pub delivered : Suspicion → List String → Suspicion
unfolding clear
delivered s [] = s
delivered s (d ∷ nodes) = delivered (clear s d) nodes

unfoldable pub suspects : Suspicion → ℕ → List String
suspects s now = keys (retain (λ d until. ltb now until) s.until)

-- FaultTracker

pub data Status : Type 0 where
  quarantined probation healthy : Status

-- the dataclass `_Record`
pub record FaultRecord : Type 0 where
  pub reports : Dict String ℕ
  pub strikes : ℕ
  pub until : ℕ
  pub probation_until : ℕ

abbrev pub no_faults : FaultRecord
no_faults = record { reports = []; strikes = 0; until = 0; probation_until = 0 }

pub record FaultTracker : Type 0 where
  pub threshold : ℕ
  pub window : ℕ
  pub cooldown : ℕ
  pub max_cooldown : ℕ
  pub probation : ℕ
  pub records : Dict String FaultRecord

abbrev pub or_no_faults : Option FaultRecord → FaultRecord
or_no_faults none = no_faults
or_no_faults (some r) = r

-- a long clean run is forgiven
unfoldable pub forgive : FaultTracker → FaultRecord → ℕ → FaultRecord
forgive ft r now =
    if ltb 0 r.strikes && ltb (r.probation_until + 10 * ft.cooldown) now
    then record r { strikes = 0 }
    else r

-- the reports still inside the window, and the new one
unfoldable pub file_report : FaultTracker → FaultRecord → String → ℕ → Dict String ℕ
file_report ft r reporter now = put reporter now (retain (λ _ t. leb now (t + ft.window)) r.reports)

-- `report` on the record of the accused: the new record, and whether it is quarantined; `none`
-- where the float product of the cooldown raises, with the strike counted and the reports kept
unfoldable pub report_record : FaultTracker → FaultRecord → String → ℕ → FaultRecord × Option Bool
unfolding forgive
report_record ft r reporter now =
    if ltb now r.until
    then (r, some false)
    else let strikes = (forgive ft r now).strikes in
      let reports = file_report ft r reporter now in
      let need : ℕ = if ltb now r.probation_until then 1 else ft.threshold in
      if ltb (length reports) need
      then (record r { strikes = strikes; reports = reports }, some false)
      else if overflows strikes
      then (record r { strikes = strikes + 1; reports = reports }, none)
      else let until = now + min (ft.cooldown * 2 ^ strikes) ft.max_cooldown in
        (
          record {
            reports = [];
            strikes = strikes + 1;
            until = until;
            probation_until = until + ft.probation;
          },
          some true,
        )

unfoldable pub report : FaultTracker → String → String → ℕ → FaultTracker × Option Bool
report ft accused reporter now =
    if string_eq.beq accused reporter
    then (ft, some false)
    else let (r, sentenced) =
        report_record ft (or_no_faults (lookup accused ft.records)) reporter now in
      (record ft { records = put accused r ft.records }, sentenced)

abbrev pub status_of : Option FaultRecord → ℕ → Status
status_of none now = healthy
status_of (some r) now =
    if ltb now r.until
    then quarantined
    else if ltb now r.probation_until
    then probation
    else healthy

unfoldable pub status : FaultTracker → String → ℕ → Status
status ft did now = status_of (lookup did ft.records) now

unfoldable pub quarantine_set : FaultTracker → ℕ → List String
quarantine_set ft now = keys (retain (λ _ r. ltb now r.until) ft.records)
