-- ===== src/Tests/Mutiny.antt =====
-- The mutiny ledger on a concrete history: a reset comes before the incident that it clears.
use secdogie.Prelude.{any, string_eq, nat_eq, String, ◌≡◌, refl, not, ◌&&◌, List, [], ◌∷◌}
use secdogie.Inference.Mutiny.{Incident, Reset, empty_ledger, lockdown}
use secdogie.Inference.Mutiny.Sets.{held_in}
use secdogie.Inference.Mutiny.Balance.{Notice, incident, operator, receive_all, reports, clears}
use secdogie.Inference.Mutiny.Held.{held_iff_reported}
use secdogie.Inference.Mutiny.Lockdown.{unresolved, lockdown_iff_unresolved}

abbrev leak : Incident
leak = record { incident_id = "i1"; targets = "node:n1" ∷ "model:m1" ∷ [] }

abbrev pardon : Reset
pardon = record { key = "r1"; targets = "node:n1" ∷ []; incident_ids = "i1" ∷ [] }

abbrev history : List Notice
history = operator pardon ∷ incident leak ∷ operator pardon ∷ incident leak ∷ []

abbrev named : String → List String
named id = "node:n1" ∷ "model:m1" ∷ []

abbrev listed : String → List String × List String
listed key = ("node:n1" ∷ [], "i1" ∷ [])

held_iff_reported_example :
    held_in (receive_all empty_ledger history).latches "model:m1" "i1"
    ≡ (any (reports "model:m1" "i1") history && not (any (clears "model:m1" "i1") history))
held_iff_reported_example =
    held_iff_reported named listed history "model:m1" "i1" (refl, (refl, (refl, (refl, tt))))

lockdown_iff_unresolved_example :
    lockdown (receive_all empty_ledger history) ≡ any (unresolved history) history
lockdown_iff_unresolved_example =
    lockdown_iff_unresolved named listed history (refl, (refl, (refl, (refl, tt))))
