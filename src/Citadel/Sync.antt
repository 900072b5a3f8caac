-- ===== src/Citadel/Sync.antt =====
-- Anti-entropy replication: citadel/secdogie_citadel/sync.py, on journals.
use secdogie.Prelude.{
  ltb, if◌then◌else◌, string_eq, nat_eq, Dict, get_or, ℕ, String, Bool, Option, List, [], ◌∷◌, ◌++◌,
}
use secdogie.Identity.Signing.{Crypto}
use secdogie.Citadel.Journal.{JournalEvent, Journal, merge, heads, since}

-- the loop of `events_since` over this journal's heads
unfoldable pub events_past : Journal → Dict String ℕ → Dict String ℕ → List JournalEvent
events_past j remote [] = []
events_past j remote ((author, local_seq) ∷ rest) =
    let later = events_past j remote rest in
    let have = get_or author 0 remote in
    if ltb have local_seq then since j author have ++ later else later

-- the events that a peer with these heads lacks
unfoldable pub events_since : Journal → Dict String ℕ → List JournalEvent
unfolding events_past
events_since j remote = events_past j remote (heads j)

-- one exchange in both directions: the journals and how many events each accepts, `none` where its
-- merge raises
unfoldable pub sync_round :
    Crypto
    → (String → Bool)
    → (String → Bool)
    → Journal
    → Journal
    → (Journal × Option ℕ) × (Journal × Option ℕ)
sync_round c trusted_a trusted_b a b =
    let to_a = events_since b (heads a) in
    let to_b = events_since a (heads b) in (merge c trusted_a a to_a, merge c trusted_b b to_b)
