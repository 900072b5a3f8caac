-- ===== src/Dialogue/Session/Order.antt =====
-- A message arrives whole, in whatever order its fragments come and however often.
use secdogie.Prelude.{
  if◌then◌else◌, All, contains, string_eq, nat_eq, values, lookup, ℕ, ◌<◌, ◌≡◌, refl, sym, ap, ◌∙◌,
  subst, ◌≢◌, inl, Bool, true, false, ◌||◌, Option, none, some, List, [], ◌∷◌, ◌++◌, arith,
}
use secdogie.Dialogue.Frames.{ack}
use secdogie.Dialogue.Session.{Config, Session, receive}
use secdogie.Dialogue.Session.Parts.{with_index}
use secdogie.Dialogue.Session.Assembly.{Sending, total_frames, Progress}
use secdogie.Dialogue.Session.Arrival.{wire, Agreed, frame-Quiet, last_frame}

abbrev pub listed {ℓ} : {A : Type ℓ} → Option A → List A
listed none = []
listed (some x) = x ∷ []

-- `receive` of fragments, each a time and an index, and the messages that it opens on the way
unfoldable pub feed : Session → Sending → List (ℕ × ℕ) → Session × List (List ℕ)
feed s m [] = (s, [])
feed s m ((now, i) ∷ arrivals) =
    let r = receive s now (wire m i) in
    let (s', opened) = feed r.session m arrivals in (s', listed r.opened ++ opened)

abbrev seen_after : (ℕ → Bool) → List (ℕ × ℕ) → ℕ → Bool
seen_after seen [] = seen
seen_after seen ((now, i) ∷ arrivals) = seen_after (with_index i seen) arrivals

seen_after-eq :
    (seen : ℕ → Bool) (arrivals : List (ℕ × ℕ)) (k : ℕ)
    → seen_after seen arrivals k ≡ (contains k (values arrivals) || seen k)
seen_after-eq seen [] k = refl
seen_after-eq seen ((now, i) ∷ arrivals) k =
    seen_after-eq (with_index i seen) arrivals k ∙ ground arith

-- what many do
record QuietRun (m : Sending) (c : Config) (seen : ℕ → Bool) (f : Session × List (List ℕ))
    : Type 0 where
  opened : f.1 ≡ []
  progress : Progress m seen f.0.reassembly
  same_config : f.0.config ≡ c

run-QuietRun :
    (arrivals : List (ℕ × ℕ)) (s : Session) (m : Sending) (seen : ℕ → Bool) (j : ℕ)
    → Agreed m s.config
    → Progress m seen s.reassembly
    → All (λ a. a.1 < total_frames m) arrivals
    → j < total_frames m
    → (contains j (values arrivals) || seen j) ≡ false
    → QuietRun m s.config (seen_after seen arrivals) (feed s m arrivals)
unfolding feed
run-QuietRun [] s m seen j a p low below missing = record {
  opened = refl;
  progress = p;
  same_config = refl;
}
run-QuietRun ((now, i) ∷ arrivals) s m seen j a p low below missing =
    let q = frame-Quiet s m seen now i j a p low.0 below (ground (arith, missing)) in
    let r = receive s now (wire m i) in
    let rest =
      run-QuietRun arrivals r.session m (with_index i seen) j
        (subst (Agreed m) (sym q.same_config) a) q.progress low.1 below (ground (arith, missing)) in
    record {
      opened = ap (λ o. listed o ++ (feed r.session m arrivals).1) q.opened ∙ rest.opened;
      progress = rest.progress;
      same_config = rest.same_config ∙ q.same_config;
    }

-- A session that may hold at least one reassembly, that holds nothing of a message, and whose fragment and message sizes agree with the
-- sender's, is fed fragments of that message at any times, in any order and any of them repeatedly, all
-- but one index among them. It opens no message meanwhile; when the missing fragment comes it opens
-- exactly the message, acknowledges it if it was sent as reliable, holds nothing of it any more, and
-- does not raise.
pub delivered_in_any_order :
    (s : Session) (m : Sending) (arrivals : List (ℕ × ℕ)) (now last : ℕ)
    → Agreed m s.config
    → lookup m.msg_id s.reassembly ≡ none
    → All (λ a. a.1 < total_frames m) arrivals
    → last < total_frames m
    → contains last (values arrivals) ≡ false
    → ((k : ℕ) → k < total_frames m → k ≢ last → contains k (values arrivals) ≡ true)
    → let r = receive (feed s m arrivals).0 now (wire m last) in
      ((feed s m arrivals).1 ≡ [])
      × (r.opened ≡ some m.message)
      × (r.emitted ≡ (if m.reliable then ack m.msg_id ∷ [] else []))
      × (lookup m.msg_id r.session.reassembly ≡ none)
      × (r.raised ≡ false)
unfolding Progress
delivered_in_any_order s m arrivals now last a empty low below missing others =
    let seen = λ (k : ℕ). false in
    let q =
      run-QuietRun arrivals s m seen last a (inl (empty, λ k. refl)) low below
        (ground (arith, missing)) in
    let (opened, emitted, freed, calm) =
      last_frame (feed s m arrivals).0 m (seen_after seen arrivals) now last
        (subst (Agreed m) (sym q.same_config) a) q.progress below
        (ground (arith, missing, seen_after-eq seen arrivals last))
        (λ k l. ground (arith, others k l, seen_after-eq seen arrivals k)) in
    (q.opened, opened, emitted, freed, calm)
