-- ===== src/Dialogue/Session/Clock.antt =====
-- `DialogueSession.tick` of dialogue/secdogie_dialogue/session.py: what is sent again, what is given
-- up, and the heartbeat.
use secdogie.Prelude.{
  ltb, leb, if◌then◌else◌, string_eq, nat_eq, Dict, retain, kept, ℕ, ◌+◌, ◌*◌, ◌^◌, Bool, true,
  false, not, ◌&&◌, Option, none, some, List, [], ◌∷◌, ◌++◌,
}
use secdogie.Dialogue.Frames.{Frame}
use secdogie.Dialogue.Session.{Outstanding, Config, Session, send}

-- one round of the loop of `tick` over what is outstanding: what stays of the message, what is sent
-- again, and whether it is given up
unfoldable pub retry : Config → ℕ → Outstanding → Option Outstanding × (List Frame × Bool)
retry c t o =
    if ltb t o.next_at
    then (some o, ([], false))
    else if leb c.retry_max o.attempts
    then (none, ([], true))
    else (
      some (record o { attempts = o.attempts + 1; next_at = t + c.retry_base * 2 ^ o.attempts }),
      (o.frames, false),
    )

abbrev pub keep_entry : ℕ → Option Outstanding → Dict ℕ Outstanding → Dict ℕ Outstanding
keep_entry m none rest = rest
keep_entry m (some o) rest = (m, o) ∷ rest

unfoldable pub retry_all :
    Config → ℕ → Dict ℕ Outstanding → Dict ℕ Outstanding × (List Frame × List (ℕ × ℕ))
unfolding retry
retry_all c t [] = ([], ([], []))
retry_all c t ((m, o) ∷ rest) =
    let (kept, (resend, given_up)) = retry c t o in
    let (rest', (resend', failed)) = retry_all c t rest in
    (
      keep_entry m kept rest',
      (resend ++ resend', if given_up then (m, o.packet) ∷ failed else failed),
    )

-- what `tick` did: what it emits, the given-up messages that it reports with their packets, whether it
-- reports that the peer went down, and whether it raised
pub record Ticked : Type 0 where
  pub session : Session
  pub emitted : List Frame
  pub failed : List (ℕ × ℕ)
  pub went_down : Bool
  pub raised : Bool

-- the end of `tick` once the heartbeat went through `send`: where that raises nothing is reported
unfoldable pub after_heartbeat :
    List Frame → List (ℕ × ℕ) → Bool → Session × Option (ℕ × List Frame) → Ticked
after_heartbeat resend failed went_down (s, none) = record {
  session = s;
  emitted = resend;
  failed = [];
  went_down = false;
  raised = true;
}
after_heartbeat resend failed went_down (s, some (id, frames)) = record {
  session = s;
  emitted = resend ++ frames;
  failed = failed;
  went_down = went_down;
  raised = false;
}

-- `tick` with the heartbeat that it seals, which is not sent as reliable
unfoldable pub tick : Session → List ℕ → ℕ → Ticked
unfolding retry_all after_heartbeat send
tick s sealed t =
    let c = s.config in
    let (kept, (resend, failed)) = retry_all c t s.outstanding in
    let heartbeat = leb s.next_heartbeat t in
    let went_down = s.alive && ltb (s.last_heard + c.dead_after * c.heartbeat_interval) t in
    let s' = record s {
      outstanding = kept;
      reassembly = retain (λ m r. leb t (r.started + c.reassembly_timeout)) s.reassembly;
      next_heartbeat = if heartbeat then t + c.heartbeat_interval else s.next_heartbeat;
      alive = s.alive && not went_down;
    } in
    if heartbeat
    then after_heartbeat resend failed went_down (send s' 0 sealed false t)
    else record {
      session = s';
      emitted = resend;
      failed = failed;
      went_down = went_down;
      raised = false;
    }
