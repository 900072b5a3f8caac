-- ===== src/Dialogue/Session/Caps.antt =====
-- How much a session holds of messages that are not complete.
use secdogie.Dialogue.Frames.{Frame, fragment, ack, unpack, fragments}
use secdogie.Dialogue.Session.{
  Reassembly, Config, Session, open_session, send, add_part, reassemble, heard, deliver,
  deliver_or_raise, receive_frame, receive,
}
use secdogie.Dialogue.Session.Capped.{Capped, find-Found, add_part-Capped}
use secdogie.Dialogue.Session.Held.{bytes_held, bytes_held-le, SoundAll-retain}
use secdogie.Prelude.{
  ltb, leb, nat_beq, Bool-cases, Option-cases, either_way, length, string_eq, nat_eq, retain,
  length-retain-le, ℕ, ◌+◌, ◌*◌, ◌≤◌, ◌≡◌, refl, sym, subst, inl, inr, Bool, false, ◌||◌, Option,
  none, some, List, [], ◌∷◌, arith,
}
use secdogie.Dialogue.Session.Clock.{Ticked, after_heartbeat, tick}

-- what happens to a session; a tick with the heartbeat that it would send
pub data SessionEvent : Type 0 where
  sent : ℕ → List ℕ → Bool → ℕ → SessionEvent
  received : ℕ → List ℕ → SessionEvent
  ticked : List ℕ → ℕ → SessionEvent

unfoldable pub step : Session → SessionEvent → Session
step s (sent packet message reliable now) = (send s packet message reliable now).0
step s (received now bytes) = (receive s now bytes).session
step s (ticked sealed t) = (tick s sealed t).session

unfoldable pub run : Session → List SessionEvent → Session
unfolding step
run s [] = s
run s (e ∷ es) = run (step s e) es

-- the session's reassemblies are within its limits
abbrev IsCapped : Session → Type 0
IsCapped s = Capped s.config.max_reassemblies s.config.max_message s.reassembly

-- `_reassemble` of a session that may hold a reassembly does not raise, and stays within the limits
reassemble-Capped :
    (s : Session) (now msg_id idx total : ℕ) (reliable : Bool) (chunk : List ℕ)
    → 1 ≤ s.config.max_reassemblies
    → IsCapped s
    → (p : Session × Option (List ℕ × Bool)) × (reassemble s now msg_id idx total reliable chunk
        ≡ some p)
      × (p.0.config ≡ s.config)
      × IsCapped p.0
unfolding reassemble
reassemble-Capped s now msg_id idx total reliable chunk pos h =
    let cap = s.config.max_reassemblies in
    let limit = s.config.max_message in
    let refused =
      nat_beq total 0
      || leb total idx
      || ltb (s.config.max_message + s.config.fragment_size) (total * s.config.fragment_size)
      || ltb s.config.fragment_size (length chunk) in
    let (f, e, found) = find-Found cap limit s.reassembly msg_id total reliable now pos h in
    let part = add_part limit f.0 msg_id f.1 idx total reliable chunk in
    elim (Bool-cases refused) [
      | inl out ↦ ((s, none), ground (arith, out), refl, h)
      | inr ok ↦ (
        (record s { reassembly = part.0 }, part.1),
        ground (arith, ok, e),
        refl,
        add_part-Capped cap limit msg_id f idx total reliable chunk found,
      )
    ]

send-keeps :
    (s : Session) (packet : ℕ) (message : List ℕ) (reliable : Bool) (now : ℕ)
    → ((send s packet message reliable now).0.config ≡ s.config)
      × ((send s packet message reliable now).0.reassembly ≡ s.reassembly)
unfolding send
send-keeps s packet message reliable now =
    elim (Option-cases (fragments s.next_msg_id message reliable s.config.fragment_size)) [
      | inl e ↦ (ground (arith, e), ground (arith, e))
      | inr (frames, e) ↦ (ground (arith, e), ground (arith, e))
    ]

send-IsCapped :
    (s : Session) (packet : ℕ) (message : List ℕ) (reliable : Bool) (now : ℕ)
    → IsCapped s
    → IsCapped (send s packet message reliable now).0
send-IsCapped s packet message reliable now h =
    let s' = (send s packet message reliable now).0 in
    let (c, r) = send-keeps s packet message reliable now in
    subst (λ k. Capped k.max_reassemblies k.max_message s'.reassembly) (sym c)
      (subst (Capped s.config.max_reassemblies s.config.max_message) (sym r) h)

deliver-session :
    (s : Session) (msg_id : ℕ) (back : Bool) (done : Option (List ℕ × Bool))
    → (deliver s msg_id back done).session ≡ s
unfolding deliver
deliver-session s msg_id back none = refl
deliver-session s msg_id back (some (message, reliable)) = refl

-- within the limits of a configuration
record Within (c : Config) (s : Session) : Type 0 where
  same : s.config ≡ c
  capped : IsCapped s

receive_frame-Within :
    (s : Session) (now : ℕ) (back : Bool) (f : Option Frame)
    → 1 ≤ s.config.max_reassemblies
    → IsCapped s
    → Within s.config (receive_frame s now back f).session
unfolding receive_frame deliver_or_raise
receive_frame-Within s now back none pos h = record { same = refl; capped = h }
receive_frame-Within s now back (some (ack msg_id)) pos h = record { same = refl; capped = h }
receive_frame-Within s now back (some (fragment msg_id idx total reliable chunk)) pos h =
    let (p, e, same, capped) = reassemble-Capped s now msg_id idx total reliable chunk pos h in
    subst (λ r. Within s.config (deliver_or_raise s msg_id back r).session) (sym e)
      (subst (Within s.config) (sym (deliver-session p.0 msg_id back p.1))
        (record { same = same; capped = capped }))

send-Within :
    (s : Session) (packet : ℕ) (message : List ℕ) (reliable : Bool) (now : ℕ)
    → IsCapped s
    → Within s.config (send s packet message reliable now).0
send-Within s packet message reliable now h = record {
  same = (send-keeps s packet message reliable now).0;
  capped = send-IsCapped s packet message reliable now h;
}

after_heartbeat-session :
    (resend : List Frame) (failed : List (ℕ × ℕ)) (down : Bool)
    (r : Session × Option (ℕ × List Frame))
    → (after_heartbeat resend failed down r).session ≡ r.0
unfolding after_heartbeat
after_heartbeat-session resend failed down (s, none) = refl
after_heartbeat-session resend failed down (s, some (id, frames)) = refl

tick-Within :
    (s : Session) (sealed : List ℕ) (t : ℕ) → IsCapped s → Within s.config (tick s sealed t).session
unfolding tick
tick-Within s sealed t h =
    let few = h.few in
    let p = λ (m : ℕ) (r : Reassembly). leb t (r.started + s.config.reassembly_timeout) in
    let less = length-retain-le p s.reassembly in
    let kept : Capped s.config.max_reassemblies s.config.max_message (retain p s.reassembly) =
      record {
        few = omega (arith, few, less);
        sound = SoundAll-retain s.config.max_message p s.reassembly h.sound;
      } in
    either_way (λ (k : Ticked). Within s.config k.session) (leb s.next_heartbeat t) _ _
      (λ due.
        subst (Within s.config) (sym (after_heartbeat-session _ _ _ (send _ 0 sealed false t)))
          (send-Within _ 0 sealed false t kept))
      λ early. record { same = refl; capped = kept }

step-Within :
    (s : Session) (e : SessionEvent)
    → 1 ≤ s.config.max_reassemblies
    → IsCapped s
    → Within s.config (step s e)
unfolding step receive heard
step-Within s (sent packet message reliable now) pos h = send-Within s packet message reliable now h
step-Within s (received now []) pos h = record { same = refl; capped = h }
step-Within s (received now (tag ∷ rest)) pos h =
    receive_frame-Within (heard s now).0 now (heard s now).1 (unpack (tag ∷ rest)) pos h
step-Within s (ticked sealed t) pos h = tick-Within s sealed t h

run-Within :
    (es : List SessionEvent) (s : Session)
    → 1 ≤ s.config.max_reassemblies
    → IsCapped s
    → Within s.config (run s es)
unfolding run
run-Within [] s pos h = record { same = refl; capped = h }
run-Within (e ∷ es) s pos h =
    let w = step-Within s e pos h in
    subst (λ c. Within c (run s (e ∷ es))) w.same
      (run-Within es (step s e) (subst (λ c. 1 ≤ c.max_reassemblies) (sym w.same) pos) w.capped)

-- Whatever a session is sent, whatever it sends and whenever it ticks, a session that may hold at least
-- one reassembly never holds more than `max_reassemblies` of them, and their chunks together are no more
-- than `max_reassemblies` times `max_message` bytes.
pub memory_is_bounded :
    (c : Config) (first_id now : ℕ) (es : List SessionEvent)
    → 1 ≤ c.max_reassemblies
    → (length (run (open_session c first_id now) es).reassembly ≤ c.max_reassemblies)
      × (bytes_held (run (open_session c first_id now) es).reassembly
          ≤ c.max_reassemblies * c.max_message)
unfolding open_session
memory_is_bounded c first_id now es pos =
    let s = run (open_session c first_id now) es in
    let w =
      run-Within es (open_session c first_id now) pos (record { few = omega arith; sound = tt }) in
    let same : s.config ≡ c = w.same in
    let h : IsCapped s = w.capped in
    let capped : Capped c.max_reassemblies c.max_message s.reassembly =
      subst (λ k. Capped k.max_reassemblies k.max_message s.reassembly) same h in
    let few = capped.few in
    let most = bytes_held-le c.max_message s.reassembly capped.sound in
    (few, grind (arith, few, most))
