-- ===== src/Dialogue/Session/Retries.antt =====
-- What is not acknowledged is sent again a bounded number of times, and then given up.
use secdogie.Dialogue.Frames.{Frame, fragments}
use secdogie.Dialogue.Session.{Outstanding, Config, Session, send}
use secdogie.Prelude.{
  ltb, leb, nat_beq, Bool-cases, Option-cases, length, any-append, string_eq, nat_eq, lookup, put,
  Distinct, lookup-put, put-Distinct, kept, ℕ, ◌+◌, ◌*◌, ◌^◌, ◌≤◌, ◌<◌, ◌≡◌, refl, sym, ap, ◌∙◌,
  subst, ◌⊎◌, inl, inr, true, false, ◌&&◌, Option, none, some, List, [], ◌∷◌, ◌++◌, arith,
}
use secdogie.Dialogue.Session.Clock.{retry, tick}
use secdogie.Dialogue.Session.Ticking.{
  retried, GivenUp, tick-lookup, tick-Distinct, tick-config, tick_reports,
}

-- `tick` with each sealed heartbeat and time in turn, with the messages that it reports on the way
unfoldable pub ticks : Session → List (List ℕ × ℕ) → Session × List (ℕ × ℕ)
unfolding tick
ticks s [] = (s, [])
ticks s ((sealed, t) ∷ ts) =
    let (s', failed) = ticks (tick s sealed t).session ts in
    (s', (tick s sealed t).failed ++ failed)

-- where the message is still outstanding, its next attempt is due at `t`
abbrev pub DueNow : Option Outstanding → ℕ → Type 0
DueNow none t = Unit
DueNow (some o) t = o.next_at ≤ t

-- every tick comes when the message is due
abbrev pub DueEach : ℕ → Session → List (List ℕ × ℕ) → Type 0
DueEach m s [] = Unit
DueEach m s ((sealed, t) ∷ ts) =
    DueNow (lookup m s.outstanding) t × DueEach m (tick s sealed t).session ts

-- no tick raises, as one does whose heartbeat is longer than a message may be
abbrev pub NoneRaises : Session → List (List ℕ × ℕ) → Type 0
NoneRaises s [] = Unit
NoneRaises s ((sealed, t) ∷ ts) =
    ((tick s sealed t).raised ≡ false) × NoneRaises (tick s sealed t).session ts

ticks-none :
    (ts : List (List ℕ × ℕ)) (s : Session) (m : ℕ)
    → Distinct s.outstanding
    → lookup m s.outstanding ≡ none
    → lookup m (ticks s ts).0.outstanding ≡ none
unfolding ticks
ticks-none [] s m d h = h
ticks-none ((sealed, t) ∷ ts) s m d h =
    ticks-none ts (tick s sealed t).session m (tick-Distinct s sealed t d)
      (tick-lookup s sealed t m d ∙ ap (retried s.config t) h)

reported_first :
    (m packet : ℕ) (xs ys : List (ℕ × ℕ)) → GivenUp m packet xs → GivenUp m packet (xs ++ ys)
reported_first m packet xs ys h =
    ground (arith, h, any-append (λ e. nat_beq e.0 m && nat_beq e.1 packet) xs ys)

reported_later :
    (m packet : ℕ) (xs ys : List (ℕ × ℕ)) → GivenUp m packet ys → GivenUp m packet (xs ++ ys)
reported_later m packet xs ys h =
    ground (arith, h, any-append (λ e. nat_beq e.0 m && nat_beq e.1 packet) xs ys)

-- one due tick: given up, or tried once more
retry-cases :
    (c : Config) (t : ℕ) (o : Outstanding)
    → o.next_at ≤ t
    → (((retry c t o).0 ≡ none) × ((retry c t o).1.1 ≡ true))
      ⊎ ((o.attempts < c.retry_max)
          × ((o' : Outstanding) × (((retry c t o).0 ≡ some o')
                × (o'.attempts ≡ o.attempts + 1)
                × (o'.packet ≡ o.packet))))
unfolding retry
retry-cases c t o h = elim (Bool-cases (leb c.retry_max o.attempts)) [
  | inl e ↦ inl (ground (arith, e), ground (arith, e))
  | inr e ↦ inr (
    ground (arith, e),
    (
      record o { attempts = o.attempts + 1; next_at = t + c.retry_base * 2 ^ o.attempts },
      (ground (arith, e), refl, refl),
    ),
  )
]

pub gives_up :
    (ts : List (List ℕ × ℕ)) (s : Session) (m : ℕ) (o : Outstanding)
    → Distinct s.outstanding
    → lookup m s.outstanding ≡ some o
    → o.attempts ≤ s.config.retry_max
    → s.config.retry_max < length ts + o.attempts
    → DueEach m s ts
    → NoneRaises s ts
    → (lookup m (ticks s ts).0.outstanding ≡ none) × GivenUp m o.packet (ticks s ts).1
unfolding ticks
gives_up [] s m o d h low enough due calm = absurd (omega arith)
gives_up ((sealed, t) ∷ ts) s m o d h low enough due calm =
    let now : o.next_at ≤ t = subst (λ x. DueNow x t) h due.0 in
    let s' = (tick s sealed t).session in
    let same = tick-config s sealed t in
    elim (retry-cases s.config t o now) [
      | inl (gone, told) ↦ (
        ticks-none ts s' m (tick-Distinct s sealed t d)
            (tick-lookup s sealed t m d ∙ ap (retried s.config t) h ∙ gone),
        reported_first m o.packet (tick s sealed t).failed (ticks s' ts).1
            (tick_reports s sealed t m o h told calm.0),
      )
      | inr (left, (o', (again, more, kept))) ↦
          let (gone, told) =
            gives_up ts s' m o' (tick-Distinct s sealed t d)
              (tick-lookup s sealed t m d ∙ ap (retried s.config t) h ∙ again)
              (ground (arith, more, same)) (ground (arith, more, same)) due.1 calm.1 in
          (
            gone,
            reported_later m o.packet (tick s sealed t).failed (ticks s' ts).1
                (subst (λ p. GivenUp m p (ticks s' ts).1) kept told),
          )
    ]

-- what `send` files of a reliable message that it does send
send-Outstanding :
    (s s' : Session) (packet now id : ℕ) (message : List ℕ) (frames : List Frame)
    → send s packet message true now ≡ (s', some (id, frames))
    → (s'.config ≡ s.config)
      × ((o : Outstanding) × ((s'.outstanding ≡ put id o s.outstanding)
            × (o.attempts ≡ 1)
            × (o.packet ≡ packet)))
unfolding send
send-Outstanding s s' packet now id message frames e =
    elim (Bool-cases (ltb s.config.max_message (length message))) [
      | inl big ↦ absurd (ground (arith, e, big))
      | inr small ↦
          elim (Option-cases (fragments s.next_msg_id message true s.config.fragment_size)) [
            | inl f ↦ absurd (ground (arith, e, small, f))
            | inr (cut, f) ↦
                let sent : Outstanding = record {
                  packet = packet;
                  frames = cut;
                  attempts = 1;
                  next_at = now + s.config.retry_base;
                } in
                (ground (arith, e, small, f), (sent, (ground (arith, e, small, f), refl, refl)))
          ]
    ]

-- Once a reliable message is sent, and unless the session may retry no times at all, `retry_max` ticks
-- that each come when the message is due, none of which raises on its heartbeat, with no
-- acknowledgement between them, are enough to give it up: it is no longer outstanding, and its id is reported as undeliverable with its packet.
pub unacknowledged_is_GivenUp :
    (s s' : Session) (packet now id : ℕ) (message : List ℕ) (frames : List Frame)
    (ts : List (List ℕ × ℕ))
    → 1 ≤ s.config.retry_max
    → Distinct s.outstanding
    → send s packet message true now ≡ (s', some (id, frames))
    → length ts ≡ s.config.retry_max
    → DueEach id s' ts
    → NoneRaises s' ts
    → (lookup id (ticks s' ts).0.outstanding ≡ none) × GivenUp id packet (ticks s' ts).1
unacknowledged_is_GivenUp s s' packet now id message frames ts some_tries d e enough due calm =
    let (same, (o, (filed, once, held))) = send-Outstanding s s' packet now id message frames e in
    let here : lookup id s'.outstanding ≡ some o =
      ap (lookup id) filed
      ∙ lookup-put id id o s.outstanding
      ∙ ground (arith, nat_eq.beq_iff id id) in
    let distinct : Distinct s'.outstanding =
      subst (λ x. Distinct x) (sym filed) (put-Distinct id o s.outstanding d) in
    let (gone, told) =
      gives_up ts s' id o distinct here (ground (arith, once, same))
        (ground (arith, once, same, enough)) due calm in
    (gone, subst (λ p. GivenUp id p (ticks s' ts).1) held told)
