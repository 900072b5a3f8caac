-- ===== src/Dialogue/Session/Ticking.antt =====
-- What one `tick` does to each message that is outstanding.
use secdogie.Prelude.{
  leb, nat_beq, Option-cases, either_way, any, string_eq, nat_eq, Dict, lookup, Distinct, ℕ, ◌≡◌,
  refl, sym, ap, ◌∙◌, subst, inl, inr, Bool, true, false, ◌&&◌, Option, none, some, List, [], ◌∷◌,
  arith,
}
use secdogie.Dialogue.Frames.{Frame, fragments}
use secdogie.Dialogue.Session.{Outstanding, Config, Session, send}
use secdogie.Dialogue.Session.Clock.{retry, keep_entry, retry_all, Ticked, after_heartbeat, tick}

-- what a tick makes of one message
abbrev pub retried : Config → ℕ → Option Outstanding → Option Outstanding
retried c t none = none
retried c t (some o) = (retry c t o).0

keep_entry-Distinct :
    (k : ℕ) (o : Option Outstanding) (d : Dict ℕ Outstanding)
    → lookup k d ≡ none
    → Distinct d
    → Distinct (keep_entry k o d)
keep_entry-Distinct k none d n h = h
keep_entry-Distinct k (some o) d n h = (n, h)

module _ (c : Config) (t : ℕ) where
  retry_all-none :
      (m : ℕ) (d : Dict ℕ Outstanding) → lookup m d ≡ none → lookup m (retry_all c t d).0 ≡ none
  unfolding retry_all retry lookup
  retry_all-none m [] h = refl
  retry_all-none m ((k, o) ∷ d) h = ground (arith, retry_all-none m d)

  lookup-retry_all :
      (m : ℕ) (d : Dict ℕ Outstanding)
      → Distinct d
      → lookup m (retry_all c t d).0 ≡ retried c t (lookup m d)
  unfolding retry_all retry lookup
  lookup-retry_all m [] h = refl
  lookup-retry_all m ((k, o) ∷ d) h =
      ground (arith, lookup-retry_all m d h.1, retry_all-none m d, h.0, nat_eq.beq_iff k m)

  retry_all-Distinct : (d : Dict ℕ Outstanding) → Distinct d → Distinct (retry_all c t d).0
  unfolding retry_all
  retry_all-Distinct [] h = tt
  retry_all-Distinct ((k, o) ∷ d) h =
      keep_entry-Distinct k (retry c t o).0 (retry_all c t d).0 (retry_all-none k d h.0)
        (retry_all-Distinct d h.1)

  -- a due message with its attempts used up is reported with its packet
  retry_all_reports :
      (m : ℕ) (o : Outstanding) (d : Dict ℕ Outstanding)
      → lookup m d ≡ some o
      → (retry c t o).1.1 ≡ true
      → any (λ e. nat_beq e.0 m && nat_beq e.1 o.packet) (retry_all c t d).1.1 ≡ true
  unfolding retry_all lookup
  retry_all_reports m o [] h g = ground arith
  retry_all_reports m o ((k, p) ∷ d) h g =
      ground (arith, retry_all_reports m o d, nat_eq.beq_iff k m)

-- the message `m` with its packet is among those given up
abbrev pub GivenUp : ℕ → ℕ → List (ℕ × ℕ) → Type 0
GivenUp m packet failed = any (λ e. nat_beq e.0 m && nat_beq e.1 packet) failed ≡ true

-- what a heartbeat leaves as it is
record Beaten (s : Session) (failed : List (ℕ × ℕ)) (k : Ticked) : Type 0 where
  outstanding : k.session.outstanding ≡ s.outstanding
  config : k.session.config ≡ s.config
  told : k.raised ≡ false → k.failed ≡ failed

send_heartbeat :
    (s : Session) (sealed : List ℕ) (t : ℕ)
    → ((send s 0 sealed false t).0.outstanding ≡ s.outstanding)
      × ((send s 0 sealed false t).0.config ≡ s.config)
unfolding send
send_heartbeat s sealed t =
    elim (Option-cases (fragments s.next_msg_id sealed false s.config.fragment_size)) [
      | inl e ↦ (ground (arith, e), ground (arith, e))
      | inr (frames, e) ↦ (ground (arith, e), ground (arith, e))
    ]

after_heartbeat-Beaten :
    (s : Session) (resend : List Frame) (failed : List (ℕ × ℕ)) (down : Bool)
    (r : Session × Option (ℕ × List Frame))
    → r.0.outstanding ≡ s.outstanding
    → r.0.config ≡ s.config
    → Beaten s failed (after_heartbeat resend failed down r)
unfolding after_heartbeat
after_heartbeat-Beaten s resend failed down (s', none) o c = record {
  outstanding = o;
  config = c;
  told = λ e. absurd (ground (arith, e));
}
after_heartbeat-Beaten s resend failed down (s', some (id, frames)) o c = record {
  outstanding = o;
  config = c;
  told = λ e. refl;
}

tick-Beaten :
    (s : Session) (sealed : List ℕ) (t : ℕ)
    → Beaten
        (record s { outstanding = (retry_all s.config t s.outstanding).0 })
        (retry_all s.config t s.outstanding).1.1
        (tick s sealed t)
unfolding tick
tick-Beaten s sealed t =
    let s1 = record s { outstanding = (retry_all s.config t s.outstanding).0 } in
    let failed = (retry_all s.config t s.outstanding).1.1 in
    either_way (λ (k : Ticked). Beaten s1 failed k) (leb s.next_heartbeat t) _ _
      (λ due.
        after_heartbeat-Beaten s1 _ failed _ _ (send_heartbeat _ sealed t).0
          (send_heartbeat _ sealed t).1)
      λ early. record { outstanding = refl; config = refl; told = λ e. refl }

module _ (s : Session) (sealed : List ℕ) (t : ℕ) where
  pub tick-lookup :
      (m : ℕ)
      → Distinct s.outstanding
      → lookup m (tick s sealed t).session.outstanding ≡ retried s.config t (lookup m s.outstanding)
  tick-lookup m h =
      ap (lookup m) (tick-Beaten s sealed t).outstanding
      ∙ lookup-retry_all s.config t m s.outstanding h

  pub tick-Distinct : Distinct s.outstanding → Distinct (tick s sealed t).session.outstanding
  tick-Distinct h =
      subst (λ d. Distinct d) (sym (tick-Beaten s sealed t).outstanding)
        (retry_all-Distinct s.config t s.outstanding h)

  pub tick-config : (tick s sealed t).session.config ≡ s.config
  tick-config = (tick-Beaten s sealed t).config

  pub tick_reports :
      (m : ℕ) (o : Outstanding)
      → lookup m s.outstanding ≡ some o
      → (retry s.config t o).1.1 ≡ true
      → (tick s sealed t).raised ≡ false
      → GivenUp m o.packet (tick s sealed t).failed
  tick_reports m o h g calm =
      subst (GivenUp m o.packet) (sym ((tick-Beaten s sealed t).told calm))
        (retry_all_reports s.config t m o s.outstanding h g)
