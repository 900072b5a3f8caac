-- ===== src/Dialogue/Session/Arrival.antt =====
-- One fragment of a message comes, as bytes, to `receive`.
use secdogie.Prelude.{
  if◌then◌else◌, Bool-cases, length, drop, length-take, string_eq, nat_eq, Dict, lookup,
  lookup-remove, ℕ, ◌+◌, ◌*◌, ◌^◌, ◌≤◌, ◌<◌, ◌≡◌, refl, sym, ap, ◌∙◌, subst, inl, inr, Bool, true,
  false, not, Option, none, some, List, [], ◌∷◌, arith,
}
use secdogie.Dialogue.Frames.{ack, pack, chunk_at, frame_at}
use secdogie.Dialogue.Frames.Cutting.{count_tight}
use secdogie.Dialogue.Frames.Wire.{unpack-pack}
use secdogie.Dialogue.Session.{
  Reassembly, Config, Session, add_part, find_reassembly, reassemble, heard, Received, deliver,
  deliver_or_raise, receive_frame, receive,
}
use secdogie.Dialogue.Session.Parts.{with_index}
use secdogie.Dialogue.Session.Assembly.{
  Sending, total_frames, Progress, find-Under, seen_before, one_more, complete, again-Under,
  grown-Under,
}

-- the bytes of its fragment with an index
abbrev pub wire : Sending → ℕ → List ℕ
wire m i = pack (frame_at m.msg_id m.message m.reliable m.size i)

-- the frame that comes is the one that was packed
receive-wire :
    (s : Session) (m : Sending) (now i : ℕ)
    → m.msg_id < 256 ^ 8
    → total_frames m < 256 ^ 2
    → i < total_frames m
    → receive s now (wire m i)
      ≡ receive_frame
          (heard s now).0
          now
          (heard s now).1
          (some (frame_at m.msg_id m.message m.reliable m.size i))
unfolding receive pack frame_at
receive-wire s m now i id few low = ap (receive_frame (heard s now).0 now (heard s now).1) (
    unpack-pack (frame_at m.msg_id m.message m.reliable m.size i)
      (id, omega (arith, few, low), few))

-- a fragment of a message passes the guards of `_reassemble`
reassemble-taken :
    (s : Session) (m : Sending) (now i : ℕ) (f : Dict ℕ Reassembly × Reassembly)
    → s.config.fragment_size ≡ m.size
    → 0 < m.size
    → length m.message ≤ s.config.max_message
    → i < total_frames m
    → find_reassembly s.config.max_reassemblies s.reassembly m.msg_id
        (total_frames m)
        m.reliable
        now
      ≡ some f
    → let t =
        add_part s.config.max_message f.0 m.msg_id f.1 i
          (total_frames m)
          m.reliable
          (chunk_at m.size m.message i) in
      reassemble s now m.msg_id i (total_frames m) m.reliable (chunk_at m.size m.message i)
      ≡ some (record s { reassembly = t.0 }, t.1)
unfolding reassemble chunk_at
reassemble-taken s m now i f same cut short low found =
    let tight = count_tight (length m.message) m.size in
    let chunk = length-take m.size (drop (i * m.size) m.message) in
    let all : total_frames m * s.config.fragment_size
        ≤ s.config.max_message + s.config.fragment_size =
      subst (λ n. total_frames m * n ≤ s.config.max_message + n) (sym same)
        (omega (arith, tight, short)) in
    ground (arith, all, chunk, same, cut, short, low, found)

-- the sender's limits, and those of the session that receives
pub record Agreed (m : Sending) (c : Config) : Type 0 where
  pub id_fits : m.msg_id < 256 ^ 8
  pub few_frames : total_frames m ≤ 65535
  pub cut : 0 < m.size
  pub same_size : c.fragment_size ≡ m.size
  pub short : length m.message ≤ c.max_message
  pub room : 1 ≤ c.max_reassemblies

-- what `receive` makes of one fragment, by what `add_part` makes of it
receive-part :
    (s : Session) (m : Sending) (now i : ℕ) (f : Dict ℕ Reassembly × Reassembly)
    (t : Dict ℕ Reassembly × Option (List ℕ × Bool))
    → Agreed m s.config
    → i < total_frames m
    → find_reassembly s.config.max_reassemblies s.reassembly m.msg_id
        (total_frames m)
        m.reliable
        now
      ≡ some f
    → add_part s.config.max_message f.0 m.msg_id f.1 i
        (total_frames m)
        m.reliable
        (chunk_at m.size m.message i)
      ≡ t
    → receive s now (wire m i)
      ≡ deliver
          (record s { reassembly = t.0; last_heard = now; alive = true })
          m.msg_id
          (not s.alive)
          t.1
unfolding receive_frame heard frame_at deliver_or_raise
receive-part s m now i f t a low e g =
    receive-wire s m now i a.id_fits (ground (arith, a.few_frames)) low
    ∙ ap (deliver_or_raise (heard s now).0 m.msg_id (not s.alive))
        (reassemble-taken (heard s now).0 m now i f a.same_size a.cut a.short low e)
    ∙ ap
        (λ (p : Dict ℕ Reassembly × Option (List ℕ × Bool)).
          deliver (record s { reassembly = p.0; last_heard = now; alive = true }) m.msg_id
            (not s.alive) p.1)
        g

-- what a fragment does while another is missing
pub record Quiet (m : Sending) (c : Config) (seen : ℕ → Bool) (r : Received) : Type 0 where
  pub opened : r.opened ≡ none
  pub progress : Progress m seen r.session.reassembly
  pub same_config : r.session.config ≡ c

pub frame-Quiet :
    (s : Session) (m : Sending) (seen : ℕ → Bool) (now i j : ℕ)
    → Agreed m s.config
    → Progress m seen s.reassembly
    → i < total_frames m
    → j < total_frames m
    → with_index i seen j ≡ false
    → Quiet m s.config (with_index i seen) (receive s now (wire m i))
unfolding Progress deliver
frame-Quiet s m seen now i j a p low below missing =
    let (f, found, u) = find-Under m s.config.max_reassemblies seen s.reassembly now a.room p in
    let limit = s.config.max_message in
    elim (Bool-cases (seen i)) [
      | inl e ↦
          subst (Quiet m s.config (with_index i seen))
            (sym (
              receive-part s m now i f (f.0, none) a low found
                (seen_before m limit a.cut a.short seen f.0 f.1 u i low e)))
            (record {
              opened = refl;
              progress = inr (f.1, again-Under m limit a.cut a.short seen f.0 f.1 u i low e);
              same_config = refl;
            })
      | inr e ↦
          subst (Quiet m s.config (with_index i seen))
            (sym (
              receive-part s m now i f _ a low found
                (one_more m limit a.cut a.short seen f.0 f.1 u i low j below missing e)))
            (record {
              opened = refl;
              progress = inr (_, grown-Under m limit a.cut a.short seen f.0 f.1 u i low e);
              same_config = refl;
            })
    ]

-- and what the last missing one does
pub last_frame :
    (s : Session) (m : Sending) (seen : ℕ → Bool) (now i : ℕ)
    → Agreed m s.config
    → Progress m seen s.reassembly
    → i < total_frames m
    → seen i ≡ false
    → ((k : ℕ) → k < total_frames m → with_index i seen k ≡ true)
    → let r = receive s now (wire m i) in
      (r.opened ≡ some m.message)
      × (r.emitted ≡ (if m.reliable then ack m.msg_id ∷ [] else []))
      × (lookup m.msg_id r.session.reassembly ≡ none)
      × (r.raised ≡ false)
unfolding deliver
last_frame s m seen now i a p low new full =
    let (f, found, u) = find-Under m s.config.max_reassemblies seen s.reassembly now a.room p in
    let e =
      receive-part s m now i f _ a low found
        (complete m s.config.max_message a.cut a.short seen f.0 f.1 u i low full new) in
    (
      ap (λ r. r.opened) e,
      ap (λ r. r.emitted) e,
      ap (λ r. lookup m.msg_id r.session.reassembly) e
          ∙ lookup-remove m.msg_id m.msg_id f.0
          ∙ ground (arith, nat_eq.beq_iff m.msg_id m.msg_id),
      ap (λ r. r.raised) e,
    )
