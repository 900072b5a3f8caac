-- ===== src/Dialogue/Session.antt =====
-- A dialogue session over a lossy link: dialogue/secdogie_dialogue/session.py. A frame is a list of
-- bytes, a time a natural number of clock ticks. Sealing and opening an envelope (protocol.py) come
-- before and after the model: a message is the bytes that are cut up and put together again.
pub mod Order
pub mod Held
pub mod Capped
pub mod Caps
pub mod Parts
pub mod Assembly
pub mod Arrival
pub mod Clock
pub mod Ticking
pub mod Retries
use mathlib.Core.Option
use secdogie.Prelude.{
  ltb, leb, nat_beq, if◌then◌else◌, same_bool, is_none, length, string_eq, nat_eq, Dict, lookup,
  get_or, put, remove, kept, ℕ, zero, suc, ◌+◌, ◌*◌, Bool, true, false, not, ◌||◌, Option, none,
  some, List, [], ◌∷◌, ◌++◌, map,
}
use secdogie.Dialogue.Frames.{Frame, fragment, ack, unpack, fragments}

-- `_Outstanding`, with the packet that it reports
pub record Outstanding : Type 0 where
  pub packet : ℕ
  pub frames : List Frame
  pub attempts : ℕ
  pub next_at : ℕ

-- `_Reassembly`
pub record Reassembly : Type 0 where
  pub total : ℕ
  pub reliable : Bool
  pub started : ℕ
  pub parts : Dict ℕ (List ℕ)
  pub size : ℕ

pub record Config : Type 0 where
  pub fragment_size : ℕ
  pub max_message : ℕ
  pub max_reassemblies : ℕ
  pub reassembly_timeout : ℕ
  pub retry_base : ℕ
  pub retry_max : ℕ
  pub heartbeat_interval : ℕ
  pub dead_after : ℕ

pub record Session : Type 0 where
  pub config : Config
  pub next_msg_id : ℕ
  pub outstanding : Dict ℕ Outstanding
  pub reassembly : Dict ℕ Reassembly
  pub last_heard : ℕ
  pub next_heartbeat : ℕ
  pub alive : Bool

-- the constructor, at the time `now`, with a random first message id
unfoldable pub open_session : Config → ℕ → ℕ → Session
open_session config first_id now = record {
  config = config;
  next_msg_id = first_id;
  outstanding = [];
  reassembly = [];
  last_heard = now;
  next_heartbeat = now + config.heartbeat_interval;
  alive = true;
}

-- `send` of a sealed packet at the time `now`; `none` where it raises, with a message id used up when
-- it is the cutting that raises
unfoldable pub send : Session → ℕ → List ℕ → Bool → ℕ → Session × Option (ℕ × List Frame)
send s packet message reliable now =
    if ltb s.config.max_message (length message)
    then (s, none)
    else elim (fragments s.next_msg_id message reliable s.config.fragment_size) [
      | none ↦ (record s { next_msg_id = s.next_msg_id + 1 }, none)
      | some frames ↦
          let sent : Outstanding = record {
            packet = packet;
            frames = frames;
            attempts = 1;
            next_at = now + s.config.retry_base;
          } in
          (
            record s {
              next_msg_id = s.next_msg_id + 1;
              outstanding =
                  if reliable then put s.next_msg_id sent s.outstanding else s.outstanding;
            },
            some (s.next_msg_id, frames),
          )
    ]

-- min(reassembly, key=started) on the best so far and the rest: the first one that started no later than any other
unfoldable pub oldest_of : ℕ → ℕ → Dict ℕ Reassembly → ℕ
oldest_of best started [] = best
oldest_of best started ((m, r) ∷ rest) =
    if ltb r.started started then oldest_of m r.started rest else oldest_of best started rest

-- the oldest reassembly goes; `none` where there is none, and `min` raises
unfoldable pub drop_oldest : Dict ℕ Reassembly → Option (Dict ℕ Reassembly)
unfolding oldest_of
drop_oldest [] = none
drop_oldest ((m, r) ∷ rest) = some (remove (oldest_of m r.started rest) ((m, r) ∷ rest))

-- b"".join(parts[i] for i in range(total)); with `total` parts, all indices are there
unfoldable pub join_parts : ℕ → ℕ → Dict ℕ (List ℕ) → List ℕ
join_parts zero i parts = []
join_parts (suc n) i parts = get_or i [] parts ++ join_parts n (i + 1) parts

-- the chunk into a reassembly of its message
unfoldable pub add_part :
    ℕ
    → Dict ℕ Reassembly
    → ℕ
    → Reassembly
    → ℕ
    → ℕ
    → Bool
    → List ℕ
    → Dict ℕ Reassembly × Option (List ℕ × Bool)
unfolding join_parts
add_part max_message held msg_id r idx total reliable chunk =
    let parts = put idx chunk r.parts in
    let r' : Reassembly = record r { parts = parts; size = r.size + length chunk } in
    if not (nat_beq r.total total)
      || not (same_bool r.reliable reliable)
      || not (is_none (lookup idx r.parts))
    then (held, none)
    else if ltb max_message (r.size + length chunk)
    then (remove msg_id held, none)
    else if ltb (length parts) r.total
    then (put msg_id r' held, none)
    else (remove msg_id held, some (join_parts r.total 0 parts, r.reliable))

-- room for one more: the oldest goes where there are already `cap`
unfoldable pub make_room : ℕ → Dict ℕ Reassembly → Option (Dict ℕ Reassembly)
make_room cap held = if leb cap (length held) then drop_oldest held else some held

-- a new reassembly; `none` where the code raises, with nothing changed
unfoldable pub start_reassembly :
    ℕ → Dict ℕ Reassembly → ℕ → ℕ → Bool → ℕ → Option (Dict ℕ Reassembly × Reassembly)
start_reassembly cap held msg_id total reliable now =
    let fresh : Reassembly = record {
      total = total;
      reliable = reliable;
      started = now;
      parts = [];
      size = 0;
    } in
    Option.map (λ kept. (put msg_id fresh kept, fresh)) (make_room cap held)

-- the reassemblies with one of the message among them, and that one
unfoldable pub find_reassembly :
    ℕ → Dict ℕ Reassembly → ℕ → ℕ → Bool → ℕ → Option (Dict ℕ Reassembly × Reassembly)
unfolding start_reassembly
find_reassembly cap held msg_id total reliable now = elim (lookup msg_id held) [
  | some r ↦ some (held, r)
  | none ↦ start_reassembly cap held msg_id total reliable now
]

-- `_reassemble`; `none` where it raises, with nothing changed
unfoldable pub reassemble :
    Session → ℕ → ℕ → ℕ → ℕ → Bool → List ℕ → Option (Session × Option (List ℕ × Bool))
unfolding add_part find_reassembly
reassemble s now msg_id idx total reliable chunk =
    if nat_beq total 0
      || leb total idx
      || ltb (s.config.max_message + s.config.fragment_size) (total * s.config.fragment_size)
      || ltb s.config.fragment_size (length chunk)
    then some (s, none)
    else Option.map
        (λ (f : Dict ℕ Reassembly × Reassembly).
          let (held', done) =
            add_part s.config.max_message f.0 msg_id f.1 idx total reliable chunk in
          (record s { reassembly = held' }, done))
        (find_reassembly s.config.max_reassemblies s.reassembly msg_id total reliable now)

-- `_heard`: the session, and whether the peer came back
unfoldable pub heard : Session → ℕ → Session × Bool
heard s now = (record s { last_heard = now; alive = true }, not s.alive)

-- what `receive` did: what it emits, what it opens, whether the peer came back, and whether it raised
pub record Received : Type 0 where
  pub session : Session
  pub emitted : List Frame
  pub opened : Option (List ℕ)
  pub came_back : Bool
  pub raised : Bool

-- a message that is complete is acknowledged, if it was sent as reliable, and opened
unfoldable pub deliver : Session → ℕ → Bool → Option (List ℕ × Bool) → Received
deliver s msg_id back none = record {
  session = s;
  emitted = [];
  opened = none;
  came_back = back;
  raised = false;
}
deliver s msg_id back (some (message, reliable)) = record {
  session = s;
  emitted = if reliable then ack msg_id ∷ [] else [];
  opened = some message;
  came_back = back;
  raised = false;
}

-- a fragment, by what `_reassemble` made of it
unfoldable pub deliver_or_raise :
    Session → ℕ → Bool → Option (Session × Option (List ℕ × Bool)) → Received
unfolding deliver
deliver_or_raise s msg_id back none = record {
  session = s;
  emitted = [];
  opened = none;
  came_back = back;
  raised = true;
}
deliver_or_raise s msg_id back (some (s', done)) = deliver s' msg_id back done

-- the rest of `receive`, once the frame is read
unfoldable pub receive_frame : Session → ℕ → Bool → Option Frame → Received
unfolding deliver_or_raise
receive_frame s now back none = record {
  session = s;
  emitted = [];
  opened = none;
  came_back = back;
  raised = false;
}
receive_frame s now back (some (ack msg_id)) = record {
  session = record s { outstanding = remove msg_id s.outstanding };
  emitted = [];
  opened = none;
  came_back = back;
  raised = false;
}
receive_frame s now back (some (fragment msg_id idx total reliable chunk)) =
    deliver_or_raise s msg_id back (reassemble s now msg_id idx total reliable chunk)

-- `receive`
unfoldable pub receive : Session → ℕ → List ℕ → Received
unfolding receive_frame heard
receive s now [] = record {
  session = s;
  emitted = [];
  opened = none;
  came_back = false;
  raised = false;
}
receive s now (tag ∷ rest) =
    let (s', back) = heard s now in receive_frame s' now back (unpack (tag ∷ rest))
