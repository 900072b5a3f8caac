-- ===== src/Tests/Dialogue.antt =====
-- The dialogue session on a message of three bytes that goes in two fragments.
use secdogie.Dialogue.Frames.{ack, fragment_count, chunk_at, for_range, frame_at, fragments}
use secdogie.Dialogue.Session.{Config, Session, open_session, send, receive}
use secdogie.Dialogue.Session.Arrival.{wire}
use secdogie.Dialogue.Session.Assembly.{Sending}
use secdogie.Dialogue.Session.Caps.{received, ticked, run, memory_is_bounded}
use secdogie.Dialogue.Session.Clock.{retry, retry_all, tick}
use secdogie.Dialogue.Session.Held.{bytes_held}
use secdogie.Dialogue.Session.Order.{feed, delivered_in_any_order}
use secdogie.Dialogue.Session.Retries.{ticks, unacknowledged_is_GivenUp}
use secdogie.Prelude.{
  length, string_eq, nat_eq, lookup, put, ℕ, ◌≤◌, ◌≡◌, refl, true, false, none, some, List, [], ◌∷◌,
  arith,
}
use secdogie.Dialogue.Session.Ticking.{GivenUp}

abbrev small : Config
small = record {
  fragment_size = 2;
  max_message = 8;
  max_reassemblies = 1;
  reassembly_timeout = 10;
  retry_base = 1;
  retry_max = 2;
  heartbeat_interval = 2;
  dead_after = 3;
}

abbrev hello : Sending
hello = record { msg_id = 7; message = 104 ∷ 101 ∷ 121 ∷ []; reliable = true; size = 2 }

-- the second fragment twice, then the first
delivered_in_any_order_example :
    ((feed (open_session small 0 0) hello ((1, 1) ∷ (2, 1) ∷ [])).1 ≡ [])
    × ((receive
          (feed (open_session small 0 0) hello ((1, 1) ∷ (2, 1) ∷ [])).0
          3
          (wire hello 0)).opened
        ≡ some (104 ∷ 101 ∷ 121 ∷ []))
    × ((receive
          (feed (open_session small 0 0) hello ((1, 1) ∷ (2, 1) ∷ [])).0
          3
          (wire hello 0)).emitted
        ≡ ack 7 ∷ [])
    × (lookup 7
          (receive
            (feed (open_session small 0 0) hello ((1, 1) ∷ (2, 1) ∷ [])).0
            3
            (wire hello 0)).session.reassembly
        ≡ none)
    × ((receive
          (feed (open_session small 0 0) hello ((1, 1) ∷ (2, 1) ∷ [])).0
          3
          (wire hello 0)).raised
        ≡ false)
unfolding open_session lookup fragment_count
delivered_in_any_order_example =
    delivered_in_any_order (open_session small 0 0) hello ((1, 1) ∷ (2, 1) ∷ []) 3 0
      (record {
        id_fits = omega arith;
        few_frames = omega arith;
        cut = omega arith;
        same_size = refl;
        short = omega arith;
        room = omega arith;
      })
      refl (omega arith, (omega arith, tt)) (omega arith) refl λ k l n. ground arith

memory_is_bounded_example :
    (length
        (run
          (open_session small 0 0)
          (received 1 (wire hello 1) ∷ ticked (0 ∷ []) 2 ∷ [])).reassembly
      ≤ 1)
    × (bytes_held
          (run
            (open_session small 0 0)
            (received 1 (wire hello 1) ∷ ticked (0 ∷ []) 2 ∷ [])).reassembly
        ≤ 8)
memory_is_bounded_example =
    memory_is_bounded small 0 0 (received 1 (wire hello 1) ∷ ticked (0 ∷ []) 2 ∷ []) (omega arith)

abbrev after_send : Session
after_send = (send (open_session small 0 0) 5 (104 ∷ 101 ∷ 121 ∷ []) true 0).0

-- the second tick sends a heartbeat too
abbrev due_ticks : List (List ℕ × ℕ)
due_ticks = ((0 ∷ [], 1) ∷ (0 ∷ [], 3) ∷ [])

unacknowledged_is_GivenUp_example :
    (lookup 0 (ticks after_send due_ticks).0.outstanding ≡ none)
    × GivenUp 0 5 (ticks after_send due_ticks).1
unfolding send open_session fragments frame_at fragment_count chunk_at for_range lookup put tick
    retry_all retry
unacknowledged_is_GivenUp_example =
    unacknowledged_is_GivenUp (open_session small 0 0) after_send 5 0 0 (104 ∷ 101 ∷ 121 ∷ []) _
      due_ticks (omega arith) tt refl refl (omega arith, (omega arith, tt)) (refl, (refl, tt))
