-- ===== src/Dialogue/Frames.antt =====
-- The frames of dialogue/secdogie_dialogue/session.py, and how a message is cut into fragments. A
-- frame on the wire is a list of bytes.
pub mod Cutting
pub mod Wire
use secdogie.Prelude.{
  ltb, leb, nat_beq, if◌then◌else◌, length, take, drop, string_eq, nat_eq, ℕ, zero, suc, ◌+◌, ◌-◌,
  ◌*◌, ◌/◌, ◌%◌, ◌^◌, max, Bool, ◌&&◌, ◌||◌, Option, none, some, List, [], ◌∷◌, ◌++◌,
}
use secdogie.Dialogue.Bytes.{to_bytes, from_bytes}

pub data Frame : Type 0 where
  fragment : ℕ → ℕ → ℕ → Bool → List ℕ → Frame
  ack : ℕ → Frame

-- b"D" + struct ">QHHB" + chunk, or b"A" + struct ">Q"
unfoldable pub pack : Frame → List ℕ
pack (fragment msg_id idx total reliable chunk) =
    68
    ∷ (to_bytes 8 msg_id
        ++ (to_bytes 2 idx ++ (to_bytes 2 total ++ (if reliable then 1 else 0) ∷ chunk)))
pack (ack msg_id) = 65 ∷ to_bytes 8 msg_id

-- the fields behind a `D`, once the bytes from the flags on are known; `flags & 1` is the parity
unfoldable pub read_fragment : List ℕ → List ℕ → Option Frame
read_fragment rest [] = none
read_fragment rest (flags ∷ chunk) = some (
    fragment (from_bytes 0 (take 8 rest)) (from_bytes 0 (take 2 (drop 8 rest)))
      (from_bytes 0 (take 2 (drop 10 rest))) (nat_beq (flags % 2) 1) chunk)

unfoldable pub unpack_fragment : List ℕ → Option Frame
unfolding read_fragment
unpack_fragment rest = read_fragment rest (drop 12 rest)

-- what `receive` reads of a frame; `none` where it drops the frame
unfoldable pub unpack : List ℕ → Option Frame
unfolding unpack_fragment
unpack [] = none
unpack (tag ∷ rest) =
    if nat_beq tag 65 && nat_beq (length rest) 8
    then some (ack (from_bytes 0 rest))
    else if nat_beq tag 68
    then unpack_fragment rest
    else none

-- max(1, -(-len(message) // size))
unfoldable pub fragment_count : ℕ → ℕ → ℕ
fragment_count n size = max 1 ((n + size - 1) / size)

-- message[i * size:(i + 1) * size]
unfoldable pub chunk_at : ℕ → List ℕ → ℕ → List ℕ
chunk_at size message i = take size (drop (i * size) message)

-- [f(i) for i in range(i, i + n)]
unfoldable pub for_range {ℓ} : {A : Type ℓ} → ℕ → ℕ → (ℕ → A) → List A
for_range zero i f = []
for_range (suc n) i f = f i ∷ for_range n (i + 1) f

-- one element of the list that `fragments` returns
unfoldable pub frame_at : ℕ → List ℕ → Bool → ℕ → ℕ → Frame
unfolding chunk_at fragment_count
frame_at msg_id message reliable size i =
    fragment msg_id i (fragment_count (length message) size) reliable (chunk_at size message i)

-- `fragments`; `none` where it raises: on a size of 0, on too many fragments, and on an id past 64 bits
unfoldable pub fragments : ℕ → List ℕ → Bool → ℕ → Option (List Frame)
unfolding frame_at fragment_count
fragments msg_id message reliable size =
    let total = fragment_count (length message) size in
    if nat_beq size 0 || ltb 65535 total || leb (256 ^ 8) msg_id
    then none
    else some (for_range total 0 λ i. frame_at msg_id message reliable size i)
