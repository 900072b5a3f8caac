-- ===== src/Dialogue/Frames/Wire.antt =====
-- A frame is read back from its bytes.
use secdogie.Prelude.{
  nat_beq, if◌then◌else◌, take, drop, take_all, drop_all, drop-drop, string_eq, nat_eq, ℕ, ◌%◌, ◌^◌,
  ◌<◌, ◌≡◌, refl, sym, ap, ◌∙◌, Bool, true, false, some, List, ◌∷◌, ◌++◌,
}
use secdogie.Dialogue.Bytes.{to_bytes, from_bytes, length-to_bytes, from_bytes-to_bytes}
use secdogie.Dialogue.Frames.{Frame, fragment, ack, pack, read_fragment, unpack_fragment, unpack}

-- the fields fit their widths in `struct`
abbrev pub Fits : Frame → Type 0
Fits (fragment msg_id idx total reliable chunk) =
    (msg_id < 256 ^ 8) × (idx < 256 ^ 2) × (total < 256 ^ 2)
Fits (ack msg_id) = msg_id < 256 ^ 8

module _ (msg_id idx total flags : ℕ) (chunk : List ℕ) where
  abbrev packed : List ℕ
  packed = to_bytes 8 msg_id ++ (to_bytes 2 idx ++ (to_bytes 2 total ++ flags ∷ chunk))

  field_id : take 8 packed ≡ to_bytes 8 msg_id
  field_id = take_all 8 (to_bytes 8 msg_id) _ (length-to_bytes 8 msg_id)

  behind_id : drop 8 packed ≡ to_bytes 2 idx ++ (to_bytes 2 total ++ flags ∷ chunk)
  behind_id = drop_all 8 (to_bytes 8 msg_id) _ (length-to_bytes 8 msg_id)

  field_idx : take 2 (drop 8 packed) ≡ to_bytes 2 idx
  field_idx = rw behind_id (take_all 2 (to_bytes 2 idx) _ (length-to_bytes 2 idx))

  behind_idx : drop 10 packed ≡ to_bytes 2 total ++ flags ∷ chunk
  behind_idx =
      sym (drop-drop 8 2 packed)
      ∙ rw behind_id (drop_all 2 (to_bytes 2 idx) _ (length-to_bytes 2 idx))

  field_total : take 2 (drop 10 packed) ≡ to_bytes 2 total
  field_total = rw behind_idx (take_all 2 (to_bytes 2 total) _ (length-to_bytes 2 total))

  behind_total : drop 12 packed ≡ flags ∷ chunk
  behind_total =
      sym (drop-drop 10 2 packed)
      ∙ rw behind_idx (drop_all 2 (to_bytes 2 total) _ (length-to_bytes 2 total))

parity : (b : Bool) → nat_beq ((if b then 1 else 0) % 2) 1 ≡ b
parity true = refl
parity false = refl

unpack_as :
    (rest : List ℕ) (flags : ℕ) (chunk p q r : List ℕ)
    → drop 12 rest ≡ flags ∷ chunk
    → take 8 rest ≡ p
    → take 2 (drop 8 rest) ≡ q
    → take 2 (drop 10 rest) ≡ r
    → unpack_fragment rest
      ≡ some (
          fragment (from_bytes 0 p) (from_bytes 0 q) (from_bytes 0 r) (nat_beq (flags % 2) 1) chunk)
unfolding unpack_fragment read_fragment
unpack_as rest flags chunk p q r d h k l =
    ap (read_fragment rest) d
    ∙ ap
        (λ n. some (
          fragment (from_bytes 0 n) (from_bytes 0 (take 2 (drop 8 rest)))
            (from_bytes 0 (take 2 (drop 10 rest))) (nat_beq (flags % 2) 1) chunk))
        h
    ∙ ap
        (λ n. some (
          fragment (from_bytes 0 p) (from_bytes 0 n) (from_bytes 0 (take 2 (drop 10 rest)))
            (nat_beq (flags % 2) 1) chunk))
        k
    ∙ ap
        (λ n. some (
          fragment (from_bytes 0 p) (from_bytes 0 q) (from_bytes 0 n) (nat_beq (flags % 2) 1)
            chunk))
        l

unpack_packed :
    (msg_id idx total : ℕ) (reliable : Bool) (chunk : List ℕ)
    → Fits (fragment msg_id idx total reliable chunk)
    → unpack_fragment (packed msg_id idx total (if reliable then 1 else 0) chunk)
      ≡ some (fragment msg_id idx total reliable chunk)
unpack_packed msg_id idx total reliable chunk (a, b, c) =
    let flags : ℕ = if reliable then 1 else 0 in
    unpack_as (packed msg_id idx total flags chunk) flags chunk (to_bytes 8 msg_id) (to_bytes 2 idx)
      (to_bytes 2 total) (behind_total msg_id idx total flags chunk)
      (field_id msg_id idx total flags chunk) (field_idx msg_id idx total flags chunk)
      (field_total msg_id idx total flags chunk)
    ∙ rw
        (
          from_bytes-to_bytes 8 msg_id a,
          from_bytes-to_bytes 2 idx b,
          from_bytes-to_bytes 2 total c,
          parity reliable,
        )
        refl

-- A frame whose fields fit their widths is read back from its bytes as it was.
pub unpack-pack : (f : Frame) → Fits f → unpack (pack f) ≡ some f
unfolding unpack pack
unpack-pack (fragment msg_id idx total reliable chunk) h =
    unpack_packed msg_id idx total reliable chunk h
unpack-pack (ack msg_id) h = rw (length-to_bytes 8 msg_id, from_bytes-to_bytes 8 msg_id h) refl
