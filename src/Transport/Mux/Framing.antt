-- ===== src/Transport/Mux/Framing.antt =====
-- A frame decodes to exactly the channel and the payload that it encodes.
use secdogie.Prelude.{
  nat_beq_iff, Bool-cases, length, take, drop, take-append-drop, string_eq, nat_eq, ℕ, zero, suc,
  ◌+◌, ◌≤◌, ◌≡◌, refl, ap, ◌∙◌, inl, inr, true, some, List, [], ◌∷◌, ◌++◌, arith,
}
use secdogie.Transport.Mux.{name_rest, is_name, encode, decode}

take_all : (xs ys : List ℕ) → take (length xs) (xs ++ ys) ≡ xs
take_all [] ys = refl
take_all (x ∷ xs) ys = rw (take_all xs ys)

drop_all : (xs ys : List ℕ) → drop (length xs) (xs ++ ys) ≡ ys
drop_all [] ys = refl
drop_all (x ∷ xs) ys = drop_all xs ys

name_rest_short : (n : ℕ) (ds : List ℕ) → name_rest n ds ≡ true → length ds ≤ n + 1
unfolding name_rest
name_rest_short n [] h = omega arith
name_rest_short zero (d ∷ []) h = omega arith
name_rest_short zero (d ∷ e ∷ ds) h = ground arith
name_rest_short (suc n) (d ∷ []) h = omega arith
name_rest_short (suc n) (d ∷ e ∷ ds) h = ground (arith, h, name_rest_short n (e ∷ ds))

-- an encoded frame decodes
decode-frame :
    (channel payload : List ℕ)
    → is_name channel ≡ true
    → decode (length channel ∷ channel ++ payload) ≡ some (channel, payload)
unfolding decode
decode-frame channel payload h = ground (
  arith,
  h,
  take_all channel payload,
  drop_all channel payload,
  nat_beq_iff (length channel) (length channel),
)

name_short : (name : List ℕ) → is_name name ≡ true → length name ≤ 65
unfolding is_name
name_short [] h = omega arith
name_short (d ∷ ds) h = ground (arith, h, name_rest_short 63 ds)

encoded :
    (channel payload frame : List ℕ)
    → encode channel payload ≡ some frame
    → (is_name channel ≡ true) × ((length channel ∷ channel ++ payload) ≡ frame)
unfolding encode
encoded channel payload frame h = elim (Bool-cases (is_name channel)) [
  | inl named ↦ (named, ground (arith, named, h))
  | inr bad ↦ absurd (ground (arith, bad, h))
]

decoded :
    (n : ℕ) (rest channel payload : List ℕ)
    → decode (n ∷ rest) ≡ some (channel, payload)
    → (is_name channel ≡ true)
      × (length channel ≡ n)
      × (take n rest ≡ channel)
      × (drop n rest ≡ payload)
unfolding decode
decoded n rest channel payload h = (
  ground (arith, h, ap is_name {x = take n rest} {y = channel}),
  ground
      (arith, h, nat_beq_iff (length (take n rest)) n, ap length {x = take n rest} {y = channel}),
  ground (arith, h),
  ground (arith, h),
)

-- A frame that a payload on a channel is encoded to decodes to this channel and payload. The
-- channel's name is then well-formed and at most 65 bytes long, so its length is a byte.
pub encode_then_decode :
    (channel payload frame : List ℕ)
    → encode channel payload ≡ some frame
    → (is_name channel ≡ true) × (decode frame ≡ some (channel, payload)) × (length channel ≤ 65)
encode_then_decode channel payload frame h =
    let (named, is) = encoded channel payload frame h in
    (named, rw (← is) (decode-frame channel payload named), name_short channel named)

-- A frame that decodes is the encoding of what it decodes to: no two frames mean the same.
pub decode_then_encode :
    (frame channel payload : List ℕ)
    → decode frame ≡ some (channel, payload)
    → encode channel payload ≡ some frame
decode_then_encode [] channel payload h = absurd (unfold decode in ground arith)
decode_then_encode (n ∷ rest) channel payload h =
    let (named, counted, is, remains) = decoded n rest channel payload h in
    unfold encode in
    rw named (
      ap some (
        ap (λ (k : ℕ). k ∷ (channel ++ payload)) counted
        ∙ ap (◌∷◌ n) (rw (← is, ← remains) (take-append-drop n rest))))
