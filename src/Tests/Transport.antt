-- ===== src/Tests/Transport.antt =====
-- A message on the channel "log".
use secdogie.Prelude.{length, string_eq, nat_eq, ℕ, ◌≤◌, ◌≡◌, refl, true, some, List, [], ◌∷◌}
use secdogie.Transport.Mux.{is_name_char, name_rest, is_name, encode, decode}
use secdogie.Transport.Mux.Framing.{encode_then_decode, decode_then_encode}

abbrev log_name : List ℕ
log_name = 108 ∷ 111 ∷ 103 ∷ []

abbrev frame : List ℕ
frame = 3 ∷ 108 ∷ 111 ∷ 103 ∷ 7 ∷ 8 ∷ []

encodes : encode log_name (7 ∷ 8 ∷ []) ≡ some frame
unfolding encode is_name name_rest is_name_char
encodes = refl

decodes : decode frame ≡ some (log_name, 7 ∷ 8 ∷ [])
unfolding decode is_name name_rest is_name_char
decodes = refl

encode_then_decode_example :
    (is_name log_name ≡ true)
    × (decode frame ≡ some (log_name, 7 ∷ 8 ∷ []))
    × (length log_name ≤ 65)
encode_then_decode_example = encode_then_decode log_name (7 ∷ 8 ∷ []) frame encodes

decode_then_encode_example : encode log_name (7 ∷ 8 ∷ []) ≡ some frame
decode_then_encode_example = decode_then_encode frame log_name (7 ∷ 8 ∷ []) decodes
