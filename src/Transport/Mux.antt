-- ===== src/Transport/Mux.antt =====
-- The channel framing of transport/secdogie_transport/mux.py. Bytes, and the ASCII characters of a
-- channel's name, are natural numbers.
pub mod Framing
use secdogie.Prelude.{
  leb, nat_beq, if◌then◌else◌, length, take, drop, string_eq, nat_eq, ℕ, zero, suc, Bool, true,
  false, not, ◌&&◌, ◌||◌, Option, none, some, List, [], ◌∷◌, ◌++◌,
}

-- [A-Za-z0-9._/-]
unfoldable pub is_name_char : ℕ → Bool
is_name_char n =
    leb 45 n && leb n 57 || leb 65 n && leb n 90 || nat_beq n 95 || leb 97 n && leb n 122

abbrev is_empty : List ℕ → Bool
is_empty [] = true
is_empty (x ∷ xs) = false

-- at most `n` of these, where `$` also matches before a last newline
unfoldable pub name_rest : ℕ → List ℕ → Bool
unfolding is_name_char
name_rest n [] = true
name_rest zero (d ∷ ds) = nat_beq d 10 && is_empty ds
name_rest (suc n) (d ∷ ds) =
    let rest = name_rest n ds in is_name_char d && rest || nat_beq d 10 && is_empty ds

-- ^[A-Za-z0-9._/-]{1,64}$
unfoldable pub is_name : List ℕ → Bool
unfolding name_rest
is_name [] = false
is_name (d ∷ ds) = is_name_char d && name_rest 63 ds

-- `encode`; `none` where it raises
unfoldable pub encode : List ℕ → List ℕ → Option (List ℕ)
encode channel payload =
    if is_name channel then some (length channel ∷ channel ++ payload) else none

unfoldable pub decode : List ℕ → Option (List ℕ × List ℕ)
decode [] = none
decode (n ∷ rest) =
    let name = take n rest in
    if not (nat_beq (length name) n)
    then none
    else if not (is_name name)
    then none
    else some (name, drop n rest)
