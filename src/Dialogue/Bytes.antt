-- ===== src/Dialogue/Bytes.antt =====
-- Bytes as natural numbers, and the big-endian integers of Python's `struct`.
use secdogie.Prelude.{
  length, length-append, string_eq, nat_eq, ℕ, zero, suc, ◌+◌, ◌*◌, ◌/◌, ◌%◌, ◌^◌, ◌<◌, ◌≡◌, refl,
  ◌∙◌, List, [], ◌∷◌, ◌++◌, arith,
}

-- an integer in `w` bytes
unfoldable pub to_bytes : ℕ → ℕ → List ℕ
to_bytes zero n = []
to_bytes (suc w) n = to_bytes w (n / 256) ++ n % 256 ∷ []

-- the integer that bytes stand for, after those that stand for `acc`
unfoldable pub from_bytes : ℕ → List ℕ → ℕ
from_bytes acc [] = acc
from_bytes acc (b ∷ bs) = from_bytes (acc * 256 + b) bs

pub length-to_bytes : (w n : ℕ) → length (to_bytes w n) ≡ w
unfolding to_bytes
length-to_bytes zero n = refl
length-to_bytes (suc w) n =
    length-append (to_bytes w (n / 256)) (n % 256 ∷ []) ∙ omega (arith, length-to_bytes w (n / 256))

from_bytes-snoc :
    (acc : ℕ) (bs : List ℕ) (b : ℕ) → from_bytes acc (bs ++ b ∷ []) ≡ from_bytes acc bs * 256 + b
unfolding from_bytes
from_bytes-snoc acc [] b = refl
from_bytes-snoc acc (x ∷ bs) b = from_bytes-snoc (acc * 256 + x) bs b

quotient_below : (n m : ℕ) → n < m * 256 → n / 256 < m
quotient_below n m h = omega arith

pub from_bytes-to_bytes : (w n : ℕ) → n < 256 ^ w → from_bytes 0 (to_bytes w n) ≡ n
unfolding to_bytes from_bytes
from_bytes-to_bytes zero n h = omega arith
from_bytes-to_bytes (suc w) n h =
    from_bytes-snoc 0 (to_bytes w (n / 256)) (n % 256)
    ∙ omega (arith, from_bytes-to_bytes w (n / 256) (quotient_below n (256 ^ w) (grind arith)))
