-- ===== src/Dialogue/Session/Held.antt =====
-- What the reassemblies of a session hold: their chunks, and which of them is dropped.
use secdogie.Prelude.{
  leb, Bool-cases, Option-cases, is_none, length, All, string_eq, nat_eq, Dict, lookup, put, remove,
  retain, kept, length-remove, ℕ, ◌+◌, ◌-◌, ◌*◌, ◌≤◌, ◌≡◌, ap, subst, inl, inr, Bool, false, none,
  some, List, [], ◌∷◌, arith,
}
use secdogie.Dialogue.Session.{Reassembly, oldest_of, drop_oldest, make_room}

-- the bytes of the chunks that are held
unfoldable pub bytes_in : Dict ℕ (List ℕ) → ℕ
bytes_in [] = 0
bytes_in ((i, chunk) ∷ parts) = length chunk + bytes_in parts

unfoldable pub bytes_held : Dict ℕ Reassembly → ℕ
unfolding bytes_in
bytes_held [] = 0
bytes_held ((m, r) ∷ held) = bytes_in r.parts + bytes_held held

-- a reassembly counts what it holds, within the limit
pub record Sound (limit : ℕ) (r : Reassembly) : Type 0 where
  pub counted : r.size ≡ bytes_in r.parts
  pub within : r.size ≤ limit

abbrev pub SoundAll : ℕ → Dict ℕ Reassembly → Type 0
SoundAll limit = All (λ e. Sound limit e.1)

pub bytes_in-put :
    (i : ℕ) (chunk : List ℕ) (parts : Dict ℕ (List ℕ))
    → lookup i parts ≡ none
    → bytes_in (put i chunk parts) ≡ bytes_in parts + length chunk
unfolding bytes_in put lookup
bytes_in-put i chunk [] h = omega arith
bytes_in-put i chunk ((j, c) ∷ parts) h = ground (arith, bytes_in-put i chunk parts)

pub bytes_held-le :
    (limit : ℕ) (held : Dict ℕ Reassembly)
    → SoundAll limit held
    → bytes_held held ≤ length held * limit
unfolding bytes_held
bytes_held-le limit [] h = omega arith
bytes_held-le limit ((m, r) ∷ held) (s, h) =
    let rest = bytes_held-le limit held h in
    let one = s.counted in let most = s.within in grind (arith, rest, one, most)

module _ (limit : ℕ) where
  pub SoundAll-put :
      (m : ℕ) (r : Reassembly) (held : Dict ℕ Reassembly)
      → Sound limit r
      → SoundAll limit held
      → SoundAll limit (put m r held)
  unfolding put
  SoundAll-put m r [] s h = (s, tt)
  SoundAll-put m r ((j, q) ∷ held) s h = elim (Bool-cases (nat_eq.beq j m)) [
    | inl p ↦ rw p (s, h.1)
    | inr p ↦ rw p (h.0, SoundAll-put m r held s h.1)
  ]

  pub SoundAll-remove :
      (m : ℕ) (held : Dict ℕ Reassembly) → SoundAll limit held → SoundAll limit (remove m held)
  unfolding remove
  SoundAll-remove m [] h = tt
  SoundAll-remove m ((j, q) ∷ held) h = elim (Bool-cases (nat_eq.beq j m)) [
    | inl p ↦ rw p (SoundAll-remove m held h.1)
    | inr p ↦ rw p (h.0, SoundAll-remove m held h.1)
  ]

  pub SoundAll-retain :
      (p : ℕ → Reassembly → Bool) (held : Dict ℕ Reassembly)
      → SoundAll limit held
      → SoundAll limit (retain p held)
  unfolding retain
  SoundAll-retain p [] h = tt
  SoundAll-retain p ((j, q) ∷ held) h = elim (Bool-cases (p j q)) [
    | inl e ↦ rw e (h.0, SoundAll-retain p held h.1)
    | inr e ↦ rw e (SoundAll-retain p held h.1)
  ]

  pub SoundAll-lookup :
      (m : ℕ) (r : Reassembly) (held : Dict ℕ Reassembly)
      → SoundAll limit held
      → lookup m held ≡ some r
      → Sound limit r
  unfolding lookup
  SoundAll-lookup m r [] h e = absurd (ground arith)
  SoundAll-lookup m r ((j, q) ∷ held) h e = elim (Bool-cases (nat_eq.beq j m)) [
    | inl p ↦ subst (Sound limit) (ground (arith, p, e)) h.0
    | inr p ↦ SoundAll-lookup m r held h.1 (ground (arith, p, e))
  ]

-- the oldest of some reassemblies is one of them
oldest_of-held :
    (best started : ℕ) (r : Reassembly) (held : Dict ℕ Reassembly)
    → is_none (lookup (oldest_of best started held) ((best, r) ∷ held)) ≡ false
unfolding oldest_of lookup
oldest_of-held best started r [] = ground (arith, nat_eq.beq_iff best best)
oldest_of-held best started r ((m, q) ∷ held) =
    ground (arith, oldest_of-held m q.started q held, oldest_of-held best started r held)

pub drop_oldest-shorter :
    (held kept : Dict ℕ Reassembly) → drop_oldest held ≡ some kept → length kept ≤ length held - 1
unfolding drop_oldest
drop_oldest-shorter [] kept g = absurd (ground (arith, g))
drop_oldest-shorter ((m, r) ∷ held) kept g =
    let oldest = oldest_of m r.started held in
    elim (Option-cases (lookup oldest ((m, r) ∷ held))) [
      | inl e ↦ absurd (ground (arith, e, oldest_of-held m r.started r held))
      | inr (q, e) ↦
          let less = length-remove oldest q ((m, r) ∷ held) e in
          let same : remove oldest ((m, r) ∷ held) ≡ kept = ground (arith, g) in
          omega (arith, less, ap length same)
    ]

pub drop_oldest-Sound :
    (limit : ℕ) (held kept : Dict ℕ Reassembly)
    → drop_oldest held ≡ some kept
    → SoundAll limit held
    → SoundAll limit kept
unfolding drop_oldest
drop_oldest-Sound limit [] kept g h = absurd (ground (arith, g))
drop_oldest-Sound limit ((m, r) ∷ held) kept g h =
    subst (SoundAll limit) (ground (arith, g))
      (SoundAll-remove limit (oldest_of m r.started held) ((m, r) ∷ held) h)

-- with a cap of at least one there is room for one more, and nothing raises
pub make_room-some :
    (cap : ℕ) (held : Dict ℕ Reassembly)
    → 1 ≤ cap
    → (kept : Dict ℕ Reassembly) × (make_room cap held ≡ some kept)
unfolding make_room drop_oldest
make_room-some cap [] pos = ([], ground arith)
make_room-some cap ((m, r) ∷ held) pos = elim (Bool-cases (leb cap (length ((m, r) ∷ held)))) [
  | inl full ↦ (remove (oldest_of m r.started held) ((m, r) ∷ held), ground (arith, full))
  | inr room ↦ ((m, r) ∷ held, ground (arith, room))
]
