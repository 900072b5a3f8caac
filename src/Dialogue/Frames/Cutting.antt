-- ===== src/Dialogue/Frames/Cutting.antt =====
-- The chunks of a message, one after another, are the message.
use native.Mathlib.Nat.{lt-div-mul-add, div-mul-le_self}
use secdogie.Prelude.{
  length, take, drop, drop-drop, take-add, take_long, string_eq, nat_eq, ℕ, zero, suc, ◌+◌, ◌-◌,
  ◌*◌, ◌/◌, ◌≤◌, ◌<◌, ◌≡◌, refl, sym, ap, ◌∙◌, List, [], ◌++◌, arith,
}
use secdogie.Dialogue.Frames.{fragment_count, chunk_at}

module _ (size : ℕ) (message : List ℕ) where
  -- the chunks from `i` on, `n` of them
  unfoldable pub chunks_from : ℕ → ℕ → List ℕ
  chunks_from zero i = []
  chunks_from (suc n) i = chunk_at size message i ++ chunks_from n (i + 1)

  next_offset : (i : ℕ) → i * size + size ≡ (i + 1) * size
  next_offset i = grind arith

  first_and_rest : (n : ℕ) → suc n * size ≡ size + n * size
  first_and_rest n = grind arith

  chunks_from-eq-take : (n i : ℕ) → chunks_from n i ≡ take (n * size) (drop (i * size) message)
  unfolding chunks_from chunk_at
  chunks_from-eq-take zero i = let e : zero * size ≡ 0 = omega arith in rw e refl
  chunks_from-eq-take (suc n) i = rw (first_and_rest n) (
      ap (λ xs. take size (drop (i * size) message) ++ xs)
        (chunks_from-eq-take n (i + 1)
          ∙ ap (take (n * size)) (
              ap (λ k. drop k message) (sym (next_offset i))
              ∙ sym (drop-drop (i * size) size message)))
      ∙ sym (take-add size (n * size) (drop (i * size) message)))

pub count_covers : (n size : ℕ) → 0 < size → n ≤ fragment_count n size * size
unfolding fragment_count
count_covers n size h =
    let q = (n + size - 1) / size in
    let covers : n ≤ q * size = grind (arith, lt-div-mul-add {a = n + size - 1} {b = size} h) in
    grind (arith, covers)

-- and no more than one chunk beyond
pub count_tight : (n size : ℕ) → fragment_count n size * size ≤ n + size
unfolding fragment_count
count_tight n size =
    let q = (n + size - 1) / size in
    let tight : q * size ≤ n + size - 1 = div-mul-le_self (n + size - 1) size in
    grind (arith, tight)

pub chunks-eq-message :
    (size : ℕ) (message : List ℕ)
    → 0 < size
    → chunks_from size message (fragment_count (length message) size) 0 ≡ message
chunks-eq-message size message h =
    let start : 0 * size ≡ 0 = omega arith in
    chunks_from-eq-take size message (fragment_count (length message) size) 0
    ∙ rw start (
        take_long (fragment_count (length message) size * size) message
          (count_covers (length message) size h))
