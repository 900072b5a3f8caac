-- ===== src/Prelude/Counting.antt =====
-- A dict whose keys all come from a list is no longer than that list.
use Prim.Native.Nat.{ℕ, suc, ◌+◌, ◌≤◌}
use mathlib.Core.Path.{◌≡◌, refl, ap}
use mathlib.Core.Bool.{Bool, true, not, ◌||◌, ◌&&◌}
use mathlib.Core.Option.{some}
use mathlib.Core.List.{List, [], ◌∷◌, ◌++◌}
use native.Mathlib.Omega.{arith}
use secdogie.Prelude.Tests.{if◌then◌else◌, is_none, either_way}
use secdogie.Prelude.Lists.{length, select}
use secdogie.Prelude.Classes.{Eq, contains, string_eq, nat_eq}
use secdogie.Prelude.Maps.{Dict, keys, values, lookup, Distinct}

module _ {ℓ} {K : Type ℓ} ⦃e : Eq K⦄ where
  -- xs.remove(k): without its first `k`
  unfoldable pub erase : K → List K → List K
  erase k [] = []
  erase k (x ∷ xs) = if e.beq x k then xs else x ∷ erase k xs

  pub length-erase :
      (k : K) (xs : List K) → contains k xs ≡ true → suc (length (erase k xs)) ≡ length xs
  unfolding erase
  length-erase k [] h = ground arith
  length-erase k (x ∷ xs) h = ground (arith, length-erase k xs)

  contains-erase_ne :
      (j k : K) (xs : List K)
      → e.beq k j ≡ Bool.false
      → contains j xs ≡ true
      → contains j (erase k xs) ≡ true
  unfolding erase
  contains-erase_ne j k [] n h = h
  contains-erase_ne j k (x ∷ xs) n h =
      ground (arith, contains-erase_ne j k xs n, e.beq_iff x k, e.beq_iff x j, e.beq_iff k j)

  -- no element stands twice
  abbrev pub Unrepeated : List K → Type 0
  Unrepeated [] = Unit
  Unrepeated (x ∷ xs) = (contains x xs ≡ Bool.false) × Unrepeated xs

  pub contains-append :
      (k : K) (xs ys : List K) → contains k (xs ++ ys) ≡ (contains k xs || contains k ys)
  contains-append k [] ys = refl
  contains-append k (x ∷ xs) ys = ground (arith, contains-append k xs ys)

  pub contains-select :
      (k : K) (p : K → Bool) (xs : List K) → contains k (select p xs) ≡ (contains k xs && p k)
  contains-select k p [] = refl
  contains-select k p (x ∷ xs) =
      ground (arith, contains-select k p xs, e.beq_iff x k, ap p {x = x} {y = k})

  pub contains-erase :
      (j k : K) (xs : List K)
      → Unrepeated xs
      → contains j (erase k xs) ≡ (contains j xs && not (e.beq k j))
  unfolding erase
  contains-erase j k [] h = refl
  contains-erase j k (x ∷ xs) h = ground (
    arith,
    contains-erase j k xs h.1,
    h.0,
    e.beq_iff x k,
    e.beq_iff x j,
    e.beq_iff k j,
    ap (λ y. contains y xs) {x = x} {y = j},
  )

  pub erase-Unrepeated : (k : K) (xs : List K) → Unrepeated xs → Unrepeated (erase k xs)
  unfolding erase
  erase-Unrepeated k [] h = tt
  erase-Unrepeated k (x ∷ xs) h =
      either_way Unrepeated (e.beq x k) _ _ (λ same. h.1)
        λ other. (ground (arith, contains-erase x k xs h.1, h.0), erase-Unrepeated k xs h.1)

  pub select-Unrepeated : (p : K → Bool) (xs : List K) → Unrepeated xs → Unrepeated (select p xs)
  select-Unrepeated p [] h = tt
  select-Unrepeated p (x ∷ xs) h =
      either_way Unrepeated (p x) _ _
        (λ kept. (ground (arith, contains-select x p xs, h.0), select-Unrepeated p xs h.1))
        λ gone. select-Unrepeated p xs h.1

  pub length-le_of_contains :
      (xs ys : List K)
      → Unrepeated xs
      → ((k : K) → contains k xs ≡ true → contains k ys ≡ true)
      → length xs ≤ length ys
  length-le_of_contains [] ys h within = omega arith
  length-le_of_contains (x ∷ xs) ys h within =
      let here : contains x ys ≡ true = within x (ground (arith, e.beq_iff x x)) in
      let rest = length-le_of_contains xs (erase x ys) h.1 λ k m.
        contains-erase_ne k x ys (ground (arith, e.beq_iff x k, h.0))
          (within k (ground (arith, m))) in
      omega (arith, rest, length-erase x ys here)

  pub Unrepeated-snoc :
      (xs : List K) (k : K) → contains k xs ≡ Bool.false → Unrepeated xs → Unrepeated (xs ++ k ∷ [])
  Unrepeated-snoc [] k new h = (refl, tt)
  Unrepeated-snoc (x ∷ xs) k new h = (
    ground (arith, contains-append x xs (k ∷ []), h.0, e.beq_iff k x, e.beq_iff x k),
    Unrepeated-snoc xs k (ground (arith, new)) h.1,
  )

  pub Unrepeated-parts :
      (xs ys : List K)
      → Unrepeated (xs ++ ys)
      → Unrepeated xs
        × Unrepeated ys
        × ((k : K) → contains k ys ≡ true → contains k xs ≡ Bool.false)
  Unrepeated-parts [] ys h = (tt, h, λ k m. refl)
  Unrepeated-parts (x ∷ xs) ys h =
      let (left, right, apart) = Unrepeated-parts xs ys h.1 in
      (
        (ground (arith, h.0, contains-append x xs ys), left),
        right,
        λ k m. ground (
          arith,
          m,
          apart k m,
          h.0,
          contains-append x xs ys,
          e.beq_iff x k,
          ap (λ y. contains y ys) {x = x} {y = k},
        ),
      )

  pub append-Unrepeated :
      (xs ys : List K)
      → Unrepeated xs
      → Unrepeated ys
      → ((k : K) → contains k ys ≡ true → contains k xs ≡ Bool.false)
      → Unrepeated (xs ++ ys)
  append-Unrepeated [] ys h g apart = g
  append-Unrepeated (x ∷ xs) ys h g apart = (
    ground (arith, contains-append x xs ys, h.0, apart x, e.beq_iff x x),
    append-Unrepeated xs ys h.1 g λ k m. ground (arith, apart k m),
  )

module _ {ℓ κ} {K : Type ℓ} {V : Type κ} ⦃e : Eq K⦄ where
  pub contains-keys_of : (k : K) (d : Dict K V) → contains k (keys d) ≡ not (is_none (lookup k d))
  unfolding lookup
  contains-keys_of k [] = refl
  contains-keys_of k ((j, v) ∷ d) = ground (arith, contains-keys_of k d)

  pub length-keys_of : (d : Dict K V) → length (keys d) ≡ length d
  length-keys_of [] = refl
  length-keys_of ((j, v) ∷ d) = omega (arith, length-keys_of d)

  pub keys-Unrepeated : (d : Dict K V) → Distinct d → Unrepeated (keys d)
  keys-Unrepeated [] h = tt
  keys-Unrepeated ((j, v) ∷ d) h =
      (ground (arith, contains-keys_of j d, h.0), keys-Unrepeated d h.1)

  pub length-le_of_keys :
      (d : Dict K V) (allowed : List K)
      → Distinct d
      → ((k : K) (v : V) → lookup k d ≡ some v → contains k allowed ≡ true)
      → length d ≤ length allowed
  unfolding lookup
  length-le_of_keys [] allowed distinct within = omega arith
  length-le_of_keys ((k, v) ∷ d) allowed distinct within =
      let here : contains k allowed ≡ true = within k v (ground (arith, e.beq_iff k k)) in
      let rest = length-le_of_keys d (erase k allowed) distinct.1 λ j w h.
        contains-erase_ne j k allowed (ground (arith, e.beq_iff k j, distinct.0))
          (within j w (ground (arith, e.beq_iff k j, distinct.0))) in
      omega (arith, rest, length-erase k allowed here)

-- the sums of a number that each element, or each value, has
unfoldable pub total_of {ℓ} : {K : Type ℓ} → (K → ℕ) → List K → ℕ
total_of w [] = 0
total_of w (k ∷ ks) = w k + total_of w ks

module _ {ℓ κ} {K : Type ℓ} {V : Type κ} ⦃e : Eq K⦄ (w : K → ℕ) (f : V → ℕ) where
  total_of-erase :
      (k : K) (xs : List K) → contains k xs ≡ true → w k + total_of w (erase k xs) ≡ total_of w xs
  unfolding erase total_of
  total_of-erase k [] h = ground arith
  total_of-erase k (x ∷ xs) h =
      ground (arith, total_of-erase k xs, e.beq_iff x k, ap w {x = x} {y = k})

  -- the values of a dict together weigh no more than its keys are allowed
  pub total_of-values-le :
      (d : Dict K V) (allowed : List K)
      → Distinct d
      → ((k : K) (v : V) → lookup k d ≡ some v → (contains k allowed ≡ true) × (f v ≤ w k))
      → total_of f (values d) ≤ total_of w allowed
  unfolding lookup total_of
  total_of-values-le [] allowed distinct within = omega arith
  total_of-values-le ((k, v) ∷ d) allowed distinct within =
      let (here, light) = within k v (ground (arith, e.beq_iff k k)) in
      let rest = total_of-values-le d (erase k allowed) distinct.1 λ j u h. (
        contains-erase_ne j k allowed (ground (arith, e.beq_iff k j, distinct.0))
            (within j u (ground (arith, e.beq_iff k j, distinct.0))).0,
        (within j u (ground (arith, e.beq_iff k j, distinct.0))).1,
      ) in
      omega (arith, rest, light, total_of-erase k allowed here)
