-- ===== src/Prelude/Sorting.antt =====
-- `sorted(xs, key=..)`: in order of a number, and as before where the numbers are equal.
use Prim.Native.Nat.{ℕ}
use mathlib.Core.Path.{◌≡◌, refl, ap, ◌∙◌}
use mathlib.Core.Bool.{true, false, ◌||◌}
use mathlib.Core.List.{List, [], ◌∷◌}
use native.Mathlib.Omega.{arith}
use secdogie.Prelude.Tests.{leb, if◌then◌else◌, either_way}
use secdogie.Prelude.Lists.{take}
use secdogie.Prelude.Classes.{Eq, contains, string_eq, nat_eq}
use secdogie.Prelude.Counting.{Unrepeated}

module _ {ℓ} {A : Type ℓ} where
  unfoldable pub insert_by : (A → ℕ) → A → List A → List A
  insert_by key x [] = x ∷ []
  insert_by key x (y ∷ ys) =
      let rest = insert_by key x ys in if leb (key x) (key y) then x ∷ y ∷ ys else y ∷ rest

  unfoldable pub sort_by : (A → ℕ) → List A → List A
  unfolding insert_by
  sort_by key [] = []
  sort_by key (x ∷ xs) = insert_by key x (sort_by key xs)

module _ {ℓ} {K : Type ℓ} ⦃e : Eq K⦄ (key : K → ℕ) where
  contains-insert_by :
      (j x : K) (ys : List K) → contains j (insert_by key x ys) ≡ (e.beq x j || contains j ys)
  unfolding insert_by
  contains-insert_by j x [] = refl
  contains-insert_by j x (y ∷ ys) = ground (arith, contains-insert_by j x ys)

  pub contains-sort_by : (j : K) (xs : List K) → contains j (sort_by key xs) ≡ contains j xs
  unfolding sort_by
  contains-sort_by j [] = refl
  contains-sort_by j (x ∷ xs) =
      contains-insert_by j x (sort_by key xs) ∙ ap (λ b. e.beq x j || b) (contains-sort_by j xs)

  insert_by-Unrepeated :
      (x : K) (ys : List K)
      → contains x ys ≡ false
      → Unrepeated ys
      → Unrepeated (insert_by key x ys)
  unfolding insert_by
  insert_by-Unrepeated x [] n h = (refl, tt)
  insert_by-Unrepeated x (y ∷ ys) n h =
      either_way Unrepeated (leb (key x) (key y)) _ _ (λ before. (n, h))
        λ after. (
          ground (arith, contains-insert_by y x ys, n, h.0, e.beq_iff x y, e.beq_iff y x),
          insert_by-Unrepeated x ys (ground (arith, n)) h.1,
        )

  pub sort_by-Unrepeated : (xs : List K) → Unrepeated xs → Unrepeated (sort_by key xs)
  unfolding sort_by
  sort_by-Unrepeated [] h = tt
  sort_by-Unrepeated (x ∷ xs) h =
      insert_by-Unrepeated x (sort_by key xs) (contains-sort_by x xs ∙ h.0)
        (sort_by-Unrepeated xs h.1)

module _ {ℓ} {K : Type ℓ} ⦃e : Eq K⦄ where
  pub contains-take :
      (j : K) (n : ℕ) (xs : List K) → contains j (take n xs) ≡ true → contains j xs ≡ true
  contains-take j ℕ.zero xs h = ground (arith, h)
  contains-take j (ℕ.suc n) [] h = ground (arith, h)
  contains-take j (ℕ.suc n) (x ∷ xs) h = ground (arith, h, contains-take j n xs)

  pub take-Unrepeated : (n : ℕ) (xs : List K) → Unrepeated xs → Unrepeated (take n xs)
  take-Unrepeated ℕ.zero xs h = tt
  take-Unrepeated (ℕ.suc n) [] h = tt
  take-Unrepeated (ℕ.suc n) (x ∷ xs) h =
      (ground (arith, h.0, contains-take x n xs), take-Unrepeated n xs h.1)
