-- ===== src/Prelude/SortedSet.antt =====
-- `sorted(set(xs))` has the elements of `xs`.
use Prim.Native.String.{String}
use mathlib.Core.Path.{◌≡◌, refl, ap, ◌∙◌}
use mathlib.Core.Bool.{Bool, true, ◌||◌}
use mathlib.Core.List.{List, [], ◌∷◌}
use native.Mathlib.Omega.{arith}
use secdogie.Prelude.Lists.{any, all}
use secdogie.Prelude.Classes.{Eq, contains, string_eq, nat_eq}
use secdogie.Prelude.Texts.{insert_sorted, sorted_set}

contains-insert_sorted :
    (k x : String) (ys : List String)
    → contains k (insert_sorted x ys) ≡ (string_eq.beq x k || contains k ys)
unfolding insert_sorted
contains-insert_sorted k x [] = refl
contains-insert_sorted k x (y ∷ ys) = ground (
  arith,
  contains-insert_sorted k x ys,
  string_eq.beq_iff x y,
  ap (λ (s : String). string_eq.beq s k) {x = x} {y = y},
)

pub contains-sorted_set :
    (k : String) (xs : List String) → contains k (sorted_set xs) ≡ contains k xs
unfolding sorted_set
contains-sorted_set k [] = refl
contains-sorted_set k (x ∷ xs) =
    contains-insert_sorted k x (sorted_set xs)
    ∙ ap (λ b. string_eq.beq x k || b) (contains-sorted_set k xs)

module _ {ℓ} {K : Type ℓ} ⦃e : Eq K⦄ where
  pub all-contains :
      (p : K → Bool) (k : K) (xs : List K) → all p xs ≡ true → contains k xs ≡ true → p k ≡ true
  all-contains p k [] h m = ground arith
  all-contains p k (x ∷ xs) h m =
      ground (arith, all-contains p k xs, e.beq_iff x k, ap p {x = x} {y = k})

  pub any-contains :
      (p : K → Bool) (k : K) (xs : List K) → contains k xs ≡ true → p k ≡ true → any p xs ≡ true
  any-contains p k [] m h = ground arith
  any-contains p k (x ∷ xs) m h =
      ground (arith, m, h, any-contains p k xs, e.beq_iff x k, ap p {x = x} {y = k})
