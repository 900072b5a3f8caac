-- ===== src/Prelude/Maps.antt =====
-- Python's `dict`: an association list in insertion order, over keys with an equality test.
use Prim.Native.Nat.{suc, ◌+◌, ◌≤◌}
use mathlib.Core.Path.{◌≡◌, refl}
use mathlib.Core.Bool.{Bool}
use mathlib.Core.Option.{Option, none, some}
use mathlib.Core.List.{List, [], ◌∷◌, map}
use mathlib.Core.Logic.{inl, inr}
use native.Mathlib.Omega.{arith}
use secdogie.Prelude.Tests.{if◌then◌else◌, Bool-cases}
use secdogie.Prelude.Lists.{length}
use secdogie.Prelude.Classes.{Eq, string_eq, nat_eq}

abbrev pub Dict {ℓ κ} : Type ℓ → Type κ → Type (ℓ ⊔ κ)
Dict K V = List (K × V)

abbrev pub keys {ℓ κ} : {K : Type ℓ} {V : Type κ} → Dict K V → List K
keys = map (λ e. e.0)

abbrev pub values {ℓ κ} : {K : Type ℓ} {V : Type κ} → Dict K V → List V
values = map (λ e. e.1)

module _ {ℓ κ} {K : Type ℓ} {V : Type κ} ⦃e : Eq K⦄ where
  -- d.get(k)
  unfoldable pub lookup : K → Dict K V → Option V
  lookup k [] = none
  lookup k ((j, v) ∷ d) = if e.beq j k then some v else lookup k d

  -- d.get(k, v)
  unfoldable pub get_or : K → V → Dict K V → V
  unfolding lookup
  get_or k v d = elim (lookup k d) [ none ↦ v | some w ↦ w ]

  -- d[k] = v: in place where the key is there, at the end where it is new
  unfoldable pub put : K → V → Dict K V → Dict K V
  put k v [] = (k, v) ∷ []
  put k v ((j, w) ∷ d) = if e.beq j k then (j, v) ∷ d else (j, w) ∷ put k v d

  -- d.pop(k, None)
  unfoldable pub remove : K → Dict K V → Dict K V
  remove k [] = []
  remove k ((j, w) ∷ d) = let rest = remove k d in if e.beq j k then rest else (j, w) ∷ rest

  -- {k: v for k, v in d.items() if p(k, v)}
  unfoldable pub retain : (K → V → Bool) → Dict K V → Dict K V
  retain p [] = []
  retain p ((j, w) ∷ d) = let rest = retain p d in if p j w then (j, w) ∷ rest else rest

-- No key stands twice, as in every dict that starts empty and is written by `put`.
abbrev pub Distinct {ℓ κ} : {K : Type ℓ} {V : Type κ} ⦃e : Eq K⦄ → Dict K V → Type (ℓ ⊔ κ)
Distinct [] = Unit
Distinct ((k, v) ∷ d) = (lookup k d ≡ none) × Distinct d

module _ {ℓ κ} {K : Type ℓ} {V : Type κ} ⦃e : Eq K⦄ where
  pub lookup-put :
      (k j : K) (v : V) (d : Dict K V)
      → lookup j (put k v d) ≡ (if e.beq k j then some v else lookup j d)
  unfolding lookup put
  lookup-put k j v [] = refl
  lookup-put k j v ((i, w) ∷ d) =
      ground (arith, lookup-put k j v d, e.beq_iff i k, e.beq_iff i j, e.beq_iff k j)

  pub get_or-put :
      (k j : K) (v w : V) (d : Dict K V)
      → get_or j w (put k v d) ≡ (if e.beq k j then v else get_or j w d)
  unfolding get_or
  get_or-put k j v w d = ground (arith, lookup-put k j v d)

  pub lookup-remove :
      (k j : K) (d : Dict K V) → lookup j (remove k d) ≡ (if e.beq k j then none else lookup j d)
  unfolding lookup remove
  lookup-remove k j [] = ground arith
  lookup-remove k j ((i, w) ∷ d) =
      ground (arith, lookup-remove k j d, e.beq_iff i k, e.beq_iff i j, e.beq_iff k j)

  pub put-Distinct : (k : K) (v : V) (d : Dict K V) → Distinct d → Distinct (put k v d)
  unfolding put lookup
  put-Distinct k v [] h = (refl, tt)
  put-Distinct k v ((i, w) ∷ d) h = elim (Bool-cases (e.beq i k)) [
    | inl p ↦ rw p (ground (arith, h.0), h.1)
    | inr p ↦ rw p (
      ground (arith, lookup-put k i v d, e.beq_iff i k, e.beq_iff k i, h.0),
      put-Distinct k v d h.1,
    )
  ]

  lookup-remove-none : (k j : K) (d : Dict K V) → lookup j d ≡ none → lookup j (remove k d) ≡ none
  lookup-remove-none k j d h = ground (arith, lookup-remove k j d)

  pub remove-Distinct : (k : K) (d : Dict K V) → Distinct d → Distinct (remove k d)
  unfolding remove
  remove-Distinct k [] h = tt
  remove-Distinct k ((i, w) ∷ d) h = elim (Bool-cases (e.beq i k)) [
    | inl p ↦ rw p (remove-Distinct k d h.1)
    | inr p ↦ rw p (lookup-remove-none k i d h.0, remove-Distinct k d h.1)
  ]

  lookup-retain-none :
      (p : K → V → Bool) (j : K) (d : Dict K V) → lookup j d ≡ none → lookup j (retain p d) ≡ none
  unfolding lookup retain
  lookup-retain-none p j [] h = refl
  lookup-retain-none p j ((i, w) ∷ d) h = ground (arith, lookup-retain-none p j d)

  -- what a filter keeps of one entry
  abbrev pub kept : (K → V → Bool) → K → Option V → Option V
  kept p j none = none
  kept p j (some v) = if p j v then some v else none

  pub lookup-retain :
      (p : K → V → Bool) (j : K) (d : Dict K V)
      → Distinct d
      → lookup j (retain p d) ≡ kept p j (lookup j d)
  unfolding lookup retain
  lookup-retain p j [] h = refl
  lookup-retain p j ((i, w) ∷ d) h =
      ground (arith, lookup-retain p j d h.1, lookup-retain-none p j d, e.beq_iff i j, h.0)

  pub retain-Distinct : (p : K → V → Bool) (d : Dict K V) → Distinct d → Distinct (retain p d)
  unfolding retain
  retain-Distinct p [] h = tt
  retain-Distinct p ((i, w) ∷ d) h = elim (Bool-cases (p i w)) [
    | inl q ↦ rw q (lookup-retain-none p i d h.0, retain-Distinct p d h.1)
    | inr q ↦ rw q (retain-Distinct p d h.1)
  ]

  pub length-put-le : (k : K) (v : V) (d : Dict K V) → length (put k v d) ≤ length d + 1
  unfolding put
  length-put-le k v [] = omega arith
  length-put-le k v ((i, w) ∷ d) = ground (arith, length-put-le k v d)

  pub length-put_pos : (k : K) (v : V) (d : Dict K V) → 1 ≤ length (put k v d)
  unfolding put
  length-put_pos k v [] = omega arith
  length-put_pos k v ((i, w) ∷ d) = ground arith

  pub length-put_old :
      (k : K) (v w : V) (d : Dict K V) → lookup k d ≡ some w → length (put k v d) ≡ length d
  unfolding put lookup
  length-put_old k v w [] h = ground arith
  length-put_old k v w ((i, u) ∷ d) h = ground (arith, length-put_old k v w d)

  pub length-remove-le : (k : K) (d : Dict K V) → length (remove k d) ≤ length d
  unfolding remove
  length-remove-le k [] = omega arith
  length-remove-le k ((i, w) ∷ d) = ground (arith, length-remove-le k d)

  pub length-retain-le : (p : K → V → Bool) (d : Dict K V) → length (retain p d) ≤ length d
  unfolding retain
  length-retain-le p [] = omega arith
  length-retain-le p ((i, w) ∷ d) = ground (arith, length-retain-le p d)

  pub length-remove :
      (k : K) (v : V) (d : Dict K V) → lookup k d ≡ some v → suc (length (remove k d)) ≤ length d
  unfolding remove lookup
  length-remove k v [] h = ground arith
  length-remove k v ((i, w) ∷ d) h = ground (arith, length-remove k v d, length-remove-le k d)

pub ruleset dict_laws = (lookup-put, lookup-remove)
