-- ===== src/Inference/Health/Blame.antt =====
-- A decider's suspicion: a node is suspected only after enough legs through it timed out.
use secdogie.Prelude.{
  ltb, if◌then◌else◌, nat_eq, string_eq, contains, Dict, keys, lookup, get_or, put, retain,
  lookup-put, get_or-put, ℕ, ◌+◌, ◌-◌, ◌≤◌, ◌<◌, String, ◌≡◌, refl, ap, true, false, none, List, [],
  ◌∷◌, arith,
}
use secdogie.Inference.Health.{Suspicion, charge, timed_out, clear, delivered, suspects}

pub data Leg : Type 0 where
  lost : List String → ℕ → Leg
  arrived : List String → Leg

unfoldable pub observe : Suspicion → Leg → Suspicion
observe s (lost nodes now) = (timed_out s nodes now).0
observe s (arrived nodes) = delivered s nodes

unfoldable pub observe_all : Suspicion → List Leg → Suspicion
observe_all s [] = s
observe_all s (leg ∷ legs) = observe_all (observe s leg) legs

abbrev pub occurrences : String → List String → ℕ
occurrences d [] = 0
occurrences d (x ∷ xs) = (if string_eq.beq x d then 1 else 0) + occurrences d xs

-- how often `d` was charged
abbrev pub charges : String → List Leg → ℕ
charges d [] = 0
charges d (lost nodes now ∷ legs) = occurrences d nodes + charges d legs
charges d (arrived nodes ∷ legs) = charges d legs

-- at most `n` points, and never suspected
record AtMost (d : String) (n : ℕ) (threshold : ℕ) (s : Suspicion) : Type 0 where
  limit : s.threshold ≡ threshold
  points : get_or d 0 s.score ≤ n
  never : lookup d s.until ≡ none

module _ (d x : String) (n threshold : ℕ) (s : Suspicion) (i : AtMost d n threshold s) where
  charge-AtMost :
      (now : ℕ)
      → n + (if string_eq.beq x d then 1 else 0) < threshold
      → AtMost d (n + (if string_eq.beq x d then 1 else 0)) threshold (charge s x now).0
  unfolding charge
  charge-AtMost now h =
      let points = get_or x 0 s.score + 1 in
      let same : string_eq.beq x d ≡ true → get_or x 0 s.score ≡ get_or d 0 s.score =
        λ e. ap (λ (k : String). get_or k 0 s.score) ((string_eq.beq_iff x d).0 e) in
      record {
        limit = ground (arith, i.limit);
        points = ground (
          arith,
          same,
          i.points,
          i.limit,
          get_or-put ⦃e = string_eq⦄ x d points 0 s.score,
          get_or-put ⦃e = string_eq⦄ x d 0 0 (put x points s.score),
        );
        never = ground (
          arith,
          same,
          i.points,
          i.limit,
          i.never,
          lookup-put ⦃e = string_eq⦄ x d (now + s.cooldown) s.until,
        );
      }

  clear-AtMost : AtMost d n threshold (clear s x)
  unfolding clear
  clear-AtMost = record {
    limit = ground (arith, i.limit);
    points = ground (
      arith,
      i.points,
      string_eq.beq_iff x d,
      ap (λ (k : String). get_or k 0 s.score) {x = x} {y = d},
      get_or-put ⦃e = string_eq⦄ x d (get_or x 0 s.score - 1) 0 s.score,
    );
    never = ground (arith, i.never);
  }

AtMost-le :
    {d : String} {n m threshold : ℕ} {s : Suspicion}
    → n ≤ m
    → AtMost d n threshold s
    → AtMost d m threshold s
AtMost-le h i = record { limit = i.limit; points = omega (arith, i.points); never = i.never }

timed_out-AtMost :
    (d : String) (threshold now : ℕ) (nodes : List String) (n : ℕ) (s : Suspicion)
    → AtMost d n threshold s
    → n + occurrences d nodes < threshold
    → AtMost d (n + occurrences d nodes) threshold (timed_out s nodes now).0
unfolding timed_out
timed_out-AtMost d threshold now [] n s i h = AtMost-le (omega arith) i
timed_out-AtMost d threshold now (x ∷ nodes) n s i h =
    let one : ℕ = if string_eq.beq x d then 1 else 0 in
    AtMost-le (omega arith) (
      timed_out-AtMost d threshold now nodes (n + one) (charge s x now).0
        (charge-AtMost d x n threshold s i now (omega arith)) (omega arith))

delivered-AtMost :
    (d : String) (n threshold : ℕ) (nodes : List String) (s : Suspicion)
    → AtMost d n threshold s
    → AtMost d n threshold (delivered s nodes)
unfolding delivered
delivered-AtMost d n threshold [] s i = i
delivered-AtMost d n threshold (x ∷ nodes) s i =
    delivered-AtMost d n threshold nodes (clear s x) (clear-AtMost d x n threshold s i)

observe_all-AtMost :
    (d : String) (threshold : ℕ) (legs : List Leg) (n : ℕ) (s : Suspicion)
    → AtMost d n threshold s
    → n + charges d legs < threshold
    → AtMost d (n + charges d legs) threshold (observe_all s legs)
unfolding observe_all observe
observe_all-AtMost d threshold [] n s i h = AtMost-le (omega arith) i
observe_all-AtMost d threshold (lost nodes now ∷ legs) n s i h = AtMost-le (omega arith) (
    observe_all-AtMost d threshold legs (n + occurrences d nodes) (timed_out s nodes now).0
      (timed_out-AtMost d threshold now nodes n s i (omega arith)) (omega arith))
observe_all-AtMost d threshold (arrived nodes ∷ legs) n s i h =
    observe_all-AtMost d threshold legs n (delivered s nodes)
      (delivered-AtMost d n threshold nodes s i) h

suspects_never :
    (d : String) (t : ℕ) (until : Dict String ℕ)
    → lookup d until ≡ none
    → contains d (keys (retain (λ _ u. ltb t u) until)) ≡ false
unfolding lookup retain
suspects_never d t [] h = refl
suspects_never d t ((k, u) ∷ until) h = ground (arith, suspects_never d t until)

-- From a fresh start, a node charged in fewer timed-out legs than the threshold is suspected at no
-- time, whatever legs arrived in between and whoever else was charged.
pub suspected_needs_threshold :
    (s : Suspicion) (legs : List Leg) (d : String) (t : ℕ)
    → s.score ≡ []
    → s.until ≡ []
    → charges d legs < s.threshold
    → contains d (suspects (observe_all s legs) t) ≡ false
unfolding suspects
suspected_needs_threshold s legs d t e f few =
    let i =
      observe_all-AtMost d s.threshold legs 0 s
        (record {
          limit = refl;
          points = rw e (unfold get_or lookup in omega arith);
          never = rw f (unfold lookup in refl);
        })
        (omega arith) in
    suspects_never d t (observe_all s legs).until i.never
