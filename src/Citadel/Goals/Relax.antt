-- ===== src/Citadel/Goals/Relax.antt =====
-- What one round of the goal order does to the counts, and the sort of the queue.
use Prim.Native.String.{compare}
use Prim.Native.Nat.{Ordering}
use secdogie.Prelude.{
  nat_beq, if◌then◌else◌, is_none, either_way, length, contains, string_eq, nat_eq, Dict, lookup,
  get_or, put, Distinct, lookup-put, get_or-put, Unrepeated, ℕ, suc, ◌-◌, String, ◌≡◌, refl, ap,
  ◌∙◌, Bool, false, not, ◌&&◌, ◌||◌, Option, none, some, List, [], ◌∷◌, arith,
}
use secdogie.Citadel.Goals.{Goal, Goals, insert_text, sort_texts, relax}

contains-insert_text :
    (k x : String) (ys : List String)
    → contains k (insert_text x ys) ≡ (string_eq.beq x k || contains k ys)
unfolding insert_text
contains-insert_text k x [] = refl
contains-insert_text k x (y ∷ ys) = ground (arith, contains-insert_text k x ys)

pub contains-sort_texts :
    (k : String) (xs : List String) → contains k (sort_texts xs) ≡ contains k xs
unfolding sort_texts
contains-sort_texts k [] = refl
contains-sort_texts k (x ∷ xs) =
    contains-insert_text k x (sort_texts xs)
    ∙ ap (λ b. string_eq.beq x k || b) (contains-sort_texts k xs)

length-insert_text : (x : String) (ys : List String) → length (insert_text x ys) ≡ suc (length ys)
unfolding insert_text
length-insert_text x [] = refl
length-insert_text x (y ∷ ys) = ground (arith, length-insert_text x ys)

insert_text-Unrepeated :
    (x : String) (ys : List String)
    → contains x ys ≡ false
    → Unrepeated ys
    → Unrepeated (insert_text x ys)
unfolding insert_text
insert_text-Unrepeated x [] n h = (refl, tt)
insert_text-Unrepeated x (y ∷ ys) n h =
    let later : Unrepeated (y ∷ insert_text x ys) = (
      ground (
        arith,
        contains-insert_text y x ys,
        n,
        h.0,
        string_eq.beq_iff x y,
        string_eq.beq_iff y x,
      ),
      insert_text-Unrepeated x ys (ground (arith, n)) h.1,
    ) in
    elim (compare x y)
      as (λ o. Unrepeated (elim o [ Ordering.gt ↦ y ∷ insert_text x ys | _ ↦ x ∷ y ∷ ys ])) [
        | Ordering.lt ↦ (n, h)
        | Ordering.eq ↦ (n, h)
        | Ordering.gt ↦ later
      ]

pub sort_texts-Unrepeated : (xs : List String) → Unrepeated xs → Unrepeated (sort_texts xs)
unfolding sort_texts
sort_texts-Unrepeated [] h = tt
sort_texts-Unrepeated (x ∷ xs) h =
    insert_text-Unrepeated x (sort_texts xs) (contains-sort_texts x xs ∙ h.0)
      (sort_texts-Unrepeated xs h.1)

-- whether a round over some goals lowers the count of one
abbrev pub depends : String → Option Goal → Bool
depends gid none = false
depends gid (some g) = contains gid g.deps

abbrev pub hit : String → Goals → Dict String ℕ → String → Bool
hit gid goals indeg x = depends gid (lookup x goals) && not (is_none (lookup x indeg))

pub record Relaxed (gid : String) (goals : Goals) (indeg : Dict String ℕ)
    (p : Dict String ℕ × List String) : Type 0 where
  pub count :
      (x : String)
      → get_or x 0 p.0 ≡ (if hit gid goals indeg x then get_or x 0 indeg - 1 else get_or x 0 indeg)
  pub present : (x : String) → is_none (lookup x p.0) ≡ is_none (lookup x indeg)
  pub released :
      (x : String) → contains x p.1 ≡ (hit gid goals indeg x && nat_beq (get_or x 0 indeg) 1)
  pub once : Unrepeated p.1

pub relax-Relaxed :
    (gid : String) (goals : Goals) (indeg : Dict String ℕ)
    → Distinct goals
    → Relaxed gid goals indeg (relax gid goals indeg)
unfolding relax lookup
relax-Relaxed gid [] indeg h = record {
  count = λ x. refl;
  present = λ x. refl;
  released = λ x. refl;
  once = tt;
}
relax-Relaxed gid ((other, g) ∷ rest) indeg h =
    let n = get_or other 0 indeg in
    let struck = contains gid g.deps && not (is_none (lookup other indeg)) in
    let indeg1 = if struck then put other (n - 1) indeg else indeg in
    let r = relax-Relaxed gid rest indeg1 h.1 in
    let value : (x : String)
        → get_or x 0 indeg1
          ≡ (if struck && string_eq.beq other x then n - 1 else get_or x 0 indeg) =
      λ x. ground (arith, get_or-put other x (n - 1) 0 indeg) in
    let known : (x : String) → is_none (lookup x indeg1) ≡ is_none (lookup x indeg) = λ x. ground (
      arith,
      lookup-put other x (n - 1) indeg,
      string_eq.beq_iff other x,
      ap (λ k. lookup k indeg) {x = other} {y = x},
    ) in
    let at_key = λ (x : String). string_eq.beq_iff other x in
    let same_rest = λ (x : String). ap (λ k. lookup k rest) {x = other} {y = x} in
    let same_count = λ (x : String). ap (λ k. get_or k 0 indeg) {x = other} {y = x} in
    let same_known = λ (x : String). ap (λ k. is_none (lookup k indeg)) {x = other} {y = x} in
    record {
      count = λ x.
          let count = r.count x in
          ground (
            arith,
            count,
            value x,
            known x,
            h.0,
            at_key x,
            same_rest x,
            same_count x,
            same_known x,
          );
      present = λ x. let present = r.present x in ground (arith, present, known x);
      released = λ x.
          let released = r.released x in
          ground (
            arith,
            released,
            value x,
            known x,
            h.0,
            at_key x,
            same_rest x,
            same_count x,
            same_known x,
          );
      once =
          either_way Unrepeated (struck && nat_beq n 1) _ _
            (λ e. (let released = r.released other in ground (arith, released, h.0), r.once))
            λ e. r.once;
    }
