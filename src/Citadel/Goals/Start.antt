-- ===== src/Citadel/Goals/Start.antt =====
-- The counts and the queue that the loop of `topo_order` starts with.
use secdogie.Prelude.{
  nat_beq, is_none, either_way, length, select, contains, string_eq, nat_eq, Dict, lookup, get_or,
  Distinct, Unrepeated, ℕ, String, ◌≡◌, refl, ap, true, some, List, [], ◌∷◌, arith,
}
use secdogie.Citadel.Goals.{Goal, Goals, sort_texts, is_goal, indegrees, starting}
use secdogie.Citadel.Goals.Relax.{contains-sort_texts, sort_texts-Unrepeated}
use secdogie.Citadel.Goals.Order.{waiting, Sound}

lookup-indegrees :
    (goals part : Goals) (x : String) (g : Goal)
    → lookup x part ≡ some g
    → lookup x (indegrees goals part) ≡ some (length (select (is_goal goals) g.deps))
unfolding indegrees lookup
lookup-indegrees goals [] x g e = absurd (ground (arith, e))
lookup-indegrees goals ((k, q) ∷ part) x g e = ground (arith, e, lookup-indegrees goals part x g)

indegrees-none :
    (goals part : Goals) (x : String)
    → is_none (lookup x (indegrees goals part)) ≡ is_none (lookup x part)
unfolding indegrees lookup
indegrees-none goals [] x = refl
indegrees-none goals ((k, q) ∷ part) x = ground (arith, indegrees-none goals part x)

indegrees-Distinct : (goals part : Goals) → Distinct part → Distinct (indegrees goals part)
unfolding indegrees
indegrees-Distinct goals [] h = tt
indegrees-Distinct goals ((k, q) ∷ part) h =
    (ground (arith, h.0, indegrees-none goals part k), indegrees-Distinct goals part h.1)

starting-zero :
    (d : Dict String ℕ) (x : String)
    → Distinct d
    → contains x (starting d) ≡ true
    → lookup x d ≡ some 0
unfolding starting lookup
starting-zero [] x h m = absurd (ground (arith, m))
starting-zero ((k, n) ∷ d) x h m = ground (
  arith,
  m,
  h.0,
  starting-zero d x h.1,
  string_eq.beq_iff k x,
  ap (λ y. lookup y d) {x = k} {y = x},
)

starting-Unrepeated : (d : Dict String ℕ) → Distinct d → Unrepeated (starting d)
unfolding starting
starting-Unrepeated [] h = tt
starting-Unrepeated ((k, n) ∷ d) h =
    either_way Unrepeated (nat_beq n 0) _ _
      (λ e. (ground (arith, h.0, starting-zero d k h.1), starting-Unrepeated d h.1))
      λ e. starting-Unrepeated d h.1

select-waiting :
    (goals : Goals) (deps : List String)
    → waiting goals [] deps ≡ length (select (is_goal goals) deps)
unfolding waiting
select-waiting goals [] = refl
select-waiting goals (d ∷ deps) = ground (arith, select-waiting goals deps)

pub start-Sound :
    (goals : Goals)
    → Distinct goals
    → Sound goals (indegrees goals goals) (sort_texts (starting (indegrees goals goals))) []
unfolding get_or
start-Sound goals distinct =
    let d = indegrees goals goals in
    let apart = indegrees-Distinct goals goals distinct in
    record {
      counts =
          λ x g e. ground (arith, lookup-indegrees goals goals x g e, select-waiting goals g.deps);
      zero_count = λ x m.
          let zero_count = starting-zero d x apart in
          (
            ground (arith, m, zero_count, contains-sort_texts x (starting d)),
            ground (
              arith,
              m,
              zero_count,
              contains-sort_texts x (starting d),
              indegrees-none goals goals x,
            ),
          );
      once = sort_texts-Unrepeated (starting d) (starting-Unrepeated d apart);
      present = λ x i. ground (arith, i, indegrees-none goals goals x);
      respects = tt;
    }
