-- ===== src/Citadel/Goals/Topological.antt =====
-- The order that `topo_order` returns.
use secdogie.Prelude.{
  Bool-cases, length, length-append, contains, string_eq, nat_eq, Dict, keys, Distinct, Unrepeated,
  contains-append, length-le_of_contains, Unrepeated-parts, contains-keys_of, length-keys_of, ℕ,
  zero, suc, ◌+◌, ◌≤◌, String, ◌≡◌, refl, sym, ap, ◌∙◌, subst, inl, inr, true, some, List, [], ◌∷◌,
  ◌++◌, arith,
}
use secdogie.Identity.Json.{Json}
use secdogie.Citadel.Goals.{
  Goals, build_goal_tree, sort_texts, is_goal, indegrees, starting, kahn, topo_order,
}
use secdogie.Citadel.Goals.Order.{Respects, Sound, next_indeg, next_queue, next-Sound}
use secdogie.Citadel.Goals.Start.{start-Sound}
use secdogie.Citadel.Goals.Built.{build-Distinct}

module _ (goals : Goals) (distinct : Distinct goals) where
  -- the state stays sound up to the end of the loop
  kahn-Sound :
      (fuel : ℕ) (indeg : Dict String ℕ) (queue order : List String)
      → Sound goals indeg queue order
      → (end_indeg : Dict String ℕ) × (end_queue : List String) × Sound goals end_indeg end_queue
          (kahn fuel goals indeg queue order)
  unfolding kahn
  kahn-Sound zero indeg queue order h = (indeg, queue, h)
  kahn-Sound (suc fuel) indeg [] order h = (indeg, [], h)
  kahn-Sound (suc fuel) indeg (gid ∷ queue) order h =
      kahn-Sound fuel _ _ (order ++ gid ∷ [])
        (unfold next_indeg next_queue in next-Sound goals distinct indeg gid queue order h)

  -- no more than the goals are in the order and the queue
  within_goals :
      (indeg : Dict String ℕ) (queue order : List String)
      → Sound goals indeg queue order
      → length order + length queue ≤ length goals
  within_goals indeg queue order h =
      let few = length-le_of_contains (order ++ queue) (keys goals) h.once λ k m.
        let known = h.zero_count k in
        ground (arith, known, m, contains-append k order queue, contains-keys_of k goals) in
      omega (arith, few, length-append order queue, length-keys_of goals)

  kahn_done :
      (fuel : ℕ) (indeg : Dict String ℕ) (order : List String)
      → kahn fuel goals indeg [] order ≡ order
  unfolding kahn
  kahn_done zero indeg order = refl
  kahn_done (suc fuel) indeg order = refl

  empty_queue : (queue : List String) → length queue ≡ 0 → queue ≡ []
  empty_queue [] h = refl
  empty_queue (x ∷ xs) h = absurd (ground (arith, h))

  -- with as many rounds as there are goals the queue runs empty, so that more change nothing
  kahn_enough :
      (fuel extra : ℕ) (indeg : Dict String ℕ) (queue order : List String)
      → Sound goals indeg queue order
      → length goals ≤ length order + fuel
      → kahn (fuel + extra) goals indeg queue order ≡ kahn fuel goals indeg queue order
  unfolding kahn
  kahn_enough zero extra indeg queue order h enough =
      let few = within_goals indeg queue order h in
      let over : queue ≡ [] = empty_queue queue (omega (arith, few, enough)) in
      let e : zero + extra ≡ extra = omega arith in rw e (rw over (kahn_done extra indeg order))
  kahn_enough (suc fuel) extra indeg [] order h enough = kahn_done (suc fuel + extra) indeg order
  kahn_enough (suc fuel) extra indeg (gid ∷ queue) order h enough =
      let e : suc fuel + extra ≡ suc (fuel + extra) = omega arith in
      rw e (
        kahn_enough fuel extra _ _ (order ++ gid ∷ [])
          (unfold next_indeg next_queue in next-Sound goals distinct indeg gid queue order h)
          (omega (arith, enough, length-append order (gid ∷ []))))

-- as many different goals as there are, are all of them
all_of_them :
    (goals : Goals) (xs : List String) (x : String)
    → Unrepeated xs
    → ((k : String) → contains k xs ≡ true → is_goal goals k ≡ true)
    → length xs ≡ length goals
    → contains x xs ≡ is_goal goals x
all_of_them goals xs x once known full = elim (Bool-cases (contains x xs)) [
  | inl m ↦ ground (arith, m, known x m)
  | inr n ↦ elim (Bool-cases (is_goal goals x)) [
    | inl g ↦
        let more =
          length-le_of_contains (x ∷ xs) (keys goals) (n, once)
            λ k m. ground (
              arith,
              m,
              g,
              known k,
              contains-keys_of k goals,
              string_eq.beq_iff x k,
              ap (is_goal goals) {x = x} {y = k},
            ) in
        absurd (omega (arith, more, full, length-keys_of goals))
    | inr f ↦ ground (arith, n, f)
  ]
]

in_order :
    (goals : Goals) (order : List String)
    → Distinct goals
    → topo_order goals ≡ some order
    → Respects goals [] order
      × Unrepeated order
      × ((x : String) → contains x order ≡ is_goal goals x)
      × ((extra : ℕ)
          → kahn
              (length goals + extra)
              goals
              (indegrees goals goals)
              (sort_texts (starting (indegrees goals goals)))
              []
            ≡ order)
unfolding topo_order
in_order goals order distinct e =
    let d = indegrees goals goals in
    let queue = sort_texts (starting d) in
    let begun = start-Sound goals distinct in
    let whole = kahn (length goals) goals d queue [] in
    let same : whole ≡ order = ground (arith, e) in
    let full : length whole ≡ length goals = ground (arith, e) in
    let (end_indeg, end_queue, done) = kahn-Sound goals distinct (length goals) d queue [] begun in
    let (once, _, _) = Unrepeated-parts whole end_queue done.once in
    let known : (x : String) → contains x whole ≡ is_goal goals x =
      λ x. all_of_them goals whole x once (λ k m. (done.zero_count k (ground (arith, m))).1) full in
    (
      subst (Respects goals []) same done.respects,
      subst Unrepeated same once,
      λ x. ap (contains x) (sym same) ∙ known x,
      λ extra.
          kahn_enough goals distinct (length goals) extra d queue [] begun (omega arith) ∙ same,
    )

-- When `topo_order` returns on the goal tree that any events build, its order has every goal exactly once
-- and nothing else, and all the goals that a goal depends on stand before it. With the rounds that the
-- model gives it, the loop has emptied its queue: any more of them lead to the same order.
pub deps_come_first :
    (to_str : Json → String) (events : List Json) (order : List String)
    → let goals = build_goal_tree to_str [] events in
      topo_order goals ≡ some order
      → Respects goals [] order
        × Unrepeated order
        × ((x : String) → contains x order ≡ is_goal goals x)
        × ((extra : ℕ)
            → kahn
                (length goals + extra)
                goals
                (indegrees goals goals)
                (sort_texts (starting (indegrees goals goals)))
                []
              ≡ order)
deps_come_first to_str events order e =
    in_order (build_goal_tree to_str [] events) order (build-Distinct to_str events [] tt) e
