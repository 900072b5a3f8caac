-- ===== src/Citadel/Goals/Order.antt =====
-- The order of the goals: each one stands behind those that it depends on.
use mathlib.Core.List.{append_assoc}
use secdogie.Prelude.{
  nat_beq, if◌then◌else◌, is_none, length, select, contains, string_eq, nat_eq, Dict, lookup,
  get_or, Distinct, Unrepeated, contains-append, Unrepeated-parts, append-Unrepeated, ℕ, ◌+◌, ◌≤◌,
  String, ◌≡◌, sym, ap, ◌∙◌, subst, true, false, not, ◌&&◌, ◌||◌, some, List, [], ◌∷◌, ◌++◌, arith,
}
use secdogie.Citadel.Goals.{Goal, Goals, sort_texts, is_goal, relax}
use secdogie.Citadel.Goals.Relax.{
  contains-sort_texts, sort_texts-Unrepeated, hit, Relaxed, relax-Relaxed,
}

-- the goals that a goal depends on are among those before it
abbrev pub Follows : Goals → List String → String → Type 0
Follows goals before gid =
    (g : Goal) (d : String)
    → lookup gid goals ≡ some g
    → contains d g.deps ≡ true
    → is_goal goals d ≡ true
    → contains d before ≡ true

-- so it is for each of a list, behind some that are before them all
abbrev pub Respects : Goals → List String → List String → Type 0
Respects goals before [] = Unit
Respects goals before (gid ∷ rest) =
    Follows goals before gid × Respects goals (before ++ gid ∷ []) rest

module _ (goals : Goals) where
  Respects-snoc :
      (before xs : List String) (gid : String)
      → Respects goals before xs
      → Follows goals (before ++ xs) gid
      → Respects goals before (xs ++ gid ∷ [])
  Respects-snoc before [] gid r f =
      (λ g d e m i. ground (arith, f g d e m i, contains-append d before []), tt)
  Respects-snoc before (x ∷ xs) gid r f = (
    r.0,
    Respects-snoc (before ++ x ∷ []) xs gid r.1
        (subst (λ l. Follows goals l gid) (sym (append_assoc before (x ∷ []) xs)) f),
  )

  -- how many of some deps are goals that the order does not have yet
  unfoldable pub waiting : List String → List String → ℕ
  waiting order deps = length (select (λ d. is_goal goals d && not (contains d order)) deps)

  waiting-snoc :
      (order deps : List String) (gid : String)
      → is_goal goals gid ≡ true
      → contains gid order ≡ false
      → waiting (order ++ gid ∷ []) deps + (if contains gid deps then 1 else 0) ≤ waiting order deps
  unfolding waiting
  waiting-snoc order [] gid i n = omega arith
  waiting-snoc order (d ∷ deps) gid i n = ground (
    arith,
    i,
    n,
    waiting-snoc order deps gid i n,
    contains-append d order (gid ∷ []),
    string_eq.beq_iff d gid,
    string_eq.beq_iff gid d,
    ap (λ k. contains k order) {x = d} {y = gid},
    ap (is_goal goals) {x = d} {y = gid},
  )

  waiting_none :
      (order deps : List String) (d : String)
      → waiting order deps ≡ 0
      → contains d deps ≡ true
      → is_goal goals d ≡ true
      → contains d order ≡ true
  unfolding waiting
  waiting_none order [] d w m i = absurd (ground (arith, m))
  waiting_none order (x ∷ deps) d w m i = ground (
    arith,
    w,
    m,
    i,
    waiting_none order deps d,
    string_eq.beq_iff x d,
    ap (λ k. contains k order) {x = x} {y = d},
    ap (is_goal goals) {x = x} {y = d},
  )

  -- the state of the loop
  pub record Sound (indeg : Dict String ℕ) (queue order : List String) : Type 0 where
    pub counts :
        (x : String) (g : Goal) → lookup x goals ≡ some g → waiting order g.deps ≤ get_or x 0 indeg
    pub zero_count :
        (x : String)
        → (contains x order || contains x queue) ≡ true
        → (get_or x 0 indeg ≡ 0) × (is_goal goals x ≡ true)
    pub once : Unrepeated (order ++ queue)
    pub present : (x : String) → is_goal goals x ≡ true → is_none (lookup x indeg) ≡ false
    pub respects : Respects goals [] order

  module _ (distinct : Distinct goals) (indeg : Dict String ℕ) (gid : String)
      (queue order : List String) (h : Sound indeg (gid ∷ queue) order) where
    r : Relaxed gid goals indeg (relax gid goals indeg)
    r = relax-Relaxed gid goals indeg distinct

    unfoldable pub next_indeg : Dict String ℕ
    next_indeg = (relax gid goals indeg).0

    unfoldable pub next_queue : List String
    next_queue = sort_texts (queue ++ (relax gid goals indeg).1)

    -- the goal at the head, behind the order, and the rest of the queue
    parts :
        Unrepeated (order ++ gid ∷ [])
        × Unrepeated queue
        × ((k : String) → contains k queue ≡ true → contains k (order ++ gid ∷ []) ≡ false)
    parts =
        Unrepeated-parts (order ++ gid ∷ []) queue
          (subst Unrepeated (sym (append_assoc order (gid ∷ []) queue)) h.once)

    head_new : contains gid order ≡ false
    head_new =
        let (left, right, apart) = Unrepeated-parts order (gid ∷ []) parts.0 in
        apart gid (ground (arith, string_eq.beq_iff gid gid))

    head_goal : (get_or gid 0 indeg ≡ 0) × (is_goal goals gid ≡ true)
    head_goal = h.zero_count gid (ground (arith, string_eq.beq_iff gid gid))

    follows : Follows goals order gid
    follows g d e m i =
        let low = h.counts gid g e in
        let zero_head = head_goal.0 in
        waiting_none order g.deps d (omega (arith, low, zero_head)) m i

    next_counts :
        (x : String) (g : Goal)
        → lookup x goals ≡ some g
        → waiting (order ++ gid ∷ []) g.deps ≤ get_or x 0 next_indeg
    unfolding next_indeg
    next_counts x g e =
        let count = r.count x in
        let low = h.counts x g e in
        let known = h.present x (ground (arith, e)) in
        let fewer = waiting-snoc order g.deps gid head_goal.1 head_new in
        ground (arith, count, low, known, fewer, e)

    in_next :
        (x : String)
        → (contains x (order ++ gid ∷ []) || contains x next_queue) ≡ (
            contains x order
            || (string_eq.beq gid x || contains x queue)
            || (hit gid goals indeg x && nat_beq (get_or x 0 indeg) 1))
    unfolding next_queue
    in_next x =
        let released = r.released x in
        ground (
          arith,
          released,
          contains-append x order (gid ∷ []),
          contains-sort_texts x (queue ++ (relax gid goals indeg).1),
          contains-append x queue (relax gid goals indeg).1,
        )

    next_zero :
        (x : String)
        → (contains x (order ++ gid ∷ []) || contains x next_queue) ≡ true
        → (get_or x 0 next_indeg ≡ 0) × (is_goal goals x ≡ true)
    unfolding next_indeg
    next_zero x m =
        let count = r.count x in
        let old = h.zero_count x in
        (ground (arith, count, old, m, in_next x), ground (arith, old, m, in_next x))

    next_once : Unrepeated ((order ++ gid ∷ []) ++ next_queue)
    unfolding next_queue
    next_once =
        let released = (relax gid goals indeg).1 in
        let (left, right, apart) = parts in
        let old = λ (k : String) (m : contains k released ≡ true).
          (let one = r.released k in
            let zero_if = h.zero_count k in
            let here : (contains k order || contains k (gid ∷ queue)) ≡ false =
              ground (arith, m, one, zero_if) in
            here) in
        append-Unrepeated (order ++ gid ∷ []) next_queue left
          (sort_texts-Unrepeated (queue ++ released)
            (append-Unrepeated queue released right r.once λ k m. ground (arith, old k m)))
          λ k m. ground (
            arith,
            m,
            contains-sort_texts k (queue ++ released),
            contains-append k queue released,
            apart k,
            old k,
            contains-append k order (gid ∷ []),
          )

    pub next-Sound : Sound next_indeg next_queue (order ++ gid ∷ [])
    unfolding next_indeg
    next-Sound = record {
      counts = next_counts;
      zero_count = next_zero;
      once = next_once;
      present = λ x i. r.present x ∙ h.present x i;
      respects = Respects-snoc [] order gid h.respects follows;
    }
