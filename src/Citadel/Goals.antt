-- ===== src/Citadel/Goals.antt =====
-- The goal tree of citadel/secdogie_citadel/goals.py: the fold of goal events, what is ready, and the
-- order of the goals.
pub mod Relax
pub mod Order
pub mod Start
pub mod Built
pub mod Topological
use Prim.Native.String.{compare}
use Prim.Native.Nat.{Ordering}
use secdogie.Prelude.{
  nat_beq, if◌then◌else◌, is_none, length, select, all, contains, string_eq, nat_eq, Dict, lookup,
  get_or, put, remove, nonempty, ℕ, zero, suc, ◌-◌, String, Bool, false, not, ◌&&◌, Option, none,
  some, List, [], ◌∷◌, ◌++◌,
}
use secdogie.Identity.Json.{Json, str, arr, obj, Fields, elements, member, as_str}

abbrev pub statuses : List String
statuses = "pending" ∷ "active" ∷ "done" ∷ "failed" ∷ []

pub record Goal : Type 0 where
  pub title : String
  pub status : String
  pub deps : List String

abbrev pub Goals : Type 0
Goals = Dict String Goal

module _ (to_str : Json → String) where
  -- `_norm_status` of a value, with Python's `str` as a parameter
  unfoldable pub norm_status : Json → String
  norm_status value = if contains (to_str value) statuses then to_str value else "pending"

  -- the texts of a list that are not empty
  unfoldable pub named : List Json → List String
  named [] = []
  named (str s ∷ xs) = if nonempty s then s ∷ named xs else named xs
  named (_ ∷ xs) = named xs

  -- `_norm_deps`
  unfoldable pub norm_deps : Option Json → List String
  unfolding named
  norm_deps (some (arr xs)) = named (elements xs)
  norm_deps _ = []

  abbrev or_value : Json → Option Json → Json
  or_value d none = d
  or_value d (some v) = v

  -- what an `update` leaves of a goal
  unfoldable pub updated : Fields → Goal → Goal
  unfolding norm_status norm_deps
  updated body g = record {
    title = elim (member "title" body) [ none ↦ g.title | some v ↦ to_str v ];
    status = elim (member "status" body) [ none ↦ g.status | some v ↦ norm_status v ];
    deps = elim (member "deps" body) [ none ↦ g.deps | some v ↦ norm_deps (some v) ];
  }

  unfoldable pub apply_op : Goals → Fields → String → String → Goals
  unfolding updated
  apply_op goals body op gid =
      if string_eq.beq op "add"
      then put gid
          (record {
            title = to_str (or_value (str "") (member "title" body));
            status = norm_status (or_value (str "pending") (member "status" body));
            deps = norm_deps (member "deps" body);
          })
          goals
      else if string_eq.beq op "update"
      then elim (lookup gid goals) [ none ↦ goals | some g ↦ put gid (updated body g) goals ]
      else if string_eq.beq op "complete"
      then elim (lookup gid goals) [
        | none ↦ goals
        | some g ↦ put gid (record g { status = "done" }) goals
      ]
      else if string_eq.beq op "remove"
      then remove gid goals
      else goals

  -- `GoalTree.apply`
  unfoldable pub apply_body : Goals → Json → Goals
  unfolding apply_op
  apply_body goals (obj body) = elim (as_str (member "id" body)) [
    | none ↦ goals
    | some gid ↦
        if nonempty gid
        then elim (as_str (member "op" body)) [
          | none ↦ goals
          | some op ↦ apply_op goals body op gid
        ]
        else goals
  ]
  apply_body goals _ = goals

  abbrev pub is_goal_event : Fields → Bool
  is_goal_event e = elim (as_str (member "kind" e)) [
    | none ↦ false
    | some kind ↦ string_eq.beq kind "goal"
  ]

  -- one event of `build_goal_tree`
  unfoldable pub apply_event : Goals → Json → Goals
  unfolding apply_body
  apply_event goals (obj e) =
      if is_goal_event e
      then elim (member "body" e) [ none ↦ goals | some body ↦ apply_body goals body ]
      else goals
  apply_event goals _ = goals

  -- `build_goal_tree`, from some goals on
  unfoldable pub build_goal_tree : Goals → List Json → Goals
  unfolding apply_event
  build_goal_tree goals [] = goals
  build_goal_tree goals (e ∷ events) = build_goal_tree (apply_event goals e) events

abbrev pub is_done : Option Goal → Bool
is_done none = false
is_done (some g) = string_eq.beq g.status "done"

-- `GoalTree.ready`
unfoldable pub ready_from : Goals → Goals → List String
ready_from goals [] = []
ready_from goals ((gid, g) ∷ rest) =
    let more = ready_from goals rest in
    if string_eq.beq g.status "pending" && all (λ d. is_done (lookup d goals)) g.deps
    then gid ∷ more
    else more

unfoldable pub ready : Goals → List String
unfolding ready_from
ready goals = ready_from goals goals

-- list.sort() on texts
unfoldable pub insert_text : String → List String → List String
insert_text x [] = x ∷ []
insert_text x (y ∷ ys) =
    let rest = insert_text x ys in elim (compare x y) [ Ordering.gt ↦ y ∷ rest | _ ↦ x ∷ y ∷ ys ]

unfoldable pub sort_texts : List String → List String
unfolding insert_text
sort_texts [] = []
sort_texts (x ∷ xs) = insert_text x (sort_texts xs)

abbrev pub is_goal : Goals → String → Bool
is_goal goals gid = not (is_none (lookup gid goals))

-- indeg: how many of its deps, counted as often as they are listed, are goals
unfoldable pub indegrees : Goals → Goals → Dict String ℕ
indegrees goals [] = []
indegrees goals ((gid, g) ∷ rest) =
    (gid, length (select (is_goal goals) g.deps)) ∷ indegrees goals rest

unfoldable pub starting : Dict String ℕ → List String
starting [] = []
starting ((gid, n) ∷ rest) = let more = starting rest in if nat_beq n 0 then gid ∷ more else more

-- one round of the inner loop: a count goes down; a goal whose count becomes 0 is released. A count that
-- is 0 would become negative, and is never 0 again.
unfoldable pub relax : String → Goals → Dict String ℕ → Dict String ℕ × List String
relax gid [] indeg = (indeg, [])
relax gid ((other, g) ∷ rest) indeg =
    let n = get_or other 0 indeg in
    let hit = contains gid g.deps && not (is_none (lookup other indeg)) in
    let (indeg', more) = relax gid rest (if hit then put other (n - 1) indeg else indeg) in
    (indeg', if hit && nat_beq n 1 then other ∷ more else more)

-- the loop over the queue, at most `fuel` times
unfoldable pub kahn : ℕ → Goals → Dict String ℕ → List String → List String → List String
unfolding relax sort_texts
kahn zero goals indeg queue order = order
kahn (suc fuel) goals indeg [] order = order
kahn (suc fuel) goals indeg (gid ∷ queue) order =
    let (indeg', released) = relax gid goals indeg in
    kahn fuel goals indeg' (sort_texts (queue ++ released)) (order ++ gid ∷ [])

-- `topo_order`; `none` where it raises
unfoldable pub topo_order : Goals → Option (List String)
unfolding kahn starting indegrees
topo_order goals =
    let indeg = indegrees goals goals in
    let order = kahn (length goals) goals indeg (sort_texts (starting indeg)) [] in
    if nat_beq (length order) (length goals) then some order else none

unfoldable pub has_cycle : Goals → Bool
unfolding topo_order
has_cycle goals = is_none (topo_order goals)
