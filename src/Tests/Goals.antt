-- ===== src/Tests/Goals.antt =====
-- A goal tree of three goals, and one whose goal lists a dependency twice.
use secdogie.Prelude.{
  length, contains, string_eq, nat_eq, lookup, get_or, put, Unrepeated, ℕ, ◌+◌, String, ◌≡◌, refl,
  ap, ◌∙◌, true, some, List, [], ◌∷◌,
}
use secdogie.Identity.Json.{Json, str, arr, obj, end, field, member, str_items}
use secdogie.Citadel.Goals.{
  Goal, Goals, norm_status, named, norm_deps, apply_op, apply_body, apply_event, build_goal_tree,
  insert_text, sort_texts, is_goal, indegrees, starting, relax, kahn, topo_order, has_cycle,
}
use secdogie.Citadel.Goals.Order.{Respects}
use secdogie.Citadel.Goals.Topological.{deps_come_first}

abbrev goal_on : List String → Goal
goal_on deps = record { title = ""; status = "pending"; deps = deps }

abbrev three : Goals
three =
    ("b", goal_on ("a" ∷ "gone" ∷ [])) ∷ ("a", goal_on []) ∷ ("c", goal_on ("b" ∷ "a" ∷ [])) ∷ []

three_ordered : topo_order three ≡ some ("a" ∷ "b" ∷ "c" ∷ [])
unfolding topo_order kahn indegrees starting sort_texts insert_text relax lookup get_or put
three_ordered = refl

-- b lists a twice: its count never becomes 0
twice_is_a_cycle : has_cycle (("a", goal_on []) ∷ ("b", goal_on ("a" ∷ "a" ∷ [])) ∷ []) ≡ true
unfolding has_cycle topo_order kahn indegrees starting sort_texts insert_text relax lookup get_or
    put
twice_is_a_cycle = refl

abbrev ids : List String → Json
ids ds = arr (str_items ds)

abbrev add_event : String → List String → Json
add_event id deps = obj (
    field "kind" (str "goal") (
      field "body"
        (obj (field "op" (str "add") (field "id" (str id) (field "deps" (ids deps) end)))) end))

abbrev plain_text : Json → String
plain_text (str s) = s
plain_text _ = ""

abbrev history : List Json
history = add_event "b" ("a" ∷ "gone" ∷ []) ∷ add_event "a" [] ∷ add_event "c" ("b" ∷ "a" ∷ []) ∷ []

history_builds : build_goal_tree plain_text [] history ≡ three
unfolding build_goal_tree apply_event apply_body apply_op norm_status norm_deps named put member
history_builds = refl

abbrev abc : List String
abc = "a" ∷ "b" ∷ "c" ∷ []

deps_come_first_example :
    let goals = build_goal_tree plain_text [] history in
    Respects goals [] abc
    × Unrepeated abc
    × ((x : String) → contains x abc ≡ is_goal goals x)
    × ((extra : ℕ)
        → kahn
            (length goals + extra)
            goals
            (indegrees goals goals)
            (sort_texts (starting (indegrees goals goals)))
            []
          ≡ abc)
deps_come_first_example =
    deps_come_first plain_text history abc (ap topo_order history_builds ∙ three_ordered)
