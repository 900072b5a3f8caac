-- ===== src/Citadel/Goals/Built.antt =====
-- A goal tree that events build holds no goal twice.
use secdogie.Prelude.{
  either_way, option_either, string_eq, nat_eq, lookup, put, Distinct, put-Distinct,
  remove-Distinct, nonempty, String, List, [], ◌∷◌,
}
use secdogie.Identity.Json.{Json, null, bool, num, str, arr, obj, Fields, member, as_str}
use secdogie.Citadel.Goals.{
  Goals, updated, apply_op, apply_body, is_goal_event, apply_event, build_goal_tree,
}

module _ (to_str : Json → String) where
  op-Distinct :
      (goals : Goals) (body : Fields) (op gid : String)
      → Distinct goals
      → Distinct (apply_op to_str goals body op gid)
  unfolding apply_op
  op-Distinct goals body op gid h =
      let P = λ (d : Goals). Distinct d in
      either_way P (string_eq.beq op "add") _ _ (λ e. put-Distinct gid _ goals h)
        λ e.
          either_way P (string_eq.beq op "update") _ _
            (λ e.
              option_either P (lookup gid goals) goals (λ g. put gid (updated to_str body g) goals)
                h λ g. put-Distinct gid (updated to_str body g) goals h)
            λ e.
              either_way P (string_eq.beq op "complete") _ _
                (λ e.
                  option_either P (lookup gid goals) goals
                    (λ g. put gid (record g { status = "done" }) goals) h
                    λ g. put-Distinct gid (record g { status = "done" }) goals h)
                λ e.
                  either_way P (string_eq.beq op "remove") _ _ (λ e. remove-Distinct gid goals h)
                    λ e. h

  body-Distinct : (goals : Goals) (o : Json) → Distinct goals → Distinct (apply_body to_str goals o)
  unfolding apply_body
  body-Distinct goals (obj body) h =
      let P = λ (d : Goals). Distinct d in
      option_either P (as_str (member "id" body)) goals _ h λ gid.
        either_way P (nonempty gid) _ goals
          (λ e.
            option_either P (as_str (member "op" body)) goals
              (λ op. apply_op to_str goals body op gid) h λ op. op-Distinct goals body op gid h)
          λ e. h
  body-Distinct goals null h = h
  body-Distinct goals (bool b) h = h
  body-Distinct goals (num n) h = h
  body-Distinct goals (str s) h = h
  body-Distinct goals (arr xs) h = h

  event-Distinct :
      (goals : Goals) (e : Json) → Distinct goals → Distinct (apply_event to_str goals e)
  unfolding apply_event
  event-Distinct goals (obj e) h =
      let P = λ (d : Goals). Distinct d in
      either_way P (is_goal_event to_str e) _ goals
        (λ t.
          option_either P (member "body" e) goals (apply_body to_str goals) h
            λ o. body-Distinct goals o h)
        λ t. h
  event-Distinct goals null h = h
  event-Distinct goals (bool b) h = h
  event-Distinct goals (num n) h = h
  event-Distinct goals (str s) h = h
  event-Distinct goals (arr xs) h = h

  pub build-Distinct :
      (events : List Json) (goals : Goals)
      → Distinct goals
      → Distinct (build_goal_tree to_str goals events)
  unfolding build_goal_tree
  build-Distinct [] goals h = h
  build-Distinct (e ∷ events) goals h =
      build-Distinct events (apply_event to_str goals e) (event-Distinct goals e h)
