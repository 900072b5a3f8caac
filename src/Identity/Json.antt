-- ===== src/Identity/Json.antt =====
-- The untrusted JSON objects that the mesh exchanges. A number is a natural number: the counts,
-- generations and clock ticks that the checks read.
use secdogie.Prelude.{
  if◌then◌else◌, nat_eq, string_eq, contains, ℕ, String, ◌≡◌, refl, ap, Bool, Option, none, some,
  List, [], ◌∷◌, arith,
}

mutual
  pub data Json : Type 0 where
    null : Json
    bool : Bool → Json
    num : ℕ → Json
    str : String → Json
    arr : Items → Json
    obj : Fields → Json

  pub data Items : Type 0 where
    nil : Items
    cons : Json → Items → Items

  pub data Fields : Type 0 where
    end : Fields
    field : String → Json → Fields → Fields

abbrev pub elements : Items → List Json
elements nil = []
elements (cons x xs) = x ∷ elements xs

-- obj.get(k)
unfoldable pub member : String → Fields → Option Json
member k end = none
member k (field j v fs) = if string_eq.beq j k then some v else member k fs

-- {k: v for k, v in obj.items() if k not in names}
unfoldable pub without : List String → Fields → Fields
without names end = end
without names (field j v fs) =
    let rest = without names fs in if contains j names then rest else field j v rest

-- `isinstance(v, str)` and its like, with the value
abbrev pub as_str : Option Json → Option String
as_str (some (str s)) = some s
as_str _ = none

abbrev pub as_num : Option Json → Option ℕ
as_num (some (num n)) = some n
as_num _ = none

abbrev pub as_list : Option Json → Option (List Json)
as_list (some (arr xs)) = some (elements xs)
as_list _ = none

abbrev pub as_fields : Option Json → Option Fields
as_fields (some (obj fs)) = some fs
as_fields _ = none

-- all the elements, if each is a text
unfoldable pub texts : List Json → Option (List String)
texts [] = some []
texts (str s ∷ xs) = elim (texts xs) [ none ↦ none | some ss ↦ some (s ∷ ss) ]
texts (_ ∷ xs) = none

abbrev pub str_items : List String → Items
str_items [] = nil
str_items (s ∷ ss) = cons (str s) (str_items ss)

abbrev pub json_items : List Json → Items
json_items [] = nil
json_items (x ∷ xs) = cons x (json_items xs)

pub elements-json_items : (xs : List Json) → elements (json_items xs) ≡ xs
elements-json_items [] = refl
elements-json_items (x ∷ xs) = ap (◌∷◌ x) (elements-json_items xs)

pub texts-str_items : (ss : List String) → texts (elements (str_items ss)) ≡ some ss
unfolding texts
texts-str_items [] = refl
texts-str_items (s ∷ ss) = ground (arith, texts-str_items ss)
