-- ===== src/Identity/Store.antt =====
-- The store file of a policy: `RevocationStore` of identity/secdogie_identity/policy.py. A text is a
-- list of code points, all of which UTF-8 encodes. What json.dumps and json.loads do is a parameter,
-- among those of `Crypto`.
pub mod Lines
use mathlib.Core.Option
use secdogie.Prelude.{
  leb, nat_beq, if◌then◌else◌, length, string_eq, nat_eq, ℕ, Bool, false, ◌&&◌, ◌||◌, Option, none,
  some, List, [], ◌∷◌, ◌++◌,
}
use secdogie.Identity.Json.{Json, obj}
use secdogie.Identity.Signing.{Crypto}

-- The text of the file, `none` where there is no file.
abbrev pub RevocationStore : Type 0
RevocationStore = Option (List ℕ)

-- The store is append-only, so its size stands for (mtime, size).
abbrev pub stamp : RevocationStore → Option ℕ
stamp none = none
stamp (some text) = some (length text)

-- the code points at which `splitlines` ends a line
abbrev pub is_break : ℕ → Bool
is_break x =
    leb 10 x && leb x 13
    || leb 28 x && leb x 30
    || nat_beq x 133
    || nat_beq x 8232
    || nat_beq x 8233

-- and those that `strip` takes away
abbrev pub is_blank : ℕ → Bool
is_blank x =
    is_break x
    || nat_beq x 9
    || nat_beq x 31
    || nat_beq x 32
    || nat_beq x 160
    || nat_beq x 5760
    || leb 8192 x && leb x 8202
    || nat_beq x 8239
    || nat_beq x 8287
    || nat_beq x 12288

-- a text read so far: its ended lines, the line that is not, and whether a CR came last
pub record Reading : Type 0 where
  pub ended : List (List ℕ)
  pub torn : List ℕ
  pub after_cr : Bool

abbrev pub unread : Reading
unread = record { ended = []; torn = []; after_cr = false }

-- CR LF ends one line
unfoldable pub read_char : Reading → ℕ → Reading
read_char r x =
    if r.after_cr && nat_beq x 10
    then record r { after_cr = false }
    else if is_break x
    then record { ended = r.ended ++ r.torn ∷ []; torn = []; after_cr = nat_beq x 13 }
    else record r { torn = r.torn ++ x ∷ []; after_cr = false }

unfoldable pub read_text : Reading → List ℕ → Reading
unfolding read_char
read_text r [] = r
read_text r (x ∷ xs) = read_text (read_char r x) xs

abbrev pub none_if_empty : List ℕ → List (List ℕ)
none_if_empty [] = []
none_if_empty (x ∷ xs) = (x ∷ xs) ∷ []

-- str.splitlines(), over the universal newlines of `read_text`
unfoldable pub splitlines : List ℕ → List (List ℕ)
unfolding read_text
splitlines text = let r = read_text unread text in r.ended ++ none_if_empty r.torn

unfoldable pub lstrip_line : List ℕ → List ℕ
lstrip_line [] = []
lstrip_line (x ∷ xs) = let rest = lstrip_line xs in if is_blank x then rest else x ∷ xs

unfoldable pub rstrip_line : List ℕ → List ℕ
rstrip_line [] = []
rstrip_line (x ∷ xs) = elim (rstrip_line xs) [
  | [] ↦ (if is_blank x then [] else x ∷ [])
  | y ∷ ys ↦ x ∷ y ∷ ys
]

-- str.strip()
unfoldable pub strip_line : List ℕ → List ℕ
unfolding lstrip_line rstrip_line
strip_line line = rstrip_line (lstrip_line line)

-- what `load` keeps of a value: an object
abbrev pub kept_object : Option Json → List Json
kept_object (some (obj fs)) = obj fs ∷ []
kept_object _ = []

module _ (c : Crypto) where
  -- one line that is stripped; an empty one is passed over
  unfoldable pub load_stripped : List ℕ → List Json
  load_stripped [] = []
  load_stripped (x ∷ xs) = kept_object (c.loads (x ∷ xs))

  unfoldable pub load_lines : List (List ℕ) → List Json
  unfolding load_stripped strip_line
  load_lines [] = []
  load_lines (line ∷ lines) = load_stripped (strip_line line) ++ load_lines lines

  -- the objects on the lines; a torn or garbled line never blocks the rest
  unfoldable pub load : RevocationStore → List Json
  unfolding load_lines splitlines
  load none = []
  load (some text) = load_lines (splitlines text)

  -- the JSON text of the object and a newline at the end of the file, which is created if missing
  unfoldable pub append : Json → RevocationStore → RevocationStore
  append o none = some (c.dumps o ++ 10 ∷ [])
  append o (some text) = some (text ++ (c.dumps o ++ 10 ∷ []))
