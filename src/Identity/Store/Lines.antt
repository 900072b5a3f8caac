-- ===== src/Identity/Store/Lines.antt =====
-- What `RevocationStore` reads back of a line that it wrote.
use mathlib.Core.List.{append-nil, append_assoc}
use secdogie.Prelude.{
  any, string_eq, nat_eq, ℕ, ◌≡◌, refl, sym, ap, ◌∙◌, ◌≢◌, Bool, false, none, some, List, [], ◌∷◌,
  ◌++◌, arith,
}
use secdogie.Identity.Json.{Json}
use secdogie.Identity.Signing.{Crypto}
use secdogie.Identity.Store.{
  RevocationStore, is_break, Reading, unread, read_char, read_text, none_if_empty, splitlines,
  lstrip_line, rstrip_line, strip_line, kept_object, load_stripped, load_lines, load, append,
}

-- the JSON text of the object is one line, which json reads back
pub record IsOneLine (c : Crypto) (o : Json) : Type 0 where
  pub unbroken : any is_break (c.dumps o) ≡ false
  pub visible : strip_line (c.dumps o) ≢ []
  pub read_back : c.loads (strip_line (c.dumps o)) ≡ some o

-- the file, if there is one, has no last line that is torn
abbrev pub IsWhole : RevocationStore → Type 0
IsWhole none = Unit
IsWhole (some text) = (read_text unread text).torn ≡ []

read_text-append :
    (xs ys : List ℕ) (r : Reading) → read_text r (xs ++ ys) ≡ read_text (read_text r xs) ys
unfolding read_text
read_text-append [] ys r = refl
read_text-append (x ∷ xs) ys r = read_text-append xs ys (read_char r x)

-- a text without a break only makes the last line longer
read_text_unbroken :
    (xs : List ℕ) (r : Reading)
    → r.after_cr ≡ false
    → any is_break xs ≡ false
    → read_text r xs ≡ record r { torn = r.torn ++ xs }
unfolding read_text read_char
read_text_unbroken [] r e h = ap (λ (t : List ℕ). record r { torn = t }) (sym (append-nil r.torn))
read_text_unbroken (x ∷ xs) r e h =
    let plain : is_break x ≡ false = ground (arith, h) in
    let next : Reading = record r { torn = r.torn ++ x ∷ []; after_cr = false } in
    let step : read_char r x ≡ next = unfold read_char in ground (arith, e, plain) in
    ap (λ q. read_text q xs) step
    ∙ read_text_unbroken xs next refl (ground (arith, h))
    ∙ ap (λ (t : List ℕ). record next { torn = t }) (append_assoc r.torn (x ∷ []) xs)
    ∙ ap (λ (b : Bool). record r { torn = r.torn ++ x ∷ xs; after_cr = b }) (sym e)

read_text_cons :
    (x : ℕ) (xs : List ℕ) (r : Reading) → read_text r (x ∷ xs) ≡ read_text (read_char r x) xs
unfolding read_text
read_text_cons x xs r = refl

read_newline :
    (r : Reading)
    → r.after_cr ≡ false
    → read_text r (10 ∷ []) ≡ record { ended = r.ended ++ r.torn ∷ []; torn = []; after_cr = false }
unfolding read_text read_char
read_newline r e = ground (arith, e)

-- a line without a break, and then a newline
read_line :
    (xs : List ℕ) (r : Reading)
    → r.torn ≡ []
    → xs ≢ []
    → any is_break xs ≡ false
    → read_text r (xs ++ 10 ∷ [])
      ≡ record { ended = r.ended ++ xs ∷ []; torn = []; after_cr = false }
read_line [] r e some_text h = absurd (some_text refl)
read_line (x ∷ xs) r e some_text h =
    let plain : is_break x ≡ false = ground (arith, h) in
    let next : Reading = record r { torn = x ∷ []; after_cr = false } in
    let step : read_char r x ≡ next = unfold read_char in ground (arith, e, plain) in
    read_text-append (x ∷ xs) (10 ∷ []) r
    ∙ ap (λ q. read_text q (10 ∷ []))
        (read_text_cons x xs r
          ∙ ap (λ q. read_text q xs) step
          ∙ read_text_unbroken xs next refl (ground (arith, h)))
    ∙ read_newline (record next { torn = x ∷ xs }) refl

dumps_some : (c : Crypto) (o : Json) → IsOneLine c o → c.dumps o ≢ []
dumps_some c o h e =
    h.visible (ap strip_line e ∙ (unfold strip_line lstrip_line rstrip_line in refl))

module _ (c : Crypto) where
  load_lines-append :
      (xs ys : List (List ℕ)) → load_lines c (xs ++ ys) ≡ load_lines c xs ++ load_lines c ys
  unfolding load_lines
  load_lines-append [] ys = refl
  load_lines-append (x ∷ xs) ys =
      ap (λ r. load_stripped c (strip_line x) ++ r) (load_lines-append xs ys)
      ∙ sym (append_assoc (load_stripped c (strip_line x)) (load_lines c xs) (load_lines c ys))

  load_stripped_visible :
      (line : List ℕ) → line ≢ [] → load_stripped c line ≡ kept_object (c.loads line)
  unfolding load_stripped
  load_stripped_visible [] h = absurd (h refl)
  load_stripped_visible (x ∷ xs) h = refl

  load_written : (o : Json) → IsOneLine c o → load_lines c (c.dumps o ∷ []) ≡ kept_object (some o)
  unfolding load_lines
  load_written o h =
      append-nil (load_stripped c (strip_line (c.dumps o)))
      ∙ load_stripped_visible (strip_line (c.dumps o)) h.visible
      ∙ ap kept_object h.read_back

  -- the file read after one more line
  read_written :
      (text : List ℕ) (o : Json)
      → (read_text unread text).torn ≡ []
      → IsOneLine c o
      → read_text unread (text ++ (c.dumps o ++ 10 ∷ [])) ≡ record {
        ended = (read_text unread text).ended ++ c.dumps o ∷ [];
        torn = [];
        after_cr = false;
      }
  read_written text o whole h =
      read_text-append text (c.dumps o ++ 10 ∷ []) unread
      ∙ read_line (c.dumps o) (read_text unread text) whole (dumps_some c o h) h.unbroken

  pub append-IsWhole :
      (o : Json) (store : RevocationStore)
      → IsWhole store
      → IsOneLine c o
      → IsWhole (append c o store)
  unfolding append
  append-IsWhole o none whole h =
      ap (λ r. r.torn) (read_line (c.dumps o) unread refl (dumps_some c o h) h.unbroken)
  append-IsWhole o (some text) whole h = ap (λ r. r.torn) (read_written text o whole h)

  -- an appended object is read back after what the file held
  pub load-append :
      (o : Json) (store : RevocationStore)
      → IsWhole store
      → IsOneLine c o
      → load c (append c o store) ≡ load c store ++ kept_object (some o)
  unfolding append load splitlines
  load-append o none whole h =
      ap (λ r. load_lines c (r.ended ++ none_if_empty r.torn))
        (read_line (c.dumps o) unread refl (dumps_some c o h) h.unbroken)
      ∙ load_written o h
  load-append o (some text) whole h =
      let r = read_text unread text in
      ap (λ q. load_lines c (q.ended ++ none_if_empty q.torn)) (read_written text o whole h)
      ∙ ap (load_lines c) (append-nil (r.ended ++ c.dumps o ∷ []))
      ∙ load_lines-append r.ended (c.dumps o ∷ [])
      ∙ ap (λ y. load_lines c r.ended ++ y) (load_written o h)
      ∙ ap (λ (t : List (List ℕ)). load_lines c t ++ kept_object (some o))
          (sym (append-nil r.ended))
      ∙ ap (λ (t : List ℕ). load_lines c (r.ended ++ none_if_empty t) ++ kept_object (some o))
          (sym whole)
