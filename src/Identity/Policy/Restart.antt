-- ===== src/Identity/Policy/Restart.antt =====
-- What a policy appends to its store is enough to rebuild it after a restart.
use mathlib.Core.Option
use secdogie.Prelude.{
  Option-cases, any, All, All-append, any-append, contains, string_eq, nat_eq, lookup, String, ◌≡◌,
  refl, sym, ap, ◌∙◌, subst, ◌⊎◌, inl, inr, true, false, ◌||◌, Option, none, some, List, [], ◌∷◌,
  arith,
}
use secdogie.Identity.Json.{Json, obj}
use secdogie.Identity.Signing.{Crypto}
use secdogie.Identity.Revocation.{MasterSet, RevocationRecord, verify_revocation}
use secdogie.Identity.Store.{RevocationStore, kept_object, load, append}
use secdogie.Identity.Store.Lines.{IsOneLine, IsWhole, append-IsWhole, load-append}
use secdogie.Identity.Policy.{
  TrustPolicy, trusts, notify, admit, merge_record, verified_by, merge, apply, merge_all,
  open_policy,
}
use secdogie.Identity.Policy.Union.{
  revokes, CommitsTo, Holds, merge_record_new, merge_record_held, Tracks, revoked-merge,
}
use secdogie.Identity.Policy.Trust.{
  apply_all, apply-Tracks, apply_all-Tracks, open_policy-Tracks, revoked-open_policy,
}

-- an object that the policy accepts has a JSON text of one line, which json reads back
abbrev pub WrittenOnALine : Crypto → Option MasterSet → Json → Type 0
WrittenOnALine c masters o =
    (r : RevocationRecord) → verified_by c masters o ≡ some r → IsOneLine c o

module _ (c : Crypto) where
  any-kept_object :
      (masters : Option MasterSet) (d : String) (o : Json)
      → any (revokes c masters d) (kept_object (some o)) ≡ revokes c masters d o
  unfolding verified_by verify_revocation
  any-kept_object none d (obj fs) = refl
  any-kept_object (some m) d (obj fs) = ground arith
  any-kept_object none d _ = refl
  any-kept_object (some m) d _ = refl

  -- an object appended to the store is one more object, as far as revoking goes
  any-load-append :
      (masters : Option MasterSet) (d : String) (o : Json) (lines : RevocationStore)
      → IsWhole lines
      → IsOneLine c o
      → any (revokes c masters d) (load c (append c o lines))
        ≡ (any (revokes c masters d) (load c lines) || revokes c masters d o)
  any-load-append masters d o lines whole h =
      ap (any (revokes c masters d)) (load-append c o lines whole h)
      ∙ any-append (revokes c masters d) (load c lines) (kept_object (some o))
      ∙ ap (λ b. any (revokes c masters d) (load c lines) || b) (any-kept_object masters d o)

  All-kept_object :
      (masters : Option MasterSet) (named : String → List String) (o : Json)
      → CommitsTo c masters named o
      → All (CommitsTo c masters named) (kept_object (some o))
  All-kept_object masters named (obj fs) h = (h, tt)
  All-kept_object masters named _ h = tt

-- the policy has a store without a torn line, which names what is revoked and commits to it
record IsDurable (c : Crypto) (masters : Option MasterSet) (named : String → List String)
    (lines : RevocationStore) (p : TrustPolicy) : Type 0 where
  stored : p.store ≡ some lines
  whole : IsWhole lines
  same : (d : String) → contains d p.revoked ≡ any (revokes c masters d) (load c lines)
  commits : All (CommitsTo c masters named) (load c lines)

module _ (c : Crypto) (p : TrustPolicy) (o : Json) (lines : RevocationStore)
    (stored : p.store ≡ some lines) where
  store-admit : (r : RevocationRecord) → (admit c p o true r).0.store ≡ some (append c o lines)
  unfolding admit
  store-admit r = ap (Option.map (append c o)) stored

  module _ (named : String → List String) (h : Holds named p) where
    merge_record-cases :
        (v : Option RevocationRecord)
        → ((merge_record c p o true v).0 ≡ p)
          ⊎ (((merge_record c p o true v).0.store ≡ some (append c o lines))
              × ((r : RevocationRecord) × (v ≡ some r)))
    merge_record-cases none = inl (unfold merge_record in refl)
    merge_record-cases (some r) = elim (Option-cases (lookup r.record_id p.records)) [
      | inl new ↦ inr (rw (merge_record_new c named p o true h r new) (store-admit r), (r, refl))
      | inr (s, held) ↦ inl (rw (merge_record_held c named p o true h r s held))
    ]

    -- a merge changes nothing, or it writes the object to the store
    merge-cases :
        ((merge c p o true).0 ≡ p)
        ⊎ (((merge c p o true).0.store ≡ some (append c o lines))
            × ((r : RevocationRecord) × (verified_by c p.masters o ≡ some r)))
    unfolding merge
    merge-cases = merge_record-cases (verified_by c p.masters o)

written_commits :
    (c : Crypto) (masters : Option MasterSet) (named : String → List String) (o : Json)
    (lines : RevocationStore)
    → IsWhole lines
    → IsOneLine c o
    → All (CommitsTo c masters named) (load c lines)
    → CommitsTo c masters named o
    → All (CommitsTo c masters named) (load c (append c o lines))
written_commits c masters named o lines whole line h k = rw (load-append c o lines whole line) (
    All-append (CommitsTo c masters named) (load c lines) (kept_object (some o)) h
      (All-kept_object c masters named o k))

notify-IsDurable :
    (c : Crypto) (masters : Option MasterSet) (named : String → List String) (newly : List String)
    (lines : RevocationStore) (q : TrustPolicy)
    → IsDurable c masters named lines q
    → IsDurable c masters named lines (notify newly q)
unfolding notify
notify-IsDurable c masters named [] lines q i = i
notify-IsDurable c masters named (d ∷ newly) lines q i = record {
  stored = i.stored;
  whole = i.whole;
  same = i.same;
  commits = i.commits;
}

module _ (c : Crypto) (allowed : List String) (masters : Option MasterSet)
    (named : String → List String) where
  merge-IsDurable :
      (p : TrustPolicy) (o : Json) (lines : RevocationStore)
      → Tracks allowed masters named p
      → CommitsTo c masters named o
      → WrittenOnALine c masters o
      → IsDurable c masters named lines p
      → (lines' : RevocationStore) × IsDurable c masters named lines' (merge c p o true).0
  merge-IsDurable p o lines t commits writes i =
      let grows = revoked-merge c allowed masters named p o true t commits in
      elim (merge-cases c p o lines i.stored named t.holds) [
        | inl same ↦ (lines, subst (IsDurable c masters named lines) (sym same) i)
        | inr (written, (r, accepted)) ↦
            let line = writes r (ap (λ m. verified_by c m o) (sym t.same_masters) ∙ accepted) in
            (
              append c o lines,
              record {
                stored = written;
                whole = append-IsWhole c o lines i.whole line;
                same = λ d.
                    ground
                      (arith, grows d, i.same d, any-load-append c masters d o lines i.whole line);
                commits = written_commits c masters named o lines i.whole line i.commits commits;
              },
            )
      ]

  apply_all-IsDurable :
      (objects : List Json) (p : TrustPolicy) (lines : RevocationStore)
      → Tracks allowed masters named p
      → All (CommitsTo c masters named) objects
      → All (WrittenOnALine c masters) objects
      → IsDurable c masters named lines p
      → (lines' : RevocationStore) × IsDurable c masters named lines' (apply_all c p objects)
  unfolding apply_all
  apply_all-IsDurable [] p lines t commits writes i = (lines, i)
  apply_all-IsDurable (o ∷ objects) p lines t commits writes i =
      let (lines', i') = merge-IsDurable p o lines t commits.0 writes.0 i in
      apply_all-IsDurable objects (apply c p o).0 lines'
        (apply-Tracks c allowed masters named p o t commits.0) commits.1 writes.1
        (unfold apply in
          notify-IsDurable c masters named (merge c p o true).1 lines' (merge c p o true).0 i')

-- the constructor keeps the store
store-merge_all :
    (c : Crypto) (objects : List Json) (p : TrustPolicy) → (merge_all c p objects).0.store ≡ p.store
unfolding merge_all
store-merge_all c [] p = refl
store-merge_all c (o ∷ objects) p =
    store-merge_all c objects (merge c p o false).0
    ∙ (unfold merge merge_record admit in ground arith)

-- After any applied objects the policy's store, opened again by a restarted process, gives a
-- policy that trusts exactly the same DIDs: no accepted revocation is forgotten. It is assumed that
-- the record id of each revocation commits to the DIDs it names, that the JSON text of each object
-- that the policy accepts is not blank, has no line break of `splitlines` in it and is read back by
-- json, and that the store it was opened over does not end in a torn line.
pub restart_trusts_the_same :
    (c : Crypto) (allowed : List String) (masters : Option MasterSet) (named : String → List String)
    (lines : RevocationStore) (objects : List Json) (d : String)
    → All (CommitsTo c masters named) (load c lines)
    → All (CommitsTo c masters named) objects
    → IsWhole lines
    → All (WrittenOnALine c masters) objects
    → (lines' : RevocationStore) × ((apply_all c
          (open_policy c allowed masters (some lines))
          objects).store
        ≡ some lines')
      × (trusts (open_policy c allowed masters (some lines')) d
          ≡ trusts (apply_all c (open_policy c allowed masters (some lines)) objects) d)
restart_trusts_the_same c allowed masters named lines objects d stored given whole writes =
    let p = open_policy c allowed masters (some lines) in
    let t = open_policy-Tracks c allowed masters named lines stored in
    let (lines', i) =
      apply_all-IsDurable c allowed masters named objects p lines t given writes (record {
        stored = unfold open_policy in store-merge_all c (load c lines) _;
        whole = whole;
        same = revoked-open_policy c allowed masters named lines stored;
        commits = stored;
      }) in
    (
      lines',
      i.stored,
      unfold trusts in
          ground (
            arith,
            ap (contains d)
                (apply_all-Tracks c allowed masters named objects p t given).same_allowed,
            ap (contains d)
                (open_policy-Tracks c allowed masters named lines' i.commits).same_allowed,
            revoked-open_policy c allowed masters named lines' i.commits d,
            i.same d,
          ),
    )
