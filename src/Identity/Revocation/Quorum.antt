-- ===== src/Identity/Revocation/Quorum.antt =====
-- k of n: which signatures a revocation counts, and that no other signature takes any away.
use secdogie.Prelude.{
  Bool-cases, Option-cases, length, any, any-append, nat_eq, string_eq, contains, Unrepeated,
  length-le_of_contains, contains-append, Unrepeated-snoc, ℕ, ◌≤◌, String, ◌≡◌, refl, ap, inl, inr,
  Bool, false, not, ◌&&◌, ◌||◌, Option, none, some, List, [], ◌∷◌, ◌++◌, arith,
}
use secdogie.Identity.Json.{
  Json, obj, Fields, member, as_list, elements-json_items, texts-str_items,
}
use secdogie.Identity.Signing.{Crypto}
use secdogie.Identity.Revocation.{
  MasterSet, RevocationRecord, revocation_body, signed_record, entry_signer, add_signer,
  count_entry, good_signers, verify_revocation,
}

module _ (c : Crypto) (masters : MasterSet) (exclude : List String) (body : Fields) where
  -- `m` may sign, and the entry is its signature
  abbrev pub counts : String → Json → Bool
  counts m entry =
      contains m masters.dids
      && not (contains m exclude)
      && elim (entry_signer c body entry) [ none ↦ false | some signer ↦ string_eq.beq signer m ]

  contains-count_entry :
      (m : String) (good : List String) (entry : Json)
      → contains m (count_entry c masters exclude body good entry)
        ≡ (contains m good || counts m entry)
  unfolding count_entry
  contains-count_entry m good entry = elim (Option-cases (entry_signer c body entry)) [
    | inl e ↦ ground (arith, e)
    | inr (signer, e) ↦ ground (
      arith,
      e,
      contains-append ⦃e = string_eq⦄ m good (signer ∷ []),
      string_eq.beq_iff signer m,
      ap (λ (k : String). contains k good) {x = signer} {y = m},
      ap (λ (k : String). contains k exclude) {x = signer} {y = m},
      ap (λ (k : String). contains k masters.dids) {x = signer} {y = m},
    )
  ]

  -- A DID is counted exactly if it was, or is a master outside `exclude` that signed some entry.
  contains-good_signers :
      (m : String) (good : List String) (entries : List Json)
      → contains m (good_signers c masters exclude body good entries)
        ≡ (contains m good || any (counts m) entries)
  unfolding good_signers
  contains-good_signers m good [] = ground arith
  contains-good_signers m good (entry ∷ entries) = ground (
    arith,
    contains-good_signers m (count_entry c masters exclude body good entry) entries,
    contains-count_entry m good entry,
  )

  add_signer-Unrepeated :
      (good : List String) (found : Option String)
      → Unrepeated good
      → Unrepeated (add_signer masters exclude good found)
  unfolding add_signer
  add_signer-Unrepeated good none h = h
  add_signer-Unrepeated good (some signer) h = elim (Bool-cases (contains signer good)) [
    | inl old ↦ rw old h
    | inr new ↦ elim (Bool-cases (contains signer exclude || not (contains signer masters.dids))) [
      | inl out ↦ rw (new, out) h
      | inr master ↦ rw (new, master) (Unrepeated-snoc ⦃e = string_eq⦄ good signer new h)
    ]
  ]

  count_entry-Unrepeated :
      (good : List String) (entry : Json)
      → Unrepeated good
      → Unrepeated (count_entry c masters exclude body good entry)
  unfolding count_entry
  count_entry-Unrepeated good entry h = add_signer-Unrepeated good (entry_signer c body entry) h

  good_signers-Unrepeated :
      (good : List String) (entries : List Json)
      → Unrepeated good
      → Unrepeated (good_signers c masters exclude body good entries)
  unfolding good_signers
  good_signers-Unrepeated good [] h = h
  good_signers-Unrepeated good (entry ∷ entries) h =
      good_signers-Unrepeated (count_entry c masters exclude body good entry) entries
        (count_entry-Unrepeated good entry h)

-- the entries of `sigs`
abbrev pub entries_of : Fields → List Json
entries_of fs = elim (as_list (member "sigs" fs)) [ none ↦ [] | some entries ↦ entries ]

abbrev pub body_of : RevocationRecord → Fields
body_of r = revocation_body r.revoked r.reason r.issued_at

module _ (c : Crypto) (masters : MasterSet) (exclude : List String) (fs : Fields)
    (r : RevocationRecord) (accepted : verify_revocation c masters exclude (obj fs) ≡ some r) where
  signers_of : r.signers ≡ good_signers c masters exclude (body_of r) [] (entries_of fs)
  unfolding verify_revocation
  signers_of = ground arith

  enough_signers : masters.threshold ≤ length r.signers
  unfolding verify_revocation
  enough_signers = ground arith

  record_id_of : r.record_id ≡ c.digest (body_of r)
  unfolding verify_revocation
  record_id_of = ground arith

  -- An accepted revocation carries at least `threshold` signers, no two the same, and they are
  -- exactly the masters outside `exclude` with a valid signature over the revocation's body among
  -- the entries of its `sigs`. Its record id is the digest of that body.
  pub accepted_has_quorum :
      (m : String)
      → (masters.threshold ≤ length r.signers)
        × Unrepeated r.signers
        × (contains m r.signers ≡ any (counts c masters exclude (body_of r) m) (entries_of fs))
        × (r.record_id ≡ c.digest (body_of r))
  accepted_has_quorum m = (
    enough_signers,
    rw signers_of (good_signers-Unrepeated c masters exclude (body_of r) [] (entries_of fs) tt),
    rw signers_of (contains-good_signers c masters exclude (body_of r) m [] (entries_of fs)),
    record_id_of,
  )

module _ (c : Crypto) (masters : MasterSet) (exclude : List String) (body : Fields)
    (before entries after : List Json) where
  good_signers_more :
      length (good_signers c masters exclude body [] entries)
      ≤ length (good_signers c masters exclude body [] (before ++ (entries ++ after)))
  good_signers_more =
      length-le_of_contains ⦃e = string_eq⦄ _ _
        (good_signers-Unrepeated c masters exclude body [] entries tt)
        λ m h. ground (
          arith,
          h,
          contains-good_signers c masters exclude body m [] entries,
          contains-good_signers c masters exclude body m [] (before ++ (entries ++ after)),
          any-append (counts c masters exclude body m) before (entries ++ after),
          any-append (counts c masters exclude body m) entries after,
        )

-- Extra entries around the signatures, whatever they are, never make an accepted revocation
-- refused: it is accepted with them, for the same DIDs under the same record id.
pub extra_signatures_accepted :
    (c : Crypto) (masters : MasterSet) (exclude revoked : List String) (reason : String)
    (issued_at : ℕ) (record_id : String) (before entries after : List Json) (r : RevocationRecord)
    → verify_revocation c masters exclude
        (obj (signed_record revoked reason issued_at record_id entries))
      ≡ some r
    → (r' : RevocationRecord) × (verify_revocation c masters exclude
          (obj (signed_record revoked reason issued_at record_id (before ++ (entries ++ after))))
        ≡ some r')
      × (r'.revoked ≡ r.revoked)
      × (r'.record_id ≡ r.record_id)
unfolding verify_revocation signed_record member
extra_signatures_accepted c masters exclude revoked reason issued_at record_id before entries after
      r h =
    let good =
      good_signers c masters exclude (revocation_body revoked reason issued_at) []
        (before ++ (entries ++ after)) in
    (
      record r { signers = good },
      ground (
        arith,
        texts-str_items revoked,
        elements-json_items entries,
        elements-json_items (before ++ (entries ++ after)),
        good_signers_more c masters exclude (revocation_body revoked reason issued_at) before
            entries after,
      ),
      refl,
      refl,
    )
