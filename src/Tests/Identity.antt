-- ===== src/Tests/Identity.antt =====
-- The identity package on concrete grants, revocations and policies.
use secdogie.Identity.Capability.{
  capability_type, is_grantable, check_scopes, verify_capability, effective_scopes,
}
use secdogie.Identity.Capability.Scopes.{grants_scope, effective_scope_was_granted}
use secdogie.Identity.Json.{
  Json, num, str, arr, obj, Fields, end, field, member, without, texts, str_items,
}
use secdogie.Identity.Policy.{trusts, verified_by, open_policy}
use secdogie.Identity.Policy.Restart.{WrittenOnALine, restart_trusts_the_same}
use secdogie.Identity.Policy.Trust.{apply_all, trusts-apply_all}
use secdogie.Identity.Policy.Union.{revokes, CommitsTo}
use secdogie.Identity.Revocation.{
  MasterSet, RevocationRecord, revocation_body, signed_record, entry_signer, add_signer,
  count_entry, good_signers, verify_revocation,
}
use secdogie.Identity.Revocation.Quorum.{
  counts, entries_of, body_of, accepted_has_quorum, extra_signatures_accepted,
}
use secdogie.Identity.Signing.{verify_envelope, verify_payload}
use secdogie.Identity.Store.{
  RevocationStore, read_char, read_text, splitlines, lstrip_line, rstrip_line, strip_line,
  load_stripped, load_lines, load, append,
}
use secdogie.Prelude.{
  length, any, All, contains, string_eq, nat_eq, Unrepeated, sorted_set, ◌≤◌, String, ◌≡◌, refl,
  sym, subst, true, not, ◌&&◌, ◌||◌, some, [], ◌∷◌, ◌++◌, arith,
}
use secdogie.Tests.Fixtures.{
  entry, two_of_three, two_entries, lost, sold, toy, lost_record, sold_record, named, is_op,
}
use secdogie.Identity.Store.{
  RevocationStore, read_char, read_text, splitlines, lstrip_line, rstrip_line, strip_line,
  load_stripped, load_lines, load, append,
}

abbrev grant : Json
grant = obj (
    field "type" (str capability_type) (
      field "issuer" (str "op") (
        field "subject" (str "n1") (
          field "capability_id" (str "c1") (
            field "scopes" (arr (str_items ("physical.click" ∷ []))) (
              field "valid_from" (num 10) (
                field "expires_at" (num 20)
                  (field "signer" (str "op") (field "sig" (str "ok") end)))))))))

grant_holds : contains "physical.click" (effective_scopes toy is_op "n1" 15 (grant ∷ [])) ≡ true
unfolding effective_scopes verify_capability verify_payload verify_envelope member without
    check_scopes texts is_grantable sorted_set
grant_holds = refl

effective_scope_was_granted_example :
    (is_grantable "physical.click" ≡ true)
    × (any (grants_scope toy is_op "n1" 15 "physical.click") (grant ∷ []) ≡ true)
effective_scope_was_granted_example =
    effective_scope_was_granted toy is_op "n1" 15 "physical.click" (grant ∷ []) grant_holds

accepts_lost : verify_revocation toy two_of_three [] (obj lost) ≡ some lost_record
unfolding verify_revocation signed_record member texts sorted_set revocation_body good_signers
    count_entry add_signer entry_signer
accepts_lost = refl

accepts_sold : verify_revocation toy two_of_three [] (obj sold) ≡ some sold_record
unfolding verify_revocation signed_record member texts sorted_set revocation_body good_signers
    count_entry add_signer entry_signer
accepts_sold = refl

accepted_has_quorum_example :
    (2 ≤ length lost_record.signers)
    × Unrepeated lost_record.signers
    × (contains "m3" lost_record.signers
        ≡ any (counts toy two_of_three [] (body_of lost_record) "m3") (entries_of lost))
    × (lost_record.record_id ≡ toy.digest (body_of lost_record))
accepted_has_quorum_example =
    accepted_has_quorum toy two_of_three [] lost lost_record accepts_lost "m3"

extra_signatures_accepted_example :
    (r' : RevocationRecord) × (verify_revocation toy two_of_three [] (
        obj (
          signed_record
            ("n2" ∷ [])
            "lost"
            5
            "lost"
            ((entry "m2" "bad" ∷ []) ++ (two_entries ++ (entry "m2" "ok" ∷ [])))))
      ≡ some r')
    × (r'.revoked ≡ lost_record.revoked)
    × (r'.record_id ≡ lost_record.record_id)
extra_signatures_accepted_example =
    extra_signatures_accepted toy two_of_three [] ("n2" ∷ []) "lost" 5 "lost"
      (entry "m2" "bad" ∷ []) two_entries (entry "m2" "ok" ∷ []) lost_record accepts_lost

commits_of :
    (masters : MasterSet) (fs : Fields) (known r : RevocationRecord)
    → verify_revocation toy masters [] (obj fs) ≡ some known
    → named known.record_id ≡ known.revoked
    → verify_revocation toy masters [] (obj fs) ≡ some r
    → named r.record_id ≡ r.revoked
commits_of masters fs known r h n e =
    let same : known ≡ r = cc (h, e) in
    subst (λ (x : RevocationRecord). named x.record_id ≡ x.revoked) same n

commits_lost : CommitsTo toy (some two_of_three) named (obj lost)
unfolding verified_by
commits_lost r e = commits_of two_of_three lost lost_record r accepts_lost refl e

commits_sold : CommitsTo toy (some two_of_three) named (obj sold)
unfolding verified_by
commits_sold r e = commits_of two_of_three sold sold_record r accepts_sold refl e

-- a garbled line, and the revocation of "n2"
abbrev stored : RevocationStore
stored = some (120 ∷ 10 ∷ 123 ∷ 49 ∷ 125 ∷ 10 ∷ [])

stored_holds : load toy stored ≡ obj lost ∷ []
unfolding load splitlines read_text read_char load_lines load_stripped strip_line lstrip_line
    rstrip_line member
stored_holds = refl

sold_on_a_line : All (WrittenOnALine toy (some two_of_three)) (obj sold ∷ [])
unfolding strip_line lstrip_line rstrip_line member signed_record
sold_on_a_line =
    (λ r e. record { unbroken = refl; visible = λ h. ground (arith, h); read_back = refl }, tt)

stored_commits : All (CommitsTo toy (some two_of_three) named) (load toy stored)
stored_commits =
    subst (All (CommitsTo toy (some two_of_three) named)) (sym stored_holds) (commits_lost, tt)

trusts-apply_all_example :
    trusts
      (apply_all toy
        (open_policy toy ("n1" ∷ "n2" ∷ "n3" ∷ []) (some two_of_three) (some stored))
        (obj sold ∷ []))
      "n3"
    ≡ (contains {A = String} "n3" ("n1" ∷ "n2" ∷ "n3" ∷ [])
        && not (
            any (revokes toy (some two_of_three) "n3") (load toy stored)
            || any (revokes toy (some two_of_three) "n3") (obj sold ∷ [])))
trusts-apply_all_example =
    trusts-apply_all toy ("n1" ∷ "n2" ∷ "n3" ∷ []) (some two_of_three) named stored (obj sold ∷ [])
      "n3" stored_commits (commits_sold, tt)

restart_trusts_the_same_example :
    (lines' : RevocationStore) × ((apply_all toy
        (open_policy toy ("n1" ∷ "n3" ∷ []) (some two_of_three) (some stored))
        (obj sold ∷ [])).store
      ≡ some lines')
    × (trusts (open_policy toy ("n1" ∷ "n3" ∷ []) (some two_of_three) (some lines')) "n3"
        ≡ trusts
            (apply_all toy
              (open_policy toy ("n1" ∷ "n3" ∷ []) (some two_of_three) (some stored))
              (obj sold ∷ []))
            "n3")
restart_trusts_the_same_example =
    restart_trusts_the_same toy ("n1" ∷ "n3" ∷ []) (some two_of_three) named stored (obj sold ∷ [])
      "n3" stored_commits (commits_sold, tt) (unfold read_text read_char in refl) sold_on_a_line

-- text of which only a part is written glues the next object to it, and both are lost
torn_line_is_glued : load toy (append toy (obj sold) (some (120 ∷ []))) ≡ []
unfolding append load splitlines read_text read_char load_lines load_stripped strip_line lstrip_line
    rstrip_line member signed_record
torn_line_is_glued = refl
