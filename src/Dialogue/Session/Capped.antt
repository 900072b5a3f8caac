-- ===== src/Dialogue/Session/Capped.antt =====
-- The reassemblies of a session stay within its limits when a fragment comes.
use mathlib.Core.Option
use secdogie.Prelude.{
  ltb, leb, nat_beq, Bool-cases, Option-cases, same_bool, is_none, either_way, length, string_eq,
  nat_eq, Dict, lookup, put, remove, lookup-put, kept, length-put-le, length-put_old,
  length-remove-le, ℕ, ◌+◌, ◌-◌, ◌≤◌, ◌≡◌, refl, ap, ◌∙◌, subst, inl, inr, Bool, not, ◌||◌, Option,
  none, some, List, [], arith,
}
use secdogie.Dialogue.Session.{
  Reassembly, drop_oldest, add_part, make_room, start_reassembly, find_reassembly,
}
use secdogie.Dialogue.Session.Held.{
  bytes_in, Sound, SoundAll, bytes_in-put, SoundAll-put, SoundAll-remove, SoundAll-lookup,
  drop_oldest-shorter, drop_oldest-Sound, make_room-some,
}

-- at most `cap` reassemblies, each sound
pub record Capped (cap limit : ℕ) (held : Dict ℕ Reassembly) : Type 0 where
  pub few : length held ≤ cap
  pub sound : SoundAll limit held

make_room-Capped :
    (cap limit : ℕ) (held kept : Dict ℕ Reassembly)
    → 1 ≤ cap
    → Capped cap limit held
    → make_room cap held ≡ some kept
    → Capped (cap - 1) limit kept
unfolding make_room
make_room-Capped cap limit held kept pos h g =
    let few = h.few in
    elim (Bool-cases (leb cap (length held))) [
      | inl full ↦
          let dropped : drop_oldest held ≡ some kept = ground (arith, full, g) in
          let shorter = drop_oldest-shorter held kept dropped in
          record {
            few = omega (arith, few, shorter);
            sound = drop_oldest-Sound limit held kept dropped h.sound;
          }
      | inr room ↦
          subst (Capped (cap - 1) limit) {x = held} (ground (arith, room, g))
            (record { few = ground (arith, room); sound = h.sound })
    ]

abbrev pub started : ℕ → Bool → ℕ → Reassembly
started total reliable now = record {
  total = total;
  reliable = reliable;
  started = now;
  parts = [];
  size = 0;
}

-- with a cap of at least one a new reassembly is filed, and nothing raises
pub start_reassembly-some :
    (cap : ℕ) (held : Dict ℕ Reassembly) (msg_id total : ℕ) (reliable : Bool) (now : ℕ)
    → 1 ≤ cap
    → (kept : Dict ℕ Reassembly) × (make_room cap held ≡ some kept)
      × (start_reassembly cap held msg_id total reliable now
          ≡ some (put msg_id (started total reliable now) kept, started total reliable now))
unfolding start_reassembly
start_reassembly-some cap held msg_id total reliable now pos =
    let (kept, room) = make_room-some cap held pos in
    (
      kept,
      room,
      ap (Option.map λ k. (put msg_id (started total reliable now) k, started total reliable now))
          room,
    )

pub put-filed :
    (msg_id : ℕ) (r : Reassembly) (held : Dict ℕ Reassembly)
    → lookup msg_id (put msg_id r held) ≡ some r
put-filed msg_id r held =
    lookup-put msg_id msg_id r held ∙ ground (arith, nat_eq.beq_iff msg_id msg_id)

-- what `find_reassembly` hands on: capped, with the reassembly filed
pub record Found (cap limit msg_id : ℕ) (f : Dict ℕ Reassembly × Reassembly) : Type 0 where
  capped : Capped cap limit f.0
  sound : Sound limit f.1
  filed : lookup msg_id f.0 ≡ some f.1

start-Found :
    (cap limit msg_id total : ℕ) (reliable : Bool) (now : ℕ) (kept : Dict ℕ Reassembly)
    → 1 ≤ cap
    → Capped (cap - 1) limit kept
    → Found cap limit msg_id
        (put msg_id (started total reliable now) kept, started total reliable now)
unfolding bytes_in
start-Found cap limit msg_id total reliable now kept pos room =
    let fresh = started total reliable now in
    let few = room.few in
    let ok : Sound limit fresh = record { counted = refl; within = omega arith } in
    let more = length-put-le msg_id fresh kept in
    record {
      capped = record {
        few = omega (arith, few, more, pos);
        sound = SoundAll-put limit msg_id fresh kept ok room.sound;
      };
      sound = ok;
      filed = put-filed msg_id fresh kept;
    }

pub find-Found :
    (cap limit : ℕ) (held : Dict ℕ Reassembly) (msg_id total : ℕ) (reliable : Bool) (now : ℕ)
    → 1 ≤ cap
    → Capped cap limit held
    → (f : Dict ℕ Reassembly × Reassembly) × (find_reassembly cap held msg_id total reliable now
        ≡ some f)
      × Found cap limit msg_id f
unfolding find_reassembly
find-Found cap limit held msg_id total reliable now pos h =
    elim (Option-cases (lookup msg_id held)) [
      | inl e ↦
          let (kept, room, s) = start_reassembly-some cap held msg_id total reliable now pos in
          (
            (put msg_id (started total reliable now) kept, started total reliable now),
            ground (arith, e, s),
            start-Found cap limit msg_id total reliable now kept pos
                (make_room-Capped cap limit held kept pos h room),
          )
      | inr (r, e) ↦ (
        (held, r),
        ground (arith, e),
        record { capped = h; sound = SoundAll-lookup limit msg_id r held h.sound e; filed = e },
      )
    ]

put-Capped :
    (cap limit msg_id : ℕ) (held : Dict ℕ Reassembly) (r q : Reassembly)
    → Capped cap limit held
    → lookup msg_id held ≡ some r
    → Sound limit q
    → Capped cap limit (put msg_id q held)
put-Capped cap limit msg_id held r q h e s =
    let few = h.few in
    let same = length-put_old msg_id q r held e in
    record { few = omega (arith, few, same); sound = SoundAll-put limit msg_id q held s h.sound }

remove-Capped :
    (cap limit msg_id : ℕ) (held : Dict ℕ Reassembly)
    → Capped cap limit held
    → Capped cap limit (remove msg_id held)
remove-Capped cap limit msg_id held h =
    let few = h.few in
    let less = length-remove-le msg_id held in
    record { few = omega (arith, few, less); sound = SoundAll-remove limit msg_id held h.sound }

-- a chunk of a new index, that fits, added
grown-Sound :
    (limit idx : ℕ) (r : Reassembly) (chunk : List ℕ)
    → Sound limit r
    → lookup idx r.parts ≡ none
    → r.size + length chunk ≤ limit
    → Sound limit (record r { parts = put idx chunk r.parts; size = r.size + length chunk })
grown-Sound limit idx r chunk s new fits =
    let counted = s.counted in
    let grown = bytes_in-put idx chunk r.parts new in
    record { counted = omega (arith, counted, grown); within = fits }

pub add_part-Capped :
    (cap limit msg_id : ℕ) (f : Dict ℕ Reassembly × Reassembly) (idx total : ℕ) (reliable : Bool)
    (chunk : List ℕ)
    → Found cap limit msg_id f
    → Capped cap limit (add_part limit f.0 msg_id f.1 idx total reliable chunk).0
unfolding add_part
add_part-Capped cap limit msg_id (held, r) idx total reliable chunk h =
    let P = λ (p : Dict ℕ Reassembly × Option (List ℕ × Bool)). Capped cap limit p.0 in
    let grown : Reassembly = record r {
      parts = put idx chunk r.parts;
      size = r.size + length chunk;
    } in
    either_way P
      (not (nat_beq r.total total)
        || not (same_bool r.reliable reliable)
        || not (is_none (lookup idx r.parts)))
      _ _ (λ refused. h.capped)
      λ taken.
        either_way P (ltb limit (r.size + length chunk)) _ _
          (λ big. remove-Capped cap limit msg_id held h.capped)
          λ fits.
            either_way P (ltb (length (put idx chunk r.parts)) r.total) _ _
              (λ more. put-Capped cap limit msg_id held r grown h.capped h.filed (
                grown-Sound limit idx r chunk h.sound (ground (arith, taken))
                  (ground (arith, fits))))
              λ complete. remove-Capped cap limit msg_id held h.capped
