-- ===== src/Dialogue/Session/Assembly.antt =====
-- One message in the reassemblies of a session: what each of its fragments does.
use secdogie.Prelude.{
  length, string_eq, nat_eq, Dict, lookup, put, remove, lookup-put, kept, ℕ, ◌+◌, ◌≤◌, ◌<◌, ◌≡◌,
  refl, ap, ◌∙◌, ◌⊎◌, inl, inr, Bool, true, false, Option, none, some, List, [], arith,
}
use secdogie.Dialogue.Frames.{fragment_count, chunk_at}
use secdogie.Dialogue.Frames.Cutting.{chunks-eq-message}
use secdogie.Dialogue.Session.{Reassembly, add_part, find_reassembly}
use secdogie.Dialogue.Session.Held.{bytes_in, bytes_in-put}
use secdogie.Dialogue.Session.Parts.{
  Holding, with_index, add-Holding, few_while_missing, all_when_complete, within_message, joined,
}
use secdogie.Dialogue.Session.Capped.{started, start_reassembly-some, put-filed}

-- a message that one side cuts and the other puts together
pub record Sending : Type 0 where
  pub msg_id : ℕ
  pub message : List ℕ
  pub reliable : Bool
  pub size : ℕ

abbrev pub total_frames : Sending → ℕ
total_frames m = fragment_count (length m.message) m.size

-- the message is being put together in this reassembly
pub record Under (m : Sending) (seen : ℕ → Bool) (f : Dict ℕ Reassembly × Reassembly) : Type 0 where
  pub filed : lookup m.msg_id f.0 ≡ some f.1
  pub same_total : f.1.total ≡ total_frames m
  pub same_kind : f.1.reliable ≡ m.reliable
  pub counted : f.1.size ≡ bytes_in f.1.parts
  pub holding : Holding m.size m.message (total_frames m) seen f.1.parts

unfoldable pub Progress : Sending → (ℕ → Bool) → Dict ℕ Reassembly → Type 0
Progress m seen held =
    ((lookup m.msg_id held ≡ none) × ((k : ℕ) → seen k ≡ false))
    ⊎ ((r : Reassembly) × Under m seen (held, r))

fresh-Holding :
    (size : ℕ) (message : List ℕ) (total : ℕ) (seen : ℕ → Bool)
    → ((k : ℕ) → seen k ≡ false)
    → Holding size message total seen []
unfolding lookup
fresh-Holding size message total seen unseen = record {
  distinct = tt;
  each = λ k. ground (arith, unseen k);
  below = λ k e. absurd (ground (arith, e, unseen k));
}

start-Under :
    (m : Sending) (seen : ℕ → Bool) (kept : Dict ℕ Reassembly) (now : ℕ)
    → ((k : ℕ) → seen k ≡ false)
    → Under m seen (
      put m.msg_id (started (total_frames m) m.reliable now) kept,
      started (total_frames m) m.reliable now,
    )
unfolding bytes_in
start-Under m seen kept now unseen = record {
  filed = put-filed m.msg_id (started (total_frames m) m.reliable now) kept;
  same_total = refl;
  same_kind = refl;
  counted = refl;
  holding = fresh-Holding m.size m.message (total_frames m) seen unseen;
}

pub find-Under :
    (m : Sending) (cap : ℕ) (seen : ℕ → Bool) (held : Dict ℕ Reassembly) (now : ℕ)
    → 1 ≤ cap
    → Progress m seen held
    → (f : Dict ℕ Reassembly × Reassembly) × (find_reassembly cap held m.msg_id
          (total_frames m)
          m.reliable
          now
        ≡ some f)
      × Under m seen f
unfolding find_reassembly Progress
find-Under m cap seen held now pos (inl (e, unseen)) =
    let (kept, room, s) =
      start_reassembly-some cap held m.msg_id (total_frames m) m.reliable now pos in
    (_, ground (arith, e, s), start-Under m seen kept now unseen)
find-Under m cap seen held now pos (inr (r, u)) =
    let e = u.filed in ((held, r), ground (arith, e), u)

-- a reassembly with one more part
abbrev pub grown : Reassembly → ℕ → List ℕ → Reassembly
grown r i chunk = record r { parts = put i chunk r.parts; size = r.size + length chunk }

module _ (m : Sending) (limit : ℕ) (cut : 0 < m.size) (short : length m.message ≤ limit) where
  module _ (seen : ℕ → Bool) (held : Dict ℕ Reassembly) (r : Reassembly)
      (u : Under m seen (held, r)) (i : ℕ) (low : i < total_frames m) where
    abbrev pub taken : Dict ℕ Reassembly × Option (List ℕ × Bool)
    taken =
        add_part limit held m.msg_id r i (total_frames m) m.reliable (chunk_at m.size m.message i)

    abbrev pub more_parts : Dict ℕ (List ℕ)
    more_parts = put i (chunk_at m.size m.message i) r.parts

    pub seen_before : seen i ≡ true → taken ≡ (held, none)
    unfolding add_part
    seen_before e = let each = u.holding.each i in ground (arith, e, each)

    pub more-Holding : Holding m.size m.message (total_frames m) (with_index i seen) more_parts
    more-Holding = add-Holding m.size m.message (total_frames m) seen i r.parts low u.holding

    fits : seen i ≡ false → r.size + length (chunk_at m.size m.message i) ≤ limit
    fits e =
        let each = u.holding.each i in
        let within =
          within_message m.size m.message (total_frames m) (with_index i seen) more_parts
            more-Holding in
        let all = ap length (chunks-eq-message m.size m.message cut) in
        let counted = u.counted in
        let more = bytes_in-put i (chunk_at m.size m.message i) r.parts (ground (arith, e, each)) in
        omega (arith, within, all, counted, more, short)

    pub one_more :
        (j : ℕ)
        → j < total_frames m
        → with_index i seen j ≡ false
        → seen i ≡ false
        → taken ≡ (put m.msg_id (grown r i (chunk_at m.size m.message i)) held, none)
    unfolding add_part
    one_more j below missing e =
        let each = u.holding.each i in
        let total = u.same_total in
        let kind = u.same_kind in
        let few =
          few_while_missing m.size m.message (total_frames m) (with_index i seen) more_parts
            more-Holding j below missing in
        let room = fits e in ground (arith, e, each, total, kind, few, room)

    pub complete :
        ((k : ℕ) → k < total_frames m → with_index i seen k ≡ true)
        → seen i ≡ false
        → taken ≡ (remove m.msg_id held, some (m.message, m.reliable))
    unfolding add_part
    complete full e =
        let each = u.holding.each i in
        let total = u.same_total in
        let kind = u.same_kind in
        let enough =
          all_when_complete m.size m.message (total_frames m) (with_index i seen) more_parts
            more-Holding full in
        let whole =
          joined m.size m.message (total_frames m) (with_index i seen) more_parts more-Holding
            (total_frames m) 0 (λ k l. full k (omega (arith, l)))
          ∙ chunks-eq-message m.size m.message cut in
        let room = fits e in ground (arith, e, each, total, kind, enough, room, whole)

    -- the reassembly after a fragment that had come before
    pub again-Under : seen i ≡ true → Under m (with_index i seen) (held, r)
    again-Under e = record {
      filed = u.filed;
      same_total = u.same_total;
      same_kind = u.same_kind;
      counted = u.counted;
      holding = record {
        distinct = u.holding.distinct;
        each = λ k. let each = u.holding.each k in ground (arith, e, each, ap seen {x = i} {y = k});
        below = λ k h. let below = u.holding.below k in ground (arith, low, h, below);
      };
    }

    -- and after one that is new
    pub grown-Under :
        seen i ≡ false
        → Under m (with_index i seen) (
          put m.msg_id (grown r i (chunk_at m.size m.message i)) held,
          grown r i (chunk_at m.size m.message i),
        )
    grown-Under e =
        let each = u.holding.each i in
        let counted = u.counted in
        let more = bytes_in-put i (chunk_at m.size m.message i) r.parts (ground (arith, e, each)) in
        record {
          filed =
              lookup-put m.msg_id m.msg_id _ held
              ∙ ground (arith, nat_eq.beq_iff m.msg_id m.msg_id);
          same_total = u.same_total;
          same_kind = u.same_kind;
          counted = omega (arith, counted, more);
          holding = more-Holding;
        }
