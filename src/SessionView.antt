-- ===== src/SessionView.antt =====
-- src/session-view.ts: `_mergeServedRows`, which writes served rows into the mirror of a session, and the
-- books on retired anchors: `displacedEntries`, `sweepRetiredByPositions` and
-- `sweepAndRetire`. A position is a natural number, so that the refusal of a position that is no integer or
-- negative cannot occur. What the store holds for one session and path is passed and returned.
pub mod Merge
pub mod Entries
pub mod Retire
use dsh_better_edit.Prelude.{
  ℕ, zero, suc, ◌+◌, Bool, true, false, ◌&&◌, ◌||◌, not, Option, none, some, List, [], ◌∷◌, ◌++◌,
  Str, ◌==◌, if◌then◌else◌, length, str_eq, take, has, map,
}
use dsh_better_edit.HashAssign.{matches_hash_re}
use dsh_better_edit.AnchorPipeline.Leases.{Slot}

pub record ServedEntry : Type 0 where
  pub position : ℕ
  pub hash : Slot

pub record MergeOptions : Type 0 where
  pub truncate_to : Option ℕ
  pub clear_from : Option ℕ

unfoldable pub truncated : Option ℕ → List Slot → List Slot
truncated none slots = slots
truncated (some n) slots = take n slots

-- The loop that clears the slots from a position on.
unfoldable pub clear_slots : ℕ → List Slot → List Slot
clear_slots n [] = []
clear_slots zero (s ∷ slots) = none ∷ clear_slots zero slots
clear_slots (suc n) (s ∷ slots) = s ∷ clear_slots n slots

unfoldable pub cleared : Option ℕ → List Slot → List Slot
cleared none slots = slots
cleared (some n) slots = clear_slots n slots

abbrev pub valid_hash : Slot → Bool
valid_hash none = true
valid_hash (some h) = matches_hash_re h

-- `updated[position] = hash`, with `null` pushed up to the position.
unfoldable pub write_slot : List Slot → ℕ → Slot → List Slot
write_slot [] zero h = h ∷ []
write_slot [] (suc p) h = none ∷ write_slot [] p h
write_slot (s ∷ slots) zero h = h ∷ slots
write_slot (s ∷ slots) (suc p) h = s ∷ write_slot slots p h

-- The loop over the rows; `none` is the `TypeError` on an invalid hash.
unfoldable pub write_rows : List Slot → List ServedEntry → Option (List Slot)
write_rows slots [] = some slots
write_rows slots (r ∷ rows) =
    let rest = write_rows (write_slot slots r.position r.hash) rows in
    if valid_hash r.hash then rest else none

abbrev pub trim_null : List Slot → List Slot
trim_null [] = []
trim_null (s ∷ slots) = none ∷ s ∷ slots

-- The loop that pops `null` from the end.
unfoldable pub trim_slots : List Slot → List Slot
trim_slots [] = []
trim_slots (none ∷ slots) = trim_null (trim_slots slots)
trim_slots (some h ∷ slots) = some h ∷ trim_slots slots

unfoldable pub merge_served_rows : List Slot → List ServedEntry → MergeOptions → Option (List Slot)
merge_served_rows current rows o =
    elim (write_rows (cleared o.clear_from (truncated o.truncate_to current)) rows) [
      | none ↦ none
      | some updated ↦ some (trim_slots updated)
    ]

-- `RetiredEntry`: an anchor and the position where it was displaced, where that is known.
pub record RetiredEntry : Type 0 where
  pub hash : Str
  pub death_pos : Option ℕ

unfoldable pub slot_hashes : List Slot → List Str
slot_hashes [] = []
slot_hashes (none ∷ slots) = slot_hashes slots
slot_hashes (some h ∷ slots) = h ∷ slot_hashes slots

unfoldable pub displaced_from : ℕ → List Slot → List Str → List RetiredEntry
displaced_from i [] remaining = []
displaced_from i (none ∷ slots) remaining = displaced_from (suc i) slots remaining
displaced_from i (some h ∷ slots) remaining =
    let rest = displaced_from (suc i) slots remaining in
    if has h remaining then rest else record { hash = h; death_pos = some i } ∷ rest

unfoldable pub displaced_entries : List Slot → List Slot → List RetiredEntry
displaced_entries current updated = displaced_from 0 current (slot_hashes updated)

unfoldable pub has_card : ℕ → List ℕ → Bool
has_card p [] = false
has_card p (c ∷ cards) = if p == c then true else has_card p cards

abbrev pub is_swept : List ℕ → Option ℕ → Bool
is_swept positions none = false
is_swept positions (some p) = has_card p positions

-- `entries.filter((e) => e.deathPos === null || !positions.has(e.deathPos))`.
unfoldable pub sweep : List ℕ → List RetiredEntry → List RetiredEntry
sweep positions [] = []
sweep positions (e ∷ entries) =
    let rest = sweep positions entries in if is_swept positions e.death_pos then rest else e ∷ rest

-- The entries that `sweepRetiredByPositions` leaves in the store.
unfoldable pub sweep_retired_by_positions : List ℕ → List RetiredEntry → List RetiredEntry
sweep_retired_by_positions [] entries = entries
sweep_retired_by_positions (p ∷ positions) entries = sweep (p ∷ positions) entries

-- `existingCards.add(pos)` for the positions of the rows.
unfoldable pub add_cards : List ServedEntry → List ℕ → List ℕ
add_cards [] cards = cards
add_cards (r ∷ rows) cards =
    if has_card r.position cards
    then add_cards rows cards
    else add_cards rows (cards ++ r.position ∷ [])

abbrev pub hash_of : RetiredEntry → Str
hash_of e = e.hash

unfoldable pub without_known : List Str → List RetiredEntry → List RetiredEntry
without_known known [] = []
without_known known (e ∷ entries) =
    let rest = without_known known entries in if has e.hash known then rest else e ∷ rest

-- The cards and the retired entries that the store has after `sweepAndRetire`.
pub record Books : Type 0 where
  pub cards : List ℕ
  pub retired : List RetiredEntry

unfoldable pub sweep_and_retire : Books → List Slot → List Slot → List ServedEntry → Books
sweep_and_retire b current updated rows =
    let cards = add_cards rows b.cards in
    record {
      cards = cards;
      retired =
          sweep cards b.retired
          ++ without_known (map hash_of b.retired) (displaced_entries current updated);
    }
