-- ===== src/Tests/Sessions.antt =====
-- A merge of served rows and the books on retired anchors.
use dsh_better_edit.Prelude.{◌≡◌, refl, none, some, List, [], ◌∷◌, units, All, ◌↔◌, ◌⊎◌, Member}
use dsh_better_edit.HashAssign.{alph, position_of, is_alph, matches_hash_re}
use dsh_better_edit.AnchorPipeline.Leases.{Slot}
use dsh_better_edit.SessionView.{
  ServedEntry, MergeOptions, truncated, clear_slots, cleared, write_slot, write_rows, trim_slots,
  merge_served_rows, Books, RetiredEntry, sweep_and_retire,
}
use dsh_better_edit.SessionView.Merge.{
  slot, written, kept, merge_served_rows-written, merge_served_rows-total, IsAnchorOrNone,
}
use dsh_better_edit.SessionView.Retire.{
  IsHeld, IsNew, IsObserved, sweep_and_retire-Member, sweep_and_retire-IsObserved,
}

-- What the runs below compute with.
run : Unit {0}
unfolding alph position_of is_alph matches_hash_re truncated clear_slots cleared write_slot
    write_rows trim_slots merge_served_rows
run = tt

abbrev mirror_slots : List Slot
mirror_slots = some (units "AAA") ∷ some (units "BBB") ∷ []

-- BBB moves on to the fourth line, and the first line is forgotten.
abbrev rows : List ServedEntry
rows =
    record { position = 3; hash = some (units "BBB") } ∷ record { position = 0; hash = none } ∷ []

abbrev plain_merge : MergeOptions
plain_merge = record { truncate_to = none; clear_from = none }

abbrev merged_slots : List Slot
merged_slots = none ∷ some (units "BBB") ∷ none ∷ some (units "BBB") ∷ []

merge_run : merge_served_rows mirror_slots rows plain_merge ≡ some merged_slots
unfolding run
merge_run = refl

merge_served_rows-written_example :
    slot merged_slots 1 ≡ written rows 1 (kept plain_merge mirror_slots 1)
merge_served_rows-written_example =
    merge_served_rows-written mirror_slots rows plain_merge merged_slots 1 merge_run

merge_served_rows-total_example :
    ((updated : List Slot) × (merge_served_rows mirror_slots rows plain_merge ≡ some updated))
    ↔ All (λ r. IsAnchorOrNone r.hash) rows
merge_served_rows-total_example = merge_served_rows-total mirror_slots rows plain_merge

-- AAA leaves the mirror; it was retired before, where a card lies.
abbrev books : Books
books = record { cards = 5 ∷ []; retired = record { hash = units "AAA"; death_pos = some 5 } ∷ [] }

abbrev old_entry : RetiredEntry
old_entry = record { hash = units "AAA"; death_pos = some 5 }

sweep_and_retire-Member_example :
    Member old_entry (sweep_and_retire books mirror_slots merged_slots rows).retired
    ↔ (IsHeld books rows old_entry ⊎ IsNew books mirror_slots merged_slots old_entry)
sweep_and_retire-Member_example =
    sweep_and_retire-Member books mirror_slots merged_slots rows old_entry

sweep_and_retire-IsObserved_example :
    Member 3 (sweep_and_retire books mirror_slots merged_slots rows).cards
    ↔ IsObserved books.cards rows 3
sweep_and_retire-IsObserved_example =
    sweep_and_retire-IsObserved books mirror_slots merged_slots rows 3
