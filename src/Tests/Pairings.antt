-- ===== src/Tests/Pairings.antt =====
-- Pairings of short snapshots.
use dsh_better_edit.Prelude.{ℕ, ◌≡◌, ◌⊎◌, refl, false, none, str_eq, List, [], ◌∷◌, Str}
use dsh_better_edit.Pairing.Pins.{AnchorPin, find_unique_pins, pins_from, count_key, last_position}
use dsh_better_edit.Pairing.Backbone.{
  lower_bound_loop, lower_bound, insert_value, sorted_unique, new_index, low_bit, query_loop,
  query_below, update_loop, update_index, patience, values_at, indexes_from, displacements_of,
  compute_length_and_min_displacement, pin_displacement, score, best_length_of,
  best_displacement_of, optimal_at_rank, stable_of, find_stable_pin_backbone,
}
use dsh_better_edit.Pairing.Lcs.{
  lcs_of, suffix_table, suffix_row, count_table, count_row, count_cell,
}
use dsh_better_edit.Pairing.Lcs.Unique.{Decides, lcs_of-Decides}
use dsh_better_edit.Pairing.Align.{
  pair_snapshots, pairing_scan_budget, paired, monotonicity_violation, align_recursive, align_pins,
  align_leaf, set_pair, set_pairs, zip_pins, identical, sort_pins, insert_pin, is_rising,
  assert_monotonic_pairing,
}
use dsh_better_edit.Pairing.Align.Sound.{IsPairing, pair_snapshots-IsPairing}

abbrev pin : ℕ → ℕ → AnchorPin
pin p c = record { prev_line = p; curr_line = c }

abbrev before_lines : List Str
before_lines = (1 ∷ []) ∷ (2 ∷ []) ∷ (3 ∷ []) ∷ []

abbrev after_lines : List Str
after_lines = (9 ∷ []) ∷ (1 ∷ []) ∷ (2 ∷ []) ∷ (3 ∷ []) ∷ []

-- Three unique lines behind an inserted one.
shifted_run : Unit {0}
unfolding pair_snapshots align_recursive align_pins align_leaf set_pair set_pairs zip_pins identical
    sort_pins insert_pin is_rising assert_monotonic_pairing find_unique_pins pins_from count_key
    last_position pairing_scan_budget lower_bound_loop lower_bound insert_value sorted_unique
    new_index low_bit query_loop query_below update_loop update_index patience values_at
    indexes_from displacements_of compute_length_and_min_displacement pin_displacement score
    best_length_of best_displacement_of optimal_at_rank stable_of find_stable_pin_backbone str_eq
shifted_run = tt

shifted_run_pairs :
    pair_snapshots before_lines after_lines none ≡ paired (pin 1 2 ∷ pin 2 3 ∷ pin 3 4 ∷ [])
unfolding shifted_run
shifted_run_pairs = refl

pair_snapshots-IsPairing_example :
    ((pairing : List AnchorPin) × (pair_snapshots before_lines after_lines none ≡ paired pairing)
      × IsPairing before_lines after_lines pairing)
    ⊎ (pair_snapshots before_lines after_lines none ≡ monotonicity_violation)
pair_snapshots-IsPairing_example = pair_snapshots-IsPairing before_lines after_lines none

lcs_of-Decides_example : Decides before_lines after_lines (lcs_of before_lines after_lines)
lcs_of-Decides_example = lcs_of-Decides before_lines after_lines

-- A repeated line can be matched in more than one place.
repeated_lines : (lcs_of ((1 ∷ []) ∷ (1 ∷ []) ∷ []) ((1 ∷ []) ∷ [])).is_unique ≡ false
unfolding lcs_of suffix_table suffix_row count_table count_row count_cell str_eq
repeated_lines = refl
