-- ===== src/Tests/Drifts.antt =====
-- A file in which one line changed outside the edit.
use dsh_better_edit.Prelude.{
  ℕ, ◌<◌, ◌↔◌, ◌⊎◌, inl, none, Str, get_elem?, Member, ◌≡◌, ◌≤◌, refl, true, false, some, [], ◌∷◌,
  units, length, has, str_eq,
}
use dsh_better_edit.HashAssign.{idx_to_hash, idx_loop}
use dsh_better_edit.AnchorPipeline.Verify.{served_positions_of}
use dsh_better_edit.Drift.{
  DriftInput, DriftNotice, compute_drift, count_drift, count_slots, count_slot, count_drifted,
  served_range, rotated_survivors, has_canons, window_of, insert_position,
  current_position_of_drifted, last_survivor, first_survivor, current_index, drift_episode_key,
  has_position, take_canon,
}
use dsh_better_edit.Drift.Rows.{RowsOf, compute_drift-RowsOf}
use dsh_better_edit.Drift.Range.{IsOnlyAt, single-IsOnlyAt}
use dsh_better_edit.Drift.Noticed.{compute_drift-none}

abbrev input : DriftInput
input = record {
  served = some (units "AAA") ∷ some (units "BBB") ∷ some (units "CCC") ∷ some (units "DDD") ∷ [];
  result_hashes = units "AAA" ∷ units "EEE" ∷ units "CCC" ∷ units "DDD" ∷ [];
  result_lines = units "a" ∷ units "e" ∷ units "c" ∷ units "d" ∷ [];
  range = record {
    start_line = 4;
    end_line = 4;
    start_hash = units "DDD";
    end_hash = units "DDD";
    replacement_count = 1;
    replaced_count = 1;
  };
  reported = [];
  cap = 2;
  served_canons = [];
}

abbrev notice : DriftNotice
notice = record {
  rows =
      record {
        position = 0;
        hash = some (units "AAA");
        content = some (units "a");
        drifted = false;
      }
      ∷ record {
        position = 1;
        hash = some (units "EEE");
        content = some (units "e");
        drifted = true;
      }
      ∷ [];
  total = 1;
  more = 1;
  all_already_reported = false;
}

noticed : compute_drift input ≡ some notice
unfolding compute_drift count_drift count_slots count_slot count_drifted served_range
    rotated_survivors has_canons window_of insert_position current_position_of_drifted last_survivor
    first_survivor current_index drift_episode_key has_position has str_eq served_positions_of
    take_canon idx_to_hash idx_loop
noticed = refl

compute_drift-RowsOf_example : (length notice.rows ≤ input.cap) × RowsOf input 0 notice.rows
compute_drift-RowsOf_example = compute_drift-RowsOf input notice noticed

-- The edit was made at the line of DDD, which was served once.
last_IsOnlyAt : IsOnlyAt input.served (units "DDD") 3
last_IsOnlyAt = single-IsOnlyAt input.served (units "DDD") 3 computed
  where
    computed : served_positions_of input.served (units "DDD") 0 ≡ 3 ∷ []
    computed = unfold served_positions_of str_eq in refl

compute_drift-none_example : (compute_drift input ≡ none) ↔ (
    (q : ℕ) (hash : Str)
    → get_elem? input.served q ≡ some (some hash)
    → (q < 3) ⊎ (3 < q)
    → Member hash input.result_hashes)
compute_drift-none_example =
    compute_drift-none input 3 3 (inl (3, 3, last_IsOnlyAt, last_IsOnlyAt, refl, refl)) (λ c m. m)
