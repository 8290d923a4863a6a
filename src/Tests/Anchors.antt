-- ===== src/Tests/Anchors.antt =====
-- Allocation and mapping of anchors on small inputs.
use dsh_better_edit.Prelude.{
  ◌≢◌, ℕ, zero, suc, ◌<◌, ◌≤◌, ◌≡◌, refl, true, none, some, List, [], ◌∷◌, Str, units, length,
  arith, get_or, str_eq, str_eq-ne, has, Distinct, All,
}
use dsh_better_edit.Text.{split_nl, ends_with_nl, drop_last, split_lines}
use dsh_better_edit.HashAssign.{
  hash_space, alph, alph_at, idx_loop, idx_to_hash, position_of, index_loop, hash_to_index, is_alph,
  matches_hash_re, canon, empty_bits, shift_right, or_bit, get_bit, set_bit, probe, next_zero_bit,
  assign_hash, mark_hash_used, mark_all, base_index, assign_all, line_hashes_pure, allocated,
}
use dsh_better_edit.HashAssign.Codec.{hash_to_index-idx_to_hash, idx_to_hash-hash_to_index}
use dsh_better_edit.HashAssign.Fresh.{AreFresh, line_hashes_pure-AreFresh, line_hashes_pure-total}
use dsh_better_edit.HashAssign.Stable.{
  lower_loop, nearer, nearest_new, last_index, removed_indexes, has_index, span_end, survivors,
  positions, remove_at, mark_used, target_of, place_at, place, place_all, fill, empty_slots,
  blocked_bits, placement, map_stable_hashes,
}
use dsh_better_edit.HashAssign.Stable.Nearest.{distance, nearest_new-nearest}
use dsh_better_edit.HashAssign.Stable.Laws.{IsStable, map_stable_hashes-IsStable}
use dsh_better_edit.HashAssign.Stable.Unchanged.{map_stable_hashes-unchanged}

-- A stand-in for the hash function.
abbrev size : Str → ℕ
size s = length s

-- What the runs below compute with.
run : Unit {0}
unfolding split_nl ends_with_nl drop_last split_lines alph alph_at idx_loop idx_to_hash position_of
    index_loop hash_to_index is_alph matches_hash_re canon empty_bits shift_right or_bit get_bit
    set_bit probe next_zero_bit assign_hash mark_hash_used mark_all base_index assign_all
    line_hashes_pure lower_loop nearer nearest_new last_index removed_indexes has_index span_end
    survivors positions remove_at mark_used target_of place_at place place_all fill empty_slots
    blocked_bits placement map_stable_hashes str_eq has
run = tt

hash_to_index-idx_to_hash_example : hash_to_index (idx_to_hash 63) ≡ some 63
hash_to_index-idx_to_hash_example = hash_to_index-idx_to_hash 63 (omega arith)

aab_matches : matches_hash_re (units "aB9") ≡ true
unfolding run
aab_matches = refl

idx_to_hash-hash_to_index_example :
    (n : ℕ) × (hash_to_index (units "aB9") ≡ some n)
    × (n < hash_space)
    × (idx_to_hash n ≡ units "aB9")
idx_to_hash-hash_to_index_example = idx_to_hash-hash_to_index (units "aB9") aab_matches

abbrev two_lines : Str
two_lines = units "a\nb\n"

length-split_lines_two : length (split_lines two_lines) ≡ 2
unfolding run
length-split_lines_two = refl

line_hashes_pure-total_example :
    (hashes : List Str) × (line_hashes_pure size two_lines (units "AAB" ∷ []) none none
      ≡ allocated hashes)
line_hashes_pure-total_example =
    line_hashes_pure-total size two_lines (units "AAB" ∷ []) none none
      (omega (arith, length-split_lines_two))

-- The first line would get AAB, which is reserved.
abbrev two_anchors : List Str
two_anchors = units "AAA" ∷ units "BBB" ∷ []

two_allocated : line_hashes_pure size two_lines (units "AAB" ∷ []) none none ≡ allocated two_anchors
unfolding run
two_allocated = refl

line_hashes_pure-AreFresh_example : AreFresh two_lines (units "AAB" ∷ []) two_anchors
line_hashes_pure-AreFresh_example =
    line_hashes_pure-AreFresh size two_lines (units "AAB" ∷ []) none none two_anchors two_allocated

-- A line is put between two lines, which keep their anchors.
abbrev old_anchors : List Str
old_anchors = units "AAB" ∷ units "AAC" ∷ []

abbrev three_lines : Str
three_lines = units "a\nc\nb\n"

abbrev new_anchors : List Str
new_anchors = units "AAB" ∷ units "AAA" ∷ units "AAC" ∷ []

three_mapped :
    map_stable_hashes size two_lines old_anchors three_lines [] [] none none ≡ allocated new_anchors
unfolding run
three_mapped = refl

old-Distinct : Distinct old_anchors
unfolding run
old-Distinct = ((str_eq-ne (units "AAB") (units "AAC") refl, tt), (tt, tt))

old_well_formed : All (λ h. matches_hash_re h ≡ true) old_anchors
unfolding run
old_well_formed = (refl, (refl, tt))

map_stable_hashes-IsStable_example :
    IsStable (split_lines two_lines) old_anchors (split_lines three_lines) [] [] new_anchors
map_stable_hashes-IsStable_example =
    map_stable_hashes-IsStable size two_lines old_anchors three_lines [] [] none none new_anchors
      old-Distinct old_well_formed three_mapped

old_aligned : length old_anchors ≡ length (split_lines two_lines)
unfolding run
old_aligned = refl

old_nonempty : All (λ h. h ≢ []) old_anchors
old_nonempty = ((λ e. cc), ((λ e. cc), tt))

map_stable_hashes-unchanged_example :
    map_stable_hashes size two_lines old_anchors two_lines [] [] none none ≡ allocated old_anchors
map_stable_hashes-unchanged_example =
    map_stable_hashes-unchanged size two_lines old_anchors [] none none old_aligned old_nonempty

-- A bitset whose slot 5 is in use.
start_taken : next_zero_bit (set_bit empty_bits 5) 5 ≡ some 3912
unfolding run
start_taken = refl

two_ascending : (i j : ℕ) → i ≤ j → j < 2 → get_or (2 ∷ 5 ∷ []) i 0 ≤ get_or (2 ∷ 5 ∷ []) j 0
two_ascending zero zero h k = omega arith
two_ascending zero (suc zero) h k = omega arith
two_ascending (suc zero) (suc zero) h k = omega arith
two_ascending (suc i) zero h k = absurd (omega arith)
two_ascending (suc (suc i)) (suc zero) h k = absurd (omega arith)
two_ascending i (suc (suc j)) h k = absurd (omega arith)

nearest_new-nearest_example :
    (p : ℕ) × (nearest_new (2 ∷ 5 ∷ []) 4 ≡ some p)
    × (p < 2)
    × (distance (get_or (2 ∷ 5 ∷ []) p 0) 4 ≤ distance 2 4)
nearest_new-nearest_example = nearest_new-nearest (2 ∷ 5 ∷ []) 4 0 two_ascending (omega arith)
