-- ===== src/Tests/Diffs.antt =====
-- The diff of a short file.
use dsh_better_edit.Prelude.{
  ◌≡◌, ◌≤◌, refl, true, false, none, some, List, [], ◌∷◌, Str, units, map, length, All, arith,
}
use dsh_better_edit.Text.{split_nl}
use dsh_better_edit.Diff.{
  Part, diff_from, gen_diff, gap_of, show_lines, display_lines, format_removed_lines, removed_rows,
  first_change_from,
}
use dsh_better_edit.Diff.Aligned.{shown, served_line, HasAnchor}
use dsh_better_edit.Diff.Served.{new_lines, is_separated, gen_diff-shown}

abbrev kept : Str → Part
kept value = record { added = false; removed = false; value = value }

abbrev parts : List Part
parts =
    kept (97 ∷ 10 ∷ 98 ∷ 10 ∷ 99 ∷ 10 ∷ [])
    ∷ record { added = false; removed = true; value = 100 ∷ 10 ∷ [] }
    ∷ record { added = true; removed = false; value = 101 ∷ 10 ∷ [] }
    ∷ kept (102 ∷ 10 ∷ [])
    ∷ []

abbrev hashes : List Str
hashes = units "AAA" ∷ units "BBB" ∷ units "CCC" ∷ units "DDD" ∷ units "EEE" ∷ []

separated : is_separated parts ≡ true
unfolding is_separated
separated = refl

served :
    (gen_diff parts 1 hashes none).served_rows
    ≡ record { position = 2; hash = units "CCC" }
      ∷ record { position = 3; hash = units "DDD" }
      ∷ record { position = 4; hash = units "EEE" }
      ∷ []
unfolding gen_diff diff_from gap_of show_lines display_lines split_nl format_removed_lines
    removed_rows
served = refl

first_changed : (gen_diff parts 1 hashes none).first_changed_line ≡ some 4
unfolding gen_diff first_change_from gap_of display_lines split_nl show_lines
first_changed = refl

gen_diff-shown_example :
    (shown (diff_from 1 hashes none false 1 1 parts).rows
      ≡ map (served_line (new_lines parts)) (gen_diff parts 1 hashes none).served_rows)
    × All (HasAnchor hashes) (gen_diff parts 1 hashes none).served_rows
gen_diff-shown_example = gen_diff-shown parts 1 hashes none separated covered
  where
    covered : length (new_lines parts) ≤ length hashes
    covered = unfold new_lines display_lines split_nl in omega arith
