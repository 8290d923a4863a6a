-- ===== src/Tests/Views.antt =====
-- A text of three lines, cut to a number of bytes. Bytes are counted as code units here.
use dsh_better_edit.Prelude.{
  ◌+◌, ◌∷◌, ◌++◌, ◌≡◌, refl, Str, units, length, length-append, arith, List, [], some, true,
}
use dsh_better_edit.Text.{lf, split_nl, join_nl, ends_with_nl, drop_last}
use dsh_better_edit.FileView.{split_lines_for_counting, take_lines, truncate_head}
use dsh_better_edit.FileView.Preview.{hashline_rows, fmt_region, PreviewArgs, build_normal_preview}
use dsh_better_edit.Text.Lines.{AllLines}
use dsh_better_edit.FileView.Preview.Shown.{IsShown, build_normal_preview-IsShown}
use dsh_better_edit.FileView.Truncate.{IsTruncation, truncate_head-IsTruncation}

abbrev text : Str
text = units "abc\nde\nf\n"

length_join : (a b : Str) → length (a ++ lf ∷ b) ≡ length a + (1 + length b)
length_join a b = omega (arith, length-append a (lf ∷ b))

two_lines_fit : (truncate_head length text 10 7).content ≡ units "abc\nde"
unfolding truncate_head split_lines_for_counting take_lines split_nl join_nl ends_with_nl drop_last
two_lines_fit = refl

truncate_head-IsTruncation_example : IsTruncation length text 10 7 (truncate_head length text 10 7)
truncate_head-IsTruncation_example = truncate_head-IsTruncation length refl length_join text 10 7

abbrev page_lines : List Str
page_lines = units "ab" ∷ units "cd" ∷ []

abbrev page_hashes : List Str
page_hashes = units "Aa1" ∷ units "Bb2" ∷ []

-- Lines 4 and 5 of a file of nine, with room for one row of six units.
abbrev page : PreviewArgs
page = record {
  formatted = units "Aa1│ab\nBb2│cd";
  start_line = 4;
  end_idx = 5;
  total_lines = 9;
  max_bytes = 8;
  max_trunc_lines = 10;
  selected_hashes = page_hashes;
  hint_remainder = true;
}

page_region : fmt_region page_hashes page_lines ≡ some page.formatted
unfolding fmt_region hashline_rows join_nl
page_region = refl

page_hashes-AllLines : AllLines page_hashes
page_hashes-AllLines =
    (((λ e. cc), ((λ e. cc), ((λ e. cc), tt))), (((λ e. cc), ((λ e. cc), ((λ e. cc), tt))), tt))

page_lines-AllLines : AllLines page_lines
page_lines-AllLines = (((λ e. cc), ((λ e. cc), tt)), (((λ e. cc), ((λ e. cc), tt)), tt))

build_normal_preview-IsShown_example :
    IsShown length page page_lines (build_normal_preview length page)
build_normal_preview-IsShown_example =
    build_normal_preview-IsShown length page page_lines (λ e. cc) page_region page_hashes-AllLines
      page_lines-AllLines (omega arith) refl refl length_join
