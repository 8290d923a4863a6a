-- ===== src/Tests/Texts.antt =====
-- Line endings of a small text.
use dsh_better_edit.Prelude.{◌≡◌, refl, some, Str, units}
use dsh_better_edit.Text.{
  lf, crlf_end, cr_end, detect_ending, index_of_unit, restore_endings, to_lf,
}
use dsh_better_edit.Text.Endings.{IsLf, detect_ending-restore_endings, to_lf-restore_endings}

abbrev sample : Str
sample = units "a\nb"

sample-IsLf : IsLf sample
sample-IsLf = ((λ e. cc), ((λ e. cc), ((λ e. cc), tt)))

sample_newline : index_of_unit lf sample ≡ some 1
unfolding index_of_unit
sample_newline = refl

to_lf-restore_endings_example : to_lf (restore_endings sample cr_end) ≡ sample
to_lf-restore_endings_example = to_lf-restore_endings sample cr_end sample-IsLf

detect_ending-restore_endings_example : detect_ending (restore_endings sample crlf_end) ≡ crlf_end
detect_ending-restore_endings_example =
    detect_ending-restore_endings sample crlf_end 1 sample-IsLf sample_newline
