-- ===== src/AnchorPipeline/Span.antt =====
-- The edit as a text operation: `buildIdx`, `resToSpan`, `assemble`, `assertNotEmpty`, `resolvedRange` and
-- `changedRange` (src/hashline/anchor-pipeline.ts).
pub mod Offsets
pub mod Form
pub mod Replace
pub mod Delete
pub mod Changed
use dsh_better_edit.Prelude.{
  ℕ, zero, suc, ◌+◌, ◌-◌, Bool, true, false, ◌&&◌, ◌||◌, not, Option, none, some, List, [], ◌∷◌,
  ◌++◌, Str, ◌==◌, leb, ltb, if◌then◌else◌, length, str_eq, get_or, get_elem?, min, max, take, drop,
}
use dsh_better_edit.Text.{split_lines, join_nl, ends_with_nl}
use dsh_better_edit.AnchorPipeline.{RAnchor, RhEdit, empty_range, Result, ok, err, line_at}

-- `lineStarts`: the offset of each line, with one code unit for the newline between two lines.
unfoldable pub line_starts : List Str → ℕ → List ℕ
line_starts [] offset = []
line_starts (l ∷ []) offset = offset ∷ []
line_starts (l ∷ m ∷ ls) offset = offset ∷ line_starts (m ∷ ls) (offset + length l + 1)

pub record LIdx : Type 0 where
  pub file_lines : List Str
  pub starts : List ℕ

unfoldable pub build_idx : Str → LIdx
build_idx content = record {
  file_lines = split_lines content;
  starts = line_starts (split_lines content) 0;
}

unfoldable pub lines_eq : List Str → List Str → Bool
lines_eq [] [] = true
lines_eq [] (m ∷ ms) = false
lines_eq (l ∷ ls) [] = false
lines_eq (l ∷ ls) (m ∷ ms) = str_eq l m && lines_eq ls ms

pub data Span : Type 0 where
  replace : ℕ → ℕ → Str → Span
  noop : Str → Str → Span

abbrev pub is_empty : Str → Bool
is_empty [] = true
is_empty (c ∷ s) = false

-- Where the deletion of the last lines starts: the newline before them goes too, unless the line
-- before it is empty.
abbrev pub tail_start : LIdx → ℕ → ℕ
tail_start idx start_line =
    if leb 2 start_line && is_empty (line_at idx.file_lines (start_line - 2))
    then get_or idx.starts (start_line - 1) 0
    else get_or idx.starts (start_line - 1) 0 - 1

-- `resToSpan` for an edit without content.
unfoldable pub delete_span : ℕ → ℕ → Str → LIdx → Span
delete_span start_line end_line content idx =
    if (start_line == 1) && (end_line == length idx.file_lines)
    then replace 0 (length content) []
    else if ltb end_line (length idx.file_lines)
    then replace (get_or idx.starts (start_line - 1) 0) (get_or idx.starts end_line 0) []
    else if ends_with_nl content
    then replace (get_or idx.starts (start_line - 1) 0) (length content) []
    else replace (tail_start idx start_line) (length content) []

-- `resToSpan` for an edit with content.
unfoldable pub replace_span : ℕ → ℕ → List Str → LIdx → Span
replace_span start_line end_line content_lines idx =
    replace (get_or idx.starts (start_line - 1) 0)
      (get_or idx.starts (end_line - 1) 0 + length (line_at idx.file_lines (end_line - 1)))
      (join_nl content_lines)

abbrev pub changed_span : ℕ → ℕ → List Str → Str → LIdx → Span
changed_span start_line end_line [] content idx = delete_span start_line end_line content idx
changed_span start_line end_line (l ∷ ls) content idx =
    replace_span start_line end_line (l ∷ ls) idx

-- `fileLines.slice(startLine - 1, endLine)`.
abbrev pub original_lines : ℕ → ℕ → LIdx → List Str
original_lines start_line end_line idx =
    take (end_line - (start_line - 1)) (drop (start_line - 1) idx.file_lines)

unfoldable pub res_to_span : RhEdit → Str → LIdx → Span
res_to_span edit content idx =
    let original = original_lines edit.from.line edit.to.line idx in
    if lines_eq original edit.content_lines
    then noop edit.from.hash (join_nl original)
    else changed_span edit.from.line edit.to.line edit.content_lines content idx

-- `content.slice(0, start) + replacement + content.slice(end)`.
unfoldable pub assemble : Str → ℕ → ℕ → Str → Str
assemble content start end replacement = take start content ++ (replacement ++ drop end content)

abbrev pub assert_not_empty : Str → Str → Result (Unit {0})
assert_not_empty (c ∷ content) [] = err empty_range
assert_not_empty content result = ok tt

-- `ResolvedRange`; its delta is `replacement_count - replaced_count`.
pub record ResolvedRange : Type 0 where
  pub start_line : ℕ
  pub end_line : ℕ
  pub start_hash : Str
  pub end_hash : Str
  pub replacement_count : ℕ
  pub replaced_count : ℕ

unfoldable pub resolved_range : RhEdit → ResolvedRange
resolved_range r = record {
  start_line = r.from.line;
  end_line = r.to.line;
  start_hash = r.from.hash;
  end_hash = r.to.hash;
  replacement_count = length r.content_lines;
  replaced_count = (r.to.line - r.from.line) + (r.from.line - r.to.line) + 1;
}

pub record ChangedRange : Type 0 where
  pub first_changed_line : ℕ
  pub last_changed_line : ℕ

-- The first loop: lines that agree from the start.
unfoldable pub common_prefix : List Str → List Str → ℕ
common_prefix [] ms = 0
common_prefix (l ∷ ls) [] = 0
common_prefix (l ∷ ls) (m ∷ ms) =
    let rest = common_prefix ls ms in if str_eq l m then suc rest else 0

-- The second loop, with `orig = lastOrig + 1` and `res = lastRes + 1`; the result is the last `res`.
unfoldable pub suffix_loop : ℕ → List Str → List Str → ℕ → ℕ → ℕ → ℕ
suffix_loop zero ls ms first orig res = res
suffix_loop (suc fuel) ls ms first orig res =
    elim (ltb first orig
      && ltb first res
      && str_eq (line_at ls (orig - 1)) (line_at ms (res - 1))) [
        | true ↦ suffix_loop fuel ls ms first (orig - 1) (res - 1)
        | false ↦ res
      ]

unfoldable pub changed_lines : List Str → List Str → Option ChangedRange
changed_lines ls ms =
    if lines_eq ls ms
    then none
    else some (record {
      first_changed_line = common_prefix ls ms + 1;
      last_changed_line =
          max (common_prefix ls ms + 1)
            (suffix_loop (length ls) ls ms (common_prefix ls ms) (length ls) (length ms));
    })

unfoldable pub changed_range : Str → Str → Option ChangedRange
changed_range original result =
    if str_eq original result
    then none
    else if is_empty original
    then some (record { first_changed_line = 1; last_changed_line = length (split_lines result) })
    else changed_lines (split_lines original) (split_lines result)
