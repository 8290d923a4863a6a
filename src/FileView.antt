-- ===== src/FileView.antt =====
-- src/file-view.ts: `truncateHead`, which keeps the first lines of a text that fit into a number of lines
-- and of bytes. `Buffer.byteLength` on UTF-8 belongs to the platform and is an argument. `Preview` has the page of
-- a read.
pub mod Truncate
pub mod Preview
use dsh_better_edit.Prelude.{
  ℕ, suc, ◌+◌, Bool, true, false, ◌&&◌, not, Option, none, some, List, [], ◌∷◌, Str, ltb, leb,
  if◌then◌else◌, length, get_or,
}
use dsh_better_edit.Text.{split_nl, join_nl, ends_with_nl, drop_last}

pub data TruncatedBy : Type 0 where
  by_lines by_bytes : TruncatedBy

pub record TruncationResult : Type 0 where
  pub content : Str
  pub was_truncated : Bool
  pub truncated_by : Option TruncatedBy
  pub total_lines : ℕ
  pub total_bytes : ℕ
  pub output_lines : ℕ
  pub output_bytes : ℕ
  pub last_line_partial : Bool
  pub first_line_exceeds_limit : Bool
  pub max_lines : ℕ
  pub max_bytes : ℕ

unfoldable pub split_lines_for_counting : Str → List Str
split_lines_for_counting [] = []
split_lines_for_counting (c ∷ s) =
    if ends_with_nl (c ∷ s) then drop_last (split_nl (c ∷ s)) else split_nl (c ∷ s)

-- What the loop has when it ends: its lines, their bytes and why it ended.
pub record HeadLines : Type 0 where
  pub lines : List Str
  pub bytes : ℕ
  pub stopped_by : TruncatedBy

abbrev pub push_line : Str → HeadLines → HeadLines
push_line line t = record t { lines = line ∷ t.lines }

-- `Buffer.byteLength(line, "utf-8") + (i > 0 ? 1 : 0)`.
abbrev pub line_bytes : (Str → ℕ) → ℕ → Str → ℕ
line_bytes byte_length i line = byte_length line + (if ltb 0 i then 1 else 0)

-- The loop of `truncateHead` from line `i` on, with `used` for `outputBytesCount`.
unfoldable pub take_lines : (Str → ℕ) → ℕ → ℕ → ℕ → ℕ → List Str → HeadLines
take_lines byte_length max_lines max_bytes i used [] = record {
  lines = [];
  bytes = used;
  stopped_by = by_lines;
}
take_lines byte_length max_lines max_bytes i used (line ∷ lines) =
    let now_used = used + line_bytes byte_length i line in
    let rest = take_lines byte_length max_lines max_bytes (suc i) now_used lines in
    if ltb i max_lines
    then (if ltb max_bytes now_used
        then record { lines = []; bytes = used; stopped_by = by_bytes }
        else push_line line rest)
    else record { lines = []; bytes = used; stopped_by = by_lines }

-- The result that hands the whole text on.
abbrev pub untruncated : Str → ℕ → ℕ → ℕ → ℕ → TruncationResult
untruncated content total_lines total_bytes max_lines max_bytes = record {
  content = content;
  was_truncated = false;
  truncated_by = none;
  total_lines = total_lines;
  total_bytes = total_bytes;
  output_lines = total_lines;
  output_bytes = total_bytes;
  last_line_partial = false;
  first_line_exceeds_limit = false;
  max_lines = max_lines;
  max_bytes = max_bytes;
}

-- The result where not even the first line fits.
abbrev pub first_exceeds : ℕ → ℕ → ℕ → ℕ → TruncationResult
first_exceeds total_lines total_bytes max_lines max_bytes = record {
  content = [];
  was_truncated = true;
  truncated_by = some by_bytes;
  total_lines = total_lines;
  total_bytes = total_bytes;
  output_lines = 0;
  output_bytes = 0;
  last_line_partial = false;
  first_line_exceeds_limit = true;
  max_lines = max_lines;
  max_bytes = max_bytes;
}

-- The result of the lines that the loop took.
abbrev pub cut_to : (Str → ℕ) → HeadLines → ℕ → ℕ → ℕ → ℕ → TruncationResult
cut_to byte_length t total_lines total_bytes max_lines max_bytes = record {
  content = join_nl t.lines;
  was_truncated = true;
  truncated_by =
      some (
        if leb max_lines (length t.lines) && leb t.bytes max_bytes then by_lines else t.stopped_by);
  total_lines = total_lines;
  total_bytes = total_bytes;
  output_lines = length t.lines;
  output_bytes = byte_length (join_nl t.lines);
  last_line_partial = false;
  first_line_exceeds_limit = false;
  max_lines = max_lines;
  max_bytes = max_bytes;
}

unfoldable pub truncate_head : (Str → ℕ) → Str → ℕ → ℕ → TruncationResult
truncate_head byte_length content max_lines max_bytes =
    let lines = split_lines_for_counting content in
    let total_lines = length lines in
    let total_bytes = byte_length content in
    if leb total_lines max_lines && leb total_bytes max_bytes
    then untruncated content total_lines total_bytes max_lines max_bytes
    else (if ltb max_bytes (byte_length (get_or lines 0 []))
        then first_exceeds total_lines total_bytes max_lines max_bytes
        else cut_to byte_length (take_lines byte_length max_lines max_bytes 0 0 lines) total_lines
            total_bytes max_lines max_bytes)
