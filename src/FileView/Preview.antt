-- ===== src/FileView/Preview.antt =====
-- src/file-view.ts: `buildNormalPreview`, the page of a file that a read shows, with the rows it serves;
-- `fmtRegion` is in src/hashline/anchor-pipeline.ts. The hint on the lines that follow is kept as
-- the numbers in it.
pub mod Rows
pub mod Shown
use dsh_better_edit.Prelude.{
  ℕ, zero, suc, ◌+◌, ◌-◌, Bool, true, false, ◌&&◌, Option, none, some, List, [], ◌∷◌, ◌++◌, Str,
  ltb, ◌==◌, if◌then◌else◌, length, get_or,
}
use dsh_better_edit.Text.{join_nl}
use dsh_better_edit.HashAssign.{hash_sep}
use dsh_better_edit.AnchorPipeline.{ServedRow}
use dsh_better_edit.FileView.{TruncatedBy, by_lines, by_bytes, TruncationResult, truncate_head}

-- A line behind its anchor.
abbrev pub hashline_row : Str → Str → Str
hashline_row hash line = hash ++ hash_sep ∷ line

-- `lines.map(...)`, with the anchors beside the lines.
unfoldable pub hashline_rows : List Str → List Str → List Str
hashline_rows [] lines = []
hashline_rows (hash ∷ hashes) [] = []
hashline_rows (hash ∷ hashes) (line ∷ lines) = hashline_row hash line ∷ hashline_rows hashes lines

-- `none` where the lengths differ and the code throws.
unfoldable pub fmt_region : List Str → List Str → Option Str
fmt_region hashes lines =
    if length hashes == length lines then some (join_nl (hashline_rows hashes lines)) else none

-- The arguments of `formatPaginationHint`.
pub record Hint : Type 0 where
  pub start_line : ℕ
  pub end_line : ℕ
  pub total_lines : ℕ
  pub next_offset : ℕ
  pub byte_limit : Option ℕ

-- The result; `preview` is the text before the hint.
pub record NormalPreview : Type 0 where
  pub preview : Str
  pub hint : Option Hint
  pub truncation : TruncationResult
  pub served : List ServedRow

pub record PreviewArgs : Type 0 where
  pub formatted : Str
  pub start_line : ℕ
  pub end_idx : ℕ
  pub total_lines : ℕ
  pub max_bytes : ℕ
  pub max_trunc_lines : ℕ
  pub selected_hashes : List Str
  pub hint_remainder : Bool

-- The byte limit stands in the hint unless the lines were cut by their number.
abbrev pub limit_shown : Option TruncatedBy → ℕ → Option ℕ
limit_shown (some by_lines) limit = none
limit_shown (some by_bytes) limit = some limit
limit_shown none limit = some limit

unfoldable pub hint_of : PreviewArgs → TruncationResult → Option Hint
hint_of a t =
    if t.was_truncated
    then some (record {
      start_line = a.start_line;
      end_line = a.start_line + t.output_lines - 1;
      total_lines = a.total_lines;
      next_offset = a.start_line + t.output_lines - 1 + 1;
      byte_limit = limit_shown t.truncated_by t.max_bytes;
    })
    else (if a.hint_remainder && ltb a.end_idx a.total_lines
        then some (record {
          start_line = a.start_line;
          end_line = a.end_idx;
          total_lines = a.total_lines;
          next_offset = a.end_idx + 1;
          byte_limit = none;
        })
        else none)

-- The loop over the shown lines, from `index` on.
unfoldable pub rows_served : ℕ → ℕ → ℕ → List Str → List ServedRow
rows_served start_line zero index hashes = []
rows_served start_line (suc count) index hashes =
    record { position = start_line - 1 + index; hash = get_or hashes index [] }
    ∷ rows_served start_line count (suc index) hashes

abbrev pub preview_of : PreviewArgs → TruncationResult → NormalPreview
preview_of a t = record {
  preview = t.content;
  hint = hint_of a t;
  truncation = t;
  served = rows_served a.start_line t.output_lines 0 a.selected_hashes;
}

unfoldable pub build_normal_preview : (Str → ℕ) → PreviewArgs → NormalPreview
build_normal_preview byte_length a =
    preview_of a (truncate_head byte_length a.formatted a.max_trunc_lines a.max_bytes)
