-- ===== src/AnchorPipeline/Resolve.antt =====
-- `swapReversedRanges`, `resAnchorFromMap`, `valEdit` and the served rows of `fmtMismatchWithServes`
-- (src/hashline/anchor-pipeline.ts).
pub mod Laws
use dsh_better_edit.Prelude.{
  ℕ, zero, suc, ◌+◌, ◌-◌, Bool, true, false, ◌&&◌, ◌||◌, not, Option, none, some, List, [], ◌∷◌,
  ◌++◌, Str, ◌==◌, leb, ltb, if◌then◌else◌, length, str_eq, get_or, min, max, take,
}
use dsh_better_edit.HashAssign.Stable.{last_index, has_index}
use dsh_better_edit.AnchorPipeline.{
  Anchor, HEdit, RAnchor, RhEdit, ServedRow, Rejection, misaligned, stale_anchor, Warning,
  reversed_anchors, Result, ok, err, ◌>>=◌, abort_if, ◌>>◌,
}

-- `lineByHash.get(hash)`, 1-based; of equal anchors the last line wins.
unfoldable pub line_by_hash : List Str → Str → Option ℕ
line_by_hash file_hashes hash = elim (last_index hash file_hashes 0) [
  | none ↦ none
  | some i ↦ some (suc i)
]

pub record Swapped : Type 0 where
  pub edit : HEdit
  pub warnings : List Warning

abbrev pub swap_if : HEdit → Option ℕ → Option ℕ → Swapped
swap_if edit (some start_line) (some end_line) =
    if leb start_line end_line then record { edit = edit; warnings = [] } else record {
      edit = record edit { from = edit.to; to = edit.from };
      warnings = reversed_anchors edit.from.hash edit.to.hash ∷ [];
    }
swap_if edit start_line end_line = record { edit = edit; warnings = [] }

unfoldable pub swap_reversed_ranges : HEdit → List Str → Swapped
swap_reversed_ranges edit file_hashes =
    swap_if edit (line_by_hash file_hashes edit.from.hash) (line_by_hash file_hashes edit.to.hash)

-- `hashIndex.get(hash)`: the 1-based lines with this anchor, from line `i`.
unfoldable pub lines_with : Str → List Str → ℕ → List ℕ
lines_with hash [] i = []
lines_with hash (h ∷ hs) i =
    if str_eq h hash then i ∷ lines_with hash hs (suc i) else lines_with hash hs (suc i)

-- `HMismatch`; a mismatch that is not found may carry the other bound.
pub data HMismatch : Type 0 where
  not_found : Anchor → Option RAnchor → HMismatch
  ambiguous : Anchor → List ℕ → HMismatch

pub data Resolved : Type 0 where
  at_line : RAnchor → Resolved
  mismatch : HMismatch → Resolved

unfoldable pub res_anchor_from_map : Anchor → List ℕ → Resolved
res_anchor_from_map ref [] = mismatch (not_found ref none)
res_anchor_from_map ref (line ∷ []) = at_line (record { line = line; hash = ref.hash })
res_anchor_from_map ref (line ∷ other ∷ lines) = mismatch (ambiguous ref (line ∷ other ∷ lines))

-- The other bound becomes the context of a bound that was not found.
abbrev pub with_context : HMismatch → RAnchor → HMismatch
with_context (not_found ref _) other = not_found ref (some other)
with_context (ambiguous ref lines) other = ambiguous ref lines

pub data Validated : Type 0 where
  resolved : RhEdit → Validated
  mismatches : List HMismatch → Validated

abbrev pub val_bounds : List Str → Resolved → Resolved → Validated
val_bounds content (at_line s) (at_line e) =
    resolved (record { content_lines = content; from = s; to = e })
val_bounds content (mismatch m) (at_line e) = mismatches (with_context m e ∷ [])
val_bounds content (at_line s) (mismatch m) = mismatches (with_context m s ∷ [])
val_bounds content (mismatch m) (mismatch n) = mismatches (m ∷ n ∷ [])

abbrev pub assert_aligned : List Str → List Str → Result (Unit {0})
assert_aligned file_lines file_hashes =
    if length file_hashes == length file_lines then ok tt else err misaligned

unfoldable pub val_edit : HEdit → List Str → List Str → Bool → Result Validated
val_edit edit file_lines file_hashes aborted = do
  assert_aligned file_lines file_hashes
  abort_if aborted
  ok (
      val_bounds edit.content_lines
        (res_anchor_from_map edit.from (lines_with edit.from.hash file_hashes 1))
        (res_anchor_from_map edit.to (lines_with edit.to.hash file_hashes 1)))

-- The rows of `fmtMismatchWithServes` with the set of positions already shown.
pub record Rows : Type 0 where
  pub rows : List ServedRow
  pub seen : List ℕ

unfoldable pub push_row : List Str → List Str → Rows → ℕ → Rows
push_row file_lines file_hashes r ln =
    if (ln == 0) || ltb (length file_lines) ln || has_index (ln - 1) r.seen then r else record {
      rows = r.rows ++ record { position = ln - 1; hash = get_or file_hashes (ln - 1) [] } ∷ [];
      seen = (ln - 1) ∷ r.seen;
    }

-- `pushRow` for `count` lines from line `ln`.
unfoldable pub push_range : List Str → List Str → Rows → ℕ → ℕ → Rows
push_range file_lines file_hashes r ln zero = r
push_range file_lines file_hashes r ln (suc count) =
    push_range file_lines file_hashes (push_row file_lines file_hashes r ln) (suc ln) count

unfoldable pub push_lines : List Str → List Str → Rows → List ℕ → Rows
push_lines file_lines file_hashes r [] = r
push_lines file_lines file_hashes r (ln ∷ lns) =
    push_lines file_lines file_hashes (push_row file_lines file_hashes r ln) lns

-- First the rows around the contexts of the anchors that were not found.
unfoldable pub context_rows : List Str → List Str → Rows → List HMismatch → Rows
context_rows file_lines file_hashes r [] = r
context_rows file_lines file_hashes r (not_found ref (some ctx) ∷ ms) =
    let from = max 1 (ctx.line - 1) in
    let to = min (length file_lines) (ctx.line + 1) in
    context_rows file_lines file_hashes (push_range file_lines file_hashes r from (to + 1 - from))
      ms
context_rows file_lines file_hashes r (m ∷ ms) = context_rows file_lines file_hashes r ms

-- Then up to five lines of each ambiguous anchor.
unfoldable pub sample_rows : List Str → List Str → Rows → List HMismatch → Rows
sample_rows file_lines file_hashes r [] = r
sample_rows file_lines file_hashes r (ambiguous ref lines ∷ ms) =
    sample_rows file_lines file_hashes (push_lines file_lines file_hashes r (take 5 lines)) ms
sample_rows file_lines file_hashes r (not_found ref ctx ∷ ms) =
    sample_rows file_lines file_hashes r ms

unfoldable pub mismatch_rows : List HMismatch → List Str → List Str → List ServedRow
mismatch_rows ms file_lines file_hashes =
    (sample_rows file_lines file_hashes
      (context_rows file_lines file_hashes (record { rows = []; seen = [] }) ms) ms).rows
