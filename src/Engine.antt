-- ===== src/Engine.antt =====
-- src/mutation/engine.ts: the bookkeeping of a batch on one file. The line identities of the working buffer
-- between items, the counts of lines, the envelope of all failed items, the guard on edits that
-- change nothing, and the ledger of reported identity faults. The sequencer `runFileEdits` itself
-- and its calls of the store are not part of it.
pub mod Lookup
pub mod Identity
pub mod Ledger
use dsh_better_edit.Prelude.{
  ℕ, zero, suc, ◌+◌, ◌-◌, Bool, true, false, ◌&&◌, not, Option, none, some, List, [], ◌∷◌, ◌++◌,
  Str, ltb, leb, ◌==◌, if◌then◌else◌, length, take, drop, replicate, map, has, str_eq, min, max,
}
use dsh_better_edit.AnchorPipeline.{
  HEdit, ServedRow, Rejection, Cause, no_cause, staleness, never_served, retirement,
  anchor_staleness, served_span,
}
use dsh_better_edit.AnchorPipeline.Leases.{build_range_echo}
use dsh_better_edit.AnchorPipeline.Verify.{index_of_hash}
use dsh_better_edit.NoopGuard.{noop_loop_threshold}

-- The two lines of an edit's bounds, in order and counted from 0, if both anchors are in the file.
pub record Bounds : Type 0 where
  pub first : ℕ
  pub last : ℕ

abbrev pub bounds_by : Option ℕ → Option ℕ → Option Bounds
bounds_by none e = none
bounds_by (some s) none = none
bounds_by (some s) (some e) = some (record { first = min s e; last = max s e })

unfoldable pub bounds_in : HEdit → List Str → Option Bounds
bounds_in edit hashes =
    bounds_by (index_of_hash edit.from.hash hashes 0) (index_of_hash edit.to.hash hashes 0)

-- `collectRemovedHashes`, the members in order.
unfoldable pub collect_removed_hashes : HEdit → List Str → List Str
collect_removed_hashes edit hashes = elim (bounds_in edit hashes) [
  | none ↦ []
  | some b ↦ take (b.last + 1 - b.first) (drop b.first hashes)
]

pub record LineChanges : Type 0 where
  pub added : ℕ
  pub removed : ℕ

abbrev pub span_of : Option Bounds → ℕ
span_of none = 0
span_of (some b) = b.last - b.first + 1

unfoldable pub count_line_changes : HEdit → List Str → Bool → ℕ → LineChanges
count_line_changes edit hashes is_noop removed_auto_fixes =
    if is_noop then record { added = 0; removed = 0 } else record {
      added = length edit.content_lines - removed_auto_fixes;
      removed = span_of (bounds_in edit hashes);
    }

-- `echoRowsForItem`.
unfoldable pub echo_rows_for_item : HEdit → List Str → Option (List ServedRow)
echo_rows_for_item edit hashes = elim (bounds_in edit hashes) [
  | none ↦ none
  | some b ↦ some (build_range_echo (b.first + 1) (b.last + 1) hashes)
]

-- One failed item; its message is its rejection.
pub record AbortPart : Type 0 where
  pub index : ℕ
  pub inner : Rejection
  pub part_rows : Option (List ServedRow)
  pub cause : Cause

abbrev pub echo_of : Option HEdit → List Str → Option (List ServedRow)
echo_of none hashes = none
echo_of (some edit) hashes = echo_rows_for_item edit hashes

abbrev pub own_rows : List ServedRow → Option HEdit → List Str → Option (List ServedRow)
own_rows [] edit hashes = echo_of edit hashes
own_rows (r ∷ rows) edit hashes = some (r ∷ rows)

unfoldable pub collect_abort_part :
    Rejection → List ServedRow → Cause → Option HEdit → ℕ → List Str → AbortPart
collect_abort_part error error_rows cause edit index hashes = record {
  index = index;
  inner = error;
  part_rows = own_rows error_rows edit hashes;
  cause = cause;
}

-- `E_BATCH_ABORT`.
pub record BatchAbort : Type 0 where
  pub index : ℕ
  pub inner : Rejection
  pub served_rows : List ServedRow
  pub failures : List AbortPart
  pub cause : Cause

abbrev pub rows_or_none : Option (List ServedRow) → List ServedRow
rows_or_none none = []
rows_or_none (some rows) = rows

unfoldable pub all_rows : List AbortPart → List ServedRow
all_rows [] = []
all_rows (part ∷ parts) = rows_or_none part.part_rows ++ all_rows parts

abbrev pub cause_code : Cause → ℕ
cause_code no_cause = 0
cause_code staleness = 1
cause_code never_served = 2
cause_code retirement = 3
cause_code anchor_staleness = 4
cause_code served_span = 5

unfoldable pub all_have_cause : Cause → List AbortPart → Bool
all_have_cause cause [] = true
all_have_cause cause (part ∷ parts) =
    (cause_code part.cause == cause_code cause) && all_have_cause cause parts

-- The first part is passed by itself, since there is one. `failures` is empty for a single part.
unfoldable pub build_batch_abort : AbortPart → List AbortPart → BatchAbort
build_batch_abort first [] = record {
  index = first.index;
  inner = first.inner;
  served_rows = all_rows (first ∷ []);
  failures = [];
  cause = first.cause;
}
build_batch_abort first (second ∷ rest) = record {
  index = first.index;
  inner = first.inner;
  served_rows = all_rows (first ∷ second ∷ rest);
  failures = first ∷ second ∷ rest;
  cause = if all_have_cause first.cause (second ∷ rest) then first.cause else no_cause;
}

-- `enforceNoopLoop`: a refusal with its count, a warning, or nothing.
pub data NoopAnswer : Type 0 where
  noop_refused : ℕ → Option (List ServedRow) → NoopAnswer
  noop_warned : ℕ → NoopAnswer
  noop_passed : NoopAnswer

unfoldable pub enforce_noop_loop : ℕ → Option (List ServedRow) → NoopAnswer
enforce_noop_loop count part_rows =
    if leb noop_loop_threshold count
    then noop_refused count part_rows
    else if count == 2
    then noop_warned count
    else noop_passed

abbrev pub identity_degrade_report_cap : ℕ
identity_degrade_report_cap = 256

-- What a report leaves of the ledger, oldest path first, and whether it warned.
pub record Reported : Type 0 where
  pub ledger : List Str
  pub warned : Bool

abbrev pub without_oldest : List Str → List Str
without_oldest [] = []
without_oldest (path ∷ paths) = paths

unfoldable pub report_identity_degrade : List Str → Str → Reported
report_identity_degrade ledger path =
    if has path ledger then record { ledger = ledger; warned = false } else record {
      ledger =
          (if leb identity_degrade_report_cap (length ledger)
            then without_oldest ledger
            else ledger)
          ++ path ∷ [];
      warned = true;
    }

-- A line's identity, and the number of its line.
pub record IdAt : Type 0 where
  pub line_id : ℕ
  pub line : ℕ

-- `positions.get(lineId)`: what was set last.
unfoldable pub line_of : ℕ → List IdAt → Option ℕ
line_of id [] = none
line_of id (p ∷ ps) = elim (line_of id ps) [
  | some later ↦ some later
  | none ↦ if p.line_id == id then some p.line else none
]

-- `byPosition.get(line)`.
unfoldable pub id_at : ℕ → List IdAt → Option ℕ
id_at line [] = none
id_at line (p ∷ ps) = elim (id_at line ps) [
  | some later ↦ some later
  | none ↦ if p.line == line then some p.line_id else none
]

abbrev pub ids_from : List IdAt → ℕ → ℕ → List (Option ℕ)
ids_from positions zero line = []
ids_from positions (suc count) line = id_at line positions ∷ ids_from positions count (suc line)

unfoldable pub ids_from_positions : List IdAt → ℕ → List (Option ℕ)
ids_from_positions positions line_count = ids_from positions line_count 1

-- The entries of the lines from the number `line` on.
unfoldable pub positions_from : ℕ → List (Option ℕ) → List IdAt
positions_from line [] = []
positions_from line (none ∷ ids) = positions_from (suc line) ids
positions_from line (some id ∷ ids) =
    record { line_id = id; line = line } ∷ positions_from (suc line) ids

unfoldable pub positions_from_ids : List (Option ℕ) → List IdAt
positions_from_ids ids = positions_from 1 ids

-- `spliceWorkingBufferIds`; the lines of the replacement have no identity.
unfoldable pub splice_working_buffer_ids : List (Option ℕ) → ℕ → ℕ → ℕ → List (Option ℕ)
splice_working_buffer_ids ids range_start range_end line_count =
    let replaced = range_end + 1 - range_start in
    take (range_start - 1) ids
    ++ (replicate (line_count + replaced - length ids) none ++ drop range_end ids)
