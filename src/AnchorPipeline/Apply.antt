-- ===== src/AnchorPipeline/Apply.antt =====
-- `applyEdit` (src/hashline/anchor-pipeline.ts): the whole pipeline on one edit.
pub mod Laws
pub mod Frame
pub mod Openings
pub mod Order
use dsh_better_edit.Prelude.{
  ℕ, zero, suc, ◌+◌, ◌-◌, Bool, true, false, ◌&&◌, ◌||◌, not, Option, none, some, List, [], ◌∷◌,
  ◌++◌, Str, ◌==◌, leb, ltb, if◌then◌else◌, length, str_eq, get_or, get_elem?, map,
}
use dsh_better_edit.HashAssign.{Allocation, allocated, exhausted, line_hashes_pure}
use dsh_better_edit.AnchorPipeline.{
  HEdit, RAnchor, RhEdit, Rejection, bad_anchor, suspicious_text, stale_anchor, space_exhausted,
  Warning, literal_bypass, unicode_literal, served_prefix_mismatch, Result, ok, err, ◌>>=◌, ◌>>◌,
  abort_if,
}
use dsh_better_edit.AnchorPipeline.Prefixes.{strip_prefixes}
use dsh_better_edit.AnchorPipeline.Resolve.{
  Swapped, swap_reversed_ranges, line_by_hash, Validated, resolved, mismatches, HMismatch, val_edit,
  mismatch_rows,
}
use dsh_better_edit.AnchorPipeline.Leases.{Slot, Echo, find_edit_hash_echo, LeaseSpanSource}
use dsh_better_edit.AnchorPipeline.Verify.{SpanArgs, verify_served_range}
use dsh_better_edit.AnchorPipeline.Span.{
  build_idx, Span, replace, noop, res_to_span, assemble, assert_not_empty, ResolvedRange,
  resolved_range, ChangedRange, changed_range,
}
use dsh_better_edit.ServedGuard.{
  Mismatch, find_served_prefix_mismatches, find_never_served_anchor_shapes,
}

-- The arguments of `applyEdit` beside the content and the edit.
pub record Options : Type 0 where
  pub aborted : Bool
  pub precomputed_hashes : Option (List Str)
  pub served : Option (List Slot)
  pub served_canons : Option (List Slot)
  pub retired : List Str
  pub literal : Bool
  pub lease_source : Option LeaseSpanSource

pub record NEdit : Type 0 where
  pub loc : Str
  pub current_content : Str

pub record Applied : Type 0 where
  pub content : Str
  pub changed : Option ChangedRange
  pub range : ResolvedRange
  pub warnings : List Warning
  pub noop_edit : Option NEdit
  pub never_served_count : ℕ

abbrev pub hashes_from : Allocation → Result (List Str)
hashes_from (allocated hashes) = ok hashes
hashes_from (exhausted e) = err (space_exhausted e.retired_count e.served_count)

-- `precomputedHashes ?? lineHashesPure(content)`.
abbrev pub file_hashes_of : (Str → ℕ) → Str → Option (List Str) → Result (List Str)
file_hashes_of xxh32 content (some hashes) = ok hashes
file_hashes_of xxh32 content none = hashes_from (line_hashes_pure xxh32 content [] none none)

-- The edit after the prefix steps, and whether the literal bypass was noted.
pub record PrefixFixed : Type 0 where
  pub edit : HEdit
  pub bypassed : Bool

abbrev pub first_echo : Option Echo → Option Echo → Option Echo
first_echo (some e) later = some e
first_echo none later = later

-- The two lookups of the `catch`: the raw lines first, then the stripped ones.
abbrev pub stripped_echo : List Str → List Str → List Slot → Option ℕ → Option Echo
stripped_echo raw stripped served none = none
stripped_echo raw stripped served (some start_line) =
    first_echo (find_edit_hash_echo raw served start_line)
      (find_edit_hash_echo stripped served start_line)

abbrev pub or_zero : Option ℕ → ℕ
or_zero none = 0
or_zero (some n) = n

-- `throw error` stands for what is no served echo; a declared literal keeps the raw edit.
abbrev pub judge_echo : Rejection → HEdit → Bool → Option ℕ → Option Echo → Result PrefixFixed
judge_echo error range_fixed literal start_line none = err error
judge_echo error range_fixed literal start_line (some echo) =
    if literal
    then ok (record { edit = range_fixed; bypassed = true })
    else err (suspicious_text echo.k echo.hash (or_zero start_line + echo.k - 1))

abbrev pub recover : HEdit → List Str → Option (List Slot) → Bool → Rejection → Result PrefixFixed
recover range_fixed file_hashes (some served) literal (bad_anchor locations reason stripped) =
    let start_line = line_by_hash file_hashes stripped.from.hash in
    judge_echo (bad_anchor locations reason stripped) range_fixed literal start_line
      (stripped_echo range_fixed.content_lines stripped.content_lines served start_line)
recover range_fixed file_hashes served literal error = err error

abbrev pub catch_prefix :
    HEdit → List Str → Option (List Slot) → Bool → Result HEdit → Result PrefixFixed
catch_prefix range_fixed file_hashes served literal (ok edit) =
    ok (record { edit = edit; bypassed = false })
catch_prefix range_fixed file_hashes served literal (err e) =
    recover range_fixed file_hashes served literal e

unfoldable pub fix_prefixes : HEdit → List Str → Option (List Slot) → Bool → Result PrefixFixed
fix_prefixes range_fixed file_hashes served literal =
    catch_prefix range_fixed file_hashes served literal (strip_prefixes range_fixed file_hashes)

-- `if (mismatches.length || !initialResolved) throw`.
abbrev pub require_resolved : Validated → List Str → List Str → Result RhEdit
require_resolved (resolved r) file_lines file_hashes = ok r
require_resolved (mismatches ms) file_lines file_hashes =
    err (stale_anchor (mismatch_rows ms file_lines file_hashes))

-- `/\\uDDDD/i`: a backslash, a letter u and four letters d, in either case.
abbrev pub is_letter : ℕ → ℕ → Bool
is_letter lower c = (c == lower) || (c == lower - 32)

unfoldable pub has_unicode_escape : Str → Bool
has_unicode_escape (a ∷ b ∷ c ∷ d ∷ e ∷ f ∷ s) =
    let rest = has_unicode_escape (b ∷ c ∷ d ∷ e ∷ f ∷ s) in
    if (a == b'\\')
      && is_letter b'u' b
      && is_letter b'd' c
      && is_letter b'd' d
      && is_letter b'd' e
      && is_letter b'd' f
    then true
    else rest
has_unicode_escape _ = false

-- `warnUnicodeEsc`: the first such line, 1-based.
unfoldable pub warn_unicode_esc : List Str → ℕ → List Warning
warn_unicode_esc [] i = []
warn_unicode_esc (line ∷ lines) i =
    if has_unicode_escape line then unicode_literal (suc i) ∷ [] else warn_unicode_esc lines (suc i)

-- The served-echo gate, on the raw, the resolved and the prefix-fixed lines; it returns the note.
abbrev pub gate_echo : Bool → Bool → ℕ → Option Echo → Result (List Warning)
gate_echo literal bypassed start_line none = ok []
gate_echo literal bypassed start_line (some echo) =
    if literal
    then ok (if bypassed then [] else literal_bypass ∷ [])
    else err (suspicious_text echo.k echo.hash (start_line + echo.k - 1))

-- The arguments of `verifyServedRange`.
abbrev pub span_args : Options → RhEdit → List Str → List Str → List Slot → SpanArgs
span_args o r file_hashes file_lines served = record {
  served = served;
  start_hash = r.from.hash;
  end_hash = r.to.hash;
  start_line = r.from.line;
  end_line = r.to.line;
  file_hashes = file_hashes;
  file_lines = file_lines;
  served_canons = o.served_canons;
  retired = o.retired;
  lease_source = o.lease_source;
}

-- The three lookups of the gate: the raw, the resolved and the prefix-fixed lines.
abbrev pub gate_lookup : HEdit → PrefixFixed → RhEdit → List Slot → Option Echo
gate_lookup edit fixed r served =
    first_echo (find_edit_hash_echo edit.content_lines served r.from.line) (
      first_echo (find_edit_hash_echo r.content_lines served r.from.line)
        (find_edit_hash_echo fixed.edit.content_lines served r.from.line))

-- `if (served) { … }`: the gate, then the verification of the span.
abbrev pub check_served_span :
    Options
    → HEdit
    → PrefixFixed
    → RhEdit
    → List Str
    → List Str
    → Option (List Slot)
    → Result (List Warning)
check_served_span o edit fixed r file_hashes file_lines none = ok []
check_served_span o edit fixed r file_hashes file_lines (some served) = do
  notes ← gate_echo o.literal fixed.bypassed r.from.line (gate_lookup edit fixed r served)
  verify_served_range (span_args o r file_hashes file_lines served)
  ok notes

abbrev pub or_empty : Option (List Slot) → List Slot
or_empty none = []
or_empty (some slots) = slots

abbrev pub prefix_note : Mismatch → Warning
prefix_note m = served_prefix_mismatch m.k m.anchor m.served_line

abbrev pub prefix_notes : Option (List Slot) → Option (List Slot) → List Str → List Warning
prefix_notes none canons lines = []
prefix_notes (some served) canons lines =
    map prefix_note (find_served_prefix_mismatches lines served (or_empty canons) 1)

abbrev pub noop_result : Str → RhEdit → List Warning → Str → Str → Applied
noop_result content r warnings loc current = record {
  content = content;
  changed = none;
  range = resolved_range r;
  warnings = warnings;
  noop_edit = some (record { loc = loc; current_content = current });
  never_served_count = 0;
}

abbrev pub replace_result : Str → RhEdit → Options → List Warning → Str → Applied
replace_result content r o warnings result = record {
  content = result;
  changed = changed_range content result;
  range = resolved_range r;
  warnings = warnings ++ prefix_notes o.served o.served_canons r.content_lines;
  noop_edit = none;
  never_served_count =
      length (find_never_served_anchor_shapes r.content_lines (or_empty o.served) 1);
}

-- From the span on: a no-op returns the content, anything else is assembled and checked.
unfoldable pub finish : Str → RhEdit → Options → List Warning → Span → Result Applied
finish content r o warnings (noop loc current) = ok (noop_result content r warnings loc current)
finish content r o warnings (replace start end replacement) = do
  abort_if o.aborted
  assert_not_empty content (assemble content start end replacement)
  ok (replace_result content r o warnings (assemble content start end replacement))

-- The steps up to the resolved edit.
pub record Prepared : Type 0 where
  pub file_hashes : List Str
  pub warnings : List Warning
  pub fixed : PrefixFixed
  pub edit : RhEdit

abbrev pub bypass_note : PrefixFixed → List Warning
bypass_note fixed = if fixed.bypassed then literal_bypass ∷ [] else []

abbrev pub prepared_of : HEdit → List Str → PrefixFixed → RhEdit → Prepared
prepared_of edit file_hashes fixed r = record {
  file_hashes = file_hashes;
  warnings =
      (swap_reversed_ranges edit file_hashes).warnings
      ++ (bypass_note fixed ++ warn_unicode_esc fixed.edit.content_lines 0);
  fixed = fixed;
  edit = r;
}

-- From `valEdit` on.
abbrev pub resolve_fixed : List Str → HEdit → Options → List Str → PrefixFixed → Result Prepared
resolve_fixed file_lines edit o file_hashes fixed = do
  validated ← val_edit fixed.edit file_lines file_hashes o.aborted
  r ← require_resolved validated file_lines file_hashes
  ok (prepared_of edit file_hashes fixed r)

-- From `swapReversedRanges` on.
abbrev pub fix_and_resolve : List Str → HEdit → Options → List Str → Result Prepared
fix_and_resolve file_lines edit o file_hashes = do
  fixed ← fix_prefixes (swap_reversed_ranges edit file_hashes).edit file_hashes o.served o.literal
  resolve_fixed file_lines edit o file_hashes fixed

unfoldable pub prepare : (Str → ℕ) → Str → HEdit → Options → Result Prepared
prepare xxh32 content edit o = do
  abort_if o.aborted
  file_hashes ← file_hashes_of xxh32 content o.precomputed_hashes
  fix_and_resolve (build_idx content).file_lines edit o file_hashes

unfoldable pub apply_edit : (Str → ℕ) → Str → HEdit → Options → Result Applied
apply_edit xxh32 content edit o = do
  p ← prepare xxh32 content edit o
  notes ←
      check_served_span o edit p.fixed p.edit p.file_hashes (build_idx content).file_lines o.served
  finish content p.edit o (p.warnings ++ notes) (res_to_span p.edit content (build_idx content))
