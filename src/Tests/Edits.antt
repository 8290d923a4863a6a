-- ===== src/Tests/Edits.antt =====
-- Edits of a small file, by `applyEdit`, `verifyServedRange` and `valEdit`.
use dsh_better_edit.Prelude.{
  ℕ, ◌<◌, ◌≡◌, ◌≢◌, ◌≤◌, refl, false, none, some, List, [], ◌∷◌, ◌++◌, Str, units, length, take,
  drop, arith, str_eq, starts_with, has,
}
use dsh_better_edit.Text.{split_nl, join_nl, ends_with_nl, drop_last, split_lines}
use dsh_better_edit.HashAssign.{position_of, is_alph, matches_hash_re, canon, alph, hash_sep}
use dsh_better_edit.HashAssign.Stable.{last_index}
use dsh_better_edit.AnchorPipeline.{reversed_anchors, HEdit, RhEdit, ok}
use dsh_better_edit.AnchorPipeline.Prefixes.{
  bare_prefix, plus_prefix, minus_prefix, strip_bare, count_matched, locations_of,
  strip_bare_prefixes, strip_diff, strip_diff_prefixes, strip_prefixes,
}
use dsh_better_edit.AnchorPipeline.Refs.{bare_row, trim_start}
use dsh_better_edit.AnchorPipeline.Resolve.{
  line_by_hash, swap_reversed_ranges, lines_with, res_anchor_from_map, val_edit, resolved,
}
use dsh_better_edit.AnchorPipeline.Resolve.Laws.{IsResolved, val_edit-IsResolved}
use dsh_better_edit.AnchorPipeline.Leases.{
  echo_loop, find_edit_hash_echo, echo_rows, build_range_echo, line_identity_decision,
  intercept_lease_boundaries, for_each, verify_rebased_span, Slot, Lease, LeaseSpanSource,
}
use dsh_better_edit.AnchorPipeline.Verify.{
  served_positions_of, index_of_hash, check_retired_boundary, verify_window, SpanArgs,
  verify_served_range,
}
use dsh_better_edit.AnchorPipeline.Verify.Mirror.{IsGrounded}
use dsh_better_edit.AnchorPipeline.Verify.Leased.{IsTracked, verify_served_range-IsTracked}
use dsh_better_edit.AnchorPipeline.Span.{
  ChangedRange, line_starts, build_idx, lines_eq, delete_span, replace_span, res_to_span, assemble,
  resolved_range, common_prefix, suffix_loop, changed_lines, changed_range,
}
use dsh_better_edit.ServedGuard.{
  shape_of, anchor_shape_from_line, entries_of, any_canon, mismatch_loop,
  find_served_prefix_mismatches, was_served, never_served_loop, find_never_served_anchor_shapes,
}
use dsh_better_edit.AnchorPipeline.Span.Changed.{AgreeOutside, changed_lines-AgreeOutside}
use dsh_better_edit.AnchorPipeline.Span.Replace.{apply_span, replace_span-lines}
use dsh_better_edit.AnchorPipeline.Span.Delete.{delete_span-lines}
use dsh_better_edit.AnchorPipeline.Apply.{
  Options, Applied, Prepared, fix_prefixes, has_unicode_escape, warn_unicode_esc, finish, prepare,
  apply_edit, span_args,
}
use dsh_better_edit.AnchorPipeline.Apply.Order.{prepare-ordered}
use dsh_better_edit.AnchorPipeline.Apply.Laws.{
  apply_edit-untouched, apply_edit-deleted, apply_edit-IsGrounded, apply_edit-not_emptied,
  apply_edit-no_echo,
}

-- A file of three lines and a newline at its end, and its anchors.
abbrev text : Str
text = units "one\ntwo\nsix\n"

abbrev anchors : List Str
anchors = units "AAA" ∷ units "BBB" ∷ units "CCC" ∷ []

abbrev mirror_slots : List Slot
mirror_slots = some (units "AAA") ∷ some (units "BBB") ∷ some (units "CCC") ∷ []

-- A stand-in for the hash function.
abbrev size : Str → ℕ
size s = length s

abbrev options : Options
options = record {
  aborted = false;
  precomputed_hashes = some anchors;
  served = some mirror_slots;
  served_canons = some (some (units "one") ∷ some (units "two") ∷ some (units "six") ∷ []);
  retired = [];
  literal = false;
  lease_source = none;
}

-- The second line becomes two lines.
abbrev rewrite : HEdit
rewrite = record {
  content_lines = units "2" ∷ units "3" ∷ [];
  from = record { hash = units "BBB" };
  to = record { hash = units "BBB" };
}

-- The second line goes.
abbrev removal : HEdit
removal = record {
  content_lines = [];
  from = record { hash = units "BBB" };
  to = record { hash = units "BBB" };
}

abbrev resolved_of : HEdit → RhEdit
resolved_of e = record {
  content_lines = e.content_lines;
  from = record { line = 2; hash = units "BBB" };
  to = record { line = 2; hash = units "BBB" };
}

abbrev prepared_from : HEdit → Prepared
prepared_from e = record {
  file_hashes = anchors;
  warnings = [];
  fixed = record { edit = e; bypassed = false };
  edit = resolved_of e;
}

-- What the runs below compute with.
run : Unit {0}
unfolding bare_row trim_start split_nl join_nl ends_with_nl drop_last split_lines position_of
    is_alph matches_hash_re canon alph last_index bare_prefix plus_prefix minus_prefix strip_bare
    count_matched locations_of strip_bare_prefixes strip_diff strip_diff_prefixes strip_prefixes
    line_by_hash swap_reversed_ranges lines_with res_anchor_from_map val_edit echo_loop
    find_edit_hash_echo echo_rows build_range_echo line_identity_decision intercept_lease_boundaries
    for_each verify_rebased_span served_positions_of index_of_hash check_retired_boundary
    verify_window verify_served_range line_starts build_idx lines_eq delete_span replace_span
    res_to_span assemble resolved_range common_prefix suffix_loop changed_lines changed_range
    shape_of anchor_shape_from_line entries_of any_canon mismatch_loop find_served_prefix_mismatches
    was_served never_served_loop find_never_served_anchor_shapes fix_prefixes has_unicode_escape
    warn_unicode_esc finish prepare apply_edit str_eq starts_with has
run = tt

rewrite_prepared : prepare size text rewrite options ≡ ok (prepared_from rewrite)
unfolding run
rewrite_prepared = refl

removal_prepared : prepare size text removal options ≡ ok (prepared_from removal)
unfolding run
removal_prepared = refl

abbrev rewritten : Applied
rewritten = record {
  content = units "one\n2\n3\nsix\n";
  changed = some (record { first_changed_line = 2; last_changed_line = 3 });
  range = record {
    start_line = 2;
    end_line = 2;
    start_hash = units "BBB";
    end_hash = units "BBB";
    replacement_count = 2;
    replaced_count = 1;
  };
  warnings = [];
  noop_edit = none;
  never_served_count = 0;
}

rewrite_applied : apply_edit size text rewrite options ≡ ok rewritten
unfolding run
rewrite_applied = refl

abbrev removed : Applied
removed = record {
  content = units "one\nsix\n";
  changed = some (record { first_changed_line = 2; last_changed_line = 2 });
  range = record {
    start_line = 2;
    end_line = 2;
    start_hash = units "BBB";
    end_hash = units "BBB";
    replacement_count = 0;
    replaced_count = 1;
  };
  warnings = [];
  noop_edit = none;
  never_served_count = 0;
}

removal_applied : apply_edit size text removal options ≡ ok removed
unfolding run
removal_applied = refl

apply_edit-untouched_example :
    split_nl rewritten.content
    ≡ take 1 (split_nl text) ++ (units "2" ∷ units "3" ∷ drop 2 (split_nl text))
apply_edit-untouched_example =
    apply_edit-untouched size text rewrite options (prepared_from rewrite) rewritten (units "2")
      (units "3" ∷ []) rewrite_prepared rewrite_applied refl refl
      (((λ e. cc), tt), (((λ e. cc), tt), tt))

apply_edit-IsGrounded_example :
    IsGrounded (span_args options (resolved_of rewrite) anchors (split_lines text) mirror_slots)
apply_edit-IsGrounded_example =
    apply_edit-IsGrounded size text rewrite options (prepared_from rewrite) rewritten mirror_slots
      rewrite_prepared rewrite_applied refl refl

apply_edit-no_echo_example : units "2" ≢ units "BBB" ++ hash_sep ∷ units "two"
apply_edit-no_echo_example =
    apply_edit-no_echo size text rewrite options (prepared_from rewrite) rewritten mirror_slots
      rewrite_prepared rewrite_applied refl refl 0 (units "2") (units "BBB") (units "two") refl refl

length_text : 2 < length (split_lines text)
unfolding run
length_text = omega arith

apply_edit-deleted_example :
    split_nl removed.content ≡ take 1 (split_nl text) ++ drop 2 (split_nl text)
apply_edit-deleted_example =
    apply_edit-deleted size text removal options (prepared_from removal) removed removal_prepared
      removal_applied refl refl length_text

replace_span-lines_example :
    split_nl (apply_span text (replace_span 2 2 (units "2" ∷ []) (build_idx text)))
    ≡ take 1 (split_nl text) ++ (units "2" ∷ drop 2 (split_nl text))
replace_span-lines_example =
    replace_span-lines text 2 2 (units "2") [] (omega arith) (omega arith)
      (omega (arith, length_text)) (((λ e. cc), tt), tt)

delete_span-lines_example :
    split_nl (apply_span text (delete_span 2 2 text (build_idx text)))
    ≡ take 1 (split_nl text) ++ drop 2 (split_nl text)
delete_span-lines_example = delete_span-lines text 2 2 (omega arith) (omega arith) length_text

abbrev lone_text : Str
lone_text = []

-- A file that is empty stays empty under an edit that leaves it so.
abbrev lone_options : Options
lone_options = record {
  aborted = false;
  precomputed_hashes = some (units "AAA" ∷ []);
  served = none;
  served_canons = none;
  retired = [];
  literal = false;
  lease_source = none;
}

abbrev lone_edit : HEdit
lone_edit = record {
  content_lines = [] ∷ [];
  from = record { hash = units "AAA" };
  to = record { hash = units "AAA" };
}

abbrev lone : Applied
lone = record {
  content = [];
  changed = none;
  range = record {
    start_line = 1;
    end_line = 1;
    start_hash = units "AAA";
    end_hash = units "AAA";
    replacement_count = 1;
    replaced_count = 1;
  };
  warnings = [];
  noop_edit = some (record { loc = units "AAA"; current_content = [] });
  never_served_count = 0;
}

lone_applied : apply_edit size lone_text lone_edit lone_options ≡ ok lone
unfolding run
lone_applied = refl

apply_edit-not_emptied_example : lone_text ≡ []
apply_edit-not_emptied_example =
    apply_edit-not_emptied size lone_text lone_edit lone_options lone lone_applied refl

-- The same lines by anchors in the wrong order.
abbrev backwards : HEdit
backwards = record {
  content_lines = units "2" ∷ [];
  from = record { hash = units "CCC" };
  to = record { hash = units "BBB" };
}

abbrev forwards : Prepared
forwards = record {
  file_hashes = anchors;
  warnings = reversed_anchors (units "CCC") (units "BBB") ∷ [];
  fixed = record {
    edit = record {
      content_lines = units "2" ∷ [];
      from = record { hash = units "BBB" };
      to = record { hash = units "CCC" };
    };
    bypassed = false;
  };
  edit = record {
    content_lines = units "2" ∷ [];
    from = record { line = 2; hash = units "BBB" };
    to = record { line = 3; hash = units "CCC" };
  };
}

forwards_prepared : prepare size text backwards options ≡ ok forwards
unfolding run
forwards_prepared = refl

prepare-ordered_example : (forwards.edit.content_lines ≡ units "2" ∷ []) × (2 ≤ 3)
prepare-ordered_example = prepare-ordered size text backwards options forwards forwards_prepared

val_edit_run :
    val_edit rewrite (split_lines text) anchors false ≡ ok (resolved (resolved_of rewrite))
unfolding run
val_edit_run = refl

val_edit-IsResolved_example :
    (length anchors ≡ length (split_lines text)) × IsResolved rewrite anchors (resolved_of rewrite)
val_edit-IsResolved_example =
    val_edit-IsResolved rewrite (split_lines text) anchors false (resolved_of rewrite) val_edit_run

-- A lease for the second line, which stands where it was served.
abbrev lease : Lease
lease = record { line_id = 7; served_line_number = 2; served_snapshot_hash = []; retired_at = none }

abbrev source : LeaseSpanSource
source = record {
  lease_for = λ anchor. some lease;
  rebased_line_of = λ id. some 2;
  anchor_homes = λ anchor. [];
}

abbrev leased_args : SpanArgs
leased_args = record {
  served = mirror_slots;
  start_hash = units "BBB";
  end_hash = units "BBB";
  start_line = 2;
  end_line = 2;
  file_hashes = anchors;
  file_lines = units "one" ∷ units "two" ∷ units "six" ∷ [];
  served_canons = none;
  retired = [];
  lease_source = some source;
}

leased_run : verify_served_range leased_args ≡ ok tt
unfolding run
leased_run = refl

verify_served_range-IsTracked_example : IsTracked leased_args source
verify_served_range-IsTracked_example =
    verify_served_range-IsTracked leased_args source refl (omega arith) leased_run

-- The second of three lines became two.
abbrev before_lines : List Str
before_lines = units "one" ∷ units "two" ∷ units "six" ∷ []

abbrev after_lines : List Str
after_lines = units "one" ∷ units "2" ∷ units "3" ∷ units "six" ∷ []

abbrev changed_part : ChangedRange
changed_part = record { first_changed_line = 2; last_changed_line = 3 }

changed_run : changed_lines before_lines after_lines ≡ some changed_part
unfolding run
changed_run = refl

changed_lines-AgreeOutside_example : AgreeOutside before_lines after_lines changed_part
changed_lines-AgreeOutside_example =
    changed_lines-AgreeOutside before_lines after_lines changed_part changed_run
