-- ===== src/Diff.antt =====
-- src/edit-diff.ts: the diff of an edit with its anchors (`genDiff`). The parts come from the package
-- `diff` and are an argument; so are the anchors of the new lines. A row is kept as its data, and
-- `fmt_row` prints it.
pub mod Aligned
pub mod Served
use dsh_better_edit.Prelude.{
  ℕ, zero, suc, not, ◌+◌, ◌-◌, ◌*◌, Bool, true, false, ◌&&◌, ◌||◌, Option, none, some, List, [],
  ◌∷◌, ◌++◌, Str, units, ltb, leb, ◌==◌, if◌then◌else◌, length, get_elem?, take, drop, replicate,
  map, ◌/◌, ◌%◌,
}
use dsh_better_edit.Text.{split_nl, join_nl, drop_last}
use dsh_better_edit.HashAssign.{hash_len, hash_sep}
use dsh_better_edit.AnchorPipeline.{ServedRow}

-- `Change` of the package.
pub record Part : Type 0 where
  pub added : Bool
  pub removed : Bool
  pub value : Str

pub data DiffRow : Type 0 where
  kept_row added_row removed_row : Str → Option Str → DiffRow
  dots : DiffRow
  lines_untouched lines_deleted : ℕ → DiffRow

abbrev pub diff_removed_cap : ℕ
diff_removed_cap = 6

abbrev pub diff_removed_edge : ℕ
diff_removed_edge = 2

-- `fmtDiffLine`.
unfoldable pub fmt_diff_line : ℕ → Str → Option Str → Str
fmt_diff_line sign line none = sign ∷ replicate hash_len b' ' ++ hash_sep ∷ line
fmt_diff_line sign line (some hash) = sign ∷ hash ++ hash_sep ∷ line

-- The decimal digits of a number.
unfoldable pub digits : ℕ → ℕ → Str
digits zero n = []
digits (suc fuel) n =
    let rest = digits fuel (n / 10) in (if ltb n 10 then [] else rest) ++ (48 + n % 10) ∷ []

unfoldable pub fmt_row : DiffRow → Str
fmt_row (kept_row line hash) = fmt_diff_line b' ' line hash
fmt_row (added_row line hash) = fmt_diff_line b'+' line hash
fmt_row (removed_row line hash) = fmt_diff_line b'-' line hash
fmt_row dots = units " ..."
fmt_row (lines_untouched n) = units " ... [" ++ digits (suc n) n ++ units " lines untouched] ..."
fmt_row (lines_deleted n) = units " - ... [" ++ digits (suc n) n ++ units " lines deleted] ..."

-- The last line goes if it is empty.
abbrev pub pop_empty : List Str → List Str
pop_empty [] = []
pop_empty ([] ∷ []) = []
pop_empty ((c ∷ l) ∷ []) = (c ∷ l) ∷ []
pop_empty (l ∷ m ∷ ms) = l ∷ pop_empty (m ∷ ms)

-- `displayLines`.
unfoldable pub display_lines : Part → List Str
display_lines part = pop_empty (split_nl part.value)

-- Rows with the anchors of their lines, which advance the old cursor.
unfoldable pub removed_rows : Option (List Str) → ℕ → List Str → List DiffRow
removed_rows old_hashes cursor [] = []
removed_rows none cursor (line ∷ lines) =
    removed_row line none ∷ removed_rows none (suc cursor) lines
removed_rows (some hashes) cursor (line ∷ lines) =
    removed_row line (get_elem? hashes (cursor - 1)) ∷ removed_rows (some hashes) (suc cursor) lines

-- `formatRemovedLines`; the next old line is behind all of them.
unfoldable pub format_removed_lines : List Str → Option (List Str) → ℕ → List DiffRow
format_removed_lines lines old_hashes old_line =
    if leb (length lines) diff_removed_cap
    then removed_rows old_hashes old_line lines
    else (let omitted = length lines - diff_removed_edge * 2 in
        removed_rows old_hashes old_line (take diff_removed_edge lines)
        ++ (lines_deleted omitted
            ∷ removed_rows old_hashes (old_line + diff_removed_edge + omitted)
                (drop (length lines - diff_removed_edge) lines)))

-- What is printed and what is served.
pub record Emitted : Type 0 where
  pub rows : List DiffRow
  pub served : List ServedRow

abbrev pub append_emitted : Emitted → Emitted → Emitted
append_emitted a b = record { rows = a.rows ++ b.rows; served = a.served ++ b.served }

abbrev pub no_rows : Emitted
no_rows = record { rows = []; served = [] }

abbrev pub serve_row : ℕ → Option Str → List ServedRow → List ServedRow
serve_row position none rest = rest
serve_row position (some hash) rest = record { position = position; hash = hash } ∷ rest

-- New lines shown from the new line number `new_line` on, with the constructor of their rows.
unfoldable pub show_lines : (Str → Option Str → DiffRow) → List Str → ℕ → List Str → Emitted
show_lines row hashes new_line [] = no_rows
show_lines row hashes new_line (line ∷ lines) =
    let rest = show_lines row hashes (suc new_line) lines in
    let hash = get_elem? hashes (new_line - 1) in
    record { rows = row line hash ∷ rest.rows; served = serve_row (new_line - 1) hash rest.served }

abbrev pub is_change : Part → Bool
is_change part = part.added || part.removed

abbrev pub next_is_change : List Part → Bool
next_is_change [] = false
next_is_change (part ∷ parts) = is_change part

-- An unchanged part: what it prints, and how far both cursors move.
pub record Gap : Type 0 where
  pub emitted : Emitted
  pub moved : ℕ

unfoldable pub gap_of : ℕ → List Str → Bool → Bool → ℕ → List Str → Gap
gap_of context hashes last_was_change next_change new_line lines =
    let skip = length lines - context in
    if last_was_change || next_change
    then (if not last_was_change
        then record {
          emitted =
              append_emitted (record { rows = if ltb 0 skip then dots ∷ [] else []; served = [] })
                (show_lines kept_row hashes (new_line + skip) (drop skip lines));
          moved = length lines;
        }
        else if next_change && ltb (context * 2) (length lines)
        then record {
          emitted = append_emitted (show_lines kept_row hashes new_line (take context lines)) (
              append_emitted
                (record { rows = lines_untouched (length lines - context * 2) ∷ []; served = [] })
                (show_lines kept_row hashes (new_line + skip) (drop skip lines)));
          moved = length lines;
        }
        else if not next_change && ltb context (length lines)
        then record {
          emitted = show_lines kept_row hashes new_line (take context lines);
          moved = context;
        }
        else record { emitted = show_lines kept_row hashes new_line lines; moved = length lines })
    else record { emitted = no_rows; moved = length lines }

-- The loop over the parts, with both cursors.
unfoldable pub diff_from : ℕ → List Str → Option (List Str) → Bool → ℕ → ℕ → List Part → Emitted
diff_from context hashes old_hashes last_was_change new_line old_line [] = no_rows
diff_from context hashes old_hashes last_was_change new_line old_line (part ∷ parts) =
    let lines = display_lines part in
    let gap = gap_of context hashes last_was_change (next_is_change parts) new_line lines in
    elim part.added [
      | true ↦
          append_emitted (show_lines added_row hashes new_line lines)
            (diff_from context hashes old_hashes true (new_line + length lines) old_line parts)
      | false ↦ elim part.removed [
        | true ↦
            append_emitted
              (record { rows = format_removed_lines lines old_hashes old_line; served = [] })
              (diff_from context hashes old_hashes true new_line (old_line + length lines) parts)
        | false ↦ append_emitted gap.emitted (
            diff_from context hashes old_hashes false (new_line + gap.moved) (old_line + gap.moved)
              parts)
      ]
    ]

-- The first changed line: the new line number where the first change starts, if there is one.
unfoldable pub first_change_from : ℕ → ℕ → List Part → Option ℕ
first_change_from context new_line [] = none
first_change_from context new_line (part ∷ parts) = elim (is_change part) [
  | true ↦ some new_line
  | false ↦
      first_change_from context
        (new_line
          + (gap_of context [] false (next_is_change parts) new_line (display_lines part)).moved)
        parts
]

pub record Diff : Type 0 where
  pub diff : Str
  pub first_changed_line : Option ℕ
  pub served_rows : List ServedRow

unfoldable pub gen_diff : List Part → ℕ → List Str → Option (List Str) → Diff
gen_diff parts context hashes old_hashes =
    let emitted = diff_from context hashes old_hashes false 1 1 parts in
    record {
      diff = join_nl (map fmt_row emitted.rows);
      first_changed_line = first_change_from context 1 parts;
      served_rows = emitted.served;
    }
