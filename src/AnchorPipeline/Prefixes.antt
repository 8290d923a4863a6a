-- ===== src/AnchorPipeline/Prefixes.antt =====
-- `stripBarePrefixes` and `stripDiffPrefixes` of src/hashline/anchor-pipeline.ts: replacement lines that
-- open with a row prefix are refused, unless no prefix is an anchor of the file.
use dsh_better_edit.Prelude.{
  ℕ, zero, suc, ◌+◌, Bool, false, ◌&&◌, Option, none, some, List, [], ◌∷◌, ◌++◌, Str, ◌==◌,
  if◌then◌else◌, length, has, drop,
}
use dsh_better_edit.HashAssign.{hash_sep}
use dsh_better_edit.AnchorPipeline.{
  HEdit, stripped_prefix, stripped_diff, bad_anchor, Result, ok, err, ◌>>=◌,
}
use dsh_better_edit.AnchorPipeline.Refs.{trim_start, RowMatch, bare_row}

-- A line taken apart: the anchor of its prefix and what follows the separator.
pub record Prefixed : Type 0 where
  pub anchor : Str
  pub rest : Str

-- The four code units of `HASH│`, dropped.
abbrev pub after_row : Str → Option RowMatch → Option Prefixed
after_row s none = none
after_row s (some m) = some (record { anchor = m.anchor; rest = drop 4 s })

-- HL_BARE_PREFIX_RE `^\s*(HASH)│`.
unfoldable pub bare_prefix : Str → Option Prefixed
bare_prefix line = after_row (trim_start line) (bare_row none (trim_start line))

-- HL_PREFIX_PLUS_RE `^\+HASH│`.
unfoldable pub plus_prefix : Str → Option Prefixed
plus_prefix [] = none
plus_prefix (c ∷ s) = if c == b'+' then after_row s (bare_row none s) else none

-- `^- {3}│`: a removed row without an anchor.
abbrev pub blank_row : Str → Bool
blank_row (a ∷ b ∷ c ∷ d ∷ s) = (a == 32) && (b == 32) && (c == 32) && (d == hash_sep)
blank_row _ = false

-- HL_PREFIX_MINUS_RE `^-(?:HASH│| {3}│)`.
unfoldable pub minus_prefix : Str → Option Prefixed
minus_prefix [] = none
minus_prefix (c ∷ s) =
    if c == b'-'
    then (if blank_row s
        then some (record { anchor = []; rest = drop 4 s })
        else after_row s (bare_row none s))
    else none

-- A prefix that was stripped: the line's 0-based index, and whether its anchor is one of the file.
pub record Stripped : Type 0 where
  pub line_index : ℕ
  pub matched : Bool

pub record StripResult : Type 0 where
  pub lines : List Str
  pub stripped : List Stripped

abbrev pub strip_cons : Str → List Stripped → StripResult → StripResult
strip_cons line found r = record { lines = line ∷ r.lines; stripped = found ++ r.stripped }

-- The `map` of `stripBarePrefixes`, from line index `i`.
unfoldable pub strip_bare : List Str → List Str → ℕ → StripResult
strip_bare file_hashes [] i = record { lines = []; stripped = [] }
strip_bare file_hashes (line ∷ lines) i =
    let rest = strip_bare file_hashes lines (suc i) in
    elim (bare_prefix line) [
      | none ↦ strip_cons line [] rest
      | some p ↦
          strip_cons p.rest (record { line_index = i; matched = has p.anchor file_hashes } ∷ [])
            rest
    ]

unfoldable pub count_matched : List Stripped → ℕ
count_matched [] = 0
count_matched (s ∷ ss) = (if s.matched then 1 else 0) + count_matched ss

-- `replace_with line N` for each stripped line, 1-based.
unfoldable pub locations_of : List Stripped → List ℕ
locations_of [] = []
locations_of (s ∷ ss) = suc s.line_index ∷ locations_of ss

abbrev pub refuse_stripped : HEdit → StripResult → ℕ → Result HEdit
refuse_stripped edit r zero = ok edit
refuse_stripped edit r (suc matched) = err (
    bad_anchor (locations_of r.stripped)
      (stripped_prefix (locations_of r.stripped) (suc matched) (length r.stripped))
      (record edit { content_lines = r.lines }))

unfoldable pub strip_bare_prefixes : HEdit → List Str → Result HEdit
strip_bare_prefixes edit file_hashes =
    let r = strip_bare file_hashes edit.content_lines 0 in
    refuse_stripped edit r (count_matched r.stripped)

-- The `map` of `stripDiffPrefixes`.
unfoldable pub strip_diff : List Str → ℕ → StripResult
strip_diff [] i = record { lines = []; stripped = [] }
strip_diff (line ∷ lines) i =
    let rest = strip_diff lines (suc i) in
    let here : List Stripped = record { line_index = i; matched = false } ∷ [] in
    elim (plus_prefix line) [
      | some p ↦ strip_cons p.rest here rest
      | none ↦ elim (minus_prefix line) [
        | some p ↦ strip_cons p.rest here rest
        | none ↦ strip_cons line [] rest
      ]
    ]

abbrev pub refuse_diff : HEdit → StripResult → List Stripped → Result HEdit
refuse_diff edit r [] = ok edit
refuse_diff edit r (s ∷ ss) = err (
    bad_anchor (locations_of (s ∷ ss)) (stripped_diff (locations_of (s ∷ ss)))
      (record edit { content_lines = r.lines }))

unfoldable pub strip_diff_prefixes : HEdit → Result HEdit
strip_diff_prefixes edit = let r = strip_diff edit.content_lines 0 in refuse_diff edit r r.stripped

-- `stripDiffPrefixes(stripBarePrefixes(edit))`.
unfoldable pub strip_prefixes : HEdit → List Str → Result HEdit
strip_prefixes edit file_hashes = do
  bare ← strip_bare_prefixes edit file_hashes
  strip_diff_prefixes bare
