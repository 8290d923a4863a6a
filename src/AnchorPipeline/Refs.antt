-- ===== src/AnchorPipeline/Refs.antt =====
-- References and payloads: `parseRef`, `diagRef`, `parseText`, `assertItem`, `firstHashFromBlock` and
-- `resEdit` of src/hashline/anchor-pipeline.ts.
use dsh_better_edit.Prelude.{
  ℕ, Bool, true, false, ◌&&◌, ◌||◌, Option, none, some, List, [], ◌∷◌, Str, units, ◌==◌, leb,
  if◌then◌else◌, get_or, length, str_eq, has, replicate,
}
use dsh_better_edit.Text.{lf, split_nl, to_lf}
use dsh_better_edit.HashAssign.{hash_sep, hash_len, is_alph, matches_hash_re}
use dsh_better_edit.AnchorPipeline.{
  Anchor, HEdit, Reason, empty_ref, leading_digits, separator_tail, not_alphanumeric, block_ref,
  first_of_block, plus_marker, minus_marker, hash_prefix, unknown_fields, from_not_string,
  to_not_string, no_replace_with, replace_with_not_string, no_anchors, Rejection, bad_payload,
  malformed_anchor, Result, ok, err, ◌>>=◌, ◌>>◌,
}

-- The white space of `\s` and of `trim`.
abbrev pub is_space : ℕ → Bool
is_space c =
    (if leb 9 c then leb c 13 else false)
    || (c == 32)
    || (c == 160)
    || (c == 0x1680)
    || (if leb 0x2000 c then leb c 0x200a else false)
    || (c == 0x2028)
    || (c == 0x2029)
    || (c == 0x202f)
    || (c == 0x205f)
    || (c == 0x3000)
    || (c == 0xfeff)

unfoldable pub trim_start : Str → Str
trim_start [] = []
trim_start (c ∷ s) = if is_space c then trim_start s else c ∷ s

-- The rest trimmed at its end, with one more code unit in front.
abbrev pub trim_cons : ℕ → Str → Str
trim_cons c [] = if is_space c then [] else c ∷ []
trim_cons c (d ∷ s) = c ∷ d ∷ s

unfoldable pub trim_end : Str → Str
trim_end [] = []
trim_end (c ∷ s) = trim_cons c (trim_end s)

unfoldable pub trim : Str → Str
trim s = trim_end (trim_start s)

-- `s.includes(c)`.
unfoldable pub includes : ℕ → Str → Bool
includes u [] = false
includes u (c ∷ s) = if c == u then true else includes u s

-- `s.match(new RegExp(HASH_CLASS))`: the first three code units of the alphabet in a row.
unfoldable pub find_class : Str → Option Str
find_class (a ∷ b ∷ c ∷ s) = elim (matches_hash_re (a ∷ b ∷ c ∷ [])) [
  | true ↦ some (a ∷ b ∷ c ∷ [])
  | false ↦ find_class (b ∷ c ∷ s)
]
find_class _ = none

-- ANCHOR_ROW_RE `^([+-]?)(HASH)│`: the marker, if any, and the anchor.
pub record RowMatch : Type 0 where
  pub marker : Option ℕ
  pub anchor : Str

unfoldable pub bare_row : Option ℕ → Str → Option RowMatch
bare_row marker (a ∷ b ∷ c ∷ d ∷ s) =
    if matches_hash_re (a ∷ b ∷ c ∷ []) && (d == hash_sep)
    then some (record { marker = marker; anchor = a ∷ b ∷ c ∷ [] })
    else none
bare_row marker _ = none

unfoldable pub match_row : Str → Option RowMatch
match_row [] = none
match_row (c ∷ s) =
    if (c == b'+') || (c == b'-') then bare_row (some c) s else bare_row none (c ∷ s)

unfoldable pub first_hash_of_lines : List Str → Option Str
first_hash_of_lines [] = none
first_hash_of_lines (line ∷ lines) = elim (match_row line) [
  | some m ↦ some m.anchor
  | none ↦ elim (find_class line) [ some hash ↦ some hash | none ↦ first_hash_of_lines lines ]
]

unfoldable pub first_hash_from_block : Str → Option Str
first_hash_from_block block = first_hash_of_lines (split_nl block)

abbrev pub or_default : Option Str → Str → Str
or_default none d = d
or_default (some s) d = s

unfoldable pub last_line : List Str → Str
last_line [] = []
last_line (l ∷ []) = l
last_line (l ∷ m ∷ ls) = last_line (m ∷ ls)

abbrev pub starts_with_digit : Str → Bool
starts_with_digit [] = false
starts_with_digit (c ∷ s) = if leb b'0' c then leb c b'9' else false

unfoldable pub diag_reason : Str → Reason
diag_reason [] = empty_ref
diag_reason (c ∷ s) =
    let trimmed = c ∷ s in
    if starts_with_digit trimmed
    then leading_digits
    else if includes hash_sep trimmed && includes lf trimmed
    then block_ref (length (split_nl trimmed))
        (or_default (find_class (get_or (split_nl trimmed) 0 [])) (units "wUp"))
        (or_default (find_class (last_line (split_nl trimmed))) (units "AU6"))
    else if includes hash_sep trimmed
    then separator_tail
    else not_alphanumeric

-- ALPH_RE: code units of the alphabet only, at least one.
unfoldable pub all_alph : Str → Bool
all_alph [] = false
all_alph (c ∷ []) = is_alph c
all_alph (c ∷ d ∷ s) = is_alph c && all_alph (d ∷ s)

unfoldable pub parse_ref : Str → Result Anchor
parse_ref ref =
    let trimmed = trim ref in
    if (length trimmed == hash_len) && all_alph trimmed
    then ok (record { hash = trimmed })
    else err (malformed_anchor trimmed (diag_reason trimmed))

-- `/^\n+$/`.
unfoldable pub all_newlines : Str → Bool
all_newlines [] = false
all_newlines (c ∷ []) = c == lf
all_newlines (c ∷ d ∷ s) = (c == lf) && all_newlines (d ∷ s)

abbrev pub text_lines : Str → List Str
text_lines [] = []
text_lines (c ∷ s) =
    if all_newlines (c ∷ s) then replicate (length (c ∷ s)) [] else split_nl (c ∷ s)

unfoldable pub parse_text : Str → List Str
parse_text edit = text_lines (to_lf edit)

-- A field of the payload: a string, or something else.
pub data Value : Type 0 where
  text : Str → Value
  other : Value

abbrev pub Item : Type 0
Item = List (Str × Value)

unfoldable pub field : Str → Item → Option Value
field k [] = none
field k ((j, v) ∷ item) = if str_eq j k then some v else field k item

abbrev pub replace_with_key : Str
replace_with_key = units "replace_with"

abbrev pub from_key : Str
from_key = units "anchor_from"

abbrev pub to_key : Str
to_key = units "anchor_to"

-- `rejectUnknownFields` over ITEM_KS: the keys that are not allowed, in order.
unfoldable pub unknown_keys : Item → List Str
unknown_keys [] = []
unknown_keys ((k, v) ∷ item) =
    if has k (replace_with_key ∷ from_key ∷ to_key ∷ [])
    then unknown_keys item
    else k ∷ unknown_keys item

-- `"k" in edit && typeof edit.k !== "string"`.
abbrev pub is_other : Option Value → Bool
is_other (some other) = true
is_other _ = false

-- The three strings of a valid payload.
pub record HtEdit : Type 0 where
  pub replace_with : Str
  pub anchor_from : Str
  pub anchor_to : Str

-- The last three tests of `assertItem`.
abbrev pub assert_fields : Option Value → Option Value → Option Value → Result HtEdit
assert_fields none from to = err (bad_payload no_replace_with)
assert_fields (some other) from to = err (bad_payload replace_with_not_string)
assert_fields (some (text r)) (some (text f)) (some (text t)) =
    ok (record { replace_with = r; anchor_from = f; anchor_to = t })
assert_fields (some (text r)) from to = err (bad_payload no_anchors)

abbrev pub assert_known : List Str → Result (Unit {0})
assert_known [] = ok tt
assert_known (k ∷ ks) = err (bad_payload (unknown_fields (k ∷ ks)))

abbrev pub reject_if : Bool → Rejection → Result (Unit {0})
reject_if true e = err e
reject_if false e = ok tt

unfoldable pub assert_item : Item → Result HtEdit
assert_item item = do
  assert_known (unknown_keys item)
  reject_if (is_other (field from_key item)) (bad_payload from_not_string)
  reject_if (is_other (field to_key item)) (bad_payload to_not_string)
  assert_fields (field replace_with_key item) (field from_key item) (field to_key item)

-- The reason that a marked row is refused for.
abbrev pub row_reason : Option ℕ → Reason
row_reason none = hash_prefix
row_reason (some c) = if c == b'+' then plus_marker else minus_marker

abbrev pub refuse_row : Str → Option RowMatch → Result (Unit {0})
refuse_row trimmed none = ok tt
refuse_row trimmed (some m) = err (malformed_anchor trimmed (row_reason m.marker))

abbrev pub refuse_block : Str → Option Str → Result (Unit {0})
refuse_block trimmed none = ok tt
refuse_block trimmed (some hash) =
    err (malformed_anchor trimmed (first_of_block hash (length (split_nl trimmed))))

-- What `resEdit` refuses before it parses a reference.
unfoldable pub check_ref : Str → Result (Unit {0})
check_ref ref = do
  refuse_block (trim ref)
      (if includes lf (trim ref) then first_hash_from_block (trim ref) else none)
  refuse_row (trim ref) (match_row (trim ref))

unfoldable pub res_edit : Item → Result HEdit
res_edit item = do
  edit ← assert_item item
  check_ref edit.anchor_from
  check_ref edit.anchor_to
  from ← parse_ref edit.anchor_from
  to ← parse_ref edit.anchor_to
  ok (record { content_lines = parse_text edit.replace_with; from = from; to = to })
